-- ===== src/Transformations/Match/Complete.antt =====
-- When `get_match_resources` answers, and with how much.
use ocudu_infra_srs.Prelude.{
  suc, ◌≤◌, ◌≡◌, ◌≢◌, refl, sym, ap, subst, inl, inr, ◌∙◌, Bool, true, false, All, ◌++◌, List, [],
  ◌∷◌, map, arith, ◌==◌, length, In, here, In-select, In-flat_map, In-map, select-In,
}
use ocudu_infra_srs.Prelude.Text.{Text, text, text_eq}
use ocudu_infra_srs.Prelude.Action.{Result, ok, raised, re_error}
use ocudu_infra_srs.Cluster.{Platform}
use ocudu_infra_srs.Cluster.Laws.{IsLawful, config_map_at}
use ocudu_infra_srs.Cluster.Growth.{Later}
use ocudu_infra_srs.Resources.{Resource, type_r}
use ocudu_infra_srs.Transformations.Match.{
  Candidate, matching, product, set_len, set_ids, combinations, pick, first_of_shuffled,
  get_match_resources, pick_unless, matching_raises,
}
use ocudu_infra_srs.Transformations.Match.Sound.{Chosen, product-Chosen, get_match_resources_cases}
use ocudu_infra_srs.Transformations.Match.Patterns.{
  Compiles, matching_raises-false, matching_raises-true,
}
use ocudu_infra_srs.Transformations.Match.Distinct.{Chosen-length}

Chosen-product :
    {A : Type 0} (rows : List (List A)) (array : List A)
    → Chosen array rows
    → In array (product rows)
unfolding product
Chosen-product [] [] h = here
Chosen-product [] (x ∷ array) h = elim h [ ]
Chosen-product (row ∷ rows) [] h = elim h [ ]
Chosen-product (row ∷ rows) (x ∷ array) h =
    In-flat_map (λ x. map (λ a. x ∷ a) (product rows)) row h.0
      (In-map (λ a. x ∷ a) (product rows) (Chosen-product rows array h.1))

length-set_ids :
    (enable : Bool) (inputs : List Resource) (array : List Candidate)
    → length inputs ≡ length array
    → length (set_ids enable inputs array) ≡ length inputs
unfolding set_ids
length-set_ids enable [] [] h = refl
length-set_ids enable [] (c ∷ array) h = absurd (omega arith)
length-set_ids enable (x ∷ inputs) [] h = absurd (omega arith)
length-set_ids enable (x ∷ inputs) (c ∷ array) h =
    ap suc (length-set_ids enable inputs array (omega arith))

-- Nothing of the cluster is changed, and no time is lost.
abbrev pub Quiet : (p : Platform) → p.World → p.World → Type 0
Quiet p w w' = (p.now w ≤ p.now w') × ((n : Text) → config_map_at p w' n ≡ config_map_at p w n)

module _ {p : Platform} (law : IsLawful p) (enable : Bool) (inputs : List Resource) where
  abbrev Answers : p.World → Result (List Resource) × p.World → Type 0
  Answers w out = (result : List Resource) × (w' : p.World) × (out ≡ (ok result, w')) × Quiet p w w'

  shuffled-Answers :
      (w w₁ : p.World) (l : List (List Candidate))
      → Quiet p w w₁
      → (a : List Candidate) → In a l
      → Answers w (first_of_shuffled p enable inputs l w₁)
  unfolding first_of_shuffled
  shuffled-Answers w w₁ [] q a i = elim i [ ]
  shuffled-Answers w w₁ (array ∷ l) q a i = (set_ids enable inputs array, w₁, refl, q)

  pick-Answers : (w : p.World) (cs : List (List Candidate)) → Answers w (pick p enable inputs cs w)
  unfolding pick
  pick-Answers w [] = ([], w, refl, (omega arith, λ n. refl))
  pick-Answers w (c ∷ cs) =
      let (l, w₁) = p.shuffle (c ∷ cs) w in
      shuffled-Answers w w₁ l (law.shuffle_later (c ∷ cs) w, law.shuffle_keeps (c ∷ cs) w) c
        (law.shuffle_complete (c ∷ cs) w c here)

-- A request that is not empty is answered when the models of the request and of the list make patterns that compile, and
-- the answer leaves every config map as it was and loses no time.
pub get_match_resources-Answers :
    {p : Platform} (law : IsLawful p) (enable : Bool) (inputs complete : List Resource)
    (w : p.World)
    → inputs ≢ []
    → All (Compiles p) inputs
    → All (Compiles p) complete
    → (result : List Resource) × (w' : p.World) × (get_match_resources p inputs complete enable w
        ≡ (ok result, w'))
      × Quiet p w w'
unfolding get_match_resources pick_unless
get_match_resources-Answers law enable [] complete w h asked all = absurd (h refl)
get_match_resources-Answers {p} law enable (x ∷ inputs) complete w h asked all =
    let (result, w', e, quiet) =
      pick-Answers law enable (x ∷ inputs) w (combinations p (x ∷ inputs) complete) in
    (
      result,
      w',
      ap (λ b. pick_unless p b enable (x ∷ inputs) (combinations p (x ∷ inputs) complete) w)
            (matching_raises-false p (x ∷ inputs) complete asked all)
          ∙ e,
      quiet,
    )

-- When the model of a requested resource makes a pattern that does not compile and the list has a resource of the same
-- type, re.error is raised and nothing is changed.
pub get_match_resources-re_error :
    (p : Platform) (enable : Bool) (inputs complete : List Resource) (x r : Resource) (w : p.World)
    → In x inputs
    → In r complete
    → text_eq (type_r x.kind) (type_r r.kind) ≡ true
    → p.re_compiles (text "^" ++ (x.model ++ text "$")) ≡ false
    → get_match_resources p inputs complete enable w ≡ (raised re_error, w)
unfolding get_match_resources pick_unless
get_match_resources-re_error p enable [] complete x r w i j same bad = elim i [ ]
get_match_resources-re_error p enable (y ∷ inputs) complete x r w i j same bad =
    ap (λ b. pick_unless p b enable (y ∷ inputs) (combinations p (y ∷ inputs) complete) w)
      (matching_raises-true p (y ∷ inputs) complete x r i j same bad)

pub get_match_resources-Later :
    {p : Platform} (law : IsLawful p) (enable : Bool) (inputs complete : List Resource)
    → Later p (get_match_resources p inputs complete enable)
unfolding get_match_resources pick_unless
get_match_resources-Later law enable [] complete w = omega arith
get_match_resources-Later {p} law enable (x ∷ inputs) complete w =
    later (matching_raises p (x ∷ inputs) complete)
  where
    later :
        (b : Bool)
        → p.now w
          ≤ p.now (pick_unless p b enable (x ∷ inputs) (combinations p (x ∷ inputs) complete) w).1
    later true = omega arith
    later false =
        let (result, w', e, quiet) =
          pick-Answers law enable (x ∷ inputs) w (combinations p (x ∷ inputs) complete) in
        subst (λ (out : Result (List Resource) × p.World). p.now w ≤ p.now out.1) (sym e) quiet.0

-- If each requested resource can be given a candidate such that a set of them has as many elements as the
-- request, then what `get_match_resources` returns is as long as the request.
pub get_match_resources_complete :
    {p : Platform}
    → IsLawful p
    → (inputs complete : List Resource) (enable : Bool) (w w' : p.World) (result : List Resource)
      (array : List Candidate)
    → get_match_resources p inputs complete enable w ≡ (ok result, w')
    → Chosen array (matching p 0 inputs complete)
    → set_len p [] array ≡ length inputs
    → length result ≡ length inputs
unfolding combinations
get_match_resources_complete {p} law inputs complete enable w w' result array e chosen size =
    elim (get_match_resources_cases law inputs complete enable w w' result e) [
      | inl (empty, none_left) ↦
          let i : In array (combinations p inputs complete) =
            In-select (λ a. set_len p [] a == length inputs)
              (product (matching p 0 inputs complete))
              (Chosen-product (matching p 0 inputs complete) array chosen) (ground arith) in
          let nowhere : In array [] = rw none_left at i in elim nowhere [ ]
      | inr (found, i, is) ↦
          let (j, _) =
            select-In (λ a. set_len p [] a == length inputs)
              (product (matching p 0 inputs complete)) i in
          let n =
            Chosen-length p complete 0 inputs found
              (product-Chosen (matching p 0 inputs complete) found j) in
          rw is (length-set_ids enable inputs found n)
    ]
