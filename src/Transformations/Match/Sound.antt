-- ===== src/Transformations/Match/Sound.antt =====
-- How the answer of `get_match_resources` of transformations.py relates to the request.
use ocudu_infra_srs.Prelude.{
  false, ℕ, zero, suc, ◌≡◌, refl, sym, ap, subst, ◌⊎◌, inl, inr, Bool, true, ◌&&◌, Option, none,
  some, List, [], ◌∷◌, map, ◌==◌, if◌then◌else◌, length, In, here, there, In-append, In-single,
  &&-eq-true, map-In, flat_map-In, select-In, Bool-cases,
}
use ocudu_infra_srs.Prelude.Int.{ℤ, pos, negsuc, negate}
use ocudu_infra_srs.Prelude.Action.{Result, ok}
use ocudu_infra_srs.Prelude.Outcome.{ok-injective}
use ocudu_infra_srs.Elements.{Node}
use ocudu_infra_srs.Cluster.{Platform}
use ocudu_infra_srs.Cluster.Laws.{IsLawful}
use ocudu_infra_srs.Resources.{Resource, is_cluster, resource_eq}
use ocudu_infra_srs.Transformations.Match.Fits.{NodeSuits, node_fits-NodeSuits}
use ocudu_infra_srs.Transformations.Match.{
  Candidate, node_fits, is_dummy, with_copy, as_is, on_nodes, is_none, candidates_at,
  candidates_from, matching, product, tag, set_ids, combinations, set_len, pick, first_of_shuffled,
  get_match_resources, pick_unless, matching_raises,
}

-- One element of each row.
abbrev pub Chosen : {A : Type 0} → List A → List (List A) → Type 0
Chosen [] [] = Unit
Chosen (x ∷ xs) (row ∷ rows) = In x row × Chosen xs rows
Chosen _ _ = ⊥

pub product-Chosen :
    {A : Type 0} (rows : List (List A)) (array : List A)
    → In array (product rows)
    → Chosen array rows
unfolding product
product-Chosen [] array i = subst (λ a. Chosen a []) (sym (In-single i)) tt
product-Chosen (row ∷ rows) array i =
    let (x, in_row, j) = flat_map-In (λ x. map (λ a. x ∷ a) (product rows)) row i in
    let (rest, in_rest, e) = map-In (λ a. x ∷ a) (product rows) j in
    subst (λ a. Chosen a (row ∷ rows)) e (in_row, product-Chosen rows rest in_rest)

-- The nodes do not matter for a cluster resource and for a request without labels.
abbrev pub Suits : Resource → Resource → Type 0
Suits input r =
    (is_cluster input ≡ true)
    ⊎ (input.node ≡ none)
    ⊎ ((asked : Node) × (own : Node) × (input.node ≡ some asked)
        × (r.node ≡ some own)
        × NodeSuits asked own)

-- `r` is `source` under `f`; a dummy may be given a copy of it that differs in its capacity.
abbrev pub Given : ℕ → Resource → (Resource → Resource) → Resource → Resource → Type 0
Given index input f source r =
    (r ≡ f source)
    ⊎ ((input.capacity ≡ pos 0) × (r ≡ f (record source { capacity = negate index })))

-- `r` is a resource of the complete list, with `f` applied, that fits the request `input` at `index`.
pub record IsMatch (p : Platform) (complete : List Resource) (index : ℕ) (input : Resource)
    (f : Resource → Resource) (r : Resource) : Type 0 where
  pub source : Resource
  pub listed : In source complete
  pub equal : resource_eq p input source ≡ true
  pub free : source.id_name ≡ none
  pub suits : Suits input source
  pub given : Given index input f source r

is_dummy-eq : (c : ℤ) → is_dummy c ≡ true → c ≡ pos 0
is_dummy-eq (pos zero) h = refl
is_dummy-eq (pos (suc n)) h = cc
is_dummy-eq (negsuc n) h = cc

is_none-eq : {A : Type 0} (o : Option A) → is_none o ≡ true → o ≡ none
is_none-eq none h = refl
is_none-eq (some a) h = cc

module _ (index : ℕ) (input : Resource) where
  abbrev Plain : Resource → Candidate → Type 0
  Plain r c = Given index input (λ x. x) r c.resource

  with_copy-Plain : (place : ℕ) (r : Resource) → Plain r (with_copy index input place r)
  unfolding with_copy
  with_copy-Plain place r = elim (Bool-cases (is_dummy input.capacity)) [
    | inl e ↦ rw e (inr (is_dummy-eq input.capacity e, refl))
    | inr e ↦ rw e (inl refl)
  ]

  on_nodes-Suits :
      (node_in node_out : Option Node) (place : ℕ) (r : Resource) (c : Candidate)
      → input.node ≡ node_in
      → r.node ≡ node_out
      → In c (on_nodes index input node_in node_out place r)
      → Suits input r × Plain r c
  unfolding on_nodes
  on_nodes-Suits none node_out place r c e₁ e₂ i =
      (inr (inl e₁), inl (ap (λ (d : Candidate). d.resource) (In-single i)))
  on_nodes-Suits (some n) none place r c e₁ e₂ i = elim i [ ]
  on_nodes-Suits (some n) (some m) place r c e₁ e₂ i = elim (Bool-cases (node_fits n m)) [
    | inl e ↦
        let same = In-single (rw e at i) in
        (inr (inr (n, m, e₁, e₂, node_fits-NodeSuits n m e)), rw same (with_copy-Plain place r))
    | inr e ↦ let none_left : In c [] = rw e at i in elim none_left [ ]
  ]

  candidates_at-Suits :
      (p : Platform) (place : ℕ) (r : Resource) (c : Candidate)
      → In c (candidates_at p index input place r)
      → (resource_eq p input r ≡ true) × (r.id_name ≡ none) × Suits input r × Plain r c
  unfolding candidates_at
  candidates_at-Suits p place r c i =
      elim (Bool-cases (resource_eq p input r && is_none r.id_name)) [
        | inl e ↦
            let (eq, unnamed) = &&-eq-true _ _ e in
            let j : In c (
                if is_cluster input
                then as_is place r ∷ []
                else on_nodes index input input.node r.node place r) =
              rw e at i in
            elim (Bool-cases (is_cluster input)) [
              | inl k ↦ (
                eq,
                is_none-eq r.id_name unnamed,
                inl k,
                inl (ap (λ (d : Candidate). d.resource) (In-single (rw k at j))),
              )
              | inr k ↦
                  let (suits, plain) =
                    on_nodes-Suits input.node r.node place r c refl refl (rw k at j) in
                  (eq, is_none-eq r.id_name unnamed, suits, plain)
            ]
        | inr e ↦ let none_left : In c [] = rw e at i in elim none_left [ ]
      ]

  pub candidates_from-IsMatch :
      (p : Platform) (complete : List Resource) (place : ℕ) (rs : List Resource) (c : Candidate)
      → ((r : Resource) → In r rs → In r complete)
      → In c (candidates_from p index input place rs)
      → IsMatch p complete index input (λ x. x) c.resource
  unfolding candidates_from
  candidates_from-IsMatch p complete place [] c sub i = elim i [ ]
  candidates_from-IsMatch p complete place (r ∷ rs) c sub i =
      elim (In-append (candidates_at p index input place r) _ i) [
        | inl j ↦
            let (eq, free, suits, plain) = candidates_at-Suits p place r c j in
            record {
              source = r;
              listed = sub r here;
              equal = eq;
              free = free;
              suits = suits;
              given = plain;
            }
        | inr j ↦ candidates_from-IsMatch p complete (suc place) rs c (λ x k. sub x (there k)) j
      ]

-- A result for each request, in order, each of which fits its request.
abbrev pub AllMatch : Platform → List Resource → Bool → ℕ → List Resource → List Resource → Type 0
AllMatch p complete enable index [] [] = Unit
AllMatch p complete enable index (input ∷ inputs) (r ∷ rs) =
    IsMatch p complete index input (tag enable input) r
    × AllMatch p complete enable (suc index) inputs rs
AllMatch p complete enable index _ _ = ⊥

Given-tag :
    (f : Resource → Resource) (index : ℕ) (input source r : Resource)
    → Given index input (λ x. x) source r
    → Given index input f source (f r)
Given-tag f index input source r (inl e) = inl (ap f e)
Given-tag f index input source r (inr (d, e)) = inr (d, ap f e)

Chosen-AllMatch :
    (p : Platform) (complete : List Resource) (enable : Bool) (index : ℕ) (inputs : List Resource)
    (array : List Candidate)
    → Chosen array (matching p index inputs complete)
    → AllMatch p complete enable index inputs (set_ids enable inputs array)
unfolding matching set_ids
Chosen-AllMatch p complete enable index [] [] h = tt
Chosen-AllMatch p complete enable index [] (c ∷ array) h = elim h [ ]
Chosen-AllMatch p complete enable index (input ∷ inputs) [] h = elim h [ ]
Chosen-AllMatch p complete enable index (input ∷ inputs) (c ∷ array) h =
    let m = candidates_from-IsMatch index input p complete 0 complete c (λ r i. i) h.0 in
    (
      record {
        source = m.source;
        listed = m.listed;
        equal = m.equal;
        free = m.free;
        suits = m.suits;
        given = Given-tag (tag enable input) index input m.source c.resource m.given;
      },
      Chosen-AllMatch p complete enable (suc index) inputs array h.1,
    )

-- A result of `get_match_resources` is `set_ids` of one of the combinations, or empty because there is none.
pub get_match_resources_cases :
    {p : Platform}
    → IsLawful p
    → (inputs complete : List Resource) (enable : Bool) (w w' : p.World) (result : List Resource)
    → get_match_resources p inputs complete enable w ≡ (ok result, w')
    → ((result ≡ []) × (combinations p inputs complete ≡ []))
      ⊎ ((array : List Candidate) × In array (combinations p inputs complete)
          × (result ≡ set_ids enable inputs array))
unfolding get_match_resources pick_unless
get_match_resources_cases law [] complete enable w w' result e = cc
get_match_resources_cases {p} law (input ∷ inputs) complete enable w w' result e =
    unless (matching_raises p (input ∷ inputs) complete) e
  where
    shuffled :
        (cs l : List (List Candidate)) (w₁ : p.World)
        → ((a : List Candidate) → In a l → In a cs)
        → first_of_shuffled p enable (input ∷ inputs) l w₁ ≡ (ok result, w')
        → (array : List Candidate) × In array cs × (result ≡ set_ids enable (input ∷ inputs) array)
    shuffled cs [] w₁ sub h = cc
    shuffled cs (array ∷ l) w₁ sub h = (
      array,
      sub array here,
      sym (ok-injective (ap (λ (x : Result (List Resource) × p.World). x.0) h)),
    )

    go :
        (cs : List (List Candidate))
        → combinations p (input ∷ inputs) complete ≡ cs
        → pick p enable (input ∷ inputs) cs w ≡ (ok result, w')
        → ((result ≡ []) × (combinations p (input ∷ inputs) complete ≡ []))
          ⊎ ((array : List Candidate) × In array (combinations p (input ∷ inputs) complete)
              × (result ≡ set_ids enable (input ∷ inputs) array))
    go [] same h =
        inl (sym (ok-injective (ap (λ (x : Result (List Resource) × p.World). x.0) h)), same)
    go (c ∷ cs) same h =
        let (l, w₁) = p.shuffle (c ∷ cs) w in
        let (array, i, is) = shuffled (c ∷ cs) l w₁ (λ a. law.shuffle_sound (c ∷ cs) w a) h in
        inr (array, rw same i, is)

    unless :
        (b : Bool)
        → pick_unless p b enable (input ∷ inputs) (combinations p (input ∷ inputs) complete) w
          ≡ (ok result, w')
        → ((result ≡ []) × (combinations p (input ∷ inputs) complete ≡ []))
          ⊎ ((array : List Candidate) × In array (combinations p (input ∷ inputs) complete)
              × (result ≡ set_ids enable (input ∷ inputs) array))
    unless true h = cc
    unless false h = go (combinations p (input ∷ inputs) complete) refl h

-- Whatever `get_match_resources` returns is empty, or has for each requested resource, in order, a resource of
-- the list it was given that is equal to the request (type, and model by the request's pattern), that nobody has
-- claimed in that list, and whose node has the labels and taints asked for; it carries the name of the request
-- where ids are enabled. Only a dummy may come as a copy, with the negated index as its capacity.
pub get_match_resources-AllMatch :
    {p : Platform}
    → IsLawful p
    → (inputs complete : List Resource) (enable : Bool) (w w' : p.World) (result : List Resource)
    → get_match_resources p inputs complete enable w ≡ (ok result, w')
    → (result ≡ []) ⊎ AllMatch p complete enable 0 inputs result
unfolding combinations
get_match_resources-AllMatch {p} law inputs complete enable w w' result e =
    elim (get_match_resources_cases law inputs complete enable w w' result e) [
      | inl (empty, _) ↦ inl empty
      | inr (array, i, is) ↦
          let (j, _) =
            select-In (λ a. set_len p [] a == length inputs)
              (product (matching p 0 inputs complete)) i in
          inr (
            rw is (
              Chosen-AllMatch p complete enable 0 inputs array
                (product-Chosen (matching p 0 inputs complete) array j)))
    ]
