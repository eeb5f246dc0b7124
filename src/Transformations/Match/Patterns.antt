-- ===== src/Transformations/Match/Patterns.antt =====
-- When the comparisons of `get_match_resources` raise re.error.
use ocudu_infra_srs.Prelude.{
  ℕ, suc, ◌≡◌, refl, sym, subst, inl, inr, Bool, true, false, List, [], ◌∷◌, ◌++◌, any, arith,
  if◌then◌else◌, Bool-cases, In, here, there, All, All-In, All-intro, All-append,
}
use ocudu_infra_srs.Prelude.Text.{text, text_eq}
use ocudu_infra_srs.Cluster.{Platform}
use ocudu_infra_srs.Resources.{Resource, eq_raises, type_r}
use ocudu_infra_srs.Transformations.Match.{
  Candidate, matching, product, same_element, adding_raises, set_raises, matching_raises,
}
use ocudu_infra_srs.Transformations.Match.Sound.{
  IsMatch, Chosen, product-Chosen, candidates_from-IsMatch,
}

-- The model of a resource makes a pattern that compiles.
abbrev pub Compiles : (p : Platform) → Resource → Type 0
Compiles p r = p.re_compiles (text "^" ++ (r.model ++ text "$")) ≡ true

any-false : {A : Type 0} (f : A → Bool) (xs : List A) → All (λ x. f x ≡ false) xs → any f xs ≡ false
any-false f [] h = refl
any-false f (x ∷ xs) h = rw (h.0) (any-false f xs h.1)

any-true :
    {A : Type 0} (f : A → Bool) {x : A} (xs : List A) → In x xs → f x ≡ true → any f xs ≡ true
any-true f [] i e = elim i [ ]
any-true f (x ∷ xs) here e = rw e refl
any-true f (y ∷ xs) (there i) e = elim (Bool-cases (f y)) [
  | inl k ↦ rw k refl
  | inr k ↦ rw k (any-true f xs i e)
]

module _ (p : Platform) where
  eq_raises-Compiles : (a b : Resource) → Compiles p a → eq_raises p a b ≡ false
  unfolding eq_raises
  eq_raises-Compiles a b h = rw h (ground arith)

  adding_raises-false :
      (c : Candidate) (seen : List Candidate)
      → All (λ s. Compiles p s.resource) seen
      → adding_raises p c seen ≡ false
  unfolding adding_raises
  adding_raises-false c [] h = refl
  adding_raises-false c (s ∷ seen) h =
      let quiet = eq_raises-Compiles s.resource c.resource h.0 in
      let rest = adding_raises-false c seen h.1 in rw (quiet, rest) (ground arith)

  if-All :
      (b : Bool) (seen : List Candidate) (c : Candidate)
      → All (λ s. Compiles p s.resource) seen
      → Compiles p c.resource
      → All (λ s. Compiles p s.resource) (if b then seen else seen ++ c ∷ [])
  if-All true seen c h k = h
  if-All false seen c h k = All-append (λ s. Compiles p s.resource) seen (c ∷ []) h (k, tt)

  set_raises-false :
      (seen array : List Candidate)
      → All (λ s. Compiles p s.resource) seen
      → All (λ s. Compiles p s.resource) array
      → set_raises p seen array ≡ false
  unfolding set_raises
  set_raises-false seen [] h k = refl
  set_raises-false seen (c ∷ array) h k = rw (adding_raises-false c seen h) (
      set_raises-false (if any (λ s. same_element p s c) seen then seen else seen ++ c ∷ []) array
        (if-All (any (λ s. same_element p s c) seen) seen c h k.0) k.1)

  IsMatch-Compiles :
      (complete : List Resource) (index : ℕ) (input r : Resource)
      → All (Compiles p) complete
      → IsMatch p complete index input (λ x. x) r
      → Compiles p r
  IsMatch-Compiles complete index input r all m =
      let source = All-In (Compiles p) complete all m.listed in
      elim (m.given) [
        | inl e ↦ subst (Compiles p) (sym e) source
        | inr (d, e) ↦ subst (Compiles p) (sym e) source
      ]

  Chosen-Compiles :
      (complete : List Resource) (index : ℕ) (inputs : List Resource) (array : List Candidate)
      → All (Compiles p) complete
      → Chosen array (matching p index inputs complete)
      → All (λ c. Compiles p c.resource) array
  unfolding matching
  Chosen-Compiles complete index [] [] all h = tt
  Chosen-Compiles complete index [] (c ∷ array) all h = elim h [ ]
  Chosen-Compiles complete index (x ∷ inputs) [] all h = elim h [ ]
  Chosen-Compiles complete index (x ∷ inputs) (c ∷ array) all h = (
    IsMatch-Compiles complete index x c.resource all
        (candidates_from-IsMatch index x p complete 0 complete c (λ r i. i) h.0),
    Chosen-Compiles complete (suc index) inputs array all h.1,
  )

  pub matching_raises-false :
      (inputs complete : List Resource)
      → All (Compiles p) inputs
      → All (Compiles p) complete
      → matching_raises p inputs complete ≡ false
  unfolding matching_raises
  matching_raises-false inputs complete asked all =
      let compared : any (λ input. any (eq_raises p input) complete) inputs ≡ false =
        any-false (λ input. any (eq_raises p input) complete) inputs
          (All-intro (λ x. any (eq_raises p x) complete ≡ false) inputs
            (λ x i. any-false (eq_raises p x) complete (
              All-intro (λ r. eq_raises p x r ≡ false) complete
                (λ r j. eq_raises-Compiles x r (All-In (Compiles p) inputs asked i))))) in
      let rows = product (matching p 0 inputs complete) in
      let sets : any (set_raises p []) rows ≡ false = any-false (set_raises p []) rows (
        All-intro (λ a. set_raises p [] a ≡ false) rows
          (λ a i. set_raises-false [] a tt (
            Chosen-Compiles complete 0 inputs a all
              (product-Chosen (matching p 0 inputs complete) a i)))) in
      rw (compared, sets) refl

  pub matching_raises-true :
      (inputs complete : List Resource) (x r : Resource)
      → In x inputs
      → In r complete
      → text_eq (type_r x.kind) (type_r r.kind) ≡ true
      → p.re_compiles (text "^" ++ (x.model ++ text "$")) ≡ false
      → matching_raises p inputs complete ≡ true
  unfolding matching_raises eq_raises
  matching_raises-true inputs complete x r i j same bad =
      let found : any (eq_raises p x) complete ≡ true =
        any-true (eq_raises p x) complete j (rw (same, bad) refl) in
      let compared : any (λ input. any (eq_raises p input) complete) inputs ≡ true =
        any-true (λ input. any (eq_raises p input) complete) inputs i found in
      rw compared refl
