-- ===== src/Transformations/Match/Distinct.antt =====
-- Repeats among the resources that `get_match_resources` of transformations.py returns.
use ocudu_infra_srs.Prelude.{
  ℕ, suc, ◌+◌, ◌≤◌, ◌≡◌, refl, ap, ◌∙◌, inl, inr, Bool, true, false, ◌&&◌, List, [], ◌∷◌, ◌++◌,
  arith, ◌==◌, length, length-append, In, here, there, In-append_left, In-append_right, select-In,
  any, All, Bool-cases,
}
use ocudu_infra_srs.Prelude.Int.{int_eq}
use ocudu_infra_srs.Prelude.Action.{ok}
use ocudu_infra_srs.Cluster.{Platform}
use ocudu_infra_srs.Cluster.Laws.{IsLawful}
use ocudu_infra_srs.Resources.{Resource, resource_eq}
use ocudu_infra_srs.Resources.Hash.{hash_key}
use ocudu_infra_srs.Transformations.Match.{
  Candidate, matching, product, same_element, set_len, tag, set_ids, combinations,
  get_match_resources,
}
use ocudu_infra_srs.Transformations.Match.Sound.{Chosen, product-Chosen, get_match_resources_cases}

-- Two resources that a Python set holds as one: equal hashes, and equal.
pub same_item : Platform → Resource → Resource → Bool
same_item p a b = int_eq (p.hash (hash_key a)) (p.hash (hash_key b)) && resource_eq p a b

abbrev pub NoRepeats : Platform → List Resource → Type 0
NoRepeats p [] = Unit
NoRepeats p (r ∷ rs) = All (λ s. same_item p r s ≡ false) rs × NoRepeats p rs

module _ (p : Platform) where
  -- Each element is new when the set takes it.
  abbrev AllNew : List Candidate → List Candidate → Type 0
  AllNew seen [] = Unit
  AllNew seen (c ∷ array) =
      (any (λ s. same_element p s c) seen ≡ false) × AllNew (seen ++ c ∷ []) array

  set_len-le : (seen array : List Candidate) → set_len p seen array ≤ length seen + length array
  unfolding set_len
  set_len-le seen [] = omega arith
  set_len-le seen (c ∷ array) = elim (Bool-cases (any (λ s. same_element p s c) seen)) [
    | inl e ↦ rw e (omega (arith, set_len-le seen array))
    | inr e ↦ rw e (omega (arith, set_len-le (seen ++ c ∷ []) array, length-append seen (c ∷ [])))
  ]

  set_len-AllNew :
      (seen array : List Candidate)
      → set_len p seen array ≡ length seen + length array
      → AllNew seen array
  unfolding set_len
  set_len-AllNew seen [] h = tt
  set_len-AllNew seen (c ∷ array) h = elim (Bool-cases (any (λ s. same_element p s c) seen)) [
    | inl e ↦
        let k : set_len p seen array ≡ length seen + suc (length array) = rw e at h in
        absurd (omega (arith, set_len-le seen array))
    | inr e ↦
        let k : set_len p (seen ++ c ∷ []) array ≡ length seen + suc (length array) = rw e at h in
        (e, set_len-AllNew (seen ++ c ∷ []) array (k ∙ omega (arith, length-append seen (c ∷ []))))
  ]

  not-any-In :
      (c s : Candidate) (seen : List Candidate)
      → any (λ s. same_element p s c) seen ≡ false
      → In s seen
      → same_element p s c ≡ false
  not-any-In c s [] h i = elim i [ ]
  not-any-In c s (x ∷ seen) h here = ground arith
  not-any-In c s (x ∷ seen) h (there i) = not-any-In c s seen (ground arith) i

  AllNew-All :
      (s : Candidate) (seen array : List Candidate)
      → In s seen
      → AllNew seen array
      → All (λ c. same_element p s c ≡ false) array
  AllNew-All s seen [] i h = tt
  AllNew-All s seen (c ∷ array) i h =
      (not-any-In c s seen h.0 i, AllNew-All s (seen ++ c ∷ []) array (In-append_left seen _ i) h.1)

  same_item-tag :
      (enable : Bool) (input₁ input₂ a b : Resource)
      → same_item p (tag enable input₁ a) (tag enable input₂ b) ≡ same_item p a b
  unfolding same_item hash_key resource_eq
  same_item-tag true input₁ input₂ a b = refl
  same_item-tag false input₁ input₂ a b = refl

  same_item-plain :
      (enable : Bool) (input a b : Resource) → same_item p (tag enable input a) b ≡ same_item p a b
  unfolding same_item hash_key resource_eq
  same_item-plain true input a b = refl
  same_item-plain false input a b = refl

  same_item-element :
      (a b : Candidate) → same_element p a b ≡ false → same_item p a.resource b.resource ≡ false
  unfolding same_item same_element
  same_item-element a b h = ground arith

  All-set_ids :
      (enable : Bool) (input : Resource) (s : Candidate) (inputs : List Resource)
      (array : List Candidate)
      → All (λ c. same_element p s c ≡ false) array
      → All (λ r. same_item p (tag enable input s.resource) r ≡ false) (set_ids enable inputs array)
  unfolding set_ids
  All-set_ids enable input s [] [] h = tt
  All-set_ids enable input s (x ∷ inputs) [] h = tt
  All-set_ids enable input s [] (c ∷ array) h = (
    same_item-plain enable input s.resource c.resource ∙ same_item-element s c h.0,
    All-set_ids enable input s [] array h.1,
  )
  All-set_ids enable input s (x ∷ inputs) (c ∷ array) h = (
    same_item-tag enable input x s.resource c.resource ∙ same_item-element s c h.0,
    All-set_ids enable input s inputs array h.1,
  )

  NoRepeats-set_ids :
      (enable : Bool) (inputs : List Resource) (seen array : List Candidate)
      → length inputs ≡ length array
      → AllNew seen array
      → NoRepeats p (set_ids enable inputs array)
  unfolding set_ids
  NoRepeats-set_ids enable [] seen [] n h = tt
  NoRepeats-set_ids enable [] seen (c ∷ array) n h = absurd (omega arith)
  NoRepeats-set_ids enable (input ∷ inputs) seen [] n h = tt
  NoRepeats-set_ids enable (input ∷ inputs) seen (c ∷ array) n h = (
    All-set_ids enable input c inputs array
        (AllNew-All c (seen ++ c ∷ []) array (In-append_right seen _ here) h.1),
    NoRepeats-set_ids enable inputs (seen ++ c ∷ []) array (omega arith) h.1,
  )

pub Chosen-length :
    (p : Platform) (complete : List Resource) (index : ℕ) (inputs : List Resource)
    (array : List Candidate)
    → Chosen array (matching p index inputs complete)
    → length inputs ≡ length array
unfolding matching
Chosen-length p complete index [] [] h = refl
Chosen-length p complete index [] (c ∷ array) h = elim h [ ]
Chosen-length p complete index (input ∷ inputs) [] h = elim h [ ]
Chosen-length p complete index (input ∷ inputs) (c ∷ array) h =
    ap suc (Chosen-length p complete (suc index) inputs array h.1)

-- No two of the resources that `get_match_resources` returns are one to a Python set (the same hash, and equal).
pub get_match_resources-NoRepeats :
    {p : Platform}
    → IsLawful p
    → (inputs complete : List Resource) (enable : Bool) (w w' : p.World) (result : List Resource)
    → get_match_resources p inputs complete enable w ≡ (ok result, w')
    → NoRepeats p result
unfolding combinations
get_match_resources-NoRepeats {p} law inputs complete enable w w' result e =
    elim (get_match_resources_cases law inputs complete enable w w' result e) [
      | inl (empty, _) ↦ rw empty tt
      | inr (array, i, is) ↦
          let (j, size) =
            select-In (λ a. set_len p [] a == length inputs)
              (product (matching p 0 inputs complete)) i in
          let n =
            Chosen-length p complete 0 inputs array
              (product-Chosen (matching p 0 inputs complete) array j) in
          rw is (
            NoRepeats-set_ids p enable inputs [] array n (set_len-AllNew p [] array (ground arith)))
    ]
