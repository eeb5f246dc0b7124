-- ===== src/Requests/Quantities/Changed.antt =====
-- What `_resolve_node_requirements_in_place` does to the amounts of one requirement.
use ocudu_infra_srs.Prelude.{
  ◌≡◌, refl, sym, ap, subst, ◌∙◌, ◌⊎◌, inl, inr, Bool, true, false, Option, some, List,
  if◌then◌else◌, Bool-cases,
}
use ocudu_infra_srs.Prelude.Text.{Text}
use ocudu_infra_srs.Prelude.Dict.{Dict}
use ocudu_infra_srs.Prelude.Action.{Exception, Result, ok, raised}
use ocudu_infra_srs.Prelude.Outcome.{◌>>=◌, bind-eq-ok, ok-injective}
use ocudu_infra_srs.Requirement.{Amount, str, RequirementDefinition}
use ocudu_infra_srs.Requests.Quantities.{
  Floats, NodeConfiguration, ends_with_percent, shown, resolve_value, resolve_attribute,
  after_limits, after_requests, resolve_requirement, known, percentage_of,
}
use ocudu_infra_srs.Requests.Quantities.Free.{WritesNumbers, not_percent, percentage_of-IsFree}

abbrev pub IsPercentage : Option Amount → Type 0
IsPercentage v = ends_with_percent (shown v) ≡ true

abbrev pub IsSettled : Option Amount → Type 0
IsSettled v = ends_with_percent (shown v) ≡ false

-- How an amount is afterwards: as it was unless it was a percentage, and then one no longer.
abbrev pub Replaced : Option Amount → Option Amount → Type 0
Replaced v v' = (IsSettled v × (v' ≡ v)) ⊎ (IsPercentage v × IsSettled v')

-- A requirement before and after.
abbrev pub Changed : RequirementDefinition → RequirementDefinition → Type 0
Changed r r' =
    (r'.name ≡ r.name)
    × (r'.rounding ≡ r.rounding)
    × Replaced r.requests r'.requests
    × Replaced r.limits r'.limits

pub Replaced-IsSettled : (v v' : Option Amount) → Replaced v v' → IsSettled v'
Replaced-IsSettled v v' (inl (h, e)) = subst IsSettled (sym e) h
Replaced-IsSettled v v' (inr (h, s)) = s

if-ok :
    {A : Type 0} (b : Bool) (r : Result A) (x y : A)
    → b ≡ false
    → (if b then r else ok x) ≡ ok y
    → x ≡ y
if-ok true r x y p e = cc
if-ok false r x y p e = ok-injective e

module _ (f : Floats) (w : WritesNumbers f) (configuration : Result (List NodeConfiguration))
    (node_name : Text) where
  resolve_value-IsSettled :
      (req : RequirementDefinition) (v v' : Option Amount) (d d' : Dict Amount)
      → resolve_value f configuration node_name req v d ≡ ok (d', v')
      → IsSettled v'
  unfolding resolve_value shown
  resolve_value-IsSettled req v v' d d' e =
      let last : Dict Amount → Text → Result (Dict Amount × Option Amount) =
        λ x t. ok (x, some (str t)) in
      let (reqs, _, e1) =
        bind-eq-ok (known f configuration node_name d) (λ x. percentage_of f req v x >>= last x)
          e in
      let (t, k, e2) = bind-eq-ok (percentage_of f req v reqs) (last reqs) e1 in
      let same : some (str t) ≡ v' = ap (λ x. x.1) (ok-injective e2) in
      subst IsSettled same (not_percent t (percentage_of-IsFree f req v reqs t w k))

  resolve_attribute-Replaced :
      (req : RequirementDefinition) (v v' : Option Amount) (d d' : Dict Amount)
      → resolve_attribute f configuration node_name req v d ≡ ok (d', v')
      → Replaced v v'
  unfolding resolve_attribute
  resolve_attribute-Replaced req v v' d d' e = elim (Bool-cases (ends_with_percent (shown v))) [
    | inl p ↦ inr (p, resolve_value-IsSettled req v v' d d' (rw p at e))
    | inr p ↦ inl (
      p,
      sym (
          ap (λ x. x.1)
            (if-ok (ends_with_percent (shown v)) (resolve_value f configuration node_name req v d)
              (d, v) (d', v') p e)),
    )
  ]

  resolve_attribute-IsSettled :
      (req : RequirementDefinition) (v : Option Amount) (d : Dict Amount)
      → IsSettled v
      → resolve_attribute f configuration node_name req v d ≡ ok (d, v)
  unfolding resolve_attribute
  resolve_attribute-IsSettled req v d p = rw p refl

  if-raised :
      {A : Type 0} (b : Bool) (r : Result A) (x : A) (e : Exception)
      → (if b then r else ok x) ≡ raised e
      → b ≡ true
  if-raised true r x e h = refl
  if-raised false r x e h = cc

  resolve_attribute-raised :
      (req : RequirementDefinition) (v : Option Amount) (d : Dict Amount) (e : Exception)
      → resolve_attribute f configuration node_name req v d ≡ raised e
      → IsPercentage v
  unfolding resolve_attribute
  resolve_attribute-raised req v d e h =
      if-raised (ends_with_percent (shown v)) (resolve_value f configuration node_name req v d)
        (d, v) e h

  after_limits-ok :
      (x : Result (Dict Amount × Option Amount)) (req r : RequirementDefinition) (d : Dict Amount)
      → after_limits f configuration node_name x req ≡ (ok d, r)
      → (v : Option Amount) × (x ≡ ok (d, v)) × (record req { limits = v } ≡ r)
  unfolding after_limits
  after_limits-ok (raised e) req r d h = cc
  after_limits-ok (ok (d', v)) req r d h =
      (v, ap (λ x. ok (x, v)) (ok-injective (ap (λ x. x.0) h)), ap (λ x. x.1) h)

  after_limits-raised :
      (x : Result (Dict Amount × Option Amount)) (req r : RequirementDefinition) (e : Exception)
      → after_limits f configuration node_name x req ≡ (raised e, r)
      → (e' : Exception) × (x ≡ raised e')
  unfolding after_limits
  after_limits-raised (raised e') req r e h = (e', refl)
  after_limits-raised (ok (d', v)) req r e h = cc

  after_requests-ok :
      (x : Result (Dict Amount × Option Amount)) (req r : RequirementDefinition) (d : Dict Amount)
      → after_requests f configuration node_name x req ≡ (ok d, r)
      → (d' : Dict Amount) × (v : Option Amount) × (u : Option Amount) × (x ≡ ok (d', v))
        × (resolve_attribute f configuration node_name req req.limits d' ≡ ok (d, u))
        × (record req { requests = v; limits = u } ≡ r)
  unfolding after_requests
  after_requests-ok (raised e) req r d h = cc
  after_requests-ok (ok (d', v)) req r d h =
      let (u, k, l) =
        after_limits-ok (resolve_attribute f configuration node_name req req.limits d')
          (record req { requests = v }) r d h in
      (d', v, u, refl, k, l)

  after_requests-raised :
      (x : Result (Dict Amount × Option Amount)) (req r : RequirementDefinition) (e : Exception)
      → ((e' : Exception) → x ≡ raised e' → IsPercentage req.requests)
      → after_requests f configuration node_name x req ≡ (raised e, r)
      → IsPercentage req.requests ⊎ IsPercentage req.limits
  unfolding after_requests
  after_requests-raised (raised e') req r e k h = inl (k e' refl)
  after_requests-raised (ok (d, v)) req r e k h =
      let (e', is) =
        after_limits-raised (resolve_attribute f configuration node_name req req.limits d)
          (record req { requests = v }) r e h in
      inr (resolve_attribute-raised req req.limits d e' is)

  pub resolve_requirement-Changed :
      (req r : RequirementDefinition) (d d' : Dict Amount)
      → resolve_requirement f configuration node_name req d ≡ (ok d', r)
      → Changed req r
  unfolding resolve_requirement
  resolve_requirement-Changed req r d d' h =
      let (e, v, u, k, l, is) =
        after_requests-ok (resolve_attribute f configuration node_name req req.requests d) req r d'
          h in
      subst (Changed req) is (
        refl,
        refl,
        resolve_attribute-Replaced req req.requests v d e k,
        resolve_attribute-Replaced req req.limits u e d' l,
      )

  pub resolve_requirement-raised :
      (req r : RequirementDefinition) (d : Dict Amount) (e : Exception)
      → resolve_requirement f configuration node_name req d ≡ (raised e, r)
      → IsPercentage req.requests ⊎ IsPercentage req.limits
  unfolding resolve_requirement
  resolve_requirement-raised req r d e h =
      after_requests-raised (resolve_attribute f configuration node_name req req.requests d) req r e
        (resolve_attribute-raised req req.requests d) h

  pub resolve_requirement-IsSettled :
      (req : RequirementDefinition) (d : Dict Amount)
      → IsSettled req.requests
      → IsSettled req.limits
      → resolve_requirement f configuration node_name req d ≡ (ok d, req)
  unfolding resolve_requirement after_requests after_limits
  resolve_requirement-IsSettled req d p q =
      ap (λ x. after_requests f configuration node_name x req)
        (resolve_attribute-IsSettled req req.requests d p)
      ∙ ap (λ x. after_limits f configuration node_name x req)
          (resolve_attribute-IsSettled req req.limits d q)
