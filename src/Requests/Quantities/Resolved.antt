-- ===== src/Requests/Quantities/Resolved.antt =====
-- What `_resolve_node_requirements_in_place` does to a list of requirements.
use ocudu_infra_srs.Prelude.{
  ◌≡◌, refl, sym, ap, subst, ◌∙◌, ◌⊎◌, List, [], ◌∷◌, All, In, here, there,
}
use ocudu_infra_srs.Prelude.Text.{Text}
use ocudu_infra_srs.Prelude.Dict.{Dict}
use ocudu_infra_srs.Prelude.Action.{Exception, Result, ok, raised}
use ocudu_infra_srs.Requirement.{Amount, RequirementDefinition}
use ocudu_infra_srs.Requests.Quantities.{
  Floats, NodeConfiguration, resolve_requirement, after_first, resolve_node_requirements_in_place,
}
use ocudu_infra_srs.Requests.Quantities.Free.{WritesNumbers}
use ocudu_infra_srs.Requests.Quantities.Changed.{
  IsPercentage, IsSettled, Changed, Replaced-IsSettled, resolve_requirement-Changed,
  resolve_requirement-raised, resolve_requirement-IsSettled,
}

abbrev pub AllChanged : List RequirementDefinition → List RequirementDefinition → Type 0
AllChanged [] l = l ≡ []
AllChanged (r ∷ rs) l =
    (r' : RequirementDefinition) × (l' : List RequirementDefinition) × (l ≡ r' ∷ l')
    × Changed r r'
    × AllChanged rs l'

module _ (f : Floats) (w : WritesNumbers f) (configuration : Result (List NodeConfiguration))
    (node_name : Text) where
  settled_list :
      (reqs : List RequirementDefinition) (d : Dict Amount)
      → All (λ r. IsSettled r.requests × IsSettled r.limits) reqs
      → resolve_node_requirements_in_place f configuration node_name reqs d ≡ (ok d, reqs)
  unfolding resolve_node_requirements_in_place after_first
  settled_list [] d h = refl
  settled_list (r ∷ rs) d h =
      let go : Dict Amount → Result (Dict Amount) × List RequirementDefinition =
        λ x. resolve_node_requirements_in_place f configuration node_name rs x in
      ap (λ x. after_first f configuration node_name x rs go)
        (resolve_requirement-IsSettled f w configuration node_name r d h.0.0 h.0.1)
      ∙ ap (λ x. (x.0, r ∷ x.1)) (settled_list rs d h.1)

AllChanged-IsSettled :
    (reqs l : List RequirementDefinition)
    → AllChanged reqs l
    → All (λ r. IsSettled r.requests × IsSettled r.limits) l
AllChanged-IsSettled [] l h =
    subst (All (λ r. IsSettled r.requests × IsSettled r.limits)) (sym h) tt
AllChanged-IsSettled (r ∷ rs) l (r', l', e, (_, _, p, q), h) =
    subst (All (λ x. IsSettled x.requests × IsSettled x.limits)) (sym e) (
      (Replaced-IsSettled r.requests r'.requests p, Replaced-IsSettled r.limits r'.limits q),
      AllChanged-IsSettled rs l' h,
    )

-- What becomes of a list of requirements. Without an exception every amount that was a percentage is one no
-- longer, nothing else is changed, and a later call changes nothing; there is no exception without a percentage.
abbrev pub Resolves :
    Floats → List RequirementDefinition → Result (Dict Amount) × List RequirementDefinition → Type 0
Resolves f reqs (ok d, l) =
    AllChanged reqs l
    × ((configuration : Result (List NodeConfiguration)) (node_name : Text) (d' : Dict Amount)
        → resolve_node_requirements_in_place f configuration node_name l d' ≡ (ok d', l))
Resolves f reqs (raised e, l) =
    (r : RequirementDefinition) × In r reqs × (IsPercentage r.requests ⊎ IsPercentage r.limits)

-- The outcome of a list from those of its first requirement and of the rest.
Resolves-cons :
    (f : Floats) (w : WritesNumbers f) (r r' : RequirementDefinition)
    (rs : List RequirementDefinition) (x : Result (Dict Amount) × List RequirementDefinition)
    → Changed r r'
    → Resolves f rs x
    → Resolves f (r ∷ rs) (x.0, r' ∷ x.1)
Resolves-cons f w r r' rs (ok d, l) c (h, _) =
    let all : AllChanged (r ∷ rs) (r' ∷ l) = (r', l, refl, c, h) in
    (
      all,
      λ configuration node_name d'.
          settled_list f w configuration node_name (r' ∷ l) d'
            (AllChanged-IsSettled (r ∷ rs) (r' ∷ l) all),
    )
Resolves-cons f w r r' rs (raised e, l) c (k, i, p) = (k, there i, p)

Resolves-first :
    (f : Floats) (w : WritesNumbers f) (r : RequirementDefinition) (rs : List RequirementDefinition)
    (x : Result (Dict Amount) × RequirementDefinition)
    (go : Dict Amount → Result (Dict Amount) × List RequirementDefinition)
    (configuration : Result (List NodeConfiguration)) (node_name : Text)
    → ((d : Dict Amount) (r' : RequirementDefinition) → x ≡ (ok d, r') → Changed r r')
    → ((e : Exception) (r' : RequirementDefinition)
        → x ≡ (raised e, r')
        → IsPercentage r.requests ⊎ IsPercentage r.limits)
    → ((d : Dict Amount) → Resolves f rs (go d))
    → Resolves f (r ∷ rs) (after_first f configuration node_name x rs go)
unfolding after_first
Resolves-first f w r rs (ok d, r') go configuration node_name c p h =
    Resolves-cons f w r r' rs (go d) (c d r' refl) (h d)
Resolves-first f w r rs (raised e, r') go configuration node_name c p h = (r, here, p e r' refl)

-- If floats are written without a percent sign, _resolve_node_requirements_in_place keeps the names, the roundings and
-- the amounts that are not percentages, and replaces each percentage by an amount that is none, so that a
-- later call changes nothing, for any node; it raises only if there is a percentage.
pub resolve_node_requirements_in_place-Resolves :
    (f : Floats)
    → WritesNumbers f
    → (configuration : Result (List NodeConfiguration)) (node_name : Text)
      (reqs : List RequirementDefinition) (d : Dict Amount)
    → Resolves f reqs (resolve_node_requirements_in_place f configuration node_name reqs d)
unfolding resolve_node_requirements_in_place
resolve_node_requirements_in_place-Resolves f w configuration node_name [] d =
    (refl, λ c n d'. refl)
resolve_node_requirements_in_place-Resolves f w configuration node_name (r ∷ rs) d =
    Resolves-first f w r rs (resolve_requirement f configuration node_name r d)
      (λ d'. resolve_node_requirements_in_place f configuration node_name rs d') configuration
      node_name (λ d' r'. resolve_requirement-Changed f w configuration node_name r r' d d')
      (λ e r'. resolve_requirement-raised f w configuration node_name r r' d e)
      (λ d'. resolve_node_requirements_in_place-Resolves f w configuration node_name rs d')
