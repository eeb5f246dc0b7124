-- ===== src/Requirement/Checks.antt =====
-- What the constructor of `RequirementManager` lets through.
use mathlib.Core.List.{append-nil, append_assoc, map-append}
use ocudu_infra_srs.Prelude.{
  ◌≡◌, refl, sym, subst, ◌⊎◌, inl, inr, List, [], ◌∷◌, ◌++◌, arith, Bool-cases, All, length, map,
  ◌+◌, All-append, length-append,
}
use ocudu_infra_srs.Prelude.Text.{Text, text, text_eq, text_eq_iff}
use ocudu_infra_srs.Prelude.Action.{Result, ok, raised, value_error}
use ocudu_infra_srs.Prelude.Outcome.{◌>>=◌, bind-eq-ok, ok-injective}
use ocudu_infra_srs.Elements.{LabelDefinition}
use ocudu_infra_srs.Requirement.{
  RequirementConfig, RequirementDefinition, RequirementManager, rounding_fractional, rounding_round,
  rounding_truncate, rounding_of, key_and_value, split_at, member_label, add_label, add_labels,
  add_pod_req, add_pod_reqs, requirement_manager,
}

-- A rounding mode that exists, and one other than fractional only for the cpu.
abbrev pub IsAllowed : Text → Text → Type 0
IsAllowed key rounding =
    (rounding ≡ rounding_fractional)
    ⊎ ((key ≡ text "cpu") × ((rounding ≡ rounding_round) ⊎ (rounding ≡ rounding_truncate)))

abbrev appended : Text → RequirementConfig → List RequirementDefinition → List RequirementDefinition
appended key c reqs =
    reqs
    ++ record {
      name = key;
      requests = c.requests;
      limits = c.limits;
      rounding = rounding_of c.rounding;
    }
      ∷ []

-- `add_pod_req` appends the requirement exactly when its rounding is allowed for its key, and raises
-- ValueError otherwise.
pub add_pod_req_cases :
    (key : Text) (c : RequirementConfig) (reqs : List RequirementDefinition)
    → (IsAllowed key (rounding_of c.rounding) × (add_pod_req key c reqs ≡ ok (appended key c reqs)))
      ⊎ ((¬ IsAllowed key (rounding_of c.rounding)) × (add_pod_req key c reqs ≡ raised value_error))
unfolding add_pod_req
add_pod_req_cases key c reqs =
    let r = rounding_of c.rounding in
    elim (Bool-cases (text_eq r rounding_fractional)) [
      | inl e ↦ inl (inl ((text_eq_iff _ _).0 e), ground arith)
      | inr e ↦ elim (Bool-cases (text_eq key (text "cpu"))) [
        | inl k ↦ ground (
          arith,
          text_eq_iff r rounding_fractional,
          text_eq_iff r rounding_round,
          text_eq_iff r rounding_truncate,
          text_eq_iff key (text "cpu"),
        )
        | inr k ↦ inr (
          λ a. ground (arith, text_eq_iff r rounding_fractional, text_eq_iff key (text "cpu")),
          ground arith,
        )
      ]
    ]

-- Every requirement that the constructor keeps has an allowed rounding.
abbrev pub IsChecked : RequirementDefinition → Type 0
IsChecked r = IsAllowed r.name r.rounding

abbrev names : List RequirementDefinition → List Text
names = map (λ r. r.name)

abbrev keys : List (Text × RequirementConfig) → List Text
keys = map (λ p. p.0)

add_pod_req-eq-ok :
    (key : Text) (c : RequirementConfig) (reqs : List RequirementDefinition)
    {out : List RequirementDefinition}
    → add_pod_req key c reqs ≡ ok out
    → IsAllowed key (rounding_of c.rounding) × (out ≡ appended key c reqs)
add_pod_req-eq-ok key c reqs e = elim (add_pod_req_cases key c reqs) [
  | inl (a, k) ↦ (a, cc)
  | inr (n, k) ↦ cc
]

add_pod_reqs-IsChecked :
    (config : List (Text × RequirementConfig)) (acc : List RequirementDefinition)
    {out : List RequirementDefinition}
    → add_pod_reqs config acc ≡ ok out
    → All IsChecked acc
    → All IsChecked out × (names out ≡ names acc ++ keys config)
unfolding add_pod_reqs
add_pod_reqs-IsChecked [] acc e h =
    let same : acc ≡ _ = ok-injective e in
    (subst (All IsChecked) same h, rw (← same) (sym (append-nil _)))
add_pod_reqs-IsChecked ((key, c) ∷ config) acc e h =
    let (next, first, rest) = bind-eq-ok (add_pod_req key c acc) (add_pod_reqs config) e in
    let (allowed, is) = add_pod_req-eq-ok key c acc first in
    let (checked, named) =
      add_pod_reqs-IsChecked config next rest
        (rw is (All-append IsChecked acc (_ ∷ []) h (allowed, tt))) in
    (checked, rw (named, is, map-append, append_assoc))

add_label-length :
    (label : Text) (acc : List LabelDefinition) {out : List LabelDefinition}
    → add_label label acc ≡ ok out
    → length out ≡ length acc + 1
unfolding add_label
add_label-length label acc e =
    let (d, read, put) =
      bind-eq-ok (key_and_value (split_at b'=' [] label)) (λ d. ok (acc ++ d ∷ [])) e in
    rw (← ok-injective put) (length-append acc (d ∷ []))

add_labels-length :
    (labels : List Text) (acc : List LabelDefinition) {out : List LabelDefinition}
    → add_labels labels acc ≡ ok out
    → length out ≡ length acc + length labels
unfolding add_labels
add_labels-length [] acc e = rw (← ok-injective e) (omega arith)
add_labels-length (l ∷ labels) acc e =
    let (next, first, rest) = bind-eq-ok (add_label l acc) (add_labels labels) e in
    omega (arith, add_label-length l acc first, add_labels-length labels next rest)

abbrev manager_of : List LabelDefinition → List RequirementDefinition → Result RequirementManager
manager_of labels reqs = ok (record { label_list = labels; req_list = reqs })

-- A `RequirementManager` that could be constructed has one requirement for each key of the config, in
-- order, each with an allowed rounding, and one label more than it was given.
pub requirement_manager-IsChecked :
    (config : List (Text × RequirementConfig)) (labels : List Text) {m : RequirementManager}
    → requirement_manager config labels ≡ ok m
    → All IsChecked m.req_list
      × (map (λ r. r.name) m.req_list ≡ map (λ p. p.0) config)
      × (length m.label_list ≡ length labels + 1)
unfolding requirement_manager
requirement_manager-IsChecked config labels e =
    let (member, e₁, k₁) =
      bind-eq-ok (add_label member_label [])
        (λ l. add_labels labels l >>= λ a. add_pod_reqs config [] >>= manager_of a) e in
    let (all_labels, e₂, k₂) =
      bind-eq-ok (add_labels labels member) (λ a. add_pod_reqs config [] >>= manager_of a) k₁ in
    let (reqs, e₃, k₃) = bind-eq-ok (add_pod_reqs config []) (manager_of all_labels) k₂ in
    let (checked, named) = add_pod_reqs-IsChecked config [] e₃ tt in
    rw (← ok-injective k₃) (
      checked,
      named,
      omega (arith, add_label-length member_label [] e₁, add_labels-length labels member e₂),
    )

-- The requirements that a config asks for, in order, with their amounts and roundings.
abbrev pub asked : List (Text × RequirementConfig) → List RequirementDefinition
asked [] = []
asked ((key, c) ∷ config) =
    record {
      name = key;
      requests = c.requests;
      limits = c.limits;
      rounding = rounding_of c.rounding;
    }
    ∷ asked config

add_pod_reqs-asked :
    (config : List (Text × RequirementConfig)) (acc : List RequirementDefinition)
    {out : List RequirementDefinition}
    → add_pod_reqs config acc ≡ ok out
    → out ≡ acc ++ asked config
unfolding add_pod_reqs
add_pod_reqs-asked [] acc e = rw (← ok-injective e) (sym (append-nil _))
add_pod_reqs-asked ((key, c) ∷ config) acc e =
    let (next, first, rest) = bind-eq-ok (add_pod_req key c acc) (add_pod_reqs config) e in
    let (allowed, is) = add_pod_req-eq-ok key c acc first in
    rw (add_pod_reqs-asked config next rest, is, append_assoc) refl

pub requirement_manager-asked :
    (config : List (Text × RequirementConfig)) (labels : List Text) {m : RequirementManager}
    → requirement_manager config labels ≡ ok m
    → m.req_list ≡ asked config
unfolding requirement_manager
requirement_manager-asked config labels e =
    let (member, e₁, k₁) =
      bind-eq-ok (add_label member_label [])
        (λ l. add_labels labels l >>= λ a. add_pod_reqs config [] >>= manager_of a) e in
    let (all_labels, e₂, k₂) =
      bind-eq-ok (add_labels labels member) (λ a. add_pod_reqs config [] >>= manager_of a) k₁ in
    let (reqs, e₃, k₃) = bind-eq-ok (add_pod_reqs config []) (manager_of all_labels) k₂ in
    rw (← ok-injective k₃) (add_pod_reqs-asked config [] e₃)
