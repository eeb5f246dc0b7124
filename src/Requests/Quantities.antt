-- ===== src/Requests/Quantities.antt =====
-- The amounts of reservation/resources.py (retina/orchestrator/src/retina/orchestrator) that are given as a percentage
-- of what a node has: `_resolve_node_requirements_in_place` and the functions that it calls. A requirement that
-- is changed is a new one, and a list is returned with what was changed before an exception.
pub mod Free
pub mod Changed
pub mod Resolved
use ocudu_infra_srs.Prelude.{
  ℕ, zero, suc, Bool, true, false, ◌&&◌, ◌||◌, Option, none, some, List, [], ◌∷◌, ◌++◌, ◌==◌, leb,
  if◌then◌else◌,
}
use ocudu_infra_srs.Prelude.Text.{Text, text, text_eq, decimal, is_digit}
use ocudu_infra_srs.Prelude.Dict.{Dict, lookup}
use ocudu_infra_srs.Prelude.Action.{Result, ok, raised, runtime_error, value_error}
use ocudu_infra_srs.Prelude.Outcome.{◌>>=◌}
use ocudu_infra_srs.Elements.RetinaType.{span}
use ocudu_infra_srs.Requirement.{Amount, str, int, RequirementDefinition}

-- Python's floating point: `float(text)`, `value * percentage * 0.01`, `f"{value:.6f}"`, `x / 1000`, `x + 0.5` and
-- `math.floor` of a float that is not negative.
pub record Floats : Type 1 where
  pub Float : Type 0
  pub float : Text → Result Float
  pub percent_of : Float → Float → Float
  pub fixed : Float → Text
  pub thousandth : Float → Float
  pub plus_half : Float → Float
  pub floor : Float → Result ℕ

-- An item of `get_cluster_configuration()["nodes"]`.
pub record NodeConfiguration : Type 0 where
  pub name : Text
  pub compute_resources : Option (Dict Amount)

unfoldable pub get_compute_resources_for_node : List NodeConfiguration → Text → Dict Amount
get_compute_resources_for_node [] node_name = []
get_compute_resources_for_node (n ∷ nodes) node_name =
    let rest = get_compute_resources_for_node nodes node_name in
    if text_eq n.name node_name then elim n.compute_resources [ none ↦ rest | some d ↦ d ] else rest

-- `BINARY_SUFFIX.get(suffix, suffix)`
unfoldable pub binary_suffix : Text → Text
binary_suffix s =
    if text_eq s (text "k") || text_eq s (text "K")
    then text "Ki"
    else if text_eq s (text "M")
    then text "Mi"
    else if text_eq s (text "G")
    then text "Gi"
    else if text_eq s (text "T")
    then text "Ti"
    else s

-- `[\d.]` and `[a-zA-Z]`
abbrev pub is_numeric : ℕ → Bool
is_numeric c = is_digit c || (c == b'.')

abbrev pub is_letter : ℕ → Bool
is_letter c = (leb b'a' c && leb c b'z') || (leb b'A' c && leb c b'Z')

-- `$` also matches before a newline that ends the text.
abbrev pub at_end : Text → Bool
at_end rest = text_eq rest [] || text_eq rest (10 ∷ [])

groups : Text → Text × Text → Option (Text × Text)
groups [] (suffix, rest) = none
groups (c ∷ s) (suffix, rest) = if at_end rest then some (c ∷ s, suffix) else none

-- The groups of `^([\d.]+)([a-zA-Z]*)$`.
unfoldable pub match_quantity : Text → Option (Text × Text)
unfolding span groups
match_quantity quantity =
    let (number, rest) = span is_numeric quantity in groups number (span is_letter rest)

to_binary : Text → Option (Text × Text) → Text
to_binary quantity none = quantity
to_binary quantity (some (number, suffix)) = number ++ binary_suffix suffix

unfoldable pub to_binary_quantity : Text → Text
unfolding to_binary
to_binary_quantity quantity = to_binary quantity (match_quantity quantity)

drop_last : ℕ → ℕ → Text → Text
drop_last c d [] = if d == c then [] else d ∷ []
drop_last c d (e ∷ s) = d ∷ e ∷ s

-- `s.rstrip(c)` and `s.strip(c)`
unfoldable pub rstrip : ℕ → Text → Text
unfolding drop_last
rstrip c [] = []
rstrip c (d ∷ s) = drop_last c d (rstrip c s)

strip : ℕ → Text → Text
strip c [] = []
strip c (d ∷ s) = let rest = strip c s in if d == c then rest else rstrip c (d ∷ s)

-- `s.endswith("%")`
unfoldable pub ends_with_percent : Text → Bool
ends_with_percent [] = false
ends_with_percent (c ∷ []) = c == b'%'
ends_with_percent (c ∷ d ∷ s) = ends_with_percent (d ∷ s)

-- `str(value)`
unfoldable pub shown : Option Amount → Text
shown none = text "None"
shown (some (str s)) = s
shown (some (int n)) = decimal n

-- `node_requirements.get(name, 0)`
amount_of : Text → Dict Amount → Option Amount
amount_of name d = elim (lookup name d) [ none ↦ some (int 0) | some a ↦ some a ]

module _ (f : Floats) where
  scaled : f.Float → Option (Text × Text) → Result Text
  scaled percentage none = ok (text "0")
  scaled percentage (some (number, suffix)) = do
    value ← f.float number
    ok (rstrip b'.' (rstrip b'0' (f.fixed (f.percent_of value percentage))) ++ binary_suffix suffix)

  unfoldable pub scale_quantity : Text → f.Float → Result Text
  unfolding scaled
  scale_quantity quantity percentage = scaled percentage (match_quantity quantity)

  cores_of : Bool → Text → Result f.Float
  cores_of milli number = do
    value ← f.float number
    ok (if milli then f.thousandth value else value)

  -- The groups of `^([\d.]+)(m?)$`, the second as whether it is there, and then the cores.
  matched_cores : Text × Text → Result f.Float
  unfolding cores_of
  matched_cores ([], rest) = raised value_error
  matched_cores (c ∷ s, rest) =
      if at_end rest
      then cores_of false (c ∷ s)
      else if text_eq rest (text "m") || text_eq rest (text "m" ++ 10 ∷ [])
      then cores_of true (c ∷ s)
      else raised value_error

  -- `str(max(1, whole))`
  at_least_one : ℕ → Text
  at_least_one zero = decimal 1
  at_least_one (suc n) = decimal (suc n)

  whole_cores : Text → Text → Result Text
  unfolding matched_cores at_least_one span
  whole_cores quantity rounding = do
    cores ← matched_cores (span is_numeric quantity)
    whole ← f.floor (if text_eq rounding (text "round") then f.plus_half cores else cores)
    ok (at_least_one whole)

  unfoldable pub round_cpu_quantity : Text → Text → Result Text
  unfolding whole_cores
  round_cpu_quantity quantity rounding =
      if text_eq rounding (text "fractional") then ok quantity else whole_cores quantity rounding

  pub percentage_of : RequirementDefinition → Option Amount → Dict Amount → Result Text
  unfolding strip amount_of
  percentage_of req value d = do
    percentage ← f.float (strip b'%' (shown value))
    quantity ← scale_quantity (shown (amount_of req.name d)) percentage
    round_cpu_quantity quantity req.rounding

  module _ (configuration : Result (List NodeConfiguration)) (node_name : Text) where
    found : Dict Amount → Result (Dict Amount)
    found [] = raised runtime_error
    found (x ∷ d) = ok (x ∷ d)

    -- `if not node_requirements:`
    known : Dict Amount → Result (Dict Amount)
    unfolding found
    known (x ∷ d) = ok (x ∷ d)
    known [] = do nodes ← configuration; found (get_compute_resources_for_node nodes node_name)

    resolve_value :
        RequirementDefinition → Option Amount → Dict Amount → Result (Dict Amount × Option Amount)
    unfolding known percentage_of
    resolve_value req value node_requirements = do
      d ← known node_requirements
      t ← percentage_of req value d
      ok (d, some (str t))

    -- The body of the inner loop: the amount that the attribute has then.
    unfoldable pub resolve_attribute :
        RequirementDefinition → Option Amount → Dict Amount → Result (Dict Amount × Option Amount)
    unfolding resolve_value
    resolve_attribute req value node_requirements =
        if ends_with_percent (shown value)
        then resolve_value req value node_requirements
        else ok (node_requirements, value)

    after_limits :
        Result (Dict Amount × Option Amount)
        → RequirementDefinition
        → Result (Dict Amount) × RequirementDefinition
    after_limits (raised e) req = (raised e, req)
    after_limits (ok (d, v)) req = (ok d, record req { limits = v })

    after_requests :
        Result (Dict Amount × Option Amount)
        → RequirementDefinition
        → Result (Dict Amount) × RequirementDefinition
    unfolding after_limits
    after_requests (raised e) req = (raised e, req)
    after_requests (ok (d, v)) req =
        after_limits (resolve_attribute req req.limits d) (record req { requests = v })

    unfoldable pub resolve_requirement :
        RequirementDefinition → Dict Amount → Result (Dict Amount) × RequirementDefinition
    unfolding after_requests
    resolve_requirement req d = after_requests (resolve_attribute req req.requests d) req

    after_first :
        Result (Dict Amount) × RequirementDefinition
        → List RequirementDefinition
        → (Dict Amount → Result (Dict Amount) × List RequirementDefinition)
        → Result (Dict Amount) × List RequirementDefinition
    after_first (raised e, r) rs go = (raised e, r ∷ rs)
    after_first (ok d, r) rs go = ((go d).0, r ∷ (go d).1)

    -- The outcome carries `node_requirements`, which the caller does not see.
    unfoldable pub resolve_node_requirements_in_place :
        List RequirementDefinition → Dict Amount → Result (Dict Amount) × List RequirementDefinition
    unfolding after_first
    resolve_node_requirements_in_place [] d = (ok d, [])
    resolve_node_requirements_in_place (r ∷ rs) d =
        after_first (resolve_requirement r d) rs (λ d'. resolve_node_requirements_in_place rs d')
