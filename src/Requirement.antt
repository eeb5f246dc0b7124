-- ===== src/Requirement.antt =====
-- retina/orchestrator/src/retina/orchestrator/requirement.py: the compute requirements and the labels of a
-- pod. A requirement's amounts come from YAML and are a text, an int or missing.
pub mod Checks
use ocudu_infra_srs.Prelude.{
  ℕ, Bool, true, false, not, ◌&&◌, Option, none, some, List, [], ◌∷◌, ◌++◌, if◌then◌else◌, ◌==◌,
  any,
}
use ocudu_infra_srs.Prelude.Text.{Text, text, text_eq}
use ocudu_infra_srs.Prelude.Action.{value_error, index_error, Result, ok, raised}
use ocudu_infra_srs.Prelude.Outcome.{◌>>=◌}
use ocudu_infra_srs.Elements.{LabelDefinition}

abbrev pub rounding_fractional : Text
rounding_fractional = text "fractional"

abbrev pub rounding_round : Text
rounding_round = text "round"

abbrev pub rounding_truncate : Text
rounding_truncate = text "truncate"

abbrev pub rounding_modes : List Text
rounding_modes = rounding_fractional ∷ rounding_round ∷ rounding_truncate ∷ []

abbrev pub rounding_resources : List Text
rounding_resources = text "cpu" ∷ []

-- `a in b` for a tuple of texts.
abbrev pub contains : Text → List Text → Bool
contains a b = any (text_eq a) b

pub data Amount : Type 0 where
  str : Text → Amount
  int : ℕ → Amount

pub record RequirementDefinition : Type 0 where
  pub name : Text
  pub requests : Option Amount
  pub limits : Option Amount
  pub rounding : Text

-- The dict behind one key of `requirements`.
pub record RequirementConfig : Type 0 where
  pub requests : Option Amount
  pub limits : Option Amount
  pub rounding : Option Text

pub record RequirementManager : Type 0 where
  pub label_list : List LabelDefinition
  pub req_list : List RequirementDefinition

-- `word + s` split at each `c`: what `s.split(c)` returns, with the word that is being read.
split_at : ℕ → Text → Text → List Text
split_at c word [] = word ∷ []
split_at c word (d ∷ s) =
    let next = split_at c [] s in
    let longer = split_at c (word ++ d ∷ []) s in if d == c then word ∷ next else longer

-- `label.split("=")[0]` and `label.split("=")[1]`
abbrev key_and_value : List Text → Result LabelDefinition
key_and_value (key ∷ value ∷ _) = ok (record { name = key; value = value; reverse = false })
key_and_value _ = raised index_error

-- `add_label`, on the list of labels so far.
unfoldable pub add_label : Text → List LabelDefinition → Result (List LabelDefinition)
unfolding split_at
add_label label labels = do
  definition ← key_and_value (split_at b'=' [] label)
  ok (labels ++ definition ∷ [])

abbrev pub rounding_of : Option Text → Text
rounding_of none = rounding_fractional
rounding_of (some r) = r

-- `add_pod_req`, on the list of requirements so far.
unfoldable pub add_pod_req :
    Text → RequirementConfig → List RequirementDefinition → Result (List RequirementDefinition)
add_pod_req key value reqs =
    let rounding = rounding_of value.rounding in
    if not (contains rounding rounding_modes)
    then raised value_error
    else if not (text_eq rounding rounding_fractional) && not (contains key rounding_resources)
    then raised value_error
    else ok (
        reqs
        ++ record {
          name = key;
          requests = value.requests;
          limits = value.limits;
          rounding = rounding;
        }
          ∷ [])

pub add_labels : List Text → List LabelDefinition → Result (List LabelDefinition)
add_labels [] acc = ok acc
add_labels (l ∷ ls) acc = do acc' ← add_label l acc; add_labels ls acc'

pub add_pod_reqs :
    List (Text × RequirementConfig)
    → List RequirementDefinition
    → Result (List RequirementDefinition)
add_pod_reqs [] acc = ok acc
add_pod_reqs ((key, value) ∷ rest) acc = do acc' ← add_pod_req key value acc; add_pod_reqs rest acc'

abbrev pub member_label : Text
member_label = text "retina.srs.io/member=true"

-- `RequirementManager.__init__`
unfoldable pub requirement_manager :
    List (Text × RequirementConfig) → List Text → Result RequirementManager
unfolding add_labels add_pod_reqs
requirement_manager config additional_labels = do
  member ← add_label member_label []
  labels ← add_labels additional_labels member
  reqs ← add_pod_reqs config []
  ok (record { label_list = labels; req_list = reqs })
