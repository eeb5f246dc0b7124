-- ===== src/Elements.antt =====
-- retina/orchestrator/src/retina/orchestrator/elements.py: taints, labels and nodes.
pub mod Labels
pub mod RetinaType
use ocudu_infra_srs.Prelude.{
  Bool, true, false, not, ◌&&◌, Option, none, some, List, [], ◌∷◌, ◌++◌, map, if◌then◌else◌, any,
}
use ocudu_infra_srs.Prelude.Text.{Text, text, text_eq}

-- `bool_eq` is `==` on `bool`.
abbrev pub bool_eq : Bool → Bool → Bool
bool_eq true b = b
bool_eq false b = not b

-- A taint without a value has `None` there.
pub record TaintDefinition : Type 0 where
  pub key : Text
  pub value : Option Text
  pub effect : Text

-- The constructor: `self.effect = effect if effect else "NoSchedule"`.
unfoldable pub taint_definition : Text → Option Text → Option Text → TaintDefinition
taint_definition key value none = record { key = key; value = value; effect = text "NoSchedule" }
taint_definition key value (some []) = record {
  key = key;
  value = value;
  effect = text "NoSchedule";
}
taint_definition key value (some (c ∷ s)) = record { key = key; value = value; effect = c ∷ s }

-- A value in an f-string.
str_or_none : Option Text → Text
str_or_none none = text "None"
str_or_none (some value) = value

unfoldable pub get_str_taint : Text → Option Text → Text → Text
unfolding str_or_none
get_str_taint key value effect = key ++ (text "=" ++ (str_or_none value ++ (text ":" ++ effect)))

unfoldable pub get_taint_list_as_string : List TaintDefinition → List Text
unfolding get_str_taint
get_taint_list_as_string = map (λ t. get_str_taint t.key t.value t.effect)

pub record LabelDefinition : Type 0 where
  pub name : Text
  pub value : Text
  pub reverse : Bool

-- The `==` of the dataclass compares all of its fields.
unfoldable pub label_eq : LabelDefinition → LabelDefinition → Bool
label_eq a b = text_eq a.name b.name && text_eq a.value b.value && bool_eq a.reverse b.reverse

-- Allocatable amounts are only printed, so they are kept as text.
pub record Node : Type 0 where
  pub name : Text
  pub architecture : Text
  pub os_image : Text
  pub kernel_version : Text
  pub label_list : List LabelDefinition
  pub taint_list : List TaintDefinition
  pub ip_address : Text
  pub allocatable_cpu : Text
  pub allocatable_memory : Text
  pub allocatable_storage : Text

-- `Node.check_label_list`: the loop over the labels that are asked for.
unfoldable pub check_label_list : List LabelDefinition → List LabelDefinition → Bool
unfolding label_eq
check_label_list own [] = true
check_label_list own (label ∷ rest) =
    let next = check_label_list own rest in
    if label.reverse
    then (if any (λ l. label_eq l label) own then false else next)
    else (if any (λ l. label_eq l label) own then next else false)
