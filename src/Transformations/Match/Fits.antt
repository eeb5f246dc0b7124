-- ===== src/Transformations/Match/Fits.antt =====
-- The condition of `get_match_resources` (transformations.py) on the node of a resource, apart from the code.
use ocudu_infra_srs.Prelude.{
  ◌≡◌, refl, ◌⊎◌, inl, inr, true, false, List, [], ◌∷◌, arith, any, All, Bool-cases, &&-eq-true,
}
use ocudu_infra_srs.Prelude.Text.{Text, text_eq, eq_of_text_eq}
use ocudu_infra_srs.Elements.{
  TaintDefinition, Node, get_str_taint, get_taint_list_as_string, check_label_list,
}
use ocudu_infra_srs.Elements.Labels.{Admits, check_label_list_iff}
use ocudu_infra_srs.Transformations.Match.{
  sorted, insert_sorted, texts_eq, tuple_eq_str, is_empty, node_fits,
}

-- The taints of a node as texts, in order.
pub taint_texts : Node → List Text
taint_texts n = sorted (get_taint_list_as_string n.taint_list)

-- The node `own` has the same taints as the node `asked`, if that one has any; it has every label of `asked`, and none
-- that `asked` marks as absent.
abbrev pub NodeSuits : Node → Node → Type 0
NodeSuits asked own =
    ((asked.taint_list ≡ []) ⊎ (taint_texts asked ≡ taint_texts own))
    × All (Admits own.label_list) asked.label_list

texts_eq_lem : (a b : List Text) → texts_eq a b ≡ true → a ≡ b
unfolding texts_eq
texts_eq_lem [] [] h = refl
texts_eq_lem [] (y ∷ b) h = cc
texts_eq_lem (x ∷ a) [] h = cc
texts_eq_lem (x ∷ a) (y ∷ b) h =
    let (first, rest) = &&-eq-true (text_eq x y) (texts_eq a b) h in
    let same : x ≡ y = eq_of_text_eq x y first in let others : a ≡ b = texts_eq_lem a b rest in cc

any-tuple : (a : List Text) (l : List Text) → any (tuple_eq_str a) l ≡ false
unfolding tuple_eq_str
any-tuple a [] = refl
any-tuple a (x ∷ l) = any-tuple a l

insert_sorted_ne : (a : Text) (l : List Text) → is_empty (insert_sorted a l) ≡ false
unfolding insert_sorted
insert_sorted_ne a [] = refl
insert_sorted_ne a (b ∷ l) = ground arith

taints-empty :
    (ts : List TaintDefinition) → is_empty (sorted (get_taint_list_as_string ts)) ≡ true → ts ≡ []
unfolding sorted get_taint_list_as_string
taints-empty [] h = refl
taints-empty (t ∷ ts) h =
    let no =
      insert_sorted_ne (get_str_taint t.key t.value t.effect)
        (sorted (get_taint_list_as_string ts)) in
    cc

pub node_fits-NodeSuits : (asked own : Node) → node_fits asked own ≡ true → NodeSuits asked own
unfolding node_fits taint_texts
node_fits-NodeSuits asked own h =
    let (taints, labels) = &&-eq-true _ (check_label_list own.label_list asked.label_list) h in
    let admitted = (check_label_list_iff own.label_list asked.label_list).0 labels in
    elim (Bool-cases (is_empty (sorted (get_taint_list_as_string asked.taint_list)))) [
      | inl e ↦ (inl (taints-empty asked.taint_list e), admitted)
      | inr e ↦
          elim (Bool-cases (
            texts_eq (sorted (get_taint_list_as_string asked.taint_list))
              (sorted (get_taint_list_as_string own.taint_list)))) [
                | inl s ↦ (inr (texts_eq_lem _ _ s), admitted)
                | inr s ↦
                    let t =
                      any-tuple (sorted (get_taint_list_as_string asked.taint_list))
                        (sorted (get_taint_list_as_string own.taint_list)) in
                    let no : false ≡ true = rw (e, s, t) at taints in cc
              ]
    ]
