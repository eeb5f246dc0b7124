-- ===== src/Cluster/Plain.antt =====
-- The labels of the nodes that `get_retina_node_dict` of retina_kubernetes.py gives.
use ocudu_infra_srs.Prelude.{refl, inl, inr, Bool, not, ◌||◌, [], ◌∷◌, Bool-cases, All}
use ocudu_infra_srs.Prelude.Text.{Text, text, text_eq}
use ocudu_infra_srs.Prelude.Dict.{Dict, insert, values}
use ocudu_infra_srs.Elements.{Node}
use ocudu_infra_srs.Elements.Labels.{IsPlain}
use ocudu_infra_srs.Cluster.{
  Platform, ClusterNode, get_retina_node_dict, get_node_dict, retina_nodes, retina_node,
  label_list_of, starts_with,
}

values-insert :
    (P : Node → Type 0) (k : Text) (n : Node) (d : Dict Node)
    → P n
    → All P (values d)
    → All P (values (insert k n d))
values-insert P k n [] h all = (h, tt)
values-insert P k n ((j, m) ∷ d) h all = elim (Bool-cases (text_eq j k)) [
  | inl e ↦ rw e (h, all.1)
  | inr e ↦ rw e (all.0, values-insert P k n d h all.1)
]

label_list_of-IsPlain : (only : Bool) (labels : Dict Text) → All IsPlain (label_list_of only labels)
unfolding label_list_of
label_list_of-IsPlain only [] = tt
label_list_of-IsPlain only ((key, value) ∷ rest) =
    let others = label_list_of-IsPlain only rest in
    elim (Bool-cases (not only || starts_with (text "retina") key)) [
      | inl e ↦ rw e (refl, others)
      | inr e ↦ rw e others
    ]

-- The labels of the cluster's nodes are not marked as reverse.
retina_nodes-IsPlain :
    (only : Bool) (nodes : Dict ClusterNode) (d : Dict Node)
    → All (λ n. All IsPlain n.label_list) (values d)
    → All (λ n. All IsPlain n.label_list) (values (retina_nodes only nodes d))
unfolding retina_nodes retina_node
retina_nodes-IsPlain only [] d h = h
retina_nodes-IsPlain only ((name, n) ∷ nodes) d h =
    retina_nodes-IsPlain only nodes (insert name (retina_node only n) d) (
      values-insert (λ n. All IsPlain n.label_list) name (retina_node only n) d
        (label_list_of-IsPlain only n.labels) h)

pub get_retina_node_dict-IsPlain :
    (p : Platform) (only skip : Bool) (w : p.World)
    → All (λ n. All IsPlain n.label_list) (values (get_retina_node_dict p only skip w))
unfolding get_retina_node_dict
get_retina_node_dict-IsPlain p only skip w =
    retina_nodes-IsPlain only (get_node_dict skip (p.list_node w) []) [] tt
