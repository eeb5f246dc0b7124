-- ===== src/Cluster/Nodes.antt =====
-- `_get_node_dict` of kubernetes.py and the nodes that it leaves out.
use ocudu_infra_srs.Prelude.{
  Bool, none, ◌∙◌, arith, ◌≡◌, refl, true, false, Bool-cases, inl, inr, List, [], ◌∷◌, any,
}
use ocudu_infra_srs.Prelude.Text.{Text, text_eq, text_eq_iff, eq_of_text_eq}
use ocudu_infra_srs.Prelude.Dict.{Dict, insert, lookup, lookup-insert}
use ocudu_infra_srs.Elements.{Node}
use ocudu_infra_srs.Cluster.{
  Platform, retina_node, retina_nodes, get_retina_node_dict, ClusterNode, Taint,
  kubernetes_skip_taint_array, skim_taints, taints_of, get_node_dict,
}

skim_taints_lem : (ts : List Taint) (d : Dict ClusterNode) → skim_taints ts d ≡ d
unfolding skim_taints
skim_taints_lem [] d = refl
skim_taints_lem (t ∷ ts) d = elim (Bool-cases (any (text_eq t.key) kubernetes_skip_taint_array)) [
  | inl e ↦ rw e (skim_taints_lem ts d)
  | inr e ↦ rw e (skim_taints_lem ts d)
]

-- The keys of a dict are the names of its values, and no key is there twice.
abbrev pub WellKeyed : {V : Type 0} → (V → Text) → Dict V → Type 0
WellKeyed g [] = Unit
WellKeyed g ((k, v) ∷ d) = (k ≡ g v) × (lookup k d ≡ none) × WellKeyed g d

insert-WellKeyed :
    {V : Type 0} (g : V → Text) (k : Text) (v : V) (d : Dict V)
    → k ≡ g v
    → WellKeyed g d
    → WellKeyed g (insert k v d)
insert-WellKeyed g k v [] e h = (e, refl, tt)
insert-WellKeyed g k v ((j, x) ∷ d) e h = elim (Bool-cases (text_eq j k)) [
  | inl same ↦ rw same (eq_of_text_eq j k same ∙ e, h.1, h.2)
  | inr other ↦
      let (named, absent, rest) = h in
      rw other (
        named,
        ground (arith, lookup-insert k j v d, text_eq_iff k j, text_eq_iff j k),
        insert-WellKeyed g k v d e rest,
      )
]

get_node_dict-WellKeyed :
    (skip : Bool) (nodes : List ClusterNode) (d : Dict ClusterNode)
    → WellKeyed (λ n. n.name) d
    → WellKeyed (λ n. n.name) (get_node_dict skip nodes d)
unfolding get_node_dict
get_node_dict-WellKeyed skip [] d h = h
get_node_dict-WellKeyed true (n ∷ nodes) d h = get_node_dict-WellKeyed true nodes _ (
    insert-WellKeyed (λ n. n.name) n.name n (skim_taints (taints_of n.taints) d) refl
      (rw (skim_taints_lem (taints_of n.taints) d) h))
get_node_dict-WellKeyed false (n ∷ nodes) d h =
    get_node_dict-WellKeyed false nodes _ (insert-WellKeyed (λ n. n.name) n.name n d refl h)

retina_nodes-WellKeyed :
    (only : Bool) (nodes : Dict ClusterNode) (d : Dict Node)
    → WellKeyed (λ n. n.name) nodes
    → WellKeyed (λ n. n.name) d
    → WellKeyed (λ n. n.name) (retina_nodes only nodes d)
unfolding retina_nodes retina_node
retina_nodes-WellKeyed only [] d k h = h
retina_nodes-WellKeyed only ((name, n) ∷ nodes) d k h =
    let (named, _, rest) = k in
    retina_nodes-WellKeyed only nodes _ rest
      (insert-WellKeyed (λ n. n.name) name (retina_node only n) d named h)

-- Each node of the dict that `get_retina_node_dict` gives is there under its own name, and no name is there twice.
pub get_retina_node_dict-WellKeyed :
    (p : Platform) (only skip : Bool) (w : p.World)
    → WellKeyed (λ n. n.name) (get_retina_node_dict p only skip w)
unfolding get_retina_node_dict
get_retina_node_dict-WellKeyed p only skip w =
    retina_nodes-WellKeyed only (get_node_dict skip (p.list_node w) []) []
      (get_node_dict-WellKeyed skip (p.list_node w) [] tt) tt
