-- ===== src/Resources/Inventory/Fresh.antt =====
-- The resources that `get_resource_from_cluster_info` of resources.py makes.
use ocudu_infra_srs.Prelude.{
  ℕ, ◌≡◌, refl, sym, ◌⊎◌, inl, inr, true, false, Option, none, some, List, [], ◌∷◌, ◌++◌, All,
  All-append, Option-cases,
}
use ocudu_infra_srs.Prelude.Text.{Text}
use ocudu_infra_srs.Prelude.Dict.{Dict, lookup}
use ocudu_infra_srs.Prelude.Int.{pos}
use ocudu_infra_srs.Prelude.Action.{ok}
use ocudu_infra_srs.Prelude.Outcome.{bind-eq-ok, ok-injective}
use ocudu_infra_srs.Elements.{Node}
use ocudu_infra_srs.Resources.{ConnectionType, Kind, is_cluster, Resource}
use ocudu_infra_srs.Resources.Inventory.Kinds.{Entry, cluster_kind, node_kind, space_item}
use ocudu_infra_srs.Resources.Inventory.{
  NodeEntry, ClusterInfo, cluster_resource, cluster_entries, entry_resource, node_entries, one_node,
  all_nodes, get_resource_from_cluster_info,
}
use ocudu_infra_srs.Resources.Inventory.Kinds.Classes.{
  cluster_kind-is_cluster_kind, node_kind-is_cluster_kind,
}

-- Nobody has claimed the resource, and it has capacity. A cluster resource has no space; a node resource has one, and
-- its node is one of the cluster's.
abbrev pub IsFresh : Dict Node → Resource → Type 0
IsFresh d r =
    (r.id_name ≡ none)
    × (r.capacity ≡ pos 1)
    × (((is_cluster r ≡ true) × (r.space ≡ none))
        ⊎ ((is_cluster r ≡ false)
            × ((n : Node) × (space : ℕ) × (name : Text) × (r.node ≡ some n)
                × (r.space ≡ some space)
                × (lookup name d ≡ some n))))

module _ (d : Dict Node) where
  cluster_made :
      (e : Entry) (k : Option Kind)
      → cluster_kind e ≡ ok k
      → All (IsFresh d) (elim k [ none ↦ [] | some k ↦ cluster_resource e k ∷ [] ])
  cluster_made e none h = tt
  cluster_made e (some k) h = ((refl, refl, inl (cluster_kind-is_cluster_kind e h, refl)), tt)

  cluster_entries-IsFresh :
      (es : List Entry) (acc : List Resource) {out : List Resource}
      → All (IsFresh d) acc
      → cluster_entries es acc ≡ ok out
      → All (IsFresh d) out
  unfolding cluster_entries
  cluster_entries-IsFresh [] acc h e = rw (← ok-injective e) h
  cluster_entries-IsFresh (x ∷ es) acc h e =
      let (k, first, rest) = bind-eq-ok (cluster_kind x) _ e in
      cluster_entries-IsFresh es _ (All-append (IsFresh d) acc _ h (cluster_made x k first)) rest

  space_item-some : (e : Entry) {o : Option ℕ} → space_item e ≡ ok o → (n : ℕ) × (o ≡ some n)
  unfolding space_item
  space_item-some e h = elim (Option-cases e.space) [
    | inl k ↦ let no = rw k at h in cc
    | inr (n, k) ↦ (n, sym (ok-injective (rw k at h)))
  ]

  entry-IsFresh :
      (name : Text) (node : Node) (e : Entry) (k : Option (Kind × Option ConnectionType))
      {out : List Resource}
      → lookup name d ≡ some node
      → node_kind e ≡ ok k
      → entry_resource node e k ≡ ok out
      → All (IsFresh d) out
  unfolding entry_resource
  entry-IsFresh name node e none l h r = rw (← ok-injective r) tt
  entry-IsFresh name node e (some (k, c)) l h r =
      let (o, first, rest) = bind-eq-ok (space_item e) _ r in
      let (n, same) = space_item-some e first in
      rw (← ok-injective rest)
        ((refl, refl, inr (node_kind-is_cluster_kind e h, (node, n, name, refl, same, l))), tt)

  node_entries-IsFresh :
      (name : Text) (node : Node) (es : List Entry) (acc : List Resource) {out : List Resource}
      → lookup name d ≡ some node
      → All (IsFresh d) acc
      → node_entries node es acc ≡ ok out
      → All (IsFresh d) out
  unfolding node_entries
  node_entries-IsFresh name node [] acc l h e = rw (← ok-injective e) h
  node_entries-IsFresh name node (x ∷ es) acc l h e =
      let (k, first, rest) = bind-eq-ok (node_kind x) _ e in
      let (made, second, last) =
        bind-eq-ok (entry_resource node x k) (λ made. node_entries node es (acc ++ made)) rest in
      node_entries-IsFresh name node es (acc ++ made) l
        (All-append (IsFresh d) acc made h (entry-IsFresh name node x k l first second)) last

  one_node-IsFresh :
      (name : Text) (o : Option Node) (es : List Entry) (acc : List Resource) {out : List Resource}
      → lookup name d ≡ o
      → All (IsFresh d) acc
      → one_node o es acc ≡ ok out
      → All (IsFresh d) out
  unfolding one_node
  one_node-IsFresh name none es acc l h e = rw (← ok-injective e) h
  one_node-IsFresh name (some node) es acc l h e = node_entries-IsFresh name node es acc l h e

  all_nodes-IsFresh :
      (ns : List NodeEntry) (acc : List Resource) {out : List Resource}
      → All (IsFresh d) acc
      → all_nodes d ns acc ≡ ok out
      → All (IsFresh d) out
  unfolding all_nodes
  all_nodes-IsFresh [] acc h e = rw (← ok-injective e) h
  all_nodes-IsFresh (n ∷ ns) acc h e =
      let (made, first, rest) =
        bind-eq-ok (one_node (lookup n.name d) n.resources acc) (λ acc. all_nodes d ns acc) e in
      all_nodes-IsFresh ns made
        (one_node-IsFresh n.name (lookup n.name d) n.resources acc refl h first) rest

-- Every resource that `get_resource_from_cluster_info` makes is unclaimed and has capacity 1; a cluster resource has no
-- space, and a node resource has a space and a node of the node dictionary.
pub get_resource_from_cluster_info-IsFresh :
    (info : ClusterInfo) (node_dict : Dict Node) {out : List Resource}
    → get_resource_from_cluster_info info node_dict ≡ ok out
    → All (IsFresh node_dict) out
unfolding get_resource_from_cluster_info
get_resource_from_cluster_info-IsFresh info d e =
    let (made, first, rest) =
      bind-eq-ok (cluster_entries info.cluster_resource_list [])
        (λ made. all_nodes d info.nodes made) e in
    all_nodes-IsFresh d info.nodes made
      (cluster_entries-IsFresh d info.cluster_resource_list [] tt first) rest
