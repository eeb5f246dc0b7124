-- ===== src/Requests/NodeChoice.antt =====
-- `RequestReservation._match_node` of reservation/resources.py: the node of a request's pod.
pub mod Kept
use ocudu_infra_srs.Prelude.{
  ℕ, zero, suc, Bool, true, false, not, Option, none, some, List, [], ◌∷◌, if◌then◌else◌, select,
  length,
}
use ocudu_infra_srs.Prelude.Text.{Text, text, text_eq}
use ocudu_infra_srs.Prelude.Dict.{Dict, lookup, values}
use ocudu_infra_srs.Prelude.Action.{
  Result, ok, raised, value_error, index_error, runtime_error, Action, pure, raise,
}
use ocudu_infra_srs.Prelude.Outcome.{◌>>=◌}
use ocudu_infra_srs.Elements.{LabelDefinition, Node, check_label_list}
use ocudu_infra_srs.Cluster.{Platform, get_retina_node_dict}
use ocudu_infra_srs.Resources.{Resource, is_node}
use ocudu_infra_srs.Requests.{RequestReservation}

-- The loop over the labels: the first one that names a node of the cluster.
unfoldable pub by_hostname : Dict Node → List LabelDefinition → Option Node
by_hostname d [] = none
by_hostname d (l ∷ labels) =
    let rest = by_hostname d labels in
    if text_eq l.name (text "kubernetes.io/hostname")
    then elim (lookup l.value d) [ none ↦ rest | some n ↦ some n ]
    else rest

-- `nodes.remove(node)`, where nodes are equal when their names are.
unfoldable pub remove : Node → List Node → Result (List Node)
remove n [] = raised value_error
remove n (m ∷ nodes) =
    let rest = remove n nodes in
    if text_eq n.name m.name then ok nodes else (do others ← rest; ok (m ∷ others))

-- The loop over `node_match_list`, on its copy.
unfoldable pub keep_matching : List LabelDefinition → List Node → List Node → Result (List Node)
keep_matching labels [] copy = ok copy
keep_matching labels (n ∷ nodes) copy = do
  next ← if not (check_label_list n.label_list labels) then remove n copy else ok copy
  keep_matching labels nodes next

unfoldable pub nth : ℕ → List Node → Option Node
nth i [] = none
nth zero (n ∷ nodes) = some n
nth (suc i) (n ∷ nodes) = nth i nodes

-- `random.randint(0, n)` is the parameter.
module _ (p : Platform) (randint : ℕ → p.World → ℕ × p.World) where
  picked : Option Node → Action p.World (Option Node)
  picked none = raise index_error
  picked (some n) = pure (some n)

  pub pick_node : Result (List Node) → Action p.World (Option Node)
  unfolding picked
  pick_node (raised e) = raise e
  pick_node (ok []) = raise runtime_error
  pick_node (ok (n ∷ nodes)) =
      λ w. let (i, w') = randint (length nodes) w in picked (nth i (n ∷ nodes)) w'

  on_resources : List LabelDefinition → List Node → List Resource → Action p.World (Option Node)
  on_resources labels nodes [] = pick_node (keep_matching labels nodes nodes)
  on_resources labels nodes (r ∷ rs) = pure r.node

  named : Option Node → Action p.World (Option Node) → Action p.World (Option Node)
  named none k = k
  named (some n) k = pure (some n)

  unfoldable pub match_node : RequestReservation → Action p.World (Option Node)
  unfolding named on_resources pick_node
  match_node r w =
      let d = get_retina_node_dict p false true w in
      let labels = r.requirement_manager.label_list in
      named (by_hostname d labels)
        (on_resources labels (values d) (select is_node r.reserved_resources)) w
