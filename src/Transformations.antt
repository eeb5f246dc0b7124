-- ===== src/Transformations.antt =====
-- retina/orchestrator/src/retina/orchestrator/reservation/transformations.py: filters on lists of resources,
-- groups by resource space, and the choice of resources for a request in `Match`.
pub mod Match
pub mod Groups
use ocudu_infra_srs.Prelude.{
  ℕ, Bool, true, false, Option, none, some, List, [], ◌∷◌, ◌++◌, ◌==◌, if◌then◌else◌, select,
}
use ocudu_infra_srs.Prelude.Text.{Text, text_eq}
use ocudu_infra_srs.Cluster.{Platform}
use ocudu_infra_srs.Resources.{Resource, is_cluster, is_node, is_available}

unfoldable pub get_cluster_resources : List Resource → List Resource
get_cluster_resources = select is_cluster

unfoldable pub get_node_resources : List Resource → List Resource
get_node_resources = select is_node

unfoldable pub get_available_resources : (p : Platform) → p.World → List Resource → List Resource
get_available_resources p w = select (λ r. is_available p r w)

abbrev pub has_id : Text → Option Text → Bool
has_id id none = false
has_id id (some name) = text_eq name id

unfoldable pub get_resources_by_id : List Resource → Text → List Resource
get_resources_by_id resources id = select (λ r. has_id id r.id_name) resources

-- The dict of `group_by_resource_space`, in insertion order.
abbrev pub SpaceGroups : Type 0
SpaceGroups = List (ℕ × List Resource)

-- `rs_groups[space].add_resource(r)` if the space is there, and a new group at the end if it is not.
add_to_group : ℕ → Resource → SpaceGroups → SpaceGroups
add_to_group space r [] = (space, r ∷ []) ∷ []
add_to_group space r ((s, group) ∷ groups) =
    if s == space then (s, group ++ r ∷ []) ∷ groups else (s, group) ∷ add_to_group space r groups

add_by_space : Option ℕ → Resource → SpaceGroups → SpaceGroups
add_by_space none r groups = groups
add_by_space (some space) r groups = add_to_group space r groups

group_from : SpaceGroups → List Resource → SpaceGroups
group_from groups [] = groups
group_from groups (r ∷ rs) = group_from (add_by_space r.space r groups) rs

unfoldable pub group_by_resource_space : List Resource → SpaceGroups
unfolding group_from add_by_space add_to_group
group_by_resource_space = group_from []
