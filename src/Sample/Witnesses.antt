-- ===== src/Sample/Witnesses.antt =====
-- The theorems at concrete inputs, on the cluster of Sample.antt.
use ocudu_infra_srs.Prelude.{
  here, In, ℕ, ◌+◌, ◌≤◌, ◌<◌, ◌-◌, ◌≡◌, ◌≢◌, refl, ◌⊎◌, ◌↔◌, true, false, none, some, List, [], ◌∷◌,
  arith, All, length, map, ap,
}
use ocudu_infra_srs.Prelude.Text.{Text, text, text_eq}
use ocudu_infra_srs.Prelude.Int.{pos}
use ocudu_infra_srs.Prelude.Action.{Result, ok, raised, timeout_error, value_error, re_error}
use ocudu_infra_srs.Cluster.{Platform}
use ocudu_infra_srs.Resources.{type_r}
use ocudu_infra_srs.Elements.{LabelDefinition, check_label_list}
use ocudu_infra_srs.Elements.Labels.{HasUnmarked, check_label_list-HasUnmarked}
use ocudu_infra_srs.Requirement.{rounding_of, add_pod_req, RequirementConfig, int}
use ocudu_infra_srs.Requirement.Checks.{
  IsAllowed, IsChecked, add_pod_req_cases, requirement_manager-IsChecked,
}
use ocudu_infra_srs.Timeout.{timeout_handler, not_reached, get_remaining_timeout, cancel}
use ocudu_infra_srs.Timeout.Deadline.{timeout_handler_window, cancel_raises}
use ocudu_infra_srs.Cluster.{get_retina_node_dict}
use ocudu_infra_srs.Cluster.Nodes.{WellKeyed, get_retina_node_dict-WellKeyed}
use ocudu_infra_srs.Locks.{
  space_lock, get_space_name, get_cluster_resource_name, get_resource_data_configmap_name,
  reserve_space_configmap,
}
use ocudu_infra_srs.Resources.Hash.{hash_key}
use ocudu_infra_srs.Locks.Names.{lock_names}
use ocudu_infra_srs.Locks.Holding.{
  Acquires, Event, take_space, free_space, free_cluster, history, reserve_space_configmap-Acquires,
  space_exclusion,
}
use ocudu_infra_srs.Resources.{Resource}
use ocudu_infra_srs.Resources.Inventory.Fresh.{IsFresh, get_resource_from_cluster_info-IsFresh}
use ocudu_infra_srs.Transformations.{
  get_resources_by_id, get_node_resources, get_cluster_resources, group_by_resource_space,
}
use ocudu_infra_srs.Transformations.Groups.{group_at, group_by_resource_space-select}
use ocudu_infra_srs.Transformations.Match.{get_match_resources}
use ocudu_infra_srs.Transformations.Match.Sound.{AllMatch, get_match_resources-AllMatch}
use ocudu_infra_srs.Transformations.Match.Distinct.{NoRepeats, get_match_resources-NoRepeats}
use ocudu_infra_srs.Transformations.Match.Complete.{
  Quiet, get_match_resources-Answers, get_match_resources-re_error, get_match_resources_complete,
}
use ocudu_infra_srs.Managers.{reserve_node_resources, reserve_cluster_resources}
use ocudu_infra_srs.Managers.Time.{reserve_node_resources_total, reserve_cluster_resources_total}
use ocudu_infra_srs.Managers.Nodes.{reserve_node_resources-NodeBooking}
use ocudu_infra_srs.Managers.Offer.{NodeBooking}
use ocudu_infra_srs.Managers.Shared.{ClusterBooking, reserve_cluster_resources-ClusterBooking}
use ocudu_infra_srs.Requests.{get_all_resources}
use ocudu_infra_srs.Requests.Assignment.{Shared, pool_reserve_node_resources-NodeBooking}
use ocudu_infra_srs.Requests.NodeChoice.Kept.{match_node-HasUnmarked}
use ocudu_infra_srs.Prelude.Dict.{values}
use ocudu_infra_srs.Sample.{World, platform, platform-IsLawful}
use ocudu_infra_srs.Sample.Runs.{
  randint, plain, chosen_node, node_choice_ok, unnamed, start, info, any_zmq, any_license, handler,
  request, booked_nodes, after_nodes, booked_cluster, after_cluster, own_license, named_license,
  candidate, node_run_ok, cluster_run_ok, match_run_ok, candidate-Chosen, candidate_alone,
  lock_run_ok, node_request, cluster_request, requirements, manager, manager_run_ok, cluster_info,
  pc_node, own_zmq, inventory_run_ok, pool, pool_booked, after_pool, pool_request, pool_run_ok,
}

node_reservation_example :
    NodeBooking platform info
      (text "orch")
      (text "ann")
      handler
      (get_node_resources request)
      booked_nodes
      start
      after_nodes
node_reservation_example =
    reserve_node_resources-NodeBooking platform-IsLawful info (text "orch") (text "ann") handler 1
      request booked_nodes start after_nodes node_request node_run_ok

cluster_reservation_example :
    ClusterBooking platform info
      (text "orch")
      (text "ann")
      handler
      (get_cluster_resources request)
      booked_cluster
      start
      after_cluster
cluster_reservation_example =
    reserve_cluster_resources-ClusterBooking platform-IsLawful info (text "orch") (text "ann")
      handler 1 request booked_cluster start after_cluster cluster_request cluster_run_ok

-- Six rounds and one more for a minute.
node_total_example :
    (out : Result (List Resource) × World) × (reserve_node_resources platform info
        (text "orch")
        (text "ann")
        handler
        7
        request
        start
      ≡ some out)
node_total_example =
    reserve_node_resources_total platform-IsLawful info (text "orch") (text "ann") handler 65000
      refl 6 request start (omega arith)

cluster_total_example :
    (out : Result (List Resource) × World) × (reserve_cluster_resources platform info
        (text "orch")
        (text "ann")
        handler
        7
        request
        start
      ≡ some out)
cluster_total_example =
    reserve_cluster_resources_total platform-IsLawful info (text "orch") (text "ann") handler 65000
      refl 6 request start (omega arith)

abbrev others : List Event
others =
    free_space 4
    ∷ take_space 3 (text "other") (text "bob") (pos 9)
    ∷ free_cluster (text "license-x")
    ∷ []

exclusion_example :
    (reserve_space_configmap platform 3 (text "other") (text "bob") (pos 30) (
      history platform others
        (reserve_space_configmap platform 3 (text "orch") (text "ann") (pos 60) start).1)).0
    ≡ ok false
exclusion_example =
    space_exclusion platform-IsLawful 3 (text "orch") (text "ann") (pos 60) start others
      (text "other") (text "bob") (pos 30) lock_run_ok
      (λ e. absurd (omega (arith, e)), (tt, (tt, tt)))

first_lock_example :
    Acquires platform
      (space_lock 3 (text "orch") (text "ann") (pos 60))
      start
      (reserve_space_configmap platform 3 (text "orch") (text "ann") (pos 60) start)
first_lock_example =
    reserve_space_configmap-Acquires platform-IsLawful 3 (text "orch") (text "ann") (pos 60) start

match_example :
    (named_license ∷ [] ≡ [])
    ⊎ AllMatch platform (own_license ∷ []) true 0 (any_license ∷ []) (named_license ∷ [])
match_example =
    get_match_resources-AllMatch platform-IsLawful (any_license ∷ []) (own_license ∷ []) true start
      start (named_license ∷ []) match_run_ok

distinct_example : NoRepeats platform (named_license ∷ [])
distinct_example =
    get_match_resources-NoRepeats platform-IsLawful (any_license ∷ []) (own_license ∷ []) true start
      start (named_license ∷ []) match_run_ok

answers_example :
    (result : List Resource) × (w' : World) × (get_match_resources platform
        (any_license ∷ [])
        (own_license ∷ [])
        true
        start
      ≡ (ok result, w'))
    × Quiet platform start w'
answers_example =
    get_match_resources-Answers platform-IsLawful true (any_license ∷ []) (own_license ∷ []) start
      (λ e. absurd (omega (arith, ap length e))) (refl, tt) (refl, tt)

complete_example : length (named_license ∷ []) ≡ 1
complete_example =
    get_match_resources_complete platform-IsLawful (any_license ∷ []) (own_license ∷ []) true start
      start (named_license ∷ []) (candidate ∷ []) match_run_ok candidate-Chosen candidate_alone

groups_example :
    group_at 3 (
      group_by_resource_space
        (record any_zmq { space = some 3 } ∷ any_zmq ∷ record any_zmq { space = some 4 } ∷ []))
    ≡ record any_zmq { space = some 3 } ∷ []
groups_example =
    group_by_resource_space-select 3
      (record any_zmq { space = some 3 } ∷ any_zmq ∷ record any_zmq { space = some 4 } ∷ [])

abbrev gpu : LabelDefinition
gpu = record { name = text "gpu"; value = text "yes"; reverse = false }

abbrev no_gpu : LabelDefinition
no_gpu = record gpu { reverse = true }

labels_example :
    (check_label_list (gpu ∷ []) (gpu ∷ no_gpu ∷ []) ≡ true)
    ↔ All (HasUnmarked (gpu ∷ [])) (gpu ∷ no_gpu ∷ [])
labels_example = check_label_list-HasUnmarked (gpu ∷ []) (gpu ∷ no_gpu ∷ []) (refl, tt)

abbrev rounded : RequirementConfig
rounded = record { requests = some (int 1); limits = none; rounding = some (text "round") }

rounding_example :
    (IsAllowed (text "memory") (rounding_of rounded.rounding)
      × (add_pod_req (text "memory") rounded []
          ≡ ok (
              record {
                name = text "memory";
                requests = some (int 1);
                limits = none;
                rounding = text "round";
              }
              ∷ [])))
    ⊎ ((¬ IsAllowed (text "memory") (rounding_of rounded.rounding))
        × (add_pod_req (text "memory") rounded [] ≡ raised value_error))
rounding_example = add_pod_req_cases (text "memory") rounded []

manager_example :
    All IsChecked manager.req_list
    × (map (λ r. r.name) manager.req_list ≡ map (λ p. p.0) requirements)
    × (length manager.label_list ≡ length (text "user=ann" ∷ []) + 1)
manager_example = requirement_manager-IsChecked requirements (text "user=ann" ∷ []) manager_run_ok

window_example :
    let h = timeout_handler (some (pos 60000)) 5000 in
    ((64999 < 5000 + 60000)
      × (not_reached h 64999 ≡ ok true)
      × (get_remaining_timeout h 64999 ≡ ok (pos (5000 + 60000 - 64999))))
    ⊎ ((5000 + 60000 ≤ 64999)
        × (not_reached h 64999 ≡ raised timeout_error)
        × (get_remaining_timeout h 64999 ≡ raised timeout_error))
window_example = timeout_handler_window 59999 5000 64999

cancel_example :
    (not_reached (cancel handler) 7 ≡ raised timeout_error)
    × (get_remaining_timeout (cancel handler) 7 ≡ raised timeout_error)
cancel_example = cancel_raises handler 7

abbrev the_one : ℕ
the_one = 1

names_example :
    ((get_space_name 1 ≡ get_space_name 12) ↔ (the_one ≡ 12))
    × ((get_cluster_resource_name (text "api-x") ≡ get_cluster_resource_name (text "core-x"))
        ↔ (text "api-x" ≡ text "core-x"))
    × (get_space_name 1 ≢ get_cluster_resource_name (text "api-x"))
    × (get_resource_data_configmap_name platform (hash_key any_zmq) ≢ get_space_name 1)
    × (get_resource_data_configmap_name platform (hash_key any_zmq)
        ≢ get_cluster_resource_name (text "api-x"))
names_example = lock_names platform the_one 12 (text "api-x") (text "core-x") (hash_key any_zmq)

inventory_example : All (IsFresh ((text "pc1", pc_node) ∷ [])) (own_license ∷ own_zmq ∷ [])
inventory_example =
    get_resource_from_cluster_info-IsFresh cluster_info ((text "pc1", pc_node) ∷ [])
      inventory_run_ok

pool_example :
    (result : List Resource) × NodeBooking platform info
      (text "orch")
      (text "ann")
      handler
      (get_node_resources (get_all_resources pool).1)
      result
      start
      after_pool
    × Shared result (get_all_resources pool).0 pool_booked
    × ((id : Text)
        → length (get_resources_by_id result id)
          ≡ length (get_resources_by_id (get_node_resources (get_all_resources pool).1) id))
pool_example =
    pool_reserve_node_resources-NodeBooking platform-IsLawful info (text "orch") (text "ann")
      handler 1 pool pool_booked start after_pool pool_request pool_run_ok

abbrev bad_pattern : Platform
bad_pattern = record platform { re_compiles = λ pattern. false }

re_error_example :
    get_match_resources bad_pattern (any_license ∷ []) (own_license ∷ []) true start
    ≡ (raised re_error, start)
unfolding type_r text_eq
re_error_example =
    get_match_resources-re_error bad_pattern true (any_license ∷ []) (own_license ∷ []) any_license
      own_license start here here refl refl

node_choice_example :
    In chosen_node (values (get_retina_node_dict platform false true start))
    × All (HasUnmarked chosen_node.label_list) plain.requirement_manager.label_list
node_choice_example =
    match_node-HasUnmarked platform randint plain chosen_node start start unnamed refl
      node_choice_ok

keyed_example : WellKeyed (λ n. n.name) (get_retina_node_dict platform true true start)
keyed_example = get_retina_node_dict-WellKeyed platform true true start
