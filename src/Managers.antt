-- ===== src/Managers.antt =====
-- retina/orchestrator/src/retina/orchestrator/reservation/managers.py: reserving the resources of a request.
-- What `get_cluster_configuration` decodes from the `retina-info` config map is the parameter `configuration`.
pub mod Clock
pub mod Time
pub mod Book
pub mod Offer
pub mod Nodes
pub mod Shared
use ocudu_infra_srs.Prelude.{
  ℕ, zero, suc, Bool, true, false, Option, none, some, List, [], ◌∷◌, ◌++◌, map, ◌==◌,
  if◌then◌else◌, length,
}
use ocudu_infra_srs.Prelude.Text.{Text}
use ocudu_infra_srs.Prelude.Int.{ℤ}
use ocudu_infra_srs.Prelude.Action.{
  Result, ok, raised, Exception, timeout_error, runtime_error, attribute_error, Action, pure, raise,
  ◌>>=◌, ◌>>◌,
}
use ocudu_infra_srs.Timeout.{TimeoutHandler, not_reached, get_remaining_timeout, whole_seconds}
use ocudu_infra_srs.Cluster.{Platform, get_config_map, get_retina_node_dict}
use ocudu_infra_srs.Locks.{reserve_space_configmap, get_space_name}
use ocudu_infra_srs.Resources.{Resource}
use ocudu_infra_srs.Resources.Booking.{reserve_all}
use ocudu_infra_srs.Resources.Inventory.{ClusterInfo, get_resource_from_cluster_info}
use ocudu_infra_srs.Transformations.{
  SpaceGroups, get_cluster_resources, get_node_resources, get_available_resources,
  group_by_resource_space,
}
use ocudu_infra_srs.Transformations.Groups.{group_at}
use ocudu_infra_srs.Transformations.Match.{get_match_resources}

-- `RESERVATION_NUM_SECONDS_BETWEEN_RETRIES`, in milliseconds.
abbrev pub between_retries : ℕ
between_retries = 10000

abbrev pub keys : SpaceGroups → List ℕ
keys = map (λ g. g.0)

-- An expression that reads the world and may raise.
abbrev pub reads : {W A : Type 0} → (W → Result A) → Action W A
reads f w = (f w, w)

module _ (p : Platform) where
  open p use {World, now, sleep}

  -- `while timeout_handler.not_reached(): body; sleep(…)`: the body returns from the function with `some`.
  -- The loop's outcome is `none` where the fuel runs out.
  abbrev pub after_round :
      {A : Type 0}
      → (World → Option (Result A × World))
      → Result (Option A) × World
      → Option (Result A × World)
  after_round again (raised e, w) = some (raised e, w)
  after_round again (ok (some a), w) = some (ok a, w)
  after_round again (ok none, w) = again (sleep between_retries w)

  unfoldable pub retry :
      {A : Type 0} → Action World (Option A) → ℕ → World → Option (Result A × World)
  retry body zero w = none
  retry body (suc fuel) w = after_round (retry body fuel) (body w)

  module _ (configuration : World → Result ClusterInfo) (orch_id user_name : Text)
      (handler : TimeoutHandler) where
    abbrev check_time : Action World Bool
    check_time = reads (λ w. not_reached handler (now w))

    -- `int(timeout_handler.get_remaining_timeout())`
    pub remaining_seconds : Action World ℤ
    remaining_seconds = do
      t ← reads (λ w. get_remaining_timeout handler (now w))
      pure (whole_seconds t)

    cluster_inventory : World → Result ClusterInfo → Result (List Resource)
    cluster_inventory w (raised e) = raised e
    cluster_inventory w (ok info) =
        get_resource_from_cluster_info info (get_retina_node_dict p false false w)

    -- `get_resources_in_cluster`
    unfoldable pub get_resources_in_cluster : Action World (List Resource)
    unfolding cluster_inventory
    get_resources_in_cluster = reads (λ w. cluster_inventory w (configuration w))

    -- `if matched.reserve(…): return matched`, with one try for each resource.
    unfoldable pub book : List Resource → Action World (Option (List Resource))
    unfolding remaining_seconds
    book matched = do
      timeout ← remaining_seconds
      booked ← reserve_all p 0 orch_id user_name timeout 1 matched
      pure (if booked then some matched else none)

    -- The body of the `for` loop of `reserve_node_resources`, for a space whose resources match.
    unfoldable pub try_space : ℕ → List Resource → Action World (Option (List Resource))
    unfolding remaining_seconds
    try_space space matched = do
      timeout ← remaining_seconds
      taken ← reserve_space_configmap p space orch_id user_name timeout
      if taken then book matched else pure none

    abbrev or_else_try : {A : Type 0} → Action World (Option A) → Option A → Action World (Option A)
    or_else_try k none = k
    or_else_try k (some a) = pure (some a)

    -- `_calculate_resource_space_from_request` and the loop over what it yields.
    unfoldable pub try_spaces :
        List Resource → SpaceGroups → List ℕ → Action World (Option (List Resource))
    try_spaces inputs groups [] = pure none
    try_spaces inputs groups (space ∷ spaces) = do
      matched ← get_match_resources p inputs (group_at space groups) true
      done ← if length matched == length inputs then try_space space matched else pure none
      or_else_try (try_spaces inputs groups spaces) done

    shuffled_keys : SpaceGroups → Action World (List ℕ)
    shuffled_keys groups w = let (l, w') = p.shuffle (keys groups) w in pure l w'

    try_groups : List Resource → SpaceGroups → Action World (Option (List Resource))
    try_groups inputs groups = do spaces ← shuffled_keys groups; try_spaces inputs groups spaces

    -- One round of the `while` loop.
    unfoldable pub node_round : List Resource → Action World (Option (List Resource))
    unfolding shuffled_keys try_groups
    node_round inputs = do
      check_time
      everything ← get_resources_in_cluster
      available ← reads (λ w. ok (get_available_resources p w (get_node_resources everything)))
      try_groups inputs (group_by_resource_space available)

    -- `.data.get("user_name", "")` of the lock; the data of a config map that is not there is None.
    log_space : ℕ → Action World Bool
    log_space space w = elim ((get_config_map p (get_space_name space) w).data_map) [
      | none ↦ raise attribute_error w
      | some d ↦ pure true w
    ]

    log_spaces : List Resource → SpaceGroups → List ℕ → Action World Bool
    log_spaces inputs groups [] = pure true
    log_spaces inputs groups (space ∷ spaces) = do
      matched ← get_match_resources p inputs (group_at space groups) true
      if length matched == length inputs then log_space space else pure true
      log_spaces inputs groups spaces

    -- The handler of `reserve_node_resources` for TimeoutError.
    pub on_node_timeout : List Resource → Action World (List Resource)
    unfolding log_spaces log_space shuffled_keys
    on_node_timeout inputs = do
      everything ← get_resources_in_cluster
      spaces ← shuffled_keys (group_by_resource_space (get_node_resources everything))
      log_spaces inputs (group_by_resource_space (get_node_resources everything)) spaces
      raise timeout_error

    abbrev catch_timeout :
        Action World (List Resource)
        → Option (Result (List Resource) × World)
        → Option (Result (List Resource) × World)
    catch_timeout handle (some (raised timeout_error, w)) = some (handle w)
    catch_timeout handle other = other

    reserve_wanted_nodes : ℕ → List Resource → World → Option (Result (List Resource) × World)
    reserve_wanted_nodes fuel [] w = some (ok [], w)
    reserve_wanted_nodes fuel (r ∷ rs) w =
        catch_timeout (on_node_timeout (r ∷ rs)) (retry (node_round (r ∷ rs)) fuel w)

    unfoldable pub reserve_node_resources :
        ℕ → List Resource → World → Option (Result (List Resource) × World)
    unfolding reserve_wanted_nodes
    reserve_node_resources fuel input_request =
        reserve_wanted_nodes fuel (get_node_resources input_request)

    book_matching : List Resource → List Resource → Action World (Option (List Resource))
    book_matching inputs matching =
        if length matching == length inputs then book matching else pure none

    check_possible : List Resource → List Resource → Action World Bool
    check_possible inputs possible =
        if length possible == length inputs then pure true else raise runtime_error

    book_available : List Resource → List Resource → Action World (Option (List Resource))
    book_available inputs available = do
      matching ← get_match_resources p inputs available true
      book_matching inputs matching

    check_all : List Resource → List Resource → Action World Bool
    check_all inputs everything = do
      possible ← get_match_resources p inputs (get_cluster_resources everything) false
      check_possible inputs possible

    -- One round of the `while` loop of `reserve_cluster_resources`.
    unfoldable pub cluster_round : List Resource → Action World (Option (List Resource))
    unfolding book_matching check_possible book_available check_all
    cluster_round inputs = do
      check_time
      everything ← get_resources_in_cluster
      available ← reads (λ w. ok (get_available_resources p w (get_cluster_resources everything)))
      check_all inputs everything
      book_available inputs available

    reserve_wanted_cluster : ℕ → List Resource → World → Option (Result (List Resource) × World)
    reserve_wanted_cluster fuel [] w = some (ok [], w)
    reserve_wanted_cluster fuel (r ∷ rs) w = retry (cluster_round (r ∷ rs)) fuel w

    -- The handler for TimeoutError logs and raises the error again.
    unfoldable pub reserve_cluster_resources :
        ℕ → List Resource → World → Option (Result (List Resource) × World)
    unfolding reserve_wanted_cluster
    reserve_cluster_resources fuel input_request =
        reserve_wanted_cluster fuel (get_cluster_resources input_request)
