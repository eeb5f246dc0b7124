-- ===== src/Managers/Clock.antt =====
-- The clock in the rounds of managers.py.
use ocudu_infra_srs.Prelude.{
  ℕ, true, false, Option, none, some, List, [], ◌∷◌, arith, if◌then◌else◌, ◌==◌, length,
}
use ocudu_infra_srs.Prelude.Text.{Text}
use ocudu_infra_srs.Prelude.Int.{ℤ}
use ocudu_infra_srs.Prelude.Action.{Result, ok, runtime_error, Action, pure, raise, ◌>>◌}
use ocudu_infra_srs.Timeout.{TimeoutHandler, not_reached, get_remaining_timeout, whole_seconds}
use ocudu_infra_srs.Cluster.{Platform, create_config_map, equals_ok}
use ocudu_infra_srs.Cluster.Laws.{IsLawful}
use ocudu_infra_srs.Cluster.Growth.{Later, >>=-Later, if-Later, create_config_map-Later}
use ocudu_infra_srs.Locks.{reserve_space_configmap, space_lock}
use ocudu_infra_srs.Resources.{Resource}
use ocudu_infra_srs.Resources.Booking.{reserve_all}
use ocudu_infra_srs.Resources.Booking.Clock.{reserve_all-Later}
use ocudu_infra_srs.Resources.Inventory.{ClusterInfo}
use ocudu_infra_srs.Transformations.{
  SpaceGroups, get_node_resources, get_cluster_resources, get_available_resources,
  group_by_resource_space,
}
use ocudu_infra_srs.Transformations.Groups.{group_at}
use ocudu_infra_srs.Transformations.Match.{get_match_resources}
use ocudu_infra_srs.Transformations.Match.Complete.{get_match_resources-Later}
use ocudu_infra_srs.Managers.{
  keys, reads, remaining_seconds, get_resources_in_cluster, book, try_space, or_else_try,
  try_spaces, shuffled_keys, node_round, book_matching, check_possible, try_groups, book_available,
  check_all, cluster_round,
}

module _ {p : Platform} (law : IsLawful p) where
  open p use {World, now}

  module _ (configuration : World → Result ClusterInfo) (orch_id user_name : Text)
      (handler : TimeoutHandler) where
    seconds-Later : Later p (remaining_seconds p configuration orch_id user_name handler)
    unfolding remaining_seconds
    seconds-Later =
        >>=-Later p (reads (λ w. get_remaining_timeout handler (now w)))
          (λ t. pure (whole_seconds t)) (λ w. omega arith) (λ t w. omega arith)

    book-Later :
        (matched : List Resource) → Later p (book p configuration orch_id user_name handler matched)
    unfolding book
    book-Later matched =
        >>=-Later p (remaining_seconds p configuration orch_id user_name handler) _ seconds-Later
          (λ t.
            >>=-Later p (reserve_all p 0 orch_id user_name t 1 matched) _
              (reserve_all-Later law 0 orch_id user_name t 1 matched) (λ b w. omega arith))

    space-Later :
        (space : ℕ) (t : ℤ) → Later p (reserve_space_configmap p space orch_id user_name t)
    unfolding reserve_space_configmap
    space-Later space t =
        >>=-Later p (create_config_map p (space_lock space orch_id user_name t))
          (λ x. pure (equals_ok x))
          (create_config_map-Later law (space_lock space orch_id user_name t)) (λ x w. omega arith)

    try_space-Later :
        (space : ℕ) (matched : List Resource)
        → Later p (try_space p configuration orch_id user_name handler space matched)
    unfolding try_space
    try_space-Later space matched =
        >>=-Later p (remaining_seconds p configuration orch_id user_name handler) _ seconds-Later
          (λ t.
            >>=-Later p (reserve_space_configmap p space orch_id user_name t) _
              (space-Later space t) (λ b. if-Later p b _ _ (book-Later matched) (λ w. omega arith)))

    or_else-Later :
        {A : Type 0} (k : Action World (Option A)) (o : Option A)
        → Later p k
        → Later p (or_else_try p configuration orch_id user_name handler k o)
    or_else-Later k none h = h
    or_else-Later k (some a) h = λ w. omega arith

    try_spaces-Later :
        (inputs : List Resource) (groups : SpaceGroups) (spaces : List ℕ)
        → Later p (try_spaces p configuration orch_id user_name handler inputs groups spaces)
    unfolding try_spaces
    try_spaces-Later inputs groups [] = λ w. omega arith
    try_spaces-Later inputs groups (space ∷ spaces) =
        >>=-Later p (get_match_resources p inputs (group_at space groups) true) _
          (get_match_resources-Later law true inputs (group_at space groups))
          (λ matched.
            >>=-Later p
              (if length matched == length inputs
                then try_space p configuration orch_id user_name handler space matched
                else pure none)
              _
              (if-Later p (length matched == length inputs) _ _ (try_space-Later space matched)
                (λ w. omega arith))
              (λ o.
                or_else-Later
                  (try_spaces p configuration orch_id user_name handler inputs groups spaces) o
                  (try_spaces-Later inputs groups spaces)))

    keys-Later :
        (groups : SpaceGroups)
        → Later p (shuffled_keys p configuration orch_id user_name handler groups)
    unfolding shuffled_keys
    keys-Later groups w = law.shuffle_later (keys groups) w

    inventory-Later : Later p (get_resources_in_cluster p configuration orch_id user_name handler)
    unfolding get_resources_in_cluster
    inventory-Later w = omega arith

    groups-Later :
        (inputs : List Resource) (groups : SpaceGroups)
        → Later p (try_groups p configuration orch_id user_name handler inputs groups)
    unfolding try_groups
    groups-Later inputs groups =
        >>=-Later p (shuffled_keys p configuration orch_id user_name handler groups) _
          (keys-Later groups) (try_spaces-Later inputs groups)

    pub node_round-Later :
        (inputs : List Resource)
        → Later p (node_round p configuration orch_id user_name handler inputs)
    unfolding node_round
    node_round-Later inputs =
        >>=-Later p (reads (λ w. not_reached handler (now w))) _ (λ w. omega arith)
          (λ c.
            >>=-Later p (get_resources_in_cluster p configuration orch_id user_name handler) _
              inventory-Later
              (λ everything.
                >>=-Later p
                  (reads (λ w. ok (get_available_resources p w (get_node_resources everything))))
                  (λ available.
                    try_groups p configuration orch_id user_name handler inputs
                      (group_by_resource_space available))
                  (λ w. omega arith)
                  (λ available. groups-Later inputs (group_by_resource_space available))))

    possible-Later :
        (inputs possible : List Resource)
        → Later p (check_possible p configuration orch_id user_name handler inputs possible)
    unfolding check_possible
    possible-Later inputs possible =
        if-Later p (length possible == length inputs) (pure true) (raise runtime_error)
          (λ w. omega arith) (λ w. omega arith)

    matching-Later :
        (inputs matching : List Resource)
        → Later p (book_matching p configuration orch_id user_name handler inputs matching)
    unfolding book_matching
    matching-Later inputs matching =
        if-Later p (length matching == length inputs) _ (pure none) (book-Later matching)
          (λ w. omega arith)

    available-Later :
        (inputs available : List Resource)
        → Later p (book_available p configuration orch_id user_name handler inputs available)
    unfolding book_available
    available-Later inputs available =
        >>=-Later p (get_match_resources p inputs available true) _
          (get_match_resources-Later law true inputs available) (matching-Later inputs)

    all-Later :
        (inputs everything : List Resource)
        → Later p (check_all p configuration orch_id user_name handler inputs everything)
    unfolding check_all
    all-Later inputs everything =
        >>=-Later p (get_match_resources p inputs (get_cluster_resources everything) false) _
          (get_match_resources-Later law false inputs (get_cluster_resources everything))
          (possible-Later inputs)

    pub cluster_round-Later :
        (inputs : List Resource)
        → Later p (cluster_round p configuration orch_id user_name handler inputs)
    unfolding cluster_round
    cluster_round-Later inputs =
        >>=-Later p (reads (λ w. not_reached handler (now w))) _ (λ w. omega arith)
          (λ c.
            >>=-Later p (get_resources_in_cluster p configuration orch_id user_name handler) _
              inventory-Later
              (λ everything.
                >>=-Later p
                  (reads (λ w. ok (get_available_resources p w (get_cluster_resources everything))))
                  (λ available.
                    check_all p configuration orch_id user_name handler inputs everything
                    >> book_available p configuration orch_id user_name handler inputs available)
                  (λ w. omega arith)
                  (λ available.
                    >>=-Later p
                      (check_all p configuration orch_id user_name handler inputs everything)
                      (λ b.
                        book_available p configuration orch_id user_name handler inputs available)
                      (all-Later inputs everything) (λ b. available-Later inputs available))))
