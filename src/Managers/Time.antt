-- ===== src/Managers/Time.antt =====
-- The loops of managers.py and the clock.
use ocudu_infra_srs.Prelude.{
  ℕ, zero, suc, ◌+◌, ◌*◌, ◌≤◌, ◌≡◌, refl, Option, none, some, List, [], ◌∷◌, arith,
}
use ocudu_infra_srs.Prelude.Text.{Text}
use ocudu_infra_srs.Prelude.Action.{Result, ok, raised, timeout_error, Action}
use ocudu_infra_srs.Timeout.{TimeoutHandler, not_reached}
use ocudu_infra_srs.Cluster.{Platform}
use ocudu_infra_srs.Cluster.Laws.{IsLawful}
use ocudu_infra_srs.Cluster.Growth.{Later}
use ocudu_infra_srs.Resources.{Resource}
use ocudu_infra_srs.Resources.Inventory.{ClusterInfo}
use ocudu_infra_srs.Transformations.{get_node_resources, get_cluster_resources}
use ocudu_infra_srs.Managers.Clock.{node_round-Later, cluster_round-Later}
use ocudu_infra_srs.Managers.{
  between_retries, after_round, retry, node_round, cluster_round, reserve_wanted_nodes,
  reserve_wanted_cluster, reserve_node_resources, reserve_cluster_resources, catch_timeout,
  on_node_timeout,
}

module _ {p : Platform} (law : IsLawful p) where
  open p use {World, now}

  -- A loop whose body never ends earlier than it began and raises from the deadline on ends within one round for
  -- each ten seconds.
  retry_total :
      {A : Type 0} (body : Action World (Option A)) (deadline : ℕ)
      → Later p body
      → ((w : World) → deadline ≤ now w → (w' : World) × (body w ≡ (raised timeout_error, w')))
      → (fuel : ℕ) (w : World) → deadline ≤ now w + fuel * between_retries
      → (out : Result A × World) × (retry p body (suc fuel) w ≡ some out)
  unfolding retry
  retry_total body deadline later late zero w h =
      let (w', e) = late w (omega arith) in ((raised timeout_error, w'), rw e)
  retry_total {A} body deadline later late (suc fuel) w h =
      go (body w) (later w) (λ v k. retry_total body deadline later late fuel v k)
    where
      go :
          (r : Result (Option A) × World)
          → now w ≤ now r.1
          → ((v : World)
              → deadline ≤ now v + fuel * between_retries
              → (out : Result A × World) × (retry p body (suc fuel) v ≡ some out))
          → (out : Result A × World) × (after_round p (retry p body (suc fuel)) r ≡ some out)
      go (raised e, w') l again = ((raised e, w'), refl)
      go (ok (some a), w') l again = ((ok a, w'), refl)
      go (ok none, w') l again =
          again (p.sleep between_retries w') (omega (arith, law.sleep_later between_retries w'))

  module _ (configuration : World → Result ClusterInfo) (orch_id user_name : Text)
      (handler : TimeoutHandler) where
    module _ (deadline : ℕ) (timed : handler.time_to_reach ≡ some deadline) where
      late : (w : World) → deadline ≤ now w → not_reached handler (now w) ≡ raised timeout_error
      unfolding not_reached
      late w h = rw timed (ground arith)

      node_round_late :
          (inputs : List Resource) (w : World)
          → deadline ≤ now w
          → (w' : World) × (node_round p configuration orch_id user_name handler inputs w
              ≡ (raised timeout_error, w'))
      unfolding node_round
      node_round_late inputs w h = (w, rw (late w h))

      cluster_round_late :
          (inputs : List Resource) (w : World)
          → deadline ≤ now w
          → (w' : World) × (cluster_round p configuration orch_id user_name handler inputs w
              ≡ (raised timeout_error, w'))
      unfolding cluster_round
      cluster_round_late inputs w h = (w, rw (late w h))

catch_total :
    (p : Platform) (configuration : p.World → Result ClusterInfo) (orch_id user_name : Text)
    (handler : TimeoutHandler) (handle : Action p.World (List Resource))
    (r : Result (List Resource) × p.World)
    → (out : Result (List Resource) × p.World) × (catch_timeout p configuration orch_id user_name
          handler handle
          (some r)
        ≡ some out)
catch_total p configuration orch_id user_name handler handle (ok a, w) = ((ok a, w), refl)
catch_total p configuration orch_id user_name handler handle (raised timeout_error, w) =
    (handle w, refl)
catch_total p configuration orch_id user_name handler handle (raised e, w) = ((raised e, w), refl)

-- With a deadline `reserve_node_resources` ends, by returning or by raising: one round for each ten seconds up to the
-- deadline, and one more, are enough.
pub reserve_node_resources_total :
    {p : Platform}
    → IsLawful p
    → (configuration : p.World → Result ClusterInfo) (orch_id user_name : Text)
      (handler : TimeoutHandler) (deadline : ℕ)
    → handler.time_to_reach ≡ some deadline
    → (fuel : ℕ) (request : List Resource) (w : p.World) → deadline ≤ p.now w + fuel * 10000
    → (out : Result (List Resource) × p.World) × (reserve_node_resources p configuration orch_id
          user_name handler
          (suc fuel)
          request
          w
        ≡ some out)
unfolding reserve_node_resources
reserve_node_resources_total {p} law configuration orch_id user_name handler deadline timed fuel
      request w h =
    go (get_node_resources request)
  where
    go :
        (wanted : List Resource)
        → (out : Result (List Resource) × p.World) × (reserve_wanted_nodes p configuration orch_id
              user_name handler
              (suc fuel)
              wanted
              w
            ≡ some out)
    go [] = ((ok [], w), refl)
    go (r ∷ rs) =
        let (out, e) =
          retry_total law (node_round p configuration orch_id user_name handler (r ∷ rs)) deadline
            (node_round-Later law configuration orch_id user_name handler (r ∷ rs))
            (node_round_late law configuration orch_id user_name handler deadline timed (r ∷ rs))
            fuel w h in
        let (out', e') =
          catch_total p configuration orch_id user_name handler
            (on_node_timeout p configuration orch_id user_name handler (r ∷ rs)) out in
        (out', rw e e')

-- With a deadline `reserve_cluster_resources` ends in the same way.
pub reserve_cluster_resources_total :
    {p : Platform}
    → IsLawful p
    → (configuration : p.World → Result ClusterInfo) (orch_id user_name : Text)
      (handler : TimeoutHandler) (deadline : ℕ)
    → handler.time_to_reach ≡ some deadline
    → (fuel : ℕ) (request : List Resource) (w : p.World) → deadline ≤ p.now w + fuel * 10000
    → (out : Result (List Resource) × p.World) × (reserve_cluster_resources p configuration orch_id
          user_name handler
          (suc fuel)
          request
          w
        ≡ some out)
unfolding reserve_cluster_resources
reserve_cluster_resources_total {p} law configuration orch_id user_name handler deadline timed fuel
      request w h =
    go (get_cluster_resources request)
  where
    go :
        (wanted : List Resource)
        → (out : Result (List Resource) × p.World) × (reserve_wanted_cluster p configuration orch_id
              user_name handler
              (suc fuel)
              wanted
              w
            ≡ some out)
    go [] = ((ok [], w), refl)
    go (r ∷ rs) =
        retry_total law (cluster_round p configuration orch_id user_name handler (r ∷ rs)) deadline
          (cluster_round-Later law configuration orch_id user_name handler (r ∷ rs))
          (cluster_round_late law configuration orch_id user_name handler deadline timed (r ∷ rs))
          fuel w h
