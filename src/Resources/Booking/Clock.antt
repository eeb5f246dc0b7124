-- ===== src/Resources/Booking/Clock.antt =====
-- The clock in the `reserve` methods of resources.py.
use ocudu_infra_srs.Prelude.{ℕ, zero, suc, ◌*◌, Bool, not, List, [], ◌∷◌, arith}
use ocudu_infra_srs.Prelude.Text.{Text}
use ocudu_infra_srs.Prelude.Int.{ℤ, is_positive}
use ocudu_infra_srs.Prelude.Action.{Action, pure}
use ocudu_infra_srs.Cluster.{Platform, equals_ok, create_config_map}
use ocudu_infra_srs.Cluster.Laws.{IsLawful}
use ocudu_infra_srs.Cluster.Growth.{Later, >>=-Later, if-Later, create_config_map-Later}
use ocudu_infra_srs.Locks.{
  cluster_lock, reserve_cluster_resource_configmap, create_resource_data_configmap,
}
use ocudu_infra_srs.Resources.{Resource, is_cluster, get_full_name}
use ocudu_infra_srs.Resources.Booking.{
  publish, sleep_then, reserve_cluster, reserve_node, reserve, reserve_all,
}
use ocudu_infra_srs.Resources.Booking.Outcome.{data_config}

module _ {p : Platform} (law : IsLawful p) (seconds : ℕ) (orch_id user_name : Text)
    (timeout : ℤ) where
  publish-Later : (r : Resource) → Later p (publish p seconds orch_id user_name timeout r)
  unfolding publish create_resource_data_configmap
  publish-Later r =
      >>=-Later p (create_config_map p (data_config p orch_id user_name timeout r))
        (λ x. pure (equals_ok x))
        (create_config_map-Later law (data_config p orch_id user_name timeout r))
        (λ x w. omega arith)

  sleep_then-Later :
      (k : Action p.World Bool)
      → Later p k
      → Later p (sleep_then p seconds orch_id user_name timeout k)
  unfolding sleep_then
  sleep_then-Later k h w =
      omega (arith, law.sleep_later (seconds * 1000) w, h (p.sleep (seconds * 1000) w))

  lock-Later :
      (name : Text) → Later p (reserve_cluster_resource_configmap p name orch_id user_name timeout)
  unfolding reserve_cluster_resource_configmap
  lock-Later name =
      >>=-Later p (create_config_map p (cluster_lock name orch_id user_name timeout))
        (λ x. pure (equals_ok x))
        (create_config_map-Later law (cluster_lock name orch_id user_name timeout))
        (λ x w. omega arith)

  reserve_cluster-Later :
      (retries : ℕ) (r : Resource)
      → Later p (reserve_cluster p seconds orch_id user_name timeout retries r)
  unfolding reserve_cluster
  reserve_cluster-Later zero r = λ w. omega arith
  reserve_cluster-Later (suc retries) r =
      >>=-Later p (reserve_cluster_resource_configmap p (get_full_name r) orch_id user_name timeout)
        _ (lock-Later (get_full_name r))
        (λ b.
          if-Later p (not b) _ _
            (sleep_then-Later (reserve_cluster p seconds orch_id user_name timeout retries r)
              (reserve_cluster-Later retries r))
            (publish-Later r))

  reserve_node-Later :
      (retries : ℕ) (r : Resource)
      → Later p (reserve_node p seconds orch_id user_name timeout retries r)
  unfolding reserve_node
  reserve_node-Later zero r = λ w. omega arith
  reserve_node-Later (suc retries) r =
      >>=-Later p (publish p seconds orch_id user_name timeout r) _ (publish-Later r) (λ b.
        if-Later p b _ _ (λ w. omega arith)
          (sleep_then-Later (reserve_node p seconds orch_id user_name timeout retries r)
            (reserve_node-Later retries r)))

  reserve-Later :
      (retries : ℕ) (r : Resource) → Later p (reserve p seconds orch_id user_name timeout retries r)
  unfolding reserve
  reserve-Later retries r =
      if-Later p (not (is_positive r.capacity)) _ _ (λ w. omega arith)
        (if-Later p (is_cluster r) _ _ (reserve_cluster-Later retries r)
          (reserve_node-Later retries r))

  pub reserve_all-Later :
      (retries : ℕ) (rs : List Resource)
      → Later p (reserve_all p seconds orch_id user_name timeout retries rs)
  unfolding reserve_all
  reserve_all-Later retries [] = λ w. omega arith
  reserve_all-Later retries (r ∷ rs) =
      >>=-Later p (reserve p seconds orch_id user_name timeout retries r) _
        (reserve-Later retries r)
        (λ b. if-Later p b _ _ (reserve_all-Later retries rs) (λ w. omega arith))
