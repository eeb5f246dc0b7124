-- ===== src/Resources/Booking.antt =====
-- The `reserve` methods of resources.py, which take the lock of a cluster resource and publish the data of
-- a resource.
pub mod Outcome
pub mod Clock
use ocudu_infra_srs.Prelude.{
  ℕ, zero, suc, ◌*◌, Bool, true, false, not, Option, none, some, List, [], ◌∷◌, if◌then◌else◌,
}
use ocudu_infra_srs.Prelude.Text.{Text, text}
use ocudu_infra_srs.Prelude.Int.{ℤ, is_positive}
use ocudu_infra_srs.Prelude.Action.{Action, pure, raise, ◌>>=◌, ok}
use ocudu_infra_srs.Cluster.{Platform}
use ocudu_infra_srs.Locks.{
  reserve_cluster_resource_configmap, create_resource_data_configmap,
  get_resource_data_configmap_name,
}
use ocudu_infra_srs.Resources.{Resource, is_cluster, get_full_name}
use ocudu_infra_srs.Resources.Hash.{hash_key}
use ocudu_infra_srs.Resources.Data.{get_resource_data}

module _ (p : Platform) (num_seconds : ℕ) (orch_id user_name : Text) (timeout : ℤ) where
  open p use {World, yaml_dump}

  pub publish : Resource → Action World Bool
  publish r =
      create_resource_data_configmap p (get_resource_data_configmap_name p (hash_key r)) orch_id
        user_name ((text "resource.yml", yaml_dump (get_resource_data r)) ∷ []) timeout

  pub sleep_then : Action World Bool → Action World Bool
  sleep_then k w = k (p.sleep (num_seconds * 1000) w)

  -- The retries of `ClusterResource.reserve`.
  unfoldable pub reserve_cluster : ℕ → Resource → Action World Bool
  unfolding publish sleep_then
  reserve_cluster zero r = pure false
  reserve_cluster (suc retries) r = do
    result ← reserve_cluster_resource_configmap p (get_full_name r) orch_id user_name timeout
    if not result then sleep_then (reserve_cluster retries r) else publish r

  -- The retries of `NodeResource.reserve`.
  unfoldable pub reserve_node : ℕ → Resource → Action World Bool
  unfolding publish sleep_then
  reserve_node zero r = pure false
  reserve_node (suc retries) r = do
    result ← publish r
    if result then pure true else sleep_then (reserve_node retries r)

  -- A resource without capacity needs no reservation.
  unfoldable pub reserve : ℕ → Resource → Action World Bool
  reserve retries r =
      if not (is_positive r.capacity)
      then pure true
      else if is_cluster r
      then reserve_cluster retries r
      else reserve_node retries r

  -- `ResourceList.reserve`: `all` stops at the first resource that cannot be reserved.
  unfoldable pub reserve_all : ℕ → List Resource → Action World Bool
  reserve_all retries [] = pure true
  reserve_all retries (r ∷ rs) = do
    result ← reserve retries r
    if result then reserve_all retries rs else pure false
