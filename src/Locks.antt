-- ===== src/Locks.antt =====
-- retina/orchestrator/src/retina/orchestrator/reservation/utils.py: a config map is the lock of a resource
-- space or of a cluster resource, and another carries a resource's data.
pub mod Names
pub mod Holding
pub mod Table
use ocudu_infra_srs.Prelude.{
  ℕ, suc, Bool, true, false, not, Option, none, some, List, [], ◌∷◌, ◌++◌,
}
use ocudu_infra_srs.Prelude.Text.{Text, text, decimal}
use ocudu_infra_srs.Prelude.Dict.{Dict, lookup}
use ocudu_infra_srs.Prelude.Int.{ℤ, pos, negsuc}
use ocudu_infra_srs.Prelude.Action.{Action, pure, ◌>>=◌}
use ocudu_infra_srs.Cluster.{
  Platform, HashValue, equals_ok, ConfigmapConfig, create_config_map, delete_config_map,
  config_map_exists, get_config_map, ConfigMap,
}

unfoldable pub get_cluster_resource_name : Text → Text
get_cluster_resource_name name = text "retina-rcluster" ++ (text "-" ++ name)

unfoldable pub get_space_name : ℕ → Text
get_space_name space = text "retina-rs" ++ (text "-" ++ decimal space)

abbrev hash_text : ℤ → Text
hash_text (pos n) = decimal n
hash_text (negsuc n) = b'-' ∷ decimal (suc n)

-- The data of both kinds of lock.
abbrev owner_data : Text → Text → Dict Text
owner_data orch_id user_name = (text "orch_id", orch_id) ∷ (text "user_name", user_name) ∷ []

abbrev pub cluster_lock : Text → Text → Text → ℤ → ConfigmapConfig
cluster_lock name orch_id user_name timeout = record {
  name = get_cluster_resource_name name;
  orch_id = orch_id;
  user_name = user_name;
  timeout = some timeout;
  data_map = owner_data orch_id user_name;
}

abbrev pub space_lock : ℕ → Text → Text → ℤ → ConfigmapConfig
space_lock space orch_id user_name timeout = record {
  name = get_space_name space;
  orch_id = orch_id;
  user_name = user_name;
  timeout = some timeout;
  data_map = owner_data orch_id user_name;
}

abbrev pub user_of : Option (Dict Text) → Text
user_of none = []
user_of (some d) = elim (lookup (text "user_name") d) [ none ↦ [] | some u ↦ u ]

module _ (p : Platform) where
  open p use {World, hash}

  unfoldable pub reserve_cluster_resource_configmap : Text → Text → Text → ℤ → Action World Bool
  reserve_cluster_resource_configmap name orch_id user_name timeout = do
    response ← create_config_map p (cluster_lock name orch_id user_name timeout)
    pure (equals_ok response)

  unfoldable pub unlock_cluster_resource : Text → Action World Bool
  unlock_cluster_resource name = do
    response ← delete_config_map p (get_cluster_resource_name name)
    pure (equals_ok response)

  unfoldable pub reserve_space_configmap : ℕ → Text → Text → ℤ → Action World Bool
  reserve_space_configmap space orch_id user_name timeout = do
    response ← create_config_map p (space_lock space orch_id user_name timeout)
    pure (equals_ok response)

  unfoldable pub unlock_resource_space : ℕ → Action World Bool
  unlock_resource_space number = do
    response ← delete_config_map p (get_space_name number)
    pure (equals_ok response)

  unfoldable pub get_resource_data_configmap_name : List HashValue → Text
  get_resource_data_configmap_name key = text "rdata" ++ (text "-" ++ hash_text (hash key))

  unfoldable pub create_resource_data_configmap :
      Text → Text → Text → Dict Text → ℤ → Action World Bool
  create_resource_data_configmap name orch_id user_name content timeout = do
    response ← create_config_map p (record {
      name = name;
      orch_id = orch_id;
      user_name = user_name;
      timeout = some timeout;
      data_map = content;
    })
    pure (equals_ok response)

  unfoldable pub check_if_space_is_available : ℕ → World → Bool
  check_if_space_is_available space w = not (config_map_exists p (get_space_name space) w)

  -- Any exception on the way, such as a missing key, gives "".
  unfoldable pub check_space_user_reservation : ℕ → World → Text
  check_space_user_reservation space w =
      user_of (get_config_map p (get_space_name space) w).data_map

  unfoldable pub check_cluster_resource_user_reservation : Text → World → Text
  check_cluster_resource_user_reservation name w =
      user_of (get_config_map p (get_cluster_resource_name name) w).data_map
