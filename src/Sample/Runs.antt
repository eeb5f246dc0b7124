-- ===== src/Sample/Runs.antt =====
-- Runs on the concrete cluster: one node with a zmq resource in space 3, and a license.
use ocudu_infra_srs.Prelude.{
  ℕ, zero, suc, ◌≡◌, ◌≢◌, refl, Bool, true, false, Option, none, some, List, [], ◌∷◌, length, arith,
  ap, In, here, there,
}
use ocudu_infra_srs.Prelude.Text.{Text, text}
use ocudu_infra_srs.Prelude.Int.{pos}
use ocudu_infra_srs.Prelude.Action.{Result, ok, raised}
use ocudu_infra_srs.Protocol.{null}
use ocudu_infra_srs.Elements.{Node, LabelDefinition}
use ocudu_infra_srs.Timeout.{TimeoutHandler, timeout_handler}
use ocudu_infra_srs.Cluster.{
  get_retina_node_dict, ConfigMap, ClusterNode, Taint, get_config_map_dict,
}
use ocudu_infra_srs.Resources.{Resource, Kind, zmq, license, network}
use ocudu_infra_srs.Resources.Inventory.{ClusterInfo, get_resource_from_cluster_info}
use ocudu_infra_srs.Transformations.{get_node_resources, get_cluster_resources}
use ocudu_infra_srs.Transformations.Match.{
  Candidate, shared, matching, set_len, get_match_resources,
}
use ocudu_infra_srs.Transformations.Match.Sound.{Chosen}
use ocudu_infra_srs.Locks.{reserve_space_configmap}
use ocudu_infra_srs.Requirement.{
  RequirementConfig, RequirementManager, str, int, requirement_manager,
}
use ocudu_infra_srs.Managers.{reserve_node_resources, reserve_cluster_resources}
use ocudu_infra_srs.Requests.{RequestReservation, get_all_resources, pool_reserve_node_resources}
use ocudu_infra_srs.Requests.Pool.{
  RequestConfig, PoolRequestReservation, get_pool_request_reservation_from_config,
}
use ocudu_infra_srs.Requests.NodeChoice.{by_hostname, match_node}
use ocudu_infra_srs.Sample.{World, platform}

abbrev pub pc : ClusterNode
pc = record {
  name = text "pc1";
  labels = (text "retina.srs.io/member", text "true") ∷ [];
  taints =
      some
        (record { key = text "node.kubernetes.io/unreachable"; value = none; effect = none } ∷ []);
  architecture = text "amd64";
  os_image = text "Ubuntu";
  kernel_version = text "6.8";
  first_address = text "10.0.0.1";
  allocatable_cpu = text "8";
  allocatable_memory = text "16Gi";
  allocatable_storage = text "100Gi";
}

abbrev pub start : World
start = record { maps = []; nodes = pc ∷ []; clock = 5000 }

abbrev pub cluster_info : ClusterInfo
cluster_info = record {
  cluster_resource_list =
      record {
        type = text "license";
        model = text "amarisoft";
        space = none;
        connection = none;
        fields = (text "address", null) ∷ (text "args", null) ∷ [];
      }
      ∷ [];
  nodes =
      record {
        name = text "pc1";
        resources =
            record {
              type = text "zmq";
              model = text "zmq";
              space = some 3;
              connection = none;
              fields = [];
            }
            ∷ [];
      }
      ∷ [];
}

abbrev pub info : World → Result ClusterInfo
info w = ok cluster_info

abbrev pub any_zmq : Resource
any_zmq = record {
  model = text ".*";
  capacity = pos 1;
  connection = some network;
  id_name = some (text "radio");
  node = none;
  space = none;
  kind = zmq;
}

abbrev pub any_license : Resource
any_license = record {
  model = text ".*";
  capacity = pos 1;
  connection = some network;
  id_name = some (text "key");
  node = none;
  space = none;
  kind = license (record { ip_address = null; args = null });
}

abbrev pub handler : TimeoutHandler
handler = record { time_to_reach = some 65000 }

abbrev pub request : List Resource
request = any_zmq ∷ any_license ∷ []

abbrev result_of : Option (Result (List Resource) × World) → List Resource
result_of (some (ok l, w)) = l
result_of _ = []

abbrev world_of : Option (Result (List Resource) × World) → World
world_of (some (r, w)) = w
world_of none = start

abbrev node_run : Option (Result (List Resource) × World)
node_run = reserve_node_resources platform info (text "orch") (text "ann") handler 1 request start

abbrev pub booked_nodes : List Resource
booked_nodes = result_of node_run

abbrev pub after_nodes : World
after_nodes = world_of node_run

abbrev cluster_run : Option (Result (List Resource) × World)
cluster_run =
    reserve_cluster_resources platform info (text "orch") (text "ann") handler 1 request start

abbrev pub booked_cluster : List Resource
booked_cluster = result_of cluster_run

abbrev pub after_cluster : World
after_cluster = world_of cluster_run

-- The license of the cluster, as it is found.
abbrev pub own_license : Resource
own_license = record any_license { model = text "amarisoft"; id_name = none }

abbrev pub named_license : Resource
named_license = record any_license { model = text "amarisoft" }

abbrev pub candidate : Candidate
candidate = record { ref = shared 0; resource = own_license }

pub node_run_ok :
    reserve_node_resources platform info (text "orch") (text "ann") handler 1 request start
    ≡ some (ok booked_nodes, after_nodes)
unfolding reserve_node_resources get_node_resources ocudu_infra_srs.Managers.retry
    ocudu_infra_srs.Managers.node_round ocudu_infra_srs.Prelude.Text.text_eq
    ocudu_infra_srs.Timeout.not_reached ocudu_infra_srs.Managers.get_resources_in_cluster
    ocudu_infra_srs.Resources.Inventory.get_resource_from_cluster_info
    ocudu_infra_srs.Resources.Inventory.Kinds.cluster_kind
    ocudu_infra_srs.Resources.Inventory.Kinds.node_kind
    ocudu_infra_srs.Resources.Inventory.Kinds.space_item ocudu_infra_srs.Managers.try_spaces
    ocudu_infra_srs.Transformations.Match.combinations ocudu_infra_srs.Cluster.get_retina_node_dict
    ocudu_infra_srs.Cluster.get_node_dict ocudu_infra_srs.Transformations.group_by_resource_space
    ocudu_infra_srs.Transformations.get_available_resources ocudu_infra_srs.Resources.is_available
    ocudu_infra_srs.Resources.on_skipped_taint ocudu_infra_srs.Cluster.config_map_exists
    ocudu_infra_srs.Cluster.get_config_map_dict
    ocudu_infra_srs.Transformations.Match.get_match_resources
    ocudu_infra_srs.Transformations.Match.matching_raises
    ocudu_infra_srs.Transformations.Match.set_raises ocudu_infra_srs.Resources.eq_raises
    ocudu_infra_srs.Transformations.Match.matching ocudu_infra_srs.Transformations.Match.product
    ocudu_infra_srs.Transformations.Match.candidates_from ocudu_infra_srs.Managers.try_space
    ocudu_infra_srs.Transformations.Match.candidates_at ocudu_infra_srs.Resources.resource_eq
    ocudu_infra_srs.Resources.type_r ocudu_infra_srs.Transformations.Match.set_len
    ocudu_infra_srs.Transformations.Match.set_ids ocudu_infra_srs.Managers.book
    ocudu_infra_srs.Timeout.get_remaining_timeout ocudu_infra_srs.Locks.reserve_space_configmap
    ocudu_infra_srs.Cluster.create_config_map ocudu_infra_srs.Cluster.created_code
    ocudu_infra_srs.Resources.Booking.reserve_all ocudu_infra_srs.Resources.Booking.reserve
    ocudu_infra_srs.Resources.Booking.reserve_node
    ocudu_infra_srs.Locks.create_resource_data_configmap ocudu_infra_srs.Locks.get_space_name
    ocudu_infra_srs.Locks.get_resource_data_configmap_name
node_run_ok = refl

pub cluster_run_ok :
    reserve_cluster_resources platform info (text "orch") (text "ann") handler 1 request start
    ≡ some (ok booked_cluster, after_cluster)
unfolding reserve_cluster_resources get_cluster_resources ocudu_infra_srs.Managers.retry
    ocudu_infra_srs.Managers.node_round ocudu_infra_srs.Prelude.Text.text_eq
    ocudu_infra_srs.Timeout.not_reached ocudu_infra_srs.Managers.get_resources_in_cluster
    ocudu_infra_srs.Resources.Inventory.get_resource_from_cluster_info
    ocudu_infra_srs.Resources.Inventory.Kinds.cluster_kind
    ocudu_infra_srs.Resources.Inventory.Kinds.node_kind
    ocudu_infra_srs.Resources.Inventory.Kinds.space_item ocudu_infra_srs.Managers.try_spaces
    ocudu_infra_srs.Transformations.Match.combinations ocudu_infra_srs.Cluster.get_retina_node_dict
    ocudu_infra_srs.Cluster.get_node_dict ocudu_infra_srs.Transformations.group_by_resource_space
    ocudu_infra_srs.Transformations.get_available_resources ocudu_infra_srs.Resources.is_available
    ocudu_infra_srs.Resources.on_skipped_taint ocudu_infra_srs.Cluster.config_map_exists
    ocudu_infra_srs.Cluster.get_config_map_dict
    ocudu_infra_srs.Transformations.Match.get_match_resources
    ocudu_infra_srs.Transformations.Match.matching_raises
    ocudu_infra_srs.Transformations.Match.set_raises ocudu_infra_srs.Resources.eq_raises
    ocudu_infra_srs.Transformations.Match.matching ocudu_infra_srs.Transformations.Match.product
    ocudu_infra_srs.Transformations.Match.candidates_from ocudu_infra_srs.Managers.try_space
    ocudu_infra_srs.Transformations.Match.candidates_at ocudu_infra_srs.Resources.resource_eq
    ocudu_infra_srs.Resources.type_r ocudu_infra_srs.Transformations.Match.set_len
    ocudu_infra_srs.Transformations.Match.set_ids ocudu_infra_srs.Managers.book
    ocudu_infra_srs.Timeout.get_remaining_timeout ocudu_infra_srs.Locks.reserve_space_configmap
    ocudu_infra_srs.Cluster.create_config_map ocudu_infra_srs.Cluster.created_code
    ocudu_infra_srs.Resources.Booking.reserve_all ocudu_infra_srs.Resources.Booking.reserve
    ocudu_infra_srs.Resources.Booking.reserve_node
    ocudu_infra_srs.Locks.create_resource_data_configmap ocudu_infra_srs.Locks.get_space_name
    ocudu_infra_srs.Locks.get_resource_data_configmap_name ocudu_infra_srs.Managers.cluster_round
    ocudu_infra_srs.Resources.Booking.reserve_cluster
    ocudu_infra_srs.Locks.reserve_cluster_resource_configmap
    ocudu_infra_srs.Locks.get_cluster_resource_name
cluster_run_ok = refl

pub match_run_ok :
    get_match_resources platform (any_license ∷ []) (own_license ∷ []) true start
    ≡ (ok (named_license ∷ []), start)
unfolding get_match_resources ocudu_infra_srs.Transformations.Match.matching_raises
    ocudu_infra_srs.Transformations.Match.set_raises ocudu_infra_srs.Resources.eq_raises
    ocudu_infra_srs.Transformations.Match.combinations ocudu_infra_srs.Transformations.Match.product
    matching ocudu_infra_srs.Transformations.Match.candidates_from
    ocudu_infra_srs.Transformations.Match.candidates_at ocudu_infra_srs.Resources.resource_eq
    ocudu_infra_srs.Prelude.Text.text_eq ocudu_infra_srs.Resources.type_r set_len
    ocudu_infra_srs.Transformations.Match.set_ids
match_run_ok = refl

pub candidate-Chosen :
    Chosen (candidate ∷ []) (matching platform 0 (any_license ∷ []) (own_license ∷ []))
unfolding matching ocudu_infra_srs.Transformations.Match.candidates_from
    ocudu_infra_srs.Transformations.Match.candidates_at ocudu_infra_srs.Resources.resource_eq
    ocudu_infra_srs.Prelude.Text.text_eq ocudu_infra_srs.Resources.type_r
candidate-Chosen = (here, tt)

pub candidate_alone : set_len platform [] (candidate ∷ []) ≡ 1
unfolding set_len
candidate_alone = refl

pub lock_run_ok :
    (reserve_space_configmap platform 3 (text "orch") (text "ann") (pos 60) start).0 ≡ ok true
unfolding reserve_space_configmap ocudu_infra_srs.Cluster.create_config_map
    ocudu_infra_srs.Cluster.created_code ocudu_infra_srs.Cluster.dict_of
lock_run_ok = refl

pub node_request : get_node_resources request ≢ []
unfolding get_node_resources
node_request e = absurd (omega (arith, ap length e))

pub cluster_request : get_cluster_resources request ≢ []
unfolding get_cluster_resources
cluster_request e = absurd (omega (arith, ap length e))

abbrev pub requirements : List (Text × RequirementConfig)
requirements =
    (text "cpu", record { requests = some (int 2); limits = none; rounding = some (text "round") })
    ∷ (text "memory", record { requests = none; limits = some (str (text "2Gi")); rounding = none })
    ∷ []

abbrev pub manager : RequirementManager
manager = record {
  label_list =
      record { name = text "retina.srs.io/member"; value = text "true"; reverse = false }
      ∷ record { name = text "user"; value = text "ann"; reverse = false }
      ∷ [];
  req_list =
      record { name = text "cpu"; requests = some (int 2); limits = none; rounding = text "round" }
      ∷ record {
        name = text "memory";
        requests = none;
        limits = some (str (text "2Gi"));
        rounding = text "fractional";
      }
      ∷ [];
}

pub manager_run_ok : requirement_manager requirements (text "user=ann" ∷ []) ≡ ok manager
unfolding requirement_manager ocudu_infra_srs.Requirement.add_label
    ocudu_infra_srs.Requirement.add_pod_req ocudu_infra_srs.Prelude.Text.text_eq
manager_run_ok = refl

abbrev pub pc_node : Node
pc_node = record {
  name = text "pc1";
  architecture = text "amd64";
  os_image = text "Ubuntu";
  kernel_version = text "6.8";
  label_list = [];
  taint_list = [];
  ip_address = text "10.0.0.1";
  allocatable_cpu = text "8";
  allocatable_memory = text "16Gi";
  allocatable_storage = text "100Gi";
}

abbrev pub own_zmq : Resource
own_zmq = record any_zmq { model = text "zmq"; id_name = none; node = some pc_node; space = some 3 }

pub inventory_run_ok :
    get_resource_from_cluster_info cluster_info ((text "pc1", pc_node) ∷ [])
    ≡ ok (own_license ∷ own_zmq ∷ [])
unfolding get_resource_from_cluster_info ocudu_infra_srs.Prelude.Text.text_eq
inventory_run_ok = refl

abbrev pub pool : List RequestReservation
pool =
    record {
      name = text "gnb";
      image = [];
      nof_ports = 1;
      resources = record any_zmq { id_name = none } ∷ [];
      requirement_manager = record {
        label_list =
            record { name = text "retina.srs.io/member"; value = text "true"; reverse = false }
            ∷ [];
        req_list = [];
      };
      reserved_resources = [];
      binary_list = [];
      enable_host_network_force = [];
      ip_uu_source = [];
      ip_back_source = [];
      sidecars = [];
      node = none;
    }
    ∷ []

abbrev pool_run : Option (Result (List RequestReservation) × World)
pool_run = pool_reserve_node_resources platform info (text "orch") (text "ann") handler 1 pool start

abbrev pub requests_after :
    Option (Result (List RequestReservation) × World) → List RequestReservation
requests_after (some (ok l, w)) = l
requests_after _ = []

abbrev pub world_after : Option (Result (List RequestReservation) × World) → World
world_after (some (r, w)) = w
world_after none = start

abbrev pub pool_booked : List RequestReservation
pool_booked = requests_after pool_run

abbrev pub after_pool : World
after_pool = world_after pool_run

pub pool_run_ok :
    pool_reserve_node_resources platform info (text "orch") (text "ann") handler 1 pool start
    ≡ some (ok pool_booked, after_pool)
unfolding pool_reserve_node_resources get_all_resources ocudu_infra_srs.Requests.get_resources
    ocudu_infra_srs.Requests.add_reserved_resource_list reserve_node_resources get_node_resources
    ocudu_infra_srs.Managers.retry ocudu_infra_srs.Managers.node_round
    ocudu_infra_srs.Prelude.Text.text_eq ocudu_infra_srs.Timeout.not_reached
    ocudu_infra_srs.Managers.get_resources_in_cluster
    ocudu_infra_srs.Resources.Inventory.get_resource_from_cluster_info
    ocudu_infra_srs.Resources.Inventory.Kinds.cluster_kind
    ocudu_infra_srs.Resources.Inventory.Kinds.node_kind
    ocudu_infra_srs.Resources.Inventory.Kinds.space_item ocudu_infra_srs.Managers.try_spaces
    ocudu_infra_srs.Transformations.Match.combinations ocudu_infra_srs.Cluster.get_retina_node_dict
    ocudu_infra_srs.Cluster.get_node_dict ocudu_infra_srs.Transformations.group_by_resource_space
    ocudu_infra_srs.Transformations.get_available_resources ocudu_infra_srs.Resources.is_available
    ocudu_infra_srs.Resources.on_skipped_taint ocudu_infra_srs.Cluster.config_map_exists
    ocudu_infra_srs.Cluster.get_config_map_dict
    ocudu_infra_srs.Transformations.Match.get_match_resources
    ocudu_infra_srs.Transformations.Match.matching_raises
    ocudu_infra_srs.Transformations.Match.set_raises ocudu_infra_srs.Resources.eq_raises
    ocudu_infra_srs.Transformations.Match.matching ocudu_infra_srs.Transformations.Match.product
    ocudu_infra_srs.Transformations.Match.candidates_from ocudu_infra_srs.Managers.try_space
    ocudu_infra_srs.Transformations.Match.candidates_at ocudu_infra_srs.Resources.resource_eq
    ocudu_infra_srs.Resources.type_r ocudu_infra_srs.Transformations.Match.set_len
    ocudu_infra_srs.Transformations.Match.set_ids ocudu_infra_srs.Managers.book
    ocudu_infra_srs.Timeout.get_remaining_timeout ocudu_infra_srs.Locks.reserve_space_configmap
    ocudu_infra_srs.Cluster.create_config_map ocudu_infra_srs.Cluster.created_code
    ocudu_infra_srs.Resources.Booking.reserve_all ocudu_infra_srs.Resources.Booking.reserve
    ocudu_infra_srs.Resources.Booking.reserve_node
    ocudu_infra_srs.Locks.create_resource_data_configmap ocudu_infra_srs.Locks.get_space_name
    ocudu_infra_srs.Locks.get_resource_data_configmap_name
    ocudu_infra_srs.Transformations.Match.node_fits
    ocudu_infra_srs.Elements.get_taint_list_as_string ocudu_infra_srs.Elements.check_label_list
pool_run_ok = refl

pub pool_request : get_node_resources (get_all_resources pool).1 ≢ []
unfolding get_node_resources get_all_resources ocudu_infra_srs.Requests.get_resources
pool_request e = absurd (omega (arith, ap length e))

abbrev pub randint : ℕ → World → ℕ × World
randint n w = (0, w)

abbrev pub member_label : LabelDefinition
member_label = record { name = text "retina.srs.io/member"; value = text "true"; reverse = false }

abbrev pub plain : RequestReservation
plain = record {
  name = text "core";
  image = [];
  nof_ports = 1;
  resources = [];
  requirement_manager = record { label_list = member_label ∷ []; req_list = [] };
  reserved_resources = [];
  binary_list = [];
  enable_host_network_force = [];
  ip_uu_source = [];
  ip_back_source = [];
  sidecars = [];
  node = none;
}

abbrev node_of : Result (Option Node) × World → Node
node_of (ok (some n), w) = n
node_of _ = pc_node

abbrev pub chosen_node : Node
chosen_node = node_of (match_node platform randint plain start)

pub node_choice_ok : match_node platform randint plain start ≡ (ok (some chosen_node), start)
unfolding match_node get_retina_node_dict ocudu_infra_srs.Cluster.get_node_dict by_hostname
    ocudu_infra_srs.Prelude.Text.text_eq ocudu_infra_srs.Requests.NodeChoice.keep_matching
    ocudu_infra_srs.Elements.check_label_list ocudu_infra_srs.Requests.NodeChoice.nth
node_choice_ok = refl

pub unnamed :
    by_hostname (get_retina_node_dict platform false true start) (member_label ∷ []) ≡ none
unfolding by_hostname get_retina_node_dict ocudu_infra_srs.Cluster.get_node_dict
    ocudu_infra_srs.Prelude.Text.text_eq
unnamed = refl

-- A config with one request.
abbrev pub configs : List RequestConfig
configs =
    record {
      name = some (text "gnb");
      image = some (text "agent");
      nof_ports = none;
      labels = none;
      requirements = some (
          (
            text "cpu",
            record { requests = some (int 2); limits = none; rounding = some (text "round") },
          )
          ∷ []);
      sidecars = none;
      resources = some (record { type = some (text "zmq"); model = none; dummy = false } ∷ []);
      shared_files = some (
          record {
            local_path = some (text "gnb");
            remote_path = some (text "/bin/gnb");
            is_executable = some true;
            is_optional = none;
          }
          ∷ []);
      host_network = none;
      ip_uu_source = none;
      ip_back_source = none;
    }
    ∷ []

abbrev pool_of : Result PoolRequestReservation → PoolRequestReservation
pool_of (ok q) = q
pool_of (raised e) = record {
  request_reservation_list = [];
  binary_list = [];
  orch_id = [];
  user_name = [];
}

abbrev pub read_pool : PoolRequestReservation
read_pool = pool_of (get_pool_request_reservation_from_config configs (text "abc") (text "ana"))

pub pool_config_ok :
    get_pool_request_reservation_from_config configs (text "abc") (text "ana") ≡ ok read_pool
unfolding get_pool_request_reservation_from_config ocudu_infra_srs.Requests.Pool.request_from_config
    requirement_manager ocudu_infra_srs.Requirement.add_label
    ocudu_infra_srs.Requirement.add_pod_req ocudu_infra_srs.Prelude.Text.text_eq
    ocudu_infra_srs.Resources.Inventory.get_resource_from_config
    ocudu_infra_srs.Requests.Pool.binary_from_config
pool_config_ok = refl
