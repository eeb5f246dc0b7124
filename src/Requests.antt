-- ===== src/Requests.antt =====
-- The request side of reservation/resources.py and reservation/managers.py (retina/orchestrator/src/retina/orchestrator):
-- `RequestReservation` with the fields that its modelled methods read, and `PoolRequestReservation`, a list of requests.
-- The methods that change a request give the new one.
pub mod Assignment
pub mod NodeChoice
pub mod Pool
pub mod NodeCache
pub mod Quantities
use ocudu_infra_srs.Prelude.{
  ℕ, Bool, true, false, not, ◌&&◌, ◌||◌, Option, none, some, List, [], ◌∷◌, ◌++◌, map,
  if◌then◌else◌, flat_map, any,
}
use ocudu_infra_srs.Prelude.Text.{Text, text}
use ocudu_infra_srs.Prelude.Int.{is_positive}
use ocudu_infra_srs.Prelude.Action.{Result, ok, raised}
use ocudu_infra_srs.Elements.{LabelDefinition, Node}
use ocudu_infra_srs.Requirement.{RequirementManager}
use ocudu_infra_srs.Timeout.{TimeoutHandler}
use ocudu_infra_srs.Cluster.{Platform}
use ocudu_infra_srs.Resources.{Resource, Kind, zmq, ConnectionType, usb, pci, is_node, set_id}
use ocudu_infra_srs.Resources.Inventory.{ClusterInfo}
use ocudu_infra_srs.Transformations.{get_resources_by_id}
use ocudu_infra_srs.Managers.{reserve_node_resources, reserve_cluster_resources}

pub record BinaryDefinition : Type 0 where
  pub local_path : Text
  pub remote_path : Text
  pub is_executable : Bool
  pub is_optional : Bool

pub record SidecarReservation : Type 0 where
  pub name : Text
  pub image : Text
  pub requirement_manager : RequirementManager

pub record RequestReservation : Type 0 where
  pub name : Text
  pub image : Text
  pub nof_ports : ℕ
  pub resources : List Resource
  pub requirement_manager : RequirementManager
  pub reserved_resources : List Resource
  pub binary_list : List BinaryDefinition
  pub enable_host_network_force : Text
  pub ip_uu_source : Text
  pub ip_back_source : Text
  pub sidecars : List SidecarReservation
  pub node : Option Node

is_zmq : Kind → Bool
is_zmq zmq = true
is_zmq _ = false

is_usb : Option ConnectionType → Bool
is_usb (some usb) = true
is_usb _ = false

is_pci : Option ConnectionType → Bool
is_pci (some pci) = true
is_pci _ = false

-- The first three tests of the loops over the reserved resources.
abbrev in_hardware : Resource → Bool
in_hardware r = is_node r && (not (is_zmq r.kind) && is_positive r.capacity)

unfoldable pub get_enable_usb_connection : RequestReservation → Bool
unfolding is_zmq is_usb
get_enable_usb_connection r = any (λ x. in_hardware x && is_usb x.connection) r.reserved_resources

unfoldable pub get_enable_pci_connection : RequestReservation → Bool
unfolding is_zmq is_pci
get_enable_pci_connection r = any (λ x. in_hardware x && is_pci x.connection) r.reserved_resources

-- `get_resources` sets the ids of the resources of the request.
unfoldable pub get_resources : RequestReservation → RequestReservation
get_resources r = record r { resources = map (set_id (some r.name)) r.resources }

unfoldable pub add_reserved_resource_list : List Resource → RequestReservation → RequestReservation
add_reserved_resource_list l r = record r { reserved_resources = r.reserved_resources ++ l }

-- The node that carries the labels of a request; its amounts are not read.
abbrev label_node : List LabelDefinition → Node
label_node labels = record {
  name = [];
  architecture = [];
  os_image = [];
  kernel_version = [];
  label_list = labels;
  taint_list = [];
  ip_address = [];
  allocatable_cpu = text "0";
  allocatable_memory = [];
  allocatable_storage = [];
}

with_labels : List LabelDefinition → List Resource → List Resource
with_labels [] resources = resources
with_labels (l ∷ labels) resources =
    map (λ (r : Resource). record r { node = some (label_node (l ∷ labels)) }) resources

-- The body of the loop of `get_all_resources`.
pub prepare : RequestReservation → RequestReservation
unfolding with_labels
prepare r =
    let r' = get_resources r in
    record r' { resources = with_labels r.requirement_manager.label_list r'.resources }

-- `get_all_resources`: the requests after it, and the resources.
unfoldable pub get_all_resources : List RequestReservation → List RequestReservation × List Resource
unfolding prepare
get_all_resources requests =
    let prepared = map prepare requests in (prepared, flat_map (λ r. r.resources) prepared)

pub assign : List Resource → RequestReservation → RequestReservation
assign result r = add_reserved_resource_list (get_resources_by_id result r.name) r

module _ (p : Platform) (configuration : p.World → Result ClusterInfo) (orch_id user_name : Text)
    (handler : TimeoutHandler) where
  assigned :
      List RequestReservation
      → Option (Result (List Resource) × p.World)
      → Option (Result (List RequestReservation) × p.World)
  assigned requests none = none
  assigned requests (some (raised e, w)) = some (raised e, w)
  assigned requests (some (ok result, w)) = some (ok (map (assign result) requests), w)

  -- `PoolRequestReservation.reserve_node_resources`
  unfoldable pub pool_reserve_node_resources :
      ℕ → List RequestReservation → p.World → Option (Result (List RequestReservation) × p.World)
  unfolding assigned assign
  pool_reserve_node_resources fuel requests w =
      let (prepared, everything) = get_all_resources requests in
      assigned prepared
        (reserve_node_resources p configuration orch_id user_name handler fuel everything w)

  after_one :
      RequestReservation
      → (p.World → Option (Result (List RequestReservation) × p.World))
      → Option (Result (List Resource) × p.World)
      → Option (Result (List RequestReservation) × p.World)
  after_one r go none = none
  after_one r go (some (raised e, w)) = some (raised e, w)
  after_one r go (some (ok result, w)) = elim (go w) [
    | none ↦ none
    | some (raised e, w') ↦ some (raised e, w')
    | some (ok rs, w') ↦ some (ok (add_reserved_resource_list result r ∷ rs), w')
  ]

  -- `PoolRequestReservation.reserve_cluster_resources`
  unfoldable pub pool_reserve_cluster_resources :
      ℕ → List RequestReservation → p.World → Option (Result (List RequestReservation) × p.World)
  unfolding after_one
  pool_reserve_cluster_resources fuel [] w = some (ok [], w)
  pool_reserve_cluster_resources fuel (r ∷ rs) w =
      let r' = get_resources r in
      after_one r' (pool_reserve_cluster_resources fuel rs)
        (reserve_cluster_resources p configuration orch_id user_name handler fuel r'.resources w)
