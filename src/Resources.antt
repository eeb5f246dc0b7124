-- ===== src/Resources.antt =====
-- retina/orchestrator/src/retina/orchestrator/reservation/resources.py: the resources that can be reserved.
-- A class is a constructor of `Kind` with the fields that the class adds.
pub mod Hash
pub mod Data
pub mod Booking
pub mod Inventory
use ocudu_infra_srs.Prelude.{
  ℕ, Bool, true, false, not, ◌&&◌, Option, none, some, List, [], ◌∷◌, ◌++◌, if◌then◌else◌, any,
}
use ocudu_infra_srs.Prelude.Text.{Text, text, text_eq, decimal, lower}
use ocudu_infra_srs.Prelude.Dict.{lookup}
use ocudu_infra_srs.Prelude.Int.{ℤ, pos, negsuc}
use ocudu_infra_srs.Elements.{TaintDefinition, Node}
use ocudu_infra_srs.Protocol.{Value}
use ocudu_infra_srs.Cluster.{
  Platform, kubernetes_skip_taint_array, config_map_exists, get_retina_node_dict,
}
use ocudu_infra_srs.Locks.{get_cluster_resource_name, get_space_name}

pub data ConnectionType : Type 0 where
  usb network pci : ConnectionType

pub record ResourceLicense : Type 0 where
  pub ip_address : Value
  pub args : Value

pub record ResourceRemote : Type 0 where
  pub address : Value
  pub user : Value
  pub password : Value
  pub path : Value
  pub network_interface : Value
  pub ru_mac_addr : Value
  pub du_mac_addr : Value
  pub vlan_tag_up : Value
  pub vlan_tag_cp : Value
  pub prach_port_id : Value
  pub dl_port_id : Value
  pub ul_port_id : Value

pub record ResourceApi : Type 0 where
  pub address : Value
  pub port : Value

pub record ResourceCore : Type 0 where
  pub address : Value
  pub port : Value
  pub mask : Value

pub record ResourceSdr : Type 0 where
  pub args : Value
  pub sample_rate : Value
  pub tx_gain : Value
  pub rx_gain : Value
  pub sync : Value

pub record ResourceRu : Type 0 where
  pub network_interface : Value
  pub du_mac_addr : Value
  pub ru_mac_addr : Value
  pub vlan_tag_up : Value
  pub vlan_tag_cp : Value
  pub prach_port_id : Value
  pub dl_port_id : Value
  pub ul_port_id : Value

pub record ResourceAccelerator : Type 0 where
  pub hwacc_type : Value
  pub accelerator_id : Value
  pub pdsch_enc_nof_hwacc : Value
  pub cb_mode : Value
  pub pusch_dec_nof_hwacc : Value
  pub harq_context_size : Value
  pub extra_eal_args : Value

pub record ResourceAndroid : Type 0 where
  pub serial_id : Value
  pub imsi : Value
  pub k : Value
  pub amf : Value
  pub opc : Value
  pub adb_key : Value

-- Cluster resources: license, remote, api, core. Node resources: the others.
pub data Kind : Type 0 where
  license : ResourceLicense → Kind
  remote : ResourceRemote → Kind
  api : ResourceApi → Kind
  core : ResourceCore → Kind
  sdr : ResourceSdr → Kind
  ru : ResourceRu → Kind
  accelerator : ResourceAccelerator → Kind
  android : ResourceAndroid → Kind
  zmq : Kind

-- `ResourceType`: the fields that all classes share.
pub record Resource : Type 0 where
  pub model : Text
  pub capacity : ℤ
  pub connection : Option ConnectionType
  pub id_name : Option Text
  pub node : Option Node
  pub space : Option ℕ
  pub kind : Kind

unfoldable pub type_r : Kind → Text
type_r (license _) = text "License"
type_r (remote _) = text "Remote"
type_r (api _) = text "API"
type_r (core _) = text "Core"
type_r (sdr _) = text "Sdr"
type_r (ru _) = text "Ru"
type_r (accelerator _) = text "Accelerator"
type_r (android _) = text "android"
type_r zmq = text "zmq"

-- `isinstance(r, ClusterResource)`
abbrev pub is_cluster_kind : Kind → Bool
is_cluster_kind (license _) = true
is_cluster_kind (remote _) = true
is_cluster_kind (api _) = true
is_cluster_kind (core _) = true
is_cluster_kind _ = false

abbrev pub is_cluster : Resource → Bool
is_cluster r = is_cluster_kind r.kind

-- `isinstance(r, NodeResource)`
abbrev pub is_node : Resource → Bool
is_node r = not (is_cluster r)

abbrev space_text : Option ℕ → Text
space_text none = text "None"
space_text (some n) = decimal n

unfoldable pub get_full_name : Resource → Text
get_full_name r =
    if is_cluster r
    then lower (type_r r.kind ++ (text "-" ++ r.model))
    else lower (type_r r.kind ++ (text "-" ++ (r.model ++ (text ":" ++ space_text r.space))))

abbrev pub set_id : Option Text → Resource → Resource
set_id id r = record r { id_name = id }

-- `a == b` of a list and a str is False.
list_eq_str : List TaintDefinition → Text → Bool
list_eq_str taints s = false

unfoldable pub on_skipped_taint : Option Node → Bool
unfolding list_eq_str
on_skipped_taint none = false
on_skipped_taint (some node) = any (list_eq_str node.taint_list) kubernetes_skip_taint_array

module _ (p : Platform) where
  open p use {World, re_match, re_compiles}

  -- Whether `__eq__` of both base classes raises re.error: the pattern is compiled when the types are the same.
  unfoldable pub eq_raises : Resource → Resource → Bool
  eq_raises a b =
      text_eq (type_r a.kind) (type_r b.kind)
      && not (re_compiles (text "^" ++ (a.model ++ text "$")))

  -- The answer of `__eq__` of both base classes where it does not raise.
  unfoldable pub resource_eq : Resource → Resource → Bool
  resource_eq a b =
      text_eq (type_r a.kind) (type_r b.kind)
      && re_match (text "^" ++ (a.model ++ text "$")) b.model

  -- The node is looked up again, in case that it has changed.
  node_skipped : Option Node → World → Bool
  node_skipped none w = false
  node_skipped (some node) w =
      on_skipped_taint (lookup node.name (get_retina_node_dict p false false w))

  node_is_available : Option ℕ → Option Node → World → Bool
  node_is_available none n w = false
  node_is_available (some space) n w =
      if node_skipped n w then false else not (config_map_exists p (get_space_name space) w)

  -- `is_available` of both base classes.
  unfoldable pub is_available : Resource → World → Bool
  unfolding node_is_available node_skipped
  is_available r w =
      if is_cluster r
      then not (config_map_exists p (get_cluster_resource_name (get_full_name r)) w)
      else node_is_available r.space r.node w
