-- ===== src/Resources/Inventory.antt =====
-- `get_resource_from_config` and `get_resource_from_cluster_info` of resources.py: the resources of a request
-- and those that the cluster has.
pub mod Kinds
pub mod Fresh
pub mod Requested
use ocudu_infra_srs.Prelude.{
  ℕ, ◌-◌, Bool, true, false, ◌&&◌, Option, none, some, List, [], ◌∷◌, ◌++◌, map, if◌then◌else◌, leb,
}
use ocudu_infra_srs.Prelude.Text.{Text, text, text_eq}
use ocudu_infra_srs.Prelude.Dict.{Dict, lookup}
use ocudu_infra_srs.Prelude.Int.{ℤ, pos}
use ocudu_infra_srs.Prelude.Action.{Result, ok, raised, key_error}
use ocudu_infra_srs.Prelude.Outcome.{◌>>=◌}
use ocudu_infra_srs.Elements.{Node}
use ocudu_infra_srs.Protocol.{Value, null, str}
use ocudu_infra_srs.Resources.Inventory.Kinds.{Entry, space_item, cluster_kind, node_kind}
use ocudu_infra_srs.Resources.{
  ConnectionType, usb, network, pci, Kind, license, remote, api, core, sdr, ru, accelerator,
  android, zmq, Resource,
}

-- An entry of `resources` in a request.
pub record RequestEntry : Type 0 where
  pub type : Option Text
  pub model : Option Text
  pub dummy : Bool

-- A class with none of its own fields given.
resource_classes : Text → Option (Kind × Option ConnectionType)
resource_classes t =
    if text_eq t (text "license")
    then some (license (record { ip_address = null; args = null }), some network)
    else if text_eq t (text "remote")
    then some (
      remote (record {
        address = null;
        user = null;
        password = null;
        path = null;
        network_interface = null;
        ru_mac_addr = null;
        du_mac_addr = null;
        vlan_tag_up = null;
        vlan_tag_cp = null;
        prach_port_id = null;
        dl_port_id = null;
        ul_port_id = null;
      }),
      some network,
    )
    else if text_eq t (text "api")
    then some (api (record { address = null; port = null }), some network)
    else if text_eq t (text "core")
    then some (core (record { address = null; port = null; mask = null }), some network)
    else if text_eq t (text "sdr")
    then some (
      sdr (record { args = null; sample_rate = null; tx_gain = null; rx_gain = null; sync = null }),
      none,
    )
    else if text_eq t (text "ru")
    then some (
      ru (record {
        network_interface = null;
        du_mac_addr = null;
        ru_mac_addr = null;
        vlan_tag_up = null;
        vlan_tag_cp = null;
        prach_port_id = null;
        dl_port_id = null;
        ul_port_id = null;
      }),
      some network,
    )
    else if text_eq t (text "accelerator")
    then some (
      accelerator (record {
        hwacc_type = null;
        accelerator_id = null;
        pdsch_enc_nof_hwacc = null;
        cb_mode = null;
        pusch_dec_nof_hwacc = null;
        harq_context_size = null;
        extra_eal_args = null;
      }),
      some pci,
    )
    else if text_eq t (text "android")
    then some (
      android (record {
        serial_id = null;
        imsi = null;
        k = null;
        amf = null;
        opc = null;
        adb_key = null;
      }),
      none,
    )
    else if text_eq t (text "zmq")
    then some (zmq, some network)
    else none

model_or_any : Option Text → Text
model_or_any none = text ".*"
model_or_any (some m) = m

requested : RequestEntry → Option (Kind × Option ConnectionType) → Result Resource
requested e none = raised key_error
requested e (some (kind, connection)) = ok (record {
  model = model_or_any e.model;
  capacity = if e.dummy then pos 0 else pos 1;
  connection = connection;
  id_name = none;
  node = none;
  space = none;
  kind = kind;
})

-- A missing type is a KeyError, as an unknown one is.
class_of : Option Text → Option (Kind × Option ConnectionType)
unfolding resource_classes
class_of none = none
class_of (some t) = resource_classes t

unfoldable pub get_resource_from_config : RequestEntry → Result Resource
unfolding class_of requested model_or_any
get_resource_from_config e = requested e (class_of e.type)

-- A node of the cluster definition.
pub record NodeEntry : Type 0 where
  pub name : Text
  pub resources : List Entry

pub record ClusterInfo : Type 0 where
  pub cluster_resource_list : List Entry
  pub nodes : List NodeEntry

abbrev pub cluster_resource : Entry → Kind → Resource
cluster_resource e kind = record {
  model = e.model;
  capacity = pos 1;
  connection = some network;
  id_name = none;
  node = none;
  space = none;
  kind = kind;
}

abbrev pub node_resource : Entry → Node → Option ℕ → Kind → Option ConnectionType → Resource
node_resource e node space kind connection = record {
  model = e.model;
  capacity = pos 1;
  connection = connection;
  id_name = none;
  node = some node;
  space = space;
  kind = kind;
}

cluster_entries : List Entry → List Resource → Result (List Resource)
cluster_entries [] acc = ok acc
cluster_entries (e ∷ es) acc = do
  kind ← cluster_kind e
  cluster_entries es (acc ++ elim kind [ none ↦ [] | some k ↦ cluster_resource e k ∷ [] ])

-- The resource that an entry of a node becomes; `space` is read only for a known type.
entry_resource : Node → Entry → Option (Kind × Option ConnectionType) → Result (List Resource)
entry_resource node e none = ok []
entry_resource node e (some (kind, connection)) = do
  space ← space_item e
  ok (node_resource e node space kind connection ∷ [])

node_entries : Node → List Entry → List Resource → Result (List Resource)
node_entries node [] acc = ok acc
node_entries node (e ∷ es) acc = do
  kind ← node_kind e
  made ← entry_resource node e kind
  node_entries node es (acc ++ made)

-- A node that the cluster does not have is passed over.
one_node : Option Node → List Entry → List Resource → Result (List Resource)
one_node none es acc = ok acc
one_node (some node) es acc = node_entries node es acc

all_nodes : Dict Node → List NodeEntry → List Resource → Result (List Resource)
all_nodes node_dict [] acc = ok acc
all_nodes node_dict (n ∷ ns) acc = do
  acc' ← one_node (lookup n.name node_dict) n.resources acc
  all_nodes node_dict ns acc'

unfoldable pub get_resource_from_cluster_info : ClusterInfo → Dict Node → Result (List Resource)
unfolding cluster_entries all_nodes one_node node_entries entry_resource cluster_kind node_kind
    space_item
get_resource_from_cluster_info info node_dict = do
  made ← cluster_entries info.cluster_resource_list []
  all_nodes node_dict info.nodes made
