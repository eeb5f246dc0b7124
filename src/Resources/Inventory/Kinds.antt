-- ===== src/Resources/Inventory/Kinds.antt =====
-- What an entry of the cluster definition becomes: the branches of `get_resource_from_cluster_info` in
-- retina/orchestrator/src/retina/orchestrator/reservation/resources.py.
pub mod Classes
use ocudu_infra_srs.Prelude.{ℕ, ◌-◌, ◌&&◌, Option, none, some, [], map, if◌then◌else◌, leb}
use ocudu_infra_srs.Prelude.Text.{Text, text, text_eq}
use ocudu_infra_srs.Prelude.Dict.{Dict, lookup}
use ocudu_infra_srs.Prelude.Action.{Result, ok, raised, key_error}
use ocudu_infra_srs.Prelude.Outcome.{◌>>=◌}
use ocudu_infra_srs.Protocol.{Value, null, str}
use ocudu_infra_srs.Resources.{
  ConnectionType, usb, network, pci, Kind, license, remote, api, core, sdr, ru, accelerator,
  android, zmq,
}

-- An entry of the cluster definition. The fields that every entry needs have their own places, and the rest
-- is a dict.
pub record Entry : Type 0 where
  pub type : Text
  pub model : Text
  pub space : Option ℕ
  pub connection : Option Text
  pub fields : Dict Value

-- `resource[key]`
required : Option Value → Result Value
required none = raised key_error
required (some v) = ok v

-- `resource.get(key, default)`
optional : Value → Option Value → Value
optional default none = default
optional default (some v) = v

abbrev item : Entry → Text → Result Value
item e key = required (lookup key e.fields)

abbrev get : Entry → Text → Value
get e key = optional null (lookup key e.fields)

-- The four independent `if`s of the first loop: the kind that an entry becomes, if any.
unfoldable pub cluster_kind : Entry → Result (Option Kind)
unfolding required optional
cluster_kind e =
    if text_eq e.type (text "license")
    then (do
      address ← item e (text "address")
      args ← item e (text "args")
      ok (some (license (record { ip_address = address; args = args }))))
    else if text_eq e.type (text "remote")
    then (do
      user ← item e (text "user")
      password ← item e (text "password")
      address ← item e (text "address")
      path ← item e (text "path")
      ok (
          some (
            remote (record {
              address = address;
              user = user;
              password = password;
              path = path;
              network_interface = get e (text "network_interface");
              ru_mac_addr = get e (text "ru_mac_addr");
              du_mac_addr = get e (text "du_mac_addr");
              vlan_tag_up = get e (text "vlan_tag_up");
              vlan_tag_cp = get e (text "vlan_tag_cp");
              prach_port_id = get e (text "prach_port_id");
              dl_port_id = get e (text "dl_port_id");
              ul_port_id = get e (text "ul_port_id");
            }))))
    else if text_eq e.type (text "api")
    then (do
      address ← item e (text "address")
      port ← item e (text "port")
      ok (some (api (record { address = address; port = port }))))
    else if text_eq e.type (text "core")
    then (do
      address ← item e (text "address")
      port ← item e (text "port")
      mask ← item e (text "mask")
      ok (some (core (record { address = address; port = port; mask = mask }))))
    else ok none

upper_char : ℕ → ℕ
upper_char c = if leb b'a' c && leb c b'z' then c - 32 else c

-- `ConnectionType[name.upper()]`
connection_of : Text → Result (Option ConnectionType)
unfolding upper_char
connection_of name =
    let upper = map upper_char name in
    if text_eq upper (text "USB")
    then ok (some usb)
    else if text_eq upper (text "NETWORK")
    then ok (some network)
    else if text_eq upper (text "PCI")
    then ok (some pci)
    else raised key_error

connection_item : Entry → Result (Option ConnectionType)
unfolding connection_of
connection_item e = elim (e.connection) [ none ↦ raised key_error | some name ↦ connection_of name ]

unfoldable pub space_item : Entry → Result (Option ℕ)
space_item e = elim (e.space) [ none ↦ raised key_error | some n ↦ ok (some n) ]

-- The `if … elif` of the second loop.
unfoldable pub node_kind : Entry → Result (Option (Kind × Option ConnectionType))
unfolding required optional connection_item
node_kind e =
    if text_eq e.type (text "sdr")
    then (do
      connection ← connection_item e
      args ← item e (text "args")
      sample_rate ← item e (text "sample_rate")
      tx_gain ← item e (text "tx_gain")
      rx_gain ← item e (text "rx_gain")
      sync ← item e (text "sync")
      ok (
          some (
            sdr (record {
              args = args;
              sample_rate = sample_rate;
              tx_gain = tx_gain;
              rx_gain = rx_gain;
              sync = sync;
            }),
            connection,
          )))
    else if text_eq e.type (text "android")
    then (do
      connection ← connection_item e
      serial_id ← item e (text "serial_id")
      imsi ← item e (text "imsi")
      k ← item e (text "k")
      amf ← item e (text "amf")
      opc ← item e (text "opc")
      adb_key ← item e (text "adb_key")
      ok (
          some (
            android (record {
              serial_id = serial_id;
              imsi = imsi;
              k = k;
              amf = amf;
              opc = opc;
              adb_key = adb_key;
            }),
            connection,
          )))
    else if text_eq e.type (text "ru")
    then (do
      network_interface ← item e (text "network_interface")
      du_mac_addr ← item e (text "du_mac_addr")
      ru_mac_addr ← item e (text "ru_mac_addr")
      vlan_tag_up ← item e (text "vlan_tag_up")
      vlan_tag_cp ← item e (text "vlan_tag_cp")
      prach_port_id ← item e (text "prach_port_id")
      dl_port_id ← item e (text "dl_port_id")
      ul_port_id ← item e (text "ul_port_id")
      ok (
          some (
            ru (record {
              network_interface = network_interface;
              du_mac_addr = du_mac_addr;
              ru_mac_addr = ru_mac_addr;
              vlan_tag_up = vlan_tag_up;
              vlan_tag_cp = vlan_tag_cp;
              prach_port_id = prach_port_id;
              dl_port_id = dl_port_id;
              ul_port_id = ul_port_id;
            }),
            some network,
          )))
    else if text_eq e.type (text "accelerator")
    then (do
      hwacc_type ← item e (text "hwacc_type")
      accelerator_id ← item e (text "accelerator_id")
      pdsch_enc_nof_hwacc ← item e (text "pdsch_enc_nof_hwacc")
      cb_mode ← item e (text "cb_mode")
      pusch_dec_nof_hwacc ← item e (text "pusch_dec_nof_hwacc")
      harq_context_size ← item e (text "harq_context_size")
      ok (
          some (
            accelerator (record {
              hwacc_type = hwacc_type;
              accelerator_id = accelerator_id;
              pdsch_enc_nof_hwacc = pdsch_enc_nof_hwacc;
              cb_mode = cb_mode;
              pusch_dec_nof_hwacc = pusch_dec_nof_hwacc;
              harq_context_size = harq_context_size;
              extra_eal_args = optional (str []) (lookup (text "extra_eal_args") e.fields);
            }),
            some pci,
          )))
    else if text_eq e.type (text "zmq")
    then ok (some (zmq, some network))
    else ok none
