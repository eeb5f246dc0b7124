-- ===== src/Resources/Data.antt =====
-- The `get_resource_data` methods of resources.py.
use ocudu_infra_srs.Prelude.{false, List, [], ◌∷◌, flat_map}
use ocudu_infra_srs.Prelude.Text.{Text, decimal}
use ocudu_infra_srs.Protocol.{Value, null, ResourceData, or_else}
use ocudu_infra_srs.Resources.{
  ResourceLicense, ResourceRemote, ResourceApi, ResourceCore, ResourceSdr, ResourceRu,
  ResourceAccelerator, ResourceAndroid, Kind, license, remote, api, core, sdr, ru, accelerator,
  android, zmq, Resource,
}

or_empty : Value → Value
or_empty v = or_else v (Value.str [])

or_zero : Value → Value
or_zero v = or_else v (Value.int 0)

or_none : Value → Value
or_none v = or_else v (Value.strs [])

-- `str(self.imsi) if self.imsi is not None else ""`, for an imsi that is a text or a number.
imsi_text : Value → Value
imsi_text null = Value.str []
imsi_text (Value.int n) = Value.str (decimal n)
imsi_text v = v

license_data : ResourceLicense → List ResourceData
license_data l =
    ResourceData.license (record { address = or_empty l.ip_address; args = or_empty l.args }) ∷ []

remote_data : ResourceRemote → List ResourceData
remote_data r =
    ResourceData.remote (record {
      address = or_empty r.address;
      user = or_empty r.user;
      password = or_empty r.password;
      path = or_empty r.path;
      network_interface = or_none r.network_interface;
      ru_mac_address = or_none r.ru_mac_addr;
      du_mac_address = or_none r.du_mac_addr;
      vlan_tag_up = or_none r.vlan_tag_up;
      vlan_tag_cp = or_none r.vlan_tag_cp;
      prach_port_id = or_empty r.prach_port_id;
      dl_port_id = or_empty r.dl_port_id;
      ul_port_id = or_empty r.ul_port_id;
    })
    ∷ []

api_data : ResourceApi → List ResourceData
api_data a = ResourceData.api (record { address = or_empty a.address; port = or_zero a.port }) ∷ []

core_data : ResourceCore → List ResourceData
core_data c =
    ResourceData.core
      (record { address = or_empty c.address; port = or_zero c.port; mask = or_zero c.mask })
    ∷ []

sdr_data : Text → ResourceSdr → List ResourceData
sdr_data model s =
    ResourceData.sdr (record {
      model = model;
      args = or_empty s.args;
      sample_rate = or_zero s.sample_rate;
      tx_gain = or_zero s.tx_gain;
      rx_gain = or_zero s.rx_gain;
      sync = or_empty s.sync;
    })
    ∷ []

ru_data : Text → ResourceRu → List ResourceData
ru_data model r =
    ResourceData.ru (record {
      model = model;
      network_interface = or_none r.network_interface;
      ru_mac_address = or_none r.ru_mac_addr;
      du_mac_address = or_none r.du_mac_addr;
      vlan_tag_up = or_none r.vlan_tag_up;
      vlan_tag_cp = or_none r.vlan_tag_cp;
      prach_port_id = or_empty r.prach_port_id;
      dl_port_id = or_empty r.dl_port_id;
      ul_port_id = or_empty r.ul_port_id;
    })
    ∷ []

accelerator_data : Text → ResourceAccelerator → List ResourceData
accelerator_data model a =
    ResourceData.accelerator (record {
      model = model;
      id = or_zero a.accelerator_id;
      cb_mode = or_else a.cb_mode (Value.flag false);
      hwacc_type = or_empty a.hwacc_type;
      pdsch_enc_nof_hwacc = or_zero a.pdsch_enc_nof_hwacc;
      pusch_dec_nof_hwacc = or_zero a.pusch_dec_nof_hwacc;
      harq_context_size = or_zero a.harq_context_size;
      args = or_empty a.extra_eal_args;
    })
    ∷ []

android_data : Text → ResourceAndroid → List ResourceData
android_data model a =
    ResourceData.ue (record {
      model = model;
      serial_id = or_empty a.serial_id;
      imsi = imsi_text a.imsi;
      k = or_empty a.k;
      amf = or_empty a.amf;
      opc = or_empty a.opc;
      adb_key = or_empty a.adb_key;
    })
    ∷ []

kind_data : Text → Kind → List ResourceData
unfolding license_data remote_data api_data core_data sdr_data ru_data accelerator_data android_data
kind_data model (license l) = license_data l
kind_data model (remote r) = remote_data r
kind_data model (api a) = api_data a
kind_data model (core c) = core_data c
kind_data model (sdr s) = sdr_data model s
kind_data model (ru r) = ru_data model r
kind_data model (accelerator a) = accelerator_data model a
kind_data model (android a) = android_data model a
kind_data model zmq = []

unfoldable pub get_resource_data : Resource → List ResourceData
unfolding kind_data or_empty or_zero or_none imsi_text
get_resource_data r = kind_data r.model r.kind

-- `ResourceList.get_resource_data`
unfoldable pub get_resource_list_data : List Resource → List ResourceData
get_resource_list_data = flat_map get_resource_data
