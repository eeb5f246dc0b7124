-- ===== src/Protocol.antt =====
-- retina/protocol/src/retina/protocol/resource.py: what an agent is told of the resources reserved for it.
use ocudu_infra_srs.Prelude.{ℕ, zero, suc, Bool, true, false, List, [], ◌∷◌, if◌then◌else◌}
use ocudu_infra_srs.Prelude.Text.{Text}

-- A value that the orchestrator passes on from the cluster definition without looking at it.
pub data Value : Type 0 where
  null : Value
  str : Text → Value
  int : ℕ → Value
  flag : Bool → Value
  strs : List Text → Value

-- `bool(v)`
abbrev truthy : Value → Bool
truthy null = false
truthy (str []) = false
truthy (str (c ∷ s)) = true
truthy (int zero) = false
truthy (int (suc n)) = true
truthy (flag b) = b
truthy (strs []) = false
truthy (strs (x ∷ xs)) = true

-- `v or default`
unfoldable pub or_else : Value → Value → Value
or_else v default = if truthy v then v else default

pub record Remote : Type 0 where
  pub address : Value
  pub user : Value
  pub password : Value
  pub path : Value
  pub network_interface : Value
  pub ru_mac_address : Value
  pub du_mac_address : Value
  pub vlan_tag_up : Value
  pub vlan_tag_cp : Value
  pub prach_port_id : Value
  pub dl_port_id : Value
  pub ul_port_id : Value

pub record License : Type 0 where
  pub address : Value
  pub args : Value

pub record Api : Type 0 where
  pub address : Value
  pub port : Value

pub record Core : Type 0 where
  pub address : Value
  pub port : Value
  pub mask : Value

pub record Ue : Type 0 where
  pub model : Text
  pub serial_id : Value
  pub imsi : Value
  pub k : Value
  pub amf : Value
  pub opc : Value
  pub adb_key : Value

pub record Sdr : Type 0 where
  pub model : Text
  pub args : Value
  pub sample_rate : Value
  pub tx_gain : Value
  pub rx_gain : Value
  pub sync : Value

pub record Ru : Type 0 where
  pub model : Text
  pub network_interface : Value
  pub ru_mac_address : Value
  pub du_mac_address : Value
  pub vlan_tag_up : Value
  pub vlan_tag_cp : Value
  pub prach_port_id : Value
  pub dl_port_id : Value
  pub ul_port_id : Value

pub record Accelerator : Type 0 where
  pub model : Text
  pub id : Value
  pub cb_mode : Value
  pub hwacc_type : Value
  pub pdsch_enc_nof_hwacc : Value
  pub pusch_dec_nof_hwacc : Value
  pub harq_context_size : Value
  pub args : Value

pub data ResourceData : Type 0 where
  remote : Remote → ResourceData
  license : License → ResourceData
  api : Api → ResourceData
  core : Core → ResourceData
  ue : Ue → ResourceData
  sdr : Sdr → ResourceData
  ru : Ru → ResourceData
  accelerator : Accelerator → ResourceData
