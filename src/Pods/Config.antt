-- ===== src/Pods/Config.antt =====
-- `PodConfig` of configs.py (retina/orchestrator/src/retina/orchestrator), and the manifest of a pod. A dictionary of
-- the manifest is a record; a key that is left out is `none`, or an empty list or dictionary, and the entries that
-- are the same for every pod (capabilities, priority class, pull secrets, the operator of a toleration) have
-- no field. The grace period is in whole seconds.
use ocudu_infra_srs.Prelude.{ℕ, Bool, Option, List}
use ocudu_infra_srs.Prelude.Text.{Text}
use ocudu_infra_srs.Prelude.Dict.{Dict}
use ocudu_infra_srs.Elements.{TaintDefinition, LabelDefinition}
use ocudu_infra_srs.Requirement.{Amount, RequirementDefinition}

pub record SidecarConfig : Type 0 where
  pub name : Text
  pub image : Text
  pub environment : List (Dict Text)
  pub request_list : List RequirementDefinition

pub record PodConfig : Type 0 where
  pub name : Text
  pub orch_id : Text
  pub user_name : Text
  pub timeout : Option ℕ
  pub dns_policy : Text
  pub image : Text
  pub resource_data_configmap_list : List Text
  pub retina_ports : List ℕ
  pub extra_ports : List ℕ
  pub privileged : Bool
  pub taint_list : List TaintDefinition
  pub label_list : List LabelDefinition
  pub request_list : List RequirementDefinition
  pub node_name : Option Text
  pub enable_usb_connection : Bool
  pub enable_pci_connection : Bool
  pub enable_network_connection : Bool
  pub environment : List (Dict Text)
  pub command : Option (List Text)
  pub not_finite_execution : Option Bool
  pub grace_period : ℕ
  pub sidecars : List SidecarConfig

pub data Source : Type 0 where
  host_path config_map empty_dir : Text → Source

pub record Volume : Type 0 where
  pub name : Text
  pub source : Source

pub record VolumeMount : Type 0 where
  pub name : Text
  pub mount_path : Text
  pub read_only : Option Bool
  pub sub_path : Option Text

pub data EnvValue : Type 0 where
  literal field_ref : Text → EnvValue

pub record Container : Type 0 where
  pub name : Text
  pub image : Text
  pub privileged : Option Bool
  pub ports : List (ℕ × Text)
  pub volume_mounts : List VolumeMount
  pub env : List (Text × EnvValue)
  pub requests : Dict Amount
  pub limits : Dict Amount
  pub command : Option (List Text)
  pub args : Option (List Text)

pub record Toleration : Type 0 where
  pub key : Text
  pub value : Option Text
  pub effect : Text

-- An item of `matchExpressions`.
pub data Expression : Type 0 where
  is_in : Text → List Text → Expression
  does_not_exist : Text → Expression

pub record PodSpec : Type 0 where
  pub grace_period : ℕ
  pub host_network : Bool
  pub dns_policy : Text
  pub containers : List Container
  pub volumes : List Volume
  pub tolerations : List Toleration
  pub match_expressions : List Expression
  pub node_name : Option Text
