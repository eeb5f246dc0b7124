-- ===== src/Pods/Spec.antt =====
-- `_create_pod_spec` of retina_kubernetes.py (retina/orchestrator/src/retina/orchestrator).
use ocudu_infra_srs.Prelude.{
  ℕ, zero, Bool, true, false, not, Option, none, some, List, [], ◌∷◌, ◌++◌, map, if◌then◌else◌,
  flat_map,
}
use ocudu_infra_srs.Prelude.Text.{Text, text, decimal}
use ocudu_infra_srs.Prelude.Dict.{Dict, insert}
use ocudu_infra_srs.Elements.{TaintDefinition, LabelDefinition}
use ocudu_infra_srs.Requirement.{Amount, str, int, RequirementDefinition}
use ocudu_infra_srs.Pods.Config.{
  SidecarConfig, PodConfig, EnvValue, Container, Toleration, Expression, PodSpec, literal,
  field_ref, is_in, does_not_exist,
}
use ocudu_infra_srs.Pods.Mounts.{mounts_of}

literals : List (Dict Text) → List (Text × EnvValue)
literals = flat_map (map (λ e. (e.0, literal e.1)))

joined : List ℕ → Text
joined [] = []
joined (n ∷ []) = decimal n
joined (n ∷ m ∷ ns) = decimal n ++ (text " " ++ joined (m ∷ ns))

ports_env : List ℕ → List (Text × EnvValue)
unfolding joined
ports_env [] = []
ports_env (n ∷ ns) = (text "RETINA_PORTS", literal (joined (n ∷ ns))) ∷ []

unfoldable pub env_of : PodConfig → List (Text × EnvValue)
unfolding literals ports_env
env_of config =
    ((text "RETINA_IP", field_ref (text "status.podIP"))
      ∷ (text "RETINA_NODE_IP", field_ref (text "status.hostIP"))
      ∷ (text "UHD_IMAGES_DIR", literal (text "/usr/share/uhd/images"))
      ∷ [])
    ++ literals config.environment
    ++ ports_env config.retina_ports

-- `if amount:` and then `d.update({name: amount})`.
update_amount : Text → Option Amount → Dict Amount → Dict Amount
update_amount name none d = d
update_amount name (some (str [])) d = d
update_amount name (some (int zero)) d = d
update_amount name (some a) d = insert name a d

unfoldable pub amounts :
    (RequirementDefinition → Option Amount) → List RequirementDefinition → Dict Amount → Dict Amount
unfolding update_amount
amounts field [] d = d
amounts field (r ∷ rs) d = amounts field rs (update_amount r.name (field r) d)

-- `_build_sidecar_containers`
unfoldable pub build_sidecar : SidecarConfig → Container
unfolding literals
build_sidecar c = record {
  name = c.name;
  image = c.image;
  privileged = none;
  ports = [];
  volume_mounts = [];
  env = literals c.environment;
  requests = amounts (λ r. r.requests) c.request_list [];
  limits = amounts (λ r. r.limits) c.request_list [];
  command = none;
  args = none;
}

-- `None` counts as False.
is_set : Option Bool → Bool
is_set none = false
is_set (some b) = b

looped : Bool → Option (List Text)
looped false = none
looped true = some (text "/bin/bash" ∷ text "-c" ∷ text "--" ∷ [])

-- `_set_command`, on the command so far.
unfoldable pub set_command : Option (List Text) → Option (List Text) → Option (List Text)
set_command before none = before
set_command before (some []) = before
set_command before (some (c ∷ cs)) = some (c ∷ cs)

unfoldable pub main_container : PodConfig → Bool → Container
unfolding looped is_set
main_container config dev_mode = record {
  name = text "retina-app";
  image = config.image;
  privileged = some config.privileged;
  ports = map (λ p. (p, text "port-" ++ decimal p)) (config.retina_ports ++ config.extra_ports);
  volume_mounts = (mounts_of config dev_mode).1;
  env = env_of config;
  requests = amounts (λ r. r.requests) config.request_list [];
  limits = amounts (λ r. r.limits) config.request_list [];
  command = set_command (looped (is_set config.not_finite_execution)) config.command;
  args =
      if is_set config.not_finite_execution
      then some (text "while true; do sleep 30; done;" ∷ [])
      else none;
}

-- `_set_tolerations`
unfoldable pub toleration : TaintDefinition → Toleration
toleration t = record { key = t.key; value = t.value; effect = text "NoSchedule" }

-- `_set_node_affinity`
unfoldable pub expression : LabelDefinition → Expression
expression l = if not l.reverse then is_in l.name (l.value ∷ []) else does_not_exist l.name

-- `if config.node_name:`
named_node : Option Text → Option Text
named_node (some []) = none
named_node o = o

unfoldable pub create_pod_spec : PodConfig → Bool → PodSpec
unfolding named_node
create_pod_spec config dev_mode = record {
  grace_period = config.grace_period;
  host_network = config.enable_network_connection;
  dns_policy = config.dns_policy;
  containers = main_container config dev_mode ∷ map build_sidecar config.sidecars;
  volumes = (mounts_of config dev_mode).0;
  tolerations = map toleration config.taint_list;
  match_expressions = map expression config.label_list;
  node_name = named_node config.node_name;
}
