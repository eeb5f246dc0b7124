-- ===== src/Sample/Pods.antt =====
-- The theorems about the specification of a pod, and about its amounts, at a concrete config.
use ocudu_infra_srs.Prelude.{
  ℕ, ◌+◌, ◌-◌, ◌*◌, ◌/◌, ◌≡◌, ◌↔◌, refl, true, false, none, some, List, [], ◌∷◌, ◌++◌, map, In, All,
}
use ocudu_infra_srs.Prelude.Text.{Text, text, decimal}
use ocudu_infra_srs.Prelude.Action.{ok}
use ocudu_infra_srs.Elements.{LabelDefinition, check_label_list}
use ocudu_infra_srs.Requirement.{RequirementDefinition, str, int}
use ocudu_infra_srs.Requests.Quantities.{
  Floats, NodeConfiguration, resolve_node_requirements_in_place,
}
use ocudu_infra_srs.Requests.Quantities.Free.{WritesNumbers, IsFree-append, decimal-IsFree}
use ocudu_infra_srs.Requests.Quantities.Resolved.{
  Resolves, resolve_node_requirements_in_place-Resolves,
}
use ocudu_infra_srs.Pods.Config.{PodConfig, Container, config_map}
use ocudu_infra_srs.Pods.Spec.{create_pod_spec}
use ocudu_infra_srs.Pods.Mounts.Volumes.{create_pod_spec-volumes}
use ocudu_infra_srs.Pods.Scheduling.{Matches, Tolerates, affinity-check_label_list, tolerations_iff}

-- A 5G core with one reserved resource, on a node with huge pages.
abbrev core : PodConfig
core = record {
  name = text "core";
  orch_id = text "abc";
  user_name = text "ana";
  timeout = some 600;
  dns_policy = text "ClusterFirst";
  image = text "open5gs:2.7";
  resource_data_configmap_list = text "retina-abc-core" ∷ text "retina-abc-core-sdr" ∷ [];
  retina_ports = 32000 ∷ 32001 ∷ [];
  extra_ports = 9000 ∷ [];
  privileged = true;
  taint_list =
      record { key = text "purpose"; value = some (text "retina"); effect = text "NoSchedule" }
      ∷ record { key = text "busy"; value = some (text "yes"); effect = text "NoExecute" }
      ∷ [];
  label_list = record { name = text "arch"; value = text "amd64"; reverse = false } ∷ [];
  request_list =
      record {
        name = text "cpu";
        requests = some (int 2);
        limits = none;
        rounding = text "truncate";
      }
      ∷ record {
        name = text "hugepages-1Gi";
        requests = some (str (text "1Gi"));
        limits = none;
        rounding = text "truncate";
      }
      ∷ [];
  node_name = some (text "pc1");
  enable_usb_connection = true;
  enable_pci_connection = false;
  enable_network_connection = false;
  environment = ((text "LOG", text "debug") ∷ []) ∷ [];
  command = none;
  not_finite_execution = some true;
  grace_period = 30;
  sidecars =
      record { name = text "probe"; image = text "probe:1"; environment = []; request_list = [] }
      ∷ [];
}

abbrev own_labels : List LabelDefinition
own_labels =
    record { name = text "zone"; value = text "lab"; reverse = false }
    ∷ record { name = text "arch"; value = text "amd64"; reverse = false }
    ∷ []

create_pod_spec-volumes_example :
    let spec = create_pod_spec core false in
    (main : Container) × (sidecars : List Container) × (spec.containers ≡ main ∷ sidecars)
    × (map (λ v. v.name) spec.volumes ≡ map (λ m. m.name) main.volume_mounts)
    × All (λ c. c.volume_mounts ≡ []) sidecars
    × ((cm : Text)
        → In cm core.resource_data_configmap_list
        → In (record { name = cm; source = config_map cm }) spec.volumes)
    × (map (λ (x : ℕ × Text). x.0) main.ports ≡ core.retina_ports ++ core.extra_ports)
create_pod_spec-volumes_example = create_pod_spec-volumes core false

affinity_example :
    All (Matches own_labels) (create_pod_spec core false).match_expressions
    ↔ (check_label_list own_labels core.label_list ≡ true)
affinity_example = affinity-check_label_list core false own_labels (refl, (refl, tt)) (refl, tt)

tolerations_example :
    All (Tolerates (create_pod_spec core false).tolerations) core.taint_list
    ↔ All (λ t. t.effect ≡ text "NoSchedule") core.taint_list
tolerations_example = tolerations_iff core false

read_number : ℕ → Text → ℕ
read_number n [] = n
read_number n (c ∷ s) = read_number (n * 10 + (c - b'0')) s

-- Floats that are whole numbers.
abbrev whole_floats : Floats
whole_floats = record {
  Float = ℕ;
  float = λ s. ok (read_number 0 s);
  percent_of = λ v percentage. v * percentage / 100;
  fixed = λ n. decimal n ++ text ".000000";
  thousandth = λ n. n / 1000;
  plus_half = λ n. n;
  floor = ok;
}

whole_floats-WritesNumbers : WritesNumbers whole_floats
whole_floats-WritesNumbers n =
    IsFree-append (decimal n) (text ".000000") (decimal-IsFree n)
      (refl, (refl, (refl, (refl, (refl, (refl, (refl, tt)))))))

abbrev node_configurations : List NodeConfiguration
node_configurations =
    record { name = text "pc1"; compute_resources = some ((text "cpu", int 17) ∷ []) } ∷ []

abbrev percentages : List RequirementDefinition
percentages =
    record {
      name = text "cpu";
      requests = some (str (text "90%"));
      limits = some (int 16);
      rounding = text "truncate";
    }
    ∷ []

resolved_example : Resolves whole_floats percentages (
    resolve_node_requirements_in_place whole_floats
      (ok node_configurations)
      (text "pc1")
      percentages
      [])
resolved_example =
    resolve_node_requirements_in_place-Resolves whole_floats whole_floats-WritesNumbers
      (ok node_configurations) (text "pc1") percentages []
