-- ===== src/Cluster.antt =====
-- What the orchestrator asks of code that is not in the repository, the `Platform`, and what
-- kubernetes.py and retina_kubernetes.py (retina/orchestrator/src/retina/orchestrator) build on it.
pub mod Laws
pub mod Growth
pub mod Nodes
pub mod Plain
use ocudu_infra_srs.Prelude.{
  ℕ, zero, suc, ◌+◌, ◌≤◌, Bool, true, false, not, ◌&&◌, ◌||◌, Option, none, some, List, [], ◌∷◌,
  ◌++◌, map, ◌==◌, if◌then◌else◌, any, select,
}
use ocudu_infra_srs.Prelude.Text.{Text, text, text_eq, decimal}
use ocudu_infra_srs.Prelude.Dict.{Dict, lookup, insert}
use ocudu_infra_srs.Prelude.Int.{ℤ, pos, negsuc}
use ocudu_infra_srs.Prelude.Action.{Action, pure}
use ocudu_infra_srs.Protocol.{Value, ResourceData}
use ocudu_infra_srs.Elements.{TaintDefinition, taint_definition, LabelDefinition, Node}

-- `V1ConfigMap`: the fields that the code reads.
pub record ConfigMap : Type 0 where
  pub annotations : Option (Dict Text)
  pub data_map : Option (Dict Text)

pub record Taint : Type 0 where
  pub key : Text
  pub value : Option Text
  pub effect : Option Text

-- `V1Node`: the fields that the code reads, with the first of its addresses.
pub record ClusterNode : Type 0 where
  pub name : Text
  pub labels : Dict Text
  pub taints : Option (List Taint)
  pub architecture : Text
  pub os_image : Text
  pub kernel_version : Text
  pub first_address : Text
  pub allocatable_cpu : Text
  pub allocatable_memory : Text
  pub allocatable_storage : Text

-- A call of the Kubernetes API returns, or raises an ApiException, whose status may be None.
pub data Response : Type 0 where
  accepted : Response
  api_exception : Option ℕ → Response

-- A value in a tuple that is hashed.
pub data HashValue : Type 0 where
  nothing : HashValue
  str : Text → HashValue
  int : ℕ → HashValue
  strs : List Text → HashValue
  enum : Text → HashValue
  field : Value → HashValue

-- The Kubernetes API of the namespace, the clock, `sleep`, `random.shuffle`, `hash`, `re.match` (on a pattern that
-- compiles) and the YAML of
-- protocol/resource.py.
pub record Platform : Type 1 where
  pub World : Type 0
  pub list_namespaced_config_map : World → List (Text × ConfigMap)
  pub create_namespaced_config_map : Text → ConfigMap → World → Response × World
  pub delete_namespaced_config_map : Text → World → Response × World
  pub list_node : World → List ClusterNode
  pub now : World → ℕ
  pub sleep : ℕ → World → World
  pub shuffle : {A : Type 0} → List A → World → List A × World
  pub hash : List HashValue → ℤ
  pub re_compiles : Text → Bool
  pub re_match : Text → Text → Bool
  pub yaml_dump : List ResourceData → Text

pub data ErrorCode : Type 0 where
  other is_ok name_duplicated unprocessable_entity : ErrorCode

-- `response == ErrorCode.OK`
abbrev pub equals_ok : ErrorCode → Bool
equals_ok is_ok = true
equals_ok _ = false

unfoldable pub get_error_code : ℕ → ErrorCode
get_error_code n = if n == 0 then is_ok else if n == 409 then name_duplicated else other

abbrev pub kubernetes_skip_taint_array : List Text
kubernetes_skip_taint_array =
    text "node.kubernetes.io/not-ready"
    ∷ text "node.kubernetes.io/unreachable"
    ∷ text "node.kubernetes.io/memory-pressure"
    ∷ text "node.kubernetes.io/disk-pressure"
    ∷ text "node.kubernetes.io/pid-pressure"
    ∷ text "node.kubernetes.io/network-unavailable"
    ∷ text "node.kubernetes.io/unschedulable"
    ∷ text "node.cilium.io/agent-not-ready"
    ∷ []

pub record ConfigmapConfig : Type 0 where
  pub name : Text
  pub orch_id : Text
  pub user_name : Text
  pub timeout : Option ℤ
  pub data_map : Dict Text

-- `str(n)`
abbrev int_text : ℤ → Text
int_text (pos n) = decimal n
int_text (negsuc n) = b'-' ∷ decimal (suc n)

timeout_annotation : Option ℤ → Dict Text → Dict Text
timeout_annotation none d = d
timeout_annotation (some t) d = insert (text "timeout") (int_text t) d

-- The manifest of `create_config_map`.
unfoldable pub manifest : ConfigmapConfig → ConfigMap
unfolding timeout_annotation
manifest c = record {
  annotations = some (
      timeout_annotation c.timeout
        ((text "orch_id", c.orch_id) ∷ (text "user_name", c.user_name) ∷ []));
  data_map = some c.data_map;
}

-- `_create`
unfoldable pub created_code : Response → ErrorCode
unfolding get_error_code
created_code accepted = get_error_code 0
created_code (api_exception none) = other
created_code (api_exception (some status)) = get_error_code status

-- `_delete`
unfoldable pub deleted_code : Response → ErrorCode
unfolding get_error_code
deleted_code (api_exception none) = other
deleted_code _ = get_error_code 0

unfoldable pub dict_of : Dict ConfigMap → List (Text × ConfigMap) → Dict ConfigMap
dict_of d [] = d
dict_of d ((name, m) ∷ items) = dict_of (insert name m d) items

has_skip_taint : List Taint → Bool
has_skip_taint = any (λ t. any (text_eq t.key) kubernetes_skip_taint_array)

taints_of : Option (List Taint) → List Taint
taints_of none = []
taints_of (some l) = l

-- The loop over the taints of a node: its `continue` goes on with the next taint, and then the node is entered.
skim_taints : List Taint → Dict ClusterNode → Dict ClusterNode
skim_taints [] d = d
skim_taints (t ∷ ts) d =
    if any (text_eq t.key) kubernetes_skip_taint_array then skim_taints ts d else skim_taints ts d

-- `_get_node_dict`
unfoldable pub get_node_dict : Bool → List ClusterNode → Dict ClusterNode → Dict ClusterNode
unfolding skim_taints taints_of
get_node_dict skip [] d = d
get_node_dict skip (node ∷ nodes) d =
    get_node_dict skip nodes
      (insert node.name node (if skip then skim_taints (taints_of node.taints) d else d))

starts_with : Text → Text → Bool
starts_with [] s = true
starts_with (c ∷ p) [] = false
starts_with (c ∷ p) (d ∷ s) = (c == d) && starts_with p s

label_list_of : Bool → Dict Text → List LabelDefinition
label_list_of only [] = []
label_list_of only ((key, value) ∷ rest) =
    let others = label_list_of only rest in
    if not only || starts_with (text "retina") key
    then record { name = key; value = value; reverse = false } ∷ others
    else others

-- The body of `get_retina_node_dict`.
retina_node : Bool → ClusterNode → Node
retina_node only n = record {
  name = n.name;
  architecture = n.architecture;
  os_image = n.os_image;
  kernel_version = n.kernel_version;
  label_list = label_list_of only n.labels;
  taint_list = map (λ t. taint_definition t.key t.value t.effect) (taints_of n.taints);
  ip_address = n.first_address;
  allocatable_cpu = n.allocatable_cpu;
  allocatable_memory = n.allocatable_memory;
  allocatable_storage = n.allocatable_storage;
}

retina_nodes : Bool → Dict ClusterNode → Dict Node → Dict Node
retina_nodes only [] d = d
retina_nodes only ((name, n) ∷ rest) d = retina_nodes only rest (insert name (retina_node only n) d)

module _ (p : Platform) where
  open p use {
    World, list_namespaced_config_map, create_namespaced_config_map, delete_namespaced_config_map,
    list_node,
  }

  unfoldable pub get_config_map_dict : World → Dict ConfigMap
  unfolding dict_of
  get_config_map_dict w = dict_of [] (list_namespaced_config_map w)

  unfoldable pub create_config_map : ConfigmapConfig → Action World ErrorCode
  create_config_map c w =
      let (r, w') = create_namespaced_config_map c.name (manifest c) w in pure (created_code r) w'

  unfoldable pub delete_config_map : Text → Action World ErrorCode
  delete_config_map name w =
      let (r, w') = delete_namespaced_config_map name w in pure (deleted_code r) w'

  unfoldable pub get_config_map : Text → World → ConfigMap
  get_config_map name w = elim (lookup name (get_config_map_dict w)) [
    | none ↦ record { annotations = none; data_map = none }
    | some m ↦ m
  ]

  unfoldable pub config_map_exists : Text → World → Bool
  config_map_exists name w = elim (lookup name (get_config_map_dict w)) [
    | none ↦ false
    | some _ ↦ true
  ]

  unfoldable pub get_retina_node_dict : Bool → Bool → World → Dict Node
  unfolding retina_nodes retina_node label_list_of starts_with taints_of
  get_retina_node_dict only skip w = retina_nodes only (get_node_dict skip (list_node w) []) []
