-- ===== src/Requests/Pool.antt =====
-- `get_pool_request_reservation_from_config` of reservation/managers.py. A config is what the YAML of a request
-- says; a field that is missing is `none`.
use ocudu_infra_srs.Prelude.{
  ℕ, ◌+◌, ◌≡◌, refl, sym, ap, subst, ◌∙◌, Bool, false, Option, none, some, List, [], ◌∷◌, ◌++◌,
  length, All,
}
use ocudu_infra_srs.Prelude.Text.{Text, text}
use ocudu_infra_srs.Prelude.Action.{Result, ok, raised, key_error, name_error}
use ocudu_infra_srs.Prelude.Outcome.{◌>>=◌, bind-eq-ok, ok-injective}
use ocudu_infra_srs.Requirement.{RequirementConfig, requirement_manager}
use ocudu_infra_srs.Requirement.Checks.{
  IsChecked, asked, requirement_manager-IsChecked, requirement_manager-asked,
}
use ocudu_infra_srs.Resources.Inventory.{RequestEntry, get_resource_from_config}
use ocudu_infra_srs.Resources.Inventory.Requested.{
  IsRequested, get_resource_from_config-IsRequested,
}
use ocudu_infra_srs.Requests.{RequestReservation, SidecarReservation, BinaryDefinition}

pub record SidecarConfig : Type 0 where
  pub name : Option Text
  pub image : Option Text
  pub requirements : Option (List (Text × RequirementConfig))

pub record SharedFile : Type 0 where
  pub local_path : Option Text
  pub remote_path : Option Text
  pub is_executable : Option Bool
  pub is_optional : Option Bool

pub record RequestConfig : Type 0 where
  pub name : Option Text
  pub image : Option Text
  pub nof_ports : Option ℕ
  pub labels : Option (List Text)
  pub requirements : Option (List (Text × RequirementConfig))
  pub sidecars : Option (List SidecarConfig)
  pub resources : Option (List RequestEntry)
  pub shared_files : Option (List SharedFile)
  pub host_network : Option Text
  pub ip_uu_source : Option Text
  pub ip_back_source : Option Text

pub record PoolRequestReservation : Type 0 where
  pub request_reservation_list : List RequestReservation
  pub binary_list : List BinaryDefinition
  pub orch_id : Text
  pub user_name : Text

-- `d.get(key, default)` and `d[key]`
abbrev pub or_else : {A : Type 0} → A → Option A → A
or_else a none = a
or_else a (some b) = b

abbrev pub required : {A : Type 0} → Option A → Result A
required none = raised key_error
required (some a) = ok a

-- A loop that appends to a list, with `raise` in its body.
abbrev pub each : {A B : Type 0} → (A → Result B) → List A → Result (List B)
each f [] = ok []
each f (x ∷ xs) = do y ← f x; ys ← each f xs; ok (y ∷ ys)

unfoldable pub sidecar_from_config : SidecarConfig → Result SidecarReservation
sidecar_from_config c = do
  name ← required c.name
  image ← required c.image
  manager ← requirement_manager (or_else [] c.requirements) []
  ok (record { name = name; image = image; requirement_manager = manager })

unfoldable pub binary_from_config : SharedFile → Result BinaryDefinition
binary_from_config b = do
  local_path ← required b.local_path
  remote_path ← required b.remote_path
  is_executable ← required b.is_executable
  ok (record {
    local_path = local_path;
    remote_path = remote_path;
    is_executable = is_executable;
    is_optional = or_else false b.is_optional;
  })

-- The body of the loop.
unfoldable pub request_from_config : RequestConfig → Result RequestReservation
request_from_config c = do
  manager ← requirement_manager (or_else [] c.requirements) (or_else [] c.labels)
  sidecars ← each sidecar_from_config (or_else [] c.sidecars)
  resource_list ← each get_resource_from_config (or_else [] c.resources)
  binary_list ← each binary_from_config (or_else [] c.shared_files)
  name ← required c.name
  image ← required c.image
  ok (record {
    name = name;
    image = image;
    nof_ports = or_else 1 c.nof_ports;
    resources = resource_list;
    requirement_manager = manager;
    reserved_resources = [];
    binary_list = binary_list;
    enable_host_network_force = or_else (text "") c.host_network;
    ip_uu_source = or_else (text "") c.ip_uu_source;
    ip_back_source = or_else (text "") c.ip_back_source;
    sidecars = sidecars;
    node = none;
  })

-- `binary_list` after the loop is that of the last config, and unbound when there was none.
last_binaries : List RequestReservation → Result (List BinaryDefinition)
last_binaries [] = raised name_error
last_binaries (r ∷ []) = ok r.binary_list
last_binaries (r ∷ s ∷ rs) = last_binaries (s ∷ rs)

unfoldable pub get_pool_request_reservation_from_config :
    List RequestConfig → Text → Text → Result PoolRequestReservation
unfolding last_binaries
get_pool_request_reservation_from_config config orch_id user_name = do
  requests ← each request_from_config config
  binary_list ← last_binaries requests
  ok (record {
    request_reservation_list = requests;
    binary_list = binary_list;
    orch_id = orch_id;
    user_name = user_name;
  })

-- Two lists of the same length whose elements are related in order.
abbrev pub Each : {A B : Type 0} → (A → B → Type 0) → List A → List B → Type 0
Each R [] [] = Unit
Each R (x ∷ xs) (y ∷ ys) = R x y × Each R xs ys
Each R _ _ = ⊥

abbrev pub IsSidecarFrom : SidecarConfig → SidecarReservation → Type 0
IsSidecarFrom c s =
    (c.name ≡ some s.name)
    × (c.image ≡ some s.image)
    × All IsChecked s.requirement_manager.req_list
    × (s.requirement_manager.req_list ≡ asked (or_else [] c.requirements))

abbrev pub IsBinaryFrom : SharedFile → BinaryDefinition → Type 0
IsBinaryFrom f b =
    (f.local_path ≡ some b.local_path)
    × (f.remote_path ≡ some b.remote_path)
    × (f.is_executable ≡ some b.is_executable)
    × (b.is_optional ≡ or_else false f.is_optional)

-- The request that was made from one config: its name and image, a checked requirement for each key with the
-- amounts given, one label more than given, its resources, sidecars and binaries in order, its other fields or
-- their defaults, and nothing reserved.
abbrev pub IsFrom : RequestConfig → RequestReservation → Type 0
IsFrom c r =
    (c.name ≡ some r.name)
    × (c.image ≡ some r.image)
    × (r.nof_ports ≡ or_else 1 c.nof_ports)
    × (r.enable_host_network_force ≡ or_else (text "") c.host_network)
    × (r.ip_uu_source ≡ or_else (text "") c.ip_uu_source)
    × (r.ip_back_source ≡ or_else (text "") c.ip_back_source)
    × All IsChecked r.requirement_manager.req_list
    × (r.requirement_manager.req_list ≡ asked (or_else [] c.requirements))
    × (length r.requirement_manager.label_list ≡ length (or_else [] c.labels) + 1)
    × Each IsSidecarFrom (or_else [] c.sidecars) r.sidecars
    × Each IsRequested (or_else [] c.resources) r.resources
    × Each IsBinaryFrom (or_else [] c.shared_files) r.binary_list
    × (r.reserved_resources ≡ [])
    × (r.node ≡ none)

each-Each :
    {A B : Type 0} (f : A → Result B) (R : A → B → Type 0)
    (one : (x : A) (y : B) → f x ≡ ok y → R x y) (xs : List A) {ys : List B}
    → each f xs ≡ ok ys
    → Each R xs ys
each-Each f R one [] e = rw (← ok-injective e) tt
each-Each f R one (x ∷ xs) e =
    let (y, head, k) = bind-eq-ok (f x) (λ y. each f xs >>= λ ys. ok (y ∷ ys)) e in
    let (zs, rest, put) = bind-eq-ok (each f xs) (λ ys. ok (y ∷ ys)) k in
    subst (Each R (x ∷ xs)) (ok-injective put) (one x y head, each-Each f R one xs rest)

required_eq : {A : Type 0} (o : Option A) {a : A} → required o ≡ ok a → o ≡ some a
required_eq none e = cc
required_eq (some b) e = ap some (ok-injective e)

sidecar_from_config-IsSidecarFrom :
    (c : SidecarConfig) (s : SidecarReservation) → sidecar_from_config c ≡ ok s → IsSidecarFrom c s
unfolding sidecar_from_config
sidecar_from_config-IsSidecarFrom c s e0 =
    let (name, h1, e1) = bind-eq-ok (required c.name) _ e0 in
    let (image, h2, e2) = bind-eq-ok (required c.image) _ e1 in
    let (manager, h3, e3) = bind-eq-ok (requirement_manager (or_else [] c.requirements) []) _ e2 in
    let (checked, named, labels) =
      requirement_manager-IsChecked (or_else [] c.requirements) [] h3 in
    subst (IsSidecarFrom c) (ok-injective e3)
      (required_eq c.name h1, required_eq c.image h2, checked, requirement_manager-asked _ _ h3)

binary_from_config-IsBinaryFrom :
    (f : SharedFile) (b : BinaryDefinition) → binary_from_config f ≡ ok b → IsBinaryFrom f b
unfolding binary_from_config
binary_from_config-IsBinaryFrom f b e0 =
    let (local_path, h1, e1) = bind-eq-ok (required f.local_path) _ e0 in
    let (remote_path, h2, e2) = bind-eq-ok (required f.remote_path) _ e1 in
    let (is_executable, h3, e3) = bind-eq-ok (required f.is_executable) _ e2 in
    subst (IsBinaryFrom f) (ok-injective e3) (
      required_eq f.local_path h1,
      required_eq f.remote_path h2,
      required_eq f.is_executable h3,
      refl,
    )

request_from_config-IsFrom :
    (c : RequestConfig) (r : RequestReservation) → request_from_config c ≡ ok r → IsFrom c r
unfolding request_from_config
request_from_config-IsFrom c r e0 =
    let (manager, h1, e1) =
      bind-eq-ok (requirement_manager (or_else [] c.requirements) (or_else [] c.labels)) _ e0 in
    let (sidecars, h2, e2) = bind-eq-ok (each sidecar_from_config (or_else [] c.sidecars)) _ e1 in
    let (resources, h3, e3) =
      bind-eq-ok (each get_resource_from_config (or_else [] c.resources)) _ e2 in
    let (binaries, h4, e4) =
      bind-eq-ok (each binary_from_config (or_else [] c.shared_files)) _ e3 in
    let (name, h5, e5) = bind-eq-ok (required c.name) _ e4 in
    let (image, h6, e6) = bind-eq-ok (required c.image) _ e5 in
    let (checked, named, labels) =
      requirement_manager-IsChecked (or_else [] c.requirements) (or_else [] c.labels) h1 in
    subst (IsFrom c) (ok-injective e6) (
      required_eq c.name h5,
      required_eq c.image h6,
      refl,
      refl,
      refl,
      refl,
      checked,
      requirement_manager-asked _ _ h1,
      labels,
      each-Each sidecar_from_config IsSidecarFrom sidecar_from_config-IsSidecarFrom _ h2,
      each-Each get_resource_from_config IsRequested
          (λ x y h. get_resource_from_config-IsRequested x h) _ h3,
      each-Each binary_from_config IsBinaryFrom binary_from_config-IsBinaryFrom _ h4,
      refl,
      refl,
    )

-- The last request of the list.
abbrev pub EndsWith : List RequestReservation → RequestReservation → Type 0
EndsWith rs r = (front : List RequestReservation) × (rs ≡ front ++ r ∷ [])

last_of :
    (rs : List RequestReservation) {l : List BinaryDefinition}
    → last_binaries rs ≡ ok l
    → (r : RequestReservation) × EndsWith rs r × (l ≡ r.binary_list)
unfolding last_binaries
last_of [] e = cc
last_of (r ∷ []) e = (r, ([], refl), sym (ok-injective e))
last_of (r ∷ s ∷ rs) e =
    let (t, (front, k), is) = last_of (s ∷ rs) e in (t, (r ∷ front, ap (λ x. r ∷ x) k), is)

pub get_pool_request_reservation_from_config-IsFrom :
    (config : List RequestConfig) (orch_id user_name : Text) {pool : PoolRequestReservation}
    → get_pool_request_reservation_from_config config orch_id user_name ≡ ok pool
    → Each IsFrom config pool.request_reservation_list
      × ((r : RequestReservation) × EndsWith pool.request_reservation_list r
          × (pool.binary_list ≡ r.binary_list))
      × (pool.orch_id ≡ orch_id)
      × (pool.user_name ≡ user_name)
      × (get_pool_request_reservation_from_config [] orch_id user_name ≡ raised name_error)
unfolding get_pool_request_reservation_from_config last_binaries
get_pool_request_reservation_from_config-IsFrom config orch_id user_name {pool} e =
    let (rs, h1, e1) = bind-eq-ok (each request_from_config config) _ e in
    let (l, h2, e2) = bind-eq-ok (last_binaries rs) _ e1 in
    let same = ok-injective e2 in
    let requests : rs ≡ pool.request_reservation_list = ap (λ x. x.request_reservation_list) same in
    let binaries : l ≡ pool.binary_list = ap (λ x. x.binary_list) same in
    let (r, (front, k), is) = last_of rs h2 in
    (
      subst (Each IsFrom config) requests
          (each-Each request_from_config IsFrom request_from_config-IsFrom config h1),
      (r, (front, sym requests ∙ k), sym binaries ∙ is),
      ap (λ x. x.orch_id) (sym same),
      ap (λ x. x.user_name) (sym same),
      refl,
    )
