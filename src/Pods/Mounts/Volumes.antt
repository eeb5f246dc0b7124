-- ===== src/Pods/Mounts/Volumes.antt =====
-- The volumes, mounts and ports of a pod.
use ocudu_infra_srs.Prelude.{
  ℕ, ◌≡◌, refl, sym, ap, ◌∙◌, Option, none, some, here, there, In-append_right, Bool, true, false,
  List, [], ◌∷◌, ◌++◌, map, any, if◌then◌else◌, In, All, In-append_left,
}
use ocudu_infra_srs.Prelude.Text.{Text, text, text_eq, decimal}
use ocudu_infra_srs.Requirement.{RequirementDefinition}
use ocudu_infra_srs.Pods.Config.{
  PodConfig, SidecarConfig, Source, Volume, VolumeMount, Container, config_map, host_path,
  empty_dir,
}
use ocudu_infra_srs.Pods.Mounts.{
  Lists, add_volume, add_mount, device, add_data, add_host, add_usb, add_pci, add_dev_items,
  dev_items, add_dev, add_hugepage, mounts_of,
}
use ocudu_infra_srs.Pods.Spec.{build_sidecar, main_container, create_pod_spec}

-- The volumes and the mounts have the same names in the same order.
abbrev Agree : Lists → Type 0
Agree (volumes, volume_mounts) = map (λ v. v.name) volumes ≡ map (λ m. m.name) volume_mounts

-- What was agreed upon stays so, and no volume is lost.
abbrev Extends : Lists → Lists → Type 0
Extends l l' = (Agree l → Agree l') × ((v : Volume) → In v l.0 → In v l'.0)

Extends-trans : (a b c : Lists) → Extends a b → Extends b c → Extends a c
Extends-trans a b c h k = (λ x. k.0 (h.0 x), λ v i. k.1 v (h.1 v i))

map-append : {A B : Type 0} (f : A → B) (xs ys : List A) → map f (xs ++ ys) ≡ map f xs ++ map f ys
map-append f [] ys = refl
map-append f (x ∷ xs) ys = ap (λ l. f x ∷ l) (map-append f xs ys)

-- A volume and then a mount of the same name.
both-Extends :
    (name : Text) (source : Source) (path : Text) (read_only : Option Bool) (sub_path : Option Text)
    (l : Lists)
    → Extends l (add_mount name path read_only sub_path (add_volume name source l))
unfolding add_mount add_volume
both-Extends name source path read_only sub_path (volumes, volume_mounts) = (
  λ h.
      map-append (λ (v : Volume). v.name) volumes _
      ∙ ap (λ x. x ++ name ∷ []) h
      ∙ sym (map-append (λ (m : VolumeMount). m.name) volume_mounts _),
  λ v i. In-append_left volumes _ i,
)

if-Extends : (b : Bool) (l l' : Lists) → Extends l l' → Extends l (if b then l' else l)
if-Extends true l l' h = h
if-Extends false l l' h = (λ x. x, λ v i. i)

device-Extends : (path : Text) (l : Lists) → Extends l (device path l)
unfolding device
device-Extends path l = both-Extends _ _ path none none l

add_data-Extends : (cms : List Text) (l : Lists) → Extends l (add_data cms l)
unfolding add_data
add_data-Extends [] l = (λ x. x, λ v i. i)
add_data-Extends (cm ∷ cms) l =
    Extends-trans l _ _ (both-Extends cm (config_map cm) _ _ _ l) (add_data-Extends cms _)

add_dev_items-Extends :
    (items : List (Text × Text × Bool)) (l : Lists) → Extends l (add_dev_items items l)
unfolding add_dev_items
add_dev_items-Extends [] l = (λ x. x, λ v i. i)
add_dev_items-Extends ((name, path, read_only) ∷ items) l =
    Extends-trans l _ _ (both-Extends name (host_path path) path (some read_only) none l)
      (add_dev_items-Extends items _)

add_host-Extends : (l : Lists) → Extends l (add_host l)
unfolding add_host
add_host-Extends l =
    Extends-trans l _ _ (both-Extends (text "uhd-volume") _ _ none none l)
      (both-Extends (text "coredump-volume") _ _ none none _)

add_usb-Extends : (b : Bool) (l : Lists) → Extends l (add_usb b l)
unfolding add_usb
add_usb-Extends b l =
    if-Extends b l (device (text "/dev/bus/usb") l) (device-Extends (text "/dev/bus/usb") l)

add_pci-Extends : (b : Bool) (l : Lists) → Extends l (add_pci b l)
unfolding add_pci
add_pci-Extends b l =
    let bus = device (text "/sys/bus/pci") l in
    if-Extends b l (device (text "/sys/module") bus) (
      Extends-trans l bus (device (text "/sys/module") bus) (device-Extends (text "/sys/bus/pci") l)
        (device-Extends (text "/sys/module") bus))

add_dev-Extends : (b : Bool) (l : Lists) → Extends l (add_dev b l)
unfolding add_dev
add_dev-Extends b l = if-Extends b l (add_dev_items dev_items l) (add_dev_items-Extends dev_items l)

add_hugepage-Extends :
    (requests : List RequirementDefinition) (l : Lists) → Extends l (add_hugepage requests l)
unfolding add_hugepage
add_hugepage-Extends requests l =
    if-Extends (any (λ r. text_eq r.name (text "hugepages-1Gi")) requests) l _ (
      both-Extends (text "hugepage-1gi") (empty_dir (text "HugePages-1Gi")) (text "/hugepages-1Gi")
        none none l)

-- Everything after the config maps.
rest-Extends :
    (config : PodConfig) (dev_mode : Bool) (l : Lists)
    → Extends l (
        add_hugepage config.request_list (
          add_dev dev_mode (
            add_pci config.enable_pci_connection
              (add_usb config.enable_usb_connection (add_host l)))))
rest-Extends config dev_mode l =
    let host = add_host l in
    let usb = add_usb config.enable_usb_connection host in
    let pci = add_pci config.enable_pci_connection usb in
    let dev = add_dev dev_mode pci in
    let last = add_hugepage config.request_list dev in
    Extends-trans l host last (add_host-Extends l) (
      Extends-trans host usb last (add_usb-Extends config.enable_usb_connection host) (
        Extends-trans usb pci last (add_pci-Extends config.enable_pci_connection usb) (
          Extends-trans pci dev last (add_dev-Extends dev_mode pci)
            (add_hugepage-Extends config.request_list dev))))

-- Each config map becomes a volume.
data_listed :
    (cms : List Text) (l : Lists) (cm : Text)
    → In cm cms
    → In (record { name = cm; source = config_map cm }) (add_data cms l).0
unfolding add_data add_mount add_volume
data_listed [] l cm i = elim i [ ]
data_listed (c ∷ cms) (volumes, volume_mounts) cm here =
    (add_data-Extends cms _).1 _ (In-append_right volumes _ here)
data_listed (c ∷ cms) l cm (there i) = data_listed cms _ cm i

sidecars_plain : (cs : List SidecarConfig) → All (λ c. c.volume_mounts ≡ []) (map build_sidecar cs)
unfolding build_sidecar
sidecars_plain [] = tt
sidecars_plain (c ∷ cs) = (refl, sidecars_plain cs)

port_numbers :
    (ns : List ℕ) → map (λ (x : ℕ × Text). x.0) (map (λ p. (p, text "port-" ++ decimal p)) ns) ≡ ns
port_numbers [] = refl
port_numbers (n ∷ ns) = ap (λ l. n ∷ l) (port_numbers ns)

-- In the specification of a pod the first container mounts exactly the declared volumes, in their order, the others
-- mount none, each config map with the data of a resource is a volume, and the ports of the first container
-- are the reserved ones.
pub create_pod_spec-volumes :
    (config : PodConfig) (dev_mode : Bool)
    → let spec = create_pod_spec config dev_mode in
      (main : Container) × (sidecars : List Container) × (spec.containers ≡ main ∷ sidecars)
      × (map (λ v. v.name) spec.volumes ≡ map (λ m. m.name) main.volume_mounts)
      × All (λ c. c.volume_mounts ≡ []) sidecars
      × ((cm : Text)
          → In cm config.resource_data_configmap_list
          → In (record { name = cm; source = config_map cm }) spec.volumes)
      × (map (λ (x : ℕ × Text). x.0) main.ports ≡ config.retina_ports ++ config.extra_ports)
unfolding create_pod_spec main_container mounts_of
create_pod_spec-volumes config dev_mode =
    let cms = config.resource_data_configmap_list in
    let listed = add_data cms ([], []) in
    (
      main_container config dev_mode,
      map build_sidecar config.sidecars,
      refl,
      (rest-Extends config dev_mode listed).0 ((add_data-Extends cms ([], [])).0 refl),
      sidecars_plain config.sidecars,
      λ cm i. (rest-Extends config dev_mode listed).1 _ (data_listed cms ([], []) cm i),
      port_numbers (config.retina_ports ++ config.extra_ports),
    )
