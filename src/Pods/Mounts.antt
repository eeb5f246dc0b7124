-- ===== src/Pods/Mounts.antt =====
-- The volumes of `_create_pod_spec` of retina_kubernetes.py (retina/orchestrator/src/retina/orchestrator).
pub mod Volumes
use ocudu_infra_srs.Prelude.{
  Bool, true, false, Option, none, some, List, [], ◌∷◌, ◌++◌, map, ◌==◌, if◌then◌else◌, any,
}
use ocudu_infra_srs.Prelude.Text.{Text, text, text_eq}
use ocudu_infra_srs.Requirement.{RequirementDefinition}
use ocudu_infra_srs.Pods.Config.{
  PodConfig, Source, Volume, VolumeMount, host_path, config_map, empty_dir,
}

-- The local lists `volumes` and `volume_mounts`.
abbrev pub Lists : Type 0
Lists = List Volume × List VolumeMount

-- `volumes.append(…)`
pub add_volume : Text → Source → Lists → Lists
add_volume name source (volumes, volume_mounts) =
    (volumes ++ record { name = name; source = source } ∷ [], volume_mounts)

-- `volume_mounts.append(…)`
pub add_mount : Text → Text → Option Bool → Option Text → Lists → Lists
add_mount name path read_only sub_path (volumes, volume_mounts) = (
  volumes,
  volume_mounts
      ++ record { name = name; mount_path = path; read_only = read_only; sub_path = sub_path } ∷ [],
)

-- `path.replace("/", "-")[1::]`
dashes : Text → Text
dashes = map (λ c. if c == b'/' then b'-' else c)

path_name : Text → Text
unfolding dashes
path_name [] = []
path_name (c ∷ path) = dashes path

device : Text → Lists → Lists
unfolding path_name
device path l =
    add_mount (path_name path) path none none (add_volume (path_name path) (host_path path) l)

add_data : List Text → Lists → Lists
add_data [] l = l
add_data (cm ∷ cms) l = add_data cms (
    add_mount cm (text "/etc/retina/resources/" ++ (cm ++ text ".yml")) (some true)
      (some (text "resource.yml")) (add_volume cm (config_map cm) l))

add_host : Lists → Lists
add_host l = add_mount (text "coredump-volume") (text "/tmp/coredump") none none (
    add_volume (text "coredump-volume") (host_path (text "/mnt/coredump")) (
      add_mount (text "uhd-volume") (text "/usr/share/uhd/images") none none
        (add_volume (text "uhd-volume") (host_path (text "/usr/share/uhd/images")) l)))

add_usb : Bool → Lists → Lists
unfolding device
add_usb enabled l = if enabled then device (text "/dev/bus/usb") l else l

add_pci : Bool → Lists → Lists
unfolding device
add_pci enabled l =
    if enabled then device (text "/sys/module") (device (text "/sys/bus/pci") l) else l

add_dev_items : List (Text × Text × Bool) → Lists → Lists
add_dev_items [] l = l
add_dev_items ((name, path, read_only) ∷ items) l =
    add_dev_items items
      (add_mount name path (some read_only) none (add_volume name (host_path path) l))

dev_items : List (Text × Text × Bool)
dev_items =
    (text "home-volume", text "/home", false)
    ∷ (text "sys-cpu", text "/sys/devices/system/cpu", false)
    ∷ (text "proc-cpuinfo", text "/proc/cpuinfo", false)
    ∷ (text "host-modules", text "/lib/modules", true)
    ∷ (text "host-dev", text "/dev", false)
    ∷ []

add_dev : Bool → Lists → Lists
unfolding add_dev_items dev_items
add_dev dev_mode l = if dev_mode then add_dev_items dev_items l else l

-- The lists are in the manifest by now, and the two appends of `_set_requirements` change them there.
add_hugepage : List RequirementDefinition → Lists → Lists
add_hugepage requests l =
    if any (λ r. text_eq r.name (text "hugepages-1Gi")) requests
    then add_mount (text "hugepage-1gi") (text "/hugepages-1Gi") none none
        (add_volume (text "hugepage-1gi") (empty_dir (text "HugePages-1Gi")) l)
    else l

-- The two lists in the end.
unfoldable pub mounts_of : PodConfig → Bool → Lists
unfolding add_volume add_mount add_data add_host add_usb add_pci add_dev add_hugepage
mounts_of config dev_mode = add_hugepage config.request_list (
    add_dev dev_mode (
      add_pci config.enable_pci_connection (
        add_usb config.enable_usb_connection
          (add_host (add_data config.resource_data_configmap_list ([], []))))))
