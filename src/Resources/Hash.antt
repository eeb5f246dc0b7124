-- ===== src/Resources/Hash.antt =====
-- The `__hash__` methods of resources.py: the tuple that each class hashes.
use ocudu_infra_srs.Prelude.{ℕ, suc, Option, none, some, List, [], ◌∷◌}
use ocudu_infra_srs.Prelude.Text.{Text, text, decimal}
use ocudu_infra_srs.Prelude.Int.{ℤ, pos, negsuc}
use ocudu_infra_srs.Cluster.{HashValue, nothing, enum}
use ocudu_infra_srs.Resources.{
  ResourceLicense, ResourceRemote, ResourceApi, ResourceCore, ResourceSdr, ResourceRu,
  ResourceAccelerator, ResourceAndroid, ConnectionType, usb, network, pci, Kind, license, remote,
  api, core, sdr, ru, accelerator, android, zmq, Resource, type_r,
}

-- `str(capacity)`
abbrev pub capacity_text : ℤ → Text
capacity_text (pos n) = decimal n
capacity_text (negsuc n) = b'-' ∷ decimal (suc n)

connection_value : Option ConnectionType → HashValue
connection_value none = nothing
connection_value (some usb) = enum (text "USB")
connection_value (some network) = enum (text "NETWORK")
connection_value (some pci) = enum (text "PCI")

-- `str(space)`
space_value : Option ℕ → HashValue
space_value none = HashValue.str (text "None")
space_value (some n) = HashValue.str (decimal n)

license_key : ResourceLicense → List HashValue
license_key l = HashValue.field l.ip_address ∷ HashValue.field l.args ∷ []

remote_key : ResourceRemote → List HashValue
remote_key r =
    HashValue.field r.user
    ∷ HashValue.field r.password
    ∷ HashValue.field r.address
    ∷ HashValue.field r.path
    ∷ HashValue.field r.network_interface
    ∷ HashValue.field r.ru_mac_addr
    ∷ HashValue.field r.du_mac_addr
    ∷ HashValue.field r.vlan_tag_up
    ∷ HashValue.field r.vlan_tag_cp
    ∷ HashValue.field r.prach_port_id
    ∷ HashValue.field r.dl_port_id
    ∷ HashValue.field r.ul_port_id
    ∷ []

api_key : ResourceApi → List HashValue
api_key a = HashValue.field a.address ∷ HashValue.field a.port ∷ []

core_key : ResourceCore → List HashValue
core_key c = HashValue.field c.address ∷ HashValue.field c.port ∷ HashValue.field c.mask ∷ []

sdr_key : Option ℕ → ResourceSdr → List HashValue
sdr_key space s = space_value space ∷ HashValue.field s.args ∷ []

ru_key : Option ℕ → ResourceRu → List HashValue
ru_key space r =
    space_value space
    ∷ HashValue.field r.network_interface
    ∷ HashValue.field r.du_mac_addr
    ∷ HashValue.field r.ru_mac_addr
    ∷ HashValue.field r.vlan_tag_up
    ∷ HashValue.field r.vlan_tag_cp
    ∷ HashValue.field r.prach_port_id
    ∷ HashValue.field r.dl_port_id
    ∷ HashValue.field r.ul_port_id
    ∷ []

accelerator_key : Option ℕ → ResourceAccelerator → List HashValue
accelerator_key space a = space_value space ∷ []

android_key : Option ℕ → ResourceAndroid → List HashValue
android_key space a = space_value space ∷ HashValue.field a.serial_id ∷ []

-- What a class hashes behind the first four fields.
class_key : Option ℕ → Kind → List HashValue
unfolding license_key remote_key api_key core_key sdr_key ru_key accelerator_key android_key
class_key space (license l) = license_key l
class_key space (remote r) = remote_key r
class_key space (api a) = api_key a
class_key space (core c) = core_key c
class_key space (sdr s) = sdr_key space s
class_key space (ru r) = ru_key space r
class_key space (accelerator a) = accelerator_key space a
class_key space (android a) = android_key space a
class_key space zmq = space_value space ∷ []

unfoldable pub hash_key : Resource → List HashValue
unfolding class_key connection_value space_value
hash_key r =
    HashValue.str (type_r r.kind)
    ∷ HashValue.str r.model
    ∷ HashValue.str (capacity_text r.capacity)
    ∷ connection_value r.connection
    ∷ class_key r.space r.kind
