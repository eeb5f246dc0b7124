-- ===== src/Locks/Names.antt =====
-- The names of the config maps.
use ocudu_infra_srs.Prelude.{ℕ, zero, suc, ◌≡◌, ap, ◌≢◌, ◌↔◌, List, [], ◌∷◌, arith}
use ocudu_infra_srs.Prelude.Text.{Text, text, decimal-injective, append-injective}
use ocudu_infra_srs.Cluster.{Platform, HashValue}
use ocudu_infra_srs.Locks.{
  get_space_name, get_cluster_resource_name, get_resource_data_configmap_name,
}

abbrev char_at : ℕ → Text → ℕ
char_at i [] = 0
char_at zero (c ∷ s) = c
char_at (suc i) (c ∷ s) = char_at i s

-- Different resource spaces, and different cluster resources, have different locks.
pub get_space_name-injective : (m n : ℕ) → get_space_name m ≡ get_space_name n → m ≡ n
unfolding get_space_name
get_space_name-injective m n e = decimal-injective m n (append-injective (text "retina-rs-") _ _ e)

pub get_cluster_resource_name-injective :
    (a b : Text) → get_cluster_resource_name a ≡ get_cluster_resource_name b → a ≡ b
unfolding get_cluster_resource_name
get_cluster_resource_name-injective a b e = append-injective (text "retina-rcluster-") a b e

pub space_ne_cluster : (n : ℕ) (a : Text) → get_space_name n ≢ get_cluster_resource_name a
unfolding get_space_name get_cluster_resource_name
space_ne_cluster n a e = absurd (omega (arith, ap (char_at 8) e))

pub data_ne_space :
    (p : Platform) (key : List HashValue) (n : ℕ)
    → get_resource_data_configmap_name p key ≢ get_space_name n
unfolding get_resource_data_configmap_name get_space_name
data_ne_space p key n e = absurd (omega (arith, ap (char_at 1) e))

pub data_ne_cluster :
    (p : Platform) (key : List HashValue) (a : Text)
    → get_resource_data_configmap_name p key ≢ get_cluster_resource_name a
unfolding get_resource_data_configmap_name get_cluster_resource_name
data_ne_cluster p key a e = absurd (omega (arith, ap (char_at 1) e))

-- The names of the config maps never collide: those of two spaces, and of two cluster resources, are the same only when
-- the spaces, or the resources, are; and a space, a cluster resource and a resource's data never share one.
pub lock_names :
    (p : Platform) (m n : ℕ) (a b : Text) (key : List HashValue)
    → ((get_space_name m ≡ get_space_name n) ↔ (m ≡ n))
      × ((get_cluster_resource_name a ≡ get_cluster_resource_name b) ↔ (a ≡ b))
      × (get_space_name m ≢ get_cluster_resource_name a)
      × (get_resource_data_configmap_name p key ≢ get_space_name m)
      × (get_resource_data_configmap_name p key ≢ get_cluster_resource_name a)
lock_names p m n a b key = (
  (get_space_name-injective m n, ap get_space_name),
  (get_cluster_resource_name-injective a b, ap get_cluster_resource_name),
  space_ne_cluster m a,
  data_ne_space p key m,
  data_ne_cluster p key a,
)
