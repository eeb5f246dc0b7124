-- ===== src/Cluster/Laws.antt =====
-- The documented behaviour of the `Platform` that the theorems rest on, and what it gives for the calls of
-- retina_kubernetes.py.
use ocudu_infra_srs.Prelude.{
  ℕ, zero, suc, ◌+◌, ◌≤◌, ◌≡◌, ◌≢◌, refl, ◌⊎◌, inl, inr, false, Option, none, some, List, arith,
  if◌then◌else◌, In,
}
use ocudu_infra_srs.Prelude.Text.{Text, text_eq}
use ocudu_infra_srs.Prelude.Dict.{lookup}
use ocudu_infra_srs.Prelude.Action.{Result, ok}
use ocudu_infra_srs.Cluster.{
  ConfigMap, Response, accepted, api_exception, Platform, ErrorCode, is_ok, equals_ok, created_code,
  ConfigmapConfig, manifest, get_config_map_dict, create_config_map,
}

-- The config map of a name, if there is one.
abbrev pub config_map_at : (p : Platform) → p.World → Text → Option ConfigMap
config_map_at p w name = lookup name (get_config_map_dict p w)

-- Creating is atomic and refuses a name that exists (409); a refused call changes no config map, and an HTTP
-- status is not 0. The clock does not run backwards, and `sleep` lasts as long as it says.
pub record IsLawful (p : Platform) : Type 1 where
  pub created :
      (name : Text) (m : ConfigMap) (w w' : p.World)
      → p.create_namespaced_config_map name m w ≡ (accepted, w')
      → (config_map_at p w name ≡ none)
        × ((n : Text)
            → config_map_at p w' n ≡ (if text_eq name n then some m else config_map_at p w n))
  pub refused :
      (name : Text) (m : ConfigMap) (w w' : p.World) (status : Option ℕ)
      → p.create_namespaced_config_map name m w ≡ (api_exception status, w')
      → (status ≢ some 0) × ((n : Text) → config_map_at p w' n ≡ config_map_at p w n)
  pub deleted :
      (name n : Text) (w : p.World)
      → text_eq name n ≡ false
      → config_map_at p (p.delete_namespaced_config_map name w).1 n ≡ config_map_at p w n
  pub create_later :
      (name : Text) (m : ConfigMap) (w : p.World)
      → p.now w ≤ p.now (p.create_namespaced_config_map name m w).1
  pub sleep_later : (ms : ℕ) (w : p.World) → p.now w + ms ≤ p.now (p.sleep ms w)
  pub shuffle_later : {A : Type 0} (xs : List A) (w : p.World) → p.now w ≤ p.now (p.shuffle xs w).1
  pub shuffle_keeps :
      {A : Type 0} (xs : List A) (w : p.World) (n : Text)
      → config_map_at p (p.shuffle xs w).1 n ≡ config_map_at p w n
  pub shuffle_sound :
      {A : Type 0} (xs : List A) (w : p.World) (x : A) → In x (p.shuffle xs w).0 → In x xs
  pub shuffle_complete :
      {A : Type 0} (xs : List A) (w : p.World) (x : A) → In x xs → In x (p.shuffle xs w).0

-- A create that answered OK found the name free and put its manifest there; any other changed nothing.
abbrev pub CreateEffect :
    (p : Platform) → ConfigmapConfig → p.World → Result ErrorCode × p.World → Type 0
CreateEffect p c w (r, w') =
    ((r ≡ ok is_ok)
      × (config_map_at p w c.name ≡ none)
      × ((n : Text)
          → config_map_at p w' n
            ≡ (if text_eq c.name n then some (manifest c) else config_map_at p w n)))
    ⊎ ((code : ErrorCode) × (r ≡ ok code)
        × (equals_ok code ≡ false)
        × ((n : Text) → config_map_at p w' n ≡ config_map_at p w n))

module _ {p : Platform} (law : IsLawful p) where
  status_code :
      (status : Option ℕ)
      → status ≢ some 0
      → equals_ok (created_code (api_exception status)) ≡ false
  unfolding created_code
  status_code none h = refl
  status_code (some zero) h = absurd (h refl)
  status_code (some (suc n)) h = ground arith

  effect_of :
      (c : ConfigmapConfig) (w w' : p.World) (r : Response)
      → p.create_namespaced_config_map c.name (manifest c) w ≡ (r, w')
      → CreateEffect p c w (ok (created_code r), w')
  effect_of c w w' accepted e =
      let (free, put) = law.created c.name (manifest c) w w' e in
      inl (unfold created_code in refl, free, put)
  effect_of c w w' (api_exception status) e =
      let (h, same) = law.refused c.name (manifest c) w w' status e in
      inr (created_code (api_exception status), refl, status_code status h, same)

  pub create_config_map-CreateEffect :
      (c : ConfigmapConfig) (w : p.World) → CreateEffect p c w (create_config_map p c w)
  unfolding create_config_map
  create_config_map-CreateEffect c w =
      let (r, w') = p.create_namespaced_config_map c.name (manifest c) w in effect_of c w w' r refl
