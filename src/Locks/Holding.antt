-- ===== src/Locks/Holding.antt =====
-- Who holds a lock of reservation/utils.py.
use ocudu_infra_srs.Prelude.{
  ℕ, ◌≡◌, ◌≢◌, refl, sym, ◌∙◌, ◌⊎◌, inl, inr, Bool, true, false, none, some, List, [], ◌∷◌,
  if◌then◌else◌, Bool-cases, All,
}
use ocudu_infra_srs.Prelude.Text.{Text, text_eq, text_eq_refl, eq_of_text_eq}
use ocudu_infra_srs.Prelude.Dict.{Dict}
use ocudu_infra_srs.Prelude.Int.{ℤ}
use ocudu_infra_srs.Prelude.Action.{Result, ok, Action, pure, ◌>>=◌}
use ocudu_infra_srs.Cluster.{
  Platform, ConfigMap, ErrorCode, equals_ok, ConfigmapConfig, manifest, HashValue,
  create_config_map, delete_config_map,
}
use ocudu_infra_srs.Cluster.Laws.{
  IsLawful, config_map_at, CreateEffect, create_config_map-CreateEffect,
}
use ocudu_infra_srs.Locks.{
  cluster_lock, space_lock, get_space_name, get_cluster_resource_name, reserve_space_configmap,
  reserve_cluster_resource_configmap, unlock_resource_space, unlock_cluster_resource,
  create_resource_data_configmap, get_resource_data_configmap_name,
}
use ocudu_infra_srs.Locks.Names.{get_space_name-injective, space_ne_cluster}

-- `True` says that the name was free and is now held with the given manifest, and that nothing else changed;
-- `False` that nothing changed. There is no third outcome.
abbrev pub Acquires : (p : Platform) → ConfigmapConfig → p.World → Result Bool × p.World → Type 0
Acquires p c w (r, w') =
    ((r ≡ ok true)
      × (config_map_at p w c.name ≡ none)
      × ((n : Text)
          → config_map_at p w' n
            ≡ (if text_eq c.name n then some (manifest c) else config_map_at p w n)))
    ⊎ ((r ≡ ok false) × ((n : Text) → config_map_at p w' n ≡ config_map_at p w n))

module _ {p : Platform} (law : IsLawful p) where
  -- The common body of the functions: create, and compare the answer with OK.
  abbrev try_create : ConfigmapConfig → Action p.World Bool
  try_create c = do response ← create_config_map p c; pure (equals_ok response)

  Acquires-of :
      (c : ConfigmapConfig) (w : p.World) (r : Result ErrorCode × p.World)
      → CreateEffect p c w r
      → create_config_map p c w ≡ r
      → Acquires p c w (try_create c w)
  Acquires-of c w (r, w') (inl (e, free, put)) same = rw (same, e) (inl (refl, free, put))
  Acquires-of c w (r, w') (inr (code, e, no_ok, kept)) same = rw (same, e) (inr (rw no_ok, kept))

  pub try_create-Acquires : (c : ConfigmapConfig) (w : p.World) → Acquires p c w (try_create c w)
  try_create-Acquires c w =
      Acquires-of c w (create_config_map p c w) (create_config_map-CreateEffect law c w) refl

-- `reserve_space_configmap` answers True exactly when the lock of the space was free and now belongs to
-- the caller, and False when no config map changed.
pub reserve_space_configmap-Acquires :
    {p : Platform}
    → IsLawful p
    → (space : ℕ) (orch_id user_name : Text) (timeout : ℤ) (w : p.World)
    → Acquires p
        (space_lock space orch_id user_name timeout)
        w
        (reserve_space_configmap p space orch_id user_name timeout w)
unfolding reserve_space_configmap
reserve_space_configmap-Acquires law space orch_id user_name timeout w =
    try_create-Acquires law (space_lock space orch_id user_name timeout) w

pub reserve_cluster_resource_configmap-Acquires :
    {p : Platform}
    → IsLawful p
    → (name orch_id user_name : Text) (timeout : ℤ) (w : p.World)
    → Acquires p
        (cluster_lock name orch_id user_name timeout)
        w
        (reserve_cluster_resource_configmap p name orch_id user_name timeout w)
unfolding reserve_cluster_resource_configmap
reserve_cluster_resource_configmap-Acquires law name orch_id user_name timeout w =
    try_create-Acquires law (cluster_lock name orch_id user_name timeout) w

-- One call of a function of utils.py, by any orchestrator.
pub data Event : Type 0 where
  take_space : (space : ℕ) (orch_id user_name : Text) (timeout : ℤ) → Event
  take_cluster : (name orch_id user_name : Text) (timeout : ℤ) → Event
  put_data :
      (key : List HashValue) (orch_id user_name : Text) (content : Dict Text) (timeout : ℤ) → Event
  free_space : (space : ℕ) → Event
  free_cluster : (name : Text) → Event

module _ (p : Platform) where
  unfoldable pub perform : Event → Action p.World Bool
  perform (take_space space o u t) = reserve_space_configmap p space o u t
  perform (take_cluster name o u t) = reserve_cluster_resource_configmap p name o u t
  perform (put_data key o u content t) =
      create_resource_data_configmap p (get_resource_data_configmap_name p key) o u content t
  perform (free_space space) = unlock_resource_space p space
  perform (free_cluster name) = unlock_cluster_resource p name

  -- The calls of several orchestrators, in the order in which the API server takes them.
  unfoldable pub history : List Event → p.World → p.World
  unfolding perform
  history [] w = w
  history (e ∷ es) w = history es (perform e w).1

-- Not the unlocking of that space.
abbrev pub Keeps : ℕ → Event → Type 0
Keeps space (free_space s) = s ≢ space
Keeps space _ = Unit

module _ {p : Platform} (law : IsLawful p) (space : ℕ) where
  abbrev Held : p.World → Type 0
  Held w = (m : ConfigMap) × (config_map_at p w (get_space_name space) ≡ some m)

  Acquires-Held :
      (c : ConfigmapConfig) (w : p.World) (r : Result Bool × p.World)
      → Acquires p c w r
      → Held w
      → Held r.1
  Acquires-Held c w (r, w') (inl (e, free, put)) (m, h) =
      elim (Bool-cases (text_eq c.name (get_space_name space))) [
        | inl k ↦ (manifest c, put (get_space_name space) ∙ rw k)
        | inr k ↦ (m, put (get_space_name space) ∙ rw k h)
      ]
  Acquires-Held c w (r, w') (inr (e, kept)) (m, h) = (m, kept (get_space_name space) ∙ h)

  delete-Held :
      (name : Text) (w : p.World)
      → text_eq name (get_space_name space) ≡ false
      → Held w
      → Held (delete_config_map p name w).1
  unfolding delete_config_map
  delete-Held name w other (m, h) = (m, law.deleted name (get_space_name space) w other ∙ h)

  differs :
      (name : Text) → name ≢ get_space_name space → text_eq name (get_space_name space) ≡ false
  differs name h = elim (Bool-cases (text_eq name (get_space_name space))) [
    | inl e ↦ absurd (h (eq_of_text_eq _ _ e))
    | inr e ↦ e
  ]

  perform-Held : (e : Event) (w : p.World) → Keeps space e → Held w → Held (perform p e w).1
  unfolding perform create_resource_data_configmap unlock_resource_space unlock_cluster_resource
      delete_config_map
  perform-Held (take_space s o u t) w k h =
      Acquires-Held (space_lock s o u t) w _ (reserve_space_configmap-Acquires law s o u t w) h
  perform-Held (take_cluster name o u t) w k h =
      Acquires-Held (cluster_lock name o u t) w _
        (reserve_cluster_resource_configmap-Acquires law name o u t w) h
  perform-Held (put_data key o u content t) w k h =
      Acquires-Held _ w _ (try_create-Acquires law _ w) h
  perform-Held (free_space s) w k h =
      delete-Held (get_space_name s) w (differs _ (λ e. k (get_space_name-injective s space e))) h
  perform-Held (free_cluster name) w k h =
      delete-Held (get_cluster_resource_name name) w
        (differs _ (λ e. space_ne_cluster space name (sym e))) h

  history-Held :
      (es : List Event) (w : p.World) → All (Keeps space) es → Held w → Held (history p es w)
  unfolding history
  history-Held [] w k h = h
  history-Held (e ∷ es) w k h = history-Held es (perform p e w).1 k.1 (perform-Held e w k.0 h)

  refused_of_Held :
      (o u : Text) (t : ℤ) (w : p.World) (r : Result Bool × p.World)
      → Acquires p (space_lock space o u t) w r
      → Held w
      → r.0 ≡ ok false
  refused_of_Held o u t w (r, w') (inl (e, free, put)) (m, h) = cc
  refused_of_Held o u t w (r, w') (inr (e, kept)) h = e

  taken-Held :
      (o u : Text) (t : ℤ) (w : p.World) (r : Result Bool × p.World)
      → Acquires p (space_lock space o u t) w r
      → r.0 ≡ ok true
      → Held r.1
  taken-Held o u t w (r, w') (inl (e, free, put)) h = (
    manifest (space_lock space o u t),
    put (get_space_name space) ∙ rw (text_eq_refl (get_space_name space)),
  )
  taken-Held o u t w (r, w') (inr (e, kept)) h = cc

-- Mutual exclusion: once a caller has reserved a resource space, no other call reserves it, whatever calls of
-- these functions are made in between by anybody, unless one of them unlocks that space.
pub space_exclusion :
    {p : Platform}
    → IsLawful p
    → (space : ℕ) (orch_id user_name : Text) (timeout : ℤ) (w : p.World) (es : List Event)
      (orch_id' user_name' : Text) (timeout' : ℤ)
    → (reserve_space_configmap p space orch_id user_name timeout w).0 ≡ ok true
    → All (Keeps space) es
    → (reserve_space_configmap p space orch_id' user_name' timeout'
        (history p es (reserve_space_configmap p space orch_id user_name timeout w).1)).0
      ≡ ok false
space_exclusion {p} law space o u t w es o' u' t' taken keeps =
    let first = reserve_space_configmap p space o u t w in
    refused_of_Held law space o' u' t' (history p es first.1) _
      (reserve_space_configmap-Acquires law space o' u' t' (history p es first.1))
      (history-Held law space es first.1 keeps (
        taken-Held law space o u t w first (reserve_space_configmap-Acquires law space o u t w)
          taken))
