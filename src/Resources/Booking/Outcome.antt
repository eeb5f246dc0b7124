-- ===== src/Resources/Booking/Outcome.antt =====
-- What a reservation of a list of resources leaves behind.
use mathlib.Core.Path.{ap₂}
use ocudu_infra_srs.Prelude.{
  ℕ, ◌≡◌, refl, ap, subst, ◌∙◌, ◌⊎◌, inl, inr, Bool, true, false, not, some, List, [], ◌∷◌,
  if◌then◌else◌, Bool-cases, All,
}
use ocudu_infra_srs.Prelude.Text.{Text, text, text_eq_refl}
use ocudu_infra_srs.Prelude.Int.{ℤ, is_positive}
use ocudu_infra_srs.Prelude.Action.{Result, ok, pure, >>=-eq-ok}
use ocudu_infra_srs.Cluster.{Platform, ConfigmapConfig, manifest}
use ocudu_infra_srs.Cluster.Laws.{IsLawful, config_map_at}
use ocudu_infra_srs.Cluster.Growth.{put-Keeps, Keeps}
use ocudu_infra_srs.Locks.{
  cluster_lock, get_cluster_resource_name, get_resource_data_configmap_name,
  reserve_cluster_resource_configmap, create_resource_data_configmap,
}
use ocudu_infra_srs.Locks.Holding.{
  Acquires, try_create-Acquires, reserve_cluster_resource_configmap-Acquires,
}
use ocudu_infra_srs.Resources.{Resource, is_cluster, get_full_name}
use ocudu_infra_srs.Resources.Hash.{hash_key}
use ocudu_infra_srs.Resources.Data.{get_resource_data}
use ocudu_infra_srs.Resources.Booking.{
  publish, sleep_then, reserve_cluster, reserve_node, reserve, reserve_all,
}

module _ (p : Platform) (orch_id user_name : Text) (timeout : ℤ) where
  -- The config map with the data of a resource.
  abbrev pub data_config : Resource → ConfigmapConfig
  data_config r = record {
    name = get_resource_data_configmap_name p (hash_key r);
    orch_id = orch_id;
    user_name = user_name;
    timeout = some timeout;
    data_map = (text "resource.yml", p.yaml_dump (get_resource_data r)) ∷ [];
  }

  -- The world after a reservation of `r`: a cluster resource is locked for the caller, and the data is there. A
  -- resource without capacity needs neither.
  pub Reserved : p.World → Resource → Type 0
  Reserved w r =
      (is_positive r.capacity ≡ false)
      ⊎ ((config_map_at p w (get_resource_data_configmap_name p (hash_key r))
            ≡ some (manifest (data_config r)))
          × ((is_cluster r ≡ false)
              ⊎ (config_map_at p w (get_cluster_resource_name (get_full_name r))
                  ≡ some (manifest (cluster_lock (get_full_name r) orch_id user_name timeout)))))

module _ {p : Platform} (law : IsLawful p) (seconds : ℕ) (orch_id user_name : Text)
    (timeout : ℤ) where
  publish-Acquires :
      (r : Resource) (w : p.World)
      → Acquires p
          (data_config p orch_id user_name timeout r)
          w
          (publish p seconds orch_id user_name timeout r w)
  unfolding publish create_resource_data_configmap
  publish-Acquires r w = try_create-Acquires law (data_config p orch_id user_name timeout r) w

  Reserved-Keeps :
      (w w' : p.World) (r : Resource)
      → Keeps p w w'
      → Reserved p orch_id user_name timeout w r
      → Reserved p orch_id user_name timeout w' r
  unfolding Reserved
  Reserved-Keeps w w' r k (inl zero_capacity) = inl zero_capacity
  Reserved-Keeps w w' r k (inr (content, inl node)) = inr (k _ _ content, inl node)
  Reserved-Keeps w w' r k (inr (content, inr lock)) = inr (k _ _ content, inr (k _ _ lock))

  acquired_then :
      (c : ConfigmapConfig) (w : p.World) (r : Result Bool × p.World)
      → Acquires p c w r
      → r.0 ≡ ok true
      → (config_map_at p r.1 c.name ≡ some (manifest c)) × Keeps p w r.1
  acquired_then c w (r, v) (inl (e, free, put)) h =
      (put c.name ∙ rw (text_eq_refl c.name), put-Keeps p c w v free put)
  acquired_then c w (r, v) (inr (e, kept)) h = cc

  pub acquired :
      (c : ConfigmapConfig) (w w' : p.World) (r : Result Bool × p.World)
      → Acquires p c w r
      → r ≡ (ok true, w')
      → (config_map_at p w' c.name ≡ some (manifest c)) × Keeps p w w'
  acquired c w w' r a same =
      subst
        (λ (x : Result Bool × p.World).
          (config_map_at p x.1 c.name ≡ some (manifest c)) × Keeps p w x.1)
        same (acquired_then c w r a (ap (λ (x : Result Bool × p.World). x.0) same))

  publish-true :
      (r : Resource) (w w' : p.World)
      → publish p seconds orch_id user_name timeout r w ≡ (ok true, w')
      → (config_map_at p w' (get_resource_data_configmap_name p (hash_key r))
          ≡ some (manifest (data_config p orch_id user_name timeout r)))
        × Keeps p w w'
  publish-true r w w' e =
      acquired (data_config p orch_id user_name timeout r) w w' _ (publish-Acquires r w) e

  locked_then :
      (r : Resource) (b : Bool) (v w' : p.World)
      → (if not b
            then sleep_then p seconds orch_id user_name timeout
                (reserve_cluster p seconds orch_id user_name timeout 0 r)
            else publish p seconds orch_id user_name timeout r)
          v
        ≡ (ok true, w')
      → (b ≡ true) × (publish p seconds orch_id user_name timeout r v ≡ (ok true, w'))
  unfolding reserve_cluster
  locked_then r true v w' e = (refl, e)
  locked_then r false v w' e = cc

  reserve_cluster-true :
      (r : Resource) (w w' : p.World)
      → is_cluster r ≡ true
      → reserve_cluster p seconds orch_id user_name timeout 1 r w ≡ (ok true, w')
      → Keeps p w w' × Reserved p orch_id user_name timeout w' r
  unfolding reserve_cluster Reserved
  reserve_cluster-true r w w' c e =
      let (b, v, first, rest) =
        >>=-eq-ok
          (reserve_cluster_resource_configmap p (get_full_name r) orch_id user_name timeout w) _
          e in
      let (yes_b, put) = locked_then r b v w' rest in
      let (lock, k₁) =
        acquired (cluster_lock (get_full_name r) orch_id user_name timeout) w v _
          (reserve_cluster_resource_configmap-Acquires law (get_full_name r) orch_id user_name
            timeout w)
          (first ∙ ap (λ (x : Bool). (ok x, v)) yes_b) in
      let (content, k₂) = publish-true r v w' put in
      (λ n m h. k₂ n m (k₁ n m h), inr (content, inr (k₂ _ _ lock)))

  published_then :
      (r : Resource) (b : Bool) (v w' : p.World)
      → (if b
            then pure true
            else sleep_then p seconds orch_id user_name timeout
                (reserve_node p seconds orch_id user_name timeout 0 r))
          v
        ≡ (ok true, w')
      → (b ≡ true) × (v ≡ w')
  unfolding reserve_node
  published_then r true v w' e = (refl, ap (λ (x : Result Bool × p.World). x.1) e)
  published_then r false v w' e = cc

  reserve_node-true :
      (r : Resource) (w w' : p.World)
      → is_cluster r ≡ false
      → reserve_node p seconds orch_id user_name timeout 1 r w ≡ (ok true, w')
      → Keeps p w w' × Reserved p orch_id user_name timeout w' r
  unfolding reserve_node Reserved
  reserve_node-true r w w' c e =
      let (b, v, first, rest) = >>=-eq-ok (publish p seconds orch_id user_name timeout r w) _ e in
      let (yes_b, same) = published_then r b v w' rest in
      let (content, k) =
        publish-true r w w' (first ∙ ap₂ (λ (x : Bool) (u : p.World). (ok x, u)) yes_b same) in
      (k, inr (content, inl c))

  reserve-true :
      (r : Resource) (w w' : p.World)
      → reserve p seconds orch_id user_name timeout 1 r w ≡ (ok true, w')
      → Keeps p w w' × Reserved p orch_id user_name timeout w' r
  unfolding reserve Reserved
  reserve-true r w w' e = elim (Bool-cases (is_positive r.capacity)) [
    | inl positive ↦ elim (Bool-cases (is_cluster r)) [
      | inl c ↦ reserve_cluster-true r w w' c (rw (positive, c) at e)
      | inr c ↦ reserve_node-true r w w' c (rw (positive, c) at e)
    ]
    | inr zero_capacity ↦
        let same : w ≡ w' = ap (λ (x : Result Bool × p.World). x.1) (rw zero_capacity at e) in
        (λ n m h. subst (λ v. config_map_at p v n ≡ some m) same h, inl zero_capacity)
  ]

  -- If a list of resources is reserved, with one try for each, then every resource with a capacity has its data
  -- published, every such cluster resource is locked for the caller, and no config map was lost on the way.
  pub reserve_all-Reserved :
      (rs : List Resource) (w w' : p.World)
      → reserve_all p seconds orch_id user_name timeout 1 rs w ≡ (ok true, w')
      → Keeps p w w' × All (Reserved p orch_id user_name timeout w') rs
  unfolding reserve_all
  reserve_all-Reserved [] w w' e =
      let same : w ≡ w' = ap (λ (x : Result Bool × p.World). x.1) e in
      (λ n m h. subst (λ v. config_map_at p v n ≡ some m) same h, tt)
  reserve_all-Reserved (r ∷ rs) w w' e =
      let (b, v, first, rest) = >>=-eq-ok (reserve p seconds orch_id user_name timeout 1 r w) _ e in
      elim (Bool-cases b) [
        | inl yes_b ↦
            let (k₁, held) = reserve-true r w v (first ∙ ap (λ (x : Bool). (ok x, v)) yes_b) in
            let (k₂, others) = reserve_all-Reserved rs v w' (rw yes_b at rest) in
            (λ n m h. k₂ n m (k₁ n m h), (Reserved-Keeps v w' r k₂ held, others))
        | inr no_b ↦ let refused : pure false v ≡ (ok true, w') = rw no_b at rest in cc
      ]
