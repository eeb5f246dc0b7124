-- ===== src/Locks/Table.antt =====
-- The abstract view of the locks of reservation/utils.py: a table of the users that hold the resource
-- spaces.
use ocudu_infra_srs.Prelude.{
  ℕ, ◌≡◌, ◌≢◌, refl, sym, ap, subst, ◌∙◌, inl, inr, Bool, true, false, not, Option, none, some,
  List, [], ◌∷◌, arith, ◌==◌, if◌then◌else◌, Bool-cases,
}
use ocudu_infra_srs.Prelude.Text.{Text, text, text_eq, text_eq_refl, eq_of_text_eq}
use ocudu_infra_srs.Prelude.Int.{ℤ}
use ocudu_infra_srs.Prelude.Action.{Result, ok}
use ocudu_infra_srs.Cluster.{
  Platform, ConfigMap, ConfigmapConfig, Response, accepted, api_exception, equals_ok, deleted_code,
  get_error_code, manifest, config_map_exists, get_config_map, delete_config_map,
}
use ocudu_infra_srs.Cluster.Laws.{IsLawful, config_map_at}
use ocudu_infra_srs.Locks.{
  get_space_name, get_cluster_resource_name, space_lock, cluster_lock, user_of,
  check_if_space_is_available, check_space_user_reservation, unlock_resource_space,
  unlock_cluster_resource, create_resource_data_configmap,
}
use ocudu_infra_srs.Locks.Names.{get_space_name-injective, space_ne_cluster, data_ne_space}
use ocudu_infra_srs.Locks.Holding.{
  Acquires, Event, take_space, take_cluster, put_data, free_space, free_cluster, perform, history,
  try_create-Acquires, reserve_space_configmap-Acquires,
  reserve_cluster_resource_configmap-Acquires,
}

-- The user that holds each resource space.
abbrev pub Table : Type 0
Table = ℕ → Option Text

-- What one event may do to the table, with the answer it gives.
abbrev pub Step : Table → Event → Bool → Table → Type 0
Step t (take_space space orch_id user_name timeout) true t' =
    (t space ≡ none) × ((n : ℕ) → t' n ≡ (if space == n then some user_name else t n))
Step t (free_space space) true t' = (n : ℕ) → t' n ≡ (if space == n then none else t n)
Step t _ answer t' = (n : ℕ) → t' n ≡ t n

abbrev user_at : Option ConfigMap → Option Text
user_at none = none
user_at (some m) = some (user_of m.data_map)

abbrev pub table : (p : Platform) → p.World → Table
table p w n = user_at (config_map_at p w (get_space_name n))

abbrev pub is_free : Option Text → Bool
is_free none = true
is_free (some _) = false

abbrev pub user_or_blank : Option Text → Text
user_or_blank none = text ""
user_or_blank (some u) = u

spaces_differ : (m n : ℕ) → (m == n) ≡ false → text_eq (get_space_name m) (get_space_name n) ≡ false
spaces_differ m n h = elim (Bool-cases (text_eq (get_space_name m) (get_space_name n))) [
  | inl e ↦
      let same : m ≡ n = get_space_name-injective m n (eq_of_text_eq _ _ e) in
      absurd (ground (arith, same, h))
  | inr e ↦ e
]

differs : (name : Text) (n : ℕ) → name ≢ get_space_name n → text_eq name (get_space_name n) ≡ false
differs name n h = elim (Bool-cases (text_eq name (get_space_name n))) [
  | inl e ↦ absurd (h (eq_of_text_eq _ _ e))
  | inr e ↦ e
]

-- The table after a list of events that gave these answers.
pub data Steps : Table → List Event → List (Result Bool) → Table → Type 0 where
  done : {t : Table} → Steps t [] [] t
  more :
      {t u v : Table} {e : Event} {es : List Event} {rs : List (Result Bool)} (answer : Bool)
      → Step t e answer u
      → Steps u es rs v
      → Steps t (e ∷ es) (ok answer ∷ rs) v

-- What the functions returned, event after event.
abbrev pub answers : (p : Platform) → List Event → p.World → List (Result Bool)
answers p [] w = []
answers p (e ∷ es) w = (perform p e w).0 ∷ answers p es (perform p e w).1

-- What the two functions that look at a lock say, by the table.
abbrev pub Observes : (p : Platform) → p.World → Type 0
Observes p w =
    (n : ℕ)
    → (check_if_space_is_available p n w ≡ is_free (table p w n))
      × (check_space_user_reservation p n w ≡ user_or_blank (table p w n))

seen :
    (o : Option ConfigMap)
    → let there : Bool = elim o [ none ↦ false | some _ ↦ true ] in
      let at : ConfigMap = elim o [
        | none ↦ record { annotations = none; data_map = none }
        | some m ↦ m
      ] in
      (not there ≡ is_free (user_at o)) × (user_of at.data_map ≡ user_or_blank (user_at o))
seen none = (refl, refl)
seen (some m) = (refl, refl)

observed : (p : Platform) (w : p.World) → Observes p w
unfolding check_if_space_is_available check_space_user_reservation config_map_exists get_config_map
observed p w n = seen (config_map_at p w (get_space_name n))

-- The server deletes what it says it deleted, changes no config map when it refuses, and refuses with an HTTP
-- status only what is not there (404).
pub record IsDeleting (p : Platform) : Type 1 where
  pub gone :
      (name : Text) (w w' : p.World)
      → p.delete_namespaced_config_map name w ≡ (accepted, w')
      → config_map_at p w' name ≡ none
  pub kept :
      (name n : Text) (w w' : p.World) (status : Option ℕ)
      → p.delete_namespaced_config_map name w ≡ (api_exception status, w')
      → config_map_at p w' n ≡ config_map_at p w n
  pub missing :
      (name : Text) (w w' : p.World) (status : ℕ)
      → p.delete_namespaced_config_map name w ≡ (api_exception (some status), w')
      → config_map_at p w name ≡ none

module _ {p : Platform} (law : IsLawful p) (deleting : IsDeleting p) where
  open p use {World}

  put_at :
      (space : ℕ) (o u : Text) (timeout : ℤ) (w w' : World)
      → ((name : Text)
          → config_map_at p w' name ≡ (
              if text_eq (get_space_name space) name
              then some (manifest (space_lock space o u timeout))
              else config_map_at p w name))
      → (n : ℕ) → table p w' n ≡ (if space == n then some u else table p w n)
  unfolding manifest text_eq
  put_at space o u timeout w w' put n = elim (Bool-cases (space == n)) [
    | inl k ↦
        let is : space ≡ n = ground arith in
        let same : text_eq (get_space_name space) (get_space_name n) ≡ true =
          rw (← is) (text_eq_refl (get_space_name space)) in
        rw (k, put (get_space_name n), same) refl
    | inr k ↦ rw (k, put (get_space_name n), spaces_differ space n k) refl
  ]

  taking :
      (space : ℕ) (orch_id user_name : Text) (timeout : ℤ) (w : World) (r : Result Bool × World)
      → Acquires p (space_lock space orch_id user_name timeout) w r
      → (answer : Bool) × (r.0 ≡ ok answer)
        × Step (table p w) (take_space space orch_id user_name timeout) answer (table p r.1)
  taking space o u timeout w (r, w') (inl (e, free, put)) =
      (true, e, (ap user_at free, put_at space o u timeout w w' put))
  taking space o u timeout w (r, w') (inr (e, kept)) =
      (false, e, λ n. ap user_at (kept (get_space_name n)))

  others_same :
      (c : ConfigmapConfig) (w : World) (r : Result Bool × World)
      → ((n : ℕ) → c.name ≢ get_space_name n)
      → Acquires p c w r
      → (answer : Bool) × (r.0 ≡ ok answer) × ((n : ℕ) → table p r.1 n ≡ table p w n)
  others_same c w (r, w') apart (inl (e, free, put)) =
      (true, e, λ n. ap user_at (put (get_space_name n) ∙ rw (differs c.name n (apart n)) refl))
  others_same c w (r, w') apart (inr (e, kept)) =
      (false, e, λ n. ap user_at (kept (get_space_name n)))

  freed :
      (space : ℕ) (w w' : World)
      → config_map_at p w' (get_space_name space) ≡ none
      → ((n : ℕ) → (space == n) ≡ false → table p w' n ≡ table p w n)
      → (n : ℕ) → table p w' n ≡ (if space == n then none else table p w n)
  freed space w w' gone others n = elim (Bool-cases (space == n)) [
    | inl k ↦
        let is : space ≡ n = ground arith in
        rw k (subst (λ m. table p w' m ≡ none) is (ap user_at gone))
    | inr k ↦ rw k (others n k)
  ]

  freeing_by :
      (space : ℕ) (w w' : World) (r : Response)
      → p.delete_namespaced_config_map (get_space_name space) w ≡ (r, w')
      → Step (table p w) (free_space space) (equals_ok (deleted_code r)) (table p w')
  unfolding deleted_code get_error_code
  freeing_by space w w' accepted e = freed space w w' (deleting.gone _ w w' e) (λ n k.
      subst (λ (x : Response × World). table p x.1 n ≡ table p w n) e
        (ap user_at (law.deleted _ (get_space_name n) w (spaces_differ space n k))))
  freeing_by space w w' (api_exception none) e = λ n. ap user_at (deleting.kept _ _ w w' none e)
  freeing_by space w w' (api_exception (some s)) e =
      freed space w w' (deleting.kept _ _ w w' (some s) e ∙ deleting.missing _ w w' s e)
        (λ n k. ap user_at (deleting.kept _ (get_space_name n) w w' (some s) e))

  freeing :
      (space : ℕ) (w : World)
      → let (r, w') = unlock_resource_space p space w in
        (answer : Bool) × (r ≡ ok answer) × Step (table p w) (free_space space) answer (table p w')
  unfolding unlock_resource_space delete_config_map
  freeing space w =
      let (r, w') = p.delete_namespaced_config_map (get_space_name space) w in
      (equals_ok (deleted_code r), refl, freeing_by space w w' r refl)

  abbrev Simulates : Event → World → Type 0
  Simulates e w =
      let (r, w') = perform p e w in
      (answer : Bool) × (r ≡ ok answer) × Step (table p w) e answer (table p w')

  performing : (e : Event) (w : World) → Simulates e w
  unfolding perform create_resource_data_configmap unlock_resource_space unlock_cluster_resource
      delete_config_map
  performing (take_space s o u t) w =
      taking s o u t w _ (reserve_space_configmap-Acquires law s o u t w)
  performing (take_cluster name o u t) w =
      others_same (cluster_lock name o u t) w _ (λ n e. space_ne_cluster n name (sym e))
        (reserve_cluster_resource_configmap-Acquires law name o u t w)
  performing (put_data key o u content t) w =
      others_same _ w _ (λ n e. data_ne_space p key n e) (try_create-Acquires law _ w)
  performing (free_space s) w = freeing s w
  performing (free_cluster name) w = (
    _,
    refl,
    λ n. ap user_at (
        law.deleted (get_cluster_resource_name name) (get_space_name n) w
          (differs _ n (λ e. space_ne_cluster n name (sym e)))),
  )

  performing_each :
      (es : List Event) (w : World)
      → Steps (table p w) es (answers p es w) (table p (history p es w))
  unfolding history
  performing_each [] w = done
  performing_each (e ∷ es) w =
      let (answer, is, step) = performing e w in
      rw is (more answer step (performing_each es (perform p e w).1))

pub history-Steps :
    {p : Platform}
    → IsLawful p
    → IsDeleting p
    → (es : List Event) (w : p.World)
    → Steps (table p w) es (answers p es w) (table p (history p es w)) × Observes p (history p es w)
history-Steps {p} law deleting es w =
    (performing_each law deleting es w, observed p (history p es w))
