-- ===== src/Cluster/Growth.antt =====
-- Two things that actions on the cluster keep: the order of time, and the config maps that are there.
use ocudu_infra_srs.Prelude.{
  ◌≤◌, ◌≡◌, ◌∙◌, inl, inr, Bool, true, false, none, some, arith, if◌then◌else◌, Bool-cases,
}
use ocudu_infra_srs.Prelude.Text.{Text, text_eq, eq_of_text_eq}
use ocudu_infra_srs.Prelude.Action.{Result, ok, raised, Action, ◌>>=◌, and_then}
use ocudu_infra_srs.Cluster.{
  Platform, ConfigMap, ErrorCode, ConfigmapConfig, manifest, create_config_map,
}
use ocudu_infra_srs.Cluster.Laws.{
  IsLawful, config_map_at, CreateEffect, create_config_map-CreateEffect,
}

-- Every config map of `w` is there unchanged in `w'`.
abbrev pub Keeps : (p : Platform) → p.World → p.World → Type 0
Keeps p w w' =
    (n : Text) (m : ConfigMap) → config_map_at p w n ≡ some m → config_map_at p w' n ≡ some m

-- Wherever an action starts and however it ends, it does not end earlier.
abbrev pub Later : (p : Platform) {A : Type 0} → Action p.World A → Type 0
Later p m = (w : p.World) → p.now w ≤ p.now (m w).1

and_then-Later :
    (p : Platform) {A B : Type 0} (w : p.World) (f : A → Action p.World B) (r : Result A × p.World)
    → p.now w ≤ p.now r.1
    → ((a : A) → Later p (f a))
    → p.now w ≤ p.now (and_then f r).1
and_then-Later p w f (ok a, w') g h = omega (arith, h a w')
and_then-Later p w f (raised e, w') g h = g

pub >>=-Later :
    (p : Platform) {A B : Type 0} (m : Action p.World A) (f : A → Action p.World B)
    → Later p m
    → ((a : A) → Later p (f a))
    → Later p (m >>= f)
>>=-Later p m f g h w = and_then-Later p w f (m w) (g w) h

pub if-Later :
    (p : Platform) {A : Type 0} (b : Bool) (x y : Action p.World A)
    → Later p x
    → Later p y
    → Later p (if b then x else y)
if-Later p true x y g h = g
if-Later p false x y g h = h

-- A new config map replaces none.
pub put-Keeps :
    (p : Platform) (c : ConfigmapConfig) (w w' : p.World)
    → config_map_at p w c.name ≡ none
    → ((n : Text)
        → config_map_at p w' n
          ≡ (if text_eq c.name n then some (manifest c) else config_map_at p w n))
    → Keeps p w w'
put-Keeps p c w w' free put n m h = elim (Bool-cases (text_eq c.name n)) [
  | inl k ↦ let same : c.name ≡ n = eq_of_text_eq c.name n k in cc
  | inr k ↦ put n ∙ rw k h
]

module _ {p : Platform} (law : IsLawful p) where
  kept :
      (c : ConfigmapConfig) (w : p.World) (r : Result ErrorCode × p.World)
      → CreateEffect p c w r
      → Keeps p w r.1
  kept c w (r, w') (inl (e, free, put)) = put-Keeps p c w w' free put
  kept c w (r, w') (inr (code, e, no_ok, same)) = λ n m h. same n ∙ h

  pub create_config_map-Keeps :
      (c : ConfigmapConfig) (w : p.World) → Keeps p w (create_config_map p c w).1
  create_config_map-Keeps c w =
      kept c w (create_config_map p c w) (create_config_map-CreateEffect law c w)

  pub create_config_map-Later : (c : ConfigmapConfig) → Later p (create_config_map p c)
  unfolding create_config_map
  create_config_map-Later c w = law.create_later c.name (manifest c) w
