-- ===== src/Network/Threads/Distinct.antt =====
-- The ports that the threads find are different, whatever the schedule.
use ocudu_infra_srs.Prelude.{
  ℕ, ◌≡◌, ◌≢◌, refl, sym, ap, subst, ◌∙◌, inl, inr, none, some, List, [], ◌∷◌, if◌then◌else◌,
  Bool-cases, In, All,
}
use ocudu_infra_srs.Prelude.Text.{Text, text_eq, text_eq_refl, eq_of_text_eq}
use ocudu_infra_srs.Prelude.Action.{value_error}
use ocudu_infra_srs.Cluster.{Platform, manifest}
use ocudu_infra_srs.Cluster.Laws.{IsLawful, config_map_at}
use ocudu_infra_srs.Network.{get_port_configmap_name, port_config, possible_ports}
use ocudu_infra_srs.Network.Ports.{IsRandint, TakesPort, SameMaps}
use ocudu_infra_srs.Network.Threads.Turns.{Swap, first, later, Narrows, Move, turn-TurnEffect}
use ocudu_infra_srs.Network.Threads.{Search, searching, found, failed, turn, run}

Swap-All :
    {s t : Search} {ss ts : List Search} (P : Search → Type 0)
    → Swap s t ss ts
    → P t
    → All P ss
    → All P ts
Swap-All P first h k = (h, k.1)
Swap-All P (later x) h k = (k.0, Swap-All P x h k.1)

Swap-at :
    {s t : Search} {ss ts : List Search} (P : Search → Type 0) → Swap s t ss ts → All P ss → P s
Swap-at P first k = k.0
Swap-at P (later x) k = Swap-at P x k.1

abbrev pub Differs : Search → Search → Type 0
Differs (found m) (found n) = m ≢ n
Differs _ _ = Unit

-- No two threads found the same port.
abbrev pub AllDiffer : List Search → Type 0
AllDiffer [] = Unit
AllDiffer (s ∷ ss) = All (Differs s) ss × AllDiffer ss

Differs-sym : (s t : Search) → Differs s t → Differs t s
Differs-sym (found m) (found n) h = λ e. h (sym e)
Differs-sym (found m) (searching _) h = tt
Differs-sym (found m) (failed _) h = tt
Differs-sym (searching _) (found n) h = tt
Differs-sym (searching _) (searching _) h = tt
Differs-sym (searching _) (failed _) h = tt
Differs-sym (failed _) (found n) h = tt
Differs-sym (failed _) (searching _) h = tt
Differs-sym (failed _) (failed _) h = tt

Swap-AllDiffer :
    {s t : Search} {ss ts : List Search}
    → Swap s t ss ts
    → All (Differs t) ss
    → AllDiffer ss
    → AllDiffer ts
Swap-AllDiffer first h k = (h.1, k.1)
Swap-AllDiffer (later {u = u} x) h k =
    (Swap-All (Differs u) x (Differs-sym _ u h.0) k.0, Swap-AllDiffer x h.1 k.1)

All-imp :
    {P Q : Search → Type 0} (ss : List Search) → ((s : Search) → P s → Q s) → All P ss → All Q ss
All-imp [] f h = tt
All-imp (s ∷ ss) f h = (f s h.0, All-imp ss f h.1)

narrow-Differs :
    (ports : List ℕ) (t : Search) (ss : List Search) → Narrows ports t → All (Differs t) ss
narrow-Differs ports t [] narrow = tt
narrow-Differs ports (searching rest) (s ∷ ss) narrow =
    (tt, narrow-Differs ports (searching rest) ss narrow)
narrow-Differs ports (failed e) (s ∷ ss) narrow = (tt, narrow-Differs ports (failed e) ss narrow)
narrow-Differs ports (found n) (s ∷ ss) narrow = absurd narrow

module _ {p : Platform} (law : IsLawful p) (randint : ℕ → p.World → ℕ × p.World)
    (fair : IsRandint p randint) (orch_id user_name : Text) (w0 : p.World) where
  -- A port that was found lies in the range, was free at the start and is held now for the caller.
  abbrev pub Sound : p.World → Search → Type 0
  Sound w (searching ports) = (m : ℕ) → In m ports → In m possible_ports
  Sound w (found n) =
      In n possible_ports
      × (config_map_at p w0 (get_port_configmap_name n) ≡ none)
      × (config_map_at p w (get_port_configmap_name n)
          ≡ some (manifest (port_config orch_id user_name n)))
  Sound w (failed e) = (e ≡ value_error)

  pub record Invariant (ss : List Search) (w : p.World) : Type 0 where
    pub sound : All (Sound w) ss
    pub differ : AllDiffer ss
    pub older : (name : Text) → config_map_at p w name ≡ none → config_map_at p w0 name ≡ none

  same-Sound : (w w' : p.World) → SameMaps p w w' → (s : Search) → Sound w s → Sound w' s
  same-Sound w w' same (searching ports) h = h
  same-Sound w w' same (found n) (i, free, held) =
      (i, free, same (get_port_configmap_name n) ∙ held)
  same-Sound w w' same (failed e) h = h

  take-Sound :
      (n : ℕ) (w w' : p.World)
      → TakesPort p orch_id user_name n w w'
      → (s : Search) → Sound w s
      → Sound w' s × Differs (found n) s
  take-Sound n w w' take (searching ports) h = (h, tt)
  take-Sound n w w' take (failed e) h = (h, tt)
  take-Sound n w w' (free, put) (found m) (i, old, held) =
      let apart : get_port_configmap_name n ≢ get_port_configmap_name m = λ e.
        let clash : none ≡ some (manifest (port_config orch_id user_name m)) =
          sym free ∙ ap (config_map_at p w) e ∙ held in
        cc in
      elim (Bool-cases (text_eq (get_port_configmap_name n) (get_port_configmap_name m))) [
        | inl e ↦ absurd (apart (eq_of_text_eq _ _ e))
        | inr e ↦ (
          (i, old, put (get_port_configmap_name m) ∙ rw e held),
          λ k. apart (ap get_port_configmap_name k),
        )
      ]

  older_of :
      (n : ℕ) (w w' : p.World)
      → config_map_at p w (get_port_configmap_name n) ≡ none
      → ((name : Text)
          → config_map_at p w' name ≡ (
              if text_eq (get_port_configmap_name n) name
              then some (manifest (port_config orch_id user_name n))
              else config_map_at p w name))
      → (name : Text) → config_map_at p w' name ≡ none
      → ((name : Text) → config_map_at p w name ≡ none → config_map_at p w0 name ≡ none)
      → config_map_at p w0 name ≡ none
  older_of n w w' free put name h older =
      elim (Bool-cases (text_eq (get_port_configmap_name n) name)) [
        | inl e ↦
            let clash : some (manifest (port_config orch_id user_name n)) ≡ none =
              sym (put name ∙ rw e refl) ∙ h in
            cc
        | inr e ↦ older name (sym (put name ∙ rw e refl) ∙ h)
      ]

  narrow-Sound :
      (ports : List ℕ) (t : Search) (w : p.World)
      → Narrows ports t
      → ((m : ℕ) → In m ports → In m possible_ports)
      → Sound w t
  narrow-Sound ports (searching rest) w narrow h = λ m i. h m (narrow m i)
  narrow-Sound ports (failed e) w narrow h = narrow
  narrow-Sound ports (found n) w narrow h = absurd narrow

  Swap-Invariant :
      (ports : List ℕ) (t : Search) (ss ts : List Search) (w w' : p.World)
      → Swap (searching ports) t ss ts
      → Move p orch_id user_name ports t w w'
      → Invariant ss w
      → Invariant ts w'
  Swap-Invariant ports t ss ts w w' x (inl (n, e, i, (free, put))) inv =
      let both = All-imp ss (take-Sound n w w' (free, put)) inv.sound in
      let new : Sound w' (found n) = (
        Swap-at (Sound w) x inv.sound n i,
        inv.older (get_port_configmap_name n) free,
        put (get_port_configmap_name n) ∙ rw (text_eq_refl (get_port_configmap_name n)) refl,
      ) in
      record {
        sound = Swap-All (Sound w') x (subst (Sound w') (sym e) new) (All-imp ss (λ s h. h.0) both);
        differ =
            Swap-AllDiffer x
              (subst (λ u. All (Differs u) ss) (sym e) (All-imp ss (λ s h. h.1) both)) inv.differ;
        older = λ name h. older_of n w w' free put name h inv.older;
      }
  Swap-Invariant ports t ss ts w w' x (inr (same, narrow)) inv = record {
    sound =
        Swap-All (Sound w') x (narrow-Sound ports t w' narrow (Swap-at (Sound w) x inv.sound))
          (All-imp ss (same-Sound w w' same) inv.sound);
    differ = Swap-AllDiffer x (narrow-Differs ports t ss narrow) inv.differ;
    older = λ name h. inv.older name (sym (same name) ∙ h);
  }

  pub turn-Invariant :
      (i : ℕ) (ss : List Search) (w : p.World)
      → Invariant ss w
      → let (ts, w') = turn p randint orch_id user_name i ss w in Invariant ts w'
  turn-Invariant i ss w inv = elim (turn-TurnEffect law randint fair orch_id user_name i ss w) [
    | inl (e, k) ↦ rw (e, k) inv
    | inr (ports, t, x, move) ↦ Swap-Invariant ports t ss _ w _ x move inv
  ]

  pub run-Invariant :
      (schedule : List ℕ) (ss : List Search) (w : p.World)
      → Invariant ss w
      → let (ts, w') = run p randint orch_id user_name schedule ss w in Invariant ts w'
  unfolding run
  run-Invariant [] ss w inv = inv
  run-Invariant (i ∷ schedule) ss w inv = run-Invariant schedule _ _ (turn-Invariant i ss w inv)
