-- ===== src/Network/Threads/Turns.antt =====
-- What one turn does to the threads.
use ocudu_infra_srs.Prelude.{
  ℕ, zero, suc, ◌-◌, ◌≤◌, ◌≡◌, refl, sym, ap, subst, ◌⊎◌, inl, inr, List, [], ◌∷◌, arith, In,
  length,
}
use ocudu_infra_srs.Prelude.Text.{Text}
use ocudu_infra_srs.Prelude.Action.{Result, value_error}
use ocudu_infra_srs.Cluster.{Platform}
use ocudu_infra_srs.Cluster.Laws.{IsLawful, config_map_at}
use ocudu_infra_srs.Network.Ports.{
  IsRandint, TakesPort, SameMaps, RoundEffect, port_round-RoundEffect,
}
use ocudu_infra_srs.Network.Threads.{Search, searching, found, failed, settle, advance, turn}

-- The second list has `t` where the first has `s`.
pub data Swap (s t : Search) : List Search → List Search → Type 0 where
  first : {ss : List Search} → Swap s t (s ∷ ss) (t ∷ ss)
  later : {u : Search} {ss ts : List Search} → Swap s t ss ts → Swap s t (u ∷ ss) (u ∷ ts)

-- The rounds that a thread has left at most.
abbrev pub weight : Search → ℕ
weight (searching ports) = suc (length ports)
weight _ = 0

abbrev pub Narrows : List ℕ → Search → Type 0
Narrows ports (searching rest) = (m : ℕ) → In m rest → In m ports
Narrows ports (found n) = ⊥
Narrows ports (failed e) = (e ≡ value_error)

-- A thread that searched among `ports` has found one of them, or has fewer left and changed nothing.
abbrev pub Move : (p : Platform) → Text → Text → List ℕ → Search → p.World → p.World → Type 0
Move p orch_id user_name ports t w w' =
    ((n : ℕ) × (t ≡ found n) × In n ports × TakesPort p orch_id user_name n w w')
    ⊎ (SameMaps p w w' × Narrows ports t)

abbrev pub TurnEffect :
    (p : Platform) → Text → Text → List Search → p.World → List Search × p.World → Type 0
TurnEffect p orch_id user_name ss w (ts, w') =
    ((ts ≡ ss) × (w' ≡ w))
    ⊎ ((ports : List ℕ) × (t : Search) × Swap (searching ports) t ss ts
        × Move p orch_id user_name ports t w w')

-- The turn of one thread, alone.
abbrev AdvanceEffect : (p : Platform) → Text → Text → Search → p.World → Search × p.World → Type 0
AdvanceEffect p orch_id user_name s w (t, w') =
    ((t ≡ s) × (w' ≡ w))
    ⊎ ((ports : List ℕ) × (s ≡ searching ports) × Move p orch_id user_name ports t w w')

module _ {p : Platform} (law : IsLawful p) (randint : ℕ → p.World → ℕ × p.World)
    (fair : IsRandint p randint) (orch_id user_name : Text) where
  settle_effect :
      (ports : List ℕ) (w : p.World) (r : Result (ℕ ⊎ List ℕ) × p.World)
      → RoundEffect p orch_id user_name ports w r
      → AdvanceEffect p orch_id user_name (searching ports) w (settle p randint orch_id user_name r)
  settle_effect ports w (r, w') (inl (n, e, i, take)) =
      rw e (inr (ports, refl, inl (n, refl, i, take)))
  settle_effect ports w (r, w') (inr (inl (n, rest, v, e, pick, same, same', refused))) =
      rw e (inr (ports, refl, inr (same, pick.kept)))
  settle_effect ports w (r, w') (inr (inr (empty, e, still))) =
      rw e (inr (ports, refl, inr (λ name. ap (λ v. config_map_at p v name) (sym still), refl)))

  weight-settle :
      (ports : List ℕ) (w : p.World) (r : Result (ℕ ⊎ List ℕ) × p.World)
      → RoundEffect p orch_id user_name ports w r
      → weight (settle p randint orch_id user_name r).0 ≤ length ports
  weight-settle ports w (r, w') (inl (n, e, i, take)) = rw e (omega arith)
  weight-settle ports w (r, w') (inr (inl (n, rest, v, e, pick, same, same', refused))) =
      rw e (omega (arith, pick.shorter))
  weight-settle ports w (r, w') (inr (inr (empty, e, still))) = rw e (omega arith)

  pub weight-advance :
      (s : Search) (w : p.World) → weight (advance p randint orch_id user_name s w).0 ≤ weight s - 1
  unfolding advance
  weight-advance (searching ports) w = omega (
    arith,
    weight-settle ports w _ (port_round-RoundEffect law randint fair orch_id user_name ports w),
  )
  weight-advance (found n) w = omega arith
  weight-advance (failed e) w = omega arith

  advance_effect :
      (s : Search) (w : p.World)
      → AdvanceEffect p orch_id user_name s w (advance p randint orch_id user_name s w)
  unfolding advance
  advance_effect (searching ports) w =
      settle_effect ports w _ (port_round-RoundEffect law randint fair orch_id user_name ports w)
  advance_effect (found n) w = inl (refl, refl)
  advance_effect (failed e) w = inl (refl, refl)

  head_effect :
      (s : Search) (ss : List Search) (w : p.World) (r : Search × p.World)
      → AdvanceEffect p orch_id user_name s w r
      → TurnEffect p orch_id user_name (s ∷ ss) w (r.0 ∷ ss, r.1)
  head_effect s ss w (t, w') (inl (e, k)) = inl (ap (λ u. u ∷ ss) e, k)
  head_effect s ss w (t, w') (inr (ports, e, move)) =
      inr (ports, t, subst (λ u. Swap (searching ports) t (u ∷ ss) (t ∷ ss)) (sym e) first, move)

  tail_effect :
      (s : Search) (ss : List Search) (w : p.World) (r : List Search × p.World)
      → TurnEffect p orch_id user_name ss w r
      → TurnEffect p orch_id user_name (s ∷ ss) w (s ∷ r.0, r.1)
  tail_effect s ss w (ts, w') (inl (e, k)) = inl (ap (λ us. s ∷ us) e, k)
  tail_effect s ss w (ts, w') (inr (ports, t, x, move)) = inr (ports, t, later x, move)

  pub turn-TurnEffect :
      (i : ℕ) (ss : List Search) (w : p.World)
      → TurnEffect p orch_id user_name ss w (turn p randint orch_id user_name i ss w)
  unfolding turn
  turn-TurnEffect i [] w = inl (refl, refl)
  turn-TurnEffect zero (s ∷ ss) w = head_effect s ss w _ (advance_effect s w)
  turn-TurnEffect (suc i) (s ∷ ss) w = tail_effect s ss w _ (turn-TurnEffect i ss w)
