-- ===== src/Network/Threads.antt =====
-- `get_ports` of orchestration_network.py: threads that reserve ports at once. A schedule says whose turn
-- is next; a turn is one round of the loop of `reserve_port`, in which one config map is created.
pub mod Turns
pub mod Distinct
pub mod Fair
use ocudu_infra_srs.Prelude.{
  ℕ, zero, suc, ◌⊎◌, inl, inr, Option, none, some, List, [], ◌∷◌, ◌==◌, if◌then◌else◌,
}
use ocudu_infra_srs.Prelude.Text.{Text}
use ocudu_infra_srs.Prelude.Action.{Result, ok, raised, Exception}
use ocudu_infra_srs.Cluster.{Platform}
use ocudu_infra_srs.Network.{port_round, possible_ports}

-- A thread in `reserve_port`: the ports it has not tried, or how it ended.
pub data Search : Type 0 where
  searching : List ℕ → Search
  found : ℕ → Search
  failed : Exception → Search

abbrev pub replicate : ℕ → Search → List Search
replicate zero s = []
replicate (suc n) s = s ∷ replicate n s

-- The results in the order of the threads, once all have ended; the first exception is raised again.
with_first : Search → Option (Result (List ℕ)) → Option (Result (List ℕ))
with_first (searching ports) _ = none
with_first _ none = none
with_first (failed e) (some _) = some (raised e)
with_first (found n) (some (ok ports)) = some (ok (n ∷ ports))
with_first (found n) (some (raised e)) = some (raised e)

unfoldable pub collect : List Search → Option (Result (List ℕ))
unfolding with_first
collect [] = some (ok [])
collect (s ∷ ss) = with_first s (collect ss)

module _ (p : Platform) (randint : ℕ → p.World → ℕ × p.World) (orch_id user_name : Text) where
  open p use {World}

  abbrev pub settle : Result (ℕ ⊎ List ℕ) × World → Search × World
  settle (ok (inl n), w) = (found n, w)
  settle (ok (inr rest), w) = (searching rest, w)
  settle (raised e, w) = (failed e, w)

  unfoldable pub advance : Search → World → Search × World
  advance (searching ports) w = settle (port_round p randint orch_id user_name ports w)
  advance s w = (s, w)

  -- The turn of the thread with the given index.
  unfoldable pub turn : ℕ → List Search → World → List Search × World
  turn i [] w = ([], w)
  turn zero (s ∷ ss) w = let (s', w') = advance s w in (s' ∷ ss, w')
  turn (suc i) (s ∷ ss) w = let (ss', w') = turn i ss w in (s ∷ ss', w')

  unfoldable pub run : List ℕ → List Search → World → List Search × World
  run [] ss w = (ss, w)
  run (i ∷ schedule) ss w = let (ss', w') = turn i ss w in run schedule ss' w'

  joined : Option (Result (List ℕ)) → World → Option (Result (List ℕ) × World)
  joined none w = none
  joined (some r) w = some (r, w)

  -- `none` where the schedule stops before all threads have ended.
  unfoldable pub get_ports : List ℕ → ℕ → World → Option (Result (List ℕ) × World)
  unfolding joined
  get_ports schedule nof_ports w =
      let (ss, w') = run schedule (replicate nof_ports (searching possible_ports)) w in
      if nof_ports == 0 then some (ok [], w) else joined (collect ss) w'
