-- ===== src/Network/Threads/Fair.antt =====
-- `get_ports` ends when each thread gets its turns, and what it returns.
use ocudu_infra_srs.Prelude.{
  ℕ, zero, suc, ◌+◌, ◌≤◌, ◌<◌, ◌≡◌, ◌≢◌, refl, sym, ap, subst, ◌∙◌, ◌⊎◌, inl, inr, false, none,
  some, List, [], ◌∷◌, arith, ◌==◌, All, length, map,
}
use ocudu_infra_srs.Prelude.Text.{Text}
use ocudu_infra_srs.Prelude.Action.{Result, ok, raised, value_error}
use ocudu_infra_srs.Cluster.{Platform, manifest}
use ocudu_infra_srs.Cluster.Laws.{IsLawful, config_map_at}
use ocudu_infra_srs.Network.{
  number_port_init, number_of_ports, get_port_configmap_name, port_config, possible_ports,
}
use ocudu_infra_srs.Network.Draw.{possible_ports-In, length-possible_ports}
use ocudu_infra_srs.Network.Ports.{IsRandint}
use ocudu_infra_srs.Network.Threads.Turns.{weight, weight-advance}
use ocudu_infra_srs.Network.Threads.Distinct.{AllDiffer, Differs, Invariant, Sound, run-Invariant}
use ocudu_infra_srs.Network.Threads.{
  Search, searching, found, failed, replicate, turn, run, collect, with_first, joined, get_ports,
}

-- 1 where the indices are the same.
tick : ℕ → ℕ → ℕ
tick zero zero = 1
tick (suc i) (suc j) = tick i j
tick _ _ = 0

-- How many turns a schedule gives to a thread.
unfoldable pub turns : List ℕ → ℕ → ℕ
unfolding tick
turns [] j = 0
turns (i ∷ schedule) j = tick i j + turns schedule j

-- The threads have at least the turns that they need.
abbrev Paid : (ℕ → ℕ) → List Search → Type 0
Paid f [] = Unit
Paid f (s ∷ ss) = (weight s ≤ f 0) × Paid (λ j. f (suc j)) ss

Paid-mono : (f g : ℕ → ℕ) (ss : List Search) → ((j : ℕ) → f j ≤ g j) → Paid f ss → Paid g ss
Paid-mono f g [] h k = tt
Paid-mono f g (s ∷ ss) h k =
    (omega (arith, h 0, k.0), Paid-mono (λ j. f (suc j)) (λ j. g (suc j)) ss (λ j. h (suc j)) k.1)

-- All have ended, with ports or with ValueError.
abbrev Gathers : List Search → Result (List ℕ) → Type 0
Gathers ss r =
    ((ports : List ℕ) × (r ≡ ok ports) × (ss ≡ map found ports)) ⊎ (r ≡ raised value_error)

gather_cons :
    (n : ℕ) (ss : List Search) (r : Result (List ℕ))
    → collect ss ≡ some r
    → Gathers ss r
    → (r' : Result (List ℕ)) × (collect (found n ∷ ss) ≡ some r') × Gathers (found n ∷ ss) r'
unfolding collect with_first
gather_cons n ss r e (inl (ports, k, same)) =
    (ok (n ∷ ports), rw (e, k) refl, inl (n ∷ ports, refl, ap (λ us. found n ∷ us) same))
gather_cons n ss r e (inr k) = (raised value_error, rw (e, k) refl, inr refl)

gather_failed :
    (ss : List Search) (r : Result (List ℕ))
    → collect ss ≡ some r
    → Gathers ss r
    → collect (failed value_error ∷ ss) ≡ some (raised value_error)
unfolding collect with_first
gather_failed ss r e g = rw e refl

module _ {p : Platform} (law : IsLawful p) (randint : ℕ → p.World → ℕ × p.World)
    (fair : IsRandint p randint) (orch_id user_name : Text) where
  turn-Paid :
      (i : ℕ) (ss : List Search) (w : p.World) (f g : ℕ → ℕ)
      → ((j : ℕ) → f j ≤ tick i j + g j)
      → Paid f ss
      → Paid g (turn p randint orch_id user_name i ss w).0
  unfolding turn tick
  turn-Paid i [] w f g h k = tt
  turn-Paid zero (s ∷ ss) w f g h k = (
    omega (arith, weight-advance law randint fair orch_id user_name s w, h 0, k.0),
    Paid-mono (λ j. f (suc j)) (λ j. g (suc j)) ss (λ j. omega (arith, h (suc j))) k.1,
  )
  turn-Paid (suc i) (s ∷ ss) w f g h k = (
    omega (arith, h 0, k.0),
    turn-Paid i ss w (λ j. f (suc j)) (λ j. g (suc j)) (λ j. h (suc j)) k.1,
  )

  run-Paid :
      (schedule : List ℕ) (ss : List Search) (w : p.World)
      → Paid (turns schedule) ss
      → Paid (λ j. 0) (run p randint orch_id user_name schedule ss w).0
  unfolding run turns
  run-Paid [] ss w k = k
  run-Paid (i ∷ schedule) ss w k =
      run-Paid schedule _ _
        (turn-Paid i ss w (λ j. tick i j + turns schedule j) (turns schedule) (λ j. omega arith) k)

  gather :
      (w0 w : p.World) (ss : List Search)
      → Paid (λ j. 0) ss
      → All (Sound law randint fair orch_id user_name w0 w) ss
      → (r : Result (List ℕ)) × (collect ss ≡ some r) × Gathers ss r
  gather w0 w [] k h = (ok [], unfold collect in refl, inl ([], refl, refl))
  gather w0 w (searching ports ∷ ss) k h = absurd (omega (arith, k.0))
  gather w0 w (found n ∷ ss) k h = let (r, e, g) = gather w0 w ss k.1 h.1 in gather_cons n ss r e g
  gather w0 w (failed x ∷ ss) k h =
      let (r, e, g) = gather w0 w ss k.1 h.1 in
      (raised value_error, rw h.0 (gather_failed ss r e g), inr refl)

abbrev pub Different : List ℕ → Type 0
Different [] = Unit
Different (n ∷ ns) = All (λ m. n ≢ m) ns × Different ns

-- A port of the range that was free at the start and is held at the end for the caller.
abbrev pub IsTaken : (p : Platform) → Text → Text → p.World → p.World → ℕ → Type 0
IsTaken p orch_id user_name w w' n =
    (number_port_init ≤ n)
    × (n < number_port_init + number_of_ports)
    × (config_map_at p w (get_port_configmap_name n) ≡ none)
    × (config_map_at p w' (get_port_configmap_name n)
        ≡ some (manifest (port_config orch_id user_name n)))

abbrev pub PortsOutcome :
    (p : Platform) → Text → Text → ℕ → p.World → Result (List ℕ) × p.World → Type 0
PortsOutcome p orch_id user_name nof_ports w (r, w') =
    ((ports : List ℕ) × (r ≡ ok ports)
      × (length ports ≡ nof_ports)
      × Different ports
      × All (IsTaken p orch_id user_name w w') ports)
    ⊎ (r ≡ raised value_error)

Differs-found : (n : ℕ) (ns : List ℕ) → All (Differs (found n)) (map found ns) → All (λ m. n ≢ m) ns
Differs-found n [] h = tt
Differs-found n (m ∷ ms) h = (h.0, Differs-found n ms h.1)

AllDiffer-Different : (ns : List ℕ) → AllDiffer (map found ns) → Different ns
AllDiffer-Different [] h = tt
AllDiffer-Different (n ∷ ns) h = (Differs-found n ns h.0, AllDiffer-Different ns h.1)

length-found : (ns : List ℕ) → length (map found ns) ≡ length ns
length-found [] = refl
length-found (n ∷ ns) = ap suc (length-found ns)

module _ {p : Platform} (law : IsLawful p) (randint : ℕ → p.World → ℕ × p.World)
    (fair : IsRandint p randint) (orch_id user_name : Text) where
  IsTaken-found :
      (w w' : p.World) (ns : List ℕ)
      → All (Sound law randint fair orch_id user_name w w') (map found ns)
      → All (IsTaken p orch_id user_name w w') ns
  IsTaken-found w w' [] h = tt
  IsTaken-found w w' (n ∷ ns) h =
      let (i, free, held) = h.0 in
      let (a, b) = possible_ports-In n i in ((a, b, free, held), IsTaken-found w w' ns h.1)

  start-Invariant :
      (nof : ℕ) (w : p.World)
      → Invariant law randint fair orch_id user_name w (replicate nof (searching possible_ports)) w
  start-Invariant nof w = record {
    sound = all_sound nof;
    differ = all_differ nof;
    older = λ name h. h;
  }
    where
      all_sound :
          (n : ℕ)
          → All
              (Sound law randint fair orch_id user_name w w)
              (replicate n (searching possible_ports))
      all_sound zero = tt
      all_sound (suc n) = (λ m i. i, all_sound n)

      none_found :
          (n : ℕ)
          → All (Differs (searching possible_ports)) (replicate n (searching possible_ports))
      none_found zero = tt
      none_found (suc n) = (tt, none_found n)

      all_differ : (n : ℕ) → AllDiffer (replicate n (searching possible_ports))
      all_differ zero = tt
      all_differ (suc n) = (none_found n, all_differ n)

  length-turn :
      (i : ℕ) (ss : List Search) (w : p.World)
      → length (turn p randint orch_id user_name i ss w).0 ≡ length ss
  unfolding turn
  length-turn i [] w = refl
  length-turn zero (s ∷ ss) w = refl
  length-turn (suc i) (s ∷ ss) w = ap suc (length-turn i ss w)

  length-run :
      (schedule : List ℕ) (ss : List Search) (w : p.World)
      → length (run p randint orch_id user_name schedule ss w).0 ≡ length ss
  unfolding run
  length-run [] ss w = refl
  length-run (i ∷ schedule) ss w = length-run schedule _ _ ∙ length-turn i ss w

  outcome_of :
      (nof : ℕ) (w w' : p.World) (ss : List Search) (r : Result (List ℕ))
      → length ss ≡ nof
      → Invariant law randint fair orch_id user_name w ss w'
      → Gathers ss r
      → PortsOutcome p orch_id user_name nof w (r, w')
  outcome_of nof w w' ss r len inv (inl (ports, e, same)) = inl (
    ports,
    e,
    sym (length-found ports) ∙ ap length (sym same) ∙ len,
    AllDiffer-Different ports (subst AllDiffer same inv.differ),
    IsTaken-found w w' ports
        (subst (All (Sound law randint fair orch_id user_name w w')) same inv.sound),
  )
  outcome_of nof w w' ss r len inv (inr e) = inr e

  start-Paid :
      (nof : ℕ) (f : ℕ → ℕ)
      → ((j : ℕ) → j < nof → 701 ≤ f j)
      → Paid f (replicate nof (searching possible_ports))
  start-Paid zero f h = tt
  start-Paid (suc n) f h = (
    omega (arith, h 0 (omega arith), length-possible_ports),
    start-Paid n (λ j. f (suc j)) (λ j k. h (suc j) (omega arith)),
  )

  length-replicate : (n : ℕ) (s : Search) → length (replicate n s) ≡ n
  length-replicate zero s = refl
  length-replicate (suc n) s = ap suc (length-replicate n s)

  ended :
      (schedule : List ℕ) (nof : ℕ) (w : p.World)
      → ((j : ℕ) → j < nof → 701 ≤ turns schedule j)
      → let (ss, w') =
          run p randint orch_id user_name schedule (replicate nof (searching possible_ports)) w in
        (r : Result (List ℕ)) × (collect ss ≡ some r)
        × PortsOutcome p orch_id user_name nof w (r, w')
  ended schedule nof w h =
      let threads = replicate nof (searching possible_ports) in
      let inv =
        run-Invariant law randint fair orch_id user_name w schedule threads w
          (start-Invariant nof w) in
      let paid =
        run-Paid law randint fair orch_id user_name schedule threads w
          (start-Paid nof (turns schedule) h) in
      let (r, e, g) = gather law randint fair orch_id user_name w _ _ paid inv.sound in
      (r, e, outcome_of nof w _ _ r (length-run schedule threads w ∙ length-replicate nof _) inv g)

-- get_ports ends under every schedule that gives each thread 701 turns. It returns as many ports as were asked for,
-- all different, each from 32000 to 32699, free at the start and held for the caller at the end, or
-- raises ValueError.
pub get_ports_total :
    {p : Platform}
    → IsLawful p
    → (randint : ℕ → p.World → ℕ × p.World) → IsRandint p randint
    → (orch_id user_name : Text) (schedule : List ℕ) (nof_ports : ℕ) (w : p.World)
    → ((j : ℕ) → j < nof_ports → 701 ≤ turns schedule j)
    → (r : Result (List ℕ) × p.World) × (get_ports p randint orch_id user_name schedule nof_ports w
        ≡ some r)
      × PortsOutcome p orch_id user_name nof_ports w r
unfolding get_ports joined
get_ports_total law randint fair orch_id user_name schedule zero w h =
    ((ok [], w), refl, inl ([], refl, refl, tt, tt))
get_ports_total law randint fair orch_id user_name schedule (suc n) w h =
    let (r, e, out) = ended law randint fair orch_id user_name schedule (suc n) w h in
    let busy : (suc n == 0) ≡ false = ground arith in ((r, _), rw (busy, e) refl, out)
