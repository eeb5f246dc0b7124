-- ===== src/Agent/Executor/Stop.antt =====
-- How `exit_process` ends.
use ocudu_infra_srs.Prelude.{
  ℕ, zero, suc, ◌+◌, ◌*◌, ◌≤◌, ◌<◌, ◌≡◌, ◌≢◌, refl, sym, ap, subst, ◌∙◌, ◌⊎◌, inl, inr, Bool, true,
  false, ◌&&◌, Option, none, some, arith, Bool-cases,
}
use ocudu_infra_srs.Prelude.Text.{Text, text}
use ocudu_infra_srs.Prelude.Int.{ℤ, pos, negsuc}
use ocudu_infra_srs.Prelude.Action.{
  Result, ok, raised, Exception, timeout_error, system_error, no_such_process, timeout_expired,
  ◌>>◌, and_then, pure,
}
use ocudu_infra_srs.Agent.Time.{timeout_handler, not_reached_late, not_reached_early}
use ocudu_infra_srs.Agent.Executor.{
  ProcessLike, control_c_signal, suppress, on_expired, on_stop, on_debug, returned, process_wait,
  found_path, find_in_path, wait_round, after_wait, wait_loop, suppressed, then_wait, stop_phase,
  debug_phase, code_of, last_wait, kill_phase, unless_returned, exit_process,
}

-- `wait` raises only `timeout_expired`, and that not before the time it was given; a process that has ended
-- is answered with a code or with None. `name` raises only `no_such_process`. The clock does not run backwards.
pub record IsProcess (process : ProcessLike) : Type 0 where
  pub wait_raises :
      (ms : ℕ) (w w' : process.World) (e : Exception)
      → process.wait ms w ≡ (raised e, w')
      → (e ≡ timeout_expired) × (process.now w + ms ≤ process.now w')
  pub name_raises :
      (w w' : process.World) (e : Exception) → process.name w ≡ (raised e, w') → e ≡ no_such_process
  pub gdb_later : (w : process.World) → process.now w ≤ process.now (process.run_gdb w).1
  pub name_later : (w : process.World) → process.now w ≤ process.now (process.name w).1
  pub signal_later :
      (s : ℕ) (w : process.World) → process.now w ≤ process.now (process.send_signal s w).1

-- The exit code that a wait stands for: none is 0.
abbrev pub status : Option ℤ → ℤ
status none = pos 0
status (some code) = code

-- A wait of the process ended in time and gave the code.
abbrev pub Waited : (process : ProcessLike) → ℕ → Result ℤ × process.World → Type 0
Waited process check (r, w') =
    (o : Option ℤ) × (v : process.World) × (r ≡ ok (status o)) × (process.wait check v ≡ (ok o, w'))

-- The process is sent SIGKILL, and waited for once more: the result is the code of that wait, or -9 when the process
-- is still alive. An exception of sending SIGKILL goes on unless it is a SystemError or NoSuchProcess.
abbrev pub Killed : (process : ProcessLike) → ℕ → process.World → Result ℤ × process.World → Type 0
Killed process check v (r, w') =
    ((e : Exception) × (process.kill v ≡ (raised e, w'))
      × (e ≢ system_error)
      × (e ≢ no_such_process)
      × (r ≡ raised e))
    ⊎ ((u : process.World) × ((process.kill v ≡ (ok tt, u))
          ⊎ ((process.kill v ≡ (raised system_error, u))
              ⊎ (process.kill v ≡ (raised no_such_process, u))))
        × (((o : Option ℤ) × (process.wait check u ≡ (ok o, w')) × (r ≡ ok (status o)))
            ⊎ ((process.wait check u ≡ (raised timeout_expired, w')) × (r ≡ ok (negsuc 8)))))

-- From the first world to the second: either the timeout has passed, or the signal could not be sent.
abbrev pub Due : (process : ProcessLike) → ℕ → process.World → process.World → Type 0
Due process timeout w v =
    (process.now w + timeout ≤ process.now v)
    ⊎ ((e : Exception) × ((process.send_signal control_c_signal w).0 ≡ raised e))

-- The code comes from a wait, or the process was killed when it was due, or what was raised is no
-- TimeoutError.
abbrev pub ExitFrom :
    (process : ProcessLike) → ℕ → ℕ → process.World → Result ℤ × process.World → Type 0
ExitFrom process timeout check w (r, w') =
    Waited process check (r, w')
    ⊎ ((v : process.World) × Due process timeout w v × Killed process check v (r, w'))
    ⊎ ((e : Exception) × (r ≡ raised e) × (e ≢ timeout_error))

module _ {process : ProcessLike} (law : IsProcess process) where
  open process use {World, now}

  status_of : (o : Option ℤ) → code_of process o ≡ status o
  unfolding code_of
  status_of none = refl
  status_of (some c) = refl

  Waited-then :
      (check : ℕ) (code : ℤ) (v w' : World) (x : Result (Option ℤ) × World)
      → process.wait check v ≡ x
      → and_then (λ o. pure (code_of process o)) x ≡ (ok code, w')
      → Waited process check (ok code, w')
  Waited-then check code v w' (raised e, u) same h = cc
  Waited-then check code v w' (ok o, u) same h = (
    o,
    v,
    sym (ap (λ x. x.0) h) ∙ ap ok (status_of o),
    same ∙ ap (λ (x : Result ℤ × World). (ok o, x.1)) h,
  )

  Waited-of :
      (check : ℕ) (code : ℤ) (v w' : World)
      → process_wait process check v ≡ (ok code, w')
      → Waited process check (ok code, w')
  unfolding process_wait
  Waited-of check code v w' e = Waited-then check code v w' (process.wait check v) refl e

  killed_wait :
      (check : ℕ) (u : World) (x : Result (Option ℤ) × World)
      → process.wait check u ≡ x
      → let (r, w') = last_wait process check u in
        ((o : Option ℤ) × (process.wait check u ≡ (ok o, w')) × (r ≡ ok (status o)))
        ⊎ ((process.wait check u ≡ (raised timeout_expired, w')) × (r ≡ ok (negsuc 8)))
  unfolding last_wait process_wait
  killed_wait check u (ok none, w') e = rw e (inl (none, refl, refl))
  killed_wait check u (ok (some c), w') e = rw e (inl (some c, refl, refl))
  killed_wait check u (raised x, w') e =
      let (same, _) = law.wait_raises check u w' x e in rw (e, same) (inr (refl, refl))

  killed :
      (check : ℕ) (v : World) (k : Result {0} Unit × World)
      → process.kill v ≡ k
      → Killed process check v (kill_phase process check v)
  unfolding kill_phase
  killed check v (ok _, u) e =
      rw e (inr (u, inl refl, killed_wait check u (process.wait check u) refl))
  killed check v (raised system_error, u) e =
      rw e (inr (u, inr (inl refl), killed_wait check u (process.wait check u) refl))
  killed check v (raised no_such_process, u) e =
      rw e (inr (u, inr (inr refl), killed_wait check u (process.wait check u) refl))
  killed check v (raised x, u) e = rw e (inl (x, refl, cc, cc, refl))

  -- One round: it returns with the code of the process, goes on when the wait took its time, or finds the
  -- deadline reached.
  abbrev RoundEnds : ℕ → ℕ → World → Result (Option ℤ) × World → Type 0
  RoundEnds deadline check w (r, w') =
      ((code : ℤ) × (r ≡ ok (some code)) × (process_wait process check w ≡ (ok code, w')))
      ⊎ ((r ≡ ok none) × (now w + check ≤ now w') × (now w < deadline))
      ⊎ ((r ≡ raised timeout_error) × (w ≡ w') × (deadline ≤ now w))

  wait_ends :
      (deadline check : ℕ) (w : World) (r : Result (Option ℤ) × World)
      → now w < deadline
      → process.wait check w ≡ r
      → RoundEnds deadline check w (suppress on_expired (returned (process_wait process check) w))
  unfolding process_wait
  wait_ends deadline check w (ok code, w') h e = rw e (inl (_, refl, refl))
  wait_ends deadline check w (raised x, w') h e =
      let (same, late) = law.wait_raises check w w' x e in rw (e, same) (inr (inl (refl, late, h)))

  round_ends :
      (timeout start check : ℕ) (w : World)
      → RoundEnds
          (start + suc timeout)
          check
          w
          (wait_round process (timeout_handler (some (pos (suc timeout))) start) check w)
  unfolding wait_round
  round_ends timeout start check w = elim (cases (start + suc timeout) (now w)) [
    | inl h ↦ rw (not_reached_late timeout start (now w) h) (inr (inr (refl, refl, h)))
    | inr h ↦
        rw (not_reached_early timeout start (now w) h)
          (wait_ends (start + suc timeout) check w (process.wait check w) h refl)
  ]
    where
      cases : (a b : ℕ) → (a ≤ b) ⊎ (b < a)
      cases a b = omega arith

  -- The loop ends with the code of the process, or with TimeoutError from the deadline on.
  abbrev LoopEnds : ℕ → ℕ → Result (Option ℤ) × World → Type 0
  LoopEnds deadline check (r, w') =
      ((code : ℤ) × (v : World) × (r ≡ ok (some code))
        × (process_wait process check v ≡ (ok code, w')))
      ⊎ ((r ≡ raised timeout_error) × (deadline ≤ now w'))

  loop_step :
      (deadline check : ℕ) (w : World) (again : World → Option (Result (Option ℤ) × World))
      (r : Result (Option ℤ) × World)
      → ((v : World)
          → now w + check ≤ now v
          → now w < deadline
          → (out : Result (Option ℤ) × World) × (again v ≡ some out) × LoopEnds deadline check out)
      → RoundEnds deadline check w r
      → (out : Result (Option ℤ) × World) × (after_wait process again r ≡ some out)
        × LoopEnds deadline check out
  loop_step deadline check w again (r, w') ih (inl (code, e, waited)) =
      rw e ((ok (some code), w'), refl, inl (code, w, refl, waited))
  loop_step deadline check w again (r, w') ih (inr (inl (e, late, early))) = rw e (ih w' late early)
  loop_step deadline check w again (r, w') ih (inr (inr (e, same, late))) =
      rw e ((raised timeout_error, w'), refl, inr (refl, subst (λ v. deadline ≤ now v) same late))

  -- One round for each time of a wait up to the deadline, and one more, are enough.
  wait_loop_ends :
      (timeout start check fuel : ℕ) (w : World)
      → start + suc timeout ≤ now w + fuel * check
      → (out : Result (Option ℤ) × World) × (wait_loop process
            (timeout_handler (some (pos (suc timeout))) start)
            check
            (suc fuel)
            w
          ≡ some out)
        × LoopEnds (start + suc timeout) check out
  unfolding wait_loop
  wait_loop_ends timeout start check zero w h =
      loop_step (start + suc timeout) check w _ _ (λ v late early. absurd (omega arith))
        (round_ends timeout start check w)
  wait_loop_ends timeout start check (suc fuel) w h =
      loop_step (start + suc timeout) check w _ _
        (λ v late early. wait_loop_ends timeout start check fuel v (omega arith))
        (round_ends timeout start check w)

  -- A phase returns the code of the process, is over by the time in `Over`, or raises what it does not
  -- catch.
  abbrev PhaseEnds : ℕ → (World → Type 0) → Result (Option ℤ) × World → Type 0
  PhaseEnds check Over (r, w') =
      ((code : ℤ) × (v : World) × (r ≡ ok (some code))
        × (process_wait process check v ≡ (ok code, w')))
      ⊎ ((r ≡ ok none) × Over w')
      ⊎ ((e : Exception) × (r ≡ raised e) × (e ≢ timeout_error))

  abbrev PhaseResult : ℕ → (World → Type 0) → Option (Result (Option ℤ) × World) → Type 0
  PhaseResult check Over o =
      (out : Result (Option ℤ) × World) × (o ≡ some out) × PhaseEnds check Over out

  loop_phase :
      (caught : Exception → Bool) (deadline check : ℕ) (Over : World → Type 0)
      (o : Option (Result (Option ℤ) × World)) (out : Result (Option ℤ) × World)
      → caught timeout_error ≡ true
      → ((v : World) → deadline ≤ now v → Over v)
      → o ≡ some out
      → LoopEnds deadline check out
      → PhaseResult check Over (suppressed process caught o)
  unfolding suppressed
  loop_phase caught deadline check Over o (r, w') c over e (inl (code, v, k, waited)) =
      rw (e, k) ((ok (some code), w'), refl, inl (code, v, refl, waited))
  loop_phase caught deadline check Over o (r, w') c over e (inr (k, late)) =
      rw (e, k) ((ok none, w'), rw c refl, inr (inl (refl, over w' late)))

  raised_phase :
      (caught : Exception → Bool) (check : ℕ) (Over : World → Type 0) (e : Exception) (w' : World)
      → caught timeout_error ≡ true
      → Over w'
      → PhaseResult check Over (suppressed process caught (some (raised e, w')))
  unfolding suppressed
  raised_phase caught check Over e w' c over = elim (Bool-cases (caught e)) [
    | inl k ↦ ((ok none, w'), rw k refl, inr (inl (refl, over)))
    | inr k ↦ (
      (raised e, w'),
      rw k refl,
      inr (
          inr (e, refl, λ same. let clash : true ≡ false = sym c ∙ ap caught (sym same) ∙ k in cc)),
    )
  ]

  module _ (timeout check fuel : ℕ) (enough : suc timeout ≤ fuel * check) where
    then_phase :
        (caught : Exception → Bool) (Over : World → Type 0) (r : Result {0} Unit × World)
        → caught timeout_error ≡ true
        → ((v : World) → now r.1 + suc timeout ≤ now v → Over v)
        → ((e : Exception) → r.0 ≡ raised e → Over r.1)
        → PhaseResult check Over
            (suppressed process caught (then_wait process (suc fuel) (pos (suc timeout)) check r))
    unfolding then_wait
    then_phase caught Over (ok _, w) c over fell =
        let (out, e, ends) = wait_loop_ends timeout (now w) check fuel w (omega (arith, enough)) in
        loop_phase caught (now w + suc timeout) check Over _ out c over e ends
    then_phase caught Over (raised x, w) c over fell =
        raised_phase caught check Over x w c (fell x refl)

    stop_phase_ends :
        (w : World)
        → PhaseResult check
            (λ v. Due process (suc timeout) w v × (now w ≤ now v))
            (stop_phase process (suc fuel) (pos (suc timeout)) check w)
    unfolding stop_phase
    stop_phase_ends w =
        let later = law.signal_later control_c_signal w in
        then_phase on_stop (λ v. Due process (suc timeout) w v × (now w ≤ now v))
          (process.send_signal control_c_signal w) refl
          (λ v h. (inl (omega (arith, later, h)), omega (arith, later, h)))
          (λ e k. (inr (e, k), later))

    path_later :
        (o : Option Text) (w : World) → now w ≤ now ((found_path process o >> process.run_gdb) w).1
    unfolding found_path
    path_later none w = omega arith
    path_later (some path) w = law.gdb_later w

    debug_later :
        (w : World) → now w ≤ now ((find_in_path process (text "gdb") >> process.run_gdb) w).1
    unfolding find_in_path
    debug_later w =
        elim (Bool-cases (process.is_absolute (text "gdb") && process.exists (text "gdb") w)) [
          | inl e ↦ rw e (law.gdb_later w)
          | inr e ↦ rw e (path_later (process.which (text "gdb") w) w)
        ]

    debug_phase_ends :
        (w : World)
        → PhaseResult check
            (λ v. now w ≤ now v)
            (debug_phase process (suc fuel) (pos (suc timeout)) check w)
    unfolding debug_phase
    debug_phase_ends w =
        let later = debug_later w in
        then_phase on_debug (λ v. now w ≤ now v) _ refl (λ v h. omega (arith, later, h))
          (λ e k. later)

    Due-mono :
        {w u v : World}
        → Due process (suc timeout) w u
        → now u ≤ now v
        → Due process (suc timeout) w v
    Due-mono (inl h) k = inl (omega arith)
    Due-mono (inr h) k = inr h

    after_debug :
        (w u : World) (out : Result (Option ℤ) × World)
        → Due process (suc timeout) w u
        → PhaseEnds check (λ v. now u ≤ now v) out
        → (r : Result ℤ × World) × (unless_returned process
              (λ x. some (kill_phase process check x))
              (some out)
            ≡ some r)
          × ExitFrom process (suc timeout) check w r
    after_debug w u (o, v) due (inl (code, x, e, waited)) =
        rw e ((ok code, v), refl, inl (Waited-of check code x v waited))
    after_debug w u (o, v) due (inr (inl (e, over))) = rw e (
      kill_phase process check v,
      refl,
      inr (inl (v, Due-mono due over, killed check v (process.kill v) refl)),
    )
    after_debug w u (o, v) due (inr (inr (x, e, other))) =
        rw e ((raised x, v), refl, inr (inr (x, refl, other)))

    abbrev Concludes : World → Option (Result ℤ × World) → Type 0
    Concludes w o = (r : Result ℤ × World) × (o ≡ some r) × ExitFrom process (suc timeout) check w r

    after_stop :
        (w : World) (out : Result (Option ℤ) × World)
        → PhaseEnds check (λ v. Due process (suc timeout) w v × (now w ≤ now v)) out
        → Concludes w (
            unless_returned process
              (λ u.
                unless_returned process
                  (λ x. some (kill_phase process check x))
                  (debug_phase process (suc fuel) (pos (suc timeout)) check u))
              (some out))
    after_stop w (o, v) (inl (code, x, e, waited)) =
        rw e ((ok code, v), refl, inl (Waited-of check code x v waited))
    after_stop w (o, v) (inr (inl (e, (due, late)))) =
        let (out, k, ends) = debug_phase_ends v in rw (e, k) (after_debug w v out due ends)
    after_stop w (o, v) (inr (inr (x, e, other))) =
        rw e ((raised x, v), refl, inr (inr (x, refl, other)))

    name_phase :
        (w : World) (r : Result Text × World)
        → process.name w ≡ r
        → Concludes r.1 (exit_process process (suc fuel) (pos (suc timeout)) check w)
    unfolding exit_process
    name_phase w (ok name, v) e =
        let (out, k, ends) = stop_phase_ends v in rw e (rw k (after_stop v out ends))
    name_phase w (raised x, v) e =
        let same = law.name_raises w v x e in
        let (out, k, ends) = stop_phase_ends v in rw (e, same) (rw k (after_stop v out ends))

-- With a positive timeout, waits that take their time and enough rounds for it, exit_process always ends. It
-- returns the code that a wait of the process gave; or the process was sent SIGKILL, not before the timeout had
-- passed since the name was read unless the first signal could not be sent, and the result is that of the last wait
-- or -9; or an exception goes on that is no TimeoutError.
pub exit_process-ExitFrom :
    {process : ProcessLike}
    → IsProcess process
    → (timeout check fuel : ℕ) → suc timeout ≤ fuel * check
    → (w : process.World)
    → (r : Result ℤ × process.World) × (exit_process process (suc fuel) (pos (suc timeout)) check w
        ≡ some r)
      × ExitFrom process (suc timeout) check (process.name w).1 r
exit_process-ExitFrom {process} law timeout check fuel enough w =
    name_phase law timeout check fuel enough w (process.name w) refl
