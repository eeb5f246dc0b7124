-- ===== src/Agent/Executor/Remote.antt =====
-- `_RemoteProcess` of executor.py: a process at the other end of an SSH channel. The channel is a parameter;
-- times are in milliseconds.
use ocudu_infra_srs.Prelude.{
  ℕ, zero, suc, ◌+◌, ◌-◌, ◌*◌, ◌≤◌, ◌<◌, ◌≡◌, refl, ◌⊎◌, inl, inr, Bool, true, false, not, ◌&&◌,
  Option, none, some, arith, if◌then◌else◌, leb, ltb, Bool-cases,
}
use ocudu_infra_srs.Prelude.Text.{Text}
use ocudu_infra_srs.Prelude.Int.{ℤ}
use ocudu_infra_srs.Prelude.Action.{Result, ok, raised, no_such_process, timeout_expired, Action}

-- The SSH client, its channel, `time` and `sleep`. `signal` is the exit status of `kill -<sig> <pid>`.
pub record Channel : Type 1 where
  pub World : Type 0
  pub now : World → ℕ
  pub sleep : ℕ → World → World
  pub exit_status_ready : World → Bool
  pub recv_exit_status : World → ℤ × World
  pub kill_status : ℕ → ℕ → World → ℕ × World

pub record RemoteProcess : Type 0 where
  pub name : Text
  pub pid : ℕ
  pub returncode : Option ℤ

module _ (channel : Channel) where
  open channel use {World, now}

  unfoldable pub is_running : World → Bool
  is_running w = not (channel.exit_status_ready w)

  -- The loop of `wait`; a timeout of 0 or None is none. `none` where the fuel runs out.
  unfoldable pub poll : ℕ → ℕ → ℕ → World → Option (Result {0} Unit × World)
  unfolding is_running
  poll zero timeout start_time w = none
  poll (suc fuel) timeout start_time w =
      let rest = poll fuel timeout start_time (channel.sleep 100 w) in
      if is_running w
      then (if ltb 0 timeout && leb timeout (now w - start_time)
          then some (raised timeout_expired, w)
          else rest)
      else some (ok tt, w)

  finish_wait :
      RemoteProcess → Option (Result {0} Unit × World) → Option (Result ℤ × RemoteProcess × World)
  finish_wait r none = none
  finish_wait r (some (raised e, w)) = some (raised e, r, w)
  finish_wait r (some (ok _, w)) =
      let (status, w') = channel.recv_exit_status w in
      some (ok status, record r { returncode = some status }, w')

  wait_code : Option ℤ → ℕ → ℕ → RemoteProcess → World → Option (Result ℤ × RemoteProcess × World)
  unfolding finish_wait
  wait_code (some code) fuel timeout r w = some (ok code, r, w)
  wait_code none fuel timeout r w = finish_wait r (poll fuel timeout (now w) w)

  unfoldable pub wait : ℕ → ℕ → RemoteProcess → World → Option (Result ℤ × RemoteProcess × World)
  unfolding wait_code
  wait fuel timeout r w = wait_code r.returncode fuel timeout r w

  unfoldable pub send_signal : RemoteProcess → ℕ → Action World Unit
  send_signal r sig w =
      let (status, w') = channel.kill_status sig r.pid w in
      if ltb 0 r.pid
      then (if ltb 0 status then (raised no_such_process, w') else (ok tt, w'))
      else (ok tt, w)

-- The second state is reached from the first by sleeps of a tenth of a second, each after a look at a process that was
-- still running.
pub data PollFrom (channel : Channel) : channel.World → channel.World → Type 0 where
  begun : {w : channel.World} → PollFrom channel w w
  again :
      {w u : channel.World}
      → channel.exit_status_ready w ≡ false
      → PollFrom channel (channel.sleep 100 w) u
      → PollFrom channel w u

-- How a wait ends: with the code that is kept already; or, as soon as a poll finds the process ended, with the status
-- that is received then, which the process keeps from then on; or with `timeout_expired` while the process still
-- runs, the process unchanged and the timeout passed.
abbrev pub WaitEnds :
    (channel : Channel)
    → ℕ
    → RemoteProcess
    → channel.World
    → Result ℤ × RemoteProcess × channel.World
    → Type 0
WaitEnds channel timeout r w (x, r', w') =
    ((code : ℤ) × (r.returncode ≡ some code) × (x ≡ ok code) × (r' ≡ r) × (w' ≡ w))
    ⊎ ((u : channel.World) × (r.returncode ≡ none)
        × PollFrom channel w u
        × (channel.exit_status_ready u ≡ true)
        × (x ≡ ok (channel.recv_exit_status u).0)
        × (r' ≡ record r { returncode = some (channel.recv_exit_status u).0 })
        × (w' ≡ (channel.recv_exit_status u).1))
    ⊎ ((r.returncode ≡ none)
        × PollFrom channel w w'
        × (channel.exit_status_ready w' ≡ false)
        × (x ≡ raised timeout_expired)
        × (r' ≡ r)
        × (channel.now w + timeout ≤ channel.now w'))

module _ (channel : Channel)
    (sleeps : (ms : ℕ) (w : channel.World)
      → channel.now w + ms ≤ channel.now (channel.sleep ms w)) where
  open channel use {World, now}

  PollEnds : ℕ → World → Result {0} Unit × World → Type 0
  PollEnds deadline w (r, u) =
      PollFrom channel w u
      × (((r ≡ ok tt) × (channel.exit_status_ready u ≡ true))
          ⊎ ((r ≡ raised timeout_expired)
              × (channel.exit_status_ready u ≡ false)
              × (deadline ≤ now u)))

  abbrev Polled : ℕ → ℕ → ℕ → World → Type 0
  Polled fuel timeout start w =
      (out : Result {0} Unit × World) × (poll channel fuel timeout start w ≡ some out)
      × PollEnds (start + timeout) w out

  round_ends :
      (timeout start fuel : ℕ) (w : World)
      → 0 < timeout
      → start ≤ now w
      → (leb timeout (now w - start) ≡ false → Polled fuel timeout start (channel.sleep 100 w))
      → Polled (suc fuel) timeout start w
  unfolding poll is_running PollEnds
  round_ends timeout start fuel w positive reached next =
      let test : ltb 0 timeout ≡ true = ground arith in
      elim (Bool-cases (channel.exit_status_ready w)) [
        | inl e ↦ ((ok tt, w), rw e refl, (begun, inl (refl, e)))
        | inr e ↦ elim (Bool-cases (leb timeout (now w - start))) [
          | inl late ↦ (
            (raised timeout_expired, w),
            rw (e, late, test) refl,
            (begun, inr (refl, e, ground arith)),
          )
          | inr early ↦
              let (out, k, ends) = next early in
              (out, rw (e, early, test) k, (again e ends.0, ends.1))
        ]
      ]

  poll_ends :
      (timeout start fuel : ℕ) (w : World)
      → 0 < timeout
      → start ≤ now w
      → start + timeout ≤ now w + fuel * 100
      → Polled (suc fuel) timeout start w
  poll_ends timeout start zero w positive reached h =
      round_ends timeout start zero w positive reached (λ early. absurd (ground arith))
  poll_ends timeout start (suc fuel) w positive reached h =
      round_ends timeout start (suc fuel) w positive reached (λ early.
        poll_ends timeout start fuel (channel.sleep 100 w) positive (omega (arith, sleeps 100 w))
          (omega (arith, sleeps 100 w)))

  wait_of :
      (timeout : ℕ) (r : RemoteProcess) (w : World) (o : Option (Result {0} Unit × World))
      (out : Result {0} Unit × World)
      → r.returncode ≡ none
      → o ≡ some out
      → PollEnds (now w + timeout) w out
      → (x : Result ℤ × RemoteProcess × World) × (finish_wait channel r o ≡ some x)
        × WaitEnds channel timeout r w x
  unfolding finish_wait PollEnds
  wait_of timeout r w o (x, w') fresh e (polled, inl (k, ended)) =
      let (status, v) = channel.recv_exit_status w' in
      rw (e, k)
        (
          (ok status, record r { returncode = some status }, v),
          refl,
          inr (inl (w', fresh, polled, ended, refl, refl, refl)),
        )
  wait_of timeout r w o (x, w') fresh e (polled, inr (k, runs, late)) =
      rw (e, k)
        ((raised timeout_expired, r, w'), refl, inr (inr (fresh, polled, runs, refl, refl, late)))

  cached :
      (fuel timeout : ℕ) (r : RemoteProcess) (w : World) (o : Option ℤ)
      → 0 < timeout
      → timeout ≤ fuel * 100
      → r.returncode ≡ o
      → (x : Result ℤ × RemoteProcess × World) × (wait_code channel o (suc fuel) timeout r w
          ≡ some x)
        × WaitEnds channel timeout r w x
  unfolding wait_code
  cached fuel timeout r w (some code) positive enough e =
      ((ok code, r, w), refl, inl (code, e, refl, refl, refl))
  cached fuel timeout r w none positive enough e =
      let (out, k, ends) =
        poll_ends timeout (now w) fuel w positive (omega arith) (omega (arith, enough)) in
      wait_of timeout r w _ out e k ends

pub wait-WaitEnds :
    (channel : Channel)
    → ((ms : ℕ) (w : channel.World) → channel.now w + ms ≤ channel.now (channel.sleep ms w))
    → (fuel timeout : ℕ) (r : RemoteProcess) (w : channel.World) → 0 < timeout
    → timeout ≤ fuel * 100
    → (x : Result ℤ × RemoteProcess × channel.World) × (wait channel (suc fuel) timeout r w
        ≡ some x)
      × WaitEnds channel timeout r w x
unfolding wait
wait-WaitEnds channel sleeps fuel timeout r w positive enough =
    cached channel sleeps fuel timeout r w r.returncode positive enough refl
