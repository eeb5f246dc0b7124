-- ===== src/Agent/Executor.antt =====
-- retina/agent/src/retina/agent/features/executor.py: `LocalExecutor.exit_process` and what it calls. The process, the
-- file system and the run of gdb are parameters; times are in milliseconds.
pub mod Stop
pub mod Remote
use ocudu_infra_srs.Prelude.{
  ℕ, zero, suc, Bool, true, false, not, ◌&&◌, Option, none, some, if◌then◌else◌,
}
use ocudu_infra_srs.Prelude.Text.{Text, text}
use ocudu_infra_srs.Prelude.Int.{ℤ, pos, negsuc}
use ocudu_infra_srs.Prelude.Action.{
  Result, ok, raised, Exception, timeout_error, system_error, file_not_found_error,
  child_process_error, no_such_process, timeout_expired, Action, pure, raise, ◌>>=◌, ◌>>◌,
}
use ocudu_infra_srs.Agent.Time.{TimeoutHandler, timeout_handler, not_reached}

-- `ProcessLike`, with the clock, the search of a binary and the run of gdb on the process. `wait` raises
-- `timeout_expired` when the process is still alive after that many milliseconds.
pub record ProcessLike : Type 1 where
  pub World : Type 0
  pub now : World → ℕ
  pub name : Action World Text
  pub send_signal : ℕ → Action World Unit
  pub wait : ℕ → Action World (Option ℤ)
  pub kill : Action World Unit
  pub is_absolute : Text → Bool
  pub exists : Text → World → Bool
  pub which : Text → World → Option Text
  pub run_gdb : Action World Unit

-- `signal.SIGTERM`
abbrev pub control_c_signal : ℕ
control_c_signal = 15

abbrev pub killed_exit_code : ℤ
killed_exit_code = negsuc 8

-- `with suppress(…):` around a block that returns from the function with `some`.
abbrev pub suppress :
    {W A : Type 0} → (Exception → Bool) → Result (Option A) × W → Result (Option A) × W
suppress caught (ok a, w) = (ok a, w)
suppress caught (raised e, w) = if caught e then (ok none, w) else (raised e, w)

abbrev pub on_expired : Exception → Bool
on_expired timeout_expired = true
on_expired _ = false

abbrev pub on_gone : Exception → Bool
on_gone no_such_process = true
on_gone _ = false

abbrev pub on_stop : Exception → Bool
on_stop system_error = true
on_stop no_such_process = true
on_stop timeout_error = true
on_stop _ = false

abbrev pub on_debug : Exception → Bool
on_debug file_not_found_error = true
on_debug child_process_error = true
on_debug no_such_process = true
on_debug timeout_error = true
on_debug _ = false

abbrev pub on_kill : Exception → Bool
on_kill system_error = true
on_kill no_such_process = true
on_kill _ = false

abbrev pub returned : {W A : Type 0} → Action W A → Action W (Option A)
returned m = do a ← m; pure (some a)

abbrev pub passed : {W A B : Type 0} → Action W A → Action W (Option B)
passed m = do _ ← m; pure none

module _ (process : ProcessLike) where
  open process use {World, now}

  code_of : Option ℤ → ℤ
  code_of none = pos 0
  code_of (some c) = c

  -- `_process_wait`
  unfoldable pub process_wait : ℕ → Action World ℤ
  unfolding code_of
  process_wait check = do return_code ← process.wait check; pure (code_of return_code)

  found_path : Option Text → Action World Text
  found_path none = raise file_not_found_error
  found_path (some path) = pure path

  unfoldable pub find_in_path : Text → Action World Text
  unfolding found_path
  find_in_path binary_name w =
      if process.is_absolute binary_name && process.exists binary_name w
      then (ok binary_name, w)
      else found_path (process.which binary_name w) w

  -- One round of `while timeout_handler.not_reached()`: the code, or nothing when the process is still alive.
  unfoldable pub wait_round : TimeoutHandler → ℕ → Action World (Option ℤ)
  wait_round handler check = do
    _ ← (λ w. (not_reached handler (now w), w))
    (λ w. suppress on_expired (returned (process_wait check) w))

  abbrev pub after_wait :
      (World → Option (Result (Option ℤ) × World))
      → Result (Option ℤ) × World
      → Option (Result (Option ℤ) × World)
  after_wait again (ok none, w) = again w
  after_wait again (ok (some code), w) = some (ok (some code), w)
  after_wait again (raised e, w) = some (raised e, w)

  -- The loop, `none` where the fuel runs out.
  unfoldable pub wait_loop : TimeoutHandler → ℕ → ℕ → World → Option (Result (Option ℤ) × World)
  wait_loop handler check zero w = none
  wait_loop handler check (suc fuel) w =
      after_wait (wait_loop handler check fuel) (wait_round handler check w)

  suppressed :
      (Exception → Bool) → Option (Result (Option ℤ) × World) → Option (Result (Option ℤ) × World)
  suppressed caught none = none
  suppressed caught (some r) = some (suppress caught r)

  -- Statements, and then the loop with a handler made at that time.
  then_wait : ℕ → ℤ → ℕ → Result {0} Unit × World → Option (Result (Option ℤ) × World)
  then_wait fuel timeout check (ok _, w) =
      wait_loop (timeout_handler (some timeout) (now w)) check fuel w
  then_wait fuel timeout check (raised e, w) = some (raised e, w)

  unfoldable pub stop_phase : ℕ → ℤ → ℕ → World → Option (Result (Option ℤ) × World)
  unfolding suppressed then_wait
  stop_phase fuel timeout check w =
      suppressed on_stop (then_wait fuel timeout check (process.send_signal control_c_signal w))

  unfoldable pub debug_phase : ℕ → ℤ → ℕ → World → Option (Result (Option ℤ) × World)
  unfolding suppressed then_wait
  debug_phase fuel timeout check w =
      suppressed on_debug
        (then_wait fuel timeout check ((find_in_path (text "gdb") >> process.run_gdb) w))

  code_or_killed : Option ℤ → Action World ℤ
  code_or_killed none = pure killed_exit_code
  code_or_killed (some code) = pure code

  last_wait : ℕ → Action World ℤ
  unfolding code_or_killed
  last_wait check = do
    last ← (λ w. suppress on_expired (returned (process_wait check) w))
    code_or_killed last

  unfoldable pub kill_phase : ℕ → Action World ℤ
  unfolding last_wait
  kill_phase check = do
    _ ← (λ w. suppress on_kill (passed {B = Unit} process.kill w))
    last_wait check

  abbrev pub unless_returned :
      (World → Option (Result ℤ × World))
      → Option (Result (Option ℤ) × World)
      → Option (Result ℤ × World)
  unless_returned next none = none
  unless_returned next (some (ok none, w)) = next w
  unless_returned next (some (ok (some code), w)) = some (ok code, w)
  unless_returned next (some (raised e, w)) = some (raised e, w)

  -- `process_name` is only logged.
  unfoldable pub exit_process : ℕ → ℤ → ℕ → World → Option (Result ℤ × World)
  exit_process fuel timeout check w =
      unless_returned
        (λ v.
          unless_returned
            (λ u.
              unless_returned (λ x. some (kill_phase check x)) (debug_phase fuel timeout check u))
            (stop_phase fuel timeout check v))
        (some (suppress on_gone (passed {B = ℤ} process.name w)))

  alive_of : Result (Option ℤ) → Result Bool
  alive_of (ok _) = ok false
  alive_of (raised timeout_expired) = ok true
  alive_of (raised e) = raised e

  -- `is_process_alive` of a process that is not None.
  unfoldable pub is_process_alive : Action World Bool
  unfolding alive_of
  is_process_alive w = let (r, w') = process.wait 100 w in (alive_of r, w')
