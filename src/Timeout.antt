-- ===== src/Timeout.antt =====
-- retina/orchestrator/src/retina/orchestrator/timeout_handler.py. Times are in milliseconds, and the clock's
-- reading `now` stands for `time.time()`.
pub mod Deadline
use ocudu_infra_srs.Prelude.{
  ℕ, zero, suc, ◌+◌, ◌-◌, ◌/◌, Option, none, some, Bool, true, if◌then◌else◌, leb,
}
use ocudu_infra_srs.Prelude.Int.{ℤ, pos, negsuc, negate}
use ocudu_infra_srs.Prelude.Action.{Result, ok, raised, timeout_error}

pub record TimeoutHandler : Type 0 where
  pub time_to_reach : Option ℕ

-- `__init__`: a timeout of zero or less, or none, waits forever.
unfoldable pub timeout_handler : Option ℤ → ℕ → TimeoutHandler
timeout_handler (some (pos (suc n))) now = record { time_to_reach = some (now + suc n) }
timeout_handler _ now = record { time_to_reach = none }

not_reached_at : Option ℕ → ℕ → Result Bool
not_reached_at none now = ok true
not_reached_at (some reach) now = if leb reach now then raised timeout_error else ok true

unfoldable pub not_reached : TimeoutHandler → ℕ → Result Bool
unfolding not_reached_at
not_reached h now = not_reached_at h.time_to_reach now

-- The special value for no wait is minus one second.
remaining_at : Option ℕ → ℕ → Result ℤ
remaining_at none now = ok (negate 1000)
remaining_at (some reach) now =
    if leb reach now then raised timeout_error else ok (pos (reach - now))

unfoldable pub get_remaining_timeout : TimeoutHandler → ℕ → Result ℤ
unfolding remaining_at
get_remaining_timeout h now = remaining_at h.time_to_reach now

unfoldable pub cancel : TimeoutHandler → TimeoutHandler
cancel h = record h { time_to_reach = some 0 }

-- `int(seconds)` truncates towards zero.
unfoldable pub whole_seconds : ℤ → ℤ
whole_seconds (pos n) = pos (n / 1000)
whole_seconds (negsuc n) = negate (suc n / 1000)
