-- ===== src/Agent/Time.antt =====
-- retina/agent/src/retina/agent/tools/time.py. Times are in milliseconds, and `now` is what `time.time()` gives.
use ocudu_infra_srs.Prelude.{
  ℕ, suc, ◌+◌, ◌-◌, ◌≤◌, ◌<◌, ◌≡◌, Option, none, some, true, arith, if◌then◌else◌, leb, Bool,
}
use ocudu_infra_srs.Prelude.Int.{ℤ, pos, negate}
use ocudu_infra_srs.Prelude.Action.{Result, ok, raised, timeout_error}

pub record TimeoutHandler : Type 0 where
  pub time_to_reach : Option ℕ

unfoldable pub timeout_handler : Option ℤ → ℕ → TimeoutHandler
timeout_handler (some (pos (suc n))) now = record { time_to_reach = some (now + suc n) }
timeout_handler _ now = record { time_to_reach = none }

reached : Option ℕ → ℕ → Result Bool
reached none now = ok true
reached (some reach) now = if leb reach now then raised timeout_error else ok true

unfoldable pub not_reached : TimeoutHandler → ℕ → Result Bool
unfolding reached
not_reached h now = reached h.time_to_reach now

-- -1 is the special value for no wait.
remaining : Option ℕ → ℕ → Result ℤ
remaining none now = ok (negate 1000)
remaining (some reach) now = if leb reach now then raised timeout_error else ok (pos (reach - now))

unfoldable pub get_remaining_timeout : TimeoutHandler → ℕ → Result ℤ
unfolding remaining
get_remaining_timeout h now = remaining h.time_to_reach now

pub not_reached_late :
    (timeout start now : ℕ)
    → start + suc timeout ≤ now
    → not_reached (timeout_handler (some (pos (suc timeout))) start) now ≡ raised timeout_error
unfolding not_reached reached timeout_handler
not_reached_late timeout start now h = ground arith

pub not_reached_early :
    (timeout start now : ℕ)
    → now < start + suc timeout
    → not_reached (timeout_handler (some (pos (suc timeout))) start) now ≡ ok true
unfolding not_reached reached timeout_handler
not_reached_early timeout start now h = ground arith
