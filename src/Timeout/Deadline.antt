-- ===== src/Timeout/Deadline.antt =====
-- The deadline of a `TimeoutHandler`.
use ocudu_infra_srs.Prelude.{ℕ, suc, ◌+◌, ◌-◌, ◌≤◌, ◌<◌, ◌≡◌, ◌⊎◌, some, true, arith}
use ocudu_infra_srs.Prelude.Int.{pos}
use ocudu_infra_srs.Prelude.Action.{ok, raised, timeout_error}
use ocudu_infra_srs.Timeout.{
  TimeoutHandler, timeout_handler, not_reached, get_remaining_timeout, cancel,
}

-- A handler made with a positive timeout lets its owner go on, with what is left of the timeout,
-- until that long after it was made; from then on both methods raise TimeoutError.
pub timeout_handler_window :
    (n start now : ℕ)
    → let h = timeout_handler (some (pos (suc n))) start in
      ((now < start + suc n)
        × (not_reached h now ≡ ok true)
        × (get_remaining_timeout h now ≡ ok (pos (start + suc n - now))))
      ⊎ ((start + suc n ≤ now)
          × (not_reached h now ≡ raised timeout_error)
          × (get_remaining_timeout h now ≡ raised timeout_error))
unfolding timeout_handler not_reached get_remaining_timeout
timeout_handler_window n start now = ground arith

-- After `cancel` both methods raise TimeoutError, whatever the clock says and however the handler was made.
pub cancel_raises :
    (h : TimeoutHandler) (now : ℕ)
    → (not_reached (cancel h) now ≡ raised timeout_error)
      × (get_remaining_timeout (cancel h) now ≡ raised timeout_error)
unfolding cancel not_reached get_remaining_timeout
cancel_raises h now = ground arith
