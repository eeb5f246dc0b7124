-- ===== src/Managers/Book.antt =====
-- What a reservation in managers.py leaves behind when it succeeds.
use ocudu_infra_srs.Prelude.{
  ℕ, zero, suc, ◌≡◌, refl, ap, subst, ◌∙◌, Bool, true, false, Option, none, some, List, [], ◌∷◌,
  arith, if◌then◌else◌, inl, inr, All, length, ◌≢◌, ◌⊎◌,
}
use ocudu_infra_srs.Prelude.Text.{Text}
use ocudu_infra_srs.Prelude.Int.{ℤ}
use ocudu_infra_srs.Prelude.Action.{Result, ok, raised, Action, pure, >>=-eq-ok}
use ocudu_infra_srs.Timeout.{TimeoutHandler, get_remaining_timeout, whole_seconds}
use ocudu_infra_srs.Cluster.{Platform}
use ocudu_infra_srs.Cluster.Laws.{IsLawful, config_map_at}
use ocudu_infra_srs.Cluster.Growth.{Keeps}
use ocudu_infra_srs.Resources.{Resource}
use ocudu_infra_srs.Resources.Booking.{reserve_all}
use ocudu_infra_srs.Resources.Booking.Outcome.{Reserved, reserve_all-Reserved}
use ocudu_infra_srs.Resources.Inventory.{ClusterInfo}
use ocudu_infra_srs.Transformations.Match.Sound.{AllMatch}
use ocudu_infra_srs.Managers.{remaining_seconds, book, retry, after_round}

-- A state in which a round of the loop begins that was begun in the first state: every earlier round went on, and
-- was followed by ten seconds of sleep.
pub data RoundFrom (p : Platform) {A : Type 0} (body : Action p.World (Option A))
    : p.World → p.World → Type 0 where
  begun : {w : p.World} → RoundFrom p body w w
  again :
      {w v s : p.World}
      → body w ≡ (ok none, v)
      → RoundFrom p body (p.sleep 10000 v) s
      → RoundFrom p body w s

-- A loop that returned did so at the end of some round.
pub retry_sound :
    (p : Platform) {A : Type 0} (body : Action p.World (Option A)) (fuel : ℕ) (w w' : p.World)
    (a : A)
    → retry p body fuel w ≡ some (ok a, w')
    → (v : p.World) × RoundFrom p body w v × (body v ≡ (ok (some a), w'))
unfolding retry
retry_sound p body zero w w' a e = cc
retry_sound p {A} body (suc fuel) w w' a e =
    go (body w) refl (λ v h. retry_sound p body fuel v w' a h) e
  where
    go :
        (r : Result (Option A) × p.World)
        → body w ≡ r
        → ((v : p.World)
            → retry p body fuel v ≡ some (ok a, w')
            → (u : p.World) × RoundFrom p body v u × (body u ≡ (ok (some a), w')))
        → after_round p (retry p body fuel) r ≡ some (ok a, w')
        → (v : p.World) × RoundFrom p body w v × (body v ≡ (ok (some a), w'))
    go (raised x, v) same rest h = cc
    go (ok (some b), v) same rest h = (w, begun, same ∙ cc)
    go (ok none, v) same rest h =
        let (u, reached, last) = rest (p.sleep 10000 v) h in (u, again same reached, last)

-- A match that is as long as the request is not the empty answer.
pub fits_of :
    (p : Platform) (inputs offer matched : List Resource)
    → inputs ≢ []
    → length matched ≡ length inputs
    → (matched ≡ []) ⊎ AllMatch p offer true 0 inputs matched
    → AllMatch p offer true 0 inputs matched
fits_of p [] offer matched h n m = absurd (h refl)
fits_of p (x ∷ inputs) offer [] h n m = absurd (omega arith)
fits_of p (x ∷ inputs) offer (r ∷ rs) h n (inl e) = absurd (omega (arith, ap length e))
fits_of p (x ∷ inputs) offer (r ∷ rs) h n (inr m) = m

module _ {p : Platform} (law : IsLawful p) (configuration : p.World → Result ClusterInfo)
    (orch_id user_name : Text) (handler : TimeoutHandler) where
  pub seconds-same :
      (w w' : p.World) (t : ℤ)
      → remaining_seconds p configuration orch_id user_name handler w ≡ (ok t, w')
      → w ≡ w'
  unfolding remaining_seconds
  seconds-same w w' t e =
      let (s, v, first, rest) =
        >>=-eq-ok (get_remaining_timeout handler (p.now w), w) (λ s. pure (whole_seconds s)) e in
      ap (λ (x : Result ℤ × p.World). x.1) first ∙ ap (λ (x : Result ℤ × p.World). x.1) rest

  booked_then :
      (b : Bool) (matched result : List Resource) (v w' : p.World)
      → pure (if b then some matched else none) v ≡ (ok (some result), w')
      → (b ≡ true) × (matched ≡ result) × (v ≡ w')
  booked_then true matched result v w' e =
      (refl, cc, ap (λ (x : Result (Option (List Resource)) × p.World). x.1) e)
  booked_then false matched result v w' e = cc

  -- What `book` returns is what it was given, and it is reserved.
  pub book-Reserved :
      (matched result : List Resource) (w w' : p.World)
      → book p configuration orch_id user_name handler matched w ≡ (ok (some result), w')
      → (matched ≡ result)
        × Keeps p w w'
        × ((t : ℤ) × All (Reserved p orch_id user_name t w') result)
  unfolding book
  book-Reserved matched result w w' e =
      let (t, v, first, rest) =
        >>=-eq-ok (remaining_seconds p configuration orch_id user_name handler w) _ e in
      let (b, u, second, last) =
        >>=-eq-ok (reserve_all p 0 orch_id user_name t 1 matched v) _ rest in
      let (yes_b, same, at_end) = booked_then b matched result u w' last in
      let (keeps, all) =
        reserve_all-Reserved law 0 orch_id user_name t matched v w' (
          second
          ∙ ap (λ (x : Bool). (ok x, u)) yes_b
          ∙ ap (λ (x : p.World). (ok true, x)) at_end) in
      (
        same,
        λ n m h. keeps n m (subst (λ x. config_map_at p x n ≡ some m) (seconds-same w v t first) h),
        (t, subst (λ l. All (Reserved p orch_id user_name t w') l) same all),
      )
