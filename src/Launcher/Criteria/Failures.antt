-- ===== src/Launcher/Criteria/Failures.antt =====
-- What `validate` reports.
use ocudu_infra_srs.Prelude.{
  ℕ, suc, ◌≡◌, refl, ap, ◌∙◌, Bool, true, false, Option, none, some, List, [], ◌∷◌, ◌++◌,
  if◌then◌else◌, All,
}
use ocudu_infra_srs.Prelude.Text.{Text}
use ocudu_infra_srs.Prelude.Dict.{Dict, lookup}
use ocudu_infra_srs.Prelude.Action.{Result, ok, raised, Action}
use ocudu_infra_srs.Launcher.Criteria.{
  Criteria, Verdict, passed, failed, own, verdict, accepts, name_of, update, has_result, call,
  on_bed, store, cached, looked_up, result_of, judge, judge_all, validate,
}
use ocudu_infra_srs.Launcher.Criteria.Kept.{
  KeptIn, KeptIn-refl, KeptIn-trans, ResultAt, ResultAt-KeptIn, Answer, result_of-Answer,
}

unless_true : Result Bool → Text → List Text
unless_true (ok true) name = []
unless_true (ok false) name = name ∷ []
unless_true (raised e) name = []

module _ {W V : Type 0} where
  failure_of : Option (Criteria W V) → Option V → List Text
  unfolding unless_true
  failure_of (some c) (some v) = unless_true (c.operator_method v c.input) c.name
  failure_of _ _ = []

  abbrev kept_result : Option (Criteria W V) → Option V
  kept_result none = none
  kept_result (some c) = c.result

  -- The names of the criteria whose results in the table are not what is expected, in order.
  unfoldable pub failing : Dict (Criteria W V) → List Text → List Text
  unfolding failure_of
  failing d [] = []
  failing d (key ∷ keys) = failure_of (lookup key d) (kept_result (lookup key d)) ++ failing d keys

  -- A registered criteria with a callback of its own, where neither that nor a comparison raises.
  abbrev pub IsReady : Dict (Criteria W V) → Text → Type 0
  IsReady d key =
      (c : Criteria W V) × (f : Option V → Action W V) × (lookup key d ≡ some c)
      × (c.callback ≡ own f)
      × ((input : Option V) (w : W) → (v : V) × (w' : W) × (f input w ≡ (ok v, w')))
      × ((v : V) → (b : Bool) × (c.operator_method v c.input ≡ ok b))

  abbrev pub HasResult : Dict (Criteria W V) → Text → Type 0
  HasResult d key = (v : V) × ResultAt d key v

  IsReady-KeptIn :
      (d d' : Dict (Criteria W V)) (key : Text) → KeptIn d d' → IsReady d key → IsReady d' key
  IsReady-KeptIn d d' key kept (c, f, e, is, answers, compares) =
      let (c', e', same) = kept key c e in
      (
        c',
        f,
        e',
        same.same_callback ∙ is,
        answers,
        λ v. let (b, k) = compares v in (b, rw (same.same_operator, same.same_input) k),
      )

  IsReady-keys :
      (d d' : Dict (Criteria W V)) (keys : List Text)
      → KeptIn d d'
      → All (IsReady d) keys
      → All (IsReady d') keys
  IsReady-keys d d' [] kept h = tt
  IsReady-keys d d' (key ∷ keys) kept h =
      (IsReady-KeptIn d d' key kept h.0, IsReady-keys d d' keys kept h.1)

  -- The result of a ready criteria is there.
  answered :
      (n : ℕ) (key : Text) (d : Dict (Criteria W V)) (w : W)
      → IsReady d key
      → (v : V) × (d' : Dict (Criteria W V)) × (w' : W) × (result_of (suc n) key (d, w)
          ≡ (ok v, (d', w')))
  unfolding result_of looked_up cached call on_bed store
  answered n key d w (c, f, e, is, answers, compares) =
      let (v, d', w', k) = go c.result in (v, d', w', rw e k)
    where
      go :
          (o : Option V)
          → (v : V) × (d' : Dict (Criteria W V)) × (w' : W) × (cached (result_of n) key c o (d, w)
              ≡ (ok v, (d', w')))
      go (some u) = (u, d, w, refl)
      go none =
          let (v, w', k) = answers c.input w in
          (v, update (has_result v) key d, w', rw (is, k) refl)

  failure_at :
      (d d' : Dict (Criteria W V)) (key : Text) (v : V) (b : Bool)
      → ResultAt d key v
      → KeptIn d d'
      → accepts v (lookup key d) ≡ ok b
      → (if b then [] else name_of (lookup key d) ∷ [])
        ≡ failure_of (lookup key d') (kept_result (lookup key d'))
  unfolding failure_of unless_true
  failure_at d d' key v b (c, e, k) kept compared =
      let (c', e', same) = kept key c e in
      let at : c.operator_method v c.input ≡ ok b = rw e at compared in
      rw (e, e', same.same_result v k, same.same_operator, same.same_input, same.same_name, at)
        (shown b c.name)
    where
      shown : (b : Bool) (name : Text) → (if b then [] else name ∷ []) ≡ unless_true (ok b) name
      shown true name = refl
      shown false name = refl

  abbrev pub Judged : ℕ → Dict (Criteria W V) → W → List Text → Type 0
  Judged n d w keys =
      (d' : Dict (Criteria W V)) × (w' : W) × (judge_all n keys (d, w)
        ≡ (ok (failing d' keys), (d', w')))
      × KeptIn d d'
      × All (HasResult d') keys

  judge_first :
      (n : ℕ) (key : Text) (keys : List Text) (d d' : Dict (Criteria W V)) (w w' : W) (v : V)
      → result_of (suc n) key (d, w) ≡ (ok v, (d', w'))
      → Answer d key v d'
      → (b : Bool) → accepts v (lookup key d') ≡ ok b
      → Judged (suc n) d' w' keys
      → Judged (suc n) d w (key ∷ keys)
  unfolding judge_all judge failing
  judge_first n key keys d d' w w' v e (kept, at) b compared (d'', w'', rest, kept', all) = (
    d'',
    w'',
    rw (e, compared, rest)
        (ap (λ l. (ok (l ++ failing d'' keys), (d'', w'')))
          (failure_at d' d'' key v b at kept' compared)),
    KeptIn-trans d d' d'' kept kept',
    ((v, ResultAt-KeptIn d' d'' key v kept' at), all),
  )

  judging_each :
      (n : ℕ) (keys : List Text) (d : Dict (Criteria W V)) (w : W)
      → All (IsReady d) keys
      → Judged (suc n) d w keys
  unfolding judge_all failing
  judging_each n [] d w h = (d, w, refl, KeptIn-refl d, tt)
  judging_each n (key ∷ keys) d w h =
      let (v, d', w', e) = answered n key d w h.0 in
      let (c, f, at, is, answers, compares) = h.0 in
      let answer = result_of-Answer (suc n) key d d' c v w w' at (f, is) e in
      let (c', f', at', is', answers', compares') = IsReady-KeptIn d d' key answer.0 h.0 in
      let (b, k) = compares' v in
      let compared : accepts v (lookup key d') ≡ ok b = rw at' k in
      judge_first n key keys d d' w w' v e answer b compared
        (judging_each n keys d' w' (IsReady-keys d d' keys answer.0 h.1))

-- The test passes when there are no failures or an exception is being handled, and else fails with the failures.
abbrev pub Verdicts : Bool → List Text → Verdict → Type 0
Verdicts pending [] v = v ≡ passed
Verdicts true (name ∷ names) v = v ≡ passed
Verdicts false (name ∷ names) v = v ≡ failed (name ∷ names)

verdict-Verdicts :
    (pending : Bool) (names : List Text) → Verdicts pending names (verdict pending names)
unfolding verdict
verdict-Verdicts true [] = refl
verdict-Verdicts false [] = refl
verdict-Verdicts true (name ∷ names) = refl
verdict-Verdicts false (name ∷ names) = refl

-- When the active criteria are registered and have callbacks of their own, and neither these nor the comparisons raise,
-- validate returns, and then the table keeps a result for each of them, with all settings and earlier results
-- unchanged. The test fails with the names, in the order of activation, of exactly those whose kept result is
-- not what is expected; it passes when there are none or an exception is being handled.
pub validate-failing :
    {W V : Type 0} (n : ℕ) (pending : Bool) (order : List Text) (d : Dict (Criteria W V)) (w : W)
    → All (IsReady d) order
    → (v : Verdict) × (d' : Dict (Criteria W V)) × (w' : W) × (validate (suc n) pending order (d, w)
        ≡ (ok v, (d', w')))
      × Verdicts pending (failing d' order) v
      × KeptIn d d'
      × All (HasResult d') order
unfolding validate
validate-failing n pending order d w h =
    let (d', w', e, kept, all) = judging_each n order d w h in
    (
      verdict pending (failing d' order),
      d',
      w',
      rw e refl,
      verdict-Verdicts pending (failing d' order),
      kept,
      all,
    )
