-- ===== src/Launcher/Criteria.antt =====
-- retina/launcher/src/retina/launcher/criteria.py. The values that criteria compare are a parameter, and the calls
-- of a criteria's own `callback` are actions on the test bed.
pub mod Kept
pub mod Failures
pub mod Registry
use ocudu_infra_srs.Prelude.{
  ℕ, zero, suc, Bool, true, false, not, ◌&&◌, Option, none, some, List, [], ◌∷◌, ◌++◌, map, any,
  ◌==◌, if◌then◌else◌, length,
}
use ocudu_infra_srs.Prelude.Text.{Text, text, text_eq}
use ocudu_infra_srs.Prelude.Dict.{Dict, lookup, insert}
use ocudu_infra_srs.Prelude.Action.{
  Result, ok, raised, Exception, runtime_error, key_error, value_error, Action, pure, raise, ◌>>=◌,
}

-- `callback`: a criteria's own, that of CuCriteria and GnbCriteria, which takes the first criteria of the
-- table whose id is one of the prefixes with the class name, and that of AllCriteria with its `all_callback`.
pub data Callback (W V : Type 0) : Type 0 where
  own : (Option V → Action W V) → Callback W V
  first_of : List Text → Text → Callback W V
  all_of : (List V → V) → Text → Callback W V

-- `stub_array` is the identity of the array, if it is not empty; `operator_method` compares with what `expected` makes
-- of the input, and either may raise.
pub record Criteria (W V : Type 0) : Type 0 where
  pub name : Text
  pub operator_method : V → Option V → Result Bool
  pub callback : Callback W V
  pub stub_array : Option ℕ
  pub input : Option V
  pub result : Option V

pub record CriteriaTable (W V : Type 0) : Type 0 where
  pub criteria : Dict (Criteria W V)
  pub order : List Text

pub data Verdict : Type 0 where
  passed : Verdict
  failed : List Text → Verdict

ends_with : Text → Text → Bool
ends_with suffix [] = text_eq suffix []
ends_with suffix (c ∷ s) = if text_eq suffix (c ∷ s) then true else ends_with suffix s

unfoldable pub verdict : Bool → List Text → Verdict
verdict pending [] = passed
verdict pending (name ∷ names) = if pending then passed else failed (name ∷ names)

-- Statements that change the test bed and the results kept in the table.
abbrev pub Run : Type 0 → Type 0 → Type 0 → Type 0
Run W V A = Action (Dict (Criteria W V) × W) A

module _ {W V : Type 0} where
  unfoldable pub has_result : V → Criteria W V → Criteria W V
  has_result v c = record c { result = some v }

  -- An assignment to a field of the criteria with that id.
  unfoldable pub update :
      (Criteria W V → Criteria W V) → Text → Dict (Criteria W V) → Dict (Criteria W V)
  update f key [] = []
  update f key ((j, c) ∷ d) = if text_eq j key then (j, f c) ∷ d else (j, c) ∷ update f key d

  register_new :
      Text
      → Criteria W V
      → CriteriaTable W V
      → Option (Criteria W V)
      → Result {0} Unit × CriteriaTable W V
  register_new criteria_id c t (some _) = (raised value_error, t)
  register_new criteria_id c t none =
      (ok tt, record t { criteria = insert criteria_id c t.criteria })

  unfoldable pub register :
      Text → Criteria W V → CriteriaTable W V → Result {0} Unit × CriteriaTable W V
  unfolding register_new
  register criteria_id c t = register_new criteria_id c t (lookup criteria_id t.criteria)

  unfoldable pub configured : V → Criteria W V → Criteria W V
  configured config c = record c { input = some config }

  add_known :
      Text → V → CriteriaTable W V → Option (Criteria W V) → Result {0} Unit × CriteriaTable W V
  add_known criteria_id config t none = (raised key_error, t)
  add_known criteria_id config t (some _) = (
    ok tt,
    record t {
      criteria = update (configured config) criteria_id t.criteria;
      order = t.order ++ criteria_id ∷ [];
    },
  )

  unfoldable pub add_criteria : Text → V → CriteriaTable W V → Result {0} Unit × CriteriaTable W V
  unfolding add_known
  add_criteria criteria_id config t = add_known criteria_id config t (lookup criteria_id t.criteria)

  unfoldable pub find_id : (Text → Bool) → Dict (Criteria W V) → Option Text
  find_id p [] = none
  find_id p ((key, c) ∷ d) = if p key then some key else find_id p d

  -- The ids whose results AllCriteria asks for: not two with the same array.
  unfoldable pub ids_of : Text → List ℕ → Dict (Criteria W V) → List Text
  unfolding ends_with
  ids_of suffix seen [] = []
  ids_of suffix seen ((key, c) ∷ d) =
      let rest = ids_of suffix seen d in
      elim c.stub_array [
        | none ↦ rest
        | some stub ↦
            let more = ids_of suffix (stub ∷ seen) d in
            if ends_with suffix key && not (any (λ s. s == stub) seen) then key ∷ more else rest
      ]

  unfoldable pub results_of : (Text → Run W V V) → List Text → Run W V (List V)
  results_of result [] = pure []
  results_of result (key ∷ keys) = do v ← result key; vs ← results_of result keys; pure (v ∷ vs)

  on_bed : Action W V → Run W V V
  on_bed m (d, w) = let (r, w') = m w in (r, (d, w'))

  first_result : (Text → Run W V V) → Option Text → Run W V V
  first_result result none = raise value_error
  first_result result (some key) = result key

  -- `callback` of a criteria, where `result` gives the `result` of another.
  unfoldable pub call : (Text → Run W V V) → Callback W V → Option V → Run W V V
  unfolding on_bed first_result
  call result (own f) input = on_bed (f input)
  call result (first_of prefixes name) input = λ (d, w).
      first_result result
        (find_id (λ key. any (λ p. text_eq key (p ++ (text "." ++ name))) prefixes) d) (d, w)
  call result (all_of all_callback name) input = λ (d, w).
      (results_of result (ids_of (text "." ++ name) [] d) >>= λ vs. pure (all_callback vs)) (d, w)

  store : Text → V → Run W V V
  unfolding has_result
  store key v (d, w) = (ok v, (update (has_result v) key d, w))

  cached : (Text → Run W V V) → Text → Criteria W V → Option V → Run W V V
  unfolding store
  cached result key c (some v) = pure v
  cached result key c none = call result c.callback c.input >>= store key

  looked_up : (Text → Run W V V) → Text → Option (Criteria W V) → Run W V V
  unfolding cached
  looked_up result key none = raise key_error
  looked_up result key (some c) = cached result key c c.result

  -- `result` of the criteria with that id; RecursionError, a RuntimeError, when the calls nest too deeply.
  unfoldable pub result_of : ℕ → Text → Run W V V
  unfolding looked_up
  result_of zero key s = (raised runtime_error, s)
  result_of (suc depth) key s = looked_up (result_of depth) key (lookup key s.0) s

  abbrev pub name_of : Option (Criteria W V) → Text
  name_of none = []
  name_of (some c) = c.name

  abbrev pub accepts : V → Option (Criteria W V) → Result Bool
  accepts v none = raised key_error
  accepts v (some c) = c.operator_method v c.input

  -- `c.is_ok()`, with the name when it is not.
  unfoldable pub judge : ℕ → Text → Run W V (List Text)
  judge depth key = do
    v ← result_of depth key
    is_ok ← (λ s. (accepts v (lookup key s.0), s))
    (λ s. (ok (if is_ok then [] else name_of (lookup key s.0) ∷ []), s))

  unfoldable pub judge_all : ℕ → List Text → Run W V (List Text)
  judge_all depth [] = pure []
  judge_all depth (key ∷ keys) = do
    here ← judge depth key
    rest ← judge_all depth keys
    pure (here ++ rest)

  -- `pending` is whether an exception is being handled; the table that is logged is left out.
  unfoldable pub validate : ℕ → Bool → List Text → Run W V Verdict
  validate depth pending order = do
    failures ← judge_all depth order
    pure (verdict pending failures)
