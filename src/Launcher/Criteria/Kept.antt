-- ===== src/Launcher/Criteria/Kept.antt =====
-- What the criteria of a table keep: their settings, and each result once it is there.
use ocudu_infra_srs.Prelude.{
  ℕ, zero, suc, ◌≡◌, refl, sym, ap, ◌∙◌, inl, inr, Option, none, some, [], ◌∷◌, arith,
  if◌then◌else◌, Bool-cases,
}
use ocudu_infra_srs.Prelude.Text.{Text, text_eq, text_eq_refl, eq_of_text_eq, text_eq_iff}
use ocudu_infra_srs.Prelude.Dict.{Dict, lookup}
use ocudu_infra_srs.Prelude.Action.{ok, Action, >>=-eq-ok, ◌>>=◌}
use ocudu_infra_srs.Launcher.Criteria.{
  Criteria, Callback, own, update, has_result, call, on_bed, store, cached, looked_up, result_of,
}

module _ {W V : Type 0} where
  -- The settings are the same, and a result that was there is there.
  pub record Follows (c c' : Criteria W V) : Type 0 where
    pub same_name : c'.name ≡ c.name
    pub same_operator : c'.operator_method ≡ c.operator_method
    pub same_callback : c'.callback ≡ c.callback
    pub same_input : c'.input ≡ c.input
    pub same_result : (v : V) → c.result ≡ some v → c'.result ≡ some v

  Follows-refl : (c : Criteria W V) → Follows c c
  Follows-refl c = record {
    same_name = refl;
    same_operator = refl;
    same_callback = refl;
    same_input = refl;
    same_result = λ v e. e;
  }

  Follows-trans : (a b c : Criteria W V) → Follows a b → Follows b c → Follows a c
  Follows-trans a b c f g = record {
    same_name = g.same_name ∙ f.same_name;
    same_operator = g.same_operator ∙ f.same_operator;
    same_callback = g.same_callback ∙ f.same_callback;
    same_input = g.same_input ∙ f.same_input;
    same_result = λ v e. g.same_result v (f.same_result v e);
  }

  abbrev pub KeptIn : Dict (Criteria W V) → Dict (Criteria W V) → Type 0
  KeptIn d d' =
      (key : Text) (c : Criteria W V)
      → lookup key d ≡ some c
      → (c' : Criteria W V) × (lookup key d' ≡ some c') × Follows c c'

  pub KeptIn-refl : (d : Dict (Criteria W V)) → KeptIn d d
  KeptIn-refl d key c e = (c, e, Follows-refl c)

  pub KeptIn-trans : (d e f : Dict (Criteria W V)) → KeptIn d e → KeptIn e f → KeptIn d f
  KeptIn-trans _ _ _ h k key c e =
      let (c', e', f) = h key c e in
      let (c'', e'', g) = k key c' e' in (c'', e'', Follows-trans c c' c'' f g)

  abbrev pub map_at : (Criteria W V → Criteria W V) → Option (Criteria W V) → Option (Criteria W V)
  map_at f none = none
  map_at f (some c) = some (f c)

  pub lookup-update :
      (f : Criteria W V → Criteria W V) (key j : Text) (d : Dict (Criteria W V))
      → lookup j (update f key d) ≡ (if text_eq key j then map_at f (lookup j d) else lookup j d)
  unfolding update
  lookup-update f key j [] = elim (Bool-cases (text_eq key j)) [
    | inl e ↦ rw e refl
    | inr e ↦ rw e refl
  ]
  lookup-update f key j ((i, c) ∷ d) =
      ground (arith, text_eq_iff key j, text_eq_iff i key, text_eq_iff i j, lookup-update f key j d)

  -- `callback` is the criteria's own.
  abbrev pub IsOwn : Callback W V → Type 0
  IsOwn c = (f : Option V → Action W V) × (c ≡ own f)

  abbrev pub ResultAt : Dict (Criteria W V) → Text → V → Type 0
  ResultAt d key v = (c : Criteria W V) × (lookup key d ≡ some c) × (c.result ≡ some v)

  pub ResultAt-KeptIn :
      (d d' : Dict (Criteria W V)) (key : Text) (v : V)
      → KeptIn d d'
      → ResultAt d key v
      → ResultAt d' key v
  ResultAt-KeptIn d d' key v kept (c, e, k) =
      let (c', e', f) = kept key c e in (c', e', f.same_result v k)

  has_result-Follows : (v : V) (c : Criteria W V) → c.result ≡ none → Follows c (has_result v c)
  unfolding has_result
  has_result-Follows v c e = record {
    same_name = refl;
    same_operator = refl;
    same_callback = refl;
    same_input = refl;
    same_result = λ u k. let clash : none ≡ some u = sym e ∙ k in cc;
  }

  update-KeptIn :
      (v : V) (key : Text) (d : Dict (Criteria W V)) (c : Criteria W V)
      → lookup key d ≡ some c
      → c.result ≡ none
      → KeptIn d (update (has_result v) key d)
  update-KeptIn v key d c e empty j b k = elim (Bool-cases (text_eq key j)) [
    | inl same ↦
        let is : key ≡ j = eq_of_text_eq key j same in
        let at : some c ≡ some b = sym e ∙ ap (λ x. lookup x d) is ∙ k in
        let at' : c ≡ b = cc in
        (
          has_result v b,
          lookup-update (has_result v) key j d ∙ rw (same, k) refl,
          has_result-Follows v b (ap (λ x. x.result) (sym at') ∙ empty),
        )
    | inr other ↦ (b, lookup-update (has_result v) key j d ∙ rw (other, k) refl, Follows-refl b)
  ]

  store-ResultAt :
      (v : V) (key : Text) (d : Dict (Criteria W V)) (c : Criteria W V)
      → lookup key d ≡ some c
      → ResultAt (update (has_result v) key d) key v
  unfolding has_result
  store-ResultAt v key d c e =
      (has_result v c, lookup-update (has_result v) key key d ∙ rw (text_eq_refl key, e) refl, refl)

  abbrev pub Answer : Dict (Criteria W V) → Text → V → Dict (Criteria W V) → Type 0
  Answer d key v d' = KeptIn d d' × ResultAt d' key v

  own_stored :
      (key : Text) (d d' : Dict (Criteria W V)) (c : Criteria W V) (v : V) (w w' : W)
      (m : Action W V)
      → lookup key d ≡ some c
      → c.result ≡ none
      → (on_bed m >>= store key) (d, w) ≡ (ok v, (d', w'))
      → Answer d key v d'
  unfolding on_bed store
  own_stored key d d' c v w w' m e empty h =
      let (u, (b, x), first, second) = >>=-eq-ok (on_bed m (d, w)) (store key) h in
      let table : d ≡ b = ap (λ y. y.1.0) first in
      let value : u ≡ v = cc in
      let final : update (has_result u) key b ≡ d' = ap (λ y. y.1.0) second in
      rw (← final, ← table, ← value) (update-KeptIn u key d c e empty, store-ResultAt u key d c e)

  own_cached :
      (n : ℕ) (key : Text) (d d' : Dict (Criteria W V)) (c : Criteria W V) (o : Option V) (v : V)
      (w w' : W)
      → lookup key d ≡ some c
      → c.result ≡ o
      → IsOwn c.callback
      → cached (result_of n) key c o (d, w) ≡ (ok v, (d', w'))
      → Answer d key v d'
  unfolding cached call
  own_cached n key d d' c (some u) v w w' e k is h =
      let value : u ≡ v = cc in
      let table : d ≡ d' = ap (λ y. y.1.0) h in rw (← table, ← value) (KeptIn-refl d, (c, e, k))
  own_cached n key d d' c none v w w' e k (f, is) h =
      own_stored key d d' c v w w' (f c.input) e k (rw is at h)

  -- What the result of a criteria with its own callback does to the table.
  pub result_of-Answer :
      (n : ℕ) (key : Text) (d d' : Dict (Criteria W V)) (c : Criteria W V) (v : V) (w w' : W)
      → lookup key d ≡ some c
      → IsOwn c.callback
      → result_of n key (d, w) ≡ (ok v, (d', w'))
      → Answer d key v d'
  unfolding result_of looked_up
  result_of-Answer zero key d d' c v w w' e is h = cc
  result_of-Answer (suc n) key d d' c v w w' e is h =
      own_cached n key d d' c c.result v w w' e refl is (rw e at h)
