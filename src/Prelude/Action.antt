-- ===== src/Prelude/Action.antt =====
-- Python statements as actions on an explicit world: a value or an exception, and the world after it.
-- What was changed before a `raise` stays changed.
use mathlib.Core.Path.{◌≡◌, refl}

-- The exceptions that the modelled code raises or catches; the last three are psutil's
-- and that of the module `re`.
pub data Exception : Type 0 where
  timeout_error runtime_error key_error value_error type_error index_error name_error
        attribute_error system_error file_not_found_error child_process_error no_such_process
        timeout_expired re_error :
      Exception

pub data Result {ℓ} (A : Type ℓ) : Type ℓ where
  ok : A → Result A
  raised : Exception → Result A

abbrev pub Action : Type 0 → Type 0 → Type 0
Action W A = W → Result A × W

module _ {W A : Type 0} where
  abbrev pub pure : A → Action W A
  pure a w = (ok a, w)

  abbrev pub raise : Exception → Action W A
  raise e w = (raised e, w)

  -- An expression that reads the world.
  abbrev pub gets : (W → A) → Action W A
  gets f w = (ok (f w), w)

module _ {W A B : Type 0} where
  abbrev pub and_then : (A → Action W B) → Result A × W → Result B × W
  and_then f (ok a, w) = f a w
  and_then f (raised e, w) = (raised e, w)

  infixl 5 ◌>>=◌ ◌>>◌
  abbrev pub ◌>>=◌ : Action W A → (A → Action W B) → Action W B
  ◌>>=◌ m f w = and_then f (m w)

  abbrev pub ◌>>◌ : Action W A → Action W B → Action W B
  ◌>>◌ m k w = and_then (λ _. k) (m w)

  -- Inversion of a successful `m >>= f`.
  pub >>=-eq-ok :
      (r : Result A × W) (f : A → Action W B) {b : B} {w : W}
      → and_then f r ≡ (ok b, w)
      → (a : A) × (v : W) × (r ≡ (ok a, v)) × (f a v ≡ (ok b, w))
  >>=-eq-ok (ok a, v) f h = (a, v, refl, h)
  >>=-eq-ok (raised e, v) f h = cc
