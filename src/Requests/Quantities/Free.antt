-- ===== src/Requests/Quantities/Free.antt =====
-- Which texts of Quantities have no percent sign.
use ocudu_infra_srs.Prelude.{
  ℕ, zero, suc, ◌≡◌, refl, ap, subst, ◌||◌, inl, inr, Bool, true, false, Option, none, some, [],
  ◌∷◌, ◌++◌, ◌==◌, if◌then◌else◌, Bool-cases, arith, All,
}
use ocudu_infra_srs.Prelude.Text.{Text, text, text_eq, decimal, AllDigits, decimal-AllDigits}
use ocudu_infra_srs.Prelude.Dict.{Dict}
use ocudu_infra_srs.Prelude.Action.{Result, ok}
use ocudu_infra_srs.Prelude.Outcome.{◌>>=◌, bind-eq-ok, ok-injective}
use ocudu_infra_srs.Elements.RetinaType.{span}
use ocudu_infra_srs.Requirement.{Amount, RequirementDefinition}
use ocudu_infra_srs.Requests.Quantities.{
  Floats, binary_suffix, at_end, is_numeric, is_letter, match_quantity, groups, rstrip, drop_last,
  ends_with_percent, shown, scale_quantity, scaled, whole_cores, round_cpu_quantity, at_least_one,
  matched_cores, percentage_of, strip, amount_of,
}

-- No character is a percent sign.
abbrev pub IsFree : Text → Type 0
IsFree = All (λ c. (c == b'%') ≡ false)

-- How a float is written with six decimals has no percent sign.
abbrev pub WritesNumbers : Floats → Type 0
WritesNumbers f = (x : f.Float) → IsFree (f.fixed x)

pub IsFree-append : (a b : Text) → IsFree a → IsFree b → IsFree (a ++ b)
IsFree-append [] b h k = k
IsFree-append (c ∷ a) b h k = (h.0, IsFree-append a b h.1 k)

if-IsFree : (b : Bool) (x y : Text) → IsFree x → IsFree y → IsFree (if b then x else y)
if-IsFree true x y h k = h
if-IsFree false x y h k = k

drop_last-IsFree : (c d : ℕ) (s : Text) → (d == b'%') ≡ false → IsFree s → IsFree (drop_last c d s)
unfolding drop_last
drop_last-IsFree c d [] h k = if-IsFree (d == c) [] (d ∷ []) tt (h, tt)
drop_last-IsFree c d (e ∷ s) h k = (h, k)

rstrip-IsFree : (c : ℕ) (s : Text) → IsFree s → IsFree (rstrip c s)
unfolding rstrip
rstrip-IsFree c [] h = tt
rstrip-IsFree c (d ∷ s) h = drop_last-IsFree c d (rstrip c s) h.0 (rstrip-IsFree c s h.1)

AllDigits-IsFree : (s : Text) → AllDigits s → IsFree s
AllDigits-IsFree [] h = tt
AllDigits-IsFree (c ∷ s) h = (ground (arith, h.0), AllDigits-IsFree s h.1)

pub decimal-IsFree : (n : ℕ) → IsFree (decimal n)
decimal-IsFree n = AllDigits-IsFree (decimal n) (decimal-AllDigits n)

binary_suffix-IsFree : (s : Text) → IsFree s → IsFree (binary_suffix s)
unfolding binary_suffix
binary_suffix-IsFree s h =
    let tera = if text_eq s (text "T") then text "Ti" else s in
    let giga = if text_eq s (text "G") then text "Gi" else tera in
    let mega = if text_eq s (text "M") then text "Mi" else giga in
    if-IsFree (text_eq s (text "k") || text_eq s (text "K")) (text "Ki") mega (refl, (refl, tt))
      (if-IsFree (text_eq s (text "M")) (text "Mi") giga (refl, (refl, tt))
        (if-IsFree (text_eq s (text "G")) (text "Gi") tera (refl, (refl, tt))
          (if-IsFree (text_eq s (text "T")) (text "Ti") s (refl, (refl, tt)) h)))

free_of_letter : (c : ℕ) → is_letter c ≡ true → (c == b'%') ≡ false
free_of_letter c h = ground arith

span-IsFree : (s : Text) → IsFree (span is_letter s).0
unfolding span
span-IsFree [] = tt
span-IsFree (c ∷ s) = elim (Bool-cases (is_letter c)) [
  | inl e ↦ rw e (free_of_letter c e, span-IsFree s)
  | inr e ↦ rw e tt
]

if-some : (b : Bool) (x y : Text × Text) → (if b then some x else none) ≡ some y → x ≡ y
if-some true x y e = cc
if-some false x y e = cc

groups-IsFree :
    (n : Text) (x : Text × Text) (number suffix : Text)
    → IsFree x.0
    → groups n x ≡ some (number, suffix)
    → IsFree suffix
unfolding groups
groups-IsFree [] (a, rest) number suffix h e = cc
groups-IsFree (c ∷ s) (a, rest) number suffix h e =
    subst IsFree (ap (λ x. x.1) (if-some (at_end rest) (c ∷ s, a) (number, suffix) e)) h

match_quantity-IsFree :
    (q number suffix : Text) → match_quantity q ≡ some (number, suffix) → IsFree suffix
unfolding match_quantity
match_quantity-IsFree q number suffix e =
    groups-IsFree (span is_numeric q).0 (span is_letter (span is_numeric q).1) number suffix
      (span-IsFree (span is_numeric q).1) e

scaled-IsFree :
    (f : Floats) (percentage : f.Float) (o : Option (Text × Text)) (t : Text)
    → WritesNumbers f
    → ((number suffix : Text) → o ≡ some (number, suffix) → IsFree suffix)
    → scaled f percentage o ≡ ok t
    → IsFree t
unfolding scaled
scaled-IsFree f percentage none t w h e = subst IsFree (ok-injective e) (refl, tt)
scaled-IsFree f percentage (some (number, suffix)) t w h e =
    let (value, _, is) = bind-eq-ok (f.float number) _ e in
    subst IsFree (ok-injective is) (
      IsFree-append _ (binary_suffix suffix)
        (rstrip-IsFree b'.' _ (rstrip-IsFree b'0' _ (w (f.percent_of value percentage))))
        (binary_suffix-IsFree suffix (h number suffix refl)))

at_least_one-IsFree : (f : Floats) (n : ℕ) → IsFree (at_least_one f n)
unfolding at_least_one
at_least_one-IsFree f zero = decimal-IsFree 1
at_least_one-IsFree f (suc n) = decimal-IsFree (suc n)

whole_cores-IsFree : (f : Floats) (q rounding t : Text) → whole_cores f q rounding ≡ ok t → IsFree t
unfolding whole_cores
whole_cores-IsFree f q rounding t e =
    let (cores, _, is) = bind-eq-ok (matched_cores f (span is_numeric q)) _ e in
    let (whole, _, same) =
      bind-eq-ok (f.floor (if text_eq rounding (text "round") then f.plus_half cores else cores)) _
        is in
    subst IsFree (ok-injective same) (at_least_one-IsFree f whole)

if-ok-IsFree :
    (b : Bool) (q t : Text) (r : Result Text)
    → IsFree q
    → (r ≡ ok t → IsFree t)
    → (if b then ok q else r) ≡ ok t
    → IsFree t
if-ok-IsFree true q t r h k e = subst IsFree (ok-injective e) h
if-ok-IsFree false q t r h k e = k e

round_cpu_quantity-IsFree :
    (f : Floats) (q rounding t : Text)
    → IsFree q
    → round_cpu_quantity f q rounding ≡ ok t
    → IsFree t
unfolding round_cpu_quantity
round_cpu_quantity-IsFree f q rounding t h e =
    if-ok-IsFree (text_eq rounding (text "fractional")) q t (whole_cores f q rounding) h
      (whole_cores-IsFree f q rounding t) e

pub not_percent : (s : Text) → IsFree s → ends_with_percent s ≡ false
unfolding ends_with_percent
not_percent [] h = refl
not_percent (c ∷ []) h = h.0
not_percent (c ∷ d ∷ s) h = not_percent (d ∷ s) h.1

scale_quantity-IsFree :
    (f : Floats) (q t : Text) (percentage : f.Float)
    → WritesNumbers f
    → scale_quantity f q percentage ≡ ok t
    → IsFree t
unfolding scale_quantity
scale_quantity-IsFree f q t percentage w e =
    scaled-IsFree f percentage (match_quantity q) t w (match_quantity-IsFree q) e

pub percentage_of-IsFree :
    (f : Floats) (req : RequirementDefinition) (v : Option Amount) (d : Dict Amount) (t : Text)
    → WritesNumbers f
    → percentage_of f req v d ≡ ok t
    → IsFree t
unfolding percentage_of
percentage_of-IsFree f req v d t w e =
    let whole = shown (amount_of req.name d) in
    let rounded = λ (quantity : Text). round_cpu_quantity f quantity req.rounding in
    let (percentage, _, is) =
      bind-eq-ok (f.float (strip b'%' (shown v)))
        (λ (x : f.Float). scale_quantity f whole x >>= rounded) e in
    let (quantity, k, l) = bind-eq-ok (scale_quantity f whole percentage) rounded is in
    round_cpu_quantity-IsFree f quantity req.rounding t
      (scale_quantity-IsFree f whole quantity percentage w k) l
