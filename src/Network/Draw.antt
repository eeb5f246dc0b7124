-- ===== src/Network/Draw.antt =====
-- Drawing a port from the list of those that were not tried.
use ocudu_infra_srs.Prelude.{
  ℕ, zero, suc, ◌+◌, ◌≤◌, ◌<◌, ◌≡◌, refl, sym, ap, subst, ◌⊎◌, inl, inr, List, [], ◌∷◌, arith, In,
  here, there, In-cons, length,
}
use ocudu_infra_srs.Prelude.Action.{ok}
use ocudu_infra_srs.Network.{
  pop_at, keep_head, range, possible_ports, number_port_init, number_of_ports,
}

-- `n` was taken out of `ports`, which leaves `rest`.
pub record IsPick (ports : List ℕ) (n : ℕ) (rest : List ℕ) : Type 0 where
  pub picked : In n ports
  pub shorter : length ports ≡ suc (length rest)
  pub kept : (m : ℕ) → In m rest → In m ports
  pub split : (m : ℕ) → In m ports → (m ≡ n) ⊎ In m rest

IsPick-cons : (x n : ℕ) (xs rest : List ℕ) → IsPick xs n rest → IsPick (x ∷ xs) n (x ∷ rest)
IsPick-cons x n xs rest h = record {
  picked = there h.picked;
  shorter = omega (arith, h.shorter);
  kept = λ m i. elim (In-cons i) [
    | inl e ↦ subst (λ y. In y (x ∷ xs)) (sym e) here
    | inr j ↦ there (h.kept m j)
  ];
  split = λ m i. elim (In-cons i) [
    | inl e ↦ inr (subst (λ y. In y (x ∷ rest)) (sym e) here)
    | inr j ↦ elim (h.split m j) [ inl e ↦ inl e | inr k ↦ inr (there k) ]
  ];
}

pub pop_at-IsPick :
    (i : ℕ) (ports : List ℕ)
    → i < length ports
    → (n : ℕ) × (rest : List ℕ) × (pop_at i ports ≡ ok (n, rest)) × IsPick ports n rest
unfolding pop_at keep_head
pop_at-IsPick i [] h = absurd (omega arith)
pop_at-IsPick zero (x ∷ xs) h = (
  x,
  xs,
  refl,
  record { picked = here; shorter = refl; kept = λ m i. there i; split = λ m i. In-cons i },
)
pop_at-IsPick (suc i) (x ∷ xs) h =
    let (n, rest, e, k) = pop_at-IsPick i xs (omega arith) in
    (n, x ∷ rest, ap (keep_head x) e, IsPick-cons x n xs rest k)

range-In : (first n m : ℕ) → In m (range first n) → (first ≤ m) × (m < first + n)
unfolding range
range-In first zero m i = elim i [ ]
range-In first (suc n) m i = elim (In-cons i) [
  | inl e ↦ (omega arith, omega arith)
  | inr j ↦ let (a, b) = range-In (suc first) n m j in (omega arith, omega arith)
]

le_cases : (a b : ℕ) → a ≤ b → (a ≡ b) ⊎ (suc a ≤ b)
le_cases a b h = omega arith

In-range : (first n m : ℕ) → first ≤ m → m < first + n → In m (range first n)
unfolding range
In-range first zero m a b = absurd (omega arith)
In-range first (suc n) m a b = elim (le_cases first m a) [
  | inl e ↦ subst (λ y. In y (first ∷ range (suc first) n)) e here
  | inr h ↦ there (In-range (suc first) n m h (omega arith))
]

length-range : (first n : ℕ) → length (range first n) ≡ n
unfolding range
length-range first zero = refl
length-range first (suc n) = omega (arith, length-range (suc first) n)

pub possible_ports-In :
    (m : ℕ)
    → In m possible_ports
    → (number_port_init ≤ m) × (m < number_port_init + number_of_ports)
unfolding possible_ports
possible_ports-In m i = range-In number_port_init number_of_ports m i

pub In-possible_ports :
    (m : ℕ) → number_port_init ≤ m → m < number_port_init + number_of_ports → In m possible_ports
unfolding possible_ports
In-possible_ports m a b = In-range number_port_init number_of_ports m a b

pub length-possible_ports : length possible_ports ≡ number_of_ports
unfolding possible_ports
length-possible_ports = length-range number_port_init number_of_ports
