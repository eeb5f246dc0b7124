-- ===== src/Elements/Labels.antt =====
-- What `Node.check_label_list` decides.
use ocudu_infra_srs.Prelude.{
  ◌≡◌, refl, ◌↔◌, ◌⊎◌, inl, inr, true, false, List, [], ◌∷◌, arith, Bool-cases, any, In, here,
  there, All, All-In,
}
use ocudu_infra_srs.Prelude.Text.{text_eq_refl, eq_of_text_eq}
use ocudu_infra_srs.Elements.{LabelDefinition, label_eq, check_label_list}

pub label_eq_refl : (a : LabelDefinition) → label_eq a a ≡ true
unfolding label_eq
label_eq_refl a = ground (arith, text_eq_refl a.name, text_eq_refl a.value)

pub eq_of_label_eq : (a b : LabelDefinition) → label_eq a b ≡ true → a ≡ b
unfolding label_eq
eq_of_label_eq a b h = ground (arith, eq_of_text_eq a.name b.name, eq_of_text_eq a.value b.value)

pub any-In :
    (own : List LabelDefinition) (l : LabelDefinition)
    → any (λ x. label_eq x l) own ≡ true
    → In l own
any-In [] l h = cc
any-In (x ∷ own) l h = elim (Bool-cases (label_eq x l)) [
  | inl e ↦ rw (eq_of_label_eq x l e) here
  | inr e ↦ there (any-In own l (rw e at h))
]

pub In-any :
    (l : LabelDefinition) (own : List LabelDefinition)
    → In l own
    → any (λ x. label_eq x l) own ≡ true
In-any l [] i = elim i [ ]
In-any l (x ∷ own) here = ground (arith, label_eq_refl l)
In-any l (x ∷ own) (there i) = ground (arith, In-any l own i)

-- A label that is asked for is on the node, and one that is marked `reverse` is not.
abbrev pub Admits : List LabelDefinition → LabelDefinition → Type 0
Admits own label =
    ((label.reverse ≡ false) × In label own) ⊎ ((label.reverse ≡ true) × (¬ In label own))

any-cases :
    (own : List LabelDefinition) (l : LabelDefinition)
    → (In l own × (any (λ x. label_eq x l) own ≡ true))
      ⊎ ((¬ In l own) × (any (λ x. label_eq x l) own ≡ false))
any-cases own l = elim (Bool-cases (any (λ x. label_eq x l) own)) [
  | inl e ↦ inl (any-In own l e, e)
  | inr e ↦ inr (λ i. cc (In-any l own i), e)
]

check_label_list_sound :
    (own asked : List LabelDefinition) → check_label_list own asked ≡ true → All (Admits own) asked
unfolding check_label_list
check_label_list_sound own [] h = tt
check_label_list_sound own (l ∷ asked) h = elim (any-cases own l) [
  | inl (i, e) ↦
      let plain : l.reverse ≡ false = ground arith in
      (inl (plain, i), check_label_list_sound own asked (ground arith))
  | inr (n, e) ↦
      let marked : l.reverse ≡ true = ground arith in
      (inr (marked, n), check_label_list_sound own asked (ground arith))
]

check_label_list_complete :
    (own asked : List LabelDefinition) → All (Admits own) asked → check_label_list own asked ≡ true
unfolding check_label_list
check_label_list_complete own [] h = refl
check_label_list_complete own (l ∷ asked) (inl (plain, i), h) =
    rw (In-any l own i, plain) (check_label_list_complete own asked h)
check_label_list_complete own (l ∷ asked) (inr (marked, n), h) = elim (any-cases own l) [
  | inl (i, e) ↦ absurd (n i)
  | inr (_, e) ↦ rw (e, marked) (check_label_list_complete own asked h)
]

-- What check_label_list answers, with the mark `reverse` as a part of a label.
pub check_label_list_iff :
    (own asked : List LabelDefinition)
    → (check_label_list own asked ≡ true) ↔ All (Admits own) asked
check_label_list_iff own asked =
    (check_label_list_sound own asked, check_label_list_complete own asked)

abbrev pub IsPlain : LabelDefinition → Type 0
IsPlain l = l.reverse ≡ false

-- The labels that are asked for without the mark are on the node.
abbrev pub HasUnmarked : List LabelDefinition → LabelDefinition → Type 0
HasUnmarked own label = (label.reverse ≡ true) ⊎ In label own

marked_absent :
    (own : List LabelDefinition) (l : LabelDefinition)
    → All IsPlain own
    → l.reverse ≡ true
    → ¬ In l own
marked_absent own l plain marked i = cc (All-In IsPlain own plain i)

Admits-HasUnmarked :
    (own : List LabelDefinition) (l : LabelDefinition)
    → All IsPlain own
    → Admits own l ↔ HasUnmarked own l
Admits-HasUnmarked own l plain = (to, from)
  where
    to : Admits own l → HasUnmarked own l
    to (inl (p, i)) = inr i
    to (inr (m, n)) = inl m

    from : HasUnmarked own l → Admits own l
    from (inl m) = inr (m, marked_absent own l plain m)
    from (inr i) = inl (All-In IsPlain own plain i, i)

All-Admits :
    (own asked : List LabelDefinition)
    → All IsPlain own
    → All (Admits own) asked ↔ All (HasUnmarked own) asked
All-Admits own [] plain = (λ h. tt, λ h. tt)
All-Admits own (l ∷ asked) plain =
    let here_too = Admits-HasUnmarked own l plain in
    let rest = All-Admits own asked plain in
    (λ h. (here_too.0 h.0, rest.0 h.1), λ h. (here_too.1 h.0, rest.1 h.1))

-- For a node's own labels, which are never marked as reverse, `check_label_list` answers True exactly when the node has
-- every label that is asked for without the mark. A label that is asked for with the mark, to be absent, never
-- excludes a node, even one that has it.
pub check_label_list-HasUnmarked :
    (own asked : List LabelDefinition)
    → All IsPlain own
    → (check_label_list own asked ≡ true) ↔ All (HasUnmarked own) asked
check_label_list-HasUnmarked own asked plain =
    let admits = All-Admits own asked plain in
    let checks = check_label_list_iff own asked in
    (λ h. admits.0 (checks.0 h), λ h. checks.1 (admits.1 h))
