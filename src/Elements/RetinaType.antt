-- ===== src/Elements/RetinaType.antt =====
-- `KubernetesElement` of retina/orchestrator/src/retina/orchestrator/elements.py: which config maps are recognised
-- by their names. The names are ASCII, as Kubernetes demands.
use ocudu_infra_srs.Prelude.{
  ℕ, ◌≡◌, ◌↔◌, refl, sym, ap, subst, ◌∙◌, inl, inr, Bool, true, false, not, ◌&&◌, ◌||◌, Option,
  none, some, [], ◌∷◌, ◌==◌, arith, if◌then◌else◌, leb, Bool-cases,
}
use ocudu_infra_srs.Prelude.Text.{
  Text, text, text_eq, decimal, is_digit, AllDigits, decimal-AllDigits, decimal_cons,
  decimal-injective,
}
use ocudu_infra_srs.Prelude.Dict.{Dict, lookup}
use ocudu_infra_srs.Locks.{get_space_name}
use ocudu_infra_srs.Network.{get_port_configmap_name}

pub data KubernetesType : Type 0 where
  pod configmap service secret : KubernetesType

pub data RetinaType : Type 0 where
  port orchid retina_pod resource_space no_type : RetinaType

-- `annotations` is the attribute of that name of `data`, if it has one.
pub record KubernetesElement : Type 0 where
  pub kubernetes_type : KubernetesType
  pub name : Text
  pub annotations : Option (Dict Text)

text_or_blank : Option Text → Text
text_or_blank none = text ""
text_or_blank (some a) = a

-- Any exception gives "".
unfoldable pub get_annotation : Text → KubernetesElement → Text
unfolding text_or_blank
get_annotation key e = elim e.annotations [ none ↦ text "" | some d ↦ text_or_blank (lookup key d) ]

unfoldable pub get_orchestration_id : KubernetesElement → Text
get_orchestration_id e = get_annotation (text "orch_id") e

unfoldable pub get_user_name : KubernetesElement → Text
get_user_name e = get_annotation (text "user_name") e

unfoldable pub is_retina : KubernetesElement → Bool
is_retina e = not (text_eq (get_orchestration_id e) (text ""))

-- `\w`
abbrev is_word : ℕ → Bool
is_word c = is_digit c || (leb b'a' c && leb c b'z') || (leb b'A' c && leb c b'Z') || (c == b'_')

strip_prefix : Text → Text → Option Text
strip_prefix [] s = some s
strip_prefix (c ∷ p) [] = none
strip_prefix (c ∷ p) (d ∷ s) = if c == d then strip_prefix p s else none

-- The longest beginning of characters of a kind, and the rest.
unfoldable pub span : (ℕ → Bool) → Text → Text × Text
span kind [] = ([], [])
span kind (c ∷ s) =
    let (front, rest) = span kind s in if kind c then (c ∷ front, rest) else ([], c ∷ s)

-- `$` also matches before a newline that ends the text.
ends : Text → Option Text → Option Text
ends group (some rest) =
    if text_eq rest [] || text_eq rest (10 ∷ [])
    then (if text_eq group [] then none else some group)
    else none
ends group none = none

group_in : (ℕ → Bool) → Text → Option Text → Option Text
group_in kind suffix none = none
group_in kind suffix (some s) =
    let (group, rest) = span kind s in ends group (strip_prefix suffix rest)

-- `re.match` of `^<prefix>(<kind>+)<suffix>$`, where no suffix begins with a character of the kind; the group.
unfoldable pub match_group : Text → (ℕ → Bool) → Text → Text → Option Text
unfolding strip_prefix span ends group_in
match_group prefix kind suffix name = group_in kind suffix (strip_prefix prefix name)

chosen : Option Text → Option Text → Option Text → RetinaType × Text
chosen (some g) _ _ = (resource_space, g)
chosen none (some g) _ = (port, g)
chosen none none (some g) = (orchid, g)
chosen none none none = (no_type, text "")

unfoldable pub get_retina_configmap_type : Text → RetinaType × Text
unfolding chosen
get_retina_configmap_type name =
    chosen (match_group (text "retina-rs-") is_digit (text "") name)
      (match_group (text "retina-tst-") is_digit (text "-configmap-port") name)
      (match_group (text "retina-tst-") is_word (text "-configmap-orchid") name)

typed : Bool → KubernetesType → Text → RetinaType × Text
typed false _ _ = (no_type, text "")
typed true pod _ = (retina_pod, text "")
typed true configmap name = get_retina_configmap_type name
typed true _ _ = (no_type, text "")

unfoldable pub get_retina_type : KubernetesElement → RetinaType × Text
unfolding typed
get_retina_type e = typed (is_retina e) e.kubernetes_type e.name

span-AllDigits : (s : Text) → AllDigits s → span is_digit s ≡ (s, [])
unfolding span
span-AllDigits [] h = refl
span-AllDigits (c ∷ s) h = rw (h.0, span-AllDigits s h.1) refl

space_match :
    (n : ℕ)
    → match_group (text "retina-rs-") is_digit (text "") (get_space_name n) ≡ some (decimal n)
unfolding match_group get_space_name group_in strip_prefix ends text_eq
space_match n =
    let (c, s, e) = decimal_cons n in rw (span-AllDigits (decimal n) (decimal-AllDigits n), e) refl

-- The first character of the number in the name of a port is none of a prefix.
port_letter :
    (n : ℕ)
    → (match_group (text "retina-rs-") is_digit (text "") (get_port_configmap_name n) ≡ none)
      × (match_group
            (text "retina-tst-")
            is_digit
            (text "-configmap-port")
            (get_port_configmap_name n)
          ≡ none)
      × (match_group
            (text "retina-tst-")
            is_word
            (text "-configmap-orchid")
            (get_port_configmap_name n)
          ≡ none)
unfolding match_group get_port_configmap_name group_in strip_prefix
port_letter n =
    let (c, s, e) = decimal_cons n in
    let digit : is_digit c ≡ true = (subst AllDigits e (decimal-AllDigits n)).0 in
    let no_r : (b'r' == c) ≡ false = ground arith in
    let no_t : (b't' == c) ≡ false = ground arith in rw (e, no_r, no_t) (refl, refl, refl)

-- get_retina_configmap_type reads the name that get_space_name gives to a resource space back as that of the resource space
-- with that number, and of no other.
pub get_retina_configmap_type-get_space_name :
    (n : ℕ)
    → (get_retina_configmap_type (get_space_name n) ≡ (resource_space, decimal n))
      × ((m : ℕ)
          → (get_retina_configmap_type (get_space_name n) ≡ (resource_space, decimal m)) ↔ (m ≡ n))
unfolding get_retina_configmap_type chosen
get_retina_configmap_type-get_space_name n =
    let is : get_retina_configmap_type (get_space_name n) ≡ (resource_space, decimal n) =
      rw (space_match n) refl in
    (
      is,
      λ m. (
        λ h. decimal-injective m n (ap (λ x. x.1) (sym h ∙ is)),
        λ h. is ∙ ap (λ k. (resource_space, decimal k)) (sym h),
      ),
    )

-- No config map with the name that get_port_configmap_name gives to a port is recognised as one of Retina's.
pub get_retina_type-get_port_configmap_name :
    (e : KubernetesElement) (n : ℕ)
    → e.kubernetes_type ≡ configmap
    → e.name ≡ get_port_configmap_name n
    → get_retina_type e ≡ (no_type, text "")
unfolding get_retina_type typed get_retina_configmap_type chosen
get_retina_type-get_port_configmap_name e n kind named =
    let (a, b, c) = port_letter n in
    elim (Bool-cases (is_retina e)) [
      | inl k ↦ rw (k, kind, named, a, b, c) refl
      | inr k ↦ rw k refl
    ]
