-- ===== src/Resources/Inventory/Requested.antt =====
-- What `get_resource_from_config` of resources.py makes of an entry.
use ocudu_infra_srs.Prelude.{
  ◌≡◌, refl, ap, subst, ◌∙◌, ◌⊎◌, inl, inr, Bool, true, false, Option, none, some, if◌then◌else◌,
  Bool-cases,
}
use ocudu_infra_srs.Prelude.Text.{Text, text, text_eq, eq_of_text_eq, lower}
use ocudu_infra_srs.Prelude.Int.{pos}
use ocudu_infra_srs.Prelude.Action.{ok}
use ocudu_infra_srs.Prelude.Outcome.{ok-injective}
use ocudu_infra_srs.Resources.{ConnectionType, Kind, Resource, type_r}
use ocudu_infra_srs.Resources.Inventory.{
  RequestEntry, resource_classes, class_of, requested, model_or_any, get_resource_from_config,
}

-- The model that is asked for, where a missing one is any.
abbrev pub AsksModel : Option Text → Text → Type 0
AsksModel none model = model ≡ text ".*"
AsksModel (some m) model = model ≡ m

-- The resource that is requested by an entry: of the class that the type names in lower case, with the model, with
-- capacity 0 for a dummy and else 1, unclaimed, and with no node and no space.
abbrev pub IsRequested : RequestEntry → Resource → Type 0
IsRequested e r =
    (e.type ≡ some (lower (type_r r.kind)))
    × AsksModel e.model r.model
    × (((e.dummy ≡ true) × (r.capacity ≡ pos 0)) ⊎ ((e.dummy ≡ false) × (r.capacity ≡ pos 1)))
    × (r.id_name ≡ none)
    × (r.node ≡ none)
    × (r.space ≡ none)

next_class :
    (t name : Text) (k : Kind) (c : Option ConnectionType)
    (rest : Option (Kind × Option ConnectionType)) (x : Kind × Option ConnectionType)
    → name ≡ lower (type_r k)
    → (rest ≡ some x → t ≡ lower (type_r x.0))
    → (if text_eq t name then some (k, c) else rest) ≡ some x
    → t ≡ lower (type_r x.0)
next_class t name k c rest x named others h = elim (Bool-cases (text_eq t name)) [
  | inl e ↦
      let same : some (k, c) ≡ some x = rw e at h in
      let at : (k, c) ≡ x = cc in eq_of_text_eq t name e ∙ named ∙ ap (λ y. lower (type_r y.0)) at
  | inr e ↦ others (rw e at h)
]

resource_classes-type_r :
    (t : Text) (x : Kind × Option ConnectionType)
    → resource_classes t ≡ some x
    → t ≡ lower (type_r x.0)
unfolding resource_classes lower type_r
resource_classes-type_r t x = next_class t (text "license") _ _ _ x refl (
    next_class t (text "remote") _ _ _ x refl (
      next_class t (text "api") _ _ _ x refl (
        next_class t (text "core") _ _ _ x refl (
          next_class t (text "sdr") _ _ _ x refl (
            next_class t (text "ru") _ _ _ x refl (
              next_class t (text "accelerator") _ _ _ x refl (
                next_class t (text "android") _ _ _ x refl
                  (next_class t (text "zmq") _ _ none x refl (λ h. cc)))))))))

class_of-type_r :
    (o : Option Text) (x : Kind × Option ConnectionType)
    → class_of o ≡ some x
    → o ≡ some (lower (type_r x.0))
unfolding class_of
class_of-type_r none x h = cc
class_of-type_r (some t) x h = ap some (resource_classes-type_r t x h)

model_or_any-AsksModel : (o : Option Text) → AsksModel o (model_or_any o)
unfolding model_or_any
model_or_any-AsksModel none = refl
model_or_any-AsksModel (some m) = refl

dummy_capacity :
    (b : Bool)
    → ((b ≡ true) × ((if b then pos 0 else pos 1) ≡ pos 0))
      ⊎ ((b ≡ false) × ((if b then pos 0 else pos 1) ≡ pos 1))
dummy_capacity true = inl (refl, refl)
dummy_capacity false = inr (refl, refl)

requested-IsRequested :
    (e : RequestEntry) (r : Resource) (o : Option (Kind × Option ConnectionType))
    → class_of e.type ≡ o
    → requested e o ≡ ok r
    → IsRequested e r
unfolding requested
requested-IsRequested e r none k h = cc
requested-IsRequested e r (some (kind, connection)) k h = subst (IsRequested e) (ok-injective h) (
  class_of-type_r e.type (kind, connection) k,
  model_or_any-AsksModel e.model,
  dummy_capacity e.dummy,
  refl,
  refl,
  refl,
)

pub get_resource_from_config-IsRequested :
    (e : RequestEntry) {r : Resource} → get_resource_from_config e ≡ ok r → IsRequested e r
unfolding get_resource_from_config
get_resource_from_config-IsRequested e {r} h = requested-IsRequested e r (class_of e.type) refl h
