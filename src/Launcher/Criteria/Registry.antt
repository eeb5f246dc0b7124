-- ===== src/Launcher/Criteria/Registry.antt =====
-- Registering and activating criteria.
use ocudu_infra_srs.Prelude.{
  ◌≡◌, ◌≢◌, refl, sym, ◌∙◌, ◌⊎◌, inl, inr, Option, none, some, [], ◌∷◌, ◌++◌, if◌then◌else◌,
}
use ocudu_infra_srs.Prelude.Text.{Text, text_eq}
use ocudu_infra_srs.Prelude.Dict.{lookup, lookup-insert}
use ocudu_infra_srs.Prelude.Action.{Result, ok, raised, key_error, value_error}
use ocudu_infra_srs.Launcher.Criteria.{
  Criteria, CriteriaTable, configured, register_new, register, add_known, add_criteria,
}
use ocudu_infra_srs.Launcher.Criteria.Kept.{map_at, lookup-update}

module _ {W V : Type 0} where
  -- Either the id was there and nothing changed, or it was not and now has that criteria, and no other changed.
  abbrev pub Registers :
      Text → Criteria W V → CriteriaTable W V → Result {0} Unit × CriteriaTable W V → Type 0
  Registers id c t (r, t') =
      ((lookup id t.criteria ≢ none) × (r ≡ raised value_error) × (t' ≡ t))
      ⊎ ((lookup id t.criteria ≡ none)
          × (r ≡ ok tt)
          × (t'.order ≡ t.order)
          × ((key : Text)
              → lookup key t'.criteria
                ≡ (if text_eq id key then some c else lookup key t.criteria)))

  -- Either the id is not registered and nothing changed, or its input is set and it is the last that is active.
  abbrev pub Activates : Text → V → CriteriaTable W V → Result {0} Unit × CriteriaTable W V → Type 0
  Activates id config t (r, t') =
      ((lookup id t.criteria ≡ none) × (r ≡ raised key_error) × (t' ≡ t))
      ⊎ ((lookup id t.criteria ≢ none)
          × (r ≡ ok tt)
          × (t'.order ≡ t.order ++ id ∷ [])
          × ((key : Text)
              → lookup key t'.criteria ≡ (
                  if text_eq id key
                  then map_at (λ c. record c { input = some config }) (lookup key t.criteria)
                  else lookup key t.criteria)))

  register_new-Registers :
      (id : Text) (c : Criteria W V) (t : CriteriaTable W V) (o : Option (Criteria W V))
      → lookup id t.criteria ≡ o
      → Registers id c t (register_new id c t o)
  unfolding register_new
  register_new-Registers id c t (some b) e = inl (λ k. let clash = sym e ∙ k in cc, refl, refl)
  register_new-Registers id c t none e =
      inr (e, refl, refl, λ key. lookup-insert id key c t.criteria)

  add_known-Activates :
      (id : Text) (config : V) (t : CriteriaTable W V) (o : Option (Criteria W V))
      → lookup id t.criteria ≡ o
      → Activates id config t (add_known id config t o)
  unfolding add_known configured
  add_known-Activates id config t none e = inl (e, refl, refl)
  add_known-Activates id config t (some b) e = inr (
    λ k. let clash = sym e ∙ k in cc,
    refl,
    refl,
    λ key. lookup-update (configured config) id key t.criteria,
  )

-- register refuses an id that is registered with ValueError and add_criteria one that is not with KeyError, both
-- without a change; otherwise register enters the criteria under its id, add_criteria sets the input of that id and
-- appends it to the active ones, and neither changes another criteria.
pub registration_cases :
    {W V : Type 0} (id : Text) (c : Criteria W V) (config : V) (t : CriteriaTable W V)
    → Registers id c t (register id c t) × Activates id config t (add_criteria id config t)
unfolding register add_criteria
registration_cases id c config t =
    (register_new-Registers id c t _ refl, add_known-Activates id config t _ refl)
