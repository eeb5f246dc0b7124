-- ===== src/Transformations/Groups.antt =====
-- What `group_by_resource_space` puts into each group.
use mathlib.Core.List.{append-nil, append_assoc}
use ocudu_infra_srs.Prelude.{
  ℕ, ◌≡◌, refl, sym, inl, inr, Bool, true, false, Option, none, some, List, [], ◌∷◌, ◌++◌, arith,
  ◌==◌, if◌then◌else◌, select, Bool-cases,
}
use ocudu_infra_srs.Resources.{Resource}
use ocudu_infra_srs.Transformations.{
  SpaceGroups, add_to_group, add_by_space, group_from, group_by_resource_space,
}

-- `groups[space]`
abbrev pub group_at : ℕ → SpaceGroups → List Resource
group_at space [] = []
group_at space ((s, group) ∷ groups) = if s == space then group else group_at space groups

abbrev pub has_space : ℕ → Option ℕ → Bool
has_space space none = false
has_space space (some s) = s == space

group_at-add :
    (space t : ℕ) (r : Resource) (groups : SpaceGroups)
    → group_at space (add_to_group t r groups)
      ≡ (if t == space then group_at space groups ++ r ∷ [] else group_at space groups)
unfolding add_to_group
group_at-add space t r [] = ground arith
group_at-add space t r ((s, group) ∷ groups) = ground (arith, group_at-add space t r groups)

group_at-add_by_space :
    (space : ℕ) (o : Option ℕ) (r : Resource) (groups : SpaceGroups)
    → group_at space (add_by_space o r groups)
      ≡ (if has_space space o then group_at space groups ++ r ∷ [] else group_at space groups)
unfolding add_by_space
group_at-add_by_space space none r groups = refl
group_at-add_by_space space (some t) r groups = group_at-add space t r groups

group_at-group_from :
    (space : ℕ) (rs : List Resource) (groups : SpaceGroups)
    → group_at space (group_from groups rs)
      ≡ group_at space groups ++ select (λ r. has_space space r.space) rs
unfolding group_from
group_at-group_from space [] groups = sym (append-nil _)
group_at-group_from space (r ∷ rs) groups = elim (Bool-cases (has_space space r.space)) [
  | inl e ↦
      rw
        (
          group_at-group_from space rs (add_by_space r.space r groups),
          group_at-add_by_space space r.space r groups,
          e,
        )
        (append_assoc (group_at space groups) (r ∷ []) (select (λ r. has_space space r.space) rs))
  | inr e ↦ rw (
    group_at-group_from space rs (add_by_space r.space r groups),
    group_at-add_by_space space r.space r groups,
    e,
  )
]

-- The group of a resource space holds exactly the resources of that space, in the order of the list, and a resource
-- without a space is in no group.
pub group_by_resource_space-select :
    (space : ℕ) (rs : List Resource)
    → group_at space (group_by_resource_space rs) ≡ select (λ r. has_space space r.space) rs
unfolding group_by_resource_space
group_by_resource_space-select space rs = group_at-group_from space rs []

pub has_space-eq : (space : ℕ) (o : Option ℕ) → has_space space o ≡ true → o ≡ some space
has_space-eq space none h = cc
has_space-eq space (some s) h = ground arith
