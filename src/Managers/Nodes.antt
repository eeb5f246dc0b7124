-- ===== src/Managers/Nodes.antt =====
-- `reserve_node_resources` of managers.py: what it returns.
use ocudu_infra_srs.Prelude.{
  ℕ, ◌≡◌, ◌≢◌, refl, sym, ap, subst, ◌∙◌, ◌⊎◌, Bool, true, false, Option, none, some, List, [], ◌∷◌,
  arith, if◌then◌else◌, Bool-cases, inl, inr, All, length, ◌==◌,
}
use ocudu_infra_srs.Prelude.Text.{Text}
use ocudu_infra_srs.Prelude.Int.{ℤ}
use ocudu_infra_srs.Prelude.Action.{
  timeout_error, Result, ok, raised, Action, pure, raise, ◌>>◌, >>=-eq-ok,
}
use ocudu_infra_srs.Timeout.{TimeoutHandler, not_reached}
use ocudu_infra_srs.Cluster.{Platform, manifest}
use ocudu_infra_srs.Cluster.Laws.{IsLawful, config_map_at}
use ocudu_infra_srs.Locks.{get_space_name, space_lock, reserve_space_configmap}
use ocudu_infra_srs.Locks.Holding.{reserve_space_configmap-Acquires}
use ocudu_infra_srs.Resources.{Resource}
use ocudu_infra_srs.Resources.Booking.Outcome.{Reserved, acquired}
use ocudu_infra_srs.Resources.Inventory.{ClusterInfo}
use ocudu_infra_srs.Transformations.{
  get_node_resources, get_available_resources, group_by_resource_space,
}
use ocudu_infra_srs.Transformations.Match.{get_match_resources}
use ocudu_infra_srs.Transformations.Match.Sound.{AllMatch, get_match_resources-AllMatch}
use ocudu_infra_srs.Managers.{
  get_resources_in_cluster, remaining_seconds, book, try_space, try_spaces, try_groups, or_else_try,
  shuffled_keys, node_round, log_spaces, on_node_timeout, catch_timeout, reserve_wanted_nodes,
  reserve_node_resources,
}
use ocudu_infra_srs.Managers.Offer.{
  offered, NodeBooking, AllMatch-space, IsInventory, get_resources_in_cluster-IsInventory,
}
use ocudu_infra_srs.Managers.Book.{RoundFrom, retry_sound, fits_of, book-Reserved}

module _ {p : Platform} (law : IsLawful p) (configuration : p.World → Result ClusterInfo)
    (orch_id user_name : Text) (handler : TimeoutHandler) where
  taken_then :
      (b : Bool) (matched result : List Resource) (v w' : p.World)
      → (if b then book p configuration orch_id user_name handler matched else pure none) v
        ≡ (ok (some result), w')
      → (b ≡ true)
        × (book p configuration orch_id user_name handler matched v ≡ (ok (some result), w'))
  taken_then true matched result v w' e = (refl, e)
  taken_then false matched result v w' e = cc

  -- The lock of the space and the reservation of the resources.
  abbrev SpaceBooking : ℕ → List Resource → p.World → Type 0
  SpaceBooking space result w =
      (t : ℤ) × (t' : ℤ) × (config_map_at p w (get_space_name space)
        ≡ some (manifest (space_lock space orch_id user_name t)))
      × All (Reserved p orch_id user_name t' w) result

  try_space-SpaceBooking :
      (space : ℕ) (matched result : List Resource) (w w' : p.World)
      → try_space p configuration orch_id user_name handler space matched w ≡ (ok (some result), w')
      → (matched ≡ result) × SpaceBooking space result w'
  unfolding try_space
  try_space-SpaceBooking space matched result w w' e =
      let (t, v, first, rest) =
        >>=-eq-ok (remaining_seconds p configuration orch_id user_name handler w) _ e in
      let (b, u, second, last) =
        >>=-eq-ok (reserve_space_configmap p space orch_id user_name t v) _ rest in
      let (yes_b, booked) = taken_then b matched result u w' last in
      let (lock, _) =
        acquired law 0 orch_id user_name t (space_lock space orch_id user_name t) v u _
          (reserve_space_configmap-Acquires law space orch_id user_name t v)
          (second ∙ ap (λ (x : Bool). (ok x, u)) yes_b) in
      let (same, keeps, (t', all)) =
        book-Reserved law configuration orch_id user_name handler matched result u w' booked in
      (same, (t, t', keeps _ _ lock, all))

  tried_then :
      (o : Option (List Resource)) (k : Action p.World (Option (List Resource)))
      (result : List Resource) (v w' : p.World)
      → or_else_try p configuration orch_id user_name handler k o v ≡ (ok (some result), w')
      → ((o ≡ some result) × (v ≡ w')) ⊎ (k v ≡ (ok (some result), w'))
  tried_then none k result v w' e = inr e
  tried_then (some a) k result v w' e =
      inl (cc, ap (λ (x : Result (Option (List Resource)) × p.World). x.1) e)

  counted_then :
      (inputs matched result : List Resource) (space : ℕ) (v w' : p.World)
      → (if length matched == length inputs
            then try_space p configuration orch_id user_name handler space matched
            else pure none)
          v
        ≡ (ok (some result), w')
      → (length matched ≡ length inputs)
        × (try_space p configuration orch_id user_name handler space matched v
            ≡ (ok (some result), w'))
  counted_then inputs matched result space v w' e =
      elim (Bool-cases (length matched == length inputs)) [
        | inl k ↦ (ground arith, rw k at e)
        | inr k ↦ let no : pure {W = p.World} none v ≡ (ok (some result), w') = rw k at e in cc
      ]

  try_spaces-NodeBooking :
      (inputs everything : List Resource) (start seen : p.World) (spaces : List ℕ)
      (result : List Resource) (w w' : p.World)
      → RoundFrom p (node_round p configuration orch_id user_name handler inputs) start seen
      → IsInventory p configuration seen everything
      → inputs ≢ []
      → try_spaces p configuration orch_id user_name handler inputs
          (group_by_resource_space (get_available_resources p seen (get_node_resources everything)))
          spaces
          w
        ≡ (ok (some result), w')
      → NodeBooking p configuration orch_id user_name handler inputs result start w'
  unfolding try_spaces
  try_spaces-NodeBooking inputs everything start seen [] result w w' reached inventory h e = cc
  try_spaces-NodeBooking inputs everything start seen (space ∷ spaces) result w w' reached inventory
        h e =
      let (matched, v, first, rest) =
        >>=-eq-ok (get_match_resources p inputs (offered p seen everything space) true w) _ e in
      let body : Action p.World (Option (List Resource)) =
        (if length matched == length inputs
          then try_space p configuration orch_id user_name handler space matched
          else pure none) in
      let (o, u, second, last) = >>=-eq-ok (body v) _ rest in
      elim (tried_then o _ result u w' last) [
        | inl (found, at_end) ↦
            let (n, tried) = counted_then inputs matched result space v w' (
              second
              ∙ ap (λ (x : Option (List Resource)). (ok x, u)) found
              ∙ ap (λ (x : p.World). (ok (some result), x)) at_end) in
            let (same, (t, t', lock, all)) =
              try_space-SpaceBooking space matched result v w' tried in
            let fits : AllMatch p (offered p seen everything space) true 0 inputs result =
              subst (λ l. AllMatch p (offered p seen everything space) true 0 inputs l) same
                (fits_of p inputs _ matched h n (
                  get_match_resources-AllMatch law inputs (offered p seen everything space) true w v
                    matched first)) in
            record {
              space = space;
              seen = seen;
              everything = everything;
              reached = reached;
              inventory = inventory;
              lock_seconds = t;
              data_seconds = t';
              locked = lock;
              fits = fits;
              counted = sym (ap length same) ∙ n;
              one_space = AllMatch-space p seen everything space 0 true inputs result fits;
              reserved = all;
            }
        | inr again ↦
            try_spaces-NodeBooking inputs everything start seen spaces result u w' reached inventory
              h again
      ]

  node_round-NodeBooking :
      (inputs result : List Resource) (start w w' : p.World)
      → RoundFrom p (node_round p configuration orch_id user_name handler inputs) start w
      → inputs ≢ []
      → node_round p configuration orch_id user_name handler inputs w ≡ (ok (some result), w')
      → NodeBooking p configuration orch_id user_name handler inputs result start w'
  unfolding node_round try_groups
  node_round-NodeBooking inputs result start w w' reached h e =
      let (c, w₁, k₁, e₁) = >>=-eq-ok (not_reached handler (p.now w), w) _ e in
      let (everything, w₂, k₂, e₂) =
        >>=-eq-ok (get_resources_in_cluster p configuration orch_id user_name handler w₁) _ e₁ in
      let groups =
        group_by_resource_space (get_available_resources p w₂ (get_node_resources everything)) in
      let (spaces, w₃, _, e₃) =
        >>=-eq-ok (shuffled_keys p configuration orch_id user_name handler groups w₂)
          (λ spaces. try_spaces p configuration orch_id user_name handler inputs groups spaces)
          e₂ in
      let (inventory, at₂) =
        get_resources_in_cluster-IsInventory p configuration orch_id user_name handler w₁ w₂
          everything k₂ in
      let at₁ : w ≡ w₁ = ap (λ x. x.1) k₁ in
      let body = node_round p configuration orch_id user_name handler inputs in
      try_spaces-NodeBooking inputs everything start w₂ spaces result w₃ w'
        (subst (RoundFrom p body start) (at₁ ∙ at₂) reached)
        (subst (λ x. IsInventory p configuration x everything) at₂ inventory) h e₃

  -- The handler for TimeoutError never returns.
  on_node_timeout-raises :
      (inputs result : List Resource) (w w' : p.World)
      → on_node_timeout p configuration orch_id user_name handler inputs w ≢ (ok result, w')
  unfolding on_node_timeout
  on_node_timeout-raises inputs result w w' e =
      let (everything, w₁, _, e₁) =
        >>=-eq-ok (get_resources_in_cluster p configuration orch_id user_name handler w) _ e in
      let groups = group_by_resource_space (get_node_resources everything) in
      let (spaces, w₂, _, e₂) =
        >>=-eq-ok (shuffled_keys p configuration orch_id user_name handler groups w₁)
          (λ spaces.
            log_spaces p configuration orch_id user_name handler inputs groups spaces
            >> raise timeout_error)
          e₁ in
      let (b, w₃, _, e₃) =
        >>=-eq-ok (log_spaces p configuration orch_id user_name handler inputs groups spaces w₂)
          (λ _. raise timeout_error) e₂ in
      cc

  caught_then :
      (inputs result : List Resource) (o : Option (Result (List Resource) × p.World)) (w' : p.World)
      → catch_timeout p configuration orch_id user_name handler
          (on_node_timeout p configuration orch_id user_name handler inputs)
          o
        ≡ some (ok result, w')
      → o ≡ some (ok result, w')
  caught_then inputs result none w' e = cc
  caught_then inputs result (some (ok a, v)) w' e = e
  caught_then inputs result (some (raised timeout_error, v)) w' e =
      absurd (on_node_timeout-raises inputs result v w' cc)
  caught_then inputs result (some (raised x, v)) w' e = e

  wanted-NodeBooking :
      (fuel : ℕ) (inputs result : List Resource) (w w' : p.World)
      → inputs ≢ []
      → reserve_wanted_nodes p configuration orch_id user_name handler fuel inputs w
        ≡ some (ok result, w')
      → NodeBooking p configuration orch_id user_name handler inputs result w w'
  unfolding reserve_wanted_nodes
  wanted-NodeBooking fuel [] result w w' h e = absurd (h refl)
  wanted-NodeBooking fuel (r ∷ rs) result w w' h e =
      let (v, reached, last) =
        retry_sound p (node_round p configuration orch_id user_name handler (r ∷ rs)) fuel w w'
          result (caught_then (r ∷ rs) result _ w' e) in
      node_round-NodeBooking (r ∷ rs) result w v w' reached h last

-- When `reserve_node_resources` returns for a request that has node resources, the caller holds the lock of one
-- resource space; what is returned has a resource of that space for each requested node resource, in order, which fits it,
-- is one of the resources of the cluster's configuration on the nodes that were in the cluster at the beginning
-- of a round of the loop, and was available then; and the data of each of them that has a capacity is
-- published for the caller.
pub reserve_node_resources-NodeBooking :
    {p : Platform}
    → IsLawful p
    → (configuration : p.World → Result ClusterInfo) (orch_id user_name : Text)
      (handler : TimeoutHandler) (fuel : ℕ) (request result : List Resource) (w w' : p.World)
    → get_node_resources request ≢ []
    → reserve_node_resources p configuration orch_id user_name handler fuel request w
      ≡ some (ok result, w')
    → NodeBooking p configuration orch_id user_name handler (get_node_resources request) result w w'
unfolding reserve_node_resources
reserve_node_resources-NodeBooking law configuration orch_id user_name handler fuel request result w
      w' h e =
    wanted-NodeBooking law configuration orch_id user_name handler fuel (get_node_resources request)
      result w w' h e
