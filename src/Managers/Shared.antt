-- ===== src/Managers/Shared.antt =====
-- `reserve_cluster_resources` of managers.py: what it returns.
use ocudu_infra_srs.Prelude.{
  ℕ, ◌≡◌, ◌≢◌, refl, sym, ap, subst, ◌∙◌, true, none, some, List, [], ◌∷◌, arith, Bool-cases, inl,
  inr, All, length, ◌==◌,
}
use ocudu_infra_srs.Prelude.Text.{Text}
use ocudu_infra_srs.Prelude.Int.{ℤ}
use ocudu_infra_srs.Prelude.Action.{Result, ok, pure, >>=-eq-ok}
use ocudu_infra_srs.Timeout.{TimeoutHandler, not_reached}
use ocudu_infra_srs.Cluster.{Platform}
use ocudu_infra_srs.Cluster.Laws.{IsLawful}
use ocudu_infra_srs.Resources.{Resource}
use ocudu_infra_srs.Resources.Booking.Outcome.{Reserved}
use ocudu_infra_srs.Resources.Inventory.{ClusterInfo}
use ocudu_infra_srs.Transformations.{get_cluster_resources, get_available_resources}
use ocudu_infra_srs.Transformations.Match.{get_match_resources}
use ocudu_infra_srs.Transformations.Match.Sound.{AllMatch, get_match_resources-AllMatch}
use ocudu_infra_srs.Managers.{
  get_resources_in_cluster, book, book_matching, book_available, check_all, cluster_round,
  reserve_wanted_cluster, reserve_cluster_resources,
}
use ocudu_infra_srs.Managers.Offer.{IsInventory, get_resources_in_cluster-IsInventory}
use ocudu_infra_srs.Managers.Book.{RoundFrom, retry_sound, fits_of, book-Reserved}

-- `result` is a reservation for `inputs` by the loop that begins in `start` and ends in `w`: it fits the request within
-- the cluster resources that were available at the beginning of a round of the loop, and each of them is
-- reserved.
pub record ClusterBooking (p : Platform) (configuration : p.World → Result ClusterInfo)
    (orch_id user_name : Text) (handler : TimeoutHandler) (inputs result : List Resource)
    (start w : p.World) : Type 0 where
  pub seen : p.World
  pub everything : List Resource
  pub reached :
      RoundFrom p (cluster_round p configuration orch_id user_name handler inputs) start seen
  pub inventory : IsInventory p configuration seen everything
  pub seconds : ℤ
  pub fits :
      AllMatch p
        (get_available_resources p seen (get_cluster_resources everything))
        true
        0
        inputs
        result
  pub counted : length result ≡ length inputs
  pub reserved : All (Reserved p orch_id user_name seconds w) result

module _ {p : Platform} (law : IsLawful p) (configuration : p.World → Result ClusterInfo)
    (orch_id user_name : Text) (handler : TimeoutHandler) where
  matching_then :
      (inputs matching result : List Resource) (v w' : p.World)
      → book_matching p configuration orch_id user_name handler inputs matching v
        ≡ (ok (some result), w')
      → (length matching ≡ length inputs)
        × (book p configuration orch_id user_name handler matching v ≡ (ok (some result), w'))
  unfolding book_matching
  matching_then inputs matching result v w' e =
      elim (Bool-cases (length matching == length inputs)) [
        | inl k ↦ (ground arith, rw k at e)
        | inr k ↦ let no : pure {W = p.World} none v ≡ (ok (some result), w') = rw k at e in cc
      ]

  cluster_round-ClusterBooking :
      (inputs result : List Resource) (start w w' : p.World)
      → RoundFrom p (cluster_round p configuration orch_id user_name handler inputs) start w
      → inputs ≢ []
      → cluster_round p configuration orch_id user_name handler inputs w ≡ (ok (some result), w')
      → ClusterBooking p configuration orch_id user_name handler inputs result start w'
  unfolding cluster_round book_available
  cluster_round-ClusterBooking inputs result start w w' reached h e =
      let (c, w₁, k₁, e₁) = >>=-eq-ok (not_reached handler (p.now w), w) _ e in
      let (everything, w₂, k₂, e₂) =
        >>=-eq-ok (get_resources_in_cluster p configuration orch_id user_name handler w₁) _ e₁ in
      let available = get_available_resources p w₂ (get_cluster_resources everything) in
      let (d, w₃, _, e₃) =
        >>=-eq-ok (check_all p configuration orch_id user_name handler inputs everything w₂)
          (λ _. book_available p configuration orch_id user_name handler inputs available) e₂ in
      let (matching, w₄, first, e₄) =
        >>=-eq-ok (get_match_resources p inputs available true w₃)
          (book_matching p configuration orch_id user_name handler inputs) e₃ in
      let (n, booked) = matching_then inputs matching result w₄ w' e₄ in
      let (same, _, (t, all)) =
        book-Reserved law configuration orch_id user_name handler matching result w₄ w' booked in
      let (inventory, at₂) =
        get_resources_in_cluster-IsInventory p configuration orch_id user_name handler w₁ w₂
          everything k₂ in
      let at₁ : w ≡ w₁ = ap (λ x. x.1) k₁ in
      let body = cluster_round p configuration orch_id user_name handler inputs in
      record {
        seen = w₂;
        everything = everything;
        reached = subst (RoundFrom p body start) (at₁ ∙ at₂) reached;
        inventory = subst (λ x. IsInventory p configuration x everything) at₂ inventory;
        seconds = t;
        fits =
            subst (λ l. AllMatch p available true 0 inputs l) same
              (fits_of p inputs available matching h n
                (get_match_resources-AllMatch law inputs available true w₃ w₄ matching first));
        counted = sym (ap length same) ∙ n;
        reserved = all;
      }

  wanted-ClusterBooking :
      (fuel : ℕ) (inputs result : List Resource) (w w' : p.World)
      → inputs ≢ []
      → reserve_wanted_cluster p configuration orch_id user_name handler fuel inputs w
        ≡ some (ok result, w')
      → ClusterBooking p configuration orch_id user_name handler inputs result w w'
  unfolding reserve_wanted_cluster
  wanted-ClusterBooking fuel [] result w w' h e = absurd (h refl)
  wanted-ClusterBooking fuel (r ∷ rs) result w w' h e =
      let (v, reached, last) =
        retry_sound p (cluster_round p configuration orch_id user_name handler (r ∷ rs)) fuel w w'
          result e in
      cluster_round-ClusterBooking (r ∷ rs) result w v w' reached h last

-- When `reserve_cluster_resources` returns for a request that has cluster resources, what is returned has a cluster
-- resource for each requested one, in order, which fits it, is one of the resources of the cluster's configuration
-- at the beginning of a round of the loop, and was available then; and each of them that has a capacity is
-- locked for the caller and its data is published.
pub reserve_cluster_resources-ClusterBooking :
    {p : Platform}
    → IsLawful p
    → (configuration : p.World → Result ClusterInfo) (orch_id user_name : Text)
      (handler : TimeoutHandler) (fuel : ℕ) (request result : List Resource) (w w' : p.World)
    → get_cluster_resources request ≢ []
    → reserve_cluster_resources p configuration orch_id user_name handler fuel request w
      ≡ some (ok result, w')
    → ClusterBooking p configuration orch_id user_name handler
        (get_cluster_resources request)
        result
        w
        w'
unfolding reserve_cluster_resources
reserve_cluster_resources-ClusterBooking law configuration orch_id user_name handler fuel request
      result w w' h e =
    wanted-ClusterBooking law configuration orch_id user_name handler fuel
      (get_cluster_resources request) result w w' h e
