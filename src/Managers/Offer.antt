-- ===== src/Managers/Offer.antt =====
-- What a reservation of node resources by managers.py amounts to.
use ocudu_infra_srs.Prelude.{
  ℕ, suc, ◌≡◌, refl, ap, subst, ◌∙◌, Bool, true, false, some, List, [], ◌∷◌, inl, inr, All, length,
  In, select-In,
}
use ocudu_infra_srs.Prelude.Text.{Text}
use ocudu_infra_srs.Prelude.Int.{ℤ}
use ocudu_infra_srs.Cluster.{Platform, manifest, get_retina_node_dict}
use ocudu_infra_srs.Cluster.Laws.{config_map_at}
use ocudu_infra_srs.Locks.{get_space_name, space_lock}
use ocudu_infra_srs.Prelude.Action.{Result, ok, raised}
use ocudu_infra_srs.Timeout.{TimeoutHandler}
use ocudu_infra_srs.Resources.{Resource}
use ocudu_infra_srs.Resources.Booking.Outcome.{Reserved}
use ocudu_infra_srs.Transformations.{
  get_node_resources, get_available_resources, group_by_resource_space,
}
use ocudu_infra_srs.Transformations.Groups.{
  group_at, has_space, has_space-eq, group_by_resource_space-select,
}
use ocudu_infra_srs.Resources.Inventory.{ClusterInfo, get_resource_from_cluster_info}
use ocudu_infra_srs.Managers.{cluster_inventory, get_resources_in_cluster, node_round}
use ocudu_infra_srs.Managers.Book.{RoundFrom}
use ocudu_infra_srs.Transformations.Match.{tag}
use ocudu_infra_srs.Transformations.Match.Sound.{IsMatch, AllMatch}

-- The resources that the groups offer for a space.
abbrev pub offered : (p : Platform) → p.World → List Resource → ℕ → List Resource
offered p w everything space =
    group_at space
      (group_by_resource_space (get_available_resources p w (get_node_resources everything)))

-- The resources of the cluster in a state: those of the decoded configuration, on the nodes that are in the cluster then.
abbrev pub IsInventory :
    (p : Platform) → (p.World → Result ClusterInfo) → p.World → List Resource → Type 0
IsInventory p configuration w everything =
    (info : ClusterInfo) × (configuration w ≡ ok info)
    × (get_resource_from_cluster_info info (get_retina_node_dict p false false w) ≡ ok everything)

-- `result` is a reservation for `inputs` by the loop that begins in `start` and ends in `w`: the lock of one space is
-- the caller's, `result` fits the request within the resources of the cluster in that space that were available at
-- the beginning of a round of the loop, and each of them is reserved.
pub record NodeBooking (p : Platform) (configuration : p.World → Result ClusterInfo)
    (orch_id user_name : Text) (handler : TimeoutHandler) (inputs result : List Resource)
    (start w : p.World) : Type 0 where
  pub space : ℕ
  pub seen : p.World
  pub everything : List Resource
  pub reached : RoundFrom p (node_round p configuration orch_id user_name handler inputs) start seen
  pub inventory : IsInventory p configuration seen everything
  pub lock_seconds : ℤ
  pub data_seconds : ℤ
  pub locked :
      config_map_at p w (get_space_name space)
      ≡ some (manifest (space_lock space orch_id user_name lock_seconds))
  pub fits : AllMatch p (offered p seen everything space) true 0 inputs result
  pub counted : length result ≡ length inputs
  pub one_space : All (λ r. r.space ≡ some space) result
  pub reserved : All (Reserved p orch_id user_name data_seconds w) result

cluster_inventory-IsInventory :
    (p : Platform) (configuration : p.World → Result ClusterInfo) (orch_id user_name : Text)
    (handler : TimeoutHandler) (w : p.World) (o : Result ClusterInfo) (everything : List Resource)
    → configuration w ≡ o
    → cluster_inventory p configuration orch_id user_name handler w o ≡ ok everything
    → IsInventory p configuration w everything
unfolding cluster_inventory
cluster_inventory-IsInventory p configuration orch_id user_name handler w (raised e) everything k
      h =
    cc
cluster_inventory-IsInventory p configuration orch_id user_name handler w (ok info) everything k h =
    (info, k, h)

pub get_resources_in_cluster-IsInventory :
    (p : Platform) (configuration : p.World → Result ClusterInfo) (orch_id user_name : Text)
    (handler : TimeoutHandler) (w w' : p.World) (everything : List Resource)
    → get_resources_in_cluster p configuration orch_id user_name handler w ≡ (ok everything, w')
    → IsInventory p configuration w everything × (w ≡ w')
unfolding get_resources_in_cluster
get_resources_in_cluster-IsInventory p configuration orch_id user_name handler w w' everything e = (
  cluster_inventory-IsInventory p configuration orch_id user_name handler w (configuration w)
      everything refl (ap (λ (x : Result (List Resource) × p.World). x.0) e),
  ap (λ (x : Result (List Resource) × p.World). x.1) e,
)

tag-space : (enable : Bool) (input r : Resource) → (tag enable input r).space ≡ r.space
tag-space true input r = refl
tag-space false input r = refl

IsMatch-space :
    (p : Platform) (w : p.World) (everything : List Resource) (space index : ℕ) (enable : Bool)
    (input r : Resource)
    → IsMatch p (offered p w everything space) index input (tag enable input) r
    → r.space ≡ some space
IsMatch-space p w everything space index enable input r m =
    let available = get_available_resources p w (get_node_resources everything) in
    let (i, here_too) =
      select-In (λ r. has_space space r.space) available
        (subst (λ l. In m.source l) (group_by_resource_space-select space available) m.listed) in
    let at_source : m.source.space ≡ some space = has_space-eq space m.source.space here_too in
    elim (m.given) [
      | inl e ↦ ap (λ (x : Resource). x.space) e ∙ tag-space enable input m.source ∙ at_source
      | inr (d, e) ↦ ap (λ (x : Resource). x.space) e ∙ tag-space enable input _ ∙ at_source
    ]

pub AllMatch-space :
    (p : Platform) (w : p.World) (everything : List Resource) (space index : ℕ) (enable : Bool)
    (inputs result : List Resource)
    → AllMatch p (offered p w everything space) enable index inputs result
    → All (λ r. r.space ≡ some space) result
AllMatch-space p w everything space index enable [] [] h = tt
AllMatch-space p w everything space index enable [] (r ∷ rs) h = elim h [ ]
AllMatch-space p w everything space index enable (i ∷ is) [] h = elim h [ ]
AllMatch-space p w everything space index enable (i ∷ is) (r ∷ rs) h = (
  IsMatch-space p w everything space index enable i r h.0,
  AllMatch-space p w everything space (suc index) enable is rs h.1,
)
