-- ===== src/Requests/Assignment.antt =====
-- How `PoolRequestReservation.reserve_node_resources` of managers.py shares out what was reserved.
use ocudu_infra_srs.Prelude.{
  ℕ, suc, ◌≡◌, ◌≢◌, refl, ap, inl, inr, true, Bool, Option, none, some, List, [], ◌∷◌, ◌++◌, map,
  length, arith, ◌↔◌, subst, sym, select, In, select-In, In-select,
}
use ocudu_infra_srs.Prelude.Text.{Text, eq_of_text_eq, text_eq_refl}
use ocudu_infra_srs.Prelude.Action.{Result, ok, raised}
use ocudu_infra_srs.Timeout.{TimeoutHandler}
use ocudu_infra_srs.Cluster.{Platform}
use ocudu_infra_srs.Cluster.Laws.{IsLawful}
use ocudu_infra_srs.Resources.{Resource}
use ocudu_infra_srs.Resources.Inventory.{ClusterInfo}
use ocudu_infra_srs.Transformations.{get_node_resources, get_resources_by_id, has_id}
use ocudu_infra_srs.Transformations.Match.{tag}
use ocudu_infra_srs.Transformations.Match.Sound.{IsMatch, AllMatch}
use ocudu_infra_srs.Managers.{reserve_node_resources}
use ocudu_infra_srs.Managers.Nodes.{reserve_node_resources-NodeBooking}
use ocudu_infra_srs.Managers.Offer.{NodeBooking}
use ocudu_infra_srs.Requests.{
  RequestReservation, get_all_resources, add_reserved_resource_list, assign, assigned,
  pool_reserve_node_resources,
}

IsMatch-id_name :
    (p : Platform) (complete : List Resource) (index : ℕ) (input r : Resource)
    → IsMatch p complete index input (tag true input) r
    → r.id_name ≡ input.id_name
IsMatch-id_name p complete index input r m = elim (m.given) [
  | inl e ↦ ap (λ (x : Resource). x.id_name) e
  | inr (d, e) ↦ ap (λ (x : Resource). x.id_name) e
]

-- Of the resources that were chosen as many have a given id as of those that were requested.
AllMatch-get_resources_by_id :
    (p : Platform) (complete : List Resource) (index : ℕ) (inputs result : List Resource)
    (id : Text)
    → AllMatch p complete true index inputs result
    → length (get_resources_by_id result id) ≡ length (get_resources_by_id inputs id)
unfolding get_resources_by_id
AllMatch-get_resources_by_id p complete index [] [] id h = refl
AllMatch-get_resources_by_id p complete index [] (r ∷ rs) id h = elim h [ ]
AllMatch-get_resources_by_id p complete index (x ∷ xs) [] id h = elim h [ ]
AllMatch-get_resources_by_id p complete index (x ∷ xs) (r ∷ rs) id h =
    let rest = AllMatch-get_resources_by_id p complete (suc index) xs rs id h.1 in
    let same = IsMatch-id_name p complete index x r h.0 in rw same (ground (arith, rest))

module _ {p : Platform} (law : IsLawful p) (configuration : p.World → Result ClusterInfo)
    (orch_id user_name : Text) (handler : TimeoutHandler) where
  assigned_ok :
      (requests out : List RequestReservation) (o : Option (Result (List Resource) × p.World))
      (w' : p.World)
      → assigned p configuration orch_id user_name handler requests o ≡ some (ok out, w')
      → (result : List Resource) × (o ≡ some (ok result, w')) × (out ≡ map (assign result) requests)
  unfolding assigned
  assigned_ok requests out none w' e = cc
  assigned_ok requests out (some (raised x, v)) w' e = cc
  assigned_ok requests out (some (ok result, v)) w' e = (result, cc, cc)

-- A request after the sharing: `given` is added to its reserved resources, and nothing else is changed. What is given is
-- what was reserved under its name, all of it and in order.
abbrev pub Receives : List Resource → RequestReservation → RequestReservation → Type 0
Receives result r r' =
    (given : List Resource) × (r' ≡ record r { reserved_resources = r.reserved_resources ++ given })
    × (given ≡ select (λ x. has_id r.name x.id_name) result)
    × ((x : Resource) → In x given ↔ (In x result × (x.id_name ≡ some r.name)))

-- Each request in its place.
abbrev pub Shared : List Resource → List RequestReservation → List RequestReservation → Type 0
Shared result [] [] = Unit
Shared result (r ∷ rs) (r' ∷ out) = Receives result r r' × Shared result rs out
Shared result _ _ = ⊥

has_id-eq : (name : Text) (o : Option Text) → has_id name o ≡ true → o ≡ some name
has_id-eq name none h = cc
has_id-eq name (some s) h = ap some (eq_of_text_eq s name h)

eq-has_id : (name : Text) (o : Option Text) → o ≡ some name → has_id name o ≡ true
eq-has_id name o e = rw e (text_eq_refl name)

assign-Receives :
    (result : List Resource) (r : RequestReservation) → Receives result r (assign result r)
unfolding assign add_reserved_resource_list get_resources_by_id
assign-Receives result r =
    let mine : Resource → Bool = λ x. has_id r.name x.id_name in
    (
      select mine result,
      refl,
      refl,
      λ x. (
        λ i. let (j, h) = select-In mine result i in (j, has_id-eq r.name x.id_name h),
        λ (j, h). In-select mine result j (eq-has_id r.name x.id_name h),
      ),
    )

assign-Shared :
    (result : List Resource) (rs : List RequestReservation)
    → Shared result rs (map (assign result) rs)
assign-Shared result [] = tt
assign-Shared result (r ∷ rs) = (assign-Receives result r, assign-Shared result rs)

pub pool_reserve_node_resources-NodeBooking :
    {p : Platform}
    → IsLawful p
    → (configuration : p.World → Result ClusterInfo) (orch_id user_name : Text)
      (handler : TimeoutHandler) (fuel : ℕ) (requests out : List RequestReservation)
      (w w' : p.World)
    → get_node_resources (get_all_resources requests).1 ≢ []
    → pool_reserve_node_resources p configuration orch_id user_name handler fuel requests w
      ≡ some (ok out, w')
    → (result : List Resource) × NodeBooking p configuration orch_id user_name handler
        (get_node_resources (get_all_resources requests).1)
        result
        w
        w'
      × Shared result (get_all_resources requests).0 out
      × ((id : Text)
          → length (get_resources_by_id result id)
            ≡ length (get_resources_by_id (get_node_resources (get_all_resources requests).1) id))
unfolding pool_reserve_node_resources
pool_reserve_node_resources-NodeBooking {p} law configuration orch_id user_name handler fuel
      requests out w w' h e =
    let (result, run, shared) =
      assigned_ok law configuration orch_id user_name handler (get_all_resources requests).0 out
        (reserve_node_resources p configuration orch_id user_name handler fuel
          (get_all_resources requests).1 w)
        w' e in
    let booking =
      reserve_node_resources-NodeBooking law configuration orch_id user_name handler fuel
        (get_all_resources requests).1 result w w' h run in
    (
      result,
      booking,
      subst (Shared result (get_all_resources requests).0) (sym shared)
          (assign-Shared result (get_all_resources requests).0),
      λ id.
          AllMatch-get_resources_by_id p _ 0 (get_node_resources (get_all_resources requests).1)
            result id booking.fits,
    )
