-- ===== src/Transformations/Match.antt =====
-- `get_match_resources` of transformations.py: one resource of the cluster for each requested one.
pub mod Fits
pub mod Sound
pub mod Distinct
pub mod Patterns
pub mod Complete
use ocudu_infra_srs.Prelude.{
  ℕ, zero, suc, Bool, true, false, not, ◌&&◌, ◌||◌, Option, none, some, List, [], ◌∷◌, ◌++◌, map,
  ◌==◌, ltb, if◌then◌else◌, length, any, select, flat_map,
}
use ocudu_infra_srs.Prelude.Text.{Text, text_eq}
use ocudu_infra_srs.Prelude.Int.{ℤ, pos, negsuc, negate, int_eq}
use ocudu_infra_srs.Prelude.Action.{Action, pure, raise, ◌>>=◌, name_error, index_error, re_error}
use ocudu_infra_srs.Elements.{Node, get_taint_list_as_string, check_label_list}
use ocudu_infra_srs.Cluster.{Platform}
use ocudu_infra_srs.Resources.{Resource, is_cluster, resource_eq, eq_raises, set_id}
use ocudu_infra_srs.Resources.Hash.{hash_key}

-- Which object a candidate is: the one at a place of the complete list, or the copy of it that was made
-- for the dummy at an index of the request.
pub data ObjectRef : Type 0 where
  shared : ℕ → ObjectRef
  copied : (index place : ℕ) → ObjectRef

pub record Candidate : Type 0 where
  pub ref : ObjectRef
  pub resource : Resource

-- `a is b`
abbrev pub same_object : ObjectRef → ObjectRef → Bool
same_object (shared a) (shared b) = a == b
same_object (copied i a) (copied j b) = (i == j) && (a == b)
same_object _ _ = false

-- `a <= b` on texts.
text_leb : Text → Text → Bool
text_leb [] b = true
text_leb (x ∷ a) [] = false
text_leb (x ∷ a) (y ∷ b) = ltb x y || ((x == y) && text_leb a b)

insert_sorted : Text → List Text → List Text
insert_sorted a [] = a ∷ []
insert_sorted a (b ∷ l) = if text_leb a b then a ∷ b ∷ l else b ∷ insert_sorted a l

sorted : List Text → List Text
sorted [] = []
sorted (a ∷ l) = insert_sorted a (sorted l)

texts_eq : List Text → List Text → Bool
texts_eq [] [] = true
texts_eq (a ∷ l) (b ∷ m) = text_eq a b && texts_eq l m
texts_eq _ _ = false

-- `configured in reserved` compares a tuple with texts.
tuple_eq_str : List Text → Text → Bool
tuple_eq_str a b = false

abbrev is_empty : List Text → Bool
is_empty [] = true
is_empty (x ∷ l) = false

-- The conditions on the node that a request asks for and the node of a resource.
unfoldable pub node_fits : Node → Node → Bool
unfolding sorted insert_sorted text_leb texts_eq tuple_eq_str
node_fits node_in node_out =
    let configured = sorted (get_taint_list_as_string node_in.taint_list) in
    let reserved = sorted (get_taint_list_as_string node_out.taint_list) in
    (is_empty configured
      || (texts_eq configured reserved || any (tuple_eq_str configured) reserved))
    && check_label_list node_out.label_list node_in.label_list

abbrev is_none : {A : Type 0} → Option A → Bool
is_none none = true
is_none (some a) = false

-- `capacity == 0`
abbrev pub is_dummy : ℤ → Bool
is_dummy (pos zero) = true
is_dummy (pos (suc n)) = false
is_dummy (negsuc n) = false

-- A dummy gets a copy, with a capacity that no other candidate has.
pub with_copy : ℕ → Resource → ℕ → Resource → Candidate
with_copy index input place r =
    if is_dummy input.capacity
    then record { ref = copied index place; resource = record r { capacity = negate index } }
    else record { ref = shared place; resource = r }

abbrev pub as_is : ℕ → Resource → Candidate
as_is place r = record { ref = shared place; resource = r }

on_nodes : ℕ → Resource → Option Node → Option Node → ℕ → Resource → List Candidate
on_nodes index input none node_out place r = as_is place r ∷ []
on_nodes index input (some node_in) none place r = []
on_nodes index input (some node_in) (some node_out) place r =
    if node_fits node_in node_out then with_copy index input place r ∷ [] else []

module _ (p : Platform) where
  open p use {World, hash}

  -- What one resource of the complete list adds to the candidates of one request.
  unfoldable pub candidates_at : ℕ → Resource → ℕ → Resource → List Candidate
  unfolding on_nodes with_copy
  candidates_at index input place r =
      if resource_eq p input r && is_none r.id_name
      then (if is_cluster input
          then as_is place r ∷ []
          else on_nodes index input input.node r.node place r)
      else []

  -- `matching_resource_dict[index]`
  unfoldable pub candidates_from : ℕ → Resource → ℕ → List Resource → List Candidate
  candidates_from index input place [] = []
  candidates_from index input place (r ∷ rs) =
      candidates_at index input place r ++ candidates_from index input (suc place) rs

  unfoldable pub matching : ℕ → List Resource → List Resource → List (List Candidate)
  matching index [] complete = []
  matching index (input ∷ inputs) complete =
      candidates_from index input 0 complete ∷ matching (suc index) inputs complete

  -- Whether a set that has `a` takes `b` for the same element.
  unfoldable pub same_element : Candidate → Candidate → Bool
  same_element a b =
      int_eq (hash (hash_key a.resource)) (hash (hash_key b.resource))
      && (same_object a.ref b.ref || resource_eq p a.resource b.resource)

  -- Whether an element of a set is compared with `c` by an `__eq__` that raises, before one is found to be equal.
  adding_raises : Candidate → List Candidate → Bool
  adding_raises c [] = false
  adding_raises c (s ∷ seen) =
      let rest = adding_raises c seen in
      if int_eq (hash (hash_key s.resource)) (hash (hash_key c.resource))
        && (not (same_object s.ref c.ref) && eq_raises p s.resource c.resource)
      then true
      else if same_element s c
      then false
      else rest

  -- Whether `set(array)` raises, on top of a set that is there already.
  unfoldable pub set_raises : List Candidate → List Candidate → Bool
  unfolding adding_raises
  set_raises seen [] = false
  set_raises seen (c ∷ array) =
      if adding_raises c seen
      then true
      else set_raises (if any (λ s. same_element s c) seen then seen else seen ++ c ∷ []) array

  -- `len(set(array))`, on top of a set that is there already.
  unfoldable pub set_len : List Candidate → List Candidate → ℕ
  set_len seen [] = length seen
  set_len seen (c ∷ array) =
      set_len (if any (λ s. same_element s c) seen then seen else seen ++ c ∷ []) array

-- `itertools.product(*rows)`
unfoldable pub product : {A : Type 0} → List (List A) → List (List A)
product [] = [] ∷ []
product (row ∷ rows) = let rest = product rows in flat_map (λ x. map (λ array. x ∷ array) rest) row

-- `result[index].set_id(resource_input.id_name)`, where it is enabled.
abbrev pub tag : Bool → Resource → Resource → Resource
tag enable input r = if enable then set_id input.id_name r else r

-- The loop that sets the ids.
unfoldable pub set_ids : Bool → List Resource → List Candidate → List Resource
set_ids enable [] array = map (λ c. c.resource) array
set_ids enable (input ∷ inputs) [] = []
set_ids enable (input ∷ inputs) (c ∷ array) =
    tag enable input c.resource ∷ set_ids enable inputs array

module _ (p : Platform) where
  open p use {World, shuffle}

  unfoldable pub combinations : List Resource → List Resource → List (List Candidate)
  combinations inputs complete =
      select (λ array. set_len p [] array == length inputs) (product (matching p 0 inputs complete))

  -- `combinations[0]` of the shuffled combinations.
  first_of_shuffled : Bool → List Resource → List (List Candidate) → Action World (List Resource)
  first_of_shuffled enable inputs [] = raise index_error
  first_of_shuffled enable inputs (array ∷ _) = pure (set_ids enable inputs array)

  pick : Bool → List Resource → List (List Candidate) → Action World (List Resource)
  pick enable inputs [] w = pure [] w
  pick enable inputs (c ∷ cs) w =
      let (shuffled, w') = shuffle (c ∷ cs) w in first_of_shuffled enable inputs shuffled w'

  -- Whether some comparison raises re.error: each requested resource is compared with each of the complete list, and
  -- then the sets of the combinations are made.
  unfoldable pub matching_raises : List Resource → List Resource → Bool
  matching_raises inputs complete =
      any (λ input. any (eq_raises p input) complete) inputs
      || any (set_raises p []) (product (matching p 0 inputs complete))

  pick_unless : Bool → Bool → List Resource → List (List Candidate) → Action World (List Resource)
  unfolding pick first_of_shuffled
  pick_unless true enable inputs cs = raise re_error
  pick_unless false enable inputs cs = pick enable inputs cs

  -- With nothing requested the name `index` is not bound when the combinations are filtered.
  unfoldable pub get_match_resources :
      List Resource → List Resource → Bool → Action World (List Resource)
  unfolding pick_unless
  get_match_resources [] complete enable = raise name_error
  get_match_resources (input ∷ inputs) complete enable =
      pick_unless (matching_raises (input ∷ inputs) complete) enable (input ∷ inputs)
        (combinations (input ∷ inputs) complete)
