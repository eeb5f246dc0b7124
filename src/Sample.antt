-- ===== src/Sample.antt =====
-- A concrete cluster, on which the hypotheses about the `Platform` hold, for the examples.
pub mod Runs
pub mod Witnesses
pub mod Ports
pub mod Processes
pub mod Pods
use ocudu_infra_srs.Prelude.{
  ℕ, zero, suc, ◌+◌, ◌*◌, ◌≤◌, ◌≡◌, ◌≢◌, refl, sym, ap, subst, ◌∙◌, ◌⊎◌, inl, inr, Bool, true,
  false, not, ◌||◌, Option, none, some, List, [], ◌∷◌, ◌++◌, arith, if◌then◌else◌, length, select,
  Bool-cases, Option-cases,
}
use ocudu_infra_srs.Prelude.Text.{Text, text, text_eq, text_eq_iff, decimal}
use ocudu_infra_srs.Prelude.Dict.{Dict, lookup, insert, lookup-insert}
use ocudu_infra_srs.Prelude.Int.{ℤ, pos}
use ocudu_infra_srs.Cluster.{
  ConfigMap, ClusterNode, Response, accepted, api_exception, HashValue, str, int, nothing, strs,
  enum, field, Platform, dict_of, get_config_map_dict,
}
use ocudu_infra_srs.Cluster.Laws.{IsLawful, config_map_at}
use ocudu_infra_srs.Locks.Table.{IsDeleting}

pub record World : Type 0 where
  pub maps : List (Text × ConfigMap)
  pub nodes : List ClusterNode
  pub clock : ℕ

abbrev dict : World → Dict ConfigMap
dict w = dict_of [] w.maps

abbrev create_if : Option ConfigMap → Text → ConfigMap → World → Response × World
create_if (some _) name m w = (api_exception (some 409), w)
create_if none name m w = (accepted, record w { maps = w.maps ++ (name, m) ∷ [] })

abbrev without : Text → List (Text × ConfigMap) → List (Text × ConfigMap)
without name = select (λ x. not (text_eq name x.0))

abbrev delete_if : Option ConfigMap → Text → World → Response × World
delete_if none name w = (api_exception (some 404), w)
delete_if (some _) name w = (accepted, record w { maps = without name w.maps })

abbrev text_code : Text → ℕ
text_code [] = 7
text_code (c ∷ s) = c + 31 * text_code s

abbrev code : List HashValue → ℕ
code [] = 1
code (str s ∷ keys) = text_code s + 17 * code keys
code (int n ∷ keys) = n + 13 * code keys
code (enum s ∷ keys) = text_code s + 19 * code keys
code (_ ∷ keys) = 3 * code keys

abbrev pub platform : Platform
platform = record {
  World = World;
  list_namespaced_config_map = λ w. w.maps;
  create_namespaced_config_map = λ name m w. create_if (lookup name (dict w)) name m w;
  delete_namespaced_config_map = λ name w. delete_if (lookup name (dict w)) name w;
  list_node = λ w. w.nodes;
  now = λ w. w.clock;
  sleep = λ ms w. record w { clock = w.clock + ms };
  shuffle = λ xs w. (xs, w);
  hash = λ keys. pos (code keys);
  re_compiles = λ pattern. true;
  re_match = λ pattern s. text_eq pattern (text "^.*$") || text_eq pattern (b'^' ∷ s ++ text "$");
  yaml_dump = λ l. decimal (length l);
}

dict_of-append :
    (xs : List (Text × ConfigMap)) (d : Dict ConfigMap) (name : Text) (m : ConfigMap)
    → dict_of d (xs ++ (name, m) ∷ []) ≡ insert name m (dict_of d xs)
unfolding dict_of
dict_of-append [] d name m = refl
dict_of-append ((k, v) ∷ xs) d name m = dict_of-append xs (insert k v d) name m

without-lookup :
    (name n : Text) (xs : List (Text × ConfigMap)) (d d' : Dict ConfigMap)
    → text_eq name n ≡ false
    → lookup n d ≡ lookup n d'
    → lookup n (dict_of d (without name xs)) ≡ lookup n (dict_of d' xs)
unfolding dict_of
without-lookup name n [] d d' h e = e
without-lookup name n ((k, v) ∷ xs) d d' h e = elim (Bool-cases (text_eq name k)) [
  | inl same ↦ rw same (
      without-lookup name n xs d (insert k v d') h (
        ground
          (arith, lookup-insert k n v d', text_eq_iff name k, text_eq_iff name n, text_eq_iff k n)))
  | inr other ↦ rw other (
      without-lookup name n xs (insert k v d) (insert k v d') h
        (ground (arith, lookup-insert k n v d, lookup-insert k n v d')))
]

created_law :
    (o : Option ConfigMap) (name : Text) (m : ConfigMap) (w w' : World)
    → lookup name (dict w) ≡ o
    → create_if o name m w ≡ (accepted, w')
    → (lookup name (dict w) ≡ none)
      × ((n : Text) → lookup n (dict w') ≡ (if text_eq name n then some m else lookup n (dict w)))
created_law (some x) name m w w' h e = cc
created_law none name m w w' h e = (
  h,
  λ n.
      rw (← ap (λ (r : Response × World). dict r.1) e, dict_of-append w.maps [] name m)
        (lookup-insert name n m (dict w)),
)

refused_law :
    (o : Option ConfigMap) (name : Text) (m : ConfigMap) (w w' : World) (status : Option ℕ)
    → create_if o name m w ≡ (api_exception status, w')
    → (status ≢ some 0) × ((n : Text) → lookup n (dict w') ≡ lookup n (dict w))
refused_law none name m w w' status e = cc
refused_law (some x) name m w w' status e =
    let code_is : some 409 ≡ status = cc in
    (
      λ z. absurd (
          omega
            (arith, ap {B = ℕ} (λ (s : Option ℕ). elim s [ none ↦ 0 | some n ↦ n ]) (code_is ∙ z))),
      λ n. ap (λ (r : Response × World). lookup n (dict r.1)) (sym e),
    )

deleted_law :
    (o : Option ConfigMap) (name n : Text) (w : World)
    → text_eq name n ≡ false
    → lookup n (dict (delete_if o name w).1) ≡ lookup n (dict w)
deleted_law none name n w h = refl
deleted_law (some x) name n w h = without-lookup name n w.maps [] [] h refl

without-gone :
    (name : Text) (xs : List (Text × ConfigMap)) (d : Dict ConfigMap)
    → lookup name d ≡ none
    → lookup name (dict_of d (without name xs)) ≡ none
unfolding dict_of
without-gone name [] d e = e
without-gone name ((k, v) ∷ xs) d e = elim (Bool-cases (text_eq name k)) [
  | inl same ↦ rw same (without-gone name xs d e)
  | inr other ↦ rw other (
      without-gone name xs (insert k v d)
        (ground (arith, lookup-insert k name v d, text_eq_iff name k, text_eq_iff k name)))
]

gone_law :
    (o : Option ConfigMap) (name : Text) (w w' : World)
    → delete_if o name w ≡ (accepted, w')
    → lookup name (dict w') ≡ none
gone_law none name w w' e = cc
gone_law (some x) name w w' e =
    subst (λ (r : Response × World). lookup name (dict r.1) ≡ none) e
      (without-gone name w.maps [] refl)

kept_law :
    (o : Option ConfigMap) (name n : Text) (w w' : World) (status : Option ℕ)
    → delete_if o name w ≡ (api_exception status, w')
    → lookup n (dict w') ≡ lookup n (dict w)
kept_law none name n w w' status e = ap (λ (r : Response × World). lookup n (dict r.1)) (sym e)
kept_law (some x) name n w w' status e = cc

missing_law :
    (o : Option ConfigMap) (name : Text) (w w' : World) (status : ℕ)
    → lookup name (dict w) ≡ o
    → delete_if o name w ≡ (api_exception (some status), w')
    → lookup name (dict w) ≡ none
missing_law none name w w' status h e = h
missing_law (some x) name w w' status h e = cc

create_later_law :
    (o : Option ConfigMap) (name : Text) (m : ConfigMap) (w : World)
    → w.clock ≤ (create_if o name m w).1.clock
create_later_law none name m w = omega arith
create_later_law (some x) name m w = omega arith

pub platform-IsLawful : IsLawful platform
unfolding get_config_map_dict
platform-IsLawful = record {
  created = λ name m w w' e. created_law (lookup name (dict w)) name m w w' refl e;
  refused = λ name m w w' status e. refused_law (lookup name (dict w)) name m w w' status e;
  deleted = λ name n w h. deleted_law (lookup name (dict w)) name n w h;
  create_later = λ name m w. create_later_law (lookup name (dict w)) name m w;
  sleep_later = λ ms w. omega arith;
  shuffle_later = λ xs w. omega arith;
  shuffle_keeps = λ xs w n. refl;
  shuffle_sound = λ xs w x i. i;
  shuffle_complete = λ xs w x i. i;
}

pub platform-IsDeleting : IsDeleting platform
unfolding get_config_map_dict
platform-IsDeleting = record {
  gone = λ name w w' e. gone_law (lookup name (dict w)) name w w' e;
  kept = λ name n w w' status e. kept_law (lookup name (dict w)) name n w w' status e;
  missing = λ name w w' status e. missing_law (lookup name (dict w)) name w w' status refl e;
}
