-- ===== src/Requests/NodeChoice/Kept.antt =====
-- Which nodes `_match_node` of resources.py keeps.
use ocudu_infra_srs.Prelude.{
  ℕ, zero, suc, ◌≡◌, refl, true, false, Option, none, some, List, [], ◌∷◌, ◌++◌, select, select-In,
  length, inl, inr, Bool-cases, All, In, here, there, All-append, All-In,
}
use mathlib.Core.List.{append_assoc}
use ocudu_infra_srs.Prelude.Text.{Text, text_eq, text_eq_refl}
use ocudu_infra_srs.Prelude.Dict.{Dict, values, lookup}
use ocudu_infra_srs.Prelude.Action.{ok}
use ocudu_infra_srs.Elements.{LabelDefinition, Node, check_label_list}
use ocudu_infra_srs.Elements.Labels.{IsPlain, HasUnmarked, check_label_list-HasUnmarked}
use ocudu_infra_srs.Cluster.{Platform, get_retina_node_dict}
use ocudu_infra_srs.Cluster.Plain.{get_retina_node_dict-IsPlain}
use ocudu_infra_srs.Cluster.Nodes.{WellKeyed, get_retina_node_dict-WellKeyed}
use ocudu_infra_srs.Resources.{is_node}
use ocudu_infra_srs.Requests.{RequestReservation}
use ocudu_infra_srs.Requests.NodeChoice.{
  by_hostname, remove, keep_matching, nth, picked, pick_node, on_resources, named, match_node,
}

abbrev Differs : Node → Node → Type 0
Differs n m = text_eq n.name m.name ≡ false

-- No two nodes of the list have the same name.
abbrev DistinctNames : List Node → Type 0
DistinctNames [] = Unit
DistinctNames (n ∷ nodes) = All (λ m. Differs m n) nodes × DistinctNames nodes

remove-append :
    (n : Node) (done rest : List Node)
    → All (Differs n) done
    → remove n (done ++ n ∷ rest) ≡ ok (done ++ rest)
unfolding remove
remove-append n [] rest h = rw (text_eq_refl n.name) refl
remove-append n (m ∷ done) rest h = rw (h.0, remove-append n done rest h.1) refl

abbrev fitting : List LabelDefinition → List Node → List Node
fitting labels = select (λ n. check_label_list n.label_list labels)

All-heads :
    (n : Node) (done nodes : List Node)
    → All (λ m. All (Differs m) done) nodes
    → All (λ m. Differs m n) nodes
    → All (λ m. All (Differs m) (done ++ n ∷ [])) nodes
All-heads n done [] h k = tt
All-heads n done (m ∷ nodes) h k =
    (All-append (Differs m) done (n ∷ []) h.0 (k.0, tt), All-heads n done nodes h.1 k.1)

keep_matching-append :
    (labels : List LabelDefinition) (nodes done : List Node)
    → All (λ m. All (Differs m) done) nodes
    → DistinctNames nodes
    → keep_matching labels nodes (done ++ nodes) ≡ ok (done ++ fitting labels nodes)
unfolding keep_matching
keep_matching-append labels [] done h d = refl
keep_matching-append labels (n ∷ nodes) done h d =
    elim (Bool-cases (check_label_list n.label_list labels)) [
      | inl e ↦
          let rest =
            keep_matching-append labels nodes (done ++ n ∷ []) (All-heads n done nodes h.1 d.0)
              d.1 in
          rw
            (
              e,
              ← append_assoc done (n ∷ []) nodes,
              ← append_assoc done (n ∷ []) (fitting labels nodes),
            )
            rest
      | inr e ↦
          rw (e, remove-append n done nodes h.0) (keep_matching-append labels nodes done h.1 d.1)
    ]

apart : (nodes : List Node) → All (λ m. All (Differs m) []) nodes
apart [] = tt
apart (n ∷ nodes) = (tt, apart nodes)

nth-In : (i : ℕ) (nodes : List Node) {n : Node} → nth i nodes ≡ some n → In n nodes
unfolding nth
nth-In i [] h = cc
nth-In zero (m ∷ nodes) {n} h = let same : n ≡ m = cc in rw same here
nth-In (suc i) (m ∷ nodes) h = there (nth-In i nodes h)

module _ (p : Platform) (randint : ℕ → p.World → ℕ × p.World) where
  picked-some :
      (o : Option Node) (n : Node) (w w' : p.World)
      → picked p randint o w ≡ (ok (some n), w')
      → o ≡ some n
  unfolding picked
  picked-some none n w w' e = cc
  picked-some (some m) n w w' e = cc

  pick_node-In :
      (nodes : List Node) (n : Node) (w w' : p.World)
      → pick_node p randint (ok nodes) w ≡ (ok (some n), w')
      → In n nodes
  unfolding pick_node
  pick_node-In [] n w w' e = cc
  pick_node-In (m ∷ nodes) n w w' e =
      let (i, v) = randint (length nodes) w in
      nth-In i (m ∷ nodes) (picked-some (nth i (m ∷ nodes)) n v w' e)

apart_from :
    (k : Text) (n : Node) (d : Dict Node)
    → k ≡ n.name
    → lookup k d ≡ none
    → WellKeyed (λ n. n.name) d
    → All (λ m. Differs m n) (values d)
apart_from k n [] e h wf = tt
apart_from k n ((j, m) ∷ d) e h wf = elim (Bool-cases (text_eq j k)) [
  | inl same ↦ let no : some m ≡ none = rw same at h in cc
  | inr other ↦
      let (named, _, rest) = wf in
      (rw (← named, ← e) other, apart_from k n d e (rw other at h) rest)
]

WellKeyed-DistinctNames : (d : Dict Node) → WellKeyed (λ n. n.name) d → DistinctNames (values d)
WellKeyed-DistinctNames [] h = tt
WellKeyed-DistinctNames ((k, n) ∷ d) h =
    let (named, absent, rest) = h in
    (apart_from k n d named absent rest, WellKeyed-DistinctNames d rest)

-- Where no label names a node and no node resource is reserved, the node that `_match_node` returns is one of the
-- cluster's, and has every label that is asked for without the mark reverse.
pub match_node-HasUnmarked :
    (p : Platform) (randint : ℕ → p.World → ℕ × p.World) (r : RequestReservation) (n : Node)
    (w w' : p.World)
    → by_hostname (get_retina_node_dict p false true w) r.requirement_manager.label_list ≡ none
    → select is_node r.reserved_resources ≡ []
    → match_node p randint r w ≡ (ok (some n), w')
    → In n (values (get_retina_node_dict p false true w))
      × All (HasUnmarked n.label_list) r.requirement_manager.label_list
unfolding match_node named on_resources
match_node-HasUnmarked p randint r n w w' unnamed free e =
    let nodes = values (get_retina_node_dict p false true w) in
    let labels = r.requirement_manager.label_list in
    let kept = keep_matching-append labels nodes [] (apart nodes) (
      WellKeyed-DistinctNames (get_retina_node_dict p false true w)
        (get_retina_node_dict-WellKeyed p false true w)) in
    let i : In n (fitting labels nodes) =
      pick_node-In p randint (fitting labels nodes) n w w' (rw (unnamed, free, kept) at e) in
    let (j, ok_labels) = select-In (λ n. check_label_list n.label_list labels) nodes i in
    let plain : All IsPlain n.label_list =
      All-In (λ m. All IsPlain m.label_list) nodes (get_retina_node_dict-IsPlain p false true w)
        j in
    (j, (check_label_list-HasUnmarked n.label_list labels plain).0 ok_labels)
