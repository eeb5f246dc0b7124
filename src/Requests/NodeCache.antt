-- ===== src/Requests/NodeCache.antt =====
-- `_get_node` of `RequestReservation` (reservation/resources.py): the node of a request's pod is chosen once.
use ocudu_infra_srs.Prelude.{ℕ, ◌≡◌, refl, sym, ap, ◌∙◌, Option, none, some, List}
use ocudu_infra_srs.Prelude.Text.{Text}
use ocudu_infra_srs.Prelude.Action.{
  Result, ok, raised, attribute_error, Action, pure, raise, ◌>>=◌, and_then,
}
use ocudu_infra_srs.Elements.{Node, TaintDefinition}
use ocudu_infra_srs.Cluster.{Platform}
use ocudu_infra_srs.Requests.{RequestReservation}
use ocudu_infra_srs.Requests.NodeChoice.{match_node}

module _ (p : Platform) (randint : ℕ → p.World → ℕ × p.World) where
  -- The request keeps the node, so it is part of what changes.
  abbrev pub OnRequest : Type 0 → Type 0
  OnRequest A = Action (RequestReservation × p.World) A

  remember :
      Result (Option Node) × p.World
      → RequestReservation
      → Result (Option Node) × (RequestReservation × p.World)
  remember (raised e, w) r = (raised e, (r, w))
  remember (ok n, w) r = (ok n, (record r { node = n }, w))

  from_cache : Option Node → OnRequest (Option Node)
  unfolding remember
  from_cache (some n) (r, w) = (ok (some n), (r, w))
  from_cache none (r, w) = remember (match_node p randint r w) r

  unfoldable pub get_node : OnRequest (Option Node)
  unfolding from_cache
  get_node (r, w) = from_cache r.node (r, w)

  name_of : Option Node → OnRequest Text
  name_of none = raise attribute_error
  name_of (some n) = pure n.name

  unfoldable pub get_node_name : OnRequest Text
  unfolding name_of
  get_node_name = get_node >>= name_of

  taints_of : Option Node → OnRequest (List TaintDefinition)
  taints_of none = raise attribute_error
  taints_of (some n) = pure n.taint_list

  unfoldable pub get_taints : OnRequest (List TaintDefinition)
  unfolding taints_of
  get_taints = get_node >>= taints_of

-- Once the node is known, its name and its taints are read from it at every time and nothing changes.
abbrev pub Settled :
    (p : Platform) (randint : ℕ → p.World → ℕ × p.World) → Node → RequestReservation → Type 0
Settled p randint n r =
    (v : p.World)
    → (get_node p randint (r, v) ≡ (ok (some n), (r, v)))
      × (get_node_name p randint (r, v) ≡ (ok n.name, (r, v)))
      × (get_taints p randint (r, v) ≡ (ok n.taint_list, (r, v)))

settled :
    (p : Platform) (randint : ℕ → p.World → ℕ × p.World) (n : Node) (r : RequestReservation)
    → r.node ≡ some n
    → Settled p randint n r
unfolding get_node from_cache get_node_name name_of get_taints taints_of
settled p randint n r e v =
    let node : from_cache p randint r.node (r, v) ≡ (ok (some n), (r, v)) =
      ap (λ o. from_cache p randint o (r, v)) e in
    (node, ap (and_then (name_of p randint)) node, ap (and_then (taints_of p randint)) node)

remember-eq :
    (p : Platform) (randint : ℕ → p.World → ℕ × p.World) (x : Result (Option Node) × p.World)
    (r r' : RequestReservation) (n : Node) (w' : p.World)
    → remember p randint x r ≡ (ok (some n), (r', w'))
    → r'.node ≡ some n
unfolding remember
remember-eq p randint (raised e, w) r r' n w' h = cc
remember-eq p randint (ok m, w) r r' n w' h =
    let is : record r { node = m } ≡ r' = ap (λ x. x.1.0) h in
    let same : m ≡ some n = cc in ap (λ x. x.node) (sym is) ∙ same

remembered :
    (p : Platform) (randint : ℕ → p.World → ℕ × p.World) (o : Option Node)
    (r r' : RequestReservation) (n : Node) (w w' : p.World)
    → r.node ≡ o
    → from_cache p randint o (r, w) ≡ (ok (some n), (r', w'))
    → r'.node ≡ some n
unfolding from_cache
remembered p randint (some m) r r' n w w' k e =
    let same : some m ≡ some n = cc in
    let is : r ≡ r' = ap (λ x. x.1.0) e in ap (λ x. x.node) (sym is) ∙ k ∙ same
remembered p randint none r r' n w w' k e =
    remember-eq p randint (match_node p randint r w) r r' n w' e

-- The node that a request has once it was given stays: its name and its taints are read from it at every time
-- without a change of the request or of the cluster.
pub get_node-Settled :
    (p : Platform) (randint : ℕ → p.World → ℕ × p.World) (r r' : RequestReservation) (n : Node)
    (w w' : p.World)
    → get_node p randint (r, w) ≡ (ok (some n), (r', w'))
    → Settled p randint n r'
unfolding get_node
get_node-Settled p randint r r' n w w' e =
    settled p randint n r' (remembered p randint r.node r r' n w w' refl e)
