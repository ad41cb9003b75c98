-- ===== src/Split/Reads.antt =====
-- What the traversals of app/src/split.rs return on a map that holds a tree, given fuel for its size.
use limux.Prelude.{
  ℕ, zero, suc, ◌≤◌, ◌≡◌, Bool, true, false, Option, none, some, List, ◌++◌, ◌==◌, if◌then◌else◌,
  Map, or_else, append_assoc, arith,
}
use limux.Split.Types.{PaneId, NodeId, Node}
use limux.Split.Walk.{
  collect_panes, find_leaf, find_parent, find_parent_of_node, find_chain_end, is_leaf_of,
}
use limux.Split.Tree.{Tree, tip, fork, top, size, leaves, Rep}

module _ {R : Type 0} where
  pub collect_panes-Rep :
      (f : ℕ) (m : Map (Node R)) (t : Tree R) (out : List PaneId)
      → size t ≤ f
      → Rep m t
      → collect_panes f m (top t) out ≡ out ++ leaves t
  unfolding collect_panes
  collect_panes-Rep zero m (tip i p) out h r = absurd (omega arith)
  collect_panes-Rep zero m (fork i o r x y) out h rep = absurd (omega arith)
  collect_panes-Rep (suc f) m (tip i p) out h rep = ground arith
  collect_panes-Rep (suc f) m (fork i o r x y) out h (here, rx, ry) = ground (
    arith,
    collect_panes-Rep f m x out,
    collect_panes-Rep f m y (out ++ leaves x),
    append_assoc out (leaves x) (leaves y),
  )

  -- The first leaf of the pane, from the left.
  abbrev pub leaf_of : Tree R → PaneId → Option NodeId
  leaf_of (tip i p) q = if p == q then some i else none
  leaf_of (fork i o r x y) q = or_else (leaf_of x q) (leaf_of y q)

  pub find_leaf-Rep :
      (f : ℕ) (m : Map (Node R)) (t : Tree R) (q : PaneId)
      → size t ≤ f
      → Rep m t
      → find_leaf f m (top t) q ≡ leaf_of t q
  unfolding find_leaf
  find_leaf-Rep zero m (tip i p) q h r = absurd (omega arith)
  find_leaf-Rep zero m (fork i o r x y) q h rep = absurd (omega arith)
  find_leaf-Rep (suc f) m (tip i p) q h rep = ground arith
  find_leaf-Rep (suc f) m (fork i o r x y) q h (here, rx, ry) =
      ground (arith, find_leaf-Rep f m x q, find_leaf-Rep f m y q)

  abbrev pub is_tip_of : Tree R → PaneId → Bool
  is_tip_of (tip i p) q = p == q
  is_tip_of (fork i o r x y) q = false

  pub is_leaf_of-Rep :
      (m : Map (Node R)) (t : Tree R) (q : PaneId)
      → Rep m t
      → is_leaf_of m (top t) q ≡ is_tip_of t q
  is_leaf_of-Rep m (tip i p) q rep = ground arith
  is_leaf_of-Rep m (fork i o r x y) q (here, _, _) = ground arith

  -- The split above the leaf of a pane, and the side on which the leaf is.
  abbrev pub parent_of : Tree R → PaneId → Option (NodeId × Bool)
  parent_of (tip i p) q = none
  parent_of (fork i o r x y) q =
      let deeper = or_else (parent_of x q) (parent_of y q) in
      if is_tip_of x q then some (i, true) else if is_tip_of y q then some (i, false) else deeper

  pub find_parent-Rep :
      (f : ℕ) (m : Map (Node R)) (t : Tree R) (q : PaneId)
      → size t ≤ f
      → Rep m t
      → find_parent f m (top t) q ≡ parent_of t q
  unfolding find_parent
  find_parent-Rep zero m (tip i p) q h r = absurd (omega arith)
  find_parent-Rep zero m (fork i o r x y) q h rep = absurd (omega arith)
  find_parent-Rep (suc f) m (tip i p) q h rep = ground arith
  find_parent-Rep (suc f) m (fork i o r x y) q h (here, rx, ry) = ground (
    arith,
    is_leaf_of-Rep m x q,
    is_leaf_of-Rep m y q,
    find_parent-Rep f m x q,
    find_parent-Rep f m y q,
  )

  -- The split above a node, and the side.
  abbrev pub above : Tree R → NodeId → Option (NodeId × Bool)
  above (tip i p) j = none
  above (fork i o r x y) j =
      let deeper = or_else (above x j) (above y j) in
      if top x == j then some (i, true) else if top y == j then some (i, false) else deeper

  pub find_parent_of_node-Rep :
      (f : ℕ) (m : Map (Node R)) (t : Tree R) (j : NodeId)
      → size t ≤ f
      → Rep m t
      → find_parent_of_node f m (top t) j ≡ above t j
  unfolding find_parent_of_node
  find_parent_of_node-Rep zero m (tip i p) q h r = absurd (omega arith)
  find_parent_of_node-Rep zero m (fork i o r x y) q h rep = absurd (omega arith)
  find_parent_of_node-Rep (suc f) m (tip i p) q h rep = ground arith
  find_parent_of_node-Rep (suc f) m (fork i o r x y) q h (here, rx, ry) =
      ground (arith, find_parent_of_node-Rep f m x q, find_parent_of_node-Rep f m y q)

  -- The last leaf.
  abbrev pub last_tip : Tree R → NodeId
  last_tip (tip i p) = i
  last_tip (fork i o r x y) = last_tip y

  pub find_chain_end-Rep :
      (f : ℕ) (m : Map (Node R)) (t : Tree R)
      → size t ≤ f
      → Rep m t
      → find_chain_end f m (top t) ≡ last_tip t
  unfolding find_chain_end
  find_chain_end-Rep zero m (tip i p) h r = absurd (omega arith)
  find_chain_end-Rep zero m (fork i o r x y) h rep = absurd (omega arith)
  find_chain_end-Rep (suc f) m (tip i p) h rep = ground arith
  find_chain_end-Rep (suc f) m (fork i o r x y) h (here, rx, ry) =
      ground (arith, find_chain_end-Rep f m y)
