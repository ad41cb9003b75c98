-- ===== src/Split/Valid.antt =====
-- When a split tree of app/src/split.rs is well formed, and what its reads then return.
use limux.Prelude.{
  ◌≤◌, ◌≡◌, Bool, true, false, some, [], ◌==◌, if◌then◌else◌, Map, lookup, lookup-insert, arith,
  Bool-cases, Option-cases, inl, inr,
}
use limux.Split.Types.{PaneId, NodeId, Orientation, Node, SplitTree}
use limux.Split.Walk.{panes, node_id_for_pane, find_parent}
use limux.Split.Tree.{Tree, tip, fork, top, ids, size, count_pane, leaves, Rep}
use limux.Split.Reads.{
  parent_of, is_tip_of, leaf_of, collect_panes-Rep, find_leaf-Rep, find_parent-Rep,
}
use limux.Split.Edit.{set_child}

module _ {R : Type 0} where
  -- The node map holds the tree `s` under the root; each node id and each pane occurs once, and the
  -- counter is above every id and not below the number of nodes.
  pub record Holds (t : SplitTree R) (s : Tree R) : Type 0 where
    pub at_root : t.root ≡ some (top s)
    pub rep : Rep t.nodes s
    pub uniq : (j : NodeId) → ids j s ≤ 1
    pub once : (q : PaneId) → count_pane q s ≤ 1
    pub fresh : (j : NodeId) → t.next_id ≤ j → ids j s ≡ 0
    pub sized : size s ≤ t.next_id

  -- On a well-formed tree `panes` returns the panes of the tree from left to right; the fuel of the
  -- walk is enough.
  pub panes-Holds : (t : SplitTree R) (s : Tree R) → Holds t s → panes t ≡ leaves s
  unfolding panes
  panes-Holds t s v =
      ground (arith, v.at_root, collect_panes-Rep t.next_id t.nodes s [] v.sized v.rep)

  pub node_id_for_pane-Holds :
      (t : SplitTree R) (s : Tree R) (q : PaneId) → Holds t s → node_id_for_pane t q ≡ leaf_of s q
  unfolding node_id_for_pane
  node_id_for_pane-Holds t s q v =
      ground (arith, v.at_root, find_leaf-Rep t.next_id t.nodes s q v.sized v.rep)

  pub find_parent-Holds :
      (t : SplitTree R) (s : Tree R) (q : PaneId)
      → Holds t s
      → find_parent t.next_id t.nodes (top s) q ≡ parent_of s q
  find_parent-Holds t s q v = find_parent-Rep t.next_id t.nodes s q v.sized v.rep

  -- A tip of a held tree is a leaf of the map.
  pub is_tip_of-lookup :
      (m : Map (Node R)) (t : Tree R) (q : PaneId)
      → Rep m t
      → is_tip_of t q ≡ true
      → lookup (top t) m ≡ some (Node.leaf q)
  is_tip_of-lookup m (tip i p) q rep e = ground arith
  is_tip_of-lookup m (fork i o r x y) q rep e = cc

  -- What the map holds at the parent of a pane.
  pub record Found (m : Map (Node R)) (q : PaneId) (p : NodeId) (side : Bool) : Type 0 where
    pub orientation : Orientation
    pub ratio : R
    pub first : NodeId
    pub second : NodeId
    pub here : lookup p m ≡ some (Node.split orientation ratio first second)
    pub child : lookup (if side then first else second) m ≡ some (Node.leaf q)

  pub parent_of-Found :
      (m : Map (Node R)) (t : Tree R) (q : PaneId) (p : NodeId) (side : Bool)
      → Rep m t
      → parent_of t q ≡ some (p, side)
      → Found m q p side
  parent_of-Found m (tip i o) q p side rep e = absurd (ground arith)
  parent_of-Found m (fork i o r x y) q p side (here, rx, ry) e = elim (Bool-cases (is_tip_of x q)) [
    | inl tx ↦ record {
      orientation = o;
      ratio = r;
      first = top x;
      second = top y;
      here = ground arith;
      child = ground (arith, is_tip_of-lookup m x q rx);
    }
    | inr nx ↦ elim (Bool-cases (is_tip_of y q)) [
      | inl ty ↦ record {
        orientation = o;
        ratio = r;
        first = top x;
        second = top y;
        here = ground arith;
        child = ground (arith, is_tip_of-lookup m y q ry);
      }
      | inr ny ↦ elim (Option-cases (parent_of x q)) [
        | inl px ↦ parent_of-Found m y q p side ry (ground arith)
        | inr (_, px) ↦ parent_of-Found m x q p side rx (ground arith)
      ]
    ]
  ]

  pub lookup-set_child :
      (m : Map (Node R)) (p : NodeId) (side : Bool) (c j : NodeId) (o : Orientation) (r : R)
      → (a b : NodeId) → lookup p m ≡ some (Node.split o r a b)
      → lookup j (set_child m p side c) ≡ (
          if p == j
          then some (if side then Node.split o r c b else Node.split o r a c)
          else lookup j m)
  unfolding set_child
  lookup-set_child m p true c j o r a b h = ground (arith, lookup-insert p j (Node.split o r c b) m)
  lookup-set_child m p false c j o r a b h =
      ground (arith, lookup-insert p j (Node.split o r a c) m)
