-- ===== src/Split/After.antt =====
-- `insert_after_node` of app/src/split.rs: what it makes of the pane's parent.
use limux.Prelude.{
  suc, ◌+◌, ◌^◌, ◌<◌, ◌≡◌, Bool, true, false, some, [], ◌∷◌, ◌++◌, ◌==◌, lookup, insert,
  lookup-insert, arith, refl, ◌∙◌,
}
use limux.Split.Types.{Float64, PaneId, NodeId, Orientation, Node, SplitTree}
use limux.Split.Walk.{find_parent}
use limux.Split.Tree.{Tree, tip, fork, top, count_pane, leaves}
use limux.Split.Reads.{parent_of, is_tip_of, leaf_of, find_parent-Rep}
use limux.Split.Graft.{spread, pick, parent_of-ids, spread-absent}
use limux.Split.Frame.{frame-insert}
use limux.Split.Valid.{Holds, Found}
use limux.Split.Leaf.{leaf_of-lookup, parent_of-leaf}
use limux.Split.Wrap.{wrap_child, leaves-wrap_child}
use limux.Split.Beside.{beside, low_id}
use limux.Split.Edit.{insert_after_node, insert_below}

module _ {R : Type 0} ⦃fl : Float64 R⦄ where
  -- The new pane stands right behind `q`, inside its parent's second child.
  pub leaves-insert :
      (o : Orientation) (k : NodeId) (new : PaneId) (p : NodeId) (side : Bool) (o' : Orientation)
      → (r : R) (x y : Tree R) (q : PaneId) → is_tip_of (pick side x y) q ≡ true
      → count_pane q (pick side y x) ≡ 0
      → leaves (wrap_child fl.half o k new side p false o' r x y)
        ≡ spread q (q ∷ new ∷ []) (leaves x ++ leaves y)
  leaves-insert o k new p true o' r (tip i s) y q e f =
      ground (arith, spread-absent q (q ∷ new ∷ []) y)
  leaves-insert o k new p true o' r (fork i o'' r' x x') y q e f = cc
  leaves-insert o k new p false o' r x y q e f =
      leaves-wrap_child fl.half o k new false p false o' r x y q e f

  pub insert_below-beside :
      (t : SplitTree R) (q new : PaneId) (o : Orientation) (p : NodeId) (side : Bool)
      → (target : NodeId) (found : Found t.nodes q p side) → p < t.next_id
      → (side ≡ false → found.second ≡ target)
      → t.next_id + 2 < 2 ^ 32
      → insert_below
          (p, side)
          target
          t.next_id
          o
          (record t { nodes = insert t.next_id (Node.leaf new) t.nodes; next_id = suc t.next_id })
        ≡ record (beside side t new o found.second p false) { focused = t.focused }
  unfolding insert_below
  insert_below-beside t q new o p true target found low same small =
      ground (arith, found.here, lookup-insert t.next_id p (Node.leaf new) t.nodes)
  insert_below-beside t q new o p false target found low same small = ground (arith, same refl)

  pub insert_after_node-parent :
      (t : SplitTree R) (s : Tree R) (q new : PaneId) (o : Orientation) (p : NodeId) (side : Bool)
      → (target i : NodeId) (o' : Orientation) (r : R) (a b : NodeId)
      → (found : Found t.nodes q p side) → Holds t s
      → parent_of s q ≡ some (p, side)
      → leaf_of s q ≡ some target
      → lookup (top s) t.nodes ≡ some (Node.split o' r a b)
      → t.next_id + 2 < 2 ^ 32
      → insert_after_node t target new o
        ≡ record (beside side t new o found.second p false) { focused = t.focused }
  unfolding insert_after_node
  insert_after_node-parent t s q new o p side target i o' r a b found v e leaf at small =
      let k = t.next_id in
      let m1 = insert k (Node.leaf new) t.nodes in
      let (is_leaf, inside) = leaf_of-lookup t.nodes s q target v.rep leaf in
      let low : target < k = low_id t s target v inside in
      let find : find_parent (suc k) m1 (top s) q ≡ some (p, side) =
        find_parent-Rep (suc k) m1 s q (omega (arith, v.sized))
          (frame-insert k (Node.leaf new) t.nodes s (v.fresh k (omega arith)) v.rep)
        ∙ e in
      let second : side ≡ false → found.second ≡ target = λ f. ground (
        arith,
        parent_of-leaf t.nodes s q p side found.orientation found.ratio found.first found.second
            v.rep (v.once q) e found.here,
      ) in
      let below =
        insert_below-beside t q new o p side target found
          (low_id t s p v (parent_of-ids s q p side e)) second small in
      let apart : (top s == target) ≡ false = ground arith in
      ground (arith, v.at_root, lookup-insert k target (Node.leaf new) t.nodes)
