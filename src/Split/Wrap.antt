-- ===== src/Split/Wrap.antt =====
-- The tree behind `split`: a leaf gives way to a split of itself and a new leaf.
use limux.Prelude.{
  suc, ◌+◌, ◌≡◌, Bool, true, false, some, List, [], ◌∷◌, ◌++◌, ◌==◌, if◌then◌else◌, Map, lookup,
  insert, lookup-insert, arith, refl,
}
use limux.Split.Types.{PaneId, NodeId, Orientation, Node}
use limux.Split.Tree.{Tree, tip, fork, top, ids, hit, size, count_pane, leaves, Rep}
use limux.Split.Reads.{is_tip_of}
use limux.Split.Graft.{pick, spread, spread-absent, spread-append}

abbrev pub around : Bool → PaneId → PaneId → List PaneId
around before q new = if before then new ∷ q ∷ [] else q ∷ new ∷ []

module _ {R : Type 0} (half : R) (o : Orientation) (k : NodeId) (new : PaneId) where
  -- The split node `k + 1` of the subtree and the new leaf `k`.
  abbrev pub wrap : Bool → Tree R → Tree R
  wrap true c = fork (suc k) o half (tip k new) c
  wrap false c = fork (suc k) o half c (tip k new)

  abbrev pub wrap_child : Bool → NodeId → Bool → Orientation → R → Tree R → Tree R → Tree R
  wrap_child before p true o' r x y = fork p o' r (wrap before x) y
  wrap_child before p false o' r x y = fork p o' r x (wrap before y)

  abbrev pub wrap_node : Bool → NodeId → Node R
  wrap_node true c = Node.split o half k c
  wrap_node false c = Node.split o half c k

  -- The node map after the two allocations, over the node id of the wrapped subtree.
  abbrev pub wrap_nodes : Bool → NodeId → Map (Node R) → Map (Node R)
  wrap_nodes before c m = insert (suc k) (wrap_node before c) (insert k (Node.leaf new) m)

  pub lookup-wrap_nodes :
      (before : Bool) (m : Map (Node R)) (c j : NodeId)
      → lookup j (wrap_nodes before c m) ≡ (
          if suc k == j
          then some (wrap_node before c)
          else if k == j
          then some (Node.leaf new)
          else lookup j m)
  lookup-wrap_nodes before m c j = ground (
    arith,
    lookup-insert k j (Node.leaf new) m,
    lookup-insert (suc k) j (wrap_node before c) (insert k (Node.leaf new) m),
  )

  -- A map that holds the subtree and the two new nodes holds the wrapped subtree.
  pub wrap-Rep :
      (before : Bool) (m : Map (Node R)) (c : Tree R)
      → lookup (suc k) m ≡ some (wrap_node before (top c))
      → lookup k m ≡ some (Node.leaf new)
      → Rep m c
      → Rep m (wrap before c)
  wrap-Rep true m c e f rep = (e, f, rep)
  wrap-Rep false m c e f rep = (e, rep, f)

  pub top-wrap : (before : Bool) (c : Tree R) → top (wrap before c) ≡ suc k
  top-wrap true c = refl
  top-wrap false c = refl

  pub ids-wrap :
      (before : Bool) (c : Tree R) (j : NodeId)
      → ids j (wrap before c) ≡ hit (suc k) j + hit k j + ids j c
  ids-wrap true c j = omega arith
  ids-wrap false c j = omega arith

  pub size-wrap : (before : Bool) (c : Tree R) → size (wrap before c) ≡ size c + 2
  size-wrap true c = omega arith
  size-wrap false c = omega arith

  pub count_pane-wrap :
      (before : Bool) (c : Tree R) (q : PaneId)
      → count_pane q (wrap before c) ≡ count_pane q c + hit new q
  count_pane-wrap true c q = omega arith
  count_pane-wrap false c q = omega arith

  pub leaves-wrap :
      (before : Bool) (c : Tree R) (q : PaneId)
      → is_tip_of c q ≡ true
      → leaves (wrap before c) ≡ spread q (around before q new) (leaves c)
  leaves-wrap true (tip i p) q e = ground arith
  leaves-wrap false (tip i p) q e = ground arith
  leaves-wrap before (fork i o' r x y) q e = absurd (ground arith)

  pub top-wrap_child :
      (before : Bool) (p : NodeId) (side : Bool) (o' : Orientation) (r : R) (x y : Tree R)
      → top (wrap_child before p side o' r x y) ≡ p
  top-wrap_child before p true o' r x y = refl
  top-wrap_child before p false o' r x y = refl

  pub leaves-wrap_child :
      (before : Bool) (p : NodeId) (side : Bool) (o' : Orientation) (r : R) (x y : Tree R)
      → (q : PaneId) → is_tip_of (pick side x y) q ≡ true
      → count_pane q (pick side y x) ≡ 0
      → leaves (wrap_child before p side o' r x y)
        ≡ spread q (around before q new) (leaves x ++ leaves y)
  leaves-wrap_child before p true o' r x y q e f = ground (
    arith,
    leaves-wrap before x q e,
    spread-absent q (around before q new) y f,
    spread-append q (around before q new) (leaves x) (leaves y),
  )
  leaves-wrap_child before p false o' r x y q e f = ground (
    arith,
    leaves-wrap before y q e,
    spread-absent q (around before q new) x f,
    spread-append q (around before q new) (leaves x) (leaves y),
  )
