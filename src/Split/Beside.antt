-- ===== src/Split/Beside.antt =====
-- The node map after a new leaf is put beside a child of a split, and the tree that it holds.
use limux.Prelude.{
  suc, ◌<◌, ◌≡◌, ◌≢◌, Bool, true, false, some, ◌==◌, if◌then◌else◌, Map, lookup, arith, refl,
  ==_refl, dec_lt, if_ne, ◌∙◌, ap, sym,
}
use limux.Split.Types.{Float64, PaneId, NodeId, Orientation, Node, SplitTree}
use limux.Split.Tree.{Tree, tip, top, ids, hit, hit_self, Rep}
use limux.Split.Grow.{Grows, fresh_once, fresh_above, pane_once}
use limux.Split.Valid.{Holds, Found, lookup-set_child}
use limux.Split.Edit.{child_of, set_child}
use limux.Split.Wrap.{
  wrap, wrap_child, wrap_nodes, lookup-wrap_nodes, wrap-Rep, top-wrap, ids-wrap, size-wrap,
  count_pane-wrap,
}

module _ {R : Type 0} ⦃fl : Float64 R⦄ where
  -- The tree after the new pane is put beside the leaf under the parent `p`.
  abbrev pub beside :
      Bool → SplitTree R → PaneId → Orientation → NodeId → NodeId → Bool → SplitTree R
  beside before t new o target p side = record t {
    nodes =
        set_child (wrap_nodes fl.half o t.next_id new before target t.nodes) p side (suc t.next_id);
    next_id = suc (suc t.next_id);
    focused = some new;
  }

  pub wrap_child-Grows :
      (half : R) (before : Bool) (o : Orientation) (k : NodeId) (new : PaneId) (p : NodeId)
      → (side : Bool) → Grows p k new (wrap_child half o k new before p side)
  wrap_child-Grows half before o k new p true = record {
    keeps = λ o' r x y. refl;
    adds_ids = λ j o' r x y. omega (arith, ids-wrap half o k new before x j);
    adds_nodes = λ o' r x y. omega (arith, size-wrap half o k new before x);
    adds_pane = λ a o' r x y. omega (arith, count_pane-wrap half o k new before x a);
  }
  wrap_child-Grows half before o k new p false = record {
    keeps = λ o' r x y. refl;
    adds_ids = λ j o' r x y. omega (arith, ids-wrap half o k new before y j);
    adds_nodes = λ o' r x y. omega (arith, size-wrap half o k new before y);
    adds_pane = λ a o' r x y. omega (arith, count_pane-wrap half o k new before y a);
  }

  pub child_of-Found :
      (m : Map (Node R)) (q : PaneId) (p : NodeId) (side : Bool) (found : Found m q p side)
      → child_of m p side ≡ some (if side then found.first else found.second)
  unfolding child_of
  child_of-Found m q p side found = ground (arith, found.here)

  -- The map of `beside` away from the parent and the new nodes.
  pub lookup-beside :
      (before : Bool) (t : SplitTree R) (q new : PaneId) (o : Orientation) (target p : NodeId)
      → (side c : Bool) (found : Found t.nodes q p c) → p < t.next_id
      → (j : NodeId)
      → lookup j (beside before t new o target p side).nodes ≡ (
          if p == j
          then some (
              if side
              then Node.split found.orientation found.ratio (suc t.next_id) found.second
              else Node.split found.orientation found.ratio found.first (suc t.next_id))
          else lookup j (wrap_nodes fl.half o t.next_id new before target t.nodes))
  lookup-beside before t q new o target p side c found low j =
      lookup-set_child (wrap_nodes fl.half o t.next_id new before target t.nodes) p side
        (suc t.next_id) j found.orientation found.ratio found.first found.second
        (ground
          (arith, found.here, lookup-wrap_nodes fl.half o t.next_id new before t.nodes target p))

  pub beside-Rep :
      (before : Bool) (t : SplitTree R) (s : Tree R) (q new : PaneId) (o : Orientation)
      → (p : NodeId) (side c : Bool) (found : Found t.nodes q p c) → p < t.next_id
      → (x y : Tree R) → top x ≡ found.first
      → top y ≡ found.second
      → let m = (beside before t new o (if side then found.first else found.second) p side).nodes in
        Rep m x
        → Rep m y
        → Rep m (wrap_child fl.half o t.next_id new before p side found.orientation found.ratio x y)
  beside-Rep before t s q new o p true c found low x y ex ey rx ry =
      let k = t.next_id in
      let at = lookup-beside before t q new o found.first p true c found low in
      let old = lookup-wrap_nodes fl.half o k new before t.nodes found.first in
      (
        ground (arith, at p, ==_refl p, ey, top-wrap fl.half o k new before x),
        wrap-Rep fl.half o k new before _ x
            (ground (arith, at (suc k), old (suc k), ex, ==_refl (suc k)))
            (ground (arith, at k, old k, ==_refl k)) rx,
        ry,
      )
  beside-Rep before t s q new o p false c found low x y ex ey rx ry =
      let k = t.next_id in
      let at = lookup-beside before t q new o found.second p false c found low in
      let old = lookup-wrap_nodes fl.half o k new before t.nodes found.second in
      (
        ground (arith, at p, ==_refl p, ex, top-wrap fl.half o k new before y),
        rx,
        wrap-Rep fl.half o k new before _ y
            (ground (arith, at (suc k), old (suc k), ey, ==_refl (suc k)))
            (ground (arith, at k, old k, ==_refl k)) ry,
      )

  pub low_id : (t : SplitTree R) (s : Tree R) (j : NodeId) → Holds t s → 0 < ids j s → j < t.next_id
  low_id t s j v h = elim (dec_lt j t.next_id) [
    | yes l ↦ l
    | no n ↦ absurd (omega (arith, v.fresh j (omega arith)))
  ]

  pub beside_same :
      (before : Bool) (t : SplitTree R) (s : Tree R) (q new : PaneId) (o : Orientation)
      → (p : NodeId) (side c : Bool) (found : Found t.nodes q p c) → p < t.next_id
      → Holds t s
      → (j : NodeId) → 0 < ids j s
      → j ≢ p
      → lookup j (beside before t new o (if side then found.first else found.second) p side).nodes
        ≡ lookup j t.nodes
  beside_same before t s q new o p side c found low v j h n =
      let target : NodeId = if side then found.first else found.second in
      let l = low_id t s j v h in
      lookup-beside before t q new o target p side c found low j
      ∙ if_ne p j _ _ (λ e. n (sym e))
      ∙ lookup-wrap_nodes fl.half o t.next_id new before t.nodes target j
      ∙ if_ne (suc t.next_id) j _ _ (omega arith)
      ∙ if_ne t.next_id j _ _ (omega arith)

  abbrev pub beside_top : Bool → SplitTree R → PaneId → Orientation → NodeId → SplitTree R
  beside_top before t new o i = record {
    nodes = wrap_nodes fl.half o t.next_id new before i t.nodes;
    root = some (suc t.next_id);
    next_id = suc (suc t.next_id);
    focused = some new;
  }

  pub beside_top-Holds :
      (before : Bool) (t : SplitTree R) (i : NodeId) (q new : PaneId) (o : Orientation)
      → Holds t (tip i q)
      → new ≢ q
      → Holds (beside_top before t new o i) (wrap fl.half o t.next_id new before (tip i q))
  beside_top-Holds before t i q new o v ne =
      let k = t.next_id in
      let low = low_id t (tip i q) i v (omega (arith, hit_self i)) in
      let old = lookup-wrap_nodes fl.half o k new before t.nodes i in
      let more = ids-wrap fl.half o k new before (tip i q) in
      let panes = count_pane-wrap fl.half o k new before (tip i q) in
      record {
        at_root = ap some (sym (top-wrap fl.half o k new before (tip i q)));
        rep =
            wrap-Rep fl.half o k new before _ (tip i q)
              (ground (arith, old (suc k), ==_refl (suc k))) (ground (arith, old k, ==_refl k))
              (ground (arith, old i, v.rep));
        uniq = λ j. fresh_once k j (hit i j) _ (v.uniq j) (v.fresh j) (omega (arith, more j));
        once = λ a.
            pane_once new a (hit q a) _ (v.once a) (λ e. ground arith) (omega (arith, panes a));
        fresh = λ j h.
            fresh_above k j (suc (suc k)) (hit i j) _ (omega arith) h (v.fresh j)
              (omega (arith, more j));
        sized = omega (arith, size-wrap fl.half o k new before (tip i q), v.sized);
      }
