-- ===== src/Split/Grow.antt =====
-- Edits at the parent of a pane that add one leaf and one split.
use limux.Prelude.{ℕ, suc, ◌+◌, ◌≡◌, ◌≢◌, ◌<◌, ◌≤◌, subst, Bool, some, lookup, arith, ◌∙◌, sym, ap}
use limux.Split.Types.{PaneId, NodeId, Orientation, SplitTree}
use limux.Split.Tree.{Tree, top, ids, hit, size, count_pane, Rep}
use limux.Split.Reads.{parent_of}
use limux.Split.Graft.{edit}
use limux.Split.Frame.{edit-Rep, edit-weight, top-edit}
use limux.Split.Valid.{Holds, Found}

pub fresh_once :
    (k j n n' : ℕ) → n ≤ 1 → (k ≤ j → n ≡ 0) → n' ≡ n + (hit k j + hit (suc k) j) → n' ≤ 1
fresh_once k j n n' h f e = ground arith

pub fresh_above :
    (k j next n n' : ℕ)
    → next ≡ k + 2
    → next ≤ j
    → (k ≤ j → n ≡ 0)
    → n' ≡ n + (hit k j + hit (suc k) j)
    → n' ≡ 0
fresh_above k j next n n' e l f h = ground arith

pub pane_once : (new a n n' : ℕ) → n ≤ 1 → (new ≡ a → n ≡ 0) → n' ≡ n + hit new a → n' ≤ 1
pane_once new a n n' h f e = ground arith

module _ {R : Type 0} where
  -- A change of one split `p` by the leaf `k` of pane `new` and the split `k + 1`.
  pub record Grows (p k : NodeId) (new : PaneId) (h : Orientation → R → Tree R → Tree R → Tree R)
      : Type 0 where
    pub keeps : (o : Orientation) (r : R) (x y : Tree R) → top (h o r x y) ≡ p
    pub adds_ids :
        (j : NodeId) (o : Orientation) (r : R) (x y : Tree R)
        → ids j (h o r x y) ≡ hit p j + ids j x + ids j y + (hit k j + hit (suc k) j)
    pub adds_nodes :
        (o : Orientation) (r : R) (x y : Tree R) → size (h o r x y) ≡ 1 + size x + size y + 2
    pub adds_pane :
        (a : PaneId) (o : Orientation) (r : R) (x y : Tree R)
        → count_pane a (h o r x y) ≡ count_pane a x + count_pane a y + hit new a

  pub edit-Holds :
      (t t' : SplitTree R) (s : Tree R) (q : PaneId) (p : NodeId) (side : Bool) (new : PaneId)
      → (h : Orientation → R → Tree R → Tree R → Tree R) → (found : Found t.nodes q p side)
      → Grows p t.next_id new h
      → Holds t s
      → parent_of s q ≡ some (p, side)
      → count_pane new s ≡ 0
      → t'.root ≡ t.root
      → t'.next_id ≡ t.next_id + 2
      → ((j : NodeId) → 0 < ids j s → j ≢ p → lookup j t'.nodes ≡ lookup j t.nodes)
      → ((x y : Tree R)
          → top x ≡ found.first
          → top y ≡ found.second
          → Rep t'.nodes x
          → Rep t'.nodes y
          → Rep t'.nodes (h found.orientation found.ratio x y))
      → Holds t' (edit p h s)
  edit-Holds t t' s q p side new h found g v at absent roots next same remade =
      let k = t.next_id in
      let more_ids : (j : NodeId) → ids j (edit p h s) ≡ ids j s + (hit k j + hit (suc k) j) = λ j.
        omega (
          arith,
          edit-weight s q p side h (ids j) (λ i. hit i j) 0 (hit k j + hit (suc k) j)
              (λ i o r x y. omega arith) (λ o r x y _. omega (arith, g.adds_ids j o r x y)) at
              v.uniq,
        ) in
      let more_panes : (a : PaneId) → count_pane a (edit p h s) ≡ count_pane a s + hit new a = λ a.
        omega (
          arith,
          edit-weight s q p side h (count_pane a) (λ i. 0) 0 (hit new a) (λ i o r x y. omega arith)
              (λ o r x y _. omega (arith, g.adds_pane a o r x y)) at v.uniq,
        ) in
      record {
        at_root = roots ∙ v.at_root ∙ ap some (sym (top-edit s p h g.keeps));
        rep =
            edit-Rep t.nodes t'.nodes s p h found.orientation found.ratio found.first found.second
              found.here same g.keeps remade v.uniq v.rep;
        uniq = λ j. fresh_once k j (ids j s) _ (v.uniq j) (v.fresh j) (more_ids j);
        once = λ a.
            pane_once new a (count_pane a s) _ (v.once a)
              (λ e. subst (λ b. count_pane b s ≡ 0) e absent) (more_panes a);
        fresh = λ j h. fresh_above k j t'.next_id (ids j s) _ next h (v.fresh j) (more_ids j);
        sized = omega (
          arith,
          v.sized,
          edit-weight s q p side h size (λ i. 1) 0 2 (λ i o r x y. omega arith)
              (λ o r x y _. omega (arith, g.adds_nodes o r x y)) at v.uniq,
        );
      }
