-- ===== src/Split/Splits.antt =====
-- `split` and `split_before` of app/src/split.rs: the new pane stands beside the given one.
use limux.Prelude.{
  suc, ◌+◌, ◌^◌, ◌<◌, ◌≡◌, ◌≢◌, Bool, Option, none, some, if◌then◌else◌, arith, refl, inl, inr,
  Option-cases, ==_refl, subst,
}
use limux.Split.Types.{Float64, PaneId, NodeId, Orientation, SplitTree}
use limux.Split.Tree.{Tree, tip, fork, count_pane, leaves}
use limux.Split.Reads.{parent_of}
use limux.Split.Graft.{spread, parent_of-none, edit, leaves-edit, parent_of-ids}
use limux.Split.Grow.{edit-Holds}
use limux.Split.Valid.{Holds, find_parent-Holds, parent_of-Found}
use limux.Split.Edit.{split_at, child_of}
use limux.Split.Wrap.{around, wrap, wrap_child, leaves-wrap, leaves-wrap_child}
use limux.Split.Beside.{
  beside, wrap_child-Grows, child_of-Found, beside-Rep, low_id, beside_same, beside_top,
  beside_top-Holds,
}

module _ {R : Type 0} ⦃fl : Float64 R⦄ where
  split_at-parent :
      (before : Bool) (t : SplitTree R) (s : Tree R) (q new : PaneId) (o : Orientation)
      → (p : NodeId) (side : Bool) (target : NodeId) → Holds t s
      → parent_of s q ≡ some (p, side)
      → child_of t.nodes p side ≡ some target
      → t.next_id + 2 < 2 ^ 32
      → split_at before t q new o ≡ (beside before t new o target p side, some (suc t.next_id))
  unfolding split_at
  split_at-parent before t s q new o p side target v e c small =
      ground (arith, v.at_root, find_parent-Holds t s q v)

  -- What `split` and `split_before` promise of the state they return.
  pub record Beside (before : Bool) (s : Tree R) (q new : PaneId)
      (out : SplitTree R × Option NodeId) : Type 0 where
    pub tree : Tree R
    pub holds : Holds out.0 tree
    pub order : leaves tree ≡ spread q (around before q new) (leaves s)
    pub focus : out.0.focused ≡ some new
    pub made : out.1 ≢ none

  Beside-parent :
      (before : Bool) (t : SplitTree R) (s : Tree R) (q new : PaneId) (o : Orientation)
      → (p : NodeId) (side : Bool) → Holds t s
      → parent_of s q ≡ some (p, side)
      → count_pane new s ≡ 0
      → t.next_id + 2 < 2 ^ 32
      → Beside before s q new (split_at before t q new o)
  Beside-parent before t s q new o p side v e absent small =
      let k = t.next_id in
      let found = parent_of-Found t.nodes s q p side v.rep e in
      let target : NodeId = if side then found.first else found.second in
      let low = low_id t s p v (parent_of-ids s q p side e) in
      rw
        (split_at-parent before t s q new o p side target v e
          (child_of-Found t.nodes q p side found) small)
        (record {
          tree = edit p (wrap_child fl.half o k new before p side) s;
          holds =
              edit-Holds t (beside before t new o target p side) s q p side new
                (wrap_child fl.half o k new before p side) found
                (wrap_child-Grows fl.half before o k new p side) v e absent refl (omega arith)
                (λ j h n. beside_same before t s q new o p side side found low v j h n)
                (beside-Rep before t s q new o p side side found low);
          order =
              leaves-edit s q p side (around before q new)
                (wrap_child fl.half o k new before p side)
                (λ o' r x y. leaves-wrap_child fl.half o k new before p side o' r x y q) e
                (v.once q) v.uniq;
          focus = refl;
          made = λ e'. cc;
        })

  split_at-root :
      (before : Bool) (t : SplitTree R) (i : NodeId) (q new : PaneId) (o : Orientation)
      → Holds t (tip i q)
      → t.next_id + 2 < 2 ^ 32
      → split_at before t q new o ≡ (beside_top before t new o i, some (suc t.next_id))
  unfolding split_at
  split_at-root before t i q new o v small =
      ground (arith, v.at_root, v.rep, find_parent-Holds t (tip i q) q v)

  Beside-root :
      (before : Bool) (t : SplitTree R) (i : NodeId) (q new : PaneId) (o : Orientation)
      → Holds t (tip i q)
      → new ≢ q
      → t.next_id + 2 < 2 ^ 32
      → Beside before (tip i q) q new (split_at before t q new o)
  Beside-root before t i q new o v ne small =
      let k = t.next_id in
      rw (split_at-root before t i q new o v small) (record {
        tree = wrap fl.half o k new before (tip i q);
        holds = beside_top-Holds before t i q new o v ne;
        order = leaves-wrap fl.half o k new before (tip i q) q (==_refl q);
        focus = refl;
        made = λ e'. cc;
      })

  -- The new pane is put beside the given one, wherever that stands in the tree.
  pub split_at-Beside :
      (before : Bool) (t : SplitTree R) (s : Tree R) (q new : PaneId) (o : Orientation)
      → Holds t s
      → count_pane q s ≡ 1
      → count_pane new s ≡ 0
      → t.next_id + 2 < 2 ^ 32
      → Beside before s q new (split_at before t q new o)
  split_at-Beside before t (tip i p) q new o v here absent small =
      let e : p ≡ q = ground arith in
      subst (λ a. Beside before (tip i p) a new (split_at before t a new o)) e
        (Beside-root before t i p new o v (ground arith) small)
  split_at-Beside before t (fork i o' r x y) q new o v here absent small =
      elim (Option-cases (parent_of (fork i o' r x y) q)) [
        | inl e ↦ absurd (ground (arith, parent_of-none (fork i o' r x y) q e))
        | inr ((p, side), e) ↦
            Beside-parent before t (fork i o' r x y) q new o p side v e absent small
      ]
