-- ===== src/Split/Closing.antt =====
-- What closing a pane does to a split tree: `remove` of app/src/split.rs as its callers see it.
use limux.Prelude.{
  ◌≡◌, ◌≢◌, Bool, true, false, Option, none, some, List, [], ◌==◌, if◌then◌else◌, Bool-cases,
  Option-cases, inl, inr, remove as remove_key, arith, refl, ◌∙◌, subst, head?, ==_refl, ==_iff,
  ==_ne,
}
use limux.Split.Types.{PaneId, NodeId, Orientation, SplitTree}
use limux.Split.Walk.{panes, find_parent_of_node}
use limux.Split.Tree.{Tree, tip, fork, count_pane, leaves}
use limux.Split.Reads.{parent_of, leaf_of, find_parent_of_node-Rep}
use limux.Split.Graft.{spread, parent_of-none, parent_of-count}
use limux.Split.Valid.{Holds, find_parent-Holds, parent_of-Found}
use limux.Split.Leaf.{leaf_of-lookup, leaf_of-none}
use limux.Split.Prune.{prune, leaves-prune}
use limux.Split.Unlink.{find_parent_of_node-remove, above-some}
use limux.Split.Graft.{parent_of-ids}
use limux.Split.Remove.{
  remove-fork, refocus-Holds, refocus-focused, detach-root, detach-below, detach-focused,
}
use limux.Split.Change.{remove, unlink, refocus, detach}

-- The focus after `q` is gone and the panes `rest` are left.
abbrev pub handed_on : Option PaneId → PaneId → List PaneId → Option PaneId
handed_on none q rest = none
handed_on (some p) q rest = if p == q then head? rest else some p

module _ {R : Type 0} where
  pub record Closed (t : SplitTree R) (s : Tree R) (q : PaneId) (out : SplitTree R × Bool)
      : Type 0 where
    pub removed : out.1 ≡ true
    pub holds : Holds out.0 (prune q s)
    pub order : leaves (prune q s) ≡ spread q [] (leaves s)
    pub focus : out.0.focused ≡ handed_on t.focused q (leaves (prune q s))

  Closed-by :
      (t : SplitTree R) (s : Tree R) (q : PaneId) (p : NodeId) (side : Bool) (t1 : SplitTree R)
      → Holds t s
      → parent_of s q ≡ some (p, side)
      → t1.focused ≡ t.focused
      → Holds t1 (prune q s)
      → Closed t s q (refocus t1 q, true)
  Closed-by t s q p side t1 v e f h = record {
    removed = refl;
    holds = refocus-Holds t1 (prune q s) q h;
    order = leaves-prune q s p side e (v.once q);
    focus = refocus-focused t1 (prune q s) q h ∙ ground (arith, f);
  }

  no_parent : (s : Tree R) (q : PaneId) → count_pane q s ≡ 0 → parent_of s q ≡ none
  no_parent s q e = elim (Option-cases (parent_of s q)) [
    | inl f ↦ f
    | inr ((p, side), f) ↦ absurd (omega (arith, parent_of-count s q p side f))
  ]

  remove_at_root :
      (t : SplitTree R) (i : NodeId) (o : Orientation) (r : R) (x y : Tree R) (q : PaneId)
      → (c : NodeId) (side : Bool)
      → let s = fork i o r x y in
        Holds t s
        → parent_of s q ≡ some (i, side)
        → leaf_of s q ≡ some c
        → Closed t s q (remove t q)
  unfolding unlink
  remove_at_root t i o r x y q c side v e l =
      let s = fork i o r x y in
      let found = parent_of-Found t.nodes s q i side v.rep e in
      let sibling : NodeId = if side then found.second else found.first in
      let gp = find_parent_of_node t.next_id (remove_key c t.nodes) i i in
      rw (remove-fork t i o r x y q i c side found v e l) (
        Closed-by t s q i side (detach t i i sibling c gp) v e (detach-focused t i i sibling c gp)
          (detach-root t i o r x y q c side gp found v e l))

  remove_below_root :
      (t : SplitTree R) (i : NodeId) (o : Orientation) (r : R) (x y : Tree R) (q : PaneId)
      → (p c : NodeId) (side : Bool)
      → let s = fork i o r x y in
        Holds t s
        → parent_of s q ≡ some (p, side)
        → leaf_of s q ≡ some c
        → p ≢ i
        → Closed t s q (remove t q)
  unfolding unlink
  remove_below_root t i o r x y q p c side v e l n =
      let s = fork i o r x y in
      let found = parent_of-Found t.nodes s q p side v.rep e in
      let sibling : NodeId = if side then found.second else found.first in
      let (g, gside, up) = above-some s p (parent_of-ids s q p side e) n in
      let (is_leaf, _) = leaf_of-lookup t.nodes s q c v.rep l in
      let find : find_parent_of_node t.next_id (remove_key c t.nodes) i p ≡ some (g, gside) =
        find_parent_of_node-remove t.next_id t.nodes i p c q is_leaf
        ∙ find_parent_of_node-Rep t.next_id t.nodes s p v.sized v.rep
        ∙ up in
      rw (remove-fork t i o r x y q p c side found v e l, find)
        (Closed-by t s q p side (detach t i p sibling c (some (g, gside))) v e
          (detach-focused t i p sibling c (some (g, gside)))
          (detach-below t i o r x y q p c g side gside found v e l n up))

  -- On a well-formed tree whose root is a split, `remove` of a pane of the tree answers true and
  -- leaves a well-formed tree in which the sibling stands in place of the parent; the other panes
  -- keep their order, and the focus stays, unless it was on the removed pane: then it goes to the
  -- first pane left.
  pub remove-Closed :
      (t : SplitTree R) (i : NodeId) (o : Orientation) (r : R) (x y : Tree R) (q : PaneId)
      → let s = fork i o r x y in Holds t s → count_pane q s ≡ 1 → Closed t s q (remove t q)
  remove-Closed t i o r x y q v here = elim (Option-cases (parent_of (fork i o r x y) q)) [
    | inl e ↦ absurd (ground (arith, parent_of-none (fork i o r x y) q e))
    | inr ((p, side), e) ↦ elim (Option-cases (leaf_of (fork i o r x y) q)) [
      | inl f ↦ absurd (omega (arith, leaf_of-none (fork i o r x y) q f))
      | inr (c, l) ↦ elim (Bool-cases (p == i)) [
        | inl f ↦
            let root : parent_of (fork i o r x y) q ≡ some (i, side) =
              subst (λ k. parent_of (fork i o r x y) q ≡ some (k, side)) ((==_iff p i).0 f) e in
            remove_at_root t i o r x y q c side v root l
        | inr n ↦ remove_below_root t i o r x y q p c side v e l (==_ne p i n)
      ]
    ]
  ]

  -- The last pane leaves an empty tree without a focus.
  pub remove-last :
      (t : SplitTree R) (i : NodeId) (q : PaneId)
      → Holds t (tip i q)
      → let out = remove t q in
        (out.1 ≡ true) × (panes out.0 ≡ []) × (out.0.root ≡ none) × (out.0.focused ≡ none)
  unfolding remove panes
  remove-last t i q v = ground (arith, v.at_root, v.rep, ==_refl q)

  -- On a well-formed tree `remove` of a pane that is not in the tree answers false and changes
  -- nothing.
  pub remove-absent :
      (t : SplitTree R) (s : Tree R) (q : PaneId)
      → Holds t s
      → count_pane q s ≡ 0
      → remove t q ≡ (t, false)
  unfolding remove
  remove-absent t (tip i p) q v e =
      ground (arith, v.at_root, v.rep, find_parent-Holds t (tip i p) q v)
  remove-absent t (fork i o r x y) q v e =
      let s = fork i o r x y in
      let h = v.rep.0 in
      let gone : parent_of s q ≡ none = no_parent s q e in
      ground (arith, v.at_root, find_parent-Holds t s q v)
