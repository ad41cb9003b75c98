-- ===== src/Split/Insert.antt =====
-- `insert_after_node` and `insert_pane_after_focused` of app/src/split.rs.
use limux.Prelude.{
  ◌+◌, ◌^◌, ◌≤◌, ◌<◌, ◌≡◌, true, false, Option, none, some, [], ◌∷◌, Option-cases, inl, inr,
  lookup-insert, arith, refl, ◌∙◌, length, ==_refl,
}
use limux.Split.Types.{Float64, PaneId, NodeId, Orientation, Node, SplitTree}
use limux.Split.Walk.{equalize_chain}
use limux.Split.Tree.{Tree, tip, fork, top, count_pane, leaves}
use limux.Split.Reads.{parent_of, leaf_of, last_tip, find_chain_end-Rep}
use limux.Split.Graft.{spread, edit, leaves-edit, parent_of-none, parent_of-ids}
use limux.Split.Valid.{Holds, parent_of-Found, node_id_for_pane-Holds}
use limux.Split.Grow.{edit-Holds}
use limux.Split.Leaf.{leaf_of-absent, last_pane, leaf_of-last, last_tip-lookup}
use limux.Split.Chain.{chain, equalize_chain-Holds, leaves-chain, equalize_chain-focused}
use limux.Split.Wrap.{wrap_child, wrap, leaves-wrap}
use limux.Split.Beside.{
  beside, wrap_child-Grows, beside-Rep, low_id, beside_same, beside_top, beside_top-Holds,
}
use limux.Split.Edit.{insert_after_node, insert_in_chain, insert_pane_after_focused}
use limux.Split.After.{leaves-insert, insert_after_node-parent}

module _ {R : Type 0} ⦃fl : Float64 R⦄ where
  -- What an insertion behind the pane `q` promises of the tree that it returns.
  pub record Behind (s : Tree R) (q new : PaneId) (out : SplitTree R) : Type 0 where
    pub tree : Tree R
    pub holds : Holds out tree
    pub order : leaves tree ≡ spread q (q ∷ new ∷ []) (leaves s)
    pub focus : out.focused ≡ some new

  -- The state that `insert_in_chain` hands to `equalize_chain`.
  insert_after-Behind :
      (t : SplitTree R) (i : NodeId) (o' : Orientation) (r : R) (x y : Tree R) (q new : PaneId)
      → (o : Orientation) (target : NodeId)
      → let s = fork i o' r x y in
        Holds t s
        → leaf_of s q ≡ some target
        → count_pane new s ≡ 0
        → t.next_id + 2 < 2 ^ 32
        → Behind s q new (record (insert_after_node t target new o) { focused = some new })
  insert_after-Behind t i o' r x y q new o target v leaf absent small =
      elim (Option-cases (parent_of s q)) [
        | inl e ↦
            let gone : leaf_of s q ≡ none =
              leaf_of-absent s q (ground (arith, parent_of-none s q e)) in
            absurd (ground arith)
        | inr ((p, side), e) ↦
            let found = parent_of-Found t.nodes s q p side v.rep e in
            let low = low_id t s p v (parent_of-ids s q p side e) in
            let k = t.next_id in
            rw
              (insert_after_node-parent t s q new o p side target i o' r (top x) (top y) found v e
                leaf v.rep.0 small)
              (record {
                tree = edit p (wrap_child fl.half o k new side p false) s;
                holds =
                    edit-Holds t (beside side t new o found.second p false) s q p side new
                      (wrap_child fl.half o k new side p false) found
                      (wrap_child-Grows fl.half side o k new p false) v e absent refl (omega arith)
                      (λ j h n. beside_same side t s q new o p false side found low v j h n)
                      (beside-Rep side t s q new o p false side found low);
                order =
                    leaves-edit s q p side (q ∷ new ∷ []) (wrap_child fl.half o k new side p false)
                      (λ o'' r' x' y'. leaves-insert o k new p side o'' r' x' y' q) e (v.once q)
                      v.uniq;
                focus = refl;
              })
      ]
    where
      s : Tree R
      s = fork i o' r x y

  equalize_chain-Behind :
      (s : Tree R) (q new : PaneId) (out : SplitTree R)
      → Behind s q new out
      → Behind s q new (equalize_chain out)
  equalize_chain-Behind s q new out b = record {
    tree = chain (length (leaves b.tree)) b.tree;
    holds = equalize_chain-Holds out b.tree b.holds;
    order = leaves-chain (length (leaves b.tree)) b.tree ∙ b.order;
    focus = equalize_chain-focused out ∙ b.focus;
  }

  -- The pane behind which `insert_pane_after_focused` inserts: the focused one if it is in the
  -- tree, and the last one otherwise.
  abbrev pub anchor : Option PaneId → Tree R → PaneId
  anchor none s = last_pane s
  anchor (some q) s = elim (leaf_of s q) [ none ↦ last_pane s | some _ ↦ q ]

  insert_in_chain-target :
      (t : SplitTree R) (s : Tree R) (new : PaneId) (o : Orientation) (target : NodeId)
      → Holds t s
      → leaf_of s (anchor t.focused s) ≡ some target
      → insert_in_chain t (top s) new o
        ≡ equalize_chain (record (insert_after_node t target new o) { focused = some new })
  unfolding insert_in_chain
  insert_in_chain-target t s new o target v e =
      let last : leaf_of s (last_pane s) ≡ some (last_tip s) = leaf_of-last s (v.once _) in
      elim (Option-cases t.focused) [
        | inl f ↦ ground (
          arith,
          find_chain_end-Rep t.next_id t.nodes s v.sized v.rep,
          last_tip-lookup t.nodes s v.rep,
          node_id_for_pane-Holds t s (last_pane s) v,
        )
        | inr (q, f) ↦ ground (
          arith,
          find_chain_end-Rep t.next_id t.nodes s v.sized v.rep,
          node_id_for_pane-Holds t s q v,
        )
      ]

  anchor_tip :
      (s : Tree R) (f : Option PaneId) (i : NodeId) (p : PaneId) → s ≡ tip i p → anchor f s ≡ p
  anchor_tip s none i p e = ground arith
  anchor_tip s (some q) i p e = ground arith

  anchor_leaf :
      (f : Option PaneId) (s : Tree R)
      → ((q : PaneId) → count_pane q s ≤ 1)
      → (target : NodeId) × (leaf_of s (anchor f s) ≡ some target)
  anchor_leaf none s once = (last_tip s, leaf_of-last s (once _))
  anchor_leaf (some q) s once = elim (Option-cases (leaf_of s q)) [
    | inl e ↦ rw (e, anchor) (last_tip s, leaf_of-last s (once _))
    | inr (target, e) ↦ rw (e, anchor) (target, e)
  ]

  insert_root :
      (t : SplitTree R) (i : NodeId) (p new : PaneId) (o : Orientation)
      → Holds t (tip i p)
      → t.next_id + 2 < 2 ^ 32
      → insert_pane_after_focused t new o ≡ (equalize_chain (beside_top false t new o i), true)
  unfolding insert_pane_after_focused
  insert_root t i p new o v small = ground (arith, v.at_root, v.rep)

  insert_fork :
      (t : SplitTree R) (i : NodeId) (o' : Orientation) (r : R) (x y : Tree R) (new : PaneId)
      → (o : Orientation) → Holds t (fork i o' r x y)
      → insert_pane_after_focused t new o ≡ (insert_in_chain t i new o, true)
  unfolding insert_pane_after_focused
  insert_fork t i o' r x y new o v = let h = v.rep.0 in ground (arith, v.at_root)

  -- On a well-formed tree, while the id counter is at least two below its wrap-around,
  -- `insert_pane_after_focused` of a pane that is not in the tree answers true and leaves a
  -- well-formed tree with the new pane in focus and right behind the focused pane, or behind the
  -- last pane if the focus is on none of the tree.
  pub insert_pane_after_focused-Behind :
      (t : SplitTree R) (s : Tree R) (new : PaneId) (o : Orientation)
      → Holds t s
      → count_pane new s ≡ 0
      → t.next_id + 2 < 2 ^ 32
      → let out = insert_pane_after_focused t new o in
        (out.1 ≡ true) × Behind s (anchor t.focused s) new out.0
  insert_pane_after_focused-Behind t (tip i p) new o v absent small =
      let e : anchor t.focused (tip i p) ≡ p = anchor_tip (tip i p) t.focused i p refl in
      rw (insert_root t i p new o v small, e)
        (
          refl,
          equalize_chain-Behind (tip i p) p new _ (record {
            tree = wrap fl.half o t.next_id new false (tip i p);
            holds = beside_top-Holds false t i p new o v (λ f. ground arith);
            order = leaves-wrap fl.half o t.next_id new false (tip i p) p (==_refl p);
            focus = refl;
          }),
        )
  insert_pane_after_focused-Behind t (fork i o' r x y) new o v absent small =
      let s = fork i o' r x y in
      let (target, leaf) = anchor_leaf t.focused s v.once in
      rw (insert_fork t i o' r x y new o v, insert_in_chain-target t s new o target v leaf)
        (
          refl,
          equalize_chain-Behind s (anchor t.focused s) new _ (
              insert_after-Behind t i o' r x y (anchor t.focused s) new o target v leaf absent
                small),
        )

  -- On an empty tree the pane becomes the only leaf.
  pub insert_pane_after_focused-empty :
      (t : SplitTree R) (new : PaneId) (o : Orientation)
      → t.root ≡ none
      → t.next_id + 1 < 2 ^ 32
      → let out = insert_pane_after_focused t new o in
        (out.1 ≡ true) × Holds out.0 (tip t.next_id new) × (out.0.focused ≡ some new)
  unfolding insert_pane_after_focused
  insert_pane_after_focused-empty t new o e small = rw e (
    refl,
    record {
      at_root = refl;
      rep = ground (arith, lookup-insert t.next_id t.next_id (Node.leaf new) t.nodes);
      uniq = λ j. ground arith;
      once = λ q. ground arith;
      fresh = λ j h. ground arith;
      sized = omega arith;
    },
    refl,
  )
