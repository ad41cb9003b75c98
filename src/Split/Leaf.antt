-- ===== src/Split/Leaf.antt =====
-- The leaf of a pane in a well-formed split tree, and the last leaf of the chain.
use limux.Prelude.{
  ◌≤◌, ◌<◌, ◌≡◌, Bool, true, none, some, [], ◌∷◌, ◌++◌, if◌then◌else◌, Bool-cases, Option-cases,
  inl, inr, Map, lookup, arith, ◌∙◌, sym, ap₂, append_assoc,
}
use limux.Split.Types.{PaneId, NodeId, Orientation, Node}
use limux.Split.Tree.{Tree, tip, fork, top, ids, count_pane, leaves, Rep}
use limux.Split.Reads.{parent_of, is_tip_of, leaf_of, last_tip}
use limux.Split.Graft.{spread, spread-append, spread-absent, parent_of-count, is_tip_of-count}

module _ {R : Type 0} where
  pub leaf_of-absent : (t : Tree R) (q : PaneId) → count_pane q t ≡ 0 → leaf_of t q ≡ none
  leaf_of-absent (tip i p) q e = ground arith
  leaf_of-absent (fork i o r x y) q e = ground (arith, leaf_of-absent x q, leaf_of-absent y q)

  pub leaf_of-none : (t : Tree R) (q : PaneId) → leaf_of t q ≡ none → count_pane q t ≡ 0
  leaf_of-none (tip i p) q e = ground arith
  leaf_of-none (fork i o r x y) q e = ground (arith, leaf_of-none x q, leaf_of-none y q)

  pub leaf_of-lookup :
      (m : Map (Node R)) (t : Tree R) (q : PaneId) (id : NodeId)
      → Rep m t
      → leaf_of t q ≡ some id
      → (lookup id m ≡ some (Node.leaf q)) × (0 < ids id t)
  leaf_of-lookup m (tip i p) q id rep e = ground arith
  leaf_of-lookup m (fork i o r x y) q id (here, rx, ry) e =
      ground (arith, leaf_of-lookup m x q id rx, leaf_of-lookup m y q id ry)

  pub leaf_of-tip : (t : Tree R) (q : PaneId) → is_tip_of t q ≡ true → leaf_of t q ≡ some (top t)
  leaf_of-tip (tip i p) q e = ground arith
  leaf_of-tip (fork i o r x y) q e = cc

  -- The child on which `find_parent` reports the pane is the leaf that `find_leaf` finds.
  pub parent_of-leaf :
      (m : Map (Node R)) (t : Tree R) (q : PaneId) (p : NodeId) (side : Bool) (o : Orientation)
      → (r : R) (a b : NodeId) → Rep m t
      → count_pane q t ≤ 1
      → parent_of t q ≡ some (p, side)
      → lookup p m ≡ some (Node.split o r a b)
      → leaf_of t q ≡ some (if side then a else b)
  parent_of-leaf m (tip i s) q p side o r a b rep once e at = cc
  parent_of-leaf m (fork i o' r' x y) q p side o r a b (here, rx, ry) once e at =
      elim (Bool-cases (is_tip_of x q)) [
        | inl tx ↦ ground (arith, leaf_of-tip x q tx)
        | inr nx ↦ elim (Bool-cases (is_tip_of y q)) [
          | inl ty ↦
              let gone : leaf_of x q ≡ none =
                leaf_of-absent x q (omega (arith, is_tip_of-count y q ty)) in
              ground (arith, leaf_of-tip y q ty)
          | inr ny ↦ elim (Option-cases (parent_of x q)) [
            | inl px ↦
                let py : parent_of y q ≡ some (p, side) = ground arith in
                let gone : leaf_of x q ≡ none =
                  leaf_of-absent x q (omega (arith, parent_of-count y q p side py)) in
                rw gone (parent_of-leaf m y q p side o r a b ry (omega arith) py at)
            | inr (_, px) ↦
                rw (parent_of-leaf m x q p side o r a b rx (omega arith) (ground arith) at)
          ]
        ]
      ]

  abbrev pub last_pane : Tree R → PaneId
  last_pane (tip i p) = p
  last_pane (fork i o r x y) = last_pane y

  pub last_pane-count : (t : Tree R) → 0 < count_pane (last_pane t) t
  last_pane-count (tip i p) = ground arith
  last_pane-count (fork i o r x y) = omega (arith, last_pane-count y)

  pub leaf_of-last :
      (t : Tree R) → count_pane (last_pane t) t ≤ 1 → leaf_of t (last_pane t) ≡ some (last_tip t)
  leaf_of-last (tip i p) h = ground arith
  leaf_of-last (fork i o r x y) h =
      ground (arith, leaf_of-last y, leaf_of-absent x (last_pane y), last_pane-count y)

  pub last_tip-lookup :
      (m : Map (Node R)) (t : Tree R)
      → Rep m t
      → lookup (last_tip t) m ≡ some (Node.leaf (last_pane t))
  last_tip-lookup m (tip i p) rep = rep
  last_tip-lookup m (fork i o r x y) (_, _, ry) = last_tip-lookup m y ry

  -- Spreading the last pane appends behind all the others.
  pub spread-last :
      (t : Tree R) (new : PaneId)
      → count_pane (last_pane t) t ≤ 1
      → spread (last_pane t) (last_pane t ∷ new ∷ []) (leaves t) ≡ leaves t ++ new ∷ []
  spread-last (tip i p) new h = ground arith
  spread-last (fork i o r x y) new h =
      let q = last_pane y in
      let l = q ∷ new ∷ [] in
      spread-append q l (leaves x) (leaves y)
      ∙ ap₂ (λ u v. u ++ v) (spread-absent q l x (omega (arith, last_pane-count y)))
          (spread-last y new (omega arith))
      ∙ sym (append_assoc (leaves x) (leaves y) (new ∷ []))
