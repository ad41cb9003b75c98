-- ===== src/Split/Prune.antt =====
-- The tree behind `remove` of app/src/split.rs: the sibling of a leaf takes their parent's place.
use limux.Prelude.{
  ℕ, ◌+◌, ◌≤◌, ◌≡◌, Bool, true, Option, none, some, [], if◌then◌else◌, Bool-cases, Option-cases,
  inl, inr, append-nil, arith, refl, or_else,
}
use limux.Split.Types.{PaneId, NodeId, Orientation}
use limux.Split.Tree.{Tree, tip, fork, count_pane, leaves}
use limux.Split.Reads.{parent_of, is_tip_of, leaf_of}
use limux.Split.Graft.{spread, spread-append, spread-absent, parent_of-count, is_tip_of-count}
use limux.Split.Leaf.{leaf_of-tip, leaf_of-absent}

pub or_else_left : (a b : Option NodeId) (l : NodeId) → or_else a b ≡ some l → b ≡ none → a ≡ some l
or_else_left none b l e f = cc
or_else_left (some a) b l e f = e

module _ {R : Type 0} where
  abbrev pub prune : PaneId → Tree R → Tree R
  prune q (tip i p) = tip i p
  prune q (fork i o r x y) =
      let deeper = fork i o r (prune q x) (prune q y) in
      if is_tip_of x q then y else if is_tip_of y q then x else deeper

  pub prune-absent : (q : PaneId) (t : Tree R) → count_pane q t ≡ 0 → prune q t ≡ t
  prune-absent q (tip i p) e = refl
  prune-absent q (fork i o r x y) e =
      ground (arith, prune-absent q x, prune-absent q y, is_tip_of-count x q, is_tip_of-count y q)

  spread-tip : (q : PaneId) (t : Tree R) → is_tip_of t q ≡ true → spread q [] (leaves t) ≡ []
  spread-tip q (tip i p) e = ground arith
  spread-tip q (fork i o r x y) e = cc

  -- The panes that stay keep their order.
  pub leaves-prune :
      (q : PaneId) (t : Tree R) (p : NodeId) (side : Bool)
      → parent_of t q ≡ some (p, side)
      → count_pane q t ≤ 1
      → leaves (prune q t) ≡ spread q [] (leaves t)
  leaves-prune q (tip i o) p side e once = cc
  leaves-prune q (fork i o r x y) p side e once = elim (Bool-cases (is_tip_of x q)) [
    | inl tx ↦ ground (
      arith,
      spread-tip q x tx,
      spread-append q [] (leaves x) (leaves y),
      spread-absent q [] y (omega (arith, is_tip_of-count x q tx)),
    )
    | inr nx ↦ elim (Bool-cases (is_tip_of y q)) [
      | inl ty ↦ ground (
        arith,
        spread-tip q y ty,
        spread-append q [] (leaves x) (leaves y),
        spread-absent q [] x (omega (arith, is_tip_of-count y q ty)),
        append-nil (leaves x),
      )
      | inr ny ↦ elim (Option-cases (parent_of x q)) [
        | inl px ↦
            let py : parent_of y q ≡ some (p, side) = ground arith in
            let gone : count_pane q x ≡ 0 = omega (arith, parent_of-count y q p side py) in
            rw (
              nx,
              ny,
              prune-absent q x gone,
              leaves-prune q y p side py (omega arith),
              spread-append q [] (leaves x) (leaves y),
              spread-absent q [] x gone,
            )
        | inr (_, px) ↦
            let px' : parent_of x q ≡ some (p, side) = ground arith in
            let gone : count_pane q y ≡ 0 = omega (arith, parent_of-count x q p side px') in
            rw (
              nx,
              ny,
              prune-absent q y gone,
              leaves-prune q x p side px' (omega arith),
              spread-append q [] (leaves x) (leaves y),
              spread-absent q [] y gone,
            )
      ]
    ]
  ]

  pub tip-leaf :
      (t : Tree R) (q : PaneId)
      → is_tip_of t q ≡ true
      → (l : NodeId) → leaf_of t q ≡ some l
      → t ≡ tip l q
  tip-leaf (tip i p) q e l f = ground arith
  tip-leaf (fork i o r x y) q e l f = cc

  -- A count that adds up over the tree loses what it has at the leaf and at the parent.
  pub weight-prune :
      (w : Tree R → ℕ) (c : NodeId → ℕ)
      → ((i : NodeId) (o : Orientation) (r : R) (x y : Tree R)
          → w (fork i o r x y) ≡ c i + w x + w y)
      → (q : PaneId) (t : Tree R) (p : NodeId) (side : Bool) (l : NodeId)
      → parent_of t q ≡ some (p, side)
      → leaf_of t q ≡ some l
      → count_pane q t ≤ 1
      → w (prune q t) + c p + w (tip l q) ≡ w t
  weight-prune w c adds q (tip i o) p side l e f once = cc
  weight-prune w c adds q (fork i o r x y) p side l e f once = elim (Bool-cases (is_tip_of x q)) [
    | inl tx ↦ ground (arith, adds i o r x y, tip-leaf x q tx l, leaf_of-tip x q tx)
    | inr nx ↦ elim (Bool-cases (is_tip_of y q)) [
      | inl ty ↦
          let gone : leaf_of x q ≡ none =
            leaf_of-absent x q (omega (arith, is_tip_of-count y q ty)) in
          ground (arith, adds i o r x y, tip-leaf y q ty l)
      | inr ny ↦ elim (Option-cases (parent_of x q)) [
        | inl px ↦
            let py : parent_of y q ≡ some (p, side) = ground arith in
            let gone : count_pane q x ≡ 0 = omega (arith, parent_of-count y q p side py) in
            let lx : leaf_of x q ≡ none = leaf_of-absent x q gone in
            rw (nx, ny, prune-absent q x gone)
              (omega (
                arith,
                adds i o r x y,
                adds i o r x (prune q y),
                weight-prune w c adds q y p side l py (ground arith) (omega arith),
              ))
        | inr (_, px) ↦
            let px' : parent_of x q ≡ some (p, side) = ground arith in
            let gone : count_pane q y ≡ 0 = omega (arith, parent_of-count x q p side px') in
            let ly : leaf_of y q ≡ none = leaf_of-absent y q gone in
            rw (nx, ny, prune-absent q y gone)
              (omega (
                arith,
                adds i o r x y,
                adds i o r (prune q x) y,
                weight-prune w c adds q x p side l px' (or_else_left _ _ l f ly) (omega arith),
              ))
      ]
    ]
  ]
