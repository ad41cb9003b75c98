-- ===== src/Split/Graft.antt =====
-- Changing the tree at one split: what an edit does to the panes, to the ids and to the node map.
use limux.Prelude.{
  ◌≤◌, ◌<◌, ◌≡◌, Bool, true, none, some, List, [], ◌∷◌, ◌++◌, ◌==◌, if◌then◌else◌, ◌⊎◌,
  append_assoc, arith, refl, ==_refl,
}
use limux.Split.Types.{PaneId, NodeId, Orientation}
use limux.Split.Tree.{Tree, tip, fork, ids, count_pane, leaves}
use limux.Split.Reads.{parent_of, is_tip_of}

-- The list with `l` in the place of each `q`.
abbrev pub spread : PaneId → List PaneId → List PaneId → List PaneId
spread q l [] = []
spread q l (p ∷ ps) = (if p == q then l else p ∷ []) ++ spread q l ps

pub spread-append :
    (q : PaneId) (l xs ys : List PaneId) → spread q l (xs ++ ys) ≡ spread q l xs ++ spread q l ys
spread-append q l [] ys = refl
spread-append q l (x ∷ xs) ys = ground (
  arith,
  spread-append q l xs ys,
  append_assoc (if x == q then l else x ∷ []) (spread q l xs) (spread q l ys),
)

module _ {R : Type 0} where
  abbrev pub pick : Bool → Tree R → Tree R → Tree R
  pick side x y = if side then x else y

  pub spread-absent :
      (q : PaneId) (l : List PaneId) (t : Tree R)
      → count_pane q t ≡ 0
      → spread q l (leaves t) ≡ leaves t
  spread-absent q l (tip i p) h = ground arith
  spread-absent q l (fork i o r x y) h =
      ground
        (arith, spread-append q l (leaves x) (leaves y), spread-absent q l x, spread-absent q l y)

  -- The split with id `p` is changed by `h`.
  abbrev pub edit : NodeId → (Orientation → R → Tree R → Tree R → Tree R) → Tree R → Tree R
  edit p h (tip i q) = tip i q
  edit p h (fork i o r x y) = if i == p then h o r x y else fork i o r (edit p h x) (edit p h y)

  pub edit-absent :
      (p : NodeId) (h : Orientation → R → Tree R → Tree R → Tree R) (t : Tree R)
      → ids p t ≡ 0
      → edit p h t ≡ t
  edit-absent p h (tip i q) e = refl
  edit-absent p h (fork i o r x y) e = ground (arith, edit-absent p h x, edit-absent p h y)

  pub parent_of-ids :
      (t : Tree R) (q : PaneId) (p : NodeId) (side : Bool)
      → parent_of t q ≡ some (p, side)
      → 0 < ids p t
  parent_of-ids (tip i o) q p side e = cc
  parent_of-ids (fork i o r x y) q p side e =
      ground (arith, parent_of-ids x q p side, parent_of-ids y q p side, ==_refl i)

  pub is_tip_of-count : (t : Tree R) (q : PaneId) → is_tip_of t q ≡ true → count_pane q t ≡ 1
  is_tip_of-count (tip i p) q e = ground arith
  is_tip_of-count (fork i o r x y) q e = cc

  pub parent_of-count :
      (t : Tree R) (q : PaneId) (p : NodeId) (side : Bool)
      → parent_of t q ≡ some (p, side)
      → 0 < count_pane q t
  parent_of-count (tip i o) q p side e = cc
  parent_of-count (fork i o r x y) q p side e = ground (
    arith,
    parent_of-count x q p side,
    parent_of-count y q p side,
    is_tip_of-count x q,
    is_tip_of-count y q,
  )

  -- Only a pane that is the whole tree, or is not there, has no parent.
  pub parent_of-none :
      (t : Tree R) (q : PaneId)
      → parent_of t q ≡ none
      → (is_tip_of t q ≡ true) ⊎ (count_pane q t ≡ 0)
  parent_of-none (tip i p) q e = ground arith
  parent_of-none (fork i o r x y) q e = ground (arith, parent_of-none x q, parent_of-none y q)

  -- An edit at the parent of `q` that spreads `q` there spreads it in the whole tree.
  pub leaves-edit :
      (t : Tree R) (q : PaneId) (p : NodeId) (side : Bool) (l : List PaneId)
      → (h : Orientation → R → Tree R → Tree R → Tree R)
      → ((o : Orientation) (r : R) (x y : Tree R)
          → is_tip_of (pick side x y) q ≡ true
          → count_pane q (pick side y x) ≡ 0
          → leaves (h o r x y) ≡ spread q l (leaves x ++ leaves y))
      → parent_of t q ≡ some (p, side)
      → count_pane q t ≤ 1
      → ((j : NodeId) → ids j t ≤ 1)
      → leaves (edit p h t) ≡ spread q l (leaves t)
  leaves-edit (tip i o) q p side l h good e once uniq = cc
  leaves-edit (fork i o r x y) q p side l h good e once uniq = ground (
    arith,
    good o r x y,
    uniq p,
    uniq i,
    leaves-edit x q p side l h good,
    leaves-edit y q p side l h good,
    edit-absent p h x,
    edit-absent p h y,
    spread-absent q l x,
    spread-absent q l y,
    spread-append q l (leaves x) (leaves y),
    parent_of-ids x q p side,
    parent_of-ids y q p side,
    parent_of-count x q p side,
    parent_of-count y q p side,
    is_tip_of-count x q,
    is_tip_of-count y q,
    ==_refl i,
  )
