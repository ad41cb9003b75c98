-- ===== src/Split/Tree.antt =====
-- The trees that a node map of app/src/split.rs stands for, and when it does.
use limux.Prelude.{
  ℕ, suc, ◌+◌, ◌≡◌, arith, some, List, [], ◌∷◌, ◌++◌, ◌==◌, if◌then◌else◌, Map, lookup,
}
use limux.Split.Types.{PaneId, NodeId, Orientation, Node}

pub data Tree (R : Type 0) : Type 0 where
  tip : NodeId → PaneId → Tree R
  fork : NodeId → Orientation → R → Tree R → Tree R → Tree R

abbrev pub hit : ℕ → ℕ → ℕ
hit i j = if i == j then 1 else 0

pub hit_self : (i : ℕ) → hit i i ≡ 1
hit_self i = ground arith

module _ {R : Type 0} where
  abbrev pub top : Tree R → NodeId
  top (tip i p) = i
  top (fork i o r x y) = i

  -- How often a node id occurs, and how often a pane.
  abbrev pub ids : ℕ → Tree R → ℕ
  ids j (tip i p) = hit i j
  ids j (fork i o r x y) = hit i j + ids j x + ids j y

  abbrev pub count_pane : PaneId → Tree R → ℕ
  count_pane q (tip i p) = hit p q
  count_pane q (fork i o r x y) = count_pane q x + count_pane q y

  abbrev pub size : Tree R → ℕ
  size (tip i p) = 1
  size (fork i o r x y) = suc (size x + size y)

  -- The panes from left to right.
  abbrev pub leaves : Tree R → List PaneId
  leaves (tip i p) = p ∷ []
  leaves (fork i o r x y) = leaves x ++ leaves y

  -- The map holds the nodes of the tree.
  abbrev pub Rep : Map (Node R) → Tree R → Type 0
  Rep m (tip i p) = lookup i m ≡ some (Node.leaf p)
  Rep m (fork i o r x y) = (lookup i m ≡ some (Node.split o r (top x) (top y))) × Rep m x × Rep m y
