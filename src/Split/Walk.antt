-- ===== src/Split/Walk.antt =====
-- The traversals of app/src/split.rs. They recur through the node map, so each takes fuel; the
-- callers give `next_id`, which bounds the number of nodes of a well-formed tree.
use limux.Prelude.{
  ℕ, zero, suc, Bool, true, false, Option, none, some, List, [], ◌∷◌, ◌++◌, ◌==◌, if◌then◌else◌,
  Map, lookup, or_else, length, leb, insert,
}
use limux.Split.Types.{Float64, PaneId, NodeId, Node, SplitTree}

module _ {R : Type 0} where
  -- `out.push` is `out ++ p ∷ []`.
  unfoldable pub collect_panes : ℕ → Map (Node R) → NodeId → List PaneId → List PaneId
  collect_panes zero m id out = out
  collect_panes (suc f) m id out = elim (lookup id m) [
    | none ↦ out
    | some n ↦ elim n [
      | Node.leaf p ↦ out ++ p ∷ []
      | Node.split o r a b ↦ collect_panes f m b (collect_panes f m a out)
    ]
  ]

  unfoldable pub panes : SplitTree R → List PaneId
  panes t = elim t.root [ none ↦ [] | some root ↦ collect_panes t.next_id t.nodes root [] ]

  unfoldable pub find_leaf : ℕ → Map (Node R) → NodeId → PaneId → Option NodeId
  find_leaf zero m id q = none
  find_leaf (suc f) m id q = elim (lookup id m) [
    | none ↦ none
    | some n ↦ elim n [
      | Node.leaf p ↦ if p == q then some id else none
      | Node.split o r a b ↦ or_else (find_leaf f m a q) (find_leaf f m b q)
    ]
  ]

  unfoldable pub node_id_for_pane : SplitTree R → PaneId → Option NodeId
  node_id_for_pane t q = elim t.root [
    | none ↦ none
    | some root ↦ find_leaf t.next_id t.nodes root q
  ]

  -- `matches!(nodes.get(id), Some(Leaf { pane_id }) if pane_id == q)`.
  abbrev pub is_leaf_of : Map (Node R) → NodeId → PaneId → Bool
  is_leaf_of m id q = elim (lookup id m) [
    | none ↦ false
    | some n ↦ elim n [ Node.leaf p ↦ p == q | Node.split o r a b ↦ false ]
  ]

  unfoldable pub find_parent : ℕ → Map (Node R) → NodeId → PaneId → Option (NodeId × Bool)
  find_parent zero m id q = none
  find_parent (suc f) m id q = elim (lookup id m) [
    | none ↦ none
    | some n ↦ elim n [
      | Node.leaf p ↦ none
      | Node.split o r a b ↦
          let deeper = or_else (find_parent f m a q) (find_parent f m b q) in
          if is_leaf_of m a q
          then some (id, true)
          else if is_leaf_of m b q
          then some (id, false)
          else deeper
    ]
  ]

  unfoldable pub find_parent_of_node : ℕ → Map (Node R) → NodeId → NodeId → Option (NodeId × Bool)
  find_parent_of_node zero m id target = none
  find_parent_of_node (suc f) m id target = elim (lookup id m) [
    | none ↦ none
    | some n ↦ elim n [
      | Node.leaf p ↦ none
      | Node.split o r a b ↦
          let deeper =
            or_else (find_parent_of_node f m a target) (find_parent_of_node f m b target) in
          if a == target then some (id, true) else if b == target then some (id, false) else deeper
    ]
  ]

  unfoldable pub find_chain_end : ℕ → Map (Node R) → NodeId → NodeId
  find_chain_end zero m id = id
  find_chain_end (suc f) m id = elim (lookup id m) [
    | none ↦ id
    | some n ↦ elim n [ Node.leaf p ↦ id | Node.split o r a b ↦ find_chain_end f m b ]
  ]

  -- The map is passed on from the first child's call to the second's, as `&mut self` is.
  unfoldable pub replace_child : ℕ → Map (Node R) → NodeId → NodeId → NodeId → Map (Node R)
  replace_child zero m id old_child new_child = m
  replace_child (suc f) m id old_child new_child = elim (lookup id m) [
    | none ↦ m
    | some n ↦ elim n [
      | Node.leaf p ↦ m
      | Node.split o r a b ↦
          let deeper =
            replace_child f (replace_child f m a old_child new_child) b old_child new_child in
          if a == old_child
          then insert id (Node.split o r new_child b) m
          else if b == old_child
          then insert id (Node.split o r a new_child) m
          else deeper
    ]
  ]

module _ {R : Type 0} ⦃fl : Float64 R⦄ where
  -- The recursion is bounded by `remaining`, which falls by one in each call.
  unfoldable pub set_chain_ratios : Map (Node R) → NodeId → ℕ → Map (Node R)
  set_chain_ratios m id zero = m
  set_chain_ratios m id (suc zero) = m
  set_chain_ratios m id (suc (suc k)) = elim (lookup id m) [
    | none ↦ m
    | some n ↦ elim n [
      | Node.leaf p ↦ m
      | Node.split o r a b ↦
          set_chain_ratios
            (insert id (Node.split o (fl.div (fl.of_nat 1) (fl.of_nat (suc (suc k)))) a b) m) b
            (suc k)
    ]
  ]

  unfoldable pub equalize_chain : SplitTree R → SplitTree R
  equalize_chain t =
      let n = length (panes t) in
      if leb n 1 then t else elim t.root [
        | none ↦ t
        | some root ↦ record t { nodes = set_chain_ratios t.nodes root n }
      ]
