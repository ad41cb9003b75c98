-- ===== src/Split/Edit.antt =====
-- The operations of app/src/split.rs that add a pane. A method on `&mut self` returns the new tree.
use limux.Prelude.{Bool, true, false, Option, none, some, ◌==◌, if◌then◌else◌, Map, lookup, insert}
use limux.Split.Types.{Float64, PaneId, NodeId, Orientation, Node, SplitTree, put, alloc_id}
use limux.Split.Walk.{node_id_for_pane, find_parent, find_chain_end, equalize_chain}

module _ {R : Type 0} where
  -- The child of a split on the side that `find_parent` reports; `none` for a leaf or no node.
  unfoldable pub child_of : Map (Node R) → NodeId → Bool → Option NodeId
  child_of m id is_first = elim (lookup id m) [
    | none ↦ none
    | some n ↦ elim n [ Node.leaf p ↦ none | Node.split o r a b ↦ some (if is_first then a else b) ]
  ]

  -- `if let Some(Split { first, second }) = nodes.get_mut(id) { *first or *second = child }`.
  unfoldable pub set_child : Map (Node R) → NodeId → Bool → NodeId → Map (Node R)
  set_child m id is_first child = elim (lookup id m) [
    | none ↦ m
    | some n ↦ elim n [
      | Node.leaf p ↦ m
      | Node.split o r a b ↦
          insert id (if is_first then Node.split o r child b else Node.split o r a child) m
    ]
  ]

  -- The pane of a leaf; `none` is the early `return` of the search.
  abbrev pub pane_at : Map (Node R) → NodeId → Option PaneId
  pane_at m id = elim (lookup id m) [
    | none ↦ none
    | some n ↦ elim n [ Node.leaf p ↦ some p | Node.split o r a b ↦ none ]
  ]

  abbrev pub add_leaf : PaneId → SplitTree R → NodeId × SplitTree R
  add_leaf p t = let (id, t') = alloc_id t in (id, put id (Node.leaf p) t')

module _ {R : Type 0} ⦃fl : Float64 R⦄ where
  -- Allocates a split of the two nodes, and returns its id.
  abbrev pub add_split : Orientation → NodeId → NodeId → SplitTree R → NodeId × SplitTree R
  add_split o first second t =
      let (id, t') = alloc_id t in (id, put id (Node.split o fl.half first second) t')

  -- The part of `insert_after_node` below the search for the parent.
  unfoldable pub insert_below :
      NodeId × Bool → NodeId → NodeId → Orientation → SplitTree R → SplitTree R
  unfolding child_of set_child
  insert_below (parent_id, true) target new_leaf o t = elim (child_of t.nodes parent_id false) [
    | none ↦ t
    | some old_second ↦
        let (new_split, t') = add_split o new_leaf old_second t in
        record t' { nodes = set_child t'.nodes parent_id false new_split }
  ]
  insert_below (parent_id, false) target new_leaf o t =
      let (new_split, t') = add_split o target new_leaf t in
      record t' { nodes = set_child t'.nodes parent_id false new_split }

  unfoldable pub insert_after_node : SplitTree R → NodeId → PaneId → Orientation → SplitTree R
  unfolding insert_below
  insert_after_node t target new_pane_id o =
      let (new_leaf, t1) = add_leaf new_pane_id t in
      elim t1.root [
        | none ↦ t1
        | some root ↦
            if root == target
            then (let (new_split, t2) = add_split o target new_leaf t1 in
                record t2 { root = some new_split })
            else elim (pane_at t1.nodes target) [
              | none ↦ t1
              | some p ↦ elim (find_parent t1.next_id t1.nodes root p) [
                | none ↦ t1
                | some found ↦ insert_below found target new_leaf o t1
              ]
            ]
      ]

  -- `insert_pane_after_focused` on a tree whose root is a split.
  unfoldable pub insert_in_chain : SplitTree R → NodeId → PaneId → Orientation → SplitTree R
  unfolding insert_after_node
  insert_in_chain t root new_pane_id o =
      let chain_end = find_chain_end t.next_id t.nodes root in
      let last_pane : PaneId = elim (pane_at t.nodes chain_end) [
        | none ↦ new_pane_id
        | some p ↦ p
      ] in
      let focused : PaneId = elim t.focused [ none ↦ last_pane | some p ↦ p ] in
      let target : NodeId = elim (node_id_for_pane t focused) [ none ↦ chain_end | some id ↦ id ] in
      equalize_chain
        (record (insert_after_node t target new_pane_id o) { focused = some new_pane_id })

  -- Returns `true` on every path.
  unfoldable pub insert_pane_after_focused : SplitTree R → PaneId → Orientation → SplitTree R × Bool
  unfolding insert_in_chain
  insert_pane_after_focused t new_pane_id o = elim t.root [
    | none ↦
        let (node_id, t1) = add_leaf new_pane_id t in
        (record t1 { root = some node_id; focused = some new_pane_id }, true)
    | some root ↦
        let chain = insert_in_chain t root new_pane_id o in
        elim (pane_at t.nodes root) [
          | none ↦ (chain, true)
          | some p ↦
              let (new_leaf, t1) = add_leaf new_pane_id t in
              let (split_id, t2) = add_split o root new_leaf t1 in
              (
                equalize_chain (record t2 { root = some split_id; focused = some new_pane_id }),
                true,
              )
        ]
  ]

  -- `split` puts the new pane second and `split_before` puts it first; the rest is the same text.
  unfoldable pub split_at :
      Bool → SplitTree R → PaneId → PaneId → Orientation → SplitTree R × Option NodeId
  unfolding child_of set_child
  split_at before t pane_id new_pane_id o = elim t.root [
    | none ↦ (t, none)
    | some root ↦
        let wrap = λ (target : NodeId).
          (let (new_leaf, t1) = add_leaf new_pane_id t in
            if before then add_split o new_leaf target t1 else add_split o target new_leaf t1) in
        elim (find_parent t.next_id t.nodes root pane_id) [
          | none ↦ elim (pane_at t.nodes root) [
            | none ↦ (t, none)
            | some pid ↦
                let (split_id, t2) = wrap root in
                if pid == pane_id
                then (record t2 { root = some split_id; focused = some new_pane_id }, some split_id)
                else (t, none)
          ]
          | some (parent_id, is_first) ↦ elim (child_of t.nodes parent_id is_first) [
            | none ↦ (t, none)
            | some target ↦
                let (new_split, t2) = wrap target in
                (
                  record t2 {
                    nodes = set_child t2.nodes parent_id is_first new_split;
                    focused = some new_pane_id;
                  },
                  some new_split,
                )
          ]
        ]
  ]

  unfoldable pub split : SplitTree R → PaneId → PaneId → Orientation → SplitTree R × Option NodeId
  unfolding split_at
  split = split_at false

  unfoldable pub split_before :
      SplitTree R → PaneId → PaneId → Orientation → SplitTree R × Option NodeId
  unfolding split_at
  split_before = split_at true
