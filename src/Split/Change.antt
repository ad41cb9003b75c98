-- ===== src/Split/Change.antt =====
-- The operations of app/src/split.rs that remove and move panes, change ratios and step the focus.
use limux.Prelude.{
  ℕ, ◌+◌, ◌-◌, ◌%◌, Bool, true, false, Option, none, some, map, not, ◌==◌, if◌then◌else◌, lookup,
  remove as remove_key, head?, length, position, get_elem?,
}
use limux.Split.Types.{Float64, PaneId, NodeId, Orientation, Node, SplitTree, put}
use limux.Split.Walk.{
  panes, node_id_for_pane, find_parent, find_parent_of_node, replace_child, equalize_chain,
}
use limux.Split.Edit.{child_of, set_child, add_leaf, add_split, pane_at}

module _ {R : Type 0} where
  unfoldable pub set_ratio : SplitTree R → NodeId → R → SplitTree R
  set_ratio t id new_ratio = elim (lookup id t.nodes) [
    | none ↦ t
    | some n ↦ elim n [
      | Node.leaf p ↦ t
      | Node.split o r a b ↦ put id (Node.split o new_ratio a b) t
    ]
  ]

  -- The end of `remove`: a removed pane hands the focus to the first one left.
  abbrev pub refocus : SplitTree R → PaneId → SplitTree R
  refocus t pane_id = elim t.focused [
    | none ↦ t
    | some p ↦ if p == pane_id then record t { focused = head? (panes t) } else t
  ]

  -- The split `parent_id` gives way to `sibling_id`; `gp` is what `find_parent_of_node` returns for
  -- it, asked only when it is not the root.
  abbrev pub detach :
      SplitTree R → NodeId → NodeId → NodeId → NodeId → Option (NodeId × Bool) → SplitTree R
  detach t root parent_id sibling_id target_id gp =
      let nodes1 = remove_key target_id t.nodes in
      if root == parent_id
      then record t { root = some sibling_id; nodes = remove_key parent_id nodes1 }
      else elim gp [
        | none ↦ record t { nodes = nodes1 }
        | some (grandparent_id, gp_is_first) ↦ record t {
          nodes = remove_key parent_id (set_child nodes1 grandparent_id gp_is_first sibling_id);
        }
      ]

  unfoldable pub unlink : SplitTree R → NodeId → NodeId → NodeId → NodeId → PaneId → SplitTree R
  unlink t root parent_id sibling_id target_id pane_id =
      let gp = find_parent_of_node t.next_id (remove_key target_id t.nodes) root parent_id in
      refocus (detach t root parent_id sibling_id target_id gp) pane_id

  unfoldable pub remove : SplitTree R → PaneId → SplitTree R × Bool
  unfolding unlink child_of
  remove t pane_id = elim t.root [
    | none ↦ (t, false)
    | some root ↦
        let below : SplitTree R × Bool = elim (find_parent t.next_id t.nodes root pane_id) [
          | none ↦ (t, false)
          | some (parent_id, is_first) ↦ elim (child_of t.nodes parent_id (not is_first)) [
            | none ↦ (t, false)
            | some sibling_id ↦ elim (child_of t.nodes parent_id is_first) [
              | none ↦ (t, false)
              | some target_id ↦ (unlink t root parent_id sibling_id target_id pane_id, true)
            ]
          ]
        ] in
        elim (pane_at t.nodes root) [
          | none ↦ below
          | some pid ↦
              if pid == pane_id
              then (record t { nodes = remove_key root t.nodes; root = none; focused = none }, true)
              else below
        ]
  ]

  unfoldable pub navigate : SplitTree R → Bool → SplitTree R × Option PaneId
  navigate t forward =
      let ps = panes t in
      elim t.focused [
        | none ↦ (t, none)
        | some focused ↦ elim (position (λ p. p == focused) ps) [
          | none ↦ (t, none)
          | some idx ↦
              let new_idx : ℕ =
                if forward then (idx + 1) % length ps else (idx + length ps - 1) % length ps in
              elim (get_elem? ps new_idx) [
                | none ↦ (t, none)
                | some new_focus ↦ (record t { focused = some new_focus }, some new_focus)
              ]
        ]
      ]

module _ {R : Type 0} ⦃fl : Float64 R⦄ where
  abbrev pub halve : Node R → Node R
  halve (Node.leaf p) = Node.leaf p
  halve (Node.split o r a b) = Node.split o fl.half a b

  unfoldable pub equalize : SplitTree R → SplitTree R
  equalize t = record t { nodes = map (λ (id, n). (id, halve n)) t.nodes }

  unfoldable pub move_pane_adjacent :
      SplitTree R → PaneId → PaneId → Bool → Orientation → SplitTree R × Bool
  unfolding remove node_id_for_pane
  move_pane_adjacent t source target before o =
      if source == target then (t, false) else elim (node_id_for_pane t source) [
        | none ↦ (t, false)
        | some _ ↦ elim (node_id_for_pane t target) [
          | none ↦ (t, false)
          | some _ ↦
              let (t1, removed) = remove t source in
              if removed
              then elim (node_id_for_pane t1 target) [
                | none ↦ (t1, false)
                | some target_node ↦
                    let (source_leaf, t2) = add_leaf source t1 in
                    let (new_split, t3) =
                      if before
                      then add_split o source_leaf target_node t2
                      else add_split o target_node source_leaf t2 in
                    let t4 : SplitTree R = elim t3.root [
                      | none ↦ t3
                      | some root ↦
                          if root == target_node
                          then record t3 { root = some new_split }
                          else record t3 {
                            nodes = replace_child t3.next_id t3.nodes root target_node new_split;
                          }
                    ] in
                    (equalize_chain (record t4 { focused = some source }), true)
              ]
              else (t1, false)
        ]
      ]
