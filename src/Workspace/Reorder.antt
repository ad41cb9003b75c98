-- ===== src/Workspace/Reorder.antt =====
-- The tab moves of app/src/window.rs on the panes: `reorder_tab_in_pane` within a pane and
-- `move_tab_to_pane` between two panes of a workspace. What the guards ask of the split tree and of
-- the widgets is an argument.
use limux.Prelude.{
  ℕ, ◌+◌, ◌-◌, Bool, true, false, not, ◌&&◌, Option, none, some, ◌==◌, if◌then◌else◌, length,
  get_elem?, remove_at, ltb, leb, min, lookup, insert,
}
use limux.Workspace.Pane.{Pane, Tab, PanelKind}
use limux.Workspace.Drag.{
  TabDragIdentity, TabInsertion, tab_index_for_identity, insertion_index_for_target,
  remove_tab_preserving_selection,
}
use limux.Workspace.Order.{insert_at}
use limux.Workspace.State.{Workspace, remove_pane, set_focused_pane}
use limux.Split.Types.{PaneId}
use limux.Split.Walk.{node_id_for_pane}
use limux.Split.Change.{remove as remove_leaf}

-- Where a tab ends up that is taken out at `from_index` and put back at `insertion_index`.
abbrev pub destination_of : ℕ → ℕ → ℕ → ℕ
destination_of from_index insertion_index n =
    let insertion_index = min insertion_index n in
    if ltb from_index insertion_index then insertion_index - 1 else insertion_index

-- Where the selected tab stands after the move.
abbrev pub selected_after : ℕ → ℕ → ℕ → ℕ
selected_after from_index destination selected =
    if selected == from_index
    then destination
    else let closed = if ltb from_index selected then selected - 1 else selected in
      if leb destination closed then closed + 1 else closed

abbrev pub move_tab : Pane → Tab → ℕ → ℕ → Pane
move_tab p tab from_index destination = record p {
  tabs = insert_at (remove_at p.tabs from_index) destination tab;
  selected_tab = selected_after from_index destination p.selected_tab;
}

-- The pane afterwards, and whether its tab strip is drawn again. `in_tree`: the split tree has a
-- node for the pane; `in_stack`: the pane's stack has a child for the panel.
unfoldable pub reorder_tab_in_pane :
    (in_tree : Bool)
    → (in_stack : PanelKind → Bool) → Pane
    → TabDragIdentity
    → TabInsertion
    → Pane × Bool
reorder_tab_in_pane in_tree in_stack p source_identity target_insertion =
    if not in_tree then (p, false) else elim (tab_index_for_identity p source_identity) [
      | none ↦ (p, false)
      | some from_index ↦ elim (insertion_index_for_target p target_insertion) [
        | none ↦ (p, false)
        | some insertion_index ↦ elim (get_elem? p.tabs from_index) [
          | none ↦ (p, false)
          | some tab ↦
              let destination = destination_of from_index insertion_index (length p.tabs) in
              if not (in_stack tab.panel)
              then (p, false)
              else if destination == from_index
              then (p, false)
              else (move_tab p tab from_index destination, true)
        ]
      ]
    ]

-- The tab goes from one pane to the other: the two panes afterwards, or `none` where the code
-- returns early. `in_source` and `in_target`: the stacks of the two panes have a child for the
-- panel.
unfoldable pub carry_tab :
    (in_source in_target : PanelKind → Bool)
    → Pane
    → TabDragIdentity
    → Pane
    → TabInsertion
    → Option (Pane × Pane)
carry_tab in_source in_target source source_identity target target_insertion =
    elim (tab_index_for_identity source source_identity) [
      | none ↦ none
      | some source_tab_idx ↦ elim (get_elem? source.tabs source_tab_idx) [
        | none ↦ none
        | some tab ↦ elim (insertion_index_for_target target target_insertion) [
          | none ↦ none
          | some target_index ↦
              if in_source tab.panel && not (in_target tab.panel)
              then elim (remove_tab_preserving_selection source source_tab_idx) [
                | none ↦ none
                | some (source', moved) ↦ some (
                  source',
                  record target {
                    tabs = insert_at target.tabs target_index moved;
                    selected_tab = target_index;
                  },
                )
              ]
              else none
        ]
      ]
    ]

module _ {R : Type 0} where
  -- What `remove_pane_from_split` does behind the widgets.
  abbrev pub remove_pane_from_split : Workspace R → PaneId → Workspace R
  remove_pane_from_split w pane_id =
      (remove_pane (record w { split_tree = (remove_leaf w.split_tree pane_id).0 }) pane_id).0

  -- The panes are stored, a source pane without tabs is closed, and the target gets the focus.
  abbrev pub store_panes : Workspace R → PaneId → Pane → PaneId → Pane → Workspace R
  store_panes w source_pane_id source' target_pane_id target' =
      let stored = record w {
        panes = insert target_pane_id target' (insert source_pane_id source' w.panes);
      } in
      set_focused_pane
        (if length source'.tabs == 0 then remove_pane_from_split stored source_pane_id else stored)
        target_pane_id

  unfoldable pub move_tab_to_pane :
      (in_source in_target : PanelKind → Bool)
      → Workspace R
      → PaneId
      → TabDragIdentity
      → PaneId
      → TabInsertion
      → Workspace R
  move_tab_to_pane in_source in_target w source_pane_id source_identity target_pane_id insertion =
      if source_pane_id == target_pane_id
      then w
      else elim (node_id_for_pane w.split_tree source_pane_id) [
        | none ↦ w
        | some source_node ↦ elim (node_id_for_pane w.split_tree target_pane_id) [
          | none ↦ w
          | some target_node ↦ elim (lookup source_pane_id w.panes) [
            | none ↦ w
            | some source ↦ elim (lookup target_pane_id w.panes) [
              | none ↦ w
              | some target ↦
                  elim (carry_tab in_source in_target source source_identity target insertion) [
                    | none ↦ w
                    | some (source', target') ↦
                        store_panes w source_pane_id source' target_pane_id target'
                  ]
            ]
          ]
        ]
      ]
