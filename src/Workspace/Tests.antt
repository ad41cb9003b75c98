-- ===== src/Workspace/Tests.antt =====
-- The theorems on tabs of app/src/workspace.rs and app/src/window.rs at a pane of three tabs.
use limux.Prelude.{
  ℕ, ◌+◌, ◌≡◌, Bool, refl, sym, arith, true, false, some, none, List, [], ◌∷◌, get_elem?, ◌==◌,
  lookup, insert, remove as remove_key,
}
use limux.Workspace.Pane.{Pane, PanelKind, terminal, browser, fresh_tab, remove_tab}
use limux.Split.Types.{new_with_pane, Node, Orientation}
use limux.Split.Walk.{node_id_for_pane, find_leaf}
use limux.Workspace.State.{Workspace, remove_pane, set_focused_pane}
use limux.Workspace.Order.{move_workspace}
use limux.Workspace.Pinned.{Moved, move_workspace-Moved}
use limux.Workspace.Drag.{
  panel_drag_identity, remove_tab_preserving_selection, tab_index_for_identity,
  insertion_index_for_target, before, append,
}
use limux.Workspace.Tabs.{add, close, cycle, select, apply_all, IsSelected, apply_all-IsSelected}
use limux.Workspace.Active.{active_tab, active_tab-remove_tab_left}
use limux.Workspace.Reorder.{reorder_tab_in_pane, move_tab_to_pane, carry_tab}
use limux.Workspace.Reordered.{Reordered, reorder_tab_in_pane-Reordered}
use limux.Workspace.Transfer.{Transfer, move_tab_to_pane-Transfer}

abbrev three_tabs : Pane
three_tabs = record {
  id = 1;
  tabs =
      fresh_tab (terminal 7)
      ∷ fresh_tab (browser 3 "https://example.org")
      ∷ fresh_tab (terminal 9)
      ∷ [];
  selected_tab = 1;
  has_bell = false;
}

apply_all-IsSelected_example :
    IsSelected (apply_all (add 5 ∷ close 7 ∷ cycle true ∷ close 9 ∷ select 8 ∷ []) three_tabs)
apply_all-IsSelected_example =
    apply_all-IsSelected (add 5 ∷ close 7 ∷ cycle true ∷ close 9 ∷ select 8 ∷ []) three_tabs
      (λ h. omega arith)

abbrev two_tabs_left : Pane
two_tabs_left = record {
  id = 1;
  tabs = fresh_tab (browser 3 "https://example.org") ∷ fresh_tab (terminal 9) ∷ [];
  selected_tab = 0;
  has_bell = false;
}

two_left :
    remove_tab_preserving_selection three_tabs 0 ≡ some (two_tabs_left, fresh_tab (terminal 7))
unfolding remove_tab_preserving_selection
two_left = refl

active_tab-remove_tab_left_example :
    active_tab (remove_tab three_tabs 7).0 ≡ get_elem? three_tabs.tabs (three_tabs.selected_tab + 1)
active_tab-remove_tab_left_example =
    active_tab-remove_tab_left three_tabs 7 0 refl (omega arith) (omega arith)

abbrev one_pane : Workspace ℕ
one_pane = record {
  id = 1;
  title = "shell";
  custom_title = none;
  working_directory = none;
  pinned = false;
  has_bell = false;
  panes = (1, three_tabs) ∷ [];
  split_tree = new_with_pane ℕ 1;
}

abbrev numbered : ℕ → Bool → Workspace ℕ
numbered i pinned = record one_pane { id = i; pinned = pinned }

abbrev four : List (Workspace ℕ)
four = numbered 1 true ∷ numbered 2 true ∷ numbered 3 false ∷ numbered 4 false ∷ []

move_workspace-Moved_example : Moved four (move_workspace four 4 3 true)
move_workspace-Moved_example =
    move_workspace-Moved four 4 3 true (λ e. sym e, (λ e. refl, (λ e. refl, (λ e. refl, tt))))
      (λ e. absurd (omega (arith, e)))

reordered :
    (reorder_tab_in_pane true
      (λ panel. true)
      three_tabs
      (panel_drag_identity (terminal 9))
      (before (panel_drag_identity (terminal 7)))).0.selected_tab
    ≡ 2
unfolding reorder_tab_in_pane tab_index_for_identity insertion_index_for_target
reordered = refl

reorder_tab_in_pane-Reordered_example :
    let p =
      (reorder_tab_in_pane true
        (λ panel. true)
        three_tabs
        (panel_drag_identity (terminal 9))
        (before (panel_drag_identity (terminal 7)))).0 in
    Reordered true
      (λ panel. true)
      three_tabs
      (panel_drag_identity (terminal 9))
      (before (panel_drag_identity (terminal 7)))
      p
    × active_tab p ≡ active_tab three_tabs
reorder_tab_in_pane-Reordered_example =
    reorder_tab_in_pane-Reordered true (λ panel. true) three_tabs (panel_drag_identity (terminal 9))
      (before (panel_drag_identity (terminal 7)))

abbrev two_panes : Workspace ℕ
two_panes = record one_pane {
  panes =
      (1, record three_tabs { tabs = fresh_tab (terminal 7) ∷ []; selected_tab = 0 })
      ∷ (2, record three_tabs { id = 2; tabs = fresh_tab (terminal 8) ∷ []; selected_tab = 0 })
      ∷ [];
  split_tree = record {
    nodes =
        (0, Node.leaf 1) ∷ (1, Node.leaf 2) ∷ (2, Node.split Orientation.horizontal 500 0 1) ∷ [];
    root = some 2;
    next_id = 3;
    focused = some 1;
  };
}

abbrev to_other : PanelKind → Bool
to_other (terminal s) = s == 8
to_other _ = false

emptied :
    (move_tab_to_pane
      (λ panel. true)
      to_other
      two_panes
      1
      (panel_drag_identity (terminal 7))
      2
      append).panes
    ≡ (
      2,
      record three_tabs {
        id = 2;
        tabs = fresh_tab (terminal 8) ∷ fresh_tab (terminal 7) ∷ [];
        selected_tab = 1;
      },
    )
      ∷ []
unfolding move_tab_to_pane carry_tab tab_index_for_identity insertion_index_for_target
    remove_tab_preserving_selection remove_pane set_focused_pane lookup insert remove_key
    node_id_for_pane find_leaf
emptied = refl

move_tab_to_pane-Transfer_example :
    Transfer
      (λ panel. true)
      to_other
      two_panes
      1
      (panel_drag_identity (terminal 7))
      2
      append
      (move_tab_to_pane
        (λ panel. true)
        to_other
        two_panes
        1
        (panel_drag_identity (terminal 7))
        2
        append)
move_tab_to_pane-Transfer_example =
    move_tab_to_pane-Transfer (λ panel. true) to_other two_panes 1
      (panel_drag_identity (terminal 7)) 2 append
