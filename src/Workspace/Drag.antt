-- ===== src/Workspace/Drag.antt =====
-- The tab bookkeeping of app/src/window.rs for dragged tabs: which tab a drag means, where it is
-- inserted, and the removal that keeps the selected tab.
use limux.Prelude.{
  ℕ, ◌-◌, Bool, false, Option, none, some, ◌==◌, if◌then◌else◌, length, get_elem?, position,
  remove_at, ltb, min,
}
use limux.Workspace.Pane.{PanelKind, Tab, Pane, SurfaceId, BrowserPanelId}

pub data TabDragIdentity : Type 0 where
  surface : SurfaceId → TabDragIdentity
  browser : BrowserPanelId → TabDragIdentity

pub data TabInsertion : Type 0 where
  before : TabDragIdentity → TabInsertion
  append : TabInsertion

abbrev pub matches_panel : TabDragIdentity → PanelKind → Bool
matches_panel (surface s) (PanelKind.terminal t) = s == t
matches_panel (browser b) (PanelKind.browser c url) = b == c
matches_panel _ _ = false

abbrev pub panel_drag_identity : PanelKind → TabDragIdentity
panel_drag_identity (PanelKind.terminal s) = surface s
panel_drag_identity (PanelKind.browser b url) = browser b

unfoldable pub tab_index_for_identity : Pane → TabDragIdentity → Option ℕ
tab_index_for_identity p identity = position (λ t. matches_panel identity t.panel) p.tabs

unfoldable pub insertion_index_for_target : Pane → TabInsertion → Option ℕ
insertion_index_for_target p (before anchor) = tab_index_for_identity p anchor
insertion_index_for_target p append = some (length p.tabs)

-- `Vec::remove` panics out of range: `none`.
unfoldable pub remove_tab_preserving_selection : Pane → ℕ → Option (Pane × Tab)
remove_tab_preserving_selection p tab_idx = elim (get_elem? p.tabs tab_idx) [
  | none ↦ none
  | some tab ↦
      let tabs = remove_at p.tabs tab_idx in
      let selected = p.selected_tab in
      some (
        record p {
          tabs = tabs;
          selected_tab =
              if length tabs == 0
              then 0
              else if ltb tab_idx selected
              then selected - 1
              else if selected == tab_idx
              then min tab_idx (length tabs - 1)
              else min selected (length tabs - 1);
        },
        tab,
      )
]
