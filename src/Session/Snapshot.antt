-- ===== src/Session/Snapshot.antt =====
-- The snapshots of tabs and layouts in app/src/session.rs, and `snapshot_layout_node` of
-- app/src/window.rs. The text on a terminal's screen and the address of a browser are arguments.
use Prim.Native.String.{String}
use limux.Prelude.{
  ℕ, zero, suc, Option, none, some, Bool, false, List, [], map, if◌then◌else◌, unwrap_or, Map,
  lookup, same_text,
}
use limux.Split.Types.{Orientation, horizontal, vertical, Node}
use limux.Workspace.Pane.{SurfaceId, BrowserPanelId, PanelKind, terminal, browser, Tab, Pane}
use limux.Workspace.State.{is_empty_title}

pub record PaneTabSnapshot : Type 0 where
  pub working_directory : Option String
  pub title : Option String
  pub scrollback : Option String
  pub panel_kind : Option String
  pub url : Option String

pub data LayoutSnapshot (R : Type 0) : Type 0 where
  single : List PaneTabSnapshot → LayoutSnapshot R
  divided : (orientation : String) (ratio : R) (first second : LayoutSnapshot R) → LayoutSnapshot R

unfoldable pub is_browser_snapshot : PaneTabSnapshot → Bool
is_browser_snapshot s = elim s.panel_kind [ none ↦ false | some k ↦ same_text k "browser" ]

module _ (scrollback_of : SurfaceId → Option String) (url_of : BrowserPanelId → Option String) where
  -- What a panel adds to the snapshot of its tab.
  abbrev pub panel_snapshot : PanelKind → Option String → Option String → PaneTabSnapshot
  panel_snapshot (terminal surface_id) directory title = record {
    working_directory = directory;
    title = title;
    scrollback = scrollback_of surface_id;
    panel_kind = some "terminal";
    url = none;
  }
  panel_snapshot (browser browser_id url) directory title = record {
    working_directory = directory;
    title = title;
    scrollback = none;
    panel_kind = some "browser";
    url = some (unwrap_or url (url_of browser_id));
  }

  unfoldable pub to_snapshot : Tab → PaneTabSnapshot
  to_snapshot t =
      panel_snapshot t.panel t.working_directory
        (if is_empty_title t.title then none else some t.title)

  abbrev pub orientation_text : Orientation → String
  orientation_text horizontal = "horizontal"
  orientation_text vertical = "vertical"

  abbrev pub tabs_snapshot : Option Pane → List PaneTabSnapshot
  tabs_snapshot none = []
  tabs_snapshot (some pane) = map to_snapshot pane.tabs

  -- The walk over node ids runs on fuel.
  unfoldable pub snapshot_layout_node :
      {R : Type 0} → ℕ → Map (Node R) → Map Pane → ℕ → LayoutSnapshot R
  snapshot_layout_node zero nodes panes node_id = single []
  snapshot_layout_node (suc fuel) nodes panes node_id = elim (lookup node_id nodes) [
    | none ↦ single []
    | some n ↦ elim n [
      | Node.leaf pane_id ↦ single (tabs_snapshot (lookup pane_id panes))
      | Node.split o ratio a b ↦
          divided (orientation_text o) ratio (snapshot_layout_node fuel nodes panes a)
            (snapshot_layout_node fuel nodes panes b)
    ]
  ]
