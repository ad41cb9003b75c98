-- ===== src/Session/Tests.antt =====
-- The theorem on restored panes of app/src/window.rs at a pane of three tabs.
use Prim.Native.String.{String}
use limux.Prelude.{ℕ, ◌≡◌, Option, none, some, true, List, [], ◌∷◌, map}
use limux.Workspace.Pane.{PanelKind, terminal, browser, Tab}
use limux.Session.Snapshot.{to_snapshot}
use limux.Session.Restore.{Building, restore_pane}
use limux.Session.Restored.{revived, built, revived_all, restore_pane-revived}

abbrev tab : PanelKind → String → Option String → Tab
tab panel title directory = record {
  panel = panel;
  title = title;
  working_directory = directory;
  working_directory_from_osc7 = true;
}

abbrev shell : Tab
shell = tab (terminal 9) "zsh" (some "/home/me")

abbrev others : List Tab
others = tab (browser 4 "about:blank") "News" none ∷ tab (terminal 3) "" (some "/tmp") ∷ []

abbrev counters : Building
counters = record { next_pane = 1; next_surface = 1; next_browser = 1; pending = [] }

abbrev screen : ℕ → Option String
screen s = some "$"

abbrev address : ℕ → Option String
address b = some "https://example.com"

restore_pane-revived_example :
    let b0 = record counters { next_pane = 2 } in
    let pane =
      (restore_pane (some "/") (map (to_snapshot screen address) (shell ∷ others)) counters).0 in
    (pane.tabs
      ≡ revived address (some "/") shell.panel none "" b0
        ∷ revived_all address
            (some "/")
            others
            (built address (some "/") shell.panel shell.working_directory b0))
    × (pane.selected_tab ≡ 0)
restore_pane-revived_example = restore_pane-revived address (some "/") screen shell others counters
