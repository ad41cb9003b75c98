-- ===== src/Workspace/Pane.antt =====
-- Tabs and panes of app/src/workspace.rs. A method on `&mut self` returns the new pane.
use Prim.Native.String.{String}
use limux.Prelude.{
  ℕ, ◌+◌, ◌-◌, ◌%◌, Bool, true, false, not, ◌&&◌, Option, none, some, List, [], ◌∷◌, ◌++◌, ◌==◌,
  if◌then◌else◌, length, get_elem?, position, any, remove_at, ltb, leb, u32, filter_map,
  update_first,
}

abbrev pub SurfaceId : Type 0
SurfaceId = ℕ

abbrev pub BrowserPanelId : Type 0
BrowserPanelId = ℕ

pub data PanelKind : Type 0 where
  terminal : SurfaceId → PanelKind
  browser : BrowserPanelId → String → PanelKind

pub record Tab : Type 0 where
  pub panel : PanelKind
  pub title : String
  pub working_directory : Option String
  pub working_directory_from_osc7 : Bool

pub record Pane : Type 0 where
  pub id : ℕ
  pub tabs : List Tab
  pub selected_tab : ℕ
  pub has_bell : Bool

abbrev pub panel_surface : PanelKind → Option SurfaceId
panel_surface (terminal surface_id) = some surface_id
panel_surface (browser browser_id url) = none

abbrev pub panel_browser : PanelKind → Option BrowserPanelId
panel_browser (browser browser_id url) = some browser_id
panel_browser (terminal surface_id) = none

abbrev pub surface_id : Tab → Option SurfaceId
surface_id t = panel_surface t.panel

abbrev pub browser_id : Tab → Option BrowserPanelId
browser_id t = panel_browser t.panel

unfoldable pub is_terminal : Tab → Bool
is_terminal t = elim t.panel [ terminal s ↦ true | browser b url ↦ false ]

unfoldable pub is_browser : Tab → Bool
is_browser t = elim t.panel [ terminal s ↦ false | browser b url ↦ true ]

-- `id == Some(n)`.
abbrev pub is_id : ℕ → Option ℕ → Bool
is_id n none = false
is_id n (some m) = m == n

abbrev pub fresh_tab : PanelKind → Tab
fresh_tab panel = record {
  panel = panel;
  title = String.[];
  working_directory = none;
  working_directory_from_osc7 = false;
}

unfoldable pub new_with_id : ℕ → SurfaceId → Pane
new_with_id id s = record {
  id = id;
  tabs = fresh_tab (terminal s) ∷ [];
  selected_tab = 0;
  has_bell = false;
}

unfoldable pub new_browser_with_id : ℕ → BrowserPanelId → String → Pane
new_browser_with_id id b url = record {
  id = id;
  tabs = fresh_tab (browser b url) ∷ [];
  selected_tab = 0;
  has_bell = false;
}

-- `next_pane_id`: the counter's value, and the counter one further.
unfoldable pub new : ℕ → SurfaceId → Pane × ℕ
unfolding new_with_id
new counter s = (new_with_id counter s, u32 (counter + 1))

unfoldable pub new_browser : ℕ → BrowserPanelId → String → Pane × ℕ
unfolding new_browser_with_id
new_browser counter b url = (new_browser_with_id counter b url, u32 (counter + 1))

unfoldable pub active_panel : Pane → Option PanelKind
active_panel p = elim (get_elem? p.tabs p.selected_tab) [ none ↦ none | some t ↦ some t.panel ]

unfoldable pub active_surface : Pane → Option SurfaceId
active_surface p = elim (get_elem? p.tabs p.selected_tab) [ none ↦ none | some t ↦ surface_id t ]

unfoldable pub active_browser : Pane → Option BrowserPanelId
active_browser p = elim (get_elem? p.tabs p.selected_tab) [ none ↦ none | some t ↦ browser_id t ]

unfoldable pub surface_ids : Pane → List SurfaceId
surface_ids p = filter_map surface_id p.tabs

unfoldable pub browser_ids : Pane → List BrowserPanelId
browser_ids p = filter_map browser_id p.tabs

-- What `add_tab` and `add_browser_tab` share: the new tab is the last and is selected.
abbrev pub push_tab : Pane → PanelKind → Pane × ℕ
push_tab p panel =
    let idx = length p.tabs in
    (record p { tabs = p.tabs ++ fresh_tab panel ∷ []; selected_tab = idx }, idx)

unfoldable pub add_tab : Pane → SurfaceId → Pane × ℕ
add_tab p s = push_tab p (terminal s)

unfoldable pub add_browser_tab : Pane → BrowserPanelId → String → Pane × ℕ
add_browser_tab p b url = push_tab p (browser b url)

-- What `remove_tab` and `remove_browser_tab` do at the position of the tab.
abbrev pub drop_tab : Pane → ℕ → Pane
drop_tab p idx =
    let tabs = remove_at p.tabs idx in
    record p {
      tabs = tabs;
      selected_tab =
          if leb (length tabs) p.selected_tab && not (length tabs == 0)
          then length tabs - 1
          else p.selected_tab;
    }

unfoldable pub remove_tab : Pane → SurfaceId → Pane × Bool
remove_tab p s = elim (position (λ t. is_id s (surface_id t)) p.tabs) [
  | none ↦ (p, false)
  | some idx ↦ (drop_tab p idx, true)
]

unfoldable pub remove_browser_tab : Pane → BrowserPanelId → Pane × Bool
remove_browser_tab p b = elim (position (λ t. is_id b (browser_id t)) p.tabs) [
  | none ↦ (p, false)
  | some idx ↦ (drop_tab p idx, true)
]

unfoldable pub select_tab : Pane → ℕ → Pane
select_tab p idx = if ltb idx (length p.tabs) then record p { selected_tab = idx } else p

unfoldable pub cycle_tab : Pane → Bool → Pane × Option PanelKind
unfolding active_panel
cycle_tab p forward =
    let n = length p.tabs in
    let moved : Pane = record p {
      selected_tab = if forward then (p.selected_tab + 1) % n else (p.selected_tab + n - 1) % n;
    } in
    if leb n 1 then (p, active_panel p) else (moved, active_panel moved)

-- `tabs.iter_mut().find(..)`: the first tab with the id is changed.
unfoldable pub set_tab_title : Pane → SurfaceId → String → Pane
set_tab_title p s title = record p {
  tabs = update_first (λ t. is_id s (surface_id t)) (λ t. record t { title = title }) p.tabs;
}

unfoldable pub set_browser_tab_title : Pane → BrowserPanelId → String → Pane
set_browser_tab_title p b title = record p {
  tabs = update_first (λ t. is_id b (browser_id t)) (λ t. record t { title = title }) p.tabs;
}

unfoldable pub set_tab_directory : Pane → SurfaceId → String → Pane
set_tab_directory p s dir = record p {
  tabs =
      update_first (λ t. is_id s (surface_id t)) (λ t. record t { working_directory = some dir })
        p.tabs;
}

unfoldable pub has_surface : Pane → SurfaceId → Bool
has_surface p s = any (λ t. is_id s (surface_id t)) p.tabs

unfoldable pub has_browser : Pane → BrowserPanelId → Bool
has_browser p b = any (λ t. is_id b (browser_id t)) p.tabs
