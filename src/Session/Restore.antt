-- ===== src/Session/Restore.antt =====
-- `build_layout_widget` of app/src/window.rs, without its widgets: the panes and the split tree that a
-- layout is restored to. Ids are given out by counters that do not come to their end.
use Prim.Native.String.{String}
use limux.Prelude.{
  ℕ, ◌+◌, Option, none, some, List, [], ◌∷◌, ◌++◌, if◌then◌else◌, unwrap_or, same_text,
}
use limux.Split.Types.{Orientation, horizontal, vertical, SplitTree, new_with_pane}
use limux.Split.Merge.{merge}
use limux.Workspace.Pane.{
  SurfaceId, Pane, new_with_id, new_browser_with_id, add_tab, add_browser_tab, set_tab_title,
  set_browser_tab_title, set_tab_directory, select_tab,
}
use limux.Session.Snapshot.{PaneTabSnapshot, LayoutSnapshot, single, divided, is_browser_snapshot}

-- The next ids, and the surfaces whose terminals are to be made, with the directory to start in.
pub record Building : Type 0 where
  pub next_pane : ℕ
  pub next_surface : ℕ
  pub next_browser : ℕ
  pub pending : List (SurfaceId × Option String)

abbrev pub take_surface : Option String → Building → Building
take_surface directory b = record b {
  next_surface = b.next_surface + 1;
  pending = b.pending ++ (b.next_surface, directory) ∷ [];
}

abbrev pub take_browser : Building → Building
take_browser b = record b { next_browser = b.next_browser + 1 }

-- `if let Some(value)`.
abbrev pub with_value : {A : Type 0} → Option String → (A → String → A) → A → A
with_value none f a = a
with_value (some s) f a = f a s

-- `or`.
abbrev pub directory_or : Option String → Option String → Option String
directory_or none default_wd = default_wd
directory_or (some d) default_wd = some d

module _ (default_wd : Option String) where
  -- The pane and its first tab.
  unfoldable pub first_tab : PaneTabSnapshot → ℕ → Building → Pane × Building
  first_tab tab pane_id b =
      if is_browser_snapshot tab
      then (new_browser_with_id pane_id b.next_browser (unwrap_or "" tab.url), take_browser b)
      else (
        new_with_id pane_id b.next_surface,
        take_surface (directory_or tab.working_directory default_wd) b,
      )

  -- A tab after the first.
  unfoldable pub next_tab : PaneTabSnapshot → Pane × Building → Pane × Building
  next_tab tab (pane, b) =
      if is_browser_snapshot tab
      then (
        with_value tab.title (λ p t. set_browser_tab_title p b.next_browser t)
            (add_browser_tab pane b.next_browser (unwrap_or "" tab.url)).0,
        take_browser b,
      )
      else (
        with_value tab.working_directory (λ p d. set_tab_directory p b.next_surface d)
            (with_value tab.title (λ p t. set_tab_title p b.next_surface t)
              (add_tab pane b.next_surface).0),
        take_surface (directory_or tab.working_directory default_wd) b,
      )

  unfoldable pub next_tabs : List PaneTabSnapshot → Pane × Building → Pane × Building
  next_tabs [] made = made
  next_tabs (tab ∷ tabs) made = next_tabs tabs (next_tab tab made)

  unfoldable pub restore_pane : List PaneTabSnapshot → Building → Pane × Building
  restore_pane [] b0 =
      let pane_id = b0.next_pane in
      let b = record b0 { next_pane = pane_id + 1 } in
      (new_with_id pane_id b.next_surface, take_surface default_wd b)
  restore_pane (tab ∷ tabs) b0 =
      let pane_id = b0.next_pane in
      let b = record b0 { next_pane = pane_id + 1 } in
      let (pane, b') = next_tabs tabs (first_tab tab pane_id b) in (select_tab pane 0, b')

  abbrev pub orientation_of : String → Orientation
  orientation_of o = if same_text o "vertical" then vertical else horizontal

  -- The panes in the order in which they are added, and the tree.
  unfoldable pub build_layout :
      {R : Type 0} → LayoutSnapshot R → Building → List Pane × SplitTree R × Building
  build_layout {R} (single tabs) b =
      let (pane, b') = restore_pane tabs b in (pane ∷ [], new_with_pane R pane.id, b')
  build_layout (divided orientation ratio first second) b =
      let (panes, tree, b') = build_layout first b in
      let (panes', tree', b'') = build_layout second b' in
      (panes ++ panes', merge tree tree' (orientation_of orientation) ratio, b'')
