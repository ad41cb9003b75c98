-- ===== src/Workspace/Active.antt =====
-- Whether the active tab survives the removal of another: `remove_tab` of app/src/workspace.rs
-- against `remove_tab_preserving_selection` of app/src/window.rs.
use limux.Prelude.{
  ℕ, ◌+◌, ◌<◌, ◌≡◌, ◌≢◌, arith, Option, some, length, get_elem?, position, remove_at, ◌∙◌, dec_lt,
  get_elem?-lt, ◌-◌, get_elem?-remove_at_lt, get_elem?-remove_at_ge, length-remove_at, Option-cases,
  inl, inr, ap,
}
use limux.Workspace.Pane.{Pane, Tab, SurfaceId, surface_id, is_id, remove_tab}
use limux.Workspace.Drag.{remove_tab_preserving_selection}

-- The tab that a pane shows.
abbrev pub active_tab : Pane → Option Tab
active_tab p = get_elem? p.tabs p.selected_tab

-- When a pane's selection is in range, the removal that the drag code uses, at an index in range
-- other than the selected one, leaves the same tab active.
pub active_tab-remove_tab_preserving_selection :
    (p p' : Pane) (i : ℕ) (t : Tab)
    → p.selected_tab < length p.tabs
    → i ≢ p.selected_tab
    → remove_tab_preserving_selection p i ≡ some (p', t)
    → active_tab p' ≡ active_tab p
unfolding remove_tab_preserving_selection
active_tab-remove_tab_preserving_selection p p' i t v n e =
    elim (Option-cases (get_elem? p.tabs i)) [
      | inl f ↦ absurd (ground arith)
      | inr (u, f) ↦
          let inside = get_elem?-lt p.tabs i f in
          let fewer = length-remove_at p.tabs i inside in
          elim (dec_lt i p.selected_tab) [
            | yes l ↦
                let moved : p'
                    ≡ record p { tabs = remove_at p.tabs i; selected_tab = p.selected_tab - 1 } =
                  ground arith in
                ap active_tab moved
                ∙ get_elem?-remove_at_ge p.tabs i (p.selected_tab - 1) (omega arith)
                ∙ ap (get_elem? p.tabs) (omega arith)
            | no g ↦
                let kept : p'
                    ≡ record p { tabs = remove_at p.tabs i; selected_tab = p.selected_tab } =
                  ground arith in
                ap active_tab kept ∙ get_elem?-remove_at_lt p.tabs i p.selected_tab (omega arith)
          ]
    ]

-- When a terminal to the left of the active tab is closed by `remove_tab` and a tab stands behind
-- the active one, that tab becomes the active one.
pub active_tab-remove_tab_left :
    (p : Pane) (s : SurfaceId) (i : ℕ)
    → position (λ t. is_id s (surface_id t)) p.tabs ≡ some i
    → i < p.selected_tab
    → p.selected_tab + 1 < length p.tabs
    → active_tab (remove_tab p s).0 ≡ get_elem? p.tabs (p.selected_tab + 1)
unfolding remove_tab
active_tab-remove_tab_left p s i e l m =
    ground (arith, length-remove_at p.tabs i, get_elem?-remove_at_ge p.tabs i p.selected_tab)
