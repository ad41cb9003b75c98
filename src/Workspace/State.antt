-- ===== src/Workspace/State.antt =====
-- The workspace record of app/src/workspace.rs and its methods. The fields that only the sidebar and
-- the remote session read are left out.
use Prim.Native.String.{String}
use limux.Prelude.{
  ℕ, ◌≡◌, ◌↔◌, filter_map, refl, arith, Bool, false, not, ◌||◌, ◌==◌, Option, none, some, List, [],
  ◌∷◌, ◌++◌, if◌then◌else◌, Map, lookup, insert, remove as remove_key, get_elem?, any, find,
  same_text, Bool-cases, inl, inr,
}
use limux.Split.Types.{PaneId, SplitTree, set_focused}
use limux.Workspace.Pane.{
  Pane, Tab, SurfaceId, BrowserPanelId, surface_id, surface_ids, browser_ids, has_surface,
  has_browser, is_id,
}

pub record Workspace (R : Type 0) : Type 0 where
  pub id : ℕ
  pub title : String
  pub custom_title : Option String
  pub working_directory : Option String
  pub pinned : Bool
  pub has_bell : Bool
  pub panes : Map Pane
  pub split_tree : SplitTree R

abbrev pub is_empty_title : String → Bool
is_empty_title s = same_text s String.[]

-- `flat_map` over the panes, in the order of the map.
abbrev pub flat_map {ℓ} : {A : Type ℓ} → (Pane → List A) → Map Pane → List A
flat_map f [] = []
flat_map f ((pane_id, p) ∷ ps) = f p ++ flat_map f ps

abbrev pub key_of : Option (PaneId × Pane) → Option PaneId
key_of none = none
key_of (some (pane_id, p)) = some pane_id

module _ {R : Type 0} where
  unfoldable pub focused_pane : Workspace R → Option PaneId
  focused_pane w = w.split_tree.focused

  unfoldable pub set_focused_pane : Workspace R → PaneId → Workspace R
  set_focused_pane w pane_id = record w { split_tree = set_focused w.split_tree pane_id }

  abbrev pub own_title : Workspace R → String
  own_title w = if not (is_empty_title w.title) then w.title else "Terminal"

  unfoldable pub display_title : Workspace R → String
  display_title w = elim w.custom_title [
    | some ct ↦ if not (is_empty_title ct) then ct else own_title w
    | none ↦ own_title w
  ]

  unfoldable pub add_pane : Workspace R → Pane → Workspace R × PaneId
  add_pane w pane = (record w { panes = insert pane.id pane w.panes }, pane.id)

  unfoldable pub remove_pane : Workspace R → PaneId → Workspace R × Option Pane
  remove_pane w pane_id = (record w { panes = remove_key pane_id w.panes }, lookup pane_id w.panes)

  unfoldable pub all_surface_ids : Workspace R → List SurfaceId
  all_surface_ids w = flat_map surface_ids w.panes

  unfoldable pub all_browser_ids : Workspace R → List BrowserPanelId
  all_browser_ids w = flat_map browser_ids w.panes

  unfoldable pub pane_for_surface : Workspace R → SurfaceId → Option PaneId
  unfolding has_surface
  pane_for_surface w s = key_of (find (λ (pane_id, p). has_surface p s) w.panes)

  unfoldable pub pane_for_browser : Workspace R → BrowserPanelId → Option PaneId
  unfolding has_browser
  pane_for_browser w b = key_of (find (λ (pane_id, p). has_browser p b) w.panes)

  abbrev pub titled_by : Workspace R → Tab → Workspace R
  titled_by w tab = record w {
    title = if not (is_empty_title tab.title) then tab.title else w.title;
    working_directory = elim tab.working_directory [
      | none ↦ w.working_directory
      | some dir ↦ some dir
    ];
  }

  unfoldable pub update_title_from_focused : Workspace R → Workspace R
  update_title_from_focused w = elim w.split_tree.focused [
    | none ↦ w
    | some pane_id ↦ elim (lookup pane_id w.panes) [
      | none ↦ w
      | some pane ↦ elim (get_elem? pane.tabs pane.selected_tab) [
        | none ↦ w
        | some tab ↦ titled_by w tab
      ]
    ]
  ]

any-append {ℓ} :
    {A : Type ℓ} (f : A → Bool) (xs ys : List A) → any f (xs ++ ys) ≡ (any f xs || any f ys)
any-append f [] ys = refl
any-append f (x ∷ xs) ys = ground (arith, any-append f xs ys)

ids-any :
    (ts : List Tab) (s : SurfaceId)
    → any (λ t. t == s) (filter_map surface_id ts) ≡ any (λ t. is_id s (surface_id t)) ts
ids-any [] s = refl
ids-any (t ∷ ts) s = ground (arith, ids-any ts s)

surface_ids-any : (p : Pane) (s : SurfaceId) → any (λ t. t == s) (surface_ids p) ≡ has_surface p s
unfolding surface_ids has_surface
surface_ids-any p s = ids-any p.tabs s

found-any :
    (s : SurfaceId) (ps : Map Pane)
    → (key_of (find (λ (pane_id, p). has_surface p s) ps) ≡ none)
      ↔ (any (λ t. t == s) (flat_map surface_ids ps) ≡ false)
found-any s [] = (λ h. refl, λ h. refl)
found-any s ((i, p) ∷ ps) =
    let (to, from) = found-any s ps in
    let split = any-append (λ t. t == s) (surface_ids p) (flat_map surface_ids ps) in
    let here = surface_ids-any p s in
    elim (Bool-cases (has_surface p s)) [ inl e ↦ ground arith | inr e ↦ ground arith ]

module _ {R : Type 0} where
  -- `pane_for_surface` finds no pane exactly when the surface is none of the workspace's surfaces.
  pub pane_for_surface-all_surface_ids :
      (w : Workspace R) (s : SurfaceId)
      → (pane_for_surface w s ≡ none) ↔ (any (λ t. t == s) (all_surface_ids w) ≡ false)
  unfolding pane_for_surface all_surface_ids
  pane_for_surface-all_surface_ids w s = found-any s w.panes
