-- ===== src/Workspace/Tabs.antt =====
-- Which tab of a pane is selected, after each operation of app/src/workspace.rs.
use limux.Prelude.{
  ℕ, suc, ◌+◌, ◌-◌, ◌%◌, ◌≤◌, ◌<◌, ◌≡◌, refl, arith, Bool, true, false, none, some, List, [], ◌∷◌,
  ◌==◌, if◌then◌else◌, length, length-append, position, remove_at, filter_map, update_first,
  Option-cases, Bool-cases, inl, inr, dec_lt, not, ◌∙◌, any-position, back_and_forth,
  forth_and_back,
}
use limux.Workspace.Pane.{
  Pane, Tab, terminal, browser, SurfaceId, BrowserPanelId, surface_id, is_id, drop_tab, add_tab,
  add_browser_tab, remove_tab, remove_browser_tab, select_tab, cycle_tab, set_tab_title,
  set_browser_tab_title, set_tab_directory, has_surface, surface_ids, fresh_tab,
}
use Prim.Native.String.{String}

-- A pane with tabs has one of them selected.
abbrev pub IsSelected : Pane → Type 0
IsSelected p = 0 < length p.tabs → p.selected_tab < length p.tabs

-- The operations of a pane.
pub data Edit : Type 0 where
  add : SurfaceId → Edit
  add_browser : BrowserPanelId → String → Edit
  close : SurfaceId → Edit
  close_browser : BrowserPanelId → Edit
  select : ℕ → Edit
  cycle : Bool → Edit
  title : SurfaceId → String → Edit
  browser_title : BrowserPanelId → String → Edit
  directory : SurfaceId → String → Edit

unfoldable pub apply : Edit → Pane → Pane
apply (add s) p = (add_tab p s).0
apply (add_browser b url) p = (add_browser_tab p b url).0
apply (close s) p = (remove_tab p s).0
apply (close_browser b) p = (remove_browser_tab p b).0
apply (select i) p = select_tab p i
apply (cycle forward) p = (cycle_tab p forward).0
apply (title s t) p = set_tab_title p s t
apply (browser_title b t) p = set_browser_tab_title p b t
apply (directory s d) p = set_tab_directory p s d

unfoldable pub apply_all : List Edit → Pane → Pane
apply_all [] p = p
apply_all (e ∷ es) p = apply_all es (apply e p)

length-update_first {ℓ} :
    {A : Type ℓ} (f : A → Bool) (g : A → A) (xs : List A) → length (update_first f g xs) ≡ length xs
length-update_first f g [] = refl
length-update_first f g (x ∷ xs) = ground (arith, length-update_first f g xs)

update_first-selected {ℓ} :
    {A : Type ℓ} (f : A → Bool) (g : A → A) (xs : List A) (i : ℕ)
    → (0 < length xs → i < length xs)
    → 0 < length (update_first f g xs)
    → i < length (update_first f g xs)
update_first-selected f g xs i v h =
    rw (length-update_first f g xs) (v (rw (length-update_first f g xs) at h))

drop_tab-IsSelected : (p : Pane) (i : ℕ) → IsSelected (drop_tab p i)
drop_tab-IsSelected p i h = ground arith

pub apply-IsSelected : (e : Edit) (p : Pane) → IsSelected p → IsSelected (apply e p)
unfolding apply add_tab add_browser_tab remove_tab remove_browser_tab select_tab cycle_tab
    set_tab_title set_browser_tab_title set_tab_directory
apply-IsSelected (add s) p v h = ground (arith, length-append p.tabs (fresh_tab (terminal s) ∷ []))
apply-IsSelected (add_browser b url) p v h =
    ground (arith, length-append p.tabs (fresh_tab (browser b url) ∷ []))
apply-IsSelected (close s) p v h = ground arith
apply-IsSelected (close_browser b) p v h = ground arith
apply-IsSelected (select i) p v h = ground arith
apply-IsSelected (cycle forward) p v h = ground arith
apply-IsSelected (title s t) p v h = update_first-selected _ _ p.tabs p.selected_tab v h
apply-IsSelected (browser_title b t) p v h = update_first-selected _ _ p.tabs p.selected_tab v h
apply-IsSelected (directory s d) p v h = update_first-selected _ _ p.tabs p.selected_tab v h

-- If a pane with tabs has one of them selected, that holds after any sequence of the tab
-- operations.
pub apply_all-IsSelected : (es : List Edit) (p : Pane) → IsSelected p → IsSelected (apply_all es p)
unfolding apply_all
apply_all-IsSelected [] p v = v
apply_all-IsSelected (e ∷ es) p v = apply_all-IsSelected es (apply e p) (apply-IsSelected e p v)

cycle_tab_step :
    (p : Pane) (forward : Bool)
    → 1 < length p.tabs
    → (cycle_tab p forward).0 ≡ record p {
      selected_tab =
          if forward
          then (p.selected_tab + 1) % length p.tabs
          else (p.selected_tab + length p.tabs - 1) % length p.tabs;
    }
unfolding cycle_tab
cycle_tab_step p forward h = ground arith

cycle_tab_one : (p : Pane) (forward : Bool) → length p.tabs ≤ 1 → (cycle_tab p forward).0 ≡ p
unfolding cycle_tab
cycle_tab_one p forward h = ground arith

cycle_back :
    (p : Pane) (forward : Bool)
    → p.selected_tab < length p.tabs
    → let n = length p.tabs in
      let i : ℕ = if forward then (p.selected_tab + 1) % n else (p.selected_tab + n - 1) % n in
      record p { selected_tab = if not forward then (i + 1) % n else (i + n - 1) % n } ≡ p
cycle_back p true v =
    λ k. record p { selected_tab = back_and_forth p.selected_tab (length p.tabs) v k }
cycle_back p false v =
    λ k. record p { selected_tab = forth_and_back p.selected_tab (length p.tabs) v k }

-- When a pane's selection is in range, `cycle_tab` one way and then the other gives the pane back.
pub cycle_tab-cycle_tab :
    (p : Pane) (forward : Bool)
    → p.selected_tab < length p.tabs
    → (cycle_tab (cycle_tab p forward).0 (not forward)).0 ≡ p
cycle_tab-cycle_tab p forward v = elim (dec_lt 1 (length p.tabs)) [
  | no small ↦
      rw (cycle_tab_one p forward (omega arith)) (cycle_tab_one p (not forward) (omega arith))
  | yes many ↦ rw (cycle_tab_step p forward many) (
      cycle_tab_step
        (record p {
          selected_tab =
              if forward
              then (p.selected_tab + 1) % length p.tabs
              else (p.selected_tab + length p.tabs - 1) % length p.tabs;
        })
        (not forward) many
      ∙ cycle_back p forward v)
]

-- The identities of the tabs in a list.
abbrev pub without_first : ℕ → List ℕ → List ℕ
without_first s [] = []
without_first s (x ∷ xs) = let rest = x ∷ without_first s xs in if x == s then xs else rest

remove_at-surfaces :
    (s : SurfaceId) (ts : List Tab) (i : ℕ)
    → position (λ t. is_id s (surface_id t)) ts ≡ some i
    → filter_map surface_id (remove_at ts i) ≡ without_first s (filter_map surface_id ts)
remove_at-surfaces s [] i e = cc
remove_at-surfaces s (t ∷ ts) i e = elim (Bool-cases (is_id s (surface_id t))) [
  | inl h ↦ let z : i ≡ 0 = ground arith in ground arith
  | inr h ↦ elim (Option-cases (position (λ t. is_id s (surface_id t)) ts)) [
    | inl n ↦ absurd (ground arith)
    | inr (j, f) ↦ let z : i ≡ suc j = ground arith in ground (arith, remove_at-surfaces s ts j f)
  ]
]

absent-surfaces :
    (s : SurfaceId) (ts : List Tab)
    → position (λ t. is_id s (surface_id t)) ts ≡ none
    → filter_map surface_id ts ≡ without_first s (filter_map surface_id ts)
absent-surfaces s [] e = refl
absent-surfaces s (t ∷ ts) e = ground (arith, absent-surfaces s ts)

-- `remove_tab` answers whether the pane has the surface, and takes the first occurrence of the
-- surface out of the pane's surfaces.
pub surface_ids-remove_tab :
    (p : Pane) (s : SurfaceId)
    → ((remove_tab p s).1 ≡ has_surface p s)
      × (surface_ids (remove_tab p s).0 ≡ without_first s (surface_ids p))
unfolding remove_tab has_surface surface_ids
surface_ids-remove_tab p s = elim (Option-cases (position (λ t. is_id s (surface_id t)) p.tabs)) [
  | inl e ↦
      ground (arith, any-position (λ t. is_id s (surface_id t)) p.tabs, absent-surfaces s p.tabs e)
  | inr (i, e) ↦
      ground
        (arith, any-position (λ t. is_id s (surface_id t)) p.tabs, remove_at-surfaces s p.tabs i e)
]
