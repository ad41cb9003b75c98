-- ===== src/Session/Restored.antt =====
-- What becomes of a pane's tabs when its snapshot of app/src/session.rs is restored by
-- `build_layout_widget` of app/src/window.rs.
use Prim.Native.String.{String}
use limux.Prelude.{
  ℕ, ◌+◌, ◌≤◌, ◌≡◌, refl, ap, sym, ◌∙◌, inl, inr, Option, none, some, Bool, true, false, ◌||◌, List,
  [], ◌∷◌, ◌++◌, append_assoc, append-nil, map, ==_refl, if◌then◌else◌, any, update_first, length,
  unwrap_or, same_text_iff, Bool-cases, arith,
}
use limux.Workspace.Pane.{
  SurfaceId, BrowserPanelId, PanelKind, terminal, browser, Tab, Pane, surface_id, browser_id, is_id,
  fresh_tab, new_with_id, new_browser_with_id, add_tab, add_browser_tab, set_tab_title,
  set_browser_tab_title, set_tab_directory, select_tab,
}
use limux.Workspace.State.{is_empty_title}
use limux.Session.Snapshot.{is_browser_snapshot, panel_snapshot, to_snapshot}
use limux.Session.Restore.{
  Building, take_surface, take_browser, directory_or, first_tab, next_tab, next_tabs, restore_pane,
}

update_first-last :
    {A : Type 0} (p : A → Bool) (f : A → A) (xs : List A) (x : A)
    → any p xs ≡ false
    → p x ≡ true
    → update_first p f (xs ++ x ∷ []) ≡ xs ++ f x ∷ []
update_first-last p f [] x h k = rw k refl
update_first-last p f (y ∷ xs) x h k = elim (Bool-cases (p y)) [
  | inl e ↦ absurd (ground arith)
  | inr e ↦ rw (e, update_first-last p f xs x (ground arith) k) refl
]

any-append :
    {A : Type 0} (p : A → Bool) (xs ys : List A) → any p (xs ++ ys) ≡ (any p xs || any p ys)
any-append p [] ys = refl
any-append p (x ∷ xs) ys = ground (arith, any-append p xs ys)

select_tab-first :
    (p : Pane) (t : Tab) (ts : List Tab)
    → p.tabs ≡ t ∷ ts
    → ((select_tab p 0).tabs ≡ t ∷ ts) × ((select_tab p 0).selected_tab ≡ 0)
unfolding select_tab
select_tab-first p t ts e = let l = ap (λ xs. length xs) e in (ground arith, ground arith)

-- No tab has an id that is still to be given out.
pub record IsFresh (tabs : List Tab) (b : Building) : Type 0 where
  pub surfaces : (n : ℕ) → b.next_surface ≤ n → any (λ t. is_id n (surface_id t)) tabs ≡ false
  pub browsers : (n : ℕ) → b.next_browser ≤ n → any (λ t. is_id n (browser_id t)) tabs ≡ false

module _ (url_of : BrowserPanelId → Option String) (default_wd : Option String) where
  -- The tab that a tab comes back as, with the next id of its kind.
  abbrev pub revived : PanelKind → Option String → String → Building → Tab
  revived (terminal s) directory title b = record {
    panel = terminal b.next_surface;
    title = title;
    working_directory = directory;
    working_directory_from_osc7 = false;
  }
  revived (browser i url) directory title b = record {
    panel = browser b.next_browser (unwrap_or url (url_of i));
    title = title;
    working_directory = none;
    working_directory_from_osc7 = false;
  }

  abbrev pub built : PanelKind → Option String → Building → Building
  built (terminal s) directory b = take_surface (directory_or directory default_wd) b
  built (browser i url) directory b = take_browser b

  abbrev pub revived_all : List Tab → Building → List Tab
  revived_all [] b = []
  revived_all (t ∷ ts) b =
      revived t.panel t.working_directory t.title b
      ∷ revived_all ts (built t.panel t.working_directory b)

  module _ (scrollback_of : SurfaceId → Option String) where
    -- A change of the new terminal, or of the new browser, changes the last tab.
    at_terminal :
        (f : Tab → Tab) (t : Tab) (pane : Pane) (b : Building)
        → IsFresh pane.tabs b
        → surface_id t ≡ some b.next_surface
        → update_first (λ u. is_id b.next_surface (surface_id u)) f (pane.tabs ++ t ∷ [])
          ≡ pane.tabs ++ f t ∷ []
    at_terminal f t pane b v e =
        update_first-last (λ u. is_id b.next_surface (surface_id u)) f pane.tabs t
          (v.surfaces b.next_surface (omega arith))
          (ap (is_id b.next_surface) e ∙ ==_refl b.next_surface)

    at_browser :
        (f : Tab → Tab) (t : Tab) (pane : Pane) (b : Building)
        → IsFresh pane.tabs b
        → browser_id t ≡ some b.next_browser
        → update_first (λ u. is_id b.next_browser (browser_id u)) f (pane.tabs ++ t ∷ [])
          ≡ pane.tabs ++ f t ∷ []
    at_browser f t pane b v e =
        update_first-last (λ u. is_id b.next_browser (browser_id u)) f pane.tabs t
          (v.browsers b.next_browser (omega arith))
          (ap (is_id b.next_browser) e ∙ ==_refl b.next_browser)

    -- A pane with a new tab behind its tabs, which is selected.
    abbrev with_last : Pane → List Tab → Pane
    with_last pane ts = record pane { tabs = ts; selected_tab = length pane.tabs }

    next_tab-revived :
        (panel : PanelKind) (directory title : Option String) (pane : Pane) (b : Building)
        → IsFresh pane.tabs b
        → next_tab default_wd (panel_snapshot scrollback_of url_of panel directory title) (pane, b)
          ≡ (
            record pane {
              tabs = pane.tabs ++ revived panel directory (unwrap_or "" title) b ∷ [];
              selected_tab = length pane.tabs;
            },
            built panel directory b,
          )
    unfolding next_tab is_browser_snapshot add_tab add_browser_tab set_tab_title
        set_browser_tab_title set_tab_directory
    next_tab-revived (terminal s) none none pane b v = refl
    next_tab-revived (terminal s) none (some t) pane b v =
        ap (λ ts. (with_last pane ts, take_surface default_wd b))
          (at_terminal (λ u. record u { title = t }) (fresh_tab (terminal b.next_surface)) pane b v
            refl)
    next_tab-revived (terminal s) (some d) none pane b v =
        ap (λ ts. (with_last pane ts, take_surface (some d) b))
          (at_terminal (λ u. record u { working_directory = some d })
            (fresh_tab (terminal b.next_surface)) pane b v refl)
    next_tab-revived (terminal s) (some d) (some t) pane b v =
        let f = λ (u : Tab). record u { title = t } in
        let g = λ (u : Tab). record u { working_directory = some d } in
        let new = fresh_tab (terminal b.next_surface) in
        ap
          (λ ts. (
            with_last pane (update_first (λ u. is_id b.next_surface (surface_id u)) g ts),
            take_surface (some d) b,
          ))
          (at_terminal f new pane b v refl)
        ∙ ap (λ ts. (with_last pane ts, take_surface (some d) b))
            (at_terminal g (f new) pane b v refl)
    next_tab-revived (browser i url) directory none pane b v = refl
    next_tab-revived (browser i url) directory (some t) pane b v =
        ap (λ ts. (with_last pane ts, take_browser b))
          (at_browser (λ u. record u { title = t })
            (fresh_tab (browser b.next_browser (unwrap_or url (url_of i)))) pane b v refl)

    IsFresh-revived :
        (panel : PanelKind) (directory started : Option String) (title : String) (tabs : List Tab)
        (b : Building)
        → IsFresh tabs b
        → IsFresh (tabs ++ revived panel directory title b ∷ []) (built panel started b)
    IsFresh-revived (terminal s) directory started title tabs b v =
        let t = revived (terminal s) directory title b in
        record {
          surfaces = λ n l.
              ground (arith, any-append (λ u. is_id n (surface_id u)) tabs (t ∷ []), v.surfaces n);
          browsers = λ n l.
              ground (arith, any-append (λ u. is_id n (browser_id u)) tabs (t ∷ []), v.browsers n);
        }
    IsFresh-revived (browser i url) directory started title tabs b v =
        let t = revived (browser i url) directory title b in
        record {
          surfaces = λ n l.
              ground (arith, any-append (λ u. is_id n (surface_id u)) tabs (t ∷ []), v.surfaces n);
          browsers = λ n l.
              ground (arith, any-append (λ u. is_id n (browser_id u)) tabs (t ∷ []), v.browsers n);
        }

    saved_title :
        (title : String) → unwrap_or "" (if is_empty_title title then none else some title) ≡ title
    saved_title title = elim (Bool-cases (is_empty_title title)) [
      | inl e ↦ rw e (sym (same_text_iff title "" e))
      | inr e ↦ rw e refl
    ]

    tabs-next_tabs :
        (ts : List Tab) (pane : Pane) (b : Building)
        → IsFresh pane.tabs b
        → (next_tabs default_wd (map (to_snapshot scrollback_of url_of) ts) (pane, b)).0.tabs
          ≡ pane.tabs ++ revived_all ts b
    unfolding next_tabs to_snapshot
    tabs-next_tabs [] pane b v = sym (append-nil pane.tabs)
    tabs-next_tabs (t ∷ ts) pane b v =
        let title = if is_empty_title t.title then none else some t.title in
        let new = revived t.panel t.working_directory t.title b in
        let b' = built t.panel t.working_directory b in
        let made : next_tab default_wd (to_snapshot scrollback_of url_of t) (pane, b)
            ≡ (with_last pane (pane.tabs ++ new ∷ []), b') =
          next_tab-revived t.panel t.working_directory title pane b v
          ∙ ap
              (λ s.
                (with_last pane (pane.tabs ++ revived t.panel t.working_directory s b ∷ []), b'))
              (saved_title t.title) in
        ap (λ m. (next_tabs default_wd (map (to_snapshot scrollback_of url_of) ts) m).0.tabs) made
        ∙ tabs-next_tabs ts (with_last pane (pane.tabs ++ new ∷ [])) b'
            (IsFresh-revived t.panel t.working_directory t.working_directory t.title pane.tabs b v)
        ∙ append_assoc pane.tabs (new ∷ []) (revived_all ts b')

    -- The first tab keeps its kind and its address.
    first_tab-revived :
        (panel : PanelKind) (directory title : Option String) (pane_id : ℕ) (b : Building)
        → first_tab default_wd (panel_snapshot scrollback_of url_of panel directory title) pane_id b
          ≡ (
            record {
              id = pane_id;
              tabs = revived panel none "" b ∷ [];
              selected_tab = 0;
              has_bell = false;
            },
            built panel directory b,
          )
    unfolding first_tab is_browser_snapshot new_with_id new_browser_with_id
    first_tab-revived (terminal s) directory title pane_id b = refl
    first_tab-revived (browser i url) directory title pane_id b = refl

    IsFresh-nil : (b : Building) → IsFresh [] b
    IsFresh-nil b = record { surfaces = λ n l. refl; browsers = λ n l. refl }

    -- The snapshot of a pane with a first tab and others is restored to a pane that selects the
    -- first of as many tabs in the same order, with ids given out one after another: each tab has
    -- its kind back, a browser with its address at the time of the snapshot, and each tab after the
    -- first has its title back, a terminal among them also its directory, while the first tab has
    -- no title and no directory.
    pub restore_pane-revived :
        (t : Tab) (ts : List Tab) (b : Building)
        → let b0 = record b { next_pane = b.next_pane + 1 } in
          let pane =
            (restore_pane default_wd (map (to_snapshot scrollback_of url_of) (t ∷ ts)) b).0 in
          (pane.tabs
            ≡ revived t.panel none "" b0 ∷ revived_all ts (built t.panel t.working_directory b0))
          × (pane.selected_tab ≡ 0)
    unfolding restore_pane to_snapshot select_tab
    restore_pane-revived t ts b =
        let b0 = record b { next_pane = b.next_pane + 1 } in
        let b1 = built t.panel t.working_directory b0 in
        let title = if is_empty_title t.title then none else some t.title in
        let snaps = map (to_snapshot scrollback_of url_of) ts in
        let first = revived t.panel none "" b0 in
        let start : Pane = record {
          id = b.next_pane;
          tabs = first ∷ [];
          selected_tab = 0;
          has_bell = false;
        } in
        let made = first_tab-revived t.panel t.working_directory title b.next_pane b0 in
        let rest : (next_tabs default_wd snaps (start, b1)).0.tabs ≡ first ∷ revived_all ts b1 =
          tabs-next_tabs ts start b1
            (IsFresh-revived t.panel none t.working_directory "" [] b0 (IsFresh-nil b0)) in
        select_tab-first
          (next_tabs default_wd snaps
            (first_tab default_wd (to_snapshot scrollback_of url_of t) b.next_pane b0)).0
          first (revived_all ts b1) (ap (λ m. (next_tabs default_wd snaps m).0.tabs) made ∙ rest)
