-- ===== src/Workspace/Reordered.antt =====
-- What `reorder_tab_in_pane` of app/src/window.rs does to the tabs of a pane.
use limux.Prelude.{
  ℕ, ◌<◌, ◌≡◌, ◌⊎◌, refl, arith, Bool, length, get_elem?-lt, ◌∙◌, Option-cases, Bool-cases, inl,
  inr, ap, sym, ◌==◌, ==_iff,
}
use mathlib.Core.Path.{subst}
use limux.Workspace.Pane.{Pane, PanelKind}
use limux.Workspace.Drag.{
  TabDragIdentity, TabInsertion, tab_index_for_identity, insertion_index_for_target,
}
use limux.Workspace.Reorder.{reorder_tab_in_pane, move_tab, destination_of}
use limux.Workspace.Active.{active_tab}
use limux.Workspace.Moved.{active_tab-move_tab}
use limux.Workspace.Shifted.{
  Refused, no_node, no_tab, no_place, no_widget, Shifted, tab_index-none, insertion-none,
  insertion-Marks, tab_index-Cut, item_at, inserted, insert_at-Shifted,
}

destination_of-lt : (i k n : ℕ) → i < n → destination_of i k n < n
destination_of-lt i k n l = ground arith

-- The tabs after a reorder, or why they are as before.
abbrev pub Reordered :
    Bool → (PanelKind → Bool) → Pane → TabDragIdentity → TabInsertion → Pane → Type 0
Reordered in_tree in_stack p identity insertion p' =
    ((p' ≡ p) × Refused in_tree in_stack p.tabs identity insertion)
    ⊎ Shifted identity insertion p.tabs p'.tabs

-- What a reorder is to give.
abbrev Outcome : Bool → (PanelKind → Bool) → Pane → TabDragIdentity → TabInsertion → Pane → Type 0
Outcome in_tree in_stack p identity insertion p' =
    Reordered in_tree in_stack p identity insertion p' × (active_tab p' ≡ active_tab p)

turned_down :
    (in_tree : Bool) (in_stack : PanelKind → Bool) (p : Pane) (identity : TabDragIdentity)
    (insertion : TabInsertion) (q : Pane)
    → q ≡ p
    → Refused in_tree in_stack p.tabs identity insertion
    → Outcome in_tree in_stack p identity insertion q
turned_down in_tree in_stack p identity insertion q e r = (inl (e, r), ap active_tab e)

-- However a tab is reordered within its pane, the same tab stays active. Either the pane is
-- unchanged, because it has no node, no such tab, no such place or no widget for the tab, or the
-- first tab with the identity goes to the place that the insertion means among the tabs as they
-- were, right before its anchor or at the end, over the tabs between, and all others keep their
-- order.
pub reorder_tab_in_pane-Reordered :
    (in_tree : Bool) (in_stack : PanelKind → Bool) (p : Pane) (identity : TabDragIdentity)
    (insertion : TabInsertion)
    → Reordered in_tree in_stack p identity insertion
        (reorder_tab_in_pane in_tree in_stack p identity insertion).0
      × (active_tab (reorder_tab_in_pane in_tree in_stack p identity insertion).0 ≡ active_tab p)
unfolding reorder_tab_in_pane
reorder_tab_in_pane-Reordered in_tree in_stack p identity insertion =
    let q = (reorder_tab_in_pane in_tree in_stack p identity insertion).0 in
    let refused = turned_down in_tree in_stack p identity insertion q in
    elim (Bool-cases in_tree) [
      | inr f ↦ refused (ground arith) (no_node f)
      | inl tree ↦ elim (Option-cases (tab_index_for_identity p identity)) [
        | inl f ↦ refused (ground arith) (no_tab (tab_index-none p identity f))
        | inr (i, fi) ↦ elim (Option-cases (insertion_index_for_target p insertion)) [
          | inl f ↦ refused (ground arith) (no_place (insertion-none p insertion f))
          | inr (k, fk) ↦
              let c = tab_index-Cut p identity i fi in
              let ft = item_at _ p.tabs i c in
              let (front, back, whole, size, mark) = insertion-Marks p insertion k fk in
              let d = destination_of i k (length p.tabs) in
              let s =
                insert_at-Shifted identity insertion p.tabs front back i k c whole size mark in
              elim (Bool-cases (in_stack c.item.panel)) [
                | inr f ↦
                    refused (ground arith)
                      (no_widget c.front c.back c.item c.whole (c.here, c.first) f)
                | inl w ↦ elim (Bool-cases (d == i)) [
                  | inl h ↦
                      let e : q ≡ p = ground arith in
                      let same_tabs =
                        inserted _ p.tabs i d c c.front c.back refl
                          ((==_iff d i).0 h ∙ sym c.size) in
                      (
                        inr (
                            subst (Shifted identity insertion p.tabs)
                              (same_tabs ∙ sym c.whole ∙ ap (λ x. x.tabs) (sym e)) s),
                        ap active_tab e,
                      )
                  | inr h ↦
                      let e : q ≡ move_tab p c.item i d = ground arith in
                      (
                        inr (
                            subst (Shifted identity insertion p.tabs) (ap (λ x. x.tabs) (sym e)) s),
                        ap active_tab e
                            ∙ active_tab-move_tab p c.item i d ft
                                (destination_of-lt i k (length p.tabs) (get_elem?-lt p.tabs i ft)),
                      )
                ]
              ]
        ]
      ]
    ]
