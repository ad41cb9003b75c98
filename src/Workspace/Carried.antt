-- ===== src/Workspace/Carried.antt =====
-- What `move_tab_to_pane` of app/src/window.rs does to the two panes.
use limux.Prelude.{
  ◌≡◌, arith, Bool, false, not, ◌&&◌, none, some, List, ◌∷◌, ◌++◌, get_elem?, remove_at, ◌∙◌,
  Option-cases, Bool-cases, inl, inr, ap, sym,
}
use limux.Workspace.Pane.{Pane, Tab, PanelKind}
use limux.Workspace.Drag.{
  TabDragIdentity, TabInsertion, remove_tab_preserving_selection, tab_index_for_identity,
  insertion_index_for_target,
}
use limux.Workspace.Order.{insert_at}
use limux.Workspace.Reorder.{carry_tab}
use limux.Workspace.Active.{active_tab}
use limux.Workspace.Cuts.{insert_at-append, get_elem?-append}
use limux.Workspace.Shifted.{
  has_tab, IsFirst, Marks, NoPlace, tab_index-none, insertion-none, insertion-Marks, tab_index-Cut,
  item_at, removed,
}

-- The first tab with the identity goes from the source to the place that the insertion means in the
-- target, and is the active one there; all others keep their order.
pub record Carried (source : Pane) (identity : TabDragIdentity) (target : Pane)
    (insertion : TabInsertion) (source' target' : Pane) : Type 0 where
  pub front : List Tab
  pub tab : Tab
  pub back : List Tab
  pub whole : source.tabs ≡ front ++ tab ∷ back
  pub found : IsFirst identity front tab
  pub before_it : List Tab
  pub behind_it : List Tab
  pub divided : target.tabs ≡ before_it ++ behind_it
  pub placed : Marks insertion before_it behind_it
  pub left : source'.tabs ≡ front ++ back
  pub joined : target'.tabs ≡ before_it ++ tab ∷ behind_it
  pub shown : active_tab target' ≡ some tab

-- Why no tab goes from one pane to the other.
pub data Uncarried (in_source in_target : PanelKind → Bool) (source : Pane)
    (identity : TabDragIdentity) (target : Pane) (insertion : TabInsertion) : Type 0 where
  no_tab :
      has_tab identity source.tabs ≡ false
      → Uncarried in_source in_target source identity target insertion
  no_place :
      NoPlace insertion target.tabs → Uncarried in_source in_target source identity target insertion
  no_widget :
      (front back : List Tab) (t : Tab)
      → source.tabs ≡ front ++ t ∷ back
      → IsFirst identity front t
      → (in_source t.panel && not (in_target t.panel)) ≡ false
      → Uncarried in_source in_target source identity target insertion

module _ (in_source in_target : PanelKind → Bool) (source target : Pane)
    (identity : TabDragIdentity) (insertion : TabInsertion) where
  pub carry_tab-Uncarried :
      carry_tab in_source in_target source identity target insertion ≡ none
      → Uncarried in_source in_target source identity target insertion
  unfolding carry_tab remove_tab_preserving_selection
  carry_tab-Uncarried e = elim (Option-cases (tab_index_for_identity source identity)) [
    | inl f ↦ no_tab (tab_index-none source identity f)
    | inr (i, fi) ↦
        let c = tab_index-Cut source identity i fi in
        let fc = item_at _ source.tabs i c in
        elim (Option-cases (insertion_index_for_target target insertion)) [
          | inl f ↦ no_place (insertion-none target insertion f)
          | inr (k, fk) ↦
              elim (Bool-cases (in_source c.item.panel && not (in_target c.item.panel))) [
                | inl w ↦ absurd (ground arith)
                | inr w ↦ no_widget c.front c.back c.item c.whole (c.here, c.first) w
              ]
        ]
  ]

  pub carry_tab-Carried :
      (source' target' : Pane)
      → carry_tab in_source in_target source identity target insertion ≡ some (source', target')
      → Carried source identity target insertion source' target'
  unfolding carry_tab remove_tab_preserving_selection
  carry_tab-Carried s t e = elim (Option-cases (tab_index_for_identity source identity)) [
    | inl f ↦ absurd (ground arith)
    | inr (i, fi) ↦
        let c = tab_index-Cut source identity i fi in
        let fc = item_at _ source.tabs i c in
        elim (Option-cases (insertion_index_for_target target insertion)) [
          | inl f ↦ absurd (ground arith)
          | inr (k, fk) ↦
              let (front, back, whole, size, mark) = insertion-Marks target insertion k fk in
              let a : t.tabs ≡ insert_at target.tabs k c.item = ground arith in
              let b : t.selected_tab ≡ k = ground arith in
              let l : s.tabs ≡ remove_at source.tabs i = ground arith in
              let joined : t.tabs ≡ front ++ c.item ∷ back =
                a
                ∙ ap (λ xs. insert_at xs k c.item) whole
                ∙ ap (λ n. insert_at (front ++ back) n c.item) (sym size)
                ∙ insert_at-append front back c.item in
              record {
                front = c.front;
                tab = c.item;
                back = c.back;
                whole = c.whole;
                found = (c.here, c.first);
                before_it = front;
                behind_it = back;
                divided = whole;
                placed = mark;
                left = l ∙ removed _ source.tabs i c;
                joined = joined;
                shown =
                    ap (λ xs. get_elem? xs t.selected_tab) joined
                    ∙ ap (get_elem? (front ++ c.item ∷ back)) (b ∙ sym size)
                    ∙ get_elem?-append front back c.item;
              }
        ]
  ]
