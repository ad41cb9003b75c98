-- ===== src/Workspace/Transfer.antt =====
-- What `move_tab_to_pane` of app/src/window.rs leaves in the workspace.
use limux.Prelude.{
  ℕ, ◌≡◌, arith, Bool, false, none, some, [], ◌∷◌, ◌==◌, ==_iff, if◌then◌else◌, length, lookup,
  insert, lookup-insert, remove as remove_key, Option-cases, Bool-cases, inl, inr, Map,
}
use limux.Split.Types.{PaneId, set_focused}
use limux.Split.Walk.{node_id_for_pane}
use limux.Split.Change.{remove as remove_leaf}
use limux.Workspace.Pane.{Pane, PanelKind}
use limux.Workspace.Drag.{TabDragIdentity, TabInsertion}
use limux.Workspace.State.{Workspace, remove_pane, set_focused_pane}
use limux.Workspace.Reorder.{move_tab_to_pane, carry_tab, store_panes}
use limux.Workspace.Carried.{Carried, Uncarried, carry_tab-Carried, carry_tab-Uncarried}

lookup-remove_key :
    (key asked : ℕ) (m : Map Pane)
    → lookup asked (remove_key key m) ≡ (if key == asked then none else lookup asked m)
unfolding lookup remove_key
lookup-remove_key key asked [] = ground arith
lookup-remove_key key asked (entry ∷ rest) = ground (arith, lookup-remove_key key asked rest)

module _ {R : Type 0} where
  -- Why a move is turned down.
  pub data Stays (in_source in_target : PanelKind → Bool) (w : Workspace R) (source_id : PaneId)
      (identity : TabDragIdentity) (target_id : PaneId) (insertion : TabInsertion) : Type 0 where
    one_pane :
        source_id ≡ target_id → Stays in_source in_target w source_id identity target_id insertion
    no_source_node :
        node_id_for_pane w.split_tree source_id ≡ none
        → Stays in_source in_target w source_id identity target_id insertion
    no_target_node :
        node_id_for_pane w.split_tree target_id ≡ none
        → Stays in_source in_target w source_id identity target_id insertion
    no_source :
        lookup source_id w.panes ≡ none
        → Stays in_source in_target w source_id identity target_id insertion
    no_target :
        lookup target_id w.panes ≡ none
        → Stays in_source in_target w source_id identity target_id insertion
    uncarried :
        (source target : Pane)
        → lookup source_id w.panes ≡ some source
        → lookup target_id w.panes ≡ some target
        → Uncarried in_source in_target source identity target insertion
        → Stays in_source in_target w source_id identity target_id insertion

  -- The workspace after a move: it is the same, for one of these reasons, or a tab went from the source pane to the target,
  -- which has the focus; a source pane that is left without tabs is no pane of the workspace and
  -- taken out of the split tree.
  pub data Transfer (in_source in_target : PanelKind → Bool) (w : Workspace R) (source_id : PaneId)
      (identity : TabDragIdentity) (target_id : PaneId) (insertion : TabInsertion)
      (w' : Workspace R) : Type 0 where
    kept :
        w' ≡ w
        → Stays in_source in_target w source_id identity target_id insertion
        → Transfer in_source in_target w source_id identity target_id insertion w'
    moved :
        (source target source' target' : Pane)
        → lookup source_id w.panes ≡ some source
        → lookup target_id w.panes ≡ some target
        → Carried source identity target insertion source' target'
        → lookup target_id w'.panes ≡ some target'
        → lookup source_id w'.panes ≡ (if length source'.tabs == 0 then none else some source')
        → w'.split_tree
          ≡ set_focused
              (if length source'.tabs == 0
                then (remove_leaf w.split_tree source_id).0
                else w.split_tree)
              target_id
        → Transfer in_source in_target w source_id identity target_id insertion w'

  store_panes-Transfer :
      (in_source in_target : PanelKind → Bool) (w : Workspace R) (i j : PaneId)
      (identity : TabDragIdentity) (insertion : TabInsertion) (source target source' target' : Pane)
      → (i == j) ≡ false
      → lookup i w.panes ≡ some source
      → lookup j w.panes ≡ some target
      → Carried source identity target insertion source' target'
      → Transfer in_source in_target w i identity j insertion (store_panes w i source' j target')
  unfolding set_focused_pane remove_pane
  store_panes-Transfer in_source in_target w i j identity insertion s t s' t' n f g c =
      let m = insert i s' w.panes in
      let here = lookup-insert j j t' m in
      let there = lookup-insert j i t' m in
      let first = lookup-insert i i s' w.panes in
      let gone = lookup-remove_key i i (insert j t' m) in
      let stays = lookup-remove_key i j (insert j t' m) in
      elim (Bool-cases (length s'.tabs == 0)) [
        | inl e ↦ moved s t s' t' f g c (ground arith) (ground arith) (ground arith)
        | inr e ↦ moved s t s' t' f g c (ground arith) (ground arith) (ground arith)
      ]

  -- `move_tab_to_pane` either leaves the workspace as it is, because the two panes are one, a pane
  -- or its node is missing, there is no such tab or place, or the widgets do not allow it; or it
  -- takes the first tab with the identity out of the source pane and makes it the active tab of the
  -- target, right before the anchor of the insertion or at the end, while the other tabs of both
  -- panes keep their order; the target gets the focus, and a source pane without tabs is no longer
  -- a pane of the workspace and taken out of the split tree.
  pub move_tab_to_pane-Transfer :
      (in_source in_target : PanelKind → Bool) (w : Workspace R) (source_id : PaneId)
      (identity : TabDragIdentity) (target_id : PaneId) (insertion : TabInsertion)
      → Transfer in_source in_target w source_id identity target_id insertion
          (move_tab_to_pane in_source in_target w source_id identity target_id insertion)
  unfolding move_tab_to_pane
  move_tab_to_pane-Transfer in_source in_target w i identity j insertion =
      elim (Bool-cases (i == j)) [
        | inl e ↦ kept (ground arith) (one_pane ((==_iff i j).0 e))
        | inr n ↦ elim (Option-cases (node_id_for_pane w.split_tree i)) [
          | inl e ↦ kept (ground arith) (no_source_node e)
          | inr (x, ex) ↦ elim (Option-cases (node_id_for_pane w.split_tree j)) [
            | inl e ↦ kept (ground arith) (no_target_node e)
            | inr (y, ey) ↦ elim (Option-cases (lookup i w.panes)) [
              | inl e ↦ kept (ground arith) (no_source e)
              | inr (s, f) ↦ elim (Option-cases (lookup j w.panes)) [
                | inl e ↦ kept (ground arith) (no_target e)
                | inr (t, g) ↦
                    elim (Option-cases (carry_tab in_source in_target s identity t insertion)) [
                      | inl e ↦ kept (ground arith) (
                          uncarried s t f g
                            (carry_tab-Uncarried in_source in_target s t identity insertion e))
                      | inr ((s', t'), h) ↦
                          let e : move_tab_to_pane in_source in_target w i identity j insertion
                              ≡ store_panes w i s' j t' =
                            ground arith in
                          rw e (
                            store_panes-Transfer in_source in_target w i j identity insertion s t s'
                              t' n f g
                              (carry_tab-Carried in_source in_target s t identity insertion s' t'
                                h))
                    ]
              ]
            ]
          ]
        ]
      ]
