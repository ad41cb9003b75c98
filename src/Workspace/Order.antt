-- ===== src/Workspace/Order.antt =====
-- `move_workspace` and `reorder_workspaces_for_pin` of app/src/window.rs on the list of workspaces,
-- without the widgets that follow it.
use limux.Prelude.{
  ℕ, zero, suc, Bool, not, ◌&&◌, ◌||◌, Option, none, some, List, [], ◌∷◌, ◌++◌, ◌==◌, if◌then◌else◌,
  filter, position, get_elem?, remove_at,
}
use limux.Workspace.State.{Workspace}

-- `Vec::insert` at an index in range.
abbrev pub insert_at {ℓ} : {A : Type ℓ} → List A → ℕ → A → List A
insert_at xs zero a = a ∷ xs
insert_at [] (suc i) a = a ∷ []
insert_at (x ∷ xs) (suc i) a = x ∷ insert_at xs i a

-- `unwrap_or(0)`.
abbrev pub or_zero : Option ℕ → ℕ
or_zero none = 0
or_zero (some i) = i

module _ {R : Type 0} where
  abbrev pub has_id : ℕ → Workspace R → Bool
  has_id workspace_id w = w.id == workspace_id

  abbrev pub same_group : Workspace R → Workspace R → Bool
  same_group v w = (v.pinned && w.pinned) || (not v.pinned && not w.pinned)

  -- After the guards: `moved` stands at `source_idx`.
  abbrev pub put_beside : List (Workspace R) → ℕ → Workspace R → ℕ → Bool → List (Workspace R)
  put_beside ws source_idx moved target_id before =
      let rest = remove_at ws source_idx in
      let target_idx = or_zero (position (has_id target_id) rest) in
      insert_at rest (if before then target_idx else suc target_idx) moved

  unfoldable pub move_workspace : List (Workspace R) → ℕ → ℕ → Bool → List (Workspace R)
  move_workspace ws source_id target_id before = elim (position (has_id source_id) ws) [
    | none ↦ ws
    | some source_idx ↦ elim (position (has_id target_id) ws) [
      | none ↦ ws
      | some target_idx ↦ elim (get_elem? ws source_idx) [
        | none ↦ ws
        | some source ↦ elim (get_elem? ws target_idx) [
          | none ↦ ws
          | some target ↦
              if same_group source target
              then put_beside ws source_idx source target_id before
              else ws
        ]
      ]
    ]
  ]

  -- The stable sort by whether a workspace is pinned.
  unfoldable pub reorder_workspaces_for_pin : List (Workspace R) → List (Workspace R)
  reorder_workspaces_for_pin ws = filter (λ w. w.pinned) ws ++ filter (λ w. not w.pinned) ws
