-- ===== src/Workspace/Moved.antt =====
-- What a tab move of app/src/window.rs keeps.
use limux.Prelude.{
  ℕ, zero, suc, ◌-◌, ◌<◌, ◌≤◌, ◌≡◌, refl, arith, some, List, [], ◌∷◌, length, get_elem?, remove_at,
  ◌∙◌, dec_lt, get_elem?-lt, get_elem?-remove_at_lt, get_elem?-remove_at_ge, length-remove_at, ap,
  sym,
}
use limux.Workspace.Pane.{Pane, Tab}
use limux.Workspace.Order.{insert_at}
use limux.Workspace.Reorder.{move_tab}
use limux.Workspace.Active.{active_tab}

module _ {ℓ} {A : Type ℓ} where
  get_elem?-insert_at :
      (xs : List A) (i : ℕ) (a : A) → i ≤ length xs → get_elem? (insert_at xs i a) i ≡ some a
  get_elem?-insert_at xs zero a h = refl
  get_elem?-insert_at [] (suc i) a h = absurd (omega arith)
  get_elem?-insert_at (x ∷ xs) (suc i) a h = get_elem?-insert_at xs i a (omega arith)

  get_elem?-insert_at_lt :
      (xs : List A) (i j : ℕ) (a : A)
      → i ≤ length xs
      → j < i
      → get_elem? (insert_at xs i a) j ≡ get_elem? xs j
  get_elem?-insert_at_lt xs zero j a h l = absurd (omega arith)
  get_elem?-insert_at_lt [] (suc i) j a h l = absurd (omega arith)
  get_elem?-insert_at_lt (x ∷ xs) (suc i) zero a h l = refl
  get_elem?-insert_at_lt (x ∷ xs) (suc i) (suc j) a h l =
      get_elem?-insert_at_lt xs i j a (omega arith) (omega arith)

  get_elem?-insert_at_ge :
      (xs : List A) (i j : ℕ) (a : A)
      → i ≤ length xs
      → i ≤ j
      → get_elem? (insert_at xs i a) (suc j) ≡ get_elem? xs j
  get_elem?-insert_at_ge xs zero j a h l = refl
  get_elem?-insert_at_ge [] (suc i) j a h l = absurd (omega arith)
  get_elem?-insert_at_ge (x ∷ xs) (suc i) zero a h l = absurd (omega arith)
  get_elem?-insert_at_ge (x ∷ xs) (suc i) (suc j) a h l =
      get_elem?-insert_at_ge xs i j a (omega arith) (omega arith)

  remove_at-insert_at :
      (xs : List A) (i : ℕ) (a : A) → i ≤ length xs → remove_at (insert_at xs i a) i ≡ xs
  remove_at-insert_at xs zero a h = refl
  remove_at-insert_at [] (suc i) a h = absurd (omega arith)
  remove_at-insert_at (x ∷ xs) (suc i) a h =
      ap (λ r. x ∷ r) (remove_at-insert_at xs i a (omega arith))

-- The selection follows the active tab.
pub active_tab-move_tab :
    (p : Pane) (t : Tab) (i d : ℕ)
    → get_elem? p.tabs i ≡ some t
    → d < length p.tabs
    → active_tab (move_tab p t i d) ≡ active_tab p
active_tab-move_tab p t i d e l =
    let inside = get_elem?-lt p.tabs i e in
    let fewer = length-remove_at p.tabs i inside in
    let rest = remove_at p.tabs i in
    let fits : d ≤ length rest = omega arith in
    elim (dec_lt i p.selected_tab) [
      | yes a ↦ elim (dec_lt (p.selected_tab - 1) d) [
        | yes b ↦
            ap (get_elem? (insert_at rest d t)) (ground arith)
            ∙ get_elem?-insert_at_lt rest d (p.selected_tab - 1) t fits b
            ∙ get_elem?-remove_at_ge p.tabs i (p.selected_tab - 1) (omega arith)
            ∙ ap (get_elem? p.tabs) (omega arith)
        | no b ↦
            ap (get_elem? (insert_at rest d t)) (ground arith)
            ∙ get_elem?-insert_at_ge rest d (p.selected_tab - 1) t fits (omega arith)
            ∙ get_elem?-remove_at_ge p.tabs i (p.selected_tab - 1) (omega arith)
            ∙ ap (get_elem? p.tabs) (omega arith)
      ]
      | no a ↦ elim (dec_lt p.selected_tab i) [
        | yes c ↦ elim (dec_lt p.selected_tab d) [
          | yes b ↦
              ap (get_elem? (insert_at rest d t)) (ground arith)
              ∙ get_elem?-insert_at_lt rest d p.selected_tab t fits b
              ∙ get_elem?-remove_at_lt p.tabs i p.selected_tab c
          | no b ↦
              ap (get_elem? (insert_at rest d t)) (ground arith)
              ∙ get_elem?-insert_at_ge rest d p.selected_tab t fits (omega arith)
              ∙ get_elem?-remove_at_lt p.tabs i p.selected_tab c
        ]
        | no c ↦
            ap (get_elem? (insert_at rest d t)) (ground arith)
            ∙ get_elem?-insert_at rest d t fits
            ∙ sym e
            ∙ ap (get_elem? p.tabs) (omega arith)
      ]
    ]
