-- ===== src/Workspace/Shifted.antt =====
-- The tabs around the place that `reorder_tab_in_pane` of app/src/window.rs moves a tab to.
use limux.Prelude.{
  get_elem?, ℕ, ◌+◌, ◌≡◌, refl, arith, Bool, true, false, none, some, List, [], ◌∷◌, ◌++◌, length,
  length-append, append_assoc, append-nil, any, any-position, remove_at, ◌∙◌, dec_lt, ap, sym,
}
use mathlib.Core.Path.{subst}
use limux.Workspace.Pane.{Pane, Tab, PanelKind}
use limux.Workspace.Drag.{
  TabDragIdentity, TabInsertion, before, append, matches_panel, tab_index_for_identity,
  insertion_index_for_target,
}
use limux.Workspace.Order.{insert_at}
use limux.Workspace.Reorder.{destination_of}
use limux.Workspace.Cuts.{
  Cut, position-Cut, append-cut, remove_at-append, insert_at-append, get_elem?-append,
}

-- Some tab is the one that the identity means.
abbrev pub has_tab : TabDragIdentity → List Tab → Bool
has_tab identity ts = any (λ t. matches_panel identity t.panel) ts

-- The tab is the one that the identity means, and none before it is.
abbrev pub IsFirst : TabDragIdentity → List Tab → Tab → Type 0
IsFirst identity front t =
    (matches_panel identity t.panel ≡ true) × (has_tab identity front ≡ false)

-- The insertion means the place between the two lists: before its anchor, or at the end.
abbrev pub Marks : TabInsertion → List Tab → List Tab → Type 0
Marks (before anchor) front back =
    (u : Tab) × (rest : List Tab) × (back ≡ u ∷ rest) × IsFirst anchor front u
Marks append front back = back ≡ []

-- The insertion means no place.
abbrev pub NoPlace : TabInsertion → List Tab → Type 0
NoPlace (before anchor) ts = has_tab anchor ts ≡ false
NoPlace append ts = ⊥

-- Why a reorder is turned down.
pub data Refused (in_tree : Bool) (in_stack : PanelKind → Bool) (ts : List Tab)
    (identity : TabDragIdentity) (insertion : TabInsertion) : Type 0 where
  no_node : in_tree ≡ false → Refused in_tree in_stack ts identity insertion
  no_tab : has_tab identity ts ≡ false → Refused in_tree in_stack ts identity insertion
  no_place : NoPlace insertion ts → Refused in_tree in_stack ts identity insertion
  no_widget :
      (front back : List Tab) (t : Tab)
      → ts ≡ front ++ t ∷ back
      → IsFirst identity front t
      → in_stack t.panel ≡ false
      → Refused in_tree in_stack ts identity insertion

-- The tab goes over the tabs `b` to the place that the insertion means in the old order.
pub data Shifted (identity : TabDragIdentity) (insertion : TabInsertion) (ts ts' : List Tab)
    : Type 0 where
  to_right :
      (a b c : List Tab) (t : Tab)
      → ts ≡ (a ++ t ∷ b) ++ c
      → IsFirst identity a t
      → Marks insertion (a ++ t ∷ b) c
      → ts' ≡ (a ++ b) ++ t ∷ c
      → Shifted identity insertion ts ts'
  to_left :
      (a b c : List Tab) (t : Tab)
      → ts ≡ (a ++ b) ++ t ∷ c
      → IsFirst identity (a ++ b) t
      → Marks insertion a (b ++ t ∷ c)
      → ts' ≡ a ++ t ∷ (b ++ c)
      → Shifted identity insertion ts ts'

pub tab_index-none :
    (p : Pane) (identity : TabDragIdentity)
    → tab_index_for_identity p identity ≡ none
    → has_tab identity p.tabs ≡ false
unfolding tab_index_for_identity
tab_index-none p identity e =
    any-position (λ t. matches_panel identity t.panel) p.tabs
    ∙ ap (λ o. elim o [ none ↦ false | some i ↦ true ]) e

pub insertion-none :
    (p : Pane) (insertion : TabInsertion)
    → insertion_index_for_target p insertion ≡ none
    → NoPlace insertion p.tabs
unfolding insertion_index_for_target
insertion-none p (before anchor) e = tab_index-none p anchor e
insertion-none p append e = absurd (ground arith)

-- The tabs before the place, and those behind it.
pub insertion-Marks :
    (p : Pane) (insertion : TabInsertion) (k : ℕ)
    → insertion_index_for_target p insertion ≡ some k
    → (front : List Tab) × (back : List Tab) × (p.tabs ≡ front ++ back)
      × (length front ≡ k)
      × Marks insertion front back
unfolding insertion_index_for_target tab_index_for_identity
insertion-Marks p (before anchor) k e =
    let c = position-Cut (λ t. matches_panel anchor t.panel) p.tabs k e in
    (c.front, c.item ∷ c.back, c.whole, c.size, (c.item, c.back, refl, (c.here, c.first)))
insertion-Marks p append k e = (p.tabs, [], sym (append-nil p.tabs), ground arith, refl)

pub tab_index-Cut :
    (p : Pane) (identity : TabDragIdentity) (i : ℕ)
    → tab_index_for_identity p identity ≡ some i
    → Cut (λ t. matches_panel identity t.panel) p.tabs i
unfolding tab_index_for_identity
tab_index-Cut p identity i e = position-Cut (λ t. matches_panel identity t.panel) p.tabs i e

-- The tabs without the one that is moved.
pub removed :
    (f : Tab → Bool) (ts : List Tab) (i : ℕ) (c : Cut f ts i) → remove_at ts i ≡ c.front ++ c.back
removed f ts i c =
    ap (λ xs. remove_at xs i) c.whole
    ∙ ap (remove_at (c.front ++ c.item ∷ c.back)) (sym c.size)
    ∙ remove_at-append c.front c.back c.item

pub inserted :
    (f : Tab → Bool) (ts : List Tab) (i d : ℕ) (c : Cut f ts i) (front back : List Tab)
    → c.front ++ c.back ≡ front ++ back
    → d ≡ length front
    → insert_at (remove_at ts i) d c.item ≡ front ++ c.item ∷ back
inserted f ts i d c front back e h =
    ap (λ xs. insert_at xs d c.item) (removed f ts i c ∙ e)
    ∙ ap (λ n. insert_at (front ++ back) n c.item) h
    ∙ insert_at-append front back c.item

pub item_at :
    (f : Tab → Bool) (ts : List Tab) (i : ℕ) (c : Cut f ts i) → get_elem? ts i ≡ some c.item
item_at f ts i c =
    ap (λ xs. get_elem? xs i) c.whole
    ∙ ap (get_elem? (c.front ++ c.item ∷ c.back)) (sym c.size)
    ∙ get_elem?-append c.front c.back c.item

-- The move of the code between two cuts of the list.
pub insert_at-Shifted :
    (identity : TabDragIdentity) (insertion : TabInsertion) (ts front back : List Tab) (i k : ℕ)
    → (c : Cut (λ t. matches_panel identity t.panel) ts i) → ts ≡ front ++ back
    → length front ≡ k
    → Marks insertion front back
    → Shifted identity insertion ts
        (insert_at (remove_at ts i) (destination_of i k (length ts)) c.item)
insert_at-Shifted identity insertion ts front back i k c e s m =
    let f = λ (t : Tab). matches_panel identity t.panel in
    let n : length ts ≡ length front + length back = ap length e ∙ length-append front back in
    elim (dec_lt i k) [
      | yes l ↦
          let (b, p, q) =
            append-cut (c.front ++ c.item ∷ []) c.back front back
              (append_assoc c.front (c.item ∷ []) c.back ∙ sym c.whole ∙ e)
              (omega (arith, length-append c.front (c.item ∷ []), c.size)) in
          let p' = p ∙ append_assoc c.front (c.item ∷ []) b in
          let d : destination_of i k (length ts) ≡ length (c.front ++ b) = ground (
            arith,
            length-append c.front b,
            length-append c.front (c.item ∷ b),
            ap length p',
            c.size,
          ) in
          to_right c.front b back c.item (e ∙ ap (λ xs. xs ++ back) p') (c.here, c.first)
            (subst (λ xs. Marks insertion xs back) p' m)
            (inserted f ts i (destination_of i k (length ts)) c (c.front ++ b) back
              (ap (λ xs. c.front ++ xs) q ∙ sym (append_assoc c.front b back)) d)
      | no g ↦
          let (b, p, q) =
            append-cut front back c.front (c.item ∷ c.back) (sym e ∙ c.whole)
              (omega (arith, c.size)) in
          let d : destination_of i k (length ts) ≡ length front = ground arith in
          to_left front b c.back c.item (c.whole ∙ ap (λ xs. xs ++ c.item ∷ c.back) p)
            (c.here, ap (has_tab identity) (sym p) ∙ c.first) (subst (Marks insertion front) q m)
            (inserted f ts i (destination_of i k (length ts)) c front (b ++ c.back)
              (ap (λ xs. xs ++ c.back) p ∙ append_assoc front b c.back) d)
    ]
