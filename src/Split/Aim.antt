-- ===== src/Split/Aim.antt =====
-- The rectangles of a tree of app/src/split.rs, and the pane that the search of
-- `navigate_directional` ends with.
use limux.Prelude.{
  ℕ, zero, suc, Bool, ◌≤◌, ◌≡◌, ◌≢◌, ◌⊎◌, inl, inr, true, Option, none, some, List, [], ◌∷◌, ◌++◌,
  ◌==◌, Map, if◌then◌else◌, Bool-cases, arith, refl, append_assoc, ==_ne, ==_iff, ap, ◌∙◌, false,
}
use limux.Split.Types.{Float64, PaneId, Orientation, Direction, Node, SplitTree}
use limux.Split.Tree.{Tree, tip, fork, top, size, Rep}
use limux.Split.Valid.{Holds}
use limux.Split.Direction.{
  Rect, divide, compute_bounds, pane_bounds, is_valid, dist, nearer, nearest,
}

-- How a rectangle is divided between the two sides of a split.
abbrev pub Division : Type 0 → Type 0
Division R = Orientation → R → Rect R → Rect R × Rect R

-- Whether a rectangle lies in a direction from another, and how far off it is.
abbrev pub Test : Type 0 → Type 0
Test R = Direction → Rect R → Rect R → Bool

abbrev pub Measure : Type 0 → Type 0
Measure R = Direction → Rect R → Rect R → R

module _ {R : Type 0} ⦃fl : Float64 R⦄ where
  -- The rectangles of the panes of a tree, from left to right.
  abbrev pub rects : Division R → Tree R → Rect R → List (PaneId × Rect R)
  rects halves (tip i p) rect = (p, rect) ∷ []
  rects halves (fork i o ratio x y) rect =
      let (r1, r2) = halves o ratio rect in rects halves x r1 ++ rects halves y r2

  compute_bounds-Rep :
      (f : ℕ) (m : Map (Node R)) (t : Tree R) (rect : Rect R) (out : List (PaneId × Rect R))
      → size t ≤ f
      → Rep m t
      → compute_bounds f m (top t) rect out ≡ out ++ rects divide t rect
  unfolding compute_bounds
  compute_bounds-Rep zero m (tip i p) rect out h rep = absurd (omega arith)
  compute_bounds-Rep zero m (fork i o r x y) rect out h rep = absurd (omega arith)
  compute_bounds-Rep (suc f) m (tip i p) rect out h rep = ground arith
  compute_bounds-Rep (suc f) m (fork i o ratio x y) rect out h (here, rx, ry) =
      let a = (divide o ratio rect).0 in
      let b = (divide o ratio rect).1 in
      ground (
        arith,
        compute_bounds-Rep f m x a out,
        compute_bounds-Rep f m y b (out ++ rects divide x a),
        append_assoc out (rects divide x a) (rects divide y b),
      )

  abbrev pub full : Rect R
  full = record { x = fl.of_nat 0; y = fl.of_nat 0; w = fl.of_nat 1; h = fl.of_nat 1 }

  pub pane_bounds-Holds :
      (t : SplitTree R) (s : Tree R) → Holds t s → pane_bounds t ≡ rects divide s full
  unfolding pane_bounds
  pane_bounds-Holds t s v =
      ground (arith, v.at_root, compute_bounds-Rep t.next_id t.nodes s full [] v.sized v.rep)

  -- Some entry for `pid` other than the focused pane lies in the direction, so far off.
  abbrev pub Lies :
      Test R
      → Measure R
      → Direction
      → PaneId
      → Rect R
      → List (PaneId × Rect R)
      → PaneId
      → R
      → Type 0
  Lies test off d q rect [] pid x = ⊥
  Lies test off d q rect ((p, r) ∷ bounds) pid x =
      ((p ≡ pid) × (p ≢ q) × (test d rect r ≡ true) × (off d rect r ≡ x))
      ⊎ Lies test off d q rect bounds pid x

  -- No entry other than the focused pane's that lies in the direction is less far off.
  abbrev pub NoneNearer :
      Test R → Measure R → Direction → PaneId → Rect R → List (PaneId × Rect R) → R → Type 0
  NoneNearer test off d q rect [] x = Unit {0}
  NoneNearer test off d q rect ((p, r) ∷ bounds) x =
      ((p ≡ q) ⊎ ((test d rect r ≡ false) ⊎ (fl.lt (off d rect r) x ≡ false)))
      × NoneNearer test off d q rect bounds x

  -- All entries are so far off that it is a number.
  abbrev pub AllNumbers :
      (R → Type 0) → Measure R → Direction → Rect R → List (PaneId × Rect R) → Type 0
  AllNumbers number off d rect [] = Unit {0}
  AllNumbers number off d rect ((p, r) ∷ bounds) =
      number (off d rect r) × AllNumbers number off d rect bounds

  -- What `<` of the floats obeys; only the last needs a number, as opposed to a NaN.
  pub record Ordered (number : R → Type 0) : Type 0 where
    pub irreflexive : (a : R) → fl.lt a a ≡ false
    pub transitive : (a b c : R) → fl.lt a b ≡ true → fl.lt b c ≡ true → fl.lt a c ≡ true
    pub comparable :
        (a b c : R) → number b → fl.lt a b ≡ false → fl.lt b c ≡ false → fl.lt a c ≡ false

  pub nearest-some :
      (d : Direction) (q : PaneId) (rect : Rect R) (bounds : List (PaneId × Rect R))
      → (best : Option (PaneId × R)) (p : PaneId) (e : R)
      → nearest d q rect bounds best ≡ some (p, e)
      → ((best ≡ some (p, e)) ⊎ Lies is_valid dist d q rect bounds p e)
  unfolding nearest
  nearest-some d q rect [] best p e h = inl h
  nearest-some d q rect ((a, r) ∷ bounds) best p e h =
      let next : Option (PaneId × R) =
        if a == q
        then best
        else if is_valid d rect r
        then nearer best a (dist d rect r)
        else best in
      elim (nearest-some d q rect bounds next p e h) [
        | inr l ↦ inr (inr l)
        | inl f ↦ elim (Bool-cases (a == q)) [
          | inl here ↦ inl (ground arith)
          | inr other ↦ elim (Bool-cases (is_valid d rect r)) [
            | inr out ↦ inl (ground arith)
            | inl inside ↦
                chosen best a p (dist d rect r) e (ground arith) (==_ne a q other) inside refl
          ]
        ]
      ]
    where
      chosen :
          (b : Option (PaneId × R)) (a' p' : PaneId) (x e' : R)
          → nearer b a' x ≡ some (p', e')
          → a' ≢ q
          → is_valid d rect r ≡ true
          → dist d rect r ≡ x
          → ((b ≡ some (p', e')) ⊎ Lies is_valid dist d q rect ((a', r) ∷ bounds) p' e')
      chosen none a' p' x e' g n i z = inr (inl (ground arith, n, i, ground arith))
      chosen (some (c, y)) a' p' x e' g n i z = elim (Bool-cases (fl.lt x y)) [
        | inl less ↦ inr (inl (ground arith, n, i, ground arith))
        | inr more ↦ inl (ground arith)
      ]

  -- A best entry is never dropped.
  pub nearest-kept :
      (d : Direction) (q : PaneId) (rect : Rect R) (bounds : List (PaneId × Rect R))
      → (c : PaneId × R) → nearest d q rect bounds (some c) ≢ none
  unfolding nearest
  nearest-kept d q rect [] c h = ground arith
  nearest-kept d q rect ((a, r) ∷ bounds) (b, y) h = elim (Bool-cases (a == q)) [
    | inl here ↦ nearest-kept d q rect bounds (b, y) (ground arith)
    | inr other ↦ elim (Bool-cases (is_valid d rect r)) [
      | inr out ↦ nearest-kept d q rect bounds (b, y) (ground arith)
      | inl inside ↦ elim (Bool-cases (fl.lt (dist d rect r) y)) [
        | inl less ↦ nearest-kept d q rect bounds (a, dist d rect r) (ground arith)
        | inr more ↦ nearest-kept d q rect bounds (b, y) (ground arith)
      ]
    ]
  ]

  -- The distance of the best so far, if there is one, is a number.
  abbrev IsNumber : (R → Type 0) → Option (PaneId × R) → Type 0
  IsNumber number none = Unit {0}
  IsNumber number (some (p, x)) = number x

  -- The best so far is no nearer.
  abbrev NotNearer : Option (PaneId × R) → R → Type 0
  NotNearer none e = Unit {0}
  NotNearer (some (p, x)) e = fl.lt x e ≡ false

  module _ (number : R → Type 0) (laws : Ordered number) where
    not_nearer : (x y e : R) → fl.lt x y ≡ true → fl.lt x e ≡ false → fl.lt y e ≡ false
    not_nearer x y e h k = elim (Bool-cases (fl.lt y e)) [
      | inl l ↦ let z = laws.transitive x y e h l in absurd (ground arith)
      | inr l ↦ l
    ]

    added :
        (d : Direction) (q : PaneId) (rect : Rect R) (bounds : List (PaneId × Rect R)) (a : PaneId)
        (r : Rect R) (p : PaneId) (e : R)
        → number (dist d rect r)
        → (a == q) ≡ false
        → ((b : Option (PaneId × R))
            → IsNumber number b
            → nearest d q rect bounds b ≡ some (p, e)
            → NoneNearer is_valid dist d q rect bounds e × NotNearer b e)
        → (b : Option (PaneId × R)) → IsNumber number b
        → nearest d q rect bounds (nearer b a (dist d rect r)) ≡ some (p, e)
        → NoneNearer is_valid dist d q rect ((a, r) ∷ bounds) e × NotNearer b e
    added d q rect bounds a r p e m other ih none k g =
        let (rest, new) = ih (some (a, dist d rect r)) m g in ((inr (inr new), rest), tt)
    added d q rect bounds a r p e m other ih (some (c, y)) k g =
        elim (Bool-cases (fl.lt (dist d rect r) y)) [
          | inl less ↦
              let (rest, new) = ih (some (a, dist d rect r)) m (rw less at g) in
              ((inr (inr new), rest), not_nearer (dist d rect r) y e less new)
          | inr more ↦
              let (rest, old) = ih (some (c, y)) k (rw more at g) in
              ((inr (inr (laws.comparable (dist d rect r) y e k more old)), rest), old)
        ]

    pub nearest-least :
        (d : Direction) (q : PaneId) (rect : Rect R) (bounds : List (PaneId × Rect R))
        → (best : Option (PaneId × R)) (p : PaneId) (e : R) → AllNumbers number dist d rect bounds
        → IsNumber number best
        → nearest d q rect bounds best ≡ some (p, e)
        → NoneNearer is_valid dist d q rect bounds e × NotNearer best e
    unfolding nearest
    nearest-least d q rect [] none p e ns n h = (tt, tt)
    nearest-least d q rect [] (some (b, y)) p e ns n h =
        let z : y ≡ e = ground arith in (tt, ap (λ x. fl.lt x e) z ∙ laws.irreflexive e)
    nearest-least d q rect ((a, r) ∷ bounds) best p e (m, ns) n h = elim (Bool-cases (a == q)) [
      | inl here ↦
          let (rest, old) = nearest-least d q rect bounds best p e ns n (ground arith) in
          ((inl ((==_iff a q).0 here), rest), old)
      | inr other ↦ elim (Bool-cases (is_valid d rect r)) [
        | inr out ↦
            let (rest, old) = nearest-least d q rect bounds best p e ns n (ground arith) in
            ((inr (inl out), rest), old)
        | inl inside ↦
            added d q rect bounds a r p e m other
              (λ b k g. nearest-least d q rect bounds b p e ns k g) best n (ground arith)
      ]
    ]
