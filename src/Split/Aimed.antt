-- ===== src/Split/Aimed.antt =====
-- Where `navigate_directional` of app/src/split.rs goes: the geometry of the panes, the test of the
-- direction and the distance are written out here for themselves.
use limux.Prelude.{
  ◌≡◌, inl, inr, Option, none, some, List, [], ◌∷◌, ◌==◌, Bool-cases, Option-cases, arith, refl,
  find, ap, sym, ◌∙◌,
}
use mathlib.Core.Path.{subst}
use limux.Split.Types.{
  Float64, PaneId, Orientation, horizontal, vertical, Direction, left, right, up, down, SplitTree,
}
use limux.Split.Tree.{Tree}
use limux.Split.Valid.{Holds}
use limux.Split.Direction.{Rect, divide, pane_bounds, is_valid, dist, nearest, navigate_directional}
use limux.Split.Aim.{
  Division, Test, Measure, rects, full, pane_bounds-Holds, Lies, NoneNearer, AllNumbers, Ordered,
  nearest-some, nearest-kept, nearest-least,
}

module _ {R : Type 0} ⦃fl : Float64 R⦄ where
  -- The edges of a rectangle.
  abbrev pub right_edge : Rect R → R
  right_edge r = fl.add r.x r.w

  abbrev pub bottom_edge : Rect R → R
  bottom_edge r = fl.add r.y r.h

  -- The first side of a split has the share `ratio` of the width, from the left edge on, or of the
  -- height, from the top on, and the second side has the rest.
  abbrev pub halves : Division R
  halves o ratio r = elim o [
    | horizontal ↦ (
      record { x = r.x; y = r.y; w = fl.mul r.w ratio; h = r.h },
      record {
        x = fl.add r.x (fl.mul r.w ratio);
        y = r.y;
        w = fl.sub r.w (fl.mul r.w ratio);
        h = r.h;
      },
    )
    | vertical ↦ (
      record { x = r.x; y = r.y; w = r.w; h = fl.mul r.h ratio },
      record {
        x = r.x;
        y = fl.add r.y (fl.mul r.h ratio);
        w = r.w;
        h = fl.sub r.h (fl.mul r.h ratio);
      },
    )
  ]

  -- A rectangle lies to the left when its right edge is at most a thousandth beyond the left edge
  -- of the focused one, and so for the other directions.
  abbrev pub lies_toward : Test R
  lies_toward d focused r = elim d [
    | up ↦ fl.le (bottom_edge r) (fl.add focused.y fl.thousandth)
    | down ↦ fl.le (fl.sub (bottom_edge focused) fl.thousandth) r.y
    | left ↦ fl.le (right_edge r) (fl.add focused.x fl.thousandth)
    | right ↦ fl.le (fl.sub (right_edge focused) fl.thousandth) r.x
  ]

  -- How far the centres are apart from left to right, and from top to bottom.
  abbrev pub across : Rect R → Rect R → R
  across a b =
      fl.abs
        (fl.sub (fl.add b.x (fl.div b.w (fl.of_nat 2))) (fl.add a.x (fl.div a.w (fl.of_nat 2))))

  abbrev pub upright : Rect R → Rect R → R
  upright a b =
      fl.abs
        (fl.sub (fl.add b.y (fl.div b.h (fl.of_nat 2))) (fl.add a.y (fl.div a.h (fl.of_nat 2))))

  -- The distance of the centres in the direction, and a tenth of that to the side.
  abbrev pub offset : Measure R
  offset d a b = elim d [
    | up ↦ fl.add (upright a b) (fl.mul (across a b) fl.tenth)
    | down ↦ fl.add (upright a b) (fl.mul (across a b) fl.tenth)
    | left ↦ fl.add (across a b) (fl.mul (upright a b) fl.tenth)
    | right ↦ fl.add (across a b) (fl.mul (upright a b) fl.tenth)
  ]

  halves-divide : (o : Orientation) (ratio : R) (r : Rect R) → divide o ratio r ≡ halves o ratio r
  halves-divide horizontal ratio r = refl
  halves-divide vertical ratio r = refl

  lies_toward-is_valid : (d : Direction) (a b : Rect R) → is_valid d a b ≡ lies_toward d a b
  lies_toward-is_valid up a b = refl
  lies_toward-is_valid down a b = refl
  lies_toward-is_valid left a b = refl
  lies_toward-is_valid right a b = refl

  offset-dist : (d : Direction) (a b : Rect R) → dist d a b ≡ offset d a b
  offset-dist up a b = refl
  offset-dist down a b = refl
  offset-dist left a b = refl
  offset-dist right a b = refl

  nearest-none :
      (d : Direction) (q : PaneId) (rect : Rect R) (bounds : List (PaneId × Rect R)) (p : PaneId)
      (x : R)
      → nearest d q rect bounds none ≡ none
      → ¬ Lies is_valid dist d q rect bounds p x
  unfolding nearest
  nearest-none d q rect [] p x h l = l
  nearest-none d q rect ((a, r) ∷ bounds) p x h l = elim (Bool-cases (a == q)) [
    | inl here ↦ elim l [
      | inl (e, n, i, z) ↦ n (ground arith)
      | inr l' ↦ nearest-none d q rect bounds p x (ground arith) l'
    ]
    | inr other ↦ elim (Bool-cases (is_valid d rect r)) [
      | inr out ↦ elim l [
        | inl (e, n, i, z) ↦ ground arith
        | inr l' ↦ nearest-none d q rect bounds p x (ground arith) l'
      ]
      | inl inside ↦ nearest-kept d q rect bounds (a, dist d rect r) (ground arith)
    ]
  ]

  -- What a directional step does: the pane that takes the focus lies in the direction from the
  -- focused one, none that does is nearer, and nothing else changes; without such a pane the tree
  -- stays as it was.
  abbrev pub Aimed :
      Test R
      → Measure R
      → SplitTree R
      → PaneId
      → Direction
      → List (PaneId × Rect R)
      → Rect R
      → SplitTree R × Option PaneId
      → Type 0
  Aimed test off t q d bounds rect (t', none) =
      (t' ≡ t) × ((p : PaneId) (x : R) → ¬ Lies test off d q rect bounds p x)
  Aimed test off t q d bounds rect (t', some p) =
      (t' ≡ record t { focused = some p })
      × ((x : R) × Lies test off d q rect bounds p x × NoneNearer test off d q rect bounds x)

  -- The rectangle of a pane in the window.
  abbrev pub rect_of : Tree R → PaneId → Option (PaneId × Rect R)
  rect_of s q = find (λ (pid, _). pid == q) (rects halves s full)

  abbrev focus_on : SplitTree R → Option (PaneId × R) → SplitTree R × Option PaneId
  focus_on t none = (t, none)
  focus_on t (some (p, x)) = (record t { focused = some p }, some p)

  navigate_from :
      (t : SplitTree R) (q : PaneId) (d : Direction) (bounds : List (PaneId × Rect R))
      → (c : PaneId) (rect : Rect R) → pane_bounds t ≡ bounds
      → t.focused ≡ some q
      → find (λ (pid, _). pid == q) bounds ≡ some (c, rect)
      → navigate_directional t d ≡ focus_on t (nearest d q rect bounds none)
  unfolding navigate_directional
  navigate_from t q d bounds c rect b e found = elim (Option-cases (nearest d q rect bounds none)) [
    | inl near ↦ ground arith
    | inr ((p, x), near) ↦ ground arith
  ]

  found-Aimed :
      (number : R → Type 0) (laws : Ordered number) (t : SplitTree R) (q : PaneId) (d : Direction)
      (bounds : List (PaneId × Rect R)) (rect : Rect R)
      → AllNumbers number dist d rect bounds
      → Aimed is_valid dist t q d bounds rect (focus_on t (nearest d q rect bounds none))
  found-Aimed number laws t q d bounds rect ns =
      elim (Option-cases (nearest d q rect bounds none)) [
        | inl near ↦ rw near (refl, λ p x. nearest-none d q rect bounds p x near)
        | inr ((p, x), near) ↦ rw near (
          refl,
          (
            x,
            elim (nearest-some d q rect bounds none p x near) [
              | inl gone ↦ absurd (ground arith)
              | inr l ↦ l
            ],
            (nearest-least number laws d q rect bounds none p x ns tt near).0,
          ),
        )
      ]

  -- On a well-formed tree whose focused pane has a rectangle, where `<` orders the distances and
  -- they are numbers, `navigate_directional` focuses another pane whose rectangle lies in the
  -- direction by at most a thousandth over the edge, none that does is nearer by the distance of
  -- the centres with a tenth of the distance to the side, and nothing else changes; or it answers
  -- none and changes nothing, and then no other pane lies there. The rectangles are those of the
  -- tree, whose splits give the first side the share of the ratio and the second the rest.
  pub navigate_directional-Aimed :
      (number : R → Type 0) (laws : Ordered number) (t : SplitTree R) (s : Tree R) (q : PaneId)
      (d : Direction) (c : PaneId) (rect : Rect R)
      → Holds t s
      → t.focused ≡ some q
      → rect_of s q ≡ some (c, rect)
      → AllNumbers number offset d rect (rects halves s full)
      → Aimed lies_toward offset t q d (rects halves s full) rect (navigate_directional t d)
  navigate_directional-Aimed number laws t s q d c rect v e found ns =
      let same_tests : is_valid ≡ lies_toward = λ i d' a b. lies_toward-is_valid d' a b i in
      let same_measures : dist ≡ offset = λ i d' a b. offset-dist d' a b i in
      let same_halves : divide ≡ halves = λ i o ratio r. halves-divide o ratio r i in
      let bounds : pane_bounds t ≡ rects halves s full =
        pane_bounds-Holds t s v ∙ ap (λ h. rects h s full) same_halves in
      let ns' : AllNumbers number dist d rect (rects halves s full) =
        subst (λ off. AllNumbers number off d rect (rects halves s full)) (sym same_measures) ns in
      let out = navigate_directional t d in
      let known : Aimed is_valid dist t q d (rects halves s full) rect out =
        rw (navigate_from t q d (rects halves s full) c rect bounds e found)
          (found-Aimed number laws t q d (rects halves s full) rect ns') in
      subst (λ test. Aimed test offset t q d (rects halves s full) rect out) same_tests
        (subst (λ off. Aimed is_valid off t q d (rects halves s full) rect out) same_measures known)
