-- ===== src/Split/Direction.antt =====
-- `pane_bounds` and `navigate_directional` of app/src/split.rs, over the abstract floats.
use limux.Prelude.{
  ℕ, zero, suc, Bool, Option, none, some, List, [], ◌∷◌, ◌++◌, ◌==◌, if◌then◌else◌, Map, lookup,
  find,
}
use limux.Split.Types.{
  Float64, PaneId, NodeId, Orientation, horizontal, vertical, Direction, up, down, left, right,
  Node, SplitTree,
}

-- A bounding rectangle.
pub record Rect (R : Type 0) : Type 0 where
  pub x : R
  pub y : R
  pub w : R
  pub h : R

module _ {R : Type 0} ⦃fl : Float64 R⦄ where
  -- The two rectangles of a split.
  abbrev pub divide : Orientation → R → Rect R → Rect R × Rect R
  divide horizontal ratio rect =
      let w1 = fl.mul rect.w ratio in
      (
        record { x = rect.x; y = rect.y; w = w1; h = rect.h },
        record { x = fl.add rect.x w1; y = rect.y; w = fl.sub rect.w w1; h = rect.h },
      )
  divide vertical ratio rect =
      let h1 = fl.mul rect.h ratio in
      (
        record { x = rect.x; y = rect.y; w = rect.w; h = h1 },
        record { x = rect.x; y = fl.add rect.y h1; w = rect.w; h = fl.sub rect.h h1 },
      )

  unfoldable pub compute_bounds :
      ℕ → Map (Node R) → NodeId → Rect R → List (PaneId × Rect R) → List (PaneId × Rect R)
  compute_bounds zero m id rect out = out
  compute_bounds (suc f) m id rect out = elim (lookup id m) [
    | none ↦ out
    | some n ↦ elim n [
      | Node.leaf p ↦ out ++ (p, rect) ∷ []
      | Node.split o ratio a b ↦
          let (r1, r2) = divide o ratio rect in
          compute_bounds f m b r2 (compute_bounds f m a r1 out)
    ]
  ]

  unfoldable pub pane_bounds : SplitTree R → List (PaneId × Rect R)
  unfolding compute_bounds
  pane_bounds t = elim t.root [
    | none ↦ []
    | some root ↦
        compute_bounds t.next_id t.nodes root
          (record { x = fl.of_nat 0; y = fl.of_nat 0; w = fl.of_nat 1; h = fl.of_nat 1 }) []
  ]

  abbrev pub center_x : Rect R → R
  center_x r = fl.add r.x (fl.div r.w (fl.of_nat 2))

  abbrev pub center_y : Rect R → R
  center_y r = fl.add r.y (fl.div r.h (fl.of_nat 2))

  -- Whether a rectangle lies in the direction from the focused one.
  abbrev pub is_valid : Direction → Rect R → Rect R → Bool
  is_valid left focused r = fl.le (fl.add r.x r.w) (fl.add focused.x fl.thousandth)
  is_valid right focused r = fl.le (fl.sub (fl.add focused.x focused.w) fl.thousandth) r.x
  is_valid up focused r = fl.le (fl.add r.y r.h) (fl.add focused.y fl.thousandth)
  is_valid down focused r = fl.le (fl.sub (fl.add focused.y focused.h) fl.thousandth) r.y

  abbrev pub along : R → R → R
  along main side = fl.add main (fl.mul side fl.tenth)

  abbrev pub dist : Direction → Rect R → Rect R → R
  dist d focused r =
      let dx = fl.abs (fl.sub (center_x r) (center_x focused)) in
      let dy = fl.abs (fl.sub (center_y r) (center_y focused)) in
      elim d [ left ↦ along dx dy | right ↦ along dx dy | up ↦ along dy dx | down ↦ along dy dx ]

  -- The better of the best so far and the next candidate.
  abbrev pub nearer : Option (PaneId × R) → PaneId → R → Option (PaneId × R)
  nearer none pid d = some (pid, d)
  nearer (some (q, e)) pid d = if fl.lt d e then some (pid, d) else some (q, e)

  unfoldable pub nearest :
      Direction
      → PaneId
      → Rect R
      → List (PaneId × Rect R)
      → Option (PaneId × R)
      → Option (PaneId × R)
  nearest d focused rect [] best = best
  nearest d focused rect ((pid, r) ∷ bounds) best = nearest d focused rect bounds (
      if pid == focused
      then best
      else if is_valid d rect r
      then nearer best pid (dist d rect r)
      else best)

  unfoldable pub navigate_directional : SplitTree R → Direction → SplitTree R × Option PaneId
  unfolding nearest
  navigate_directional t d = elim t.focused [
    | none ↦ (t, none)
    | some focused ↦
        let bounds = pane_bounds t in
        elim (find (λ (pid, _). pid == focused) bounds) [
          | none ↦ (t, none)
          | some (_, rect) ↦ elim (nearest d focused rect bounds none) [
            | none ↦ (t, none)
            | some (pid, _) ↦ (record t { focused = some pid }, some pid)
          ]
        ]
  ]
