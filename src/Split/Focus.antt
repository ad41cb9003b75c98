-- ===== src/Split/Focus.antt =====
-- `navigate` of app/src/split.rs: the focus goes round the panes in their order.
use limux.Prelude.{
  ℕ, ◌+◌, ◌-◌, ◌%◌, ◌<◌, ◌≡◌, Bool, true, false, not, Option, some, ◌==◌, if◌then◌else◌, arith,
  refl, ◌∙◌, sym, ap, length, get_elem?, position, position-lt, back_and_forth, forth_and_back,
  count, count-append, get_elem?-position, position-some, get_elem?-some, position-get_elem?,
  count_pos-get_elem?,
}
use limux.Split.Types.{PaneId, SplitTree}
use limux.Split.Walk.{panes}
use limux.Split.Tree.{Tree, tip, fork, count_pane, leaves}
use limux.Split.Valid.{Holds, panes-Holds}
use limux.Split.Change.{navigate}

-- Where `navigate` goes from the place `i` of `n`.
abbrev pub next_place : Bool → ℕ → ℕ → ℕ
next_place forward i n = if forward then (i + 1) % n else (i + n - 1) % n

next_place-lt : (forward : Bool) (i n : ℕ) → i < n → next_place forward i n < n
next_place-lt true i n h = omega arith
next_place-lt false i n h = omega arith

next_place_back :
    (forward : Bool) (i n : ℕ) → i < n → next_place (not forward) (next_place forward i n) n ≡ i
next_place_back true i n h = back_and_forth i n h
next_place_back false i n h = forth_and_back i n h

module _ {R : Type 0} where
  count-leaves : (q : PaneId) (s : Tree R) → count q (leaves s) ≡ count_pane q s
  count-leaves q (tip i p) = omega arith
  count-leaves q (fork i o r x y) =
      omega (arith, count-append q (leaves x) (leaves y), count-leaves q x, count-leaves q y)

  navigate-step :
      (t : SplitTree R) (forward : Bool) (q p : PaneId) (i : ℕ)
      → t.focused ≡ some q
      → position (λ a. a == q) (panes t) ≡ some i
      → get_elem? (panes t) (next_place forward i (length (panes t))) ≡ some p
      → navigate t forward ≡ (record t { focused = some p }, some p)
  unfolding navigate
  navigate-step t forward q p i f e g = ground arith

  panes-focused : (t : SplitTree R) (f : Option PaneId) → panes (record t { focused = f }) ≡ panes t
  unfolding panes
  panes-focused t f = refl

  same_focus : (t : SplitTree R) (f : Option PaneId) → t.focused ≡ f → record t { focused = f } ≡ t
  same_focus t f e =
      λ i. record { nodes = t.nodes; root = t.root; next_id = t.next_id; focused = e' i }
    where
      e' : f ≡ t.focused
      e' = sym e

  -- On a well-formed tree whose focused pane is in it, `navigate` focuses a pane of the tree, and a
  -- step the other way gives the tree and its focus back.
  pub navigate-navigate :
      (t : SplitTree R) (s : Tree R) (q : PaneId) (forward : Bool)
      → Holds t s
      → t.focused ≡ some q
      → count_pane q s ≡ 1
      → (p : PaneId) × ((navigate t forward).1 ≡ some p)
        × (count_pane p s ≡ 1)
        × (navigate (navigate t forward).0 (not forward) ≡ (t, some q))
  navigate-navigate t s q forward v f one =
      let l = panes t in
      let el : l ≡ leaves s = panes-Holds t s v in
      let once : (a : PaneId) → count a l ≡ count_pane a s =
        λ a. ap (count a) el ∙ count-leaves a s in
      let (i, at) = position-some l q (omega (arith, once q)) in
      let low = position-lt (λ a. a == q) l i at in
      let n = length l in
      let j = next_place forward i n in
      let (p, there) = get_elem?-some l j (next_place-lt forward i n low) in
      let there_once = once p in
      let step = navigate-step t forward q p i f at there in
      let t' : SplitTree R = record t { focused = some p } in
      let same : panes t' ≡ l = panes-focused t (some p) in
      let at' : position (λ a. a == p) (panes t') ≡ some j =
        rw same (position-get_elem? l j p (omega (arith, once p, v.once p)) there) in
      let back : get_elem? (panes t') (next_place (not forward) j (length (panes t'))) ≡ some q =
        rw (same, next_place_back forward i n low) (get_elem?-position l i q at) in
      rw step (
        p,
        refl,
        omega (arith, once p, v.once p, count_pos-get_elem? l j p there),
        navigate-step t' (not forward) p q j refl at' back
            ∙ ap (λ u. (u, some q)) (same_focus t (some q) f),
      )
