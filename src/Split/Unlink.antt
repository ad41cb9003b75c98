-- ===== src/Split/Unlink.antt =====
-- The node map after `remove` of app/src/split.rs has rewired the grandparent.
use limux.Prelude.{
  ℕ, zero, suc, ◌+◌, ◌≤◌, ◌<◌, ◌≡◌, ◌≢◌, Bool, true, false, Option, none, some, ◌==◌, if◌then◌else◌,
  Bool-cases, Option-cases, inl, inr, Map, lookup, remove, lookup-remove, arith, refl, ◌∙◌, sym,
  subst, ==_iff, ==_ne, ==_of_ne, dec_lt, ◌⊎◌,
}
use limux.Split.Types.{PaneId, NodeId, Orientation, Node}
use limux.Split.Walk.{find_parent_of_node}
use limux.Split.Tree.{Tree, tip, fork, top, ids, hit, hit_self, count_pane, Rep}
use limux.Split.Reads.{parent_of, is_tip_of, leaf_of, above}
use limux.Split.Graft.{is_tip_of-count, parent_of-ids}
use limux.Split.Frame.{frame, top-ids, below-ne}
use limux.Split.Leaf.{leaf_of-tip, leaf_of-absent}
use limux.Split.Prune.{prune}

module _ {R : Type 0} where
  node_cases :
      (l : Option (Node R))
      → (l ≡ none)
        ⊎ (((p : PaneId) × (l ≡ some (Node.leaf p)))
            ⊎ ((o : Orientation) × (r : R) × (a : NodeId) × (b : NodeId) × (l
                  ≡ some (Node.split o r a b))))
  node_cases none = inl refl
  node_cases (some (Node.leaf p)) = inr (inl (p, refl))
  node_cases (some (Node.split o r a b)) = inr (inr (o, r, a, b, refl))

  -- Without a leaf the search for a node's parent finds what it found before.
  pub find_parent_of_node-remove :
      (f : ℕ) (m : Map (Node R)) (id target c : NodeId) (q : PaneId)
      → lookup c m ≡ some (Node.leaf q)
      → find_parent_of_node f (remove c m) id target ≡ find_parent_of_node f m id target
  unfolding find_parent_of_node
  find_parent_of_node-remove zero m id target c q h = refl
  find_parent_of_node-remove (suc f) m id target c q h = elim (Bool-cases (c == id)) [
    | inl e ↦
        let e' : c ≡ id = (==_iff c id).0 e in
        let h' : lookup id m ≡ some (Node.leaf q) =
          subst (λ j. lookup j m ≡ some (Node.leaf q)) e' h in
        ground (arith, lookup-remove c id m)
    | inr n ↦
        let same : lookup id (remove c m) ≡ lookup id m = lookup-remove c id m ∙ (rw n) in
        elim (node_cases (lookup id m)) [
          | inl none_here ↦ ground (arith, same)
          | inr (inl (p, leaf_here)) ↦ ground (arith, same)
          | inr (inr (o, r, a, b, split_here)) ↦ ground (
            arith,
            same,
            find_parent_of_node-remove f m a target c q h,
            find_parent_of_node-remove f m b target c q h,
          )
        ]
  ]

  -- The search finds every node of the tree but its root, and reports the right side.
  pub above-some :
      (t : Tree R) (p : NodeId)
      → 0 < ids p t
      → p ≢ top t
      → (g : NodeId) × (side : Bool) × (above t p ≡ some (g, side))
  above-some (tip i q) p h n = absurd (ground arith)
  above-some (fork i o r x y) p h n = elim (Bool-cases (top x == p)) [
    | inl ex ↦ rw (ex, above) (i, true, refl)
    | inr nx ↦ elim (Bool-cases (top y == p)) [
      | inl ey ↦ rw (nx, ey, above) (i, false, refl)
      | inr ny ↦ elim (dec_lt 0 (ids p x)) [
        | yes inx ↦
            let (g, side, e) = above-some x p inx (λ q. ==_ne _ _ nx (sym q)) in
            (g, side, ground arith)
        | no out ↦ elim (Option-cases (above x p)) [
          | inl ax ↦
              let (g, side, e) = above-some y p (ground arith) (λ q. ==_ne _ _ ny (sym q)) in
              (g, side, ground arith)
          | inr ((g, side), ax) ↦ (g, side, ground arith)
        ]
      ]
    ]
  ]

  pub above-lookup :
      (m : Map (Node R)) (t : Tree R) (p g : NodeId) (side : Bool)
      → Rep m t
      → above t p ≡ some (g, side)
      → (o : Orientation) × (r : R) × (a : NodeId) × (b : NodeId) × (lookup g m
          ≡ some (Node.split o r a b))
        × (0 < ids g t)
  above-lookup m (tip i q) p g side rep e = absurd (ground arith)
  above-lookup m (fork i o r x y) p g side (here, rx, ry) e = elim (Bool-cases (top x == p)) [
    | inl ex ↦ (o, r, top x, top y, ground arith, ground (arith, hit_self i))
    | inr nx ↦ elim (Bool-cases (top y == p)) [
      | inl ey ↦ (o, r, top x, top y, ground arith, ground (arith, hit_self i))
      | inr ny ↦ elim (Option-cases (above x p)) [
        | inl ax ↦
            let (o', r', a, b, at, inside) = above-lookup m y p g side ry (ground arith) in
            (o', r', a, b, at, omega arith)
        | inr (_, ax) ↦
            let (o', r', a, b, at, inside) = above-lookup m x p g side rx (ground arith) in
            (o', r', a, b, at, omega arith)
      ]
    ]
  ]

  apart_left :
      (i : NodeId) (x y : Tree R) (j c : NodeId)
      → hit i c + ids c x + ids c y ≤ 1
      → 0 < ids j y
      → j ≡ c
      → 0 < ids c x
      → ⊥
  apart_left i x y j c u k e h = omega (arith, subst (λ d. 0 < ids d y) e k)

  apart_right :
      (i : NodeId) (x y : Tree R) (j c : NodeId)
      → hit i c + ids c x + ids c y ≤ 1
      → 0 < ids j x
      → j ≡ c
      → 0 < ids c y
      → ⊥
  apart_right i x y j c u k e h = omega (arith, subst (λ d. 0 < ids d x) e k)

  parent_of-inside :
      (i : NodeId) (o : Orientation) (r : R) (x y : Tree R) (q : PaneId) (p : NodeId) (side : Bool)
      → is_tip_of x q ≡ false
      → is_tip_of y q ≡ false
      → parent_of (fork i o r x y) q ≡ some (p, side)
      → 0 < ids p x + ids p y
  parent_of-inside i o r x y q p side nx ny e = elim (Option-cases (parent_of x q)) [
    | inl px ↦ omega (arith, parent_of-ids y q p side (ground arith))
    | inr (_, px) ↦ omega (arith, parent_of-ids x q p side (ground arith))
  ]

  -- The sibling of the leaf, as a tree of its own.
  pub prune-top :
      (m m' : Map (Node R)) (t : Tree R) (q : PaneId) (side : Bool) (c : NodeId)
      → (o : Orientation) (r : R) (a b : NodeId) → Rep m t
      → ((j : NodeId) → ids j t ≤ 1)
      → count_pane q t ≤ 1
      → parent_of t q ≡ some (top t, side)
      → leaf_of t q ≡ some c
      → lookup (top t) m ≡ some (Node.split o r a b)
      → ((j : NodeId) → 0 < ids j t → j ≢ top t → j ≢ c → lookup j m' ≡ lookup j m)
      → Rep m' (prune q t) × (top (prune q t) ≡ (if side then b else a))
  prune-top m m' (tip i p) q side c o r a b rep uniq once e l at same = absurd (ground arith)
  prune-top m m' (fork i o' r' x y) q side c o r a b (here, rx, ry) uniq once e l at same =
      elim (Bool-cases (is_tip_of x q)) [
        | inl tx ↦
            let sx : side ≡ true = ground arith in
            let cx : top x ≡ c = ground (arith, leaf_of-tip x q tx) in
            rw (tx, prune, sx)
              (
                frame m m' y
                    (λ j k.
                      same j (omega arith) (below-ne i o' r' x y j (uniq i) (omega arith)) (λ f.
                        apart_left i x y j c (uniq c) k f
                          (subst (λ d. 0 < ids d x) cx (top-ids x))))
                    ry,
                ground arith,
              )
        | inr nx ↦ elim (Bool-cases (is_tip_of y q)) [
          | inl ty ↦
              let sy : side ≡ false = ground arith in
              let gone : leaf_of x q ≡ none =
                leaf_of-absent x q (omega (arith, is_tip_of-count y q ty)) in
              let cy : top y ≡ c = ground (arith, leaf_of-tip y q ty) in
              rw (nx, ty, prune, sy)
                (
                  frame m m' x
                      (λ j k.
                        same j (omega arith) (below-ne i o' r' x y j (uniq i) (omega arith)) (λ f.
                          apart_right i x y j c (uniq c) k f
                            (subst (λ d. 0 < ids d y) cy (top-ids y))))
                      rx,
                  ground arith,
                )
          | inr ny ↦
              absurd
                (omega (arith, uniq i, hit_self i, parent_of-inside i o' r' x y q i side nx ny e))
        ]
      ]

  -- Ids of the two children differ, and differ from the parent's.
  pub ne_of :
      (i : NodeId) (x y : Tree R) (j c : NodeId)
      → ((d : NodeId) → hit i d + ids d x + ids d y ≤ 1)
      → 0 < ids j x
      → 0 < ids c y
      → (j ≢ c) × (c ≢ j) × (j ≢ i) × (c ≢ i) × (i ≢ j) × (i ≢ c)
  ne_of i x y j c u h k =
      let jc : j ≢ c = λ e. omega (arith, u c, subst (λ d. 0 < ids d x) e h) in
      let ji : j ≢ i = λ e. omega (arith, u i, hit_self i, subst (λ d. 0 < ids d x) e h) in
      let ci : c ≢ i = λ e. omega (arith, u i, hit_self i, subst (λ d. 0 < ids d y) e k) in
      (jc, (λ e. jc (sym e)), ji, ci, (λ e. ji (sym e)), λ e. ci (sym e))

  above-absent : (t : Tree R) (p : NodeId) → ids p t ≡ 0 → above t p ≡ none
  above-absent (tip i q) p e = refl
  above-absent (fork i o r x y) p e =
      let nx : (top x == p) ≡ false =
        ==_of_ne _ _ (λ (f : top x ≡ p). omega (arith, subst (λ d. 0 < ids d x) f (top-ids x))) in
      let ny : (top y == p) ≡ false =
        ==_of_ne _ _ (λ (f : top y ≡ p). omega (arith, subst (λ d. 0 < ids d y) f (top-ids y))) in
      ground (arith, above-absent x p, above-absent y p)

  pub above_right :
      (i : NodeId) (o : Orientation) (r : R) (x y : Tree R) (p g : NodeId) (side : Bool)
      → ((d : NodeId) → hit i d + ids d x + ids d y ≤ 1)
      → 0 < ids p y
      → (top x == p) ≡ false
      → (top y == p) ≡ false
      → above (fork i o r x y) p ≡ some (g, side)
      → above y p ≡ some (g, side)
  above_right i o r x y p g side u h nx ny e =
      let gone : above x p ≡ none = above-absent x p (omega (arith, u p)) in ground arith

  pub above_left :
      (i : NodeId) (o : Orientation) (r : R) (x y : Tree R) (p g : NodeId) (side : Bool)
      → ((d : NodeId) → hit i d + ids d x + ids d y ≤ 1)
      → 0 < ids p x
      → (top x == p) ≡ false
      → (top y == p) ≡ false
      → p ≢ top x
      → above (fork i o r x y) p ≡ some (g, side)
      → above x p ≡ some (g, side)
  above_left i o r x y p g side u h nx ny ne e =
      let (g', side', f) = above-some x p h ne in ground arith
