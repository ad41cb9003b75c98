-- ===== src/Split/Rewire.antt =====
-- The node map of app/src/split.rs with the grandparent rewired to the sibling, and the pruned tree.
use limux.Prelude.{
  ◌+◌, ◌≤◌, ◌<◌, ◌≡◌, ◌≢◌, Bool, true, false, none, some, ◌==◌, if◌then◌else◌, Bool-cases,
  Option-cases, inl, inr, Map, lookup, arith, refl, ◌∙◌, sym, ap, subst, ==_iff, ==_ne, ==_of_ne,
}
use limux.Split.Types.{PaneId, NodeId, Orientation, Node}
use limux.Split.Tree.{Tree, tip, fork, top, ids, hit, hit_self, count_pane, Rep}
use limux.Split.Reads.{parent_of, is_tip_of, leaf_of, above}
use limux.Split.Graft.{parent_of-count, parent_of-ids}
use limux.Split.Frame.{frame, top-ids, below-ne}
use limux.Split.Leaf.{leaf_of-absent, leaf_of-lookup}
use limux.Split.Prune.{prune, prune-absent, or_else_left}
use limux.Split.Unlink.{prune-top, ne_of, above_left, above_right, above-lookup}

module _ {R : Type 0} where
  prune_right :
      (m m' : Map (Node R)) (i : NodeId) (o1 : Orientation) (r1 : R) (x y : Tree R) (q : PaneId)
      → (p g c : NodeId) (side gside : Bool) → (o o' : Orientation) (r r' : R) (a b a' b' : NodeId)
      → lookup i m ≡ some (Node.split o1 r1 (top x) (top y))
      → Rep m x
      → Rep m y
      → ((j : NodeId) → hit i j + ids j x + ids j y ≤ 1)
      → count_pane q x + count_pane q y ≤ 1
      → parent_of y q ≡ some (p, side)
      → leaf_of y q ≡ some c
      → 0 < ids p y
      → 0 < ids c y
      → above (fork i o1 r1 x y) p ≡ some (g, gside)
      → lookup p m ≡ some (Node.split o r a b)
      → lookup g m ≡ some (Node.split o' r' a' b')
      → lookup g m'
        ≡ some (
            if gside
            then Node.split o' r' (if side then b else a) b'
            else Node.split o' r' a' (if side then b else a))
      → ((j : NodeId)
          → 0 < hit i j + ids j x + ids j y
          → j ≢ g
          → j ≢ p
          → j ≢ c
          → lookup j m' ≡ lookup j m)
      → (p ≢ top y → above y p ≡ some (g, gside) → Rep m' (prune q y) × (top (prune q y) ≡ top y))
      → Rep m' (fork i o1 r1 x (prune q y))
  prune_right m m' i o1 r1 x y q p g c side gside o o' r r' a b a' b' here rx ry uniq once up leaf
        inp inc ab at gat new same deeper =
      elim (Bool-cases (top y == p)) [
        | inl e ↦
            let ep : top y ≡ p = (==_iff _ _).0 e in
            let other : (top x == p) ≡ false =
              ==_of_ne _ _ (ne_of i x y (top x) p uniq (top-ids x) inp).0 in
            let gi : g ≡ i = ground arith in
            let gs : gside ≡ false = ground arith in
            let (rz, tz) =
              prune-top m m' y q side c o r a b ry (λ j. omega (arith, uniq j)) (omega arith)
                (subst (λ k. parent_of y q ≡ some (k, side)) (sym ep) up) leaf
                (subst (λ k. lookup k m ≡ some (Node.split o r a b)) (sym ep) at)
                (λ j k n1 n2.
                  same j (omega arith) (λ f. below-ne i o1 r1 x y j (uniq i) (omega arith) (f ∙ gi))
                    (λ f. n1 (f ∙ sym ep)) n2) in
            let fr : Rep m' x =
              frame m m' x
                (λ j k.
                  same j (omega arith) (λ f. (ne_of i x y j p uniq k inp).2 (f ∙ gi))
                    (ne_of i x y j p uniq k inp).0 (ne_of i x y j c uniq k inc).0)
                rx in
            (ground arith, fr, rz)
        | inr n ↦
            let other : (top x == p) ≡ false =
              ==_of_ne _ _ (ne_of i x y (top x) p uniq (top-ids x) inp).0 in
            let below : p ≢ top y = λ f. ==_ne _ _ n (sym f) in
            let abz : above y p ≡ some (g, gside) =
              above_right i o1 r1 x y p g gside uniq inp other n ab in
            let (rz, tz) = deeper below abz in
            let (_, _, _, _, _, ing) = above-lookup m y p g gside ry abz in
            let fr : Rep m' x =
              frame m m' x
                (λ j k.
                  same j (omega arith) (ne_of i x y j g uniq k ing).0 (ne_of i x y j p uniq k inp).0
                    (ne_of i x y j c uniq k inc).0)
                rx in
            (
              same i (omega (arith, hit_self i)) (ne_of i x y (top x) g uniq (top-ids x) ing).5
                    (ne_of i x y (top x) p uniq (top-ids x) inp).5
                    (ne_of i x y (top x) c uniq (top-ids x) inc).5
                  ∙ here
                  ∙ ap (λ k. some (Node.split o1 r1 (top x) k)) (sym tz),
              fr,
              rz,
            )
      ]

  prune_left :
      (m m' : Map (Node R)) (i : NodeId) (o1 : Orientation) (r1 : R) (x y : Tree R) (q : PaneId)
      → (p g c : NodeId) (side gside : Bool) → (o o' : Orientation) (r r' : R) (a b a' b' : NodeId)
      → lookup i m ≡ some (Node.split o1 r1 (top x) (top y))
      → Rep m x
      → Rep m y
      → ((j : NodeId) → hit i j + ids j x + ids j y ≤ 1)
      → count_pane q x + count_pane q y ≤ 1
      → parent_of x q ≡ some (p, side)
      → leaf_of x q ≡ some c
      → 0 < ids p x
      → 0 < ids c x
      → above (fork i o1 r1 x y) p ≡ some (g, gside)
      → lookup p m ≡ some (Node.split o r a b)
      → lookup g m ≡ some (Node.split o' r' a' b')
      → lookup g m'
        ≡ some (
            if gside
            then Node.split o' r' (if side then b else a) b'
            else Node.split o' r' a' (if side then b else a))
      → ((j : NodeId)
          → 0 < hit i j + ids j x + ids j y
          → j ≢ g
          → j ≢ p
          → j ≢ c
          → lookup j m' ≡ lookup j m)
      → (p ≢ top x → above x p ≡ some (g, gside) → Rep m' (prune q x) × (top (prune q x) ≡ top x))
      → Rep m' (fork i o1 r1 (prune q x) y)
  prune_left m m' i o1 r1 x y q p g c side gside o o' r r' a b a' b' here rx ry uniq once up leaf
        inp inc ab at gat new same deeper =
      elim (Bool-cases (top x == p)) [
        | inl e ↦
            let ep : top x ≡ p = (==_iff _ _).0 e in
            let other : (top y == p) ≡ false =
              ==_of_ne _ _ (ne_of i x y p (top y) uniq inp (top-ids y)).1 in
            let gi : g ≡ i = ground arith in
            let gs : gside ≡ true = ground arith in
            let (rz, tz) =
              prune-top m m' x q side c o r a b rx (λ j. omega (arith, uniq j)) (omega arith)
                (subst (λ k. parent_of x q ≡ some (k, side)) (sym ep) up) leaf
                (subst (λ k. lookup k m ≡ some (Node.split o r a b)) (sym ep) at)
                (λ j k n1 n2.
                  same j (omega arith) (λ f. below-ne i o1 r1 x y j (uniq i) (omega arith) (f ∙ gi))
                    (λ f. n1 (f ∙ sym ep)) n2) in
            let fr : Rep m' y =
              frame m m' y
                (λ j k.
                  same j (omega arith) (λ f. (ne_of i x y p j uniq inp k).3 (f ∙ gi))
                    (ne_of i x y p j uniq inp k).1 (ne_of i x y c j uniq inc k).1)
                ry in
            (ground arith, rz, fr)
        | inr n ↦
            let other : (top y == p) ≡ false =
              ==_of_ne _ _ (ne_of i x y p (top y) uniq inp (top-ids y)).1 in
            let below : p ≢ top x = λ f. ==_ne _ _ n (sym f) in
            let abz : above x p ≡ some (g, gside) =
              above_left i o1 r1 x y p g gside uniq inp n other below ab in
            let (rz, tz) = deeper below abz in
            let (_, _, _, _, _, ing) = above-lookup m x p g gside rx abz in
            let fr : Rep m' y =
              frame m m' y
                (λ j k.
                  same j (omega arith) (ne_of i x y g j uniq ing k).1 (ne_of i x y p j uniq inp k).1
                    (ne_of i x y c j uniq inc k).1)
                ry in
            (
              same i (omega (arith, hit_self i)) (ne_of i x y g (top y) uniq ing (top-ids y)).4
                    (ne_of i x y p (top y) uniq inp (top-ids y)).4
                    (ne_of i x y c (top y) uniq inc (top-ids y)).4
                  ∙ here
                  ∙ ap (λ k. some (Node.split o1 r1 k (top y))) (sym tz),
              rz,
              fr,
            )
      ]

  -- With the grandparent rewired to the sibling, the map holds the pruned tree.
  pub prune-Rep :
      (m m' : Map (Node R)) (t : Tree R) (q : PaneId) (p g c : NodeId) (side gside : Bool)
      → (o o' : Orientation) (r r' : R) (a b a' b' : NodeId) → Rep m t
      → ((j : NodeId) → ids j t ≤ 1)
      → count_pane q t ≤ 1
      → parent_of t q ≡ some (p, side)
      → leaf_of t q ≡ some c
      → p ≢ top t
      → above t p ≡ some (g, gside)
      → lookup p m ≡ some (Node.split o r a b)
      → lookup g m ≡ some (Node.split o' r' a' b')
      → lookup g m'
        ≡ some (
            if gside
            then Node.split o' r' (if side then b else a) b'
            else Node.split o' r' a' (if side then b else a))
      → ((j : NodeId) → 0 < ids j t → j ≢ g → j ≢ p → j ≢ c → lookup j m' ≡ lookup j m)
      → Rep m' (prune q t) × (top (prune q t) ≡ top t)
  prune-Rep m m' (tip i s) q p g c side gside o o' r r' a b a' b' rep uniq once e l ne up at gat new
        same =
      absurd (ground arith)
  prune-Rep m m' (fork i o1 r1 x y) q p g c side gside o o' r r' a b a' b' (here, rx, ry) uniq once
        e l ne up at gat new same =
      elim (Bool-cases (is_tip_of x q)) [
        | inl tx ↦ absurd (ne (ground arith))
        | inr nx ↦ elim (Bool-cases (is_tip_of y q)) [
          | inl ty ↦ absurd (ne (ground arith))
          | inr ny ↦ elim (Option-cases (parent_of x q)) [
            | inl px ↦
                let py : parent_of y q ≡ some (p, side) = ground arith in
                let gone : count_pane q x ≡ 0 = omega (arith, parent_of-count y q p side py) in
                let lx : leaf_of x q ≡ none = leaf_of-absent x q gone in
                let ly : leaf_of y q ≡ some c = ground arith in
                let inp : 0 < ids p y = parent_of-ids y q p side py in
                let inc : 0 < ids c y = (leaf_of-lookup m y q c ry ly).1 in
                rw (nx, ny, prune, prune-absent q x gone)
                  (
                    prune_right m m' i o1 r1 x y q p g c side gside o o' r r' a b a' b' here rx ry
                        uniq once py ly inp inc up at gat new same
                        (λ n gx.
                          prune-Rep m m' y q p g c side gside o o' r r' a b a' b' ry
                            (λ j. omega (arith, uniq j)) (omega arith) py ly n gx at gat new
                            (λ j k. same j (omega arith))),
                    refl,
                  )
            | inr (_, px) ↦
                let px' : parent_of x q ≡ some (p, side) = ground arith in
                let gone : count_pane q y ≡ 0 = omega (arith, parent_of-count x q p side px') in
                let ly : leaf_of y q ≡ none = leaf_of-absent y q gone in
                let lx : leaf_of x q ≡ some c = or_else_left _ _ c l ly in
                let inp : 0 < ids p x = parent_of-ids x q p side px' in
                let inc : 0 < ids c x = (leaf_of-lookup m x q c rx lx).1 in
                rw (nx, ny, prune, prune-absent q y gone)
                  (
                    prune_left m m' i o1 r1 x y q p g c side gside o o' r r' a b a' b' here rx ry
                        uniq once px' lx inp inc up at gat new same
                        (λ n gx.
                          prune-Rep m m' x q p g c side gside o o' r r' a b a' b' rx
                            (λ j. omega (arith, uniq j)) (omega arith) px' lx n gx at gat new
                            (λ j k. same j (omega arith))),
                    refl,
                  )
          ]
        ]
      ]

  -- A node is not its own parent.
  pub above-ne :
      (t : Tree R) (p g : NodeId) (side : Bool)
      → ((j : NodeId) → ids j t ≤ 1)
      → above t p ≡ some (g, side)
      → g ≢ p
  above-ne (tip i q) p g side uniq e = absurd (ground arith)
  above-ne (fork i o r x y) p g side uniq e = elim (Bool-cases (top x == p)) [
    | inl ex ↦
        let gi : g ≡ i = ground arith in
        λ f.
          below-ne i o r x y (top x) (uniq i) (omega (arith, top-ids x))
            ((==_iff _ _).0 ex ∙ sym f ∙ gi)
    | inr nx ↦ elim (Bool-cases (top y == p)) [
      | inl ey ↦
          let gi : g ≡ i = ground arith in
          λ f.
            below-ne i o r x y (top y) (uniq i) (omega (arith, top-ids y))
              ((==_iff _ _).0 ey ∙ sym f ∙ gi)
      | inr ny ↦ elim (Option-cases (above x p)) [
        | inl ax ↦ above-ne y p g side (λ j. omega (arith, uniq j)) (ground arith)
        | inr (_, ax) ↦ above-ne x p g side (λ j. omega (arith, uniq j)) (ground arith)
      ]
    ]
  ]
