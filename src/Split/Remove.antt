-- ===== src/Split/Remove.antt =====
-- `remove` of app/src/split.rs on a well-formed tree.
use limux.Prelude.{
  ◌+◌, ◌≡◌, ◌≢◌, Bool, true, false, Option, none, some, ◌==◌, if◌then◌else◌, Bool-cases,
  Option-cases, inl, inr, Map, lookup, remove as remove_key, lookup-remove, arith, refl, ◌∙◌, sym,
  ap, if_ne, ==_refl, ==_of_ne, head?,
}
use limux.Split.Types.{PaneId, NodeId, Orientation, Node, SplitTree}
use limux.Split.Tree.{Tree, fork, top, ids, hit, size, count_pane, leaves, Rep}
use limux.Split.Reads.{parent_of, leaf_of, above}
use limux.Split.Valid.{Holds, Found, find_parent-Holds, lookup-set_child, panes-Holds}
use limux.Split.Leaf.{leaf_of-lookup, parent_of-leaf}
use limux.Split.Prune.{prune, weight-prune}
use limux.Split.Unlink.{prune-top, above-lookup}
use limux.Split.Rewire.{prune-Rep, above-ne}
use limux.Split.Edit.{set_child}
use limux.Split.Change.{remove, unlink, refocus, detach}

module _ {R : Type 0} where
  -- The nodes of the pruned tree are those of the tree, less the leaf and its parent.
  detached-Holds :
      (t t' : SplitTree R) (s : Tree R) (q : PaneId) (p c : NodeId) (side : Bool)
      → Holds t s
      → parent_of s q ≡ some (p, side)
      → leaf_of s q ≡ some c
      → t'.root ≡ some (top (prune q s))
      → t'.next_id ≡ t.next_id
      → Rep t'.nodes (prune q s)
      → Holds t' (prune q s)
  detached-Holds t t' s q p c side v e l root next rep =
      let fewer : (j : NodeId) → ids j (prune q s) + hit p j + hit c j ≡ ids j s =
        λ j. weight-prune (ids j) (λ i. hit i j) (λ i o r x y. refl) q s p side c e l (v.once q) in
      record {
        at_root = root;
        rep = rep;
        uniq = λ j. omega (arith, fewer j, v.uniq j);
        once = λ a. omega (
          arith,
          v.once a,
          weight-prune (count_pane a) (λ i. 0) (λ i o r x y. omega arith) q s p side c e l
              (v.once q),
        );
        fresh = λ j h. omega (arith, fewer j, v.fresh j (omega arith));
        sized = omega (
          arith,
          v.sized,
          weight-prune size (λ i. 1) (λ i o r x y. omega arith) q s p side c e l (v.once q),
        );
      }

  pub remove-fork :
      (t : SplitTree R) (i : NodeId) (o : Orientation) (r : R) (x y : Tree R) (q : PaneId)
      → (p c : NodeId) (side : Bool)
      → let s = fork i o r x y in
        (found : Found t.nodes q p side)
        → Holds t s
        → parent_of s q ≡ some (p, side)
        → leaf_of s q ≡ some c
        → remove t q ≡ (unlink t i p (if side then found.second else found.first) c q, true)
  unfolding remove
  remove-fork t i o r x y q p c true found v e l =
      let s = fork i o r x y in
      let h = v.rep.0 in
      let leaf =
        parent_of-leaf t.nodes s q p true found.orientation found.ratio found.first found.second
          v.rep (v.once q) e found.here in
      ground (arith, v.at_root, found.here, find_parent-Holds t s q v)
  remove-fork t i o r x y q p c false found v e l =
      let s = fork i o r x y in
      let h = v.rep.0 in
      let leaf =
        parent_of-leaf t.nodes s q p false found.orientation found.ratio found.first found.second
          v.rep (v.once q) e found.here in
      ground (arith, v.at_root, found.here, find_parent-Holds t s q v)

  pub refocus-Holds :
      (t : SplitTree R) (s : Tree R) (q : PaneId) → Holds t s → Holds (refocus t q) s
  refocus-Holds t s q v = elim (Option-cases t.focused) [
    | inl e ↦ rw (e, refocus) v
    | inr (p, e) ↦ elim (Bool-cases (p == q)) [
      | inl f ↦
          rw (e, f, refocus)
            (record {
              at_root = v.at_root;
              rep = v.rep;
              uniq = v.uniq;
              once = v.once;
              fresh = v.fresh;
              sized = v.sized;
            })
      | inr f ↦ rw (e, f, refocus) v
    ]
  ]

  -- The focus after a removal: the removed pane gives it to the first of those that stay.
  pub refocus-focused :
      (t : SplitTree R) (s : Tree R) (q : PaneId)
      → Holds t s
      → (refocus t q).focused
        ≡ elim t.focused [ none ↦ none | some p ↦ if p == q then head? (leaves s) else some p ]
  refocus-focused t s q v = ground (arith, panes-Holds t s v)

  pub lookup-remove_ne :
      (k j : NodeId) (m : Map (Node R)) → j ≢ k → lookup j (remove_key k m) ≡ lookup j m
  lookup-remove_ne k j m n = lookup-remove k j m ∙ if_ne k j _ _ (λ e. n (sym e))

  leaf_not_split :
      (m : Map (Node R)) (g c : NodeId) (q : PaneId) (o : Orientation) (r : R) (a b : NodeId)
      → g ≡ c
      → lookup c m ≡ some (Node.leaf q)
      → lookup g m ≡ some (Node.split o r a b)
      → ⊥
  leaf_not_split m g c q o r a b e f h = ground arith

  pub detach-root :
      (t : SplitTree R) (i : NodeId) (o : Orientation) (r : R) (x y : Tree R) (q : PaneId)
      → (c : NodeId) (side : Bool) (gp : Option (NodeId × Bool))
      → let s = fork i o r x y in
        (found : Found t.nodes q i side)
        → Holds t s
        → parent_of s q ≡ some (i, side)
        → leaf_of s q ≡ some c
        → Holds (detach t i i (if side then found.second else found.first) c gp) (prune q s)
  detach-root t i o r x y q c side gp found v e l =
      let s = fork i o r x y in
      let m' = remove_key i (remove_key c t.nodes) in
      let (rep, root) =
        prune-top t.nodes m' s q side c found.orientation found.ratio found.first found.second v.rep
          v.uniq (v.once q) e l found.here
          (λ j k n1 n2.
            lookup-remove_ne i j (remove_key c t.nodes) n1 ∙ lookup-remove_ne c j t.nodes n2) in
      rw (==_refl i, detach)
        (detached-Holds t
          (record t { root = some (if side then found.second else found.first); nodes = m' }) s q i
          c side v e l (ap some (sym root)) refl rep)

  pub detach-below :
      (t : SplitTree R) (i : NodeId) (o : Orientation) (r : R) (x y : Tree R) (q : PaneId)
      → (p c g : NodeId) (side gside : Bool)
      → let s = fork i o r x y in
        (found : Found t.nodes q p side)
        → Holds t s
        → parent_of s q ≡ some (p, side)
        → leaf_of s q ≡ some c
        → p ≢ i
        → above s p ≡ some (g, gside)
        → Holds
            (detach t i p (if side then found.second else found.first) c (some (g, gside)))
            (prune q s)
  detach-below t i o r x y q p c g side gside found v e l n up =
      let s = fork i o r x y in
      let sibling : NodeId = if side then found.second else found.first in
      let (o', r', a, b, at, _) = above-lookup t.nodes s p g gside v.rep up in
      let (is_leaf, _) = leaf_of-lookup t.nodes s q c v.rep l in
      let gc : g ≢ c = λ f. leaf_not_split t.nodes g c q o' r' a b f is_leaf at in
      let gp : g ≢ p = above-ne s p g gside v.uniq up in
      let m1 = remove_key c t.nodes in
      let m' = remove_key p (set_child m1 g gside sibling) in
      let at1 : lookup g m1 ≡ some (Node.split o' r' a b) = lookup-remove_ne c g t.nodes gc ∙ at in
      let look : (j : NodeId) → lookup j (set_child m1 g gside sibling) ≡ _ =
        λ j. lookup-set_child m1 g gside sibling j o' r' a b at1 in
      let (rep, root) =
        prune-Rep t.nodes m' s q p g c side gside found.orientation o' found.ratio r' found.first
          found.second a b v.rep v.uniq (v.once q) e l n up found.here at
          (lookup-remove_ne p g _ gp ∙ look g ∙ (rw (==_refl g)))
          (λ j k n1 n2 n3.
            lookup-remove_ne p j _ n2
            ∙ look j
            ∙ if_ne g j _ _ (λ f. n1 (sym f))
            ∙ lookup-remove_ne c j t.nodes n3) in
      rw (==_of_ne i p (λ f. n (sym f)), detach)
        (detached-Holds t (record t { nodes = m' }) s q p c side v e l
          (v.at_root ∙ ap some (sym root)) refl rep)

  pub detach-focused :
      (t : SplitTree R) (i p sibling c : NodeId) (gp : Option (NodeId × Bool))
      → (detach t i p sibling c gp).focused ≡ t.focused
  detach-focused t i p sibling c gp = ground arith
