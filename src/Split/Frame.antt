-- ===== src/Split/Frame.antt =====
-- How an edit of the tree shows in the node map: frame rules, and the count of what a tree holds.
use limux.Prelude.{
  ℕ, ◌+◌, ◌≤◌, ◌<◌, ◌≡◌, ◌≢◌, Bool, true, some, ◌==◌, Map, lookup, insert, remove, lookup-insert,
  lookup-remove, arith, refl, ==_refl, Bool-cases, inl, inr, ==_iff, ==_ne, sym, ap, ap₂, ◌∙◌,
}
use limux.Split.Types.{PaneId, NodeId, Orientation, Node}
use limux.Split.Tree.{Tree, tip, fork, top, ids, hit, Rep}
use limux.Split.Reads.{parent_of, is_tip_of}
use limux.Split.Graft.{pick, edit, edit-absent, parent_of-ids}

module _ {R : Type 0} where
  pub top-ids : (t : Tree R) → 0 < ids (top t) t
  top-ids (tip i p) = ground arith
  top-ids (fork i o r x y) = ground arith

  -- A map that agrees on the ids of a tree holds it too.
  pub frame :
      (m m' : Map (Node R)) (t : Tree R)
      → ((j : NodeId) → 0 < ids j t → lookup j m' ≡ lookup j m)
      → Rep m t
      → Rep m' t
  frame m m' (tip i p) same rep = ground (arith, same i)
  frame m m' (fork i o r x y) same (here, rx, ry) = (
    ground (arith, same i),
    frame m m' x (λ j h. same j (omega arith)) rx,
    frame m m' y (λ j h. same j (omega arith)) ry,
  )

  pub frame-insert :
      (k : NodeId) (n : Node R) (m : Map (Node R)) (t : Tree R)
      → ids k t ≡ 0
      → Rep m t
      → Rep (insert k n m) t
  frame-insert k n m t e = frame m (insert k n m) t (λ j h. ground (arith, lookup-insert k j n m))

  pub frame-remove :
      (k : NodeId) (m : Map (Node R)) (t : Tree R) → ids k t ≡ 0 → Rep m t → Rep (remove k m) t
  frame-remove k m t e = frame m (remove k m) t (λ j h. ground (arith, lookup-remove k j m))

  pub top-edit :
      (t : Tree R) (p : NodeId) (h : Orientation → R → Tree R → Tree R → Tree R)
      → ((o : Orientation) (r : R) (x y : Tree R) → top (h o r x y) ≡ p)
      → top (edit p h t) ≡ top t
  top-edit (tip i q) p h keep = refl
  top-edit (fork i o r x y) p h keep = ground (arith, keep o r x y)

  pub below-ne :
      (i : NodeId) (o : Orientation) (r : R) (x y : Tree R) (j : NodeId)
      → ids i (fork i o r x y) ≤ 1
      → 0 < ids j x + ids j y
      → j ≢ i
  below-ne i o r x y j u k e = ground (arith, ap (λ v. ids v x + ids v y) e, ==_refl i)

  node-eq :
      (m : Map (Node R)) (i p : NodeId) (o o' : Orientation) (r r' : R) (a b a' b' : NodeId)
      → i ≡ p
      → lookup i m ≡ some (Node.split o r a b)
      → lookup p m ≡ some (Node.split o' r' a' b')
      → (o ≡ o') × (r ≡ r') × (a ≡ a') × (b ≡ b')
  node-eq m i p o o' r r' a b a' b' e f g = ground arith

  tip_frame :
      (m m' : Map (Node R)) (i : NodeId) (q : PaneId) (p : NodeId) (o : Orientation) (r : R)
      → (a b : NodeId) → lookup p m ≡ some (Node.split o r a b)
      → lookup i m ≡ some (Node.leaf q)
      → (0 < hit i i → i ≢ p → lookup i m' ≡ lookup i m)
      → lookup i m' ≡ some (Node.leaf q)
  tip_frame m m' i q p o r a b at here same = same (ground arith) (λ e. ground arith) ∙ here

  -- After a change at the id of one split the map holds the tree edited there.
  pub edit-Rep :
      (m m' : Map (Node R)) (t : Tree R) (p : NodeId)
      → (h : Orientation → R → Tree R → Tree R → Tree R) → (o : Orientation) (r : R) (a b : NodeId)
      → lookup p m ≡ some (Node.split o r a b)
      → ((j : NodeId) → 0 < ids j t → j ≢ p → lookup j m' ≡ lookup j m)
      → ((o' : Orientation) (r' : R) (x y : Tree R) → top (h o' r' x y) ≡ p)
      → ((x y : Tree R) → top x ≡ a → top y ≡ b → Rep m' x → Rep m' y → Rep m' (h o r x y))
      → ((j : NodeId) → ids j t ≤ 1)
      → Rep m t
      → Rep m' (edit p h t)
  edit-Rep m m' (tip i q) p h o r a b at same keep new uniq rep =
      tip_frame m m' i q p o r a b at rep (same i)
  edit-Rep m m' (fork i o' r' x y) p h o r a b at same keep new uniq (here, rx, ry) =
      elim (Bool-cases (i == p)) [
        | inl e ↦
            let q : i ≡ p = (==_iff i p).0 e in
            let apart : (j : NodeId) → 0 < ids j x + ids j y → j ≢ p =
              λ j k. rw (← q) (below-ne i o' r' x y j (uniq i) k) in
            let fx : Rep m' x =
              frame m m' x (λ j k. same j (omega arith) (apart j (omega arith))) rx in
            let fy : Rep m' y =
              frame m m' y (λ j k. same j (omega arith) (apart j (omega arith))) ry in
            let (eo, er, ea, eb) = node-eq m i p o' o r' r (top x) (top y) a b q here at in
            rw (e, eo, er) (new x y ea eb fx fy)
        | inr e ↦ rw e (
          (same i (omega (arith, top-ids (fork i o' r' x y))) (==_ne i p e) ∙ here)
              ∙ ap₂ (λ u v. some (Node.split o' r' u v)) (sym (top-edit x p h keep))
                  (sym (top-edit y p h keep)),
          edit-Rep m m' x p h o r a b at (λ j k. same j (omega arith)) keep new
              (λ j. omega (arith, uniq j)) rx,
          edit-Rep m m' y p h o r a b at (λ j k. same j (omega arith)) keep new
              (λ j. omega (arith, uniq j)) ry,
        )
      ]

  -- A count that adds up over the tree changes as it does at the edited split.
  pub edit-weight :
      (t : Tree R) (q : PaneId) (p : NodeId) (side : Bool)
      → (h : Orientation → R → Tree R → Tree R → Tree R)
      → (w : Tree R → ℕ) (c : NodeId → ℕ) (less more : ℕ)
      → ((i : NodeId) (o : Orientation) (r : R) (x y : Tree R)
          → w (fork i o r x y) ≡ c i + w x + w y)
      → ((o : Orientation) (r : R) (x y : Tree R)
          → is_tip_of (pick side x y) q ≡ true
          → w (h o r x y) + less ≡ c p + w x + w y + more)
      → parent_of t q ≡ some (p, side)
      → ((j : NodeId) → ids j t ≤ 1)
      → w (edit p h t) + less ≡ w t + more
  edit-weight (tip i o) q p side h w c less more adds good e uniq = cc
  edit-weight (fork i o r x y) q p side h w c less more adds good e uniq = ground (
    arith,
    adds i o r x y,
    adds i o r (edit p h x) (edit p h y),
    good o r x y,
    uniq p,
    uniq i,
    edit-weight x q p side h w c less more adds good,
    edit-weight y q p side h w c less more adds good,
    edit-absent p h x,
    edit-absent p h y,
    parent_of-ids x q p side,
    parent_of-ids y q p side,
    ==_refl i,
  )
