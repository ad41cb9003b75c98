-- ===== src/Split/Chain.antt =====
-- `equalize_chain` of app/src/split.rs and the ratios along the second children.
use limux.Prelude.{
  ℕ, zero, suc, ◌≤◌, ◌<◌, ◌≡◌, some, ◌++◌, Map, lookup, insert, lookup-insert, arith, refl, ◌∙◌,
  sym, ap, subst, length, length-append, if_ne, ==_refl,
}
use limux.Split.Types.{Float64, PaneId, NodeId, Orientation, Node, SplitTree}
use limux.Split.Walk.{panes, set_chain_ratios, equalize_chain}
use limux.Split.Tree.{Tree, tip, fork, top, ids, size, count_pane, leaves, Rep}
use limux.Split.Frame.{frame, frame-insert, below-ne}
use limux.Split.Valid.{Holds, panes-Holds}

module _ {R : Type 0} ⦃fl : Float64 R⦄ where
  -- The ratio 1/n at the root, 1/(n - 1) at its second child, and so on down to 1/2.
  abbrev pub chain : ℕ → Tree R → Tree R
  chain n (tip i p) = tip i p
  chain zero (fork i o r x y) = fork i o r x y
  chain (suc zero) (fork i o r x y) = fork i o r x y
  chain (suc (suc k)) (fork i o r x y) =
      fork i o (fl.div (fl.of_nat 1) (fl.of_nat (suc (suc k)))) x (chain (suc k) y)

  pub top-chain : (n : ℕ) (t : Tree R) → top (chain n t) ≡ top t
  top-chain n (tip i p) = refl
  top-chain zero (fork i o r x y) = refl
  top-chain (suc zero) (fork i o r x y) = refl
  top-chain (suc (suc k)) (fork i o r x y) = refl

  pub ids-chain : (n : ℕ) (t : Tree R) (j : NodeId) → ids j (chain n t) ≡ ids j t
  ids-chain n (tip i p) j = refl
  ids-chain zero (fork i o r x y) j = refl
  ids-chain (suc zero) (fork i o r x y) j = refl
  ids-chain (suc (suc k)) (fork i o r x y) j = omega (arith, ids-chain (suc k) y j)

  pub size-chain : (n : ℕ) (t : Tree R) → size (chain n t) ≡ size t
  size-chain n (tip i p) = refl
  size-chain zero (fork i o r x y) = refl
  size-chain (suc zero) (fork i o r x y) = refl
  size-chain (suc (suc k)) (fork i o r x y) = omega (arith, size-chain (suc k) y)

  pub count_pane-chain :
      (n : ℕ) (t : Tree R) (q : PaneId) → count_pane q (chain n t) ≡ count_pane q t
  count_pane-chain n (tip i p) q = refl
  count_pane-chain zero (fork i o r x y) q = refl
  count_pane-chain (suc zero) (fork i o r x y) q = refl
  count_pane-chain (suc (suc k)) (fork i o r x y) q = omega (arith, count_pane-chain (suc k) y q)

  pub leaves-chain : (n : ℕ) (t : Tree R) → leaves (chain n t) ≡ leaves t
  leaves-chain n (tip i p) = refl
  leaves-chain zero (fork i o r x y) = refl
  leaves-chain (suc zero) (fork i o r x y) = refl
  leaves-chain (suc (suc k)) (fork i o r x y) = ap (λ l. leaves x ++ l) (leaves-chain (suc k) y)

  abbrev retuned : ℕ → Orientation → NodeId → NodeId → Node R
  retuned k o a b = Node.split o (fl.div (fl.of_nat 1) (fl.of_nat (suc (suc k)))) a b

  set_chain_ratios-step :
      (k : ℕ) (m : Map (Node R)) (i : NodeId) (o : Orientation) (r : R) (a b : NodeId)
      → lookup i m ≡ some (Node.split o r a b)
      → set_chain_ratios m i (suc (suc k))
        ≡ set_chain_ratios (insert i (retuned k o a b) m) b (suc k)
  unfolding set_chain_ratios
  set_chain_ratios-step k m i o r a b h = rw (h, set_chain_ratios)

  set_chain_ratios-leaf :
      (n : ℕ) (m : Map (Node R)) (i : NodeId) (p : PaneId)
      → lookup i m ≡ some (Node.leaf p)
      → set_chain_ratios m i n ≡ m
  unfolding set_chain_ratios
  set_chain_ratios-leaf zero m i p h = refl
  set_chain_ratios-leaf (suc zero) m i p h = refl
  set_chain_ratios-leaf (suc (suc k)) m i p h = rw (h, set_chain_ratios)

  set_chain_ratios-other :
      (n : ℕ) (m : Map (Node R)) (t : Tree R) (j : NodeId)
      → Rep m t
      → ((i : NodeId) → ids i t ≤ 1)
      → ids j t ≡ 0
      → lookup j (set_chain_ratios m (top t) n) ≡ lookup j m
  unfolding set_chain_ratios
  set_chain_ratios-other zero m t j rep uniq out = refl
  set_chain_ratios-other (suc zero) m t j rep uniq out = refl
  set_chain_ratios-other (suc (suc k)) m (tip i p) j rep uniq out =
      rw (set_chain_ratios-leaf (suc (suc k)) m i p rep)
  set_chain_ratios-other (suc (suc k)) m (fork i o r x y) j (here, rx, ry) uniq out =
      let n = retuned k o (top x) (top y) in
      rw (set_chain_ratios-step k m i o r (top x) (top y) here) (
        set_chain_ratios-other (suc k) (insert i n m) y j
          (frame-insert i n m y (ground (arith, uniq i, ==_refl i)) ry) (λ l. omega (arith, uniq l))
          (omega arith)
        ∙ lookup-insert i j n m
        ∙ if_ne i j _ _ (ground arith))

  set_chain_ratios_small :
      (n : ℕ) (m : Map (Node R)) (t : Tree R)
      → n ≤ 1
      → Rep m t
      → Rep (set_chain_ratios m (top t) n) (chain n t)
  unfolding set_chain_ratios
  set_chain_ratios_small zero m (tip i p) h rep = rep
  set_chain_ratios_small zero m (fork i o r x y) h rep = rep
  set_chain_ratios_small (suc zero) m (tip i p) h rep = rep
  set_chain_ratios_small (suc zero) m (fork i o r x y) h rep = rep
  set_chain_ratios_small (suc (suc k)) m t h rep = absurd (omega arith)

  pub set_chain_ratios-Rep :
      (n : ℕ) (m : Map (Node R)) (t : Tree R)
      → Rep m t
      → ((i : NodeId) → ids i t ≤ 1)
      → Rep (set_chain_ratios m (top t) n) (chain n t)
  set_chain_ratios-Rep zero m t rep uniq = set_chain_ratios_small zero m t (omega arith) rep
  set_chain_ratios-Rep (suc zero) m t rep uniq = set_chain_ratios_small 1 m t (omega arith) rep
  set_chain_ratios-Rep (suc (suc k)) m (tip i p) rep uniq =
      rw (set_chain_ratios-leaf (suc (suc k)) m i p rep) rep
  set_chain_ratios-Rep (suc (suc k)) m (fork i o r x y) (here, rx, ry) uniq =
      let n = retuned k o (top x) (top y) in
      let uy : (l : NodeId) → ids l y ≤ 1 = λ l. omega (arith, uniq l) in
      let ry' : Rep (insert i n m) y =
        frame-insert i n m y (ground (arith, uniq i, ==_refl i)) ry in
      let keep : (j : NodeId)
          → ids j y ≡ 0
          → lookup j (set_chain_ratios (insert i n m) (top y) (suc k)) ≡ lookup j (insert i n m) =
        λ j out. set_chain_ratios-other (suc k) (insert i n m) y j ry' uy out in
      subst (λ m'. Rep m' (chain (suc (suc k)) (fork i o r x y)))
        (sym (set_chain_ratios-step k m i o r (top x) (top y) here))
        (
          keep i (ground (arith, uniq i, ==_refl i))
              ∙ lookup-insert i i n m
              ∙ (rw (==_refl i, top-chain (suc k) y)),
          frame m _ x
              (λ j h.
                keep j (omega (arith, uniq j))
                ∙ lookup-insert i j n m
                ∙ if_ne i j _ _ (λ e. below-ne i o r x y j (uniq i) (omega arith) (sym e)))
              rx,
          set_chain_ratios-Rep (suc k) (insert i n m) y ry' uy,
        )

  chain-Holds :
      (t : SplitTree R) (s : Tree R) (n : ℕ)
      → Holds t s
      → Holds (record t { nodes = set_chain_ratios t.nodes (top s) n }) (chain n s)
  chain-Holds t s n v = record {
    at_root = v.at_root ∙ ap some (sym (top-chain n s));
    rep = set_chain_ratios-Rep n t.nodes s v.rep v.uniq;
    uniq = λ j. omega (arith, ids-chain n s j, v.uniq j);
    once = λ q. omega (arith, count_pane-chain n s q, v.once q);
    fresh = λ j h. ids-chain n s j ∙ v.fresh j h;
    sized = omega (arith, size-chain n s, v.sized);
  }

  leaves_pos : (s : Tree R) → 0 < length (leaves s)
  leaves_pos (tip i p) = omega arith
  leaves_pos (fork i o r x y) =
      omega (arith, length-append (leaves x) (leaves y), leaves_pos x, leaves_pos y)

  leaves_fork :
      (i : NodeId) (o : Orientation) (r : R) (x y : Tree R) → 1 < length (leaves (fork i o r x y))
  leaves_fork i o r x y =
      omega (arith, length-append (leaves x) (leaves y), leaves_pos x, leaves_pos y)

  equalize_chain-step :
      (t : SplitTree R) (i : NodeId) (n : ℕ)
      → t.root ≡ some i
      → length (panes t) ≡ n
      → 1 < n
      → equalize_chain t ≡ record t { nodes = set_chain_ratios t.nodes i n }
  unfolding equalize_chain
  equalize_chain-step t i n h e l = ground arith

  equalize_chain-one : (t : SplitTree R) → length (panes t) ≡ 1 → equalize_chain t ≡ t
  unfolding equalize_chain
  equalize_chain-one t e = ground arith

  -- On a well-formed tree `equalize_chain` leaves the well-formed tree that has the same panes and
  -- splits, with the ratio one n-th at the root of a tree of n panes, one (n-1)-th at its second
  -- child, and so on down.
  pub equalize_chain-Holds :
      (t : SplitTree R) (s : Tree R)
      → Holds t s
      → Holds (equalize_chain t) (chain (length (leaves s)) s)
  equalize_chain-Holds t (tip i p) v =
      rw (equalize_chain-one t (ap length (panes-Holds t (tip i p) v))) v
  equalize_chain-Holds t (fork i o r x y) v =
      let s = fork i o r x y in
      rw
        (equalize_chain-step t i (length (leaves s)) v.at_root (ap length (panes-Holds t s v))
          (leaves_fork i o r x y))
        (chain-Holds t s (length (leaves s)) v)

  pub equalize_chain-focused : (t : SplitTree R) → (equalize_chain t).focused ≡ t.focused
  unfolding equalize_chain
  equalize_chain-focused t = ground arith

  pub equalize_chain-next_id : (t : SplitTree R) → (equalize_chain t).next_id ≡ t.next_id
  unfolding equalize_chain
  equalize_chain-next_id t = ground arith
