-- ===== src/Split/Tests.antt =====
-- The theorems on the split tree of app/src/split.rs at a tree of three panes.
use limux.Prelude.{
  ℕ, ◌+◌, ◌-◌, ◌*◌, ◌/◌, ◌≡◌, true, false, some, [], ◌∷◌, ltb, leb, arith, refl, length, lookup,
}
use limux.Split.Types.{Float64, horizontal, vertical, right, Node, SplitTree}
use limux.Split.Walk.{panes}
use limux.Split.Edit.{split, split_before}
use limux.Split.Tree.{Tree, tip, fork, leaves}
use limux.Split.Graft.{spread}
use limux.Split.Valid.{Holds}
use limux.Split.Splits.{Beside}
use limux.Split.Insert.{Behind, anchor, insert_pane_after_focused-Behind}
use limux.Split.Edit.{insert_pane_after_focused}
use limux.Split.Change.{remove}
use limux.Split.Walk.{equalize_chain}
use limux.Split.Closing.{Closed, remove-Closed}
use limux.Split.Chain.{chain, equalize_chain-Holds}
use limux.Split.Direction.{navigate_directional}
use limux.Split.Aim.{rects, full, Ordered}
use limux.Split.Aimed.{Aimed, halves, lies_toward, offset, navigate_directional-Aimed}
use limux.Split.Panes.{split-Beside, split_before-panes}

-- Numbers in thousandths in place of the floats.
instance thousandths : Float64 ℕ
thousandths = record {
  of_nat = λ n. n * 1000;
  half = 500;
  tenth = 100;
  thousandth = 1;
  add = λ a b. a + b;
  sub = λ a b. a - b;
  mul = λ a b. a * b / 1000;
  div = λ a b. a * 1000 / b;
  abs = λ a. a;
  le = leb;
  lt = ltb;
}

abbrev three : SplitTree ℕ
three = record {
  nodes =
      (0, Node.leaf 10)
      ∷ (1, Node.leaf 11)
      ∷ (2, Node.split horizontal 500 0 4)
      ∷ (3, Node.leaf 12)
      ∷ (4, Node.split vertical 500 1 3)
      ∷ [];
  root = some 2;
  next_id = 5;
  focused = some 10;
}

abbrev three_tree : Tree ℕ
three_tree = fork 2 horizontal 500 (tip 0 10) (fork 4 vertical 500 (tip 1 11) (tip 3 12))

three-Holds : Holds three three_tree
unfolding lookup
three-Holds = record {
  at_root = refl;
  rep = (refl, refl, (refl, refl, refl));
  uniq = λ j. ground arith;
  once = λ q. ground arith;
  fresh = λ j h. ground arith;
  sized = omega arith;
}

split-Beside_example : Beside false three_tree 11 20 (split three 11 20 vertical)
split-Beside_example =
    split-Beside three three_tree 11 20 vertical three-Holds refl refl (omega arith)

split_before-panes_example :
    panes (split_before three 11 20 vertical).0 ≡ spread 11 (20 ∷ 11 ∷ []) (panes three)
split_before-panes_example =
    split_before-panes three three_tree 11 20 vertical three-Holds refl refl (omega arith)

insert_pane_after_focused-Behind_example :
    let out = insert_pane_after_focused three 20 horizontal in
    (out.1 ≡ true) × Behind three_tree (anchor (some 10) three_tree) 20 out.0
insert_pane_after_focused-Behind_example =
    insert_pane_after_focused-Behind three three_tree 20 horizontal three-Holds refl (omega arith)

remove-Closed_example : Closed three three_tree 10 (remove three 10)
remove-Closed_example =
    remove-Closed three 2 horizontal 500 (tip 0 10) (fork 4 vertical 500 (tip 1 11) (tip 3 12)) 10
      three-Holds refl

equalize_chain-Holds_example :
    Holds (equalize_chain three) (chain (length (leaves three_tree)) three_tree)
equalize_chain-Holds_example = equalize_chain-Holds three three_tree three-Holds

thousandths-Ordered : Ordered {R = ℕ} (λ a. Unit {0})
unfolding thousandths
thousandths-Ordered = record {
  irreflexive = λ a. ground arith;
  transitive = λ a b c h k. ground arith;
  comparable = λ a b c n h k. ground arith;
}

navigate_directional-Aimed_example :
    Aimed lies_toward offset three 10 right
      (rects halves three_tree full)
      (record { x = 0; y = 0; w = 500; h = 1000 })
      (navigate_directional three right)
unfolding thousandths
navigate_directional-Aimed_example =
    navigate_directional-Aimed (λ a. Unit {0}) thousandths-Ordered three three_tree 10 right 10
      (record { x = 0; y = 0; w = 500; h = 1000 }) three-Holds refl refl (tt, (tt, (tt, tt)))
