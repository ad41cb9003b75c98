-- ===== src/Split/Panes.antt =====
-- What `split` and `split_before` of app/src/split.rs do to the list of panes.
use limux.Prelude.{◌+◌, ◌^◌, ◌<◌, ◌≡◌, ◌∙◌, sym, ap, true, false, [], ◌∷◌}
use limux.Split.Types.{Float64, PaneId, Orientation, SplitTree}
use limux.Split.Walk.{panes}
use limux.Split.Tree.{Tree, count_pane}
use limux.Split.Graft.{spread}
use limux.Split.Valid.{Holds, panes-Holds}
use limux.Split.Edit.{split, split_before}
use limux.Split.Splits.{Beside, split_at-Beside}

module _ {R : Type 0} ⦃fl : Float64 R⦄ where
  -- On a well-formed tree, while the id counter is at least two below its wrap-around, `split` of a
  -- pane that is in the tree by a new pane that is not returns an id and a well-formed tree, whose
  -- panes are those of before in their order with the new one right behind the given one, and the
  -- new pane has the focus.
  pub split-Beside :
      (t : SplitTree R) (s : Tree R) (q new : PaneId) (o : Orientation)
      → Holds t s
      → count_pane q s ≡ 1
      → count_pane new s ≡ 0
      → t.next_id + 2 < 2 ^ 32
      → Beside false s q new (split t q new o)
  unfolding split
  split-Beside t s q new o v here absent small =
      split_at-Beside false t s q new o v here absent small

  -- On a well-formed tree, while the id counter is at least two below its wrap-around,
  -- `split_before` of a pane that is in the tree by a new pane that is not turns the list of panes
  -- into the one with the new pane right before the given one.
  pub split_before-panes :
      (t : SplitTree R) (s : Tree R) (q new : PaneId) (o : Orientation)
      → Holds t s
      → count_pane q s ≡ 1
      → count_pane new s ≡ 0
      → t.next_id + 2 < 2 ^ 32
      → panes (split_before t q new o).0 ≡ spread q (new ∷ q ∷ []) (panes t)
  unfolding split_before
  split_before-panes t s q new o v here absent small =
      let b = split_at-Beside true t s q new o v here absent small in
      panes-Holds (split_before t q new o).0 b.tree b.holds
      ∙ b.order
      ∙ ap (spread q (new ∷ q ∷ [])) (sym (panes-Holds t s v))
