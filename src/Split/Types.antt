-- ===== src/Split/Types.antt =====
-- The data of app/src/split.rs: nodes in a map under their ids, the root, the id counter and focus.
use limux.Prelude.{ℕ, ◌+◌, Bool, Option, none, some, [], Map, insert, u32}

-- `f64`, as far as split.rs computes with it. Nothing is assumed of its rounding.
pub record Float64 (R : Type 0) : Type 0 where
  pub of_nat : ℕ → R
  pub half : R
  pub tenth : R
  pub thousandth : R
  pub add : R → R → R
  pub sub : R → R → R
  pub mul : R → R → R
  pub div : R → R → R
  pub abs : R → R
  pub le : R → R → Bool
  pub lt : R → R → Bool

abbrev pub PaneId : Type 0
PaneId = ℕ

abbrev pub NodeId : Type 0
NodeId = ℕ

pub data Orientation : Type 0 where
  horizontal vertical : Orientation

pub data Direction : Type 0 where
  up down left right : Direction

pub data Node (R : Type 0) : Type 0 where
  leaf : PaneId → Node R
  split : Orientation → R → NodeId → NodeId → Node R

pub record SplitTree (R : Type 0) : Type 0 where
  pub nodes : Map (Node R)
  pub root : Option NodeId
  pub next_id : ℕ
  pub focused : Option PaneId

module _ {R : Type 0} where
  -- `nodes.insert`.
  abbrev pub put : NodeId → Node R → SplitTree R → SplitTree R
  put id node t = record t { nodes = insert id node t.nodes }

  -- `alloc_id`: the counter is a `u32`.
  abbrev pub alloc_id : SplitTree R → NodeId × SplitTree R
  alloc_id t = (t.next_id, record t { next_id = u32 (t.next_id + 1) })

  unfoldable pub set_focused : SplitTree R → PaneId → SplitTree R
  set_focused t pane_id = record t { focused = some pane_id }

unfoldable pub new : (R : Type 0) → SplitTree R
new R = record { nodes = []; root = none; next_id = 0; focused = none }

unfoldable pub new_with_pane : (R : Type 0) → PaneId → SplitTree R
unfolding new
new_with_pane R pane_id =
    let (node_id, t) = alloc_id (new R) in
    record (put node_id (Node.leaf pane_id) t) { root = some node_id; focused = some pane_id }
