-- ===== src/Split/Merge.antt =====
-- `merge` and `remap_node` of app/src/split.rs. Each loop over a node map follows the order of the
-- association list; `HashMap` promises no order.
use limux.Prelude.{Option, none, some, [], ◌∷◌, Map, lookup, insert, max, head?}
use limux.Split.Types.{NodeId, Orientation, Node, SplitTree, put, alloc_id, new}
use limux.Split.Walk.{panes}

-- `remap.get(id).copied().unwrap_or(id)`.
abbrev pub renamed : Map NodeId → NodeId → NodeId
renamed remap id = elim (lookup id remap) [ none ↦ id | some id' ↦ id' ]

module _ {R : Type 0} where
  unfoldable pub remap_node : Node R → Map NodeId → Node R
  remap_node (Node.leaf p) remap = Node.leaf p
  remap_node (Node.split o r a b) remap = Node.split o r (renamed remap a) (renamed remap b)

  -- The first loop over a tree: a new id for every old one.
  unfoldable pub remap_ids : Map (Node R) → Map NodeId → SplitTree R → Map NodeId × SplitTree R
  remap_ids [] remap t = (remap, t)
  remap_ids ((old_id, node) ∷ m) remap t =
      let (new_id, t') = alloc_id t in remap_ids m (insert old_id new_id remap) t'

  -- The second loop: every node under its new id. The lookup finds what the first loop inserted.
  unfoldable pub insert_remapped : Map (Node R) → Map NodeId → SplitTree R → SplitTree R
  unfolding remap_node
  insert_remapped [] remap t = t
  insert_remapped ((old_id, node) ∷ m) remap t =
      insert_remapped m remap (put (renamed remap old_id) (remap_node node remap) t)

  unfoldable pub take_over : SplitTree R → SplitTree R → Map NodeId × SplitTree R
  unfolding remap_ids insert_remapped
  take_over from t =
      let (remap, t') = remap_ids from.nodes [] t in (remap, insert_remapped from.nodes remap t')

  abbrev pub remapped_root : SplitTree R → Map NodeId → Option NodeId
  remapped_root from remap = elim from.root [ none ↦ none | some r ↦ lookup r remap ]

  abbrev pub join_roots :
      Option NodeId → Option NodeId → Orientation → R → SplitTree R → SplitTree R
  join_roots (some fr) (some sr) o ratio t =
      let (root_id, t') = alloc_id t in
      record (put root_id (Node.split o ratio fr sr) t') { root = some root_id }
  join_roots (some fr) none o ratio t = record t { root = some fr }
  join_roots none (some sr) o ratio t = record t { root = some sr }
  join_roots none none o ratio t = t

  unfoldable pub merge : SplitTree R → SplitTree R → Orientation → R → SplitTree R
  unfolding new take_over panes
  merge first second o ratio =
      let t0 = record (new R) { next_id = max first.next_id second.next_id } in
      let (first_remap, t1) = take_over first t0 in
      let (second_remap, t2) = take_over second t1 in
      let t3 =
        join_roots (remapped_root first first_remap) (remapped_root second second_remap) o ratio
          t2 in
      record t3 { focused = head? (panes t3) }
