-- ===== src/Split.antt =====
-- The split tree of a workspace: app/src/split.rs.
pub mod Types
pub mod Walk
pub mod Edit
pub mod Change
pub mod Tree
pub mod Reads
pub mod Graft
pub mod Frame
pub mod Valid
pub mod Grow
pub mod Chain
pub mod Leaf
pub mod Prune
pub mod Unlink
pub mod Rewire
pub mod Remove
pub mod Closing
pub mod Focus
pub mod Merge
pub mod Direction
pub mod Aim
pub mod Aimed
pub mod Wrap
pub mod Beside
pub mod Splits
pub mod After
pub mod Insert
pub mod Panes
pub mod Tests
