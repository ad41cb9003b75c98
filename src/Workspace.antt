-- ===== src/Workspace.antt =====
-- Panes, tabs and workspaces: app/src/workspace.rs.
pub mod Pane
pub mod Drag
pub mod Tabs
pub mod Active
pub mod Colors
pub mod State
pub mod Order
pub mod Reorder
pub mod Moved
pub mod Cuts
pub mod Shifted
pub mod Reordered
pub mod Carried
pub mod Transfer
pub mod Pinned
pub mod Payload
pub mod Tests
