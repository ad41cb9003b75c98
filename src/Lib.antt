-- ===== src/Lib.antt =====
-- limux is a terminal for Linux: a GTK application in Rust around the ghostty engine, with
-- workspaces, split panes, tabs and remote sessions over ssh. This library models the parts of it
-- that decide what is shown and what is told to whom, and leaves the widgets, sockets and files
-- out.
--
-- The parts. A workspace holds a split tree of panes, and a pane holds tabs. The window's code
-- calls the tree and the pane for every split, close, move and change of focus; the tree knows
-- panes by their numbers alone. A workspace with a remote configuration takes a lease on a proxy
-- tunnel; the broker shares one tunnel among all leases with the same key. A file dropped on a
-- terminal is copied over the ssh session that is detected on the terminal's tty. A bell in a
-- workspace out of sight becomes a notification, if the limits allow.
--
-- Split and its children are about app/src/split.rs. Types has the node map, the root, the counter
-- of ids and the focus; Walk the reads, Edit the additions, Change the removals and moves, Merge
-- `merge`, Direction the geometry. A method on `&mut self` returns the new tree. Tree and Valid
-- say when a node map holds an abstract tree (Holds): the map has its nodes under its root, each
-- node id and each pane occurs once, and the counter is above all ids. Reads, Chain, Aim, Aimed
-- and Focus show what the reads return; Graft, Wrap, Beside, Grow, After, Insert, Splits and Panes
-- are about additions, and Prune, Unlink, Rewire, Remove and Closing about removals. Recursive
-- walks over node ids run on fuel, the counter of ids: a tree that the map holds has fewer nodes
-- than that, and the theorems on the walks have no fuel left to assume. The counter is a u32 and
-- wraps; the theorems that allocate ask for two free ids. The floats of ratios and rectangles are
-- a record of operations; the one theorem that compares distances asks that `<` orders those that
-- are numbers. Two calls that the code shares by copying text (`split` and `split_before`) are one
-- definition with a flag.
--
-- Workspace and its children are about app/src/workspace.rs (Pane, Colors, State) and the tab
-- bookkeeping and the order of workspaces in app/src/window.rs (Drag, Payload, Reorder, Order).
-- Tabs, Active, Moved, Shifted, Reordered, Carried, Transfer and Pinned have the theorems, and
-- Cuts the lists in two parts. Reorder takes what the guards ask of the widgets as functions and
-- leaves the calls to them out. Maps from numbers are association lists, so the order in which a
-- hash map yields its entries is one that is fixed but not otherwise used. State has the fields of
-- the workspace record that its own methods read.
--
-- Remote and its children are about app/src/remote. Broker is proxy_broker.rs: the entries behind
-- the mutex are an argument and a result, and the calls to tunnels, RPC clients, tasks and
-- callbacks are a list of effects. Each stretch of the tunnel task between two waits is one step,
-- so steps of different tasks and calls of `acquire` and `release` interleave freely in the
-- theorems of Counts and Leases. The delay between retries is in whole seconds. Config is
-- config.rs; Ssh and Detect are ssh_detect.rs, with what /proc holds as an argument. Feeding and
-- Arguments connect the two: what the first writes, the second reads. Newest and Found are about
-- the scan; Foreground, Programs and Processes say which processes it takes. Sharing follows a
-- tunnel from the announcement to the last lease. Transport has the key by which workspaces share
-- a tunnel; Sorted, Keys and Shared are about what it tells apart.
--
-- Limits and its children are about app/src/notify.rs, where Notify has the state and the limits
-- and Burst the histories, and about app/src/update.rs, where Update has the versions, the
-- interval and the prompt, and Versions the theorems. An instant is a number of nanoseconds since
-- the clock's start.
--
-- Ports and its children are about app/src/port_detect.rs: Proc has the readers of /proc, with
-- what its files hold as arguments, Descendants the walk from a process to its descendants, and
-- Scan attributes the listening ports to workspaces. Attribution and Reached have the theorems.
-- The walk runs on fuel, one for each process that it pops.
--
-- Session and its children are about app/src/session.rs and the functions of app/src/window.rs
-- that save and restore a layout: Snapshot and Restore have the two ways, and Restored the
-- theorem. Settings and its children are about app/src/settings.rs: Shortcuts has the preferences
-- and the shortcuts, and Merged the theorem. In Remote, Controller is controller.rs, with the
-- registry of threads and the loop of one cut where it waits, and Registry is about the former;
-- Shell is shell.rs, file_drop.rs and the quoting of pasted paths in app/src/window.rs, and
-- Quoting is about what a shell reads in them.
--
-- Tunnel and its children are about app/src/remote/proxy_tunnel.rs. Stream is the TCP stream: the
-- bytes that the peer sends before it closes, those written to it, and whether it takes any; a
-- step that fails leaves the stream as well. Socks and Connect are the two handshakes, and Session
-- a session with its calls of the daemon, where the two directions of the bridge are one sequence
-- of events. Handshake, Bounds, Head, Authority and Cleanup have the theorems. base64 is a
-- parameter.
--
-- Rpc and its children are about app/src/remote/rpc.rs. Client has the maps behind the mutexes,
-- the calls that wait and what calls returned in one state; a line that the reader task reads, a
-- time-out and a call up to its wait are steps. Settled and Answered have the theorems.
--
-- Relay and its children are about app/src/remote/relay.rs: Hex, Translate and Server, with the
-- parsing and printing of JSON, the HMAC and the nonce as parameters. Socket and its children are
-- about app/src/socket.rs: Lines has the buffering, Options and Commands the arguments and the
-- commands, Actions what they ask of the app, Dispatch the match. The relay's commands end at the
-- socket, and Lost and Typed are about the two together; Guarded is about who may send a command,
-- and Chunks about the buffering.
--
-- Prelude has the tests, lists, finite maps and texts that all parts share. A text that is walked
-- character by character is a list of code points; `to_lowercase` is exact for the letters whose
-- lower case is ASCII, which are all that the code compares with. Utf8 decodes and encodes bytes,
-- and Values has the JSON values. Each Tests module runs the theorems at concrete values.
--
-- Not modelled: widgets, the engine's foreign functions, processes, sockets, files and D-Bus, the
-- bootstrap of the remote daemon, and the files of sessions and preferences.
pub mod Prelude
pub mod Split
pub mod Workspace
pub mod Remote
pub mod Limits
pub mod Ports
pub mod Tunnel
pub mod Rpc
pub mod Relay
pub mod Socket
pub mod Settings
pub mod Session
