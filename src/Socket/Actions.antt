-- ===== src/Socket/Actions.antt =====
-- What the commands of app/src/socket.rs ask of the window, the browsers and the notifications.
use limux.Prelude.{ℕ, Option, Bool, List, Text}
use limux.Split.Types.{Orientation}
use limux.Remote.Config.{RemoteConfiguration}
use limux.Workspace.Colors.{WorkspaceColor, LogLevel}

-- An `i32`; `negative n` is -n.
pub data I32 : Type 0 where
  positive negative : ℕ → I32

-- Calls that return nothing. A progress is a float of type F.
pub data Action (F : Type 0) : Type 0 where
  new_workspace new_pane_tab toggle_sidebar : Action F
  set_workspace_color : ℕ → Option WorkspaceColor → Action F
  toggle_workspace_pinned : ℕ → Action F
  split_focused : Orientation → Action F
  set_workspace_status :
      (ws_id : ℕ) (key value : Text) (icon color : Option Text) (priority : I32) → Action F
  clear_workspace_status : ℕ → Text → Action F
  set_workspace_progress : ℕ → F → Option Text → Action F
  clear_workspace_progress clear_workspace_log : ℕ → Action F
  add_workspace_log : ℕ → Text → LogLevel → Action F
  rename_workspace : ℕ → Text → Action F
  split_focused_browser : (url : Text) → Action F
  navigate_to evaluate_js : ℕ → Text → Action F
  go_back go_forward reload : ℕ → Action F
  notifications : (enabled : Bool) → Action F
  disconnect_remote : Option ℕ → (clear : Bool) → Action F
  reconnect_remote : Option ℕ → Action F

-- Calls that answer whether they did it.
pub data Attempt : Type 0 where
  select_workspace_by_id close_workspace_by_id focus_pane_by_id : ℕ → Attempt
  send_text : (surface : ℕ) → Text → Attempt

-- A workspace as `list_workspaces_detailed` tells of it.
pub record WorkspaceEntry : Type 0 where
  pub id : ℕ
  pub title : Text
  pub panes : ℕ
  pub pinned : Bool
  pub color : Option Text

-- The app behind the socket, with a state of type S.
pub record App (S F : Type 0) : Type 0 where
  pub act : Action F → S → S
  pub try : Attempt → S → S × Bool
  pub new_remote_workspace : RemoteConfiguration → S → S × Option ℕ
  pub focused_workspace_id : S → Option ℕ
  pub current_workspace_info : S → Option (ℕ × Text)
  pub workspace_count : S → ℕ
  pub list_surfaces_detailed : S → List Text
  pub list_workspaces_detailed : S → List WorkspaceEntry
  pub list_panes : ℕ → S → Option (List ℕ)
  pub read_screen : ℕ → S → Option Text
  pub get_url : ℕ → S → Option Text
  pub is_enabled : S → Bool
  pub remote_status_info : Option ℕ → S → Option Text
  -- the version of the package, `{:?}` of a title, and `parse` of a float
  pub version : Text
  pub debug : Text → Text
  pub parse_f64 : Text → Option F
