-- ===== src/Socket/Dispatch.antt =====
-- The match of `handle_command` in app/src/socket.rs.
use limux.Prelude.{
  Option, none, some, Bool, true, false, ◌||◌, ◌==◌, List, [], ◌∷◌, ◌++◌, if◌then◌else◌, Text, text,
  same, trim, cut, decimal, map, split_whitespace, unwrap_or,
}
use limux.Split.Types.{horizontal, vertical}
use limux.Socket.Options.{Response, value, lines, failure, response_text}
use limux.Socket.Actions
use limux.Socket.Commands

module _ {S F : Type 0} (app : Actions.App S F) where
  -- The commands on workspaces and splits.
  unfoldable pub workspace_command : Text → Text → Option (S → S × Response)
  workspace_command command args =
      if same command (text "ping")
      then some (λ s. (s, value (text "pong")))
      else if same command (text "version")
      then some (λ s. (s, value (text "limux " ++ app.version)))
      else if same command (text "list_surfaces")
      then some (λ s. (s, Commands.listing (app.list_surfaces_detailed s)))
      else if same command (text "new_workspace") || same command (text "new_tab")
      then some (Commands.acts app Actions.new_workspace)
      else if same command (text "new_pane_tab")
      then some (Commands.acts app Actions.new_pane_tab)
      else if same command (text "workspace_count") || same command (text "tab_count")
      then some (λ s. (s, value (decimal (app.workspace_count s))))
      else if same command (text "list_workspaces")
      then some (λ s.
        (s, Commands.listing (map (Commands.workspace_line app) (app.list_workspaces_detailed s))))
      else if same command (text "workspace_set_color")
      then some (Commands.set_color app args)
      else if same command (text "workspace_pin")
      then some (
          Commands.with_u32 app (text "workspace id") args
            λ id. Commands.acts app (Actions.toggle_workspace_pinned id))
      else if same command (text "toggle_sidebar")
      then some (Commands.acts app Actions.toggle_sidebar)
      else if same command (text "split_right")
      then some (Commands.acts app (Actions.split_focused horizontal))
      else if same command (text "split_down")
      then some (Commands.acts app (Actions.split_focused vertical))
      else none

  -- The commands on the metadata of the focused workspace.
  unfoldable pub metadata_command : Text → Text → Option (S → S × Response)
  metadata_command command args =
      if same command (text "set_status")
      then some (Commands.set_status app args)
      else if same command (text "clear_status")
      then some (Commands.clear_status app args)
      else if same command (text "set_progress")
      then some (Commands.set_progress app args)
      else if same command (text "clear_progress")
      then some
          (Commands.with_focused app λ id. Commands.acts app (Actions.clear_workspace_progress id))
      else if same command (text "log")
      then some (Commands.log app args)
      else if same command (text "clear_log")
      then some (Commands.with_focused app λ id. Commands.acts app (Actions.clear_workspace_log id))
      else none

  -- The commands that name a workspace or a pane.
  unfoldable pub management_command : Text → Text → Option (S → S × Response)
  management_command command args =
      if same command (text "select_workspace")
      then some (
          Commands.with_u32 app (text "workspace id") args λ id.
            Commands.tries app (Actions.select_workspace_by_id id) (text "workspace not found"))
      else if same command (text "close_workspace")
      then some (Commands.close_workspace app args)
      else if same command (text "current_workspace")
      then some (Commands.current_workspace app)
      else if same command (text "list_panes")
      then some (Commands.list_panes app args)
      else if same command (text "focus_pane")
      then some (
          Commands.with_u32 app (text "pane id") args
            λ id. Commands.tries app (Actions.focus_pane_by_id id) (text "pane not found"))
      else if same command (text "rename_workspace")
      then some (
          Commands.with_two app (text "rename_workspace <id> <name>") args λ id name.
            Commands.with_u32 app (text "workspace id") id
              λ ws_id. Commands.acts app (Actions.rename_workspace ws_id (trim name)))
      else none

  -- Terminal input and output.
  unfoldable pub terminal_command : Text → Text → Option (S → S × Response)
  terminal_command command args =
      if same command (text "send")
      then some (
          Commands.with_two app (text "send <surface_id> <text>") args λ id typed.
            Commands.with_u32 app (text "surface id") id
              λ sid. Commands.tries app (Actions.send_text sid typed) (text "surface not found"))
      else if same command (text "read_screen")
      then some (
          Commands.with_u32 app (text "surface id") args
            λ sid. Commands.shows app (text "surface not found") lines (app.read_screen sid))
      else none

  unfoldable pub browser_command : Text → Text → Option (S → S × Response)
  browser_command command args =
      if same command (text "open_browser")
      then some (Commands.acts app (Actions.split_focused_browser (trim args)))
      else if same command (text "navigate")
      then some (
          Commands.with_two app (text "navigate <browser_id> <url>") args λ id url.
            Commands.with_u32 app (text "browser_id") id
              λ b. Commands.acts app (Actions.navigate_to b (trim url)))
      else if same command (text "browser_back")
      then some (
          Commands.with_u32 app (text "browser_id") args λ b. Commands.acts app (Actions.go_back b))
      else if same command (text "browser_forward")
      then some (
          Commands.with_u32 app (text "browser_id") args
            λ b. Commands.acts app (Actions.go_forward b))
      else if same command (text "browser_reload")
      then some
          (Commands.with_u32 app (text "browser_id") args λ b. Commands.acts app (Actions.reload b))
      else if same command (text "get_url")
      then some (
          Commands.with_u32 app (text "browser_id") args
            λ b. Commands.shows app (text "browser not found") value (app.get_url b))
      else if same command (text "js_eval")
      then some (
          Commands.with_two app (text "js_eval <browser_id> <script>") args λ id script.
            Commands.with_u32 app (text "browser_id") id
              λ b. Commands.acts app (Actions.evaluate_js b script))
      else none

  abbrev pub status_word : Bool → Text
  status_word true = text "enabled"
  status_word false = text "disabled"

  unfoldable pub remote_command : Text → Text → Option (S → S × Response)
  remote_command command args =
      if same command (text "notify_enable")
      then some (Commands.acts app (Actions.notifications true))
      else if same command (text "notify_disable")
      then some (Commands.acts app (Actions.notifications false))
      else if same command (text "notify_status")
      then some (λ s. (s, value (status_word (app.is_enabled s))))
      else if same command (text "remote_connect")
      then some (Commands.remote_connect app args)
      else if same command (text "remote_disconnect")
      then some (Commands.remote_disconnect app args)
      else if same command (text "remote_reconnect")
      then some (
          Commands.acts app
            (Actions.reconnect_remote (Commands.first_u32 app (split_whitespace args))))
      else if same command (text "remote_status")
      then some (
          Commands.shows app (text "workspace not found or not remote") lines
            (app.remote_status_info (Commands.first_u32 app (split_whitespace args))))
      else none

  -- The first alternative that there is.
  abbrev pub first_of {ℓ} : {A : Type ℓ} → List (Option A) → A → A
  first_of [] d = d
  first_of (none ∷ os) d = first_of os d
  first_of (some a ∷ os) d = a

  unfoldable pub handle_command : Text → S → S × Response
  handle_command cmd =
      let command = (cut (λ c. c == 32) cmd).0 in
      let args = unwrap_or [] (cut (λ c. c == 32) cmd).1 in
      first_of
        (workspace_command command args
          ∷ metadata_command command args
          ∷ management_command command args
          ∷ terminal_command command args
          ∷ browser_command command args
          ∷ remote_command command args
          ∷ [])
        (λ s. (s, failure (text "unknown command: " ++ command)))

  -- As the connections of the socket call it.
  unfoldable pub handle_line : S → Text → S × Text
  handle_line s cmd = let (s', response) = handle_command cmd s in (s', response_text response)
