-- ===== src/Relay/Translate.antt =====
-- The translation between JSON-RPC and the commands of the socket in app/src/remote/relay.rs. Parsing
-- and printing JSON is serde_json's.
use limux.Prelude.{
  ℕ, Option, none, some, Bool, true, false, ◌||◌, [], ◌∷◌, ◌++◌, ◌==◌, if◌then◌else◌, or_else, Text,
  text, same, starts_with, strip_prefix, trim, is_empty, cut, decimal, Json, null, boolean, string,
  object, no_field, field, get, get_str, get_u64, unwrap_or,
}

unfoldable pub v2_method_to_v1 : Text → Option Text
v2_method_to_v1 method =
    if same method (text "workspace.list")
    then some (text "list_workspaces")
    else if same method (text "workspace.create")
    then some (text "new_workspace")
    else if same method (text "workspace.close")
    then some (text "close_workspace")
    else if same method (text "workspace.select")
    then some (text "select_workspace")
    else if same method (text "workspace.current")
    then some (text "current_workspace")
    else if same method (text "surface.list")
    then some (text "list_surfaces")
    else if same method (text "surface.focus")
    then some (text "focus_pane")
    else if same method (text "surface.send_text")
    then some (text "send")
    else if same method (text "surface.close")
    then some (text "close_surface")
    else if same method (text "surface.split")
    then some (text "split_right")
    else if same method (text "pane.list")
    then some (text "list_panes")
    else if same method (text "pane.create")
    then some (text "split_right")
    else if same method (text "notification.create")
    then some (text "log")
    else if same method (text "system.capabilities")
    then some (text "version")
    else none

-- `push(' ')` and `push_str`, where there is something to push.
abbrev pub push_arg : Option Text → Text → Text
push_arg none cmd = cmd
push_arg (some arg) cmd = cmd ++ 32 ∷ arg

abbrev pub shown : Option ℕ → Option Text
shown none = none
shown (some n) = some (decimal n)

unfoldable pub workspace_arg : Json → Option Text
workspace_arg params =
    or_else (get_str (text "workspace") params) (shown (get_u64 (text "workspace") params))

unfoldable pub surface_arg : Json → Option Text
surface_arg params = or_else (get_str (text "surface") params) (get_str (text "surface_id") params)

abbrev pub goes_down : Option Text → Bool
goes_down none = false
goes_down (some direction) = same direction (text "down") || same direction (text "bottom")

-- The command with the parameters as arguments.
unfoldable pub with_params : Text → Json → Text
with_params v1_cmd params =
    let with_workspace = push_arg (workspace_arg params) v1_cmd in
    let with_surface = push_arg (surface_arg params) with_workspace in
    let with_text = push_arg (get_str (text "text") params) with_surface in
    let with_name = push_arg (get_str (text "name") params) with_text in
    if goes_down (get_str (text "direction") params) then text "split_down" else with_name

-- A request that has been parsed; `original` is its text.
unfoldable pub translate_request : Text → Json → Text × Option Json
translate_request original parsed = elim (get_str (text "method") parsed) [
  | none ↦ (original, none)
  | some method ↦ elim (v2_method_to_v1 method) [
    | none ↦ (original, get (text "id") parsed)
    | some v1_cmd ↦
        (with_params v1_cmd (unwrap_or null (get (text "params") parsed)), get (text "id") parsed)
  ]
]

unfoldable pub translate_v2_to_v1 : (Text → Option Json) → Text → Text × Option Json
translate_v2_to_v1 parse cmd =
    if starts_with (text "{") cmd
    then elim (parse cmd) [ none ↦ (cmd, none) | some parsed ↦ translate_request cmd parsed ]
    else (cmd, none)

-- The responses in JSON.
abbrev pub accepted : Json → Json
accepted id = object (field (text "id") id (field (text "ok") (boolean true) no_field))

abbrev pub answered : Json → Text → Json
answered id result = object (
    field (text "id") id
      (field (text "ok") (boolean true) (field (text "result") (string result) no_field)))

abbrev pub refused : Json → Text → Json
refused id message = object (
    field (text "id") id (
      field (text "ok") (boolean false) (
        field (text "error") (object (field (text "message") (string message) no_field)) no_field)))

abbrev pub bare_ok : Json → Text → Json
bare_ok id rest = if is_empty rest then accepted id else answered id rest

-- A response that is not of the length-prefixed form.
unfoldable pub plain_response : Json → Text → Json
plain_response id trimmed = elim (strip_prefix (text "OK") trimmed) [
  | some rest ↦ bare_ok id (trim rest)
  | none ↦ elim (strip_prefix (text "ERROR:") trimmed) [
    | some e ↦ refused id (trim e)
    | none ↦ answered id trimmed
  ]
]

unfoldable pub response_value : Json → Text → Json
response_value id response =
    let trimmed = trim response in
    if starts_with (text "OK+") trimmed
    then elim (cut (λ c. c == 10) trimmed).1 [
      | some rest ↦ answered id rest
      | none ↦ plain_response id trimmed
    ]
    else plain_response id trimmed

unfoldable pub translate_v1_response_to_v2 : (Json → Text) → Json → Text → Text
translate_v1_response_to_v2 print id response = print (response_value id response) ++ 10 ∷ []
