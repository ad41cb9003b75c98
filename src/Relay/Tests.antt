-- ===== src/Relay/Tests.antt =====
-- The theorems on the relay of app/src/remote/relay.rs at concrete connections.
use limux.Prelude.{
  Bool, true, false, none, ◌==◌, decimal, arith, ℕ, ◌+◌, ◌≡◌, refl, Option, some, not, ◌&&◌, List,
  [], ◌∷◌, ◌++◌, if◌then◌else◌, Text, text, same, trim, is_empty, as_bytes, Json, natural, string,
  object, field, no_field,
}
use limux.Relay.Translate.{
  translate_v2_to_v1, answered, translate_request, v2_method_to_v1, with_params, surface_arg,
  workspace_arg,
}
use limux.Relay.Server.{RelayServer, write, forward, read, newline, handle_connection, run_command}
use limux.Relay.Guarded.{forwarded, proves, forwarded-handle_connection}
use limux.Relay.Typed.{send_request, typed_response, on_readable-send}
use limux.Socket.Lines.{chunk, on_readable}
use limux.Socket.Actions
use limux.Socket.Dispatch.{handle_line}
use limux.Relay.Lost.{forward_to_socket, run_command-lost}

abbrev relay : RelayServer
relay = record { relay_id = text "r1"; relay_token = 7 ∷ [] }

-- A code of one byte, and JSON read as one of two known texts.
abbrev code : List ℕ → Text → List ℕ
code token message = 171 ∷ []

abbrev proof : Json
proof = object (
    field (text "relay_id") (string (text "r1")) (field (text "mac") (string (text "ab")) no_field))

abbrev list_request : Json
list_request = object (
    field (text "id") (natural 4) (field (text "method") (string (text "workspace.list")) no_field))

abbrev known : Text → Option Json
known t = if same t (text "{p}") then some proof else some list_request

abbrev socket : Text → Option Text
socket cmd = some (text "OK")

abbrev printed : Json → Text
printed v = text "{}"

forwarded-handle_connection_example :
    forwarded (
      handle_connection known printed code socket relay
        (text "n")
        (read (text "{p}"))
        (read (text "{c}")))
    ≡ (if proves known printed code socket relay (text "n") proof
          && not (is_empty (trim (text "{c}")))
        then (translate_v2_to_v1 known (trim (text "{c}"))).0 ∷ []
        else [])
unfolding as_bytes
forwarded-handle_connection_example =
    forwarded-handle_connection known printed code socket relay (text "n") (text "{p}") proof
      (text "{c}") refl refl refl

run_command-lost_example :
    (run_command known printed code
        (λ t. some (forward_to_socket (λ n c. (n + 1, text "OK")) 0 t).1)
        (text "{c}")
      ≡ forward (text "list_workspaces")
        ∷ write (printed (answered (natural 4) []) ++ newline)
        ∷ [])
    × ((forward_to_socket (λ n c. (n + 1, text "OK")) 0 (text "list_workspaces")).0 ≡ 0)
unfolding translate_v2_to_v1 translate_request v2_method_to_v1 with_params surface_arg workspace_arg
run_command-lost_example =
    run_command-lost (λ n c. (n + 1, text "OK")) known printed code 0 (text "{c}")
      (text "list_workspaces") (natural 4) refl

-- An app that counts the texts typed into its one surface, number 3.
abbrev try : Actions.Attempt → ℕ → ℕ × Bool
try (Actions.send_text surface typed) n = if surface == 3 then (n + 1, true) else (n, false)
try (Actions.select_workspace_by_id id) n = (n, false)
try (Actions.close_workspace_by_id id) n = (n, false)
try (Actions.focus_pane_by_id id) n = (n, false)

abbrev terminal : Actions.App ℕ ℕ
terminal = record {
  act = λ a n. n;
  try = try;
  new_remote_workspace = λ target n. (n, none);
  focused_workspace_id = λ n. none;
  current_workspace_info = λ n. none;
  workspace_count = λ n. 0;
  list_surfaces_detailed = λ n. [];
  list_workspaces_detailed = λ n. [];
  list_panes = λ id n. none;
  read_screen = λ id n. none;
  get_url = λ id n. none;
  is_enabled = λ n. true;
  remote_status_info = λ id n. none;
  version = text "1.0";
  debug = λ t. t;
  parse_f64 = λ t. none;
}

abbrev sends : Text → Option Json
sends t = some (send_request (natural 1) 3 (text "ls -l"))

on_readable-send_example :
    on_readable
      (handle_line terminal)
      (record { app = 0; buf = []; out = [] })
      (chunk (as_bytes (translate_v2_to_v1 sends (text "{s}")).0 ++ 10 ∷ []) ∷ [])
    ≡ (record { app = 1; buf = []; out = typed_response true }, true)
unfolding decimal
on_readable-send_example =
    on_readable-send terminal sends (text "{s}") (natural 1) 3 (text "ls -l") 0 refl refl
      (omega arith) (record { ascii = refl; single = refl; some_text = refl; no_tail = refl })
      (omega arith)
