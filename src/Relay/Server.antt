-- ===== src/Relay/Server.antt =====
-- `handle_connection` of app/src/remote/relay.rs: the challenge, the check of the answer, and one
-- command forwarded to the socket. The client takes what is written to it.
use limux.Prelude.{
  Option, none, some, List, [], ◌∷◌, ◌++◌, if◌then◌else◌, ℕ, Text, text, same, trim, is_empty,
  as_bytes, Json, get_str, unwrap_or,
}
use limux.Relay.Hex.{hex_encode, constant_time_eq}
use limux.Relay.Translate.{translate_v2_to_v1, translate_v1_response_to_v2}

pub record RelayServer : Type 0 where
  pub relay_id : Text
  pub relay_token : List ℕ

-- What a connection does: lines to the client, and the command to the socket.
pub data Effect : Type 0 where
  write : Text → Effect
  forward : Text → Effect

-- The result of `read_line` under a time limit.
pub data Read : Type 0 where
  read : Text → Read
  timed_out read_failed : Read

abbrev pub newline : Text
newline = 10 ∷ []

unfoldable pub challenge : RelayServer → Text → Text
challenge server nonce =
    text "{\"protocol\":\"limux-relay-auth\",\"version\":1,\"relay_id\":\""
    ++ (server.relay_id ++ (text "\",\"nonce\":\"" ++ (nonce ++ (text "\"}" ++ newline))))

unfoldable pub auth_message : RelayServer → Text → Text
auth_message server nonce =
    text "relay_id="
    ++ (server.relay_id ++ (newline ++ (text "nonce=" ++ (nonce ++ (newline ++ text "version=1")))))

abbrev pub denied : List Effect
denied = write (text "{\"ok\":false}" ++ newline) ∷ []

abbrev pub granted : Effect
granted = write (text "{\"ok\":true}" ++ newline)

module _ (parse : Text → Option Json) (print : Json → Text) (hmac : List ℕ → Text → List ℕ)
    (socket : Text → Option Text) where
  -- The response to a command that the socket answered.
  unfoldable pub wrap_response : Option Json → Text → Text
  wrap_response none response = response
  wrap_response (some id) response = translate_v1_response_to_v2 print id response

  unfoldable pub run_command : Text → List Effect
  run_command cmd =
      let (socket_cmd, rpc_id) = translate_v2_to_v1 parse cmd in
      forward socket_cmd ∷ elim (socket socket_cmd) [
        | none ↦ []
        | some response ↦ write (wrap_response rpc_id response) ∷ []
      ]

  -- After the grant. An end of the input reads as a line that is empty.
  unfoldable pub on_command : Read → List Effect
  on_command timed_out = []
  on_command read_failed = []
  on_command (read line) = let cmd = trim line in if is_empty cmd then [] else run_command cmd

  -- The two tests on the client's answer.
  unfoldable pub on_response : RelayServer → Text → Json → Read → List Effect
  on_response server nonce response cmd_line =
      let client_relay_id = unwrap_or [] (get_str (text "relay_id") response) in
      let client_mac_hex = unwrap_or [] (get_str (text "mac") response) in
      let expected_hex = hex_encode (hmac server.relay_token (auth_message server nonce)) in
      if same client_relay_id server.relay_id
      then (if constant_time_eq (as_bytes client_mac_hex) (as_bytes expected_hex)
          then granted ∷ on_command cmd_line
          else denied)
      else denied

  unfoldable pub handle_connection : RelayServer → Text → Read → Read → List Effect
  handle_connection server nonce (read line) cmd_line =
      write (challenge server nonce) ∷ elim (parse (trim line)) [
        | none ↦ []
        | some response ↦ on_response server nonce response cmd_line
      ]
  handle_connection server nonce other cmd_line = write (challenge server nonce) ∷ []
