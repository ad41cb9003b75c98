-- ===== src/Relay/Lost.antt =====
-- `forward_to_socket` of app/src/remote/relay.rs with `handle_client` of app/src/socket.rs at the other
-- end: the command and the end of the input, both there when the callback runs.
use limux.Prelude.{ℕ, ◌≡◌, refl, ap, Option, some, List, [], ◌∷◌, ◌++◌, Text, as_bytes, Json, arith}
use limux.Socket.Lines.{chunk, closed, Connection, on_readable}
use limux.Socket.Chunks.{on_readable-closed}
use limux.Relay.Translate.{
  translate_v2_to_v1, response_value, plain_response, translate_v1_response_to_v2, answered,
}
use limux.Relay.Server.{write, forward, wrap_response, run_command, newline}

module _ {S : Type 0} (handle_command : S → Text → S × Text) where
  -- The app's state and the response that the relay reads.
  unfoldable pub forward_to_socket : S → Text → S × Text
  forward_to_socket s cmd =
      let c : Connection S = record { app = s; buf = []; out = [] } in
      let c' = (on_readable handle_command c (chunk (as_bytes cmd ++ newline) ∷ closed ∷ [])).0 in
      (c'.app, c'.out)

  forward_to_socket-lost : (s : S) (cmd : Text) → forward_to_socket s cmd ≡ (s, [])
  unfolding forward_to_socket
  forward_to_socket-lost s cmd =
      ap (λ r. (r.0.app, r.0.out))
        (on_readable-closed handle_command (record { app = s; buf = []; out = [] })
          (chunk (as_bytes cmd ++ newline) ∷ closed ∷ []) (omega arith) refl)

  module _ (parse : Text → Option Json) (print : Json → Text) (hmac : List ℕ → Text → List ℕ) where
    -- If the relay's command and its end of input are both there when the socket's callback runs,
    -- then for a request with an id the relay forwards the command and answers that it was carried
    -- out with an empty result, while the app's state is as before.
    pub run_command-lost :
        (s : S) (cmd socket_cmd : Text) (id : Json)
        → translate_v2_to_v1 parse cmd ≡ (socket_cmd, some id)
        → (run_command parse print hmac (λ t. some (forward_to_socket s t).1) cmd
            ≡ forward socket_cmd ∷ write (print (answered id []) ++ newline) ∷ [])
          × ((forward_to_socket s socket_cmd).0 ≡ s)
    unfolding run_command translate_v1_response_to_v2 response_value plain_response wrap_response
    run_command-lost s cmd socket_cmd id h =
        let gone = forward_to_socket-lost s socket_cmd in
        (rw (run_command, h, gone) refl, ap (λ r. r.0) gone)
