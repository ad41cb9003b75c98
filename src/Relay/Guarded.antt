-- ===== src/Relay/Guarded.antt =====
-- What a connection to the relay of app/src/remote/relay.rs may do, by what its client proves.
use limux.Prelude.{
  ℕ, ◌≡◌, refl, ap, ◌∙◌, inl, inr, Option, some, Bool, true, ◌&&◌, not, List, [], ◌∷◌, ◌++◌,
  if◌then◌else◌, Bool-cases, Option-cases, Text, text, same, trim, is_empty, as_bytes, Json,
  get_str, unwrap_or, arith,
}
use limux.Relay.Hex.{hex_encode, constant_time_eq-same, all_bytes}
use limux.Relay.Server.{
  RelayServer, Effect, write, forward, Read, read, auth_message, denied, granted, run_command,
  on_command, on_response, handle_connection,
}
use limux.Relay.Translate.{translate_v2_to_v1}

-- The commands that reach the socket.
abbrev pub forwarded : List Effect → List Text
forwarded [] = []
forwarded (write t ∷ es) = forwarded es
forwarded (forward cmd ∷ es) = cmd ∷ forwarded es

-- The text that a client signs: the relay's id, the nonce of the challenge and the version.
abbrev pub signed_text : RelayServer → Text → Text
signed_text server nonce =
    text "relay_id=" ++ (server.relay_id ++ (text "\nnonce=" ++ (nonce ++ text "\nversion=1")))

-- The digits of `hex_encode` are ASCII.
hex_encode-bytes : (bs : List ℕ) → all_bytes bs ≡ true → all_bytes (as_bytes (hex_encode bs)) ≡ true
unfolding hex_encode as_bytes
hex_encode-bytes [] h = refl
hex_encode-bytes (b ∷ bs) h = ground (arith, hex_encode-bytes bs)

module _ (parse : Text → Option Json) (print : Json → Text) (hmac : List ℕ → Text → List ℕ)
    (socket : Text → Option Text) where
  -- The answer names the relay and has the code of the challenge under the relay's token.
  abbrev pub proves : RelayServer → Text → Json → Bool
  proves server nonce response =
      same (unwrap_or [] (get_str (text "relay_id") response)) server.relay_id
      && same (as_bytes (unwrap_or [] (get_str (text "mac") response)))
          (as_bytes (hex_encode (hmac server.relay_token (signed_text server nonce))))

  on_response-guarded :
      (server : RelayServer) (nonce : Text) (response : Json) (cmd_line : Read)
      → all_bytes (as_bytes (unwrap_or [] (get_str (text "mac") response))) ≡ true
      → all_bytes (hmac server.relay_token (signed_text server nonce)) ≡ true
      → on_response parse print hmac socket server nonce response cmd_line ≡ (
          if proves server nonce response
          then granted ∷ on_command parse print hmac socket cmd_line
          else denied)
  unfolding on_response auth_message
  on_response-guarded server nonce response cmd_line h k =
      let expected = hmac server.relay_token (signed_text server nonce) in
      let eq =
        constant_time_eq-same (as_bytes (unwrap_or [] (get_str (text "mac") response)))
          (as_bytes (hex_encode expected)) h (hex_encode-bytes expected k) in
      elim (Bool-cases (same (unwrap_or [] (get_str (text "relay_id") response)) server.relay_id)) [
        | inl e ↦ rw (on_response, auth_message, e, eq) refl
        | inr e ↦ rw (on_response, e) refl
      ]

  forwarded-on_command :
      (cmd : Text)
      → forwarded (on_command parse print hmac socket (read cmd))
        ≡ (if is_empty (trim cmd) then [] else (translate_v2_to_v1 parse (trim cmd)).0 ∷ [])
  unfolding on_command run_command
  forwarded-on_command cmd = elim (Bool-cases (is_empty (trim cmd))) [
    | inl e ↦ rw (on_command, e) refl
    | inr e ↦
        rw (on_command, e)
          (elim (Option-cases (socket (translate_v2_to_v1 parse (trim cmd)).0)) [
            | inl f ↦ rw (run_command, f) refl
            | inr (r, f) ↦ rw (run_command, f) refl
          ])
  ]

  -- A connection whose answer to the challenge is JSON, and whose codes are bytes, has its command
  -- forwarded to the socket, translated and once, exactly when the answer names the relay and
  -- carries the code of the challenge under the relay's token, and the command is not blank;
  -- otherwise nothing is forwarded.
  pub forwarded-handle_connection :
      (server : RelayServer) (nonce line : Text) (response : Json) (cmd : Text)
      → parse (trim line) ≡ some response
      → all_bytes (as_bytes (unwrap_or [] (get_str (text "mac") response))) ≡ true
      → all_bytes (hmac server.relay_token (signed_text server nonce)) ≡ true
      → forwarded (handle_connection parse print hmac socket server nonce (read line) (read cmd))
        ≡ (if proves server nonce response && not (is_empty (trim cmd))
            then (translate_v2_to_v1 parse (trim cmd)).0 ∷ []
            else [])
  unfolding handle_connection
  forwarded-handle_connection server nonce line response cmd parsed h k =
      rw (handle_connection, parsed)
        (ap forwarded (on_response-guarded server nonce response (read cmd) h k)
          ∙ elim (Bool-cases (proves server nonce response)) [
            | inl e ↦ rw e (forwarded-on_command cmd ∙ ground arith)
            | inr e ↦ rw e refl
          ])
