-- ===== src/Tunnel/Connect.antt =====
-- `http_connect_handshake` of app/src/remote/proxy_tunnel.rs.
use limux.Prelude.{
  ℕ, none, some, Bool, true, false, ◌||◌, List, [], ◌∷◌, ◌++◌, length, ltb, if◌then◌else◌, Text,
  text, same, parse_uint, split_whitespace, first_line, eq_ignore_ascii_case, rsplit_once,
  from_utf8_lossy,
}
use limux.Tunnel.Stream.{TcpStream, Outcome, ok, err, Io}

abbrev pub crlf_crlf : List ℕ
crlf_crlf = 13 ∷ 10 ∷ 13 ∷ 10 ∷ []

-- Whether the buffer has four bytes or more, and these are its last.
unfoldable pub ends_head : List ℕ → Bool
ends_head [] = false
ends_head (b ∷ bs) = same (b ∷ bs) crlf_crlf || ends_head bs

-- The loop that reads byte after byte, from a buffer: the buffer with the blank line, and the
-- bytes that are left to read.
unfoldable pub read_head : List ℕ → List ℕ → Outcome (List ℕ) × List ℕ
read_head buf [] = (err (text "early eof"), [])
read_head buf (byte ∷ rest) =
    let pushed = buf ++ byte ∷ [] in
    elim (ends_head pushed) [
      | true ↦ (ok pushed, rest)
      | false ↦ elim (ltb 8192 (length pushed)) [
        | true ↦ (err (text "HTTP CONNECT request too large"), rest)
        | false ↦ read_head pushed rest
      ]
    ]

unfoldable pub parse_authority : Text → Outcome (Text × ℕ)
parse_authority authority = elim (rsplit_once 58 authority) [
  | some (host, digits) ↦ elim (parse_uint 65535 digits) [
    | none ↦ err (text "invalid port in CONNECT: " ++ authority)
    | some port ↦ ok (host, port)
  ]
  | none ↦ ok (authority, 443)
]

-- The target, from the words of the first line.
unfoldable pub parse_request : Text → List Text → Outcome (Text × ℕ)
parse_request line (method ∷ authority ∷ rest) =
    if eq_ignore_ascii_case method (text "CONNECT")
    then parse_authority authority
    else err (text "not an HTTP CONNECT request: " ++ line)
parse_request line parts = err (text "not an HTTP CONNECT request: " ++ line)

unfoldable pub on_head : TcpStream → Outcome (List ℕ) × List ℕ → Outcome (Text × ℕ) × TcpStream
on_head s (err e, rest) = (err e, record s { incoming = rest })
on_head s (ok buf, rest) =
    let line = first_line (from_utf8_lossy buf) in
    (parse_request line (split_whitespace line), record s { incoming = rest })

unfoldable pub http_connect_handshake : Io (Text × ℕ)
http_connect_handshake s = on_head s (read_head [] s.incoming)
