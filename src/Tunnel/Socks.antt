-- ===== src/Tunnel/Socks.antt =====
-- `socks5_handshake` of app/src/remote/proxy_tunnel.rs.
use limux.Prelude.{
  join, ℕ, zero, suc, ◌+◌, ◌*◌, ◌/◌, ◌%◌, Option, none, some, List, [], ◌∷◌, ◌++◌, ltb, ◌==◌,
  if◌then◌else◌, Text, text, decimal, from_utf8,
}
use limux.Tunnel.Stream.{Io, ◌>>=◌, ◌>>◌, give, fail, read_exact, write_all}

-- The byte at an index of a buffer that is long enough.
abbrev pub byte_at : ℕ → List ℕ → ℕ
byte_at i [] = 0
byte_at zero (b ∷ bs) = b
byte_at (suc i) (b ∷ bs) = byte_at i bs

-- `u16::from_be_bytes`.
abbrev pub be16 : ℕ → ℕ → ℕ
be16 high low = high * 256 + low

-- `{:x}` of a `u16`; three divisions by 16 are enough.
abbrev pub hex_digit : ℕ → ℕ
hex_digit d = if ltb d 10 then 48 + d else 87 + d

unfoldable pub hex_digits : ℕ → ℕ → Text
hex_digits zero n = hex_digit n ∷ []
hex_digits (suc f) n =
    let rest = hex_digits f (n / 16) in
    if ltb n 16 then hex_digit n ∷ [] else rest ++ hex_digit (n % 16) ∷ []

unfoldable pub groups : List ℕ → List Text
groups [] = []
groups (a ∷ []) = []
groups (a ∷ b ∷ rest) = hex_digits 3 (be16 a b) ∷ groups rest

unfoldable pub dotted : List ℕ → Text
dotted addr =
    decimal (byte_at 0 addr)
    ++ (text "."
        ++ (decimal (byte_at 1 addr)
            ++ (text "." ++ (decimal (byte_at 2 addr) ++ (text "." ++ decimal (byte_at 3 addr))))))

abbrev pub decoded : Option Text → Io Text
decoded none = fail (text "invalid utf-8 sequence")
decoded (some host) = give host

unfoldable pub read_domain : Io Text
read_domain = do len ← read_exact 1; domain ← read_exact (byte_at 0 len); decoded (from_utf8 domain)

-- The host of the request, by its address type.
unfoldable pub read_host : ℕ → Io Text
read_host atyp =
    if atyp == 1
    then (do addr ← read_exact 4; give (dotted addr))
    else if atyp == 3
    then read_domain
    else if atyp == 4
    then (do addr ← read_exact 16; give (join (text ":") (groups addr)))
    else fail (text "unsupported SOCKS5 address type")

abbrev pub no_auth : List ℕ
no_auth = 5 ∷ 0 ∷ []

-- A reply with a bound address of 0.0.0.0:0.
abbrev pub reply : ℕ → List ℕ
reply rep = 5 ∷ rep ∷ 0 ∷ 1 ∷ 0 ∷ 0 ∷ 0 ∷ 0 ∷ 0 ∷ 0 ∷ []

unfoldable pub read_target : ℕ → Io (Text × ℕ)
read_target atyp = do
  host ← read_host atyp
  port_bytes ← read_exact 2
  give (host, be16 (byte_at 0 port_bytes) (byte_at 1 port_bytes))

-- The request, once the greeting is answered.
unfoldable pub read_request : Io (Text × ℕ)
read_request = do
  req_header ← read_exact 4
  if byte_at 1 req_header == 1
      then read_target (byte_at 3 req_header)
      else write_all (reply 7) >> fail (text "unsupported SOCKS5 command")

unfoldable pub socks5_handshake : Io (Text × ℕ)
socks5_handshake = do
  header ← read_exact 2
  if byte_at 0 header == 5
      then (read_exact (byte_at 1 header) >>= λ methods. write_all no_auth >> read_request)
      else fail (text "not SOCKS5")
