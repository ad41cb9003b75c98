-- ===== src/Tunnel/Handshake.antt =====
-- SOCKS5 requests as a client writes them, and what `socks5_handshake` makes of them.
use limux.Prelude.{
  join, ℕ, ◌/◌, ◌%◌, ◌≡◌, refl, ap, inl, inr, Bool, true, List, [], ◌∷◌, ◌++◌, length, ◌∙◌, ◌==◌,
  if◌then◌else◌, Bool-cases, Text, text, from_utf8, is_ascii, from_utf8-ascii, arith,
}
use limux.Tunnel.Stream.{
  ok, err, ◌>>=◌, ◌>>◌, give, split_off, read_exact, >>=-ok, read_exact-append, write_all,
}
use limux.Tunnel.Socks.{
  hex_digits, groups, decoded, dotted, read_domain, read_host, read_target, reply, read_request,
  socks5_handshake, no_auth, be16, byte_at,
}

-- What a client asks to be connected to. A group of an IPv6 address is a u16.
pub data Target : Type 0 where
  ipv4 : (a b c d : ℕ) → Target
  domain : Text → Target
  ipv6 : (a b c d e f g h : ℕ) → Target

abbrev pub atyp : Target → ℕ
atyp (ipv4 a b c d) = 1
atyp (domain name) = 3
atyp (ipv6 a b c d e f g h) = 4

-- The two bytes of a u16, the high one first.
abbrev pub to_be : ℕ → List ℕ → List ℕ
to_be n rest = (n / 256) ∷ (n % 256) ∷ rest

abbrev pub address : Target → List ℕ → List ℕ
address (ipv4 a b c d) rest = a ∷ b ∷ c ∷ d ∷ rest
address (domain name) rest = length name ∷ (name ++ rest)
address (ipv6 a b c d e f g h) rest =
    to_be a (to_be b (to_be c (to_be d (to_be e (to_be f (to_be g (to_be h rest)))))))

-- The host as the tunnel passes it on.
abbrev pub host_text : Target → Text
host_text (ipv4 a b c d) = dotted (a ∷ b ∷ c ∷ d ∷ [])
host_text (domain name) = name
host_text (ipv6 a b c d e f g h) = join (text ":") (
    hex_digits 3 a
    ∷ hex_digits 3 b
    ∷ hex_digits 3 c
    ∷ hex_digits 3 d
    ∷ hex_digits 3 e
    ∷ hex_digits 3 f
    ∷ hex_digits 3 g
    ∷ hex_digits 3 h
    ∷ [])

-- A name of the kind that needs no decoding; the other addresses are as they are.
abbrev pub is_plain : Target → Bool
is_plain (ipv4 a b c d) = true
is_plain (domain name) = is_ascii name
is_plain (ipv6 a b c d e f g h) = true

be16-to_be : (n : ℕ) → be16 (n / 256) (n % 256) ≡ n
be16-to_be n = omega arith

read_host-address :
    (t : Target) (rest sent : List ℕ) (takes : Bool)
    → is_plain t ≡ true
    → read_host (atyp t) (record { incoming = address t rest; sent = sent; takes = takes })
      ≡ (ok (host_text t), record { incoming = rest; sent = sent; takes = takes })
unfolding read_host read_domain read_exact split_off groups
read_host-address (ipv4 a b c d) rest sent takes h = refl
read_host-address (domain name) rest sent takes h =
    >>=-ok (read_exact (length name)) (λ bs. decoded (from_utf8 bs)) _
      (read_exact-append name rest sent takes)
    ∙ rw (from_utf8-ascii name h) refl
read_host-address (ipv6 a b c d e f g h) rest sent takes p =
    ap (λ t. (ok t, record { incoming = rest; sent = sent; takes = takes }))
      (rw
        (
          be16-to_be a,
          be16-to_be b,
          be16-to_be c,
          be16-to_be d,
          be16-to_be e,
          be16-to_be f,
          be16-to_be g,
          be16-to_be h,
        )
        refl)

-- The greeting with a client's methods, and the request with a command.
abbrev pub greeting : List ℕ → List ℕ → List ℕ
greeting methods rest = 5 ∷ length methods ∷ (methods ++ rest)

abbrev pub request : ℕ → Target → ℕ → List ℕ → List ℕ
request cmd t port rest = 5 ∷ cmd ∷ 0 ∷ atyp t ∷ address t (to_be port rest)

read_target-request :
    (t : Target) (port : ℕ) (rest sent : List ℕ) (takes : Bool)
    → is_plain t ≡ true
    → read_target
        (atyp t)
        (record { incoming = address t (to_be port rest); sent = sent; takes = takes })
      ≡ (ok (host_text t, port), record { incoming = rest; sent = sent; takes = takes })
unfolding read_target read_exact split_off
read_target-request t port rest sent takes h =
    >>=-ok (read_host (atyp t))
      (λ host. read_exact 2 >>= λ port_bytes.
        give (host, be16 (byte_at 0 port_bytes) (byte_at 1 port_bytes)))
      _ (read_host-address t (to_be port rest) sent takes h)
    ∙ rw (be16-to_be port) refl

read_request-request :
    (cmd : ℕ) (t : Target) (port : ℕ) (rest sent : List ℕ)
    → is_plain t ≡ true
    → read_request (record { incoming = request cmd t port rest; sent = sent; takes = true }) ≡ (
        if cmd == 1
        then (ok (host_text t, port), record { incoming = rest; sent = sent; takes = true })
        else (
          err (text "unsupported SOCKS5 command"),
          record { incoming = address t (to_be port rest); sent = sent ++ reply 7; takes = true },
        ))
unfolding read_request read_exact split_off write_all
read_request-request cmd t port rest sent h = elim (Bool-cases (cmd == 1)) [
  | inl e ↦ rw (e, read_target-request t port rest sent true h) refl
  | inr e ↦ rw e refl
]

-- For an IPv4 address, an ASCII name or an IPv6 address, any methods, command byte and port, the
-- client's greeting and request are read as that host and port, with the greeting answered and the
-- bytes behind the request left, if the command is CONNECT; for any other command the reply is 7,
-- and the handshake fails before the address.
pub socks5_handshake-request :
    (methods : List ℕ) (cmd : ℕ) (t : Target) (port : ℕ) (rest sent : List ℕ)
    → is_plain t ≡ true
    → socks5_handshake (record {
      incoming = greeting methods (request cmd t port rest);
      sent = sent;
      takes = true;
    })
      ≡ (if cmd == 1
          then (
            ok (host_text t, port),
            record { incoming = rest; sent = sent ++ no_auth; takes = true },
          )
          else (
            err (text "unsupported SOCKS5 command"),
            record {
              incoming = address t (to_be port rest);
              sent = (sent ++ no_auth) ++ reply 7;
              takes = true;
            },
          ))
unfolding socks5_handshake read_request read_exact split_off write_all
socks5_handshake-request methods cmd t port rest sent h =
    >>=-ok (read_exact (length methods)) (λ _. write_all no_auth >> read_request) _
      (read_exact-append methods (request cmd t port rest) sent true)
    ∙ read_request-request cmd t port rest (sent ++ no_auth) h
