-- ===== src/Tunnel/Authority.antt =====
-- CONNECT requests as a client writes them, and what `http_connect_handshake` of
-- app/src/remote/proxy_tunnel.rs makes of them.
use limux.Prelude.{
  ℕ, ◌≤◌, ◌≡◌, refl, ap, ◌∙◌, inl, inr, Bool, true, false, none, some, List, [], ◌∷◌, ◌++◌,
  append_assoc, ◌==◌, ==_of_ne, Bool-cases, arith, Text, text, is_whitespace, is_empty, contains,
  cut, decimal, decimal-all_digits, decimal-is_solid, is_solid, contains-digits, parse_uint-decimal,
  split_whitespace, words_from, first_line, line_of, without_cr, rsplit_once, is_ascii,
  from_utf8_lossy-ascii,
}
use limux.Tunnel.Stream.{ok}
use limux.Tunnel.Connect.{parse_request, parse_authority, on_head, http_connect_handshake}
use limux.Tunnel.Head.{IsRequestHead, IsHead-IsRequestHead, read_head-nil}

solid-append_lem : (s t : Text) → is_solid s ≡ true → is_solid t ≡ true → is_solid (s ++ t) ≡ true
solid-append_lem [] t h k = absurd (ground arith)
solid-append_lem (c ∷ []) [] h k = absurd (ground arith)
solid-append_lem (c ∷ []) (d ∷ t) h k = ground arith
solid-append_lem (c ∷ d ∷ s) t h k = ground (arith, solid-append_lem (d ∷ s) t)

solid-tail :
    (c d : ℕ) (t : Text)
    → is_solid (c ∷ d ∷ t) ≡ true
    → (is_whitespace c ≡ false) × (is_solid (d ∷ t) ≡ true)
solid-tail c d t h = ground arith

full : (word : Text) (a : ℕ) → is_empty (word ++ a ∷ []) ≡ false
full [] a = refl
full (c ∷ word) a = refl

words_from-solid :
    (word t rest : Text) (c : ℕ)
    → is_solid t ≡ true
    → is_whitespace c ≡ true
    → words_from word (t ++ c ∷ rest) ≡ (word ++ t) ∷ words_from [] rest
words_from-solid word [] rest c h w = absurd (ground arith)
words_from-solid word (a ∷ []) rest c h w = elim (Bool-cases (is_whitespace a)) [
  | inl e ↦ absurd (ground arith)
  | inr e ↦ rw (e, w, full word a) refl
]
words_from-solid word (a ∷ b ∷ t) rest c h w =
    let (black, more) = solid-tail a b t h in
    rw black (
      words_from-solid (word ++ a ∷ []) (b ∷ t) rest c more w
      ∙ ap (λ u. u ∷ words_from [] rest) (append_assoc word (a ∷ []) (b ∷ t)))

white_newline : (c : ℕ) → is_whitespace c ≡ false → c ≡ 10 → ⊥
white_newline c h e = let z : is_whitespace c ≡ true = ap is_whitespace e in cc

black-ne : (c : ℕ) → is_whitespace c ≡ false → (c == 10) ≡ false
black-ne c h = ==_of_ne c 10 λ e. white_newline c h e

solid-head : (c : ℕ) → is_solid (c ∷ []) ≡ true → is_whitespace c ≡ false
solid-head c h = elim (Bool-cases (is_whitespace c)) [ inl e ↦ absurd (ground arith) | inr e ↦ e ]

newline_not_in : (t : Text) → is_solid t ≡ true → contains 10 t ≡ false
newline_not_in [] h = refl
newline_not_in (c ∷ []) h = rw (black-ne c (solid-head c h)) refl
newline_not_in (c ∷ d ∷ t) h =
    let (black, more) = solid-tail c d t h in rw (black-ne c black) (newline_not_in (d ∷ t) more)

contains-append :
    (c : ℕ) (s t : Text) → contains c s ≡ false → contains c t ≡ false → contains c (s ++ t) ≡ false
contains-append c [] t h k = k
contains-append c (d ∷ s) t h k = ground (arith, contains-append c s t)

cut-append :
    (line more : Text)
    → contains 10 line ≡ false
    → cut (λ c. c == 10) (line ++ 10 ∷ more) ≡ (line, some more)
cut-append [] more h = refl
cut-append (d ∷ line) more h = elim (Bool-cases (d == 10)) [
  | inl e ↦ absurd (ground arith)
  | inr e ↦ rw (e, cut-append line more (ground arith)) refl
]

without_cr-append : (line : Text) → without_cr (line ++ 13 ∷ []) ≡ line
without_cr-append [] = refl
without_cr-append (c ∷ []) = refl
without_cr-append (c ∷ d ∷ line) = rw (without_cr-append (d ∷ line)) refl

append_assoc_back : (line more : Text) → line ++ 13 ∷ 10 ∷ more ≡ (line ++ 13 ∷ []) ++ 10 ∷ more
append_assoc_back line more = simp (append_assoc)

first_line-crlf :
    (line more : Text) → contains 10 line ≡ false → first_line (line ++ 13 ∷ 10 ∷ more) ≡ line
first_line-crlf line more h =
    ap first_line (append_assoc_back line more)
    ∙ ap line_of (cut-append (line ++ 13 ∷ []) more (contains-append 10 line (13 ∷ []) h refl))
    ∙ without_cr-append line

rsplit_once-none : (c : ℕ) (t : Text) → contains c t ≡ false → rsplit_once c t ≡ none
rsplit_once-none c [] h = refl
rsplit_once-none c (d ∷ t) h = elim (Bool-cases (d == c)) [
  | inl e ↦ absurd (ground arith)
  | inr e ↦ rw (rsplit_once-none c t (ground arith), e) refl
]

rsplit_once-append :
    (front back : Text)
    → contains 58 back ≡ false
    → rsplit_once 58 (front ++ 58 ∷ back) ≡ some (front, back)
rsplit_once-append [] back h = rw (rsplit_once-none 58 back h) refl
rsplit_once-append (c ∷ front) back h = rw (rsplit_once-append front back h) refl

-- The authority that a client writes for a host and a port.
abbrev pub authority_text : Text → ℕ → Text
authority_text host port = host ++ 58 ∷ decimal port

parse_authority-text :
    (host : Text) (port : ℕ)
    → port ≤ 65535
    → parse_authority (authority_text host port) ≡ ok (host, port)
unfolding parse_authority
parse_authority-text host port h =
    rw
      (
        parse_authority,
        rsplit_once-append host (decimal port)
            (contains-digits 58 (decimal port) (omega arith) (decimal-all_digits port)),
        parse_uint-decimal 65535 port h,
      )
      refl

authority-is_solid :
    (host : Text) (port : ℕ) → is_solid host ≡ true → is_solid (authority_text host port) ≡ true
authority-is_solid host port h =
    solid-append_lem host (58 ∷ decimal port) h
      (solid-append_lem (58 ∷ []) (decimal port) refl (decimal-is_solid port))

-- The request line, and the head with whatever header lines follow.
abbrev pub request_line : Text → ℕ → Text
request_line host port = text "CONNECT" ++ 32 ∷ (authority_text host port ++ 32 ∷ text "HTTP/1.1")

abbrev pub request_head : Text → ℕ → Text → Text
request_head host port headers = request_line host port ++ 13 ∷ 10 ∷ headers

request_line-words :
    (host : Text) (port : ℕ)
    → is_solid host ≡ true
    → split_whitespace (request_line host port)
      ≡ text "CONNECT" ∷ authority_text host port ∷ text "HTTP/1.1" ∷ []
request_line-words host port h =
    ap (λ ws. text "CONNECT" ∷ ws)
      (words_from-solid [] (authority_text host port) (text "HTTP/1.1") 32
        (authority-is_solid host port h) refl)

request_line-newline :
    (host : Text) (port : ℕ) → is_solid host ≡ true → contains 10 (request_line host port) ≡ false
request_line-newline host port h =
    contains-append 10 (authority_text host port) (32 ∷ text "HTTP/1.1")
      (newline_not_in (authority_text host port) (authority-is_solid host port h)) refl

-- For a host that is not empty and without white space and a port that is a u16, a request `CONNECT
-- host:port HTTP/1.1` with any header lines, whose head is ASCII and ends with its first blank line
-- within 8193 bytes, is read as that host and port, and what follows the head is left on the
-- stream.
pub http_connect_handshake-request :
    (host : Text) (port : ℕ) (headers rest sent : List ℕ) (takes : Bool)
    → is_solid host ≡ true
    → port ≤ 65535
    → is_ascii (request_head host port headers) ≡ true
    → IsRequestHead (request_head host port headers)
    → http_connect_handshake
        (record { incoming = request_head host port headers ++ rest; sent = sent; takes = takes })
      ≡ (ok (host, port), record { incoming = rest; sent = sent; takes = takes })
unfolding http_connect_handshake on_head parse_request
http_connect_handshake-request host port headers rest sent takes solid small ascii head =
    ap
      (on_head
        (record { incoming = request_head host port headers ++ rest; sent = sent; takes = takes }))
      (read_head-nil (request_head host port headers) rest
        ((IsHead-IsRequestHead (request_head host port headers)).1 head))
    ∙ rw
        (
          from_utf8_lossy-ascii (request_head host port headers) ascii,
          first_line-crlf (request_line host port) headers (request_line-newline host port solid),
          request_line-words host port solid,
          parse_authority-text host port small,
        )
        refl
