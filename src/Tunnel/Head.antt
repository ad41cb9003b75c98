-- ===== src/Tunnel/Head.antt =====
-- The loop of `http_connect_handshake` in app/src/remote/proxy_tunnel.rs against a description of
-- the head of a request.
use limux.Prelude.{
  ℕ, same, same_iff, zero, suc, ◌+◌, ◌-◌, ◌≤◌, ◌<◌, ◌≡◌, refl, ap, sym, subst, ◌∙◌, ◌↔◌, inl, inr,
  true, false, List, [], ◌∷◌, ◌++◌, append_assoc, length, length-append, take, ltb, Bool-cases,
  arith,
}
use limux.Tunnel.Stream.{TcpStream, Outcome, ok, err}
use limux.Tunnel.Connect.{crlf_crlf, ends_head, read_head, on_head, http_connect_handshake}
use limux.Tunnel.Bounds.{Leaves}

-- Bytes that end with a blank line, no earlier prefix of which does, within the limit.
abbrev pub IsHead : List ℕ → Type 0
IsHead head =
    (ends_head head ≡ true)
    × ((k : ℕ) → k < length head → ends_head (take k head) ≡ false)
    × (length head ≤ 8193)

take-append-le : (k : ℕ) (xs ys : List ℕ) → k ≤ length xs → take k (xs ++ ys) ≡ take k xs
take-append-le zero xs ys h = refl
take-append-le (suc k) [] ys h = absurd (omega arith)
take-append-le (suc k) (x ∷ xs) ys h = rw (take-append-le k xs ys (omega arith)) refl

take-length : (xs : List ℕ) → take (length xs) xs ≡ xs
take-length [] = refl
take-length (x ∷ xs) = rw (take-length xs) refl

take-append-length : (xs ys : List ℕ) → take (length xs) (xs ++ ys) ≡ xs
take-append-length xs ys = take-append-le (length xs) xs ys (omega arith) ∙ take-length xs

-- No prefix of the buffer, the buffer itself included, ends a head.
abbrev Open : List ℕ → Type 0
Open buf = (k : ℕ) → k ≤ length buf → ends_head (take k buf) ≡ false

Open-push :
    (buf : List ℕ) (b : ℕ) → Open buf → ends_head (buf ++ b ∷ []) ≡ false → Open (buf ++ b ∷ [])
Open-push buf b o e k h = elim (Bool-cases (ltb (length buf) k)) [
  | inl l ↦
      let z : k ≡ length (buf ++ b ∷ []) = ground (arith, length-append buf (b ∷ [])) in
      ap (λ n. ends_head (take n (buf ++ b ∷ []))) z
      ∙ ap ends_head (take-length (buf ++ b ∷ []))
      ∙ e
  | inr l ↦ ap ends_head (take-append-le k buf (b ∷ []) (ground arith)) ∙ o k (ground arith)
]

read_head-ok :
    (buf bs head rest : List ℕ)
    → read_head buf bs ≡ (ok head, rest)
    → length buf ≤ 8192
    → Open buf
    → (bs' : List ℕ) × (head ≡ buf ++ bs') × (bs ≡ bs' ++ rest) × IsHead head
unfolding read_head
read_head-ok buf [] head rest h l o = absurd (ground arith)
read_head-ok buf (b ∷ bs) head rest h l o = elim (Bool-cases (ends_head (buf ++ b ∷ []))) [
  | inl e ↦
      let z : head ≡ buf ++ b ∷ [] = ground arith in
      (
        b ∷ [],
        z,
        ground arith,
        rw z (
          e,
          λ k lt.
              ap ends_head
                (take-append-le k buf (b ∷ []) (omega (arith, length-append buf (b ∷ []))))
              ∙ o k (omega (arith, length-append buf (b ∷ []))),
          omega (arith, length-append buf (b ∷ [])),
        ),
      )
  | inr e ↦ elim (Bool-cases (ltb 8192 (length (buf ++ b ∷ [])))) [
    | inl big ↦ absurd (ground arith)
    | inr small ↦
        let (more, e1, e2, good) =
          read_head-ok (buf ++ b ∷ []) bs head rest (ground arith) (ground arith)
            (Open-push buf b o e) in
        (b ∷ more, e1 ∙ append_assoc buf (b ∷ []) more, ap (λ t. b ∷ t) e2, good)
  ]
]

read_head-append :
    (buf : List ℕ) (b : ℕ) (front rest : List ℕ)
    → IsHead (buf ++ b ∷ front)
    → read_head buf (b ∷ front ++ rest) ≡ (ok (buf ++ b ∷ front), rest)
unfolding read_head
read_head-append buf b [] rest (done, first, l) = rw (read_head, done) refl
read_head-append buf b (c ∷ front) rest (done, first, l) =
    let shift = append_assoc buf (b ∷ []) (c ∷ front) in
    let size = length-append buf (b ∷ c ∷ front) in
    let size' = length-append buf (b ∷ []) in
    let open_yet : ends_head (buf ++ b ∷ []) ≡ false =
      ap ends_head (
        sym (
          ap (λ t. take (length (buf ++ b ∷ [])) t) (sym shift)
          ∙ take-append-length (buf ++ b ∷ []) (c ∷ front)))
      ∙ first (length (buf ++ b ∷ [])) (omega arith) in
    let small : ltb 8192 (length (buf ++ b ∷ [])) ≡ false = ground arith in
    rw (read_head, open_yet, small)
      (read_head-append (buf ++ b ∷ []) c front rest (subst IsHead (sym shift) (done, first, l))
        ∙ ap (λ t. (ok t, rest)) shift)

Open-nil : Open []
unfolding ends_head
Open-nil zero h = refl
Open-nil (suc k) h = refl

pub read_head-nil :
    (head rest : List ℕ) → IsHead head → read_head [] (head ++ rest) ≡ (ok head, rest)
unfolding ends_head
read_head-nil [] rest g = absurd (ground arith)
read_head-nil (b ∷ head) rest g = read_head-append [] b head rest g

-- The bytes end with a blank line.
abbrev pub EndsBlank : List ℕ → Type 0
EndsBlank bs = (body : List ℕ) × (bs ≡ body ++ (13 ∷ 10 ∷ 13 ∷ 10 ∷ []))

ends_head-blank : (body : List ℕ) → ends_head (body ++ (13 ∷ 10 ∷ 13 ∷ 10 ∷ [])) ≡ true
unfolding ends_head
ends_head-blank [] = refl
ends_head-blank (b ∷ body) = ground (arith, ends_head-blank body)

ends_head-EndsBlank : (bs : List ℕ) → (ends_head bs ≡ true) ↔ EndsBlank bs
unfolding ends_head
ends_head-EndsBlank bs = (to bs, λ (body, e). ap ends_head e ∙ ends_head-blank body)
  where
    to : (cs : List ℕ) → ends_head cs ≡ true → EndsBlank cs
    to [] h = absurd (ground arith)
    to (c ∷ cs) h = elim (Bool-cases (same (c ∷ cs) crlf_crlf)) [
      | inl e ↦ ([], (same_iff (c ∷ cs) crlf_crlf).0 e)
      | inr e ↦ let (body, f) = to cs (ground arith) in (c ∷ body, ap (λ t. c ∷ t) f)
    ]

-- Bytes that end with a blank line, no shorter prefix of which does, within the limit.
abbrev pub IsRequestHead : List ℕ → Type 0
IsRequestHead head =
    EndsBlank head
    × ((k : ℕ) → ¬ ((k < length head) × EndsBlank (take k head)))
    × (length head ≤ 8193)

pub IsHead-IsRequestHead : (head : List ℕ) → IsHead head ↔ IsRequestHead head
IsHead-IsRequestHead head = (
  λ (e, first, l). (
    (ends_head-EndsBlank head).0 e,
    λ k (h, b).
        let y = (ends_head-EndsBlank (take k head)).1 b in let n = first k h in ground arith,
    l,
  ),
  λ (e, first, l). (
    (ends_head-EndsBlank head).1 e,
    λ k h. elim (Bool-cases (ends_head (take k head))) [
      | inl y ↦ absurd (first k (h, (ends_head-EndsBlank (take k head)).0 y))
      | inr n ↦ n
    ],
    l,
  ),
)

-- The loop that reads a CONNECT request returns a head and a rest exactly when the bytes are the
-- head followed by the rest, and the head ends with a blank line, has no shorter prefix that does,
-- and is at most 8193 bytes long.
pub read_head_iff :
    (bs head rest : List ℕ)
    → (read_head [] bs ≡ (ok head, rest)) ↔ ((bs ≡ head ++ rest) × IsRequestHead head)
read_head_iff bs head rest = (
  λ h.
      let (front, e1, e2, good) = read_head-ok [] bs head rest h (omega arith) Open-nil in
      (e2 ∙ ap (λ t. t ++ rest) (sym e1), (IsHead-IsRequestHead head).0 good),
  λ (e, g). ap (read_head []) e ∙ read_head-nil head rest ((IsHead-IsRequestHead head).1 g),
)

read_head-Leaves :
    (n : ℕ) (buf bs : List ℕ) → n + length buf ≡ 8193 → 0 < n → Leaves n bs (read_head buf bs).1
unfolding read_head
read_head-Leaves n buf [] e p = ([], refl, omega arith)
read_head-Leaves n buf (b ∷ bs) e p = elim (Bool-cases (ends_head (buf ++ b ∷ []))) [
  | inl z ↦ rw (read_head, z) (b ∷ [], refl, omega arith)
  | inr z ↦ elim (Bool-cases (ltb 8192 (length (buf ++ b ∷ [])))) [
    | inl big ↦ rw (read_head, z, big) (b ∷ [], refl, omega arith)
    | inr small ↦
        let size = length-append buf (b ∷ []) in
        let (front, g, l) =
          read_head-Leaves (n - 1) (buf ++ b ∷ []) bs (omega (arith, size))
            (ground (arith, size)) in
        rw (read_head, z, small) (b ∷ front, ap (λ t. b ∷ t) g, omega (arith, l))
  ]
]

on_head-Leaves :
    (s : TcpStream) (r : Outcome (List ℕ) × List ℕ)
    → Leaves 8193 s.incoming r.1
    → Leaves 8193 s.incoming (on_head s r).1.incoming
unfolding on_head
on_head-Leaves s (ok buf, rest) h = h
on_head-Leaves s (err e, rest) h = h

-- The CONNECT handshake, however it ends, reads a prefix of at most 8193 bytes and leaves the rest
-- of the stream.
pub http_connect_handshake-Leaves :
    (s : TcpStream) → Leaves 8193 s.incoming (http_connect_handshake s).1.incoming
unfolding http_connect_handshake on_head
http_connect_handshake-Leaves s =
    on_head-Leaves s (read_head [] s.incoming)
      (read_head-Leaves 8193 [] s.incoming refl (omega arith))
