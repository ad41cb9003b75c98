-- ===== src/Tunnel/Bounds.antt =====
-- How much of a stream the two handshakes of app/src/remote/proxy_tunnel.rs read.
use limux.Prelude.{
  ℕ, zero, suc, ◌+◌, ◌≤◌, ◌<◌, ◌≡◌, refl, ap, sym, subst, ◌∙◌, inl, inr, Bool, true, false, ◌&&◌,
  List, [], ◌∷◌, ◌++◌, append_assoc, append-nil, length, length-append, Option, none, some, ltb,
  ◌==◌, if◌then◌else◌, Bool-cases, Option-cases, Text, from_utf8, arith,
}
use limux.Tunnel.Stream.{
  TcpStream, Outcome, ok, err, Io, ◌>>=◌, give, fail, and_then, split_off, read_exact, write_all,
}
use limux.Tunnel.Socks.{
  decoded, read_domain, read_host, read_target, read_request, socks5_handshake, byte_at,
}

-- Every number of the list is a byte.
abbrev pub all_bytes : List ℕ → Bool
all_bytes [] = true
all_bytes (b ∷ bs) = ltb b 256 && all_bytes bs

-- The second is what a read of at most so many bytes leaves of the first.
abbrev pub Leaves : ℕ → List ℕ → List ℕ → Type 0
Leaves n before after = (front : List ℕ) × (before ≡ front ++ after) × (length front ≤ n)

all_bytes-append :
    (xs ys : List ℕ) → all_bytes (xs ++ ys) ≡ true → (all_bytes xs ≡ true) × (all_bytes ys ≡ true)
all_bytes-append [] ys h = (refl, h)
all_bytes-append (x ∷ xs) ys h = ground (arith, all_bytes-append xs ys)

byte_at-lt : (i : ℕ) (bs : List ℕ) → all_bytes bs ≡ true → byte_at i bs < 256
byte_at-lt i [] h = omega arith
byte_at-lt zero (b ∷ bs) h = ground arith
byte_at-lt (suc i) (b ∷ bs) h = ground (arith, byte_at-lt i bs)

Leaves-trans : {a b : ℕ} {x y z : List ℕ} → Leaves a x y → Leaves b y z → Leaves (a + b) x z
Leaves-trans {z} (f, e, l) (g, e', l') =
    (f ++ g, e ∙ ap (λ t. f ++ t) e' ∙ sym (append_assoc f g z), omega (arith, length-append f g))

-- A step on streams of bytes that reads at most so many, and whose value has a property.
record Reads {A : Type 0} (n : ℕ) (P : A → Type 0) (m : Io A) : Type 0 where
  at :
      (s : TcpStream)
      → all_bytes s.incoming ≡ true
      → Leaves n s.incoming (m s).1.incoming × ((a : A) → (m s).0 ≡ ok a → P a)

abbrev Anything : {A : Type 0} → A → Type 0
Anything a = Unit {0}

abbrev Bytes : List ℕ → Type 0
Bytes bs = all_bytes bs ≡ true

module _ {A B : Type 0} {P : A → Type 0} {Q : B → Type 0} {a b : ℕ} where
  and_then-Leaves :
      (f : A → Io B) (r : Outcome A × TcpStream) (before : List ℕ)
      → all_bytes before ≡ true
      → Leaves a before r.1.incoming
      → ((x : A) → r.0 ≡ ok x → P x)
      → ((x : A) → P x → Reads b Q (f x))
      → Leaves (a + b) before (and_then f r).1.incoming × ((y : B) → (and_then f r).0 ≡ ok y → Q y)
  and_then-Leaves f (ok x, s) before h (front, e, l) p k =
      let (l', q) = (k x (p x refl)).at s (all_bytes-append front s.incoming (subst Bytes e h)).1 in
      (Leaves-trans (front, e, l) l', q)
  and_then-Leaves f (err e, s) before h (front, g, l) p k =
      ((front, g, omega arith), λ y z. absurd (ground arith))

  Reads->>= :
      (m : Io A) (f : A → Io B)
      → Reads a P m
      → ((x : A) → P x → Reads b Q (f x))
      → Reads (a + b) Q (m >>= f)
  Reads->>= m f rm rf = record {
    at = λ s h. let (l, p) = rm.at s h in and_then-Leaves f (m s) s.incoming h l p rf;
  }

module _ {A : Type 0} {P : A → Type 0} where
  Reads-le : (m : Io A) {a b : ℕ} → a ≤ b → Reads a P m → Reads b P m
  Reads-le m h r = record {
    at = λ s bytes. let ((front, e, l), p) = r.at s bytes in ((front, e, omega arith), p);
  }

  Reads-if :
      {n : ℕ} (b : Bool) (x y : Io A) → Reads n P x → Reads n P y → Reads n P (if b then x else y)
  Reads-if true x y rx ry = rx
  Reads-if false x y rx ry = ry

  Reads-give : (a : A) → P a → Reads 0 P (give a)
  Reads-give a p = record {
    at = λ s h. (([], refl, omega arith), λ b e. subst P {x = a} {y = b} (ground arith) p);
  }

  Reads-fail : (e : Text) → Reads 0 P (fail e)
  Reads-fail e = record { at = λ s h. (([], refl, omega arith), λ b z. absurd (ground arith)) }

split_off-some :
    (n : ℕ) (bs front back : List ℕ)
    → split_off n bs ≡ some (front, back)
    → (bs ≡ front ++ back) × (length front ≡ n)
unfolding split_off
split_off-some zero bs front back h = ground arith
split_off-some (suc n) [] front back h = absurd (ground arith)
split_off-some (suc n) (b ∷ bs) front back h = elim (Option-cases (split_off n bs)) [
  | inl e ↦ absurd (ground arith)
  | inr ((f, k), e) ↦ ground (arith, split_off-some n bs f k)
]

split_off-none : (n : ℕ) (bs : List ℕ) → split_off n bs ≡ none → length bs < n
unfolding split_off
split_off-none zero bs h = absurd (ground arith)
split_off-none (suc n) [] h = omega arith
split_off-none (suc n) (b ∷ bs) h = elim (Option-cases (split_off n bs)) [
  | inl e ↦ omega (arith, split_off-none n bs e)
  | inr ((f, k), e) ↦ absurd (ground arith)
]

read_exact-Leaves :
    (n : ℕ) (s : TcpStream)
    → all_bytes s.incoming ≡ true
    → Leaves n s.incoming (read_exact n s).1.incoming
      × ((bs : List ℕ) → (read_exact n s).0 ≡ ok bs → Bytes bs)
unfolding read_exact
read_exact-Leaves n s h = elim (Option-cases (split_off n s.incoming)) [
  | inl e ↦
      rw (read_exact, e)
        (
          (s.incoming, sym (append-nil s.incoming), omega (arith, split_off-none n s.incoming e)),
          λ bs z. absurd (ground arith),
        )
  | inr ((front, back), e) ↦
      let (g, l) = split_off-some n s.incoming front back e in
      rw (read_exact, e)
        (
          (front, g, omega arith),
          λ bs z.
              subst Bytes {x = front} {y = bs} (ground arith)
                (all_bytes-append front back (subst Bytes g h)).0,
        )
]

Reads-read_exact : (n : ℕ) → Reads n Bytes (read_exact n)
Reads-read_exact n = record { at = read_exact-Leaves n }

Reads-write_all : (bs : List ℕ) → Reads 0 Anything (write_all bs)
unfolding write_all
Reads-write_all bs = record {
  at = λ s h. elim (Bool-cases s.takes) [
    | inl e ↦ rw (write_all, e) (([], refl, omega arith), λ _ _. tt)
    | inr e ↦ rw (write_all, e) (([], refl, omega arith), λ _ _. tt)
  ];
}

Reads-decoded : (t : Option Text) → Reads 0 Anything (decoded t)
Reads-decoded none = Reads-fail _
Reads-decoded (some host) = Reads-give host tt

Reads-read_domain : Reads 256 Anything read_domain
unfolding read_domain
Reads-read_domain = Reads->>= {b = 255} (read_exact 1) _ (Reads-read_exact 1) λ len p.
    let l = byte_at-lt 0 len p in
    Reads-le _ {a = byte_at 0 len + 0} (omega (arith, l)) (
      Reads->>= {b = 0} (read_exact (byte_at 0 len)) _ (Reads-read_exact (byte_at 0 len))
        λ bs _. Reads-decoded (from_utf8 bs))

Reads-read_host : (atyp : ℕ) → Reads 256 Anything (read_host atyp)
unfolding read_host
Reads-read_host atyp =
    Reads-if (atyp == 1) _ _
      (Reads-le _ (omega arith)
        (Reads->>= (read_exact 4) _ (Reads-read_exact 4) λ a _. Reads-give _ tt))
      (Reads-if (atyp == 3) _ _ Reads-read_domain (
        Reads-if (atyp == 4) _ _
          (Reads-le _ (omega arith)
            (Reads->>= (read_exact 16) _ (Reads-read_exact 16) λ a _. Reads-give _ tt))
          (Reads-le _ (omega arith) (Reads-fail _))))

Reads-read_target : (atyp : ℕ) → Reads 258 Anything (read_target atyp)
unfolding read_target
Reads-read_target atyp =
    Reads->>= (read_host atyp) _ (Reads-read_host atyp)
      λ host _. Reads->>= (read_exact 2) _ (Reads-read_exact 2) λ bs _. Reads-give _ tt

Reads-read_request : Reads 262 Anything read_request
unfolding read_request
Reads-read_request = Reads->>= (read_exact 4) _ (Reads-read_exact 4) λ header _.
    Reads-if (byte_at 1 header == 1) _ _ (Reads-read_target (byte_at 3 header))
      (Reads-le _ (omega arith) (Reads->>= (write_all _) _ (Reads-write_all _) λ _ _. Reads-fail _))

Reads-socks5_handshake : Reads 519 Anything socks5_handshake
unfolding socks5_handshake
Reads-socks5_handshake = Reads->>= {b = 517} (read_exact 2) _ (Reads-read_exact 2) λ header p.
    let l = byte_at-lt 1 header p in
    Reads-if (byte_at 0 header == 5) _ _
      (Reads-le _ {a = byte_at 1 header + (0 + 262)} (omega (arith, l)) (
        Reads->>= (read_exact (byte_at 1 header)) _ (Reads-read_exact (byte_at 1 header))
          λ _ _. Reads->>= (write_all _) _ (Reads-write_all _) λ _ _. Reads-read_request))
      (Reads-le _ (omega arith) (Reads-fail _))

-- On a stream of bytes the SOCKS5 handshake, however it ends, reads a prefix of at most 519 bytes
-- and leaves the rest of the stream.
pub socks5_handshake-Leaves :
    (s : TcpStream)
    → all_bytes s.incoming ≡ true
    → Leaves 519 s.incoming (socks5_handshake s).1.incoming
socks5_handshake-Leaves s h = (Reads-socks5_handshake.at s h).0
