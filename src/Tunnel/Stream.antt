-- ===== src/Tunnel/Stream.antt =====
-- A TCP stream as app/src/remote/proxy_tunnel.rs uses it: the bytes that the peer sends before it
-- closes, the bytes written to it, and whether it still takes any.
use limux.Prelude.{
  ℕ, zero, suc, Option, none, some, Bool, true, false, List, [], ◌∷◌, ◌++◌, Text, text, ◌≡◌, refl,
  ap, length,
}

pub record TcpStream : Type 0 where
  pub incoming : List ℕ
  pub sent : List ℕ
  pub takes : Bool

pub data Outcome {ℓ} (A : Type ℓ) : Type ℓ where
  ok : A → Outcome A
  err : Text → Outcome A

-- A step on the stream leaves the stream also when it fails.
abbrev pub Io : Type 0 → Type 0
Io A = TcpStream → Outcome A × TcpStream

abbrev pub and_then : {A B : Type 0} → (A → Io B) → Outcome A × TcpStream → Outcome B × TcpStream
and_then f (ok a, s) = f a s
and_then f (err e, s) = (err e, s)

infixl 5 ◌>>=◌ ◌>>◌
abbrev pub ◌>>=◌ : {A B : Type 0} → Io A → (A → Io B) → Io B
◌>>=◌ m f s = and_then f (m s)

abbrev pub ◌>>◌ : {B : Type 0} → Io (Unit {0}) → Io B → Io B
m >> k = m >>= λ _. k

abbrev pub give : {A : Type 0} → A → Io A
give a s = (ok a, s)

abbrev pub fail : {A : Type 0} → Text → Io A
fail e s = (err e, s)

-- The first bytes and what follows them, if there are as many.
unfoldable pub split_off : ℕ → List ℕ → Option (List ℕ × List ℕ)
split_off zero bs = some ([], bs)
split_off (suc n) [] = none
split_off (suc n) (b ∷ bs) = elim (split_off n bs) [
  | none ↦ none
  | some (front, back) ↦ some (b ∷ front, back)
]

-- `read_exact`: a stream that ends early is read to its end.
unfoldable pub read_exact : ℕ → Io (List ℕ)
read_exact n s = elim (split_off n s.incoming) [
  | some (front, back) ↦ (ok front, record s { incoming = back })
  | none ↦ (err (text "early eof"), record s { incoming = [] })
]

unfoldable pub write_all : List ℕ → Io (Unit {0})
write_all bs s = elim s.takes [
  | true ↦ (ok tt, record s { sent = s.sent ++ bs })
  | false ↦ (err (text "broken pipe"), s)
]

-- A step that succeeds is followed by the next one.
pub >>=-ok :
    {A B : Type 0} (m : Io A) (f : A → Io B) (s : TcpStream) {a : A} {s' : TcpStream}
    → m s ≡ (ok a, s')
    → (m >>= f) s ≡ f a s'
>>=-ok m f s h = ap (and_then f) h

split_off-append : (xs ys : List ℕ) → split_off (length xs) (xs ++ ys) ≡ some (xs, ys)
unfolding split_off
split_off-append [] ys = refl
split_off-append (x ∷ xs) ys = rw (split_off-append xs ys) refl

pub read_exact-append :
    (xs ys sent : List ℕ) (takes : Bool)
    → read_exact (length xs) (record { incoming = xs ++ ys; sent = sent; takes = takes })
      ≡ (ok xs, record { incoming = ys; sent = sent; takes = takes })
unfolding read_exact
read_exact-append xs ys sent takes = rw (read_exact, split_off-append xs ys) refl
