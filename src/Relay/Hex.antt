-- ===== src/Relay/Hex.antt =====
-- `hex_encode`, `hex_decode` and `constant_time_eq` of app/src/remote/relay.rs.
use Prim.Native.Nat.{bit_or, bit_xor}
use limux.Prelude.{
  ℕ, ◌+◌, ◌-◌, ◌*◌, ◌/◌, ◌%◌, ◌<◌, ◌≡◌, refl, ◌∙◌, inl, inr, Option, none, some, Bool, true, false,
  not, ◌&&◌, List, [], ◌∷◌, length, leb, ltb, ◌==◌, if◌then◌else◌, Bool-cases, Text, same,
  each_below, each_below-at, arith,
}

abbrev pub hex_digit : ℕ → ℕ
hex_digit d = if ltb d 10 then 48 + d else 87 + d

-- Two lower-case digits for each byte.
unfoldable pub hex_encode : List ℕ → Text
hex_encode [] = []
hex_encode (b ∷ bs) = hex_digit (b / 16) ∷ hex_digit (b % 16) ∷ hex_encode bs

-- The value of a digit of either case.
abbrev pub digit_value : ℕ → Option ℕ
digit_value c =
    if leb 48 c && leb c 57
    then some (c - 48)
    else if leb 97 c && leb c 102
    then some (c - 87)
    else if leb 65 c && leb c 70
    then some (c - 55)
    else none

-- `u8::from_str_radix` of two characters, which takes a plus before a single digit.
abbrev pub pair_value : ℕ → ℕ → Option ℕ
pair_value c d = elim (digit_value d) [
  | none ↦ none
  | some low ↦ elim (digit_value c) [
    | none ↦ if c == 43 then some low else none
    | some high ↦ some (high * 16 + low)
  ]
]

-- Pairs that are no number are left out; a character that has no partner makes the code panic.
unfoldable pub hex_decode : Text → Option (List ℕ)
hex_decode [] = some []
hex_decode (c ∷ []) = none
hex_decode (c ∷ d ∷ cs) = elim (hex_decode cs) [
  | none ↦ none
  | some bs ↦ elim (pair_value c d) [ none ↦ some bs | some b ↦ some (b ∷ bs) ]
]

-- The loop of `constant_time_eq`, on slices of one length.
unfoldable pub differences : ℕ → List ℕ → List ℕ → ℕ
differences diff [] bs = diff
differences diff (a ∷ as') [] = diff
differences diff (a ∷ as') (b ∷ bs) = differences (bit_or diff (bit_xor a b)) as' bs

unfoldable pub constant_time_eq : List ℕ → List ℕ → Bool
constant_time_eq a b = if length a == length b then differences 0 a b == 0 else false

pair_value-digits :
    (b : ℕ) → b < 256 → pair_value (hex_digit (b / 16)) (hex_digit (b % 16)) ≡ some b
pair_value-digits b h = ground arith

hex_decode-hex_encode_step :
    (b : ℕ) (cs : Text) (bs : List ℕ)
    → b < 256
    → hex_decode cs ≡ some bs
    → hex_decode (hex_digit (b / 16) ∷ hex_digit (b % 16) ∷ cs) ≡ some (b ∷ bs)
unfolding hex_decode
hex_decode-hex_encode_step b cs bs h e = rw (e, pair_value-digits b h) refl

-- Every number of the list is a byte.
abbrev pub all_bytes : List ℕ → Bool
all_bytes [] = true
all_bytes (b ∷ bs) = ltb b 256 && all_bytes bs

-- The hexadecimal text of a sequence of bytes is decoded to those bytes.
pub hex_decode-hex_encode :
    (bs : List ℕ) → all_bytes bs ≡ true → hex_decode (hex_encode bs) ≡ some bs
unfolding hex_encode hex_decode
hex_decode-hex_encode [] h = refl
hex_decode-hex_encode (b ∷ bs) h =
    hex_decode-hex_encode_step b (hex_encode bs) bs (ground arith)
      (hex_decode-hex_encode bs (ground arith))

agree : Bool → Bool → Bool
agree true b = b
agree false b = not b

-- A byte xor another is zero for equal ones alone, and a byte or another for two zeros alone; both
-- are bytes.
xor_row : ℕ → ℕ → Bool
xor_row a b = agree (bit_xor a b == 0) (a == b) && ltb (bit_xor a b) 256

or_row : ℕ → ℕ → Bool
or_row a b = agree (bit_or a b == 0) ((a == 0) && (b == 0)) && ltb (bit_or a b) 256

xor_table : each_below (λ a. each_below (xor_row a) 256) 256 ≡ true
unfolding each_below xor_row agree
xor_table = refl

or_table : each_below (λ a. each_below (or_row a) 256) 256 ≡ true
unfolding each_below or_row agree
or_table = refl

agree-eq : (a b : Bool) → agree a b ≡ true → a ≡ b
unfolding agree
agree-eq true true h = refl
agree-eq true false h = cc
agree-eq false true h = cc
agree-eq false false h = refl

and-both : (a b : Bool) → (a && b) ≡ true → (a ≡ true) × (b ≡ true)
and-both a b h = ground arith

xor_byte : (a b : ℕ) → a < 256 → b < 256 → ((bit_xor a b == 0) ≡ (a == b)) × (bit_xor a b < 256)
unfolding xor_row
xor_byte a b h k =
    let row =
      each_below-at (xor_row a) 256 b k
        (each_below-at (λ x. each_below (xor_row x) 256) 256 a h xor_table) in
    let (e, l) = and-both (agree (bit_xor a b == 0) (a == b)) (ltb (bit_xor a b) 256) row in
    (agree-eq _ _ e, ground arith)

or_byte :
    (a b : ℕ)
    → a < 256
    → b < 256
    → ((bit_or a b == 0) ≡ ((a == 0) && (b == 0))) × (bit_or a b < 256)
unfolding or_row
or_byte a b h k =
    let row =
      each_below-at (or_row a) 256 b k
        (each_below-at (λ x. each_below (or_row x) 256) 256 a h or_table) in
    let (e, l) =
      and-both (agree (bit_or a b == 0) ((a == 0) && (b == 0))) (ltb (bit_or a b) 256) row in
    (agree-eq _ _ e, ground arith)

both_and : (a b c : Bool) → (a && b && c) ≡ (a && (b && c))
both_and true b c = refl
both_and false b c = refl

differences-zero :
    (diff : ℕ) (xs ys : List ℕ)
    → diff < 256
    → all_bytes xs ≡ true
    → all_bytes ys ≡ true
    → length xs ≡ length ys
    → (differences diff xs ys == 0) ≡ ((diff == 0) && same xs ys)
unfolding differences
differences-zero diff [] [] d h k e = ground arith
differences-zero diff [] (y ∷ ys) d h k e = absurd (omega arith)
differences-zero diff (x ∷ xs) [] d h k e = absurd (omega arith)
differences-zero diff (x ∷ xs) (y ∷ ys) d h k e =
    let (hx, hxs) = and-both (ltb x 256) (all_bytes xs) h in
    let (ky, kys) = and-both (ltb y 256) (all_bytes ys) k in
    let (e1, l1) = xor_byte x y (ground arith) (ground arith) in
    let (e2, l2) = or_byte diff (bit_xor x y) d l1 in
    differences-zero (bit_or diff (bit_xor x y)) xs ys l2 hxs kys (omega arith)
    ∙ rw (e2, e1) (both_and (diff == 0) (x == y) (same xs ys))

same-length : (xs ys : Text) → same xs ys ≡ true → length xs ≡ length ys
same-length [] [] h = refl
same-length [] (y ∷ ys) h = absurd (ground arith)
same-length (x ∷ xs) [] h = absurd (ground arith)
same-length (x ∷ xs) (y ∷ ys) h = ground (arith, same-length xs ys)

-- On two sequences of bytes `constant_time_eq` answers whether they are the same.
pub constant_time_eq-same :
    (xs ys : List ℕ)
    → all_bytes xs ≡ true
    → all_bytes ys ≡ true
    → constant_time_eq xs ys ≡ same xs ys
unfolding constant_time_eq
constant_time_eq-same xs ys h k = elim (Bool-cases (length xs == length ys)) [
  | inl e ↦ rw (constant_time_eq, e) (differences-zero 0 xs ys (omega arith) h k (ground arith))
  | inr e ↦ elim (Bool-cases (same xs ys)) [
    | inl s ↦ absurd (ground (arith, same-length xs ys s))
    | inr s ↦ rw (constant_time_eq, e, s) refl
  ]
]
