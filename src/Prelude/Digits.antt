-- ===== src/Prelude/Digits.antt =====
-- What printing, parsing, trimming and splitting texts do to each other.
use Prim.Native.Nat.{ℕ, zero, suc, ◌+◌, ◌-◌, ◌*◌, ◌/◌, ◌%◌, ◌≤◌, ◌<◌}
use mathlib.Core.Path.{◌≡◌, refl, ap, ◌∙◌}
use mathlib.Core.Bool.{Bool, true, false, ◌&&◌, not}
use mathlib.Core.List.{[], ◌∷◌, ◌++◌}
use mathlib.Core.Option.{some}
use native.Mathlib.Omega.{arith}
use mathlib.Core.Logic.{inl, inr}
use limux.Prelude.Tests.{◌==◌, ==_refl, leb, ltb, Bool-cases}
use limux.Prelude.Texts.{
  Text, contains, split_on, is_whitespace, is_empty, trim, trim_end, digits, digits_value, decimal,
  without_plus, parse_uint,
}

digits_value-append :
    (ds : Text) (acc d m : ℕ)
    → d < 10
    → digits_value acc ds ≡ some m
    → digits_value acc (ds ++ (48 + d) ∷ []) ≡ some (m * 10 + d)
digits_value-append [] acc d m small h = ground arith
digits_value-append (c ∷ ds) acc d m small h = elim (Bool-cases (leb 48 c && leb c 57)) [
  | inl e ↦ rw e (digits_value-append ds (acc * 10 + (c - 48)) d m small (ground arith))
  | inr e ↦ absurd (ground arith)
]

digits_value-digits : (f n : ℕ) → n ≤ f → digits_value 0 (digits f n) ≡ some n
digits_value-digits zero n h = ground arith
digits_value-digits (suc f) n h = elim (Bool-cases (ltb n 10)) [
  | inl e ↦ rw e ground arith
  | inr e ↦ rw e (
      digits_value-append (digits f (n / 10)) 0 (n % 10) (n / 10) (omega arith)
        (digits_value-digits f (n / 10) (ground arith))
      ∙ ap some (omega arith))
]

-- Every character is a decimal digit.
abbrev pub all_digits : Text → Bool
all_digits [] = true
all_digits (c ∷ cs) = leb 48 c && leb c 57 && all_digits cs

all_digits-append :
    (ds : Text) (d : ℕ) → d < 10 → all_digits ds ≡ true → all_digits (ds ++ (48 + d) ∷ []) ≡ true
all_digits-append [] d small h = ground arith
all_digits-append (c ∷ ds) d small h = ground (arith, all_digits-append ds d small)

all_digits-digits : (f n : ℕ) → n ≤ f → all_digits (digits f n) ≡ true
all_digits-digits zero n h = ground arith
all_digits-digits (suc f) n h = elim (Bool-cases (ltb n 10)) [
  | inl e ↦ rw e ground arith
  | inr e ↦ rw e (
      all_digits-append (digits f (n / 10)) (n % 10) (omega arith)
        (all_digits-digits f (n / 10) (ground arith)))
]

-- A text that is not empty and has no white space.
abbrev pub is_solid : Text → Bool
is_solid [] = false
is_solid (c ∷ []) = not (is_whitespace c)
is_solid (c ∷ d ∷ cs) = not (is_whitespace c) && is_solid (d ∷ cs)

trim_end-solid : (t : Text) → is_solid t ≡ true → trim_end t ≡ t
trim_end-solid [] h = refl
trim_end-solid (c ∷ []) h = elim (Bool-cases (is_whitespace c)) [
  | inl e ↦ absurd (ground arith)
  | inr e ↦ rw e refl
]
trim_end-solid (c ∷ d ∷ cs) h = elim (Bool-cases (is_whitespace c)) [
  | inl e ↦ absurd (ground arith)
  | inr e ↦ rw (trim_end-solid (d ∷ cs) (ground arith), e) refl
]

pub trim-solid : (t : Text) → is_solid t ≡ true → trim t ≡ t
trim-solid [] h = refl
trim-solid (c ∷ []) h = elim (Bool-cases (is_whitespace c)) [
  | inl e ↦ absurd (ground arith)
  | inr e ↦ rw e (trim_end-solid (c ∷ []) h)
]
trim-solid (c ∷ d ∷ cs) h = elim (Bool-cases (is_whitespace c)) [
  | inl e ↦ absurd (ground arith)
  | inr e ↦ rw e (trim_end-solid (c ∷ d ∷ cs) h)
]

digit_not_white : (c : ℕ) → (leb 48 c && leb c 57) ≡ true → is_whitespace c ≡ false
digit_not_white c h = ground arith

digits-is_solid : (t : Text) → all_digits t ≡ true → is_empty t ≡ false → is_solid t ≡ true
digits-is_solid [] h e = absurd (ground arith)
digits-is_solid (c ∷ []) h e = ground (arith, digit_not_white c)
digits-is_solid (c ∷ d ∷ cs) h e = ground (arith, digit_not_white c, digits-is_solid (d ∷ cs))

is_empty-append : (t : Text) (c : ℕ) → is_empty (t ++ c ∷ []) ≡ false
is_empty-append [] c = refl
is_empty-append (d ∷ t) c = refl

is_empty-digits : (f n : ℕ) → is_empty (digits f n) ≡ false
is_empty-digits zero n = refl
is_empty-digits (suc f) n = elim (Bool-cases (ltb n 10)) [
  | inl e ↦ rw e refl
  | inr e ↦ rw e (is_empty-append (digits f (n / 10)) (48 + n % 10))
]

pub decimal-is_solid : (n : ℕ) → is_solid (decimal n) ≡ true
unfolding decimal
decimal-is_solid n =
    digits-is_solid (digits n n) (all_digits-digits n n (omega arith)) (is_empty-digits n n)

without_plus-digits : (t : Text) → all_digits t ≡ true → without_plus t ≡ t
without_plus-digits [] h = refl
without_plus-digits (c ∷ cs) h = ground arith

-- Parsing what `to_string` printed gives the number back.
pub parse_uint-decimal : (bound n : ℕ) → n ≤ bound → parse_uint bound (decimal n) ≡ some n
unfolding decimal
parse_uint-decimal bound n h =
    rw
      (
        without_plus-digits (digits n n) (all_digits-digits n n (omega arith)),
        is_empty-digits n n,
        digits_value-digits n n (omega arith),
      )
      ground arith

pub decimal-all_digits : (n : ℕ) → all_digits (decimal n) ≡ true
unfolding decimal
decimal-all_digits n = all_digits-digits n n (omega arith)

-- Without the separator a text is one part, and before a separator it is the first part.
pub split_on-one : (c : ℕ) (t : Text) → contains c t ≡ false → split_on c t ≡ t ∷ []
split_on-one c [] h = refl
split_on-one c (d ∷ t) h = elim (Bool-cases (d == c)) [
  | inl e ↦ absurd (ground arith)
  | inr e ↦ rw (split_on-one c t (ground arith), e) refl
]

pub split_on-append :
    (c : ℕ) (t rest : Text)
    → contains c t ≡ false
    → split_on c (t ++ c ∷ rest) ≡ t ∷ split_on c rest
split_on-append c [] rest h = rw (==_refl c) refl
split_on-append c (d ∷ t) rest h = elim (Bool-cases (d == c)) [
  | inl e ↦ absurd (ground arith)
  | inr e ↦ rw (split_on-append c t rest (ground arith), e) refl
]

-- A separator that is no digit is not in a text of digits.
pub contains-digits : (c : ℕ) (t : Text) → 57 < c → all_digits t ≡ true → contains c t ≡ false
contains-digits c [] big h = refl
contains-digits c (d ∷ t) big h = ground (arith, contains-digits c t big)
