-- ===== src/Prelude/Finding.antt =====
-- `position` and `find` of the same test, and `find` in what is left after a removal.
use Prim.Native.Nat.{ℕ, zero, suc}
use mathlib.Core.Path.{◌≡◌, refl}
use mathlib.Core.Logic.{inl, inr}
use mathlib.Core.Bool.{Bool, true, false}
use mathlib.Core.List.{List, [], ◌∷◌}
use mathlib.Core.Option.{some}
use native.Mathlib.Omega.{arith}
use limux.Prelude.Tests.{Bool-cases, Option-cases}
use limux.Prelude.Lists.{position, find, get_elem?, remove_at}

-- The first element that a test finds, by its position and in what is left after a removal.
pub position-find {ℓ} :
    {A : Type ℓ} (p : A → Bool) (xs : List A) (i : ℕ)
    → position p xs ≡ some i
    → (a : A) × (get_elem? xs i ≡ some a) × (find p xs ≡ some a) × (p a ≡ true)
position-find p [] i e = absurd (ground arith)
position-find p (x ∷ xs) i e = elim (Bool-cases (p x)) [
  | inl h ↦ let z : i ≡ 0 = ground arith in rw (z, h) (x, refl, refl, h)
  | inr h ↦ elim (Option-cases (position p xs)) [
    | inl n ↦ absurd (ground arith)
    | inr (j, f) ↦
        let z : i ≡ suc j = ground arith in
        let (a, at, found, hit) = position-find p xs j f in rw (z, h) (a, at, found, hit)
  ]
]

pub find-position {ℓ} :
    {A : Type ℓ} (p : A → Bool) (xs : List A) (a : A)
    → find p xs ≡ some a
    → (j : ℕ) × (position p xs ≡ some j) × (get_elem? xs j ≡ some a)
find-position p [] a e = absurd (ground arith)
find-position p (x ∷ xs) a e = elim (Bool-cases (p x)) [
  | inl h ↦ rw h (0, refl, ground arith)
  | inr h ↦ let (j, f, at) = find-position p xs a (ground arith) in rw (h, f) (suc j, refl, at)
]

pub find-remove_at {ℓ} :
    {A : Type ℓ} (p : A → Bool) (xs : List A) (i : ℕ) (a : A)
    → get_elem? xs i ≡ some a
    → p a ≡ false
    → find p (remove_at xs i) ≡ find p xs
find-remove_at p [] i a e h = refl
find-remove_at p (x ∷ xs) zero a e h = ground arith
find-remove_at p (x ∷ xs) (suc i) a e h = elim (Bool-cases (p x)) [
  | inl k ↦ rw k refl
  | inr k ↦ rw k (find-remove_at p xs i a e h)
]
