-- ===== src/Prelude/Lists.antt =====
-- Lists measured and indexed by native numbers, under the library's names.
use Prim.Native.Nat.{ℕ, zero, suc, ◌+◌, ◌≤◌, ◌<◌}
use mathlib.Core.Path.{◌≡◌, refl}
use mathlib.Core.Bool.{Bool, true, false, ◌||◌, ◌&&◌}
use mathlib.Core.List.{List, [], ◌∷◌, ◌++◌}
use mathlib.Core.Option.{Option, none, some}
use native.Mathlib.Omega.{arith}
use mathlib.Core.Logic.{inl, inr}
use limux.Prelude.Tests.{if◌then◌else◌, ◌==◌, Bool-cases, Option-cases}

module _ {ℓ} {A : Type ℓ} where
  abbrev pub length : List A → ℕ
  length [] = 0
  length (x ∷ xs) = suc (length xs)

  abbrev pub get_elem? : List A → ℕ → Option A
  get_elem? [] i = none
  get_elem? (x ∷ xs) zero = some x
  get_elem? (x ∷ xs) (suc i) = get_elem? xs i

  abbrev pub take : ℕ → List A → List A
  take zero xs = []
  take (suc n) [] = []
  take (suc n) (x ∷ xs) = x ∷ take n xs

  abbrev pub drop : ℕ → List A → List A
  drop zero xs = xs
  drop (suc n) [] = []
  drop (suc n) (x ∷ xs) = drop n xs

  pub length-append : (xs ys : List A) → length (xs ++ ys) ≡ length xs + length ys
  length-append [] ys = omega arith
  length-append (x ∷ xs) ys = omega (arith, length-append xs ys)

  -- `Iterator::position`.
  abbrev pub position : (A → Bool) → List A → Option ℕ
  position p [] = none
  position p (x ∷ xs) =
      let rest = position p xs in
      if p x then some 0 else elim rest [ none ↦ none | some i ↦ some (suc i) ]

  -- `Iterator::find`.
  abbrev pub find : (A → Bool) → List A → Option A
  find p [] = none
  find p (x ∷ xs) = if p x then some x else find p xs

  -- `Iterator::any`.
  abbrev pub any : (A → Bool) → List A → Bool
  any p [] = false
  any p (x ∷ xs) = p x || any p xs

  -- `Vec::remove` at an index in range.
  abbrev pub remove_at : List A → ℕ → List A
  remove_at [] i = []
  remove_at (x ∷ xs) zero = xs
  remove_at (x ∷ xs) (suc i) = x ∷ remove_at xs i

  abbrev pub head? : List A → Option A
  head? [] = none
  head? (x ∷ xs) = some x

  -- `iter_mut().find(p)` with the found element changed by `f`.
  abbrev pub update_first : (A → Bool) → (A → A) → List A → List A
  update_first p f [] = []
  update_first p f (x ∷ xs) = let rest = x ∷ update_first p f xs in if p x then f x ∷ xs else rest

  -- `Iterator::filter_map`.
  abbrev pub filter_map {κ} : {B : Type κ} → (A → Option B) → List A → List B
  filter_map f [] = []
  filter_map f (x ∷ xs) =
      let rest = filter_map f xs in elim (f x) [ none ↦ rest | some y ↦ y ∷ rest ]

  -- `Iterator::filter`.
  abbrev pub filter : (A → Bool) → List A → List A
  filter p [] = []
  filter p (x ∷ xs) = let rest = filter p xs in if p x then x ∷ rest else rest

  abbrev pub all : (A → Bool) → List A → Bool
  all p [] = true
  all p (x ∷ xs) = p x && all p xs

  pub any-position :
      (p : A → Bool) (xs : List A)
      → any p xs ≡ elim (position p xs) [ none ↦ false | some i ↦ true ]
  any-position p [] = refl
  any-position p (x ∷ xs) = ground (arith, any-position p xs)

  pub get_elem?-remove_at_lt :
      (xs : List A) (i j : ℕ) → j < i → get_elem? (remove_at xs i) j ≡ get_elem? xs j
  get_elem?-remove_at_lt [] i j h = refl
  get_elem?-remove_at_lt (x ∷ xs) zero j h = absurd (omega arith)
  get_elem?-remove_at_lt (x ∷ xs) (suc i) zero h = refl
  get_elem?-remove_at_lt (x ∷ xs) (suc i) (suc j) h = get_elem?-remove_at_lt xs i j (omega arith)

  pub get_elem?-remove_at_ge :
      (xs : List A) (i j : ℕ) → i ≤ j → get_elem? (remove_at xs i) j ≡ get_elem? xs (suc j)
  get_elem?-remove_at_ge [] i j h = refl
  get_elem?-remove_at_ge (x ∷ xs) zero j h = refl
  get_elem?-remove_at_ge (x ∷ xs) (suc i) zero h = absurd (omega arith)
  get_elem?-remove_at_ge (x ∷ xs) (suc i) (suc j) h = get_elem?-remove_at_ge xs i j (omega arith)

  pub get_elem?-lt : (xs : List A) (i : ℕ) {a : A} → get_elem? xs i ≡ some a → i < length xs
  get_elem?-lt [] i e = absurd (ground arith)
  get_elem?-lt (x ∷ xs) zero e = omega arith
  get_elem?-lt (x ∷ xs) (suc i) e = omega (arith, get_elem?-lt xs i e)

  pub length-remove_at :
      (xs : List A) (i : ℕ) → i < length xs → length (remove_at xs i) + 1 ≡ length xs
  length-remove_at [] i h = absurd (omega arith)
  length-remove_at (x ∷ xs) zero h = omega arith
  length-remove_at (x ∷ xs) (suc i) h = omega (arith, length-remove_at xs i (omega arith))

  pub position-lt : (p : A → Bool) (xs : List A) (i : ℕ) → position p xs ≡ some i → i < length xs
  position-lt p [] i e = absurd (ground arith)
  position-lt p (x ∷ xs) i e = elim (Bool-cases (p x)) [
    | inl h ↦ ground arith
    | inr h ↦ elim (Option-cases (position p xs)) [
      | inl n ↦ absurd (ground arith)
      | inr (j, f) ↦ let z : i ≡ suc j = ground arith in omega (arith, position-lt p xs j f)
    ]
  ]

-- How often a number occurs.
abbrev pub count : ℕ → List ℕ → ℕ
count q [] = 0
count q (x ∷ xs) = (if x == q then 1 else 0) + count q xs

pub count-append : (q : ℕ) (xs ys : List ℕ) → count q (xs ++ ys) ≡ count q xs + count q ys
count-append q [] ys = omega arith
count-append q (x ∷ xs) ys = omega (arith, count-append q xs ys)

pub count_pos-get_elem? : (xs : List ℕ) (j x : ℕ) → get_elem? xs j ≡ some x → 0 < count x xs
count_pos-get_elem? [] j x e = absurd (ground arith)
count_pos-get_elem? (y ∷ xs) zero x e = ground arith
count_pos-get_elem? (y ∷ xs) (suc j) x e = omega (arith, count_pos-get_elem? xs j x e)

-- In a list without repetition an element is found where it stands.
pub position-get_elem? :
    (xs : List ℕ) (j x : ℕ)
    → count x xs ≤ 1
    → get_elem? xs j ≡ some x
    → position (λ a. a == x) xs ≡ some j
position-get_elem? [] j x u e = absurd (ground arith)
position-get_elem? (y ∷ xs) zero x u e = ground arith
position-get_elem? (y ∷ xs) (suc j) x u e =
    ground (arith, position-get_elem? xs j x, count_pos-get_elem? xs j x e)

pub get_elem?-position :
    (xs : List ℕ) (i x : ℕ) → position (λ a. a == x) xs ≡ some i → get_elem? xs i ≡ some x
get_elem?-position [] i x e = absurd (ground arith)
get_elem?-position (y ∷ xs) i x e = elim (Bool-cases (y == x)) [
  | inl h ↦ let z : i ≡ 0 = ground arith in ground arith
  | inr h ↦ elim (Option-cases (position (λ a. a == x) xs)) [
    | inl n ↦ absurd (ground arith)
    | inr (j, f) ↦ let z : i ≡ suc j = ground arith in ground (arith, get_elem?-position xs j x f)
  ]
]

pub position-some :
    (xs : List ℕ) (x : ℕ) → 0 < count x xs → (i : ℕ) × (position (λ a. a == x) xs ≡ some i)
position-some [] x h = absurd (omega arith)
position-some (y ∷ xs) x h = elim (Bool-cases (y == x)) [
  | inl e ↦ rw e (0, refl)
  | inr e ↦ let (i, f) = position-some xs x (ground arith) in rw (e, f) (suc i, refl)
]

pub get_elem?-some {ℓ} :
    {A : Type ℓ} (xs : List A) (i : ℕ) → i < length xs → (a : A) × (get_elem? xs i ≡ some a)
get_elem?-some [] i h = absurd (omega arith)
get_elem?-some (x ∷ xs) zero h = (x, refl)
get_elem?-some (x ∷ xs) (suc i) h = get_elem?-some xs i (omega arith)
