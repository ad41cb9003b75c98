-- ===== src/Prelude/Cyclic.antt =====
-- Stepping an index round a ring of `n` places, as `% len` does in the sources.
use Prim.Native.Nat.{ℕ, ◌+◌, ◌-◌, ◌%◌, ◌<◌}
use mathlib.Core.Path.{◌≡◌, ◌∙◌, ap}
use native.Mathlib.Omega.{arith}
use native.Mathlib.Nat.{mod-eq_of_lt, mod_self, add-mod_right}
use native.Mathlib.Decide.{dec_lt}

mod_wraps : (i n : ℕ) → i + 1 ≡ n → (i + 1) % n ≡ 0
mod_wraps i n e = rw e (mod_self n)

mod_down : (i n : ℕ) → 0 < i → i < n → (i + n - 1) % n ≡ i - 1
mod_down i n p h =
    ap (λ k. k % n) (let e : i + n - 1 ≡ (i - 1) + n = omega arith in e)
    ∙ add-mod_right (i - 1) n
    ∙ mod-eq_of_lt (omega arith)

mod_down_zero : (n : ℕ) → 0 < n → (0 + n - 1) % n ≡ n - 1
mod_down_zero n h =
    ap (λ k. k % n) (let e : 0 + n - 1 ≡ n - 1 = omega arith in e) ∙ mod-eq_of_lt (omega arith)

pub back_and_forth : (i n : ℕ) → i < n → ((i + 1) % n + n - 1) % n ≡ i
back_and_forth i n h = elim (dec_lt (i + 1) n) [
  | yes l ↦ rw (mod-eq_of_lt l) (mod_down (i + 1) n (omega arith) l ∙ (omega arith))
  | no g ↦ rw (mod_wraps i n (omega arith)) (mod_down_zero n (omega arith) ∙ (omega arith))
]

pub forth_and_back : (i n : ℕ) → i < n → ((i + n - 1) % n + 1) % n ≡ i
forth_and_back i n h = elim (dec_lt 0 i) [
  | yes p ↦
      rw (mod_down i n p h)
        (ap (λ k. k % n) (let e : i - 1 + 1 ≡ i = omega arith in e) ∙ mod-eq_of_lt h)
  | no z ↦
      let e : i ≡ 0 = omega arith in
      rw (e, mod_down_zero n (omega arith))
        (ap (λ k. k % n) (let f : n - 1 + 1 ≡ n = omega arith in f) ∙ mod_self n)
]
