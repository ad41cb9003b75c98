-- ===== src/Prelude/Matches.antt =====
-- What comparing texts, stripping a prefix and taking the last part do.
use Prim.Native.Nat.{ℕ}
use mathlib.Core.Path.{◌≡◌, refl, ap, ap₂, sym, ◌∙◌}
use mathlib.Core.Bool.{true, false}
use mathlib.Core.List.{[], ◌∷◌, ◌++◌}
use mathlib.Core.Option.{some}
use native.Mathlib.Omega.{arith}
use mathlib.Core.Logic.{inl, inr, ◌↔◌}
use limux.Prelude.Tests.{◌==◌, ==_iff, ==_refl, Bool-cases}
use limux.Prelude.Texts.{Text, contains, last_part, same, strip_prefix}

pub same_refl : (t : Text) → same t t ≡ true
same_refl [] = refl
same_refl (c ∷ t) = ground (arith, ==_refl c, same_refl t)

pub same_iff : (s t : Text) → (same s t ≡ true) ↔ (s ≡ t)
same_iff s t = (same-path s t, λ e. ap (same s) (sym e) ∙ same_refl s)
  where
    same-path : (u v : Text) → same u v ≡ true → u ≡ v
    same-path [] [] h = refl
    same-path [] (d ∷ v) h = absurd (ground arith)
    same-path (c ∷ u) [] h = absurd (ground arith)
    same-path (c ∷ u) (d ∷ v) h =
        let e : c ≡ d = (==_iff c d).0 (ground arith) in
        let r = same-path u v (ground arith) in ap₂ (λ x y. x ∷ y) e r

pub strip_prefix-append : (p rest : Text) → strip_prefix p (p ++ rest) ≡ some rest
strip_prefix-append [] rest = refl
strip_prefix-append (c ∷ p) rest = rw (==_refl c) (strip_prefix-append p rest)

pub strip_prefix-some : (p t rest : Text) → strip_prefix p t ≡ some rest → t ≡ p ++ rest
strip_prefix-some [] t rest e = ground arith
strip_prefix-some (c ∷ p) [] rest e = absurd (ground arith)
strip_prefix-some (c ∷ p) (d ∷ t) rest e = elim (Bool-cases (c == d)) [
  | inl h ↦
      let r = strip_prefix-some p t rest (ground arith) in
      ap₂ (λ x y. x ∷ y) (sym ((==_iff c d).0 h)) r
  | inr h ↦ absurd (ground arith)
]

pub last_part-split :
    (c : ℕ) (t : Text)
    → contains c t ≡ true
    → (head : Text) × (t ≡ head ++ c ∷ last_part c t) × (contains c (last_part c t) ≡ false)
last_part-split c [] h = absurd (ground arith)
last_part-split c (d ∷ ds) h = elim (Bool-cases (contains c ds)) [
  | inl e ↦ let (head, f, g) = last_part-split c ds e in rw e (d ∷ head, ap (λ t. d ∷ t) f, g)
  | inr e ↦
      let z : (d == c) ≡ true = ground arith in
      rw (e, z) ([], ap (λ x. x ∷ ds) ((==_iff d c).0 z), e)
]

pub contains-append : (c : ℕ) (head tail : Text) → contains c (head ++ c ∷ tail) ≡ true
contains-append c [] tail = rw (==_refl c) refl
contains-append c (d ∷ head) tail = ground (arith, contains-append c head tail)

pub last_part-append :
    (c : ℕ) (head tail : Text) → contains c tail ≡ false → last_part c (head ++ c ∷ tail) ≡ tail
last_part-append c [] tail h = rw (h, ==_refl c) refl
last_part-append c (d ∷ head) tail h =
    rw (contains-append c head tail) (last_part-append c head tail h)

pub last_part-whole : (c : ℕ) (t : Text) → contains c t ≡ false → last_part c t ≡ t
last_part-whole c [] h = refl
last_part-whole c (d ∷ ds) h =
    let e : contains c ds ≡ false = ground arith in
    let f : (d == c) ≡ false = ground arith in rw (e, f) refl
