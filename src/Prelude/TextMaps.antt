-- ===== src/Prelude/TextMaps.antt =====
-- `HashMap` keyed by texts, as an association list, and the test of equal texts.
use Prim.Native.String.{String}
use mathlib.Core.Path.{◌≡◌, refl}
use mathlib.Core.Logic.{inl, inr}
use mathlib.Core.Bool.{Bool, true}
use mathlib.Core.List.{List, [], ◌∷◌}
use mathlib.Core.Option.{Option, none, some}
use text.Mathlib.Text.{◌==◌}
use text.Mathlib.TextEquality.{eq_iff}
use text.Mathlib.TextPositions.{eq_refl}
use native.Mathlib.Omega.{arith}
use limux.Prelude.Tests.{if◌then◌else◌, Bool-cases}

abbrev pub same_text : String → String → Bool
same_text a b = a == b

pub same_text_iff : (a b : String) → same_text a b ≡ true → a ≡ b
same_text_iff a b h = (eq_iff a b).0 h

pub same_text_refl : (a : String) → same_text a a ≡ true
same_text_refl a = eq_refl a

abbrev pub TextMap {ℓ} : Type ℓ → Type ℓ
TextMap V = List (String × V)

module _ {ℓ} {V : Type ℓ} where
  unfoldable pub lookup_text : String → TextMap V → Option V
  lookup_text k [] = none
  lookup_text k ((j, v) ∷ m) = if same_text j k then some v else lookup_text k m

  unfoldable pub insert_text : String → V → TextMap V → TextMap V
  insert_text k v [] = (k, v) ∷ []
  insert_text k v ((j, w) ∷ m) = if same_text j k then (k, v) ∷ m else (j, w) ∷ insert_text k v m

  unfoldable pub remove_text : String → TextMap V → TextMap V
  remove_text k [] = []
  remove_text k ((j, w) ∷ m) =
      let rest = remove_text k m in if same_text j k then rest else (j, w) ∷ rest

  pub lookup-insert_text :
      (k j : String) (v : V) (m : TextMap V)
      → lookup_text j (insert_text k v m) ≡ (if same_text k j then some v else lookup_text j m)
  unfolding lookup_text insert_text
  lookup-insert_text k j v [] = refl
  lookup-insert_text k j v ((i, w) ∷ m) = elim (Bool-cases (same_text i k)) [
    | inl e ↦ ground (arith, same_text_iff i k e)
    | inr n ↦ elim (Bool-cases (same_text i j)) [
      | inr n' ↦ ground (arith, lookup-insert_text k j v m)
      | inl e' ↦ elim (Bool-cases (same_text k j)) [
        | inr n' ↦ ground arith
        | inl e ↦
            absurd (ground (arith, same_text_iff i j e', same_text_iff k j e, same_text_refl j))
      ]
    ]
  ]

  pub lookup-remove_text :
      (k j : String) (m : TextMap V)
      → lookup_text j (remove_text k m) ≡ (if same_text k j then none else lookup_text j m)
  unfolding lookup_text remove_text
  lookup-remove_text k j [] = ground arith
  lookup-remove_text k j ((i, w) ∷ m) = elim (Bool-cases (same_text i k)) [
    | inl e ↦ ground (arith, same_text_iff i k e, lookup-remove_text k j m)
    | inr n ↦ elim (Bool-cases (same_text i j)) [
      | inr n' ↦ ground (arith, lookup-remove_text k j m)
      | inl e' ↦ elim (Bool-cases (same_text k j)) [
        | inr n' ↦ ground arith
        | inl e ↦
            absurd (ground (arith, same_text_iff i j e', same_text_iff k j e, same_text_refl j))
      ]
    ]
  ]
