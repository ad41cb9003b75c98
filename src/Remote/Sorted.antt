-- ===== src/Remote/Sorted.antt =====
-- The sort of the ssh options in `transport_key` of app/src/remote/config.rs forgets their order and
-- nothing else.
use limux.Prelude.{
  ◌≡◌, refl, arith, true, false, List, [], ◌∷◌, ap, ◌∙◌, sym, Text, Bool-cases, inl, inr, ◌↔◌,
}
use mathlib.Core.List.{Perm}
use mathlib.Core.List.Perm
use limux.Remote.Transport.{sort, insert_option, text_le}

text_le-total : (xs ys : Text) → text_le xs ys ≡ false → text_le ys xs ≡ true
unfolding text_le
text_le-total [] ys h = ground arith
text_le-total (x ∷ xs) [] h = refl
text_le-total (x ∷ xs) (y ∷ ys) h = ground (arith, text_le-total xs ys)

text_le-same : (xs ys : Text) → text_le xs ys ≡ true → text_le ys xs ≡ true → xs ≡ ys
unfolding text_le
text_le-same [] [] h k = refl
text_le-same [] (y ∷ ys) h k = absurd (ground arith)
text_le-same (x ∷ xs) [] h k = absurd (ground arith)
text_le-same (x ∷ xs) (y ∷ ys) h k = elim (Bool-cases (text_le xs ys)) [
  | inl e ↦ elim (Bool-cases (text_le ys xs)) [
    | inl f ↦ let r = text_le-same xs ys e f in let z : x ≡ y = ground arith in ground arith
    | inr f ↦ absurd (ground arith)
  ]
  | inr e ↦ absurd (ground arith)
]

text_le-chain :
    (xs ys zs : Text) → text_le xs ys ≡ true → text_le ys zs ≡ true → text_le xs zs ≡ true
unfolding text_le
text_le-chain [] ys zs h k = refl
text_le-chain (x ∷ xs) [] zs h k = absurd (ground arith)
text_le-chain (x ∷ xs) (y ∷ ys) [] h k = absurd (ground arith)
text_le-chain (x ∷ xs) (y ∷ ys) (z ∷ zs) h k = ground (arith, text_le-chain xs ys zs)

insert_option-insert_option :
    (a b : Text) (os : List Text)
    → insert_option a (insert_option b os) ≡ insert_option b (insert_option a os)
unfolding insert_option
insert_option-insert_option a b [] = elim (Bool-cases (text_le a b)) [
  | inl e ↦ elim (Bool-cases (text_le b a)) [
    | inl f ↦ let z = text_le-same a b e f in ground arith
    | inr f ↦ ground arith
  ]
  | inr e ↦ let f = text_le-total a b e in ground arith
]
insert_option-insert_option a b (p ∷ ps) = elim (Bool-cases (text_le a b)) [
  | inl e ↦ elim (Bool-cases (text_le b a)) [
    | inl f ↦
        let z = text_le-same a b e f in
        ap (λ x. insert_option x (insert_option b (p ∷ ps))) z
        ∙ ap (λ x. insert_option b (insert_option x (p ∷ ps))) (sym z)
    | inr f ↦ ground (arith, insert_option-insert_option a b ps, text_le-chain a b p)
  ]
  | inr e ↦
      let f = text_le-total a b e in
      ground (arith, insert_option-insert_option a b ps, text_le-chain b a p)
]

sort-same : {os ps : List Text} → Perm os ps → sort os ≡ sort ps
unfolding sort
sort-same p =
    let set : IsSet (List Text) = hlevel in
    Perm.foldr-eq set insert_option insert_option-insert_option p []

insert_option-Perm : (o : Text) (os : List Text) → Perm (insert_option o os) (o ∷ os)
unfolding insert_option
insert_option-Perm o [] = Perm.rfl
insert_option-Perm o (p ∷ ps) = elim (Bool-cases (text_le o p)) [
  | inl e ↦ rw e Perm.rfl
  | inr e ↦ rw e (Perm.trans (Perm.cons p (insert_option-Perm o ps)) (Perm.swap o p ps))
]

sort-Perm : (os : List Text) → Perm (sort os) os
unfolding sort
sort-Perm [] = Perm.rfl
sort-Perm (o ∷ os) = Perm.trans (insert_option-Perm o (sort os)) (Perm.cons o (sort-Perm os))

pub sort-same_iff : (os ps : List Text) → (sort os ≡ sort ps) ↔ Perm os ps
sort-same_iff os ps = (λ e. Perm.trans (Perm.symm (sort-Perm os)) (rw e (sort-Perm ps)), sort-same)
