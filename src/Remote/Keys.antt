-- ===== src/Remote/Keys.antt =====
-- The parts of a transport key of app/src/remote/config.rs are read back from the key.
use limux.Prelude.{
  ℕ, ◌+◌, ◌≡◌, ◌≢◌, refl, arith, false, Option, none, some, List, [], ◌∷◌, ◌++◌, ap, ◌∙◌, sym, Text,
  decimal, join, map, head?, split_on, split_on-one, split_on-append, contains, parse_uint,
  parse_uint-decimal,
}
use limux.Remote.Transport.{optional_part}

-- None of the parts has the character.
abbrev pub AllWithout : ℕ → List Text → Type 0
AllWithout c [] = Unit
AllWithout c (t ∷ ts) = contains c t ≡ false × AllWithout c ts

pub split_on-join :
    (c : ℕ) (t : Text) (ts : List Text)
    → AllWithout c (t ∷ ts)
    → split_on c (join (c ∷ []) (t ∷ ts)) ≡ t ∷ ts
unfolding join
split_on-join c t [] (e, h) = split_on-one c t e
split_on-join c t (u ∷ ts) (e, h) =
    split_on-append c t (join (c ∷ []) (u ∷ ts)) e ∙ ap (λ r. t ∷ r) (split_on-join c u ts h)

pub decimal-same : (m n : ℕ) → decimal m ≡ decimal n → m ≡ n
decimal-same m n e =
    let a = parse_uint-decimal (m + n) m (omega arith) in
    let b = parse_uint-decimal (m + n) n (omega arith) in
    let c : some m ≡ some n = sym a ∙ ap (parse_uint (m + n)) e ∙ b in ground arith

pub map-same :
    (prefix : Text) (xs ys : List Text)
    → map (λ x. prefix ++ x) xs ≡ map (λ x. prefix ++ x) ys
    → ((x y : Text) → prefix ++ x ≡ prefix ++ y → x ≡ y)
    → xs ≡ ys
map-same prefix [] [] e h = refl
map-same prefix [] (y ∷ ys) e h = absurd (ground arith)
map-same prefix (x ∷ xs) [] e h = absurd (ground arith)
map-same prefix (x ∷ xs) (y ∷ ys) e h =
    let a : prefix ++ x ≡ prefix ++ y = ground arith in
    let b : map (λ x. prefix ++ x) xs ≡ map (λ x. prefix ++ x) ys = ground arith in
    let r = h x y a in let s = map-same prefix xs ys b h in ground arith

-- The first character of the first part.
abbrev pub initial : List Text → Option ℕ
initial [] = none
initial (t ∷ ts) = head? t

-- A part that only some lists have is told from what follows by its first character.
pub optional_part-same :
    (k : ℕ) (a b : Option Text) (xs ys : List Text)
    → ((t : Text) → a ≡ some t → head? t ≡ some k)
    → ((t : Text) → b ≡ some t → head? t ≡ some k)
    → initial xs ≢ some k
    → initial ys ≢ some k
    → optional_part a ++ xs ≡ optional_part b ++ ys
    → a ≡ b × xs ≡ ys
optional_part-same k none none xs ys ha hb hx hy e = (refl, e)
optional_part-same k (some t) (some u) xs ys ha hb hx hy e = (ground arith, ground arith)
optional_part-same k none (some u) xs ys ha hb hx hy e = absurd (hx (ap initial e ∙ hb u refl))
optional_part-same k (some t) none xs ys ha hb hx hy e =
    absurd (hy (ap initial (sym e) ∙ ha t refl))
