-- ===== src/Prelude/Texts.antt =====
-- Texts as lists of code points, with the functions of Rust's `str` that the app calls.
use Prim.Native.Nat.{ℕ, zero, suc, ◌+◌, ◌-◌, ◌*◌, ◌/◌, ◌%◌}
use Prim.Native.String.{String}
use Prim.Native.Char.{code}
use mathlib.Core.Bool.{Bool, true, false, ◌&&◌, ◌||◌}
use mathlib.Core.List.{List, [], ◌∷◌, ◌++◌}
use mathlib.Core.Option.{Option, none, some}
use limux.Prelude.Tests.{◌==◌, if◌then◌else◌, leb, ltb}

abbrev pub Text : Type 0
Text = List ℕ

-- The text of a literal.
abbrev pub text : String → Text
text String.[] = []
text (String.◌∷◌ c cs) = code c ∷ text cs

abbrev pub same : Text → Text → Bool
same [] [] = true
same [] (b ∷ bs) = false
same (a ∷ as') [] = false
same (a ∷ as') (b ∷ bs) = (a == b) && same as' bs

abbrev pub contains : ℕ → Text → Bool
contains c [] = false
contains c (d ∷ ds) = (d == c) || contains c ds

-- `strip_prefix`: what follows the prefix, if the text starts with it.
abbrev pub strip_prefix : Text → Text → Option Text
strip_prefix [] t = some t
strip_prefix (p ∷ ps) [] = none
strip_prefix (p ∷ ps) (c ∷ cs) = if p == c then strip_prefix ps cs else none

abbrev pub starts_with : Text → Text → Bool
starts_with p t = elim (strip_prefix p t) [ none ↦ false | some rest ↦ true ]

-- `char::is_whitespace`.
abbrev pub is_whitespace : ℕ → Bool
is_whitespace c =
    (leb 9 c && leb c 13)
    || (c == 32)
    || (c == 133)
    || (c == 160)
    || (c == 5760)
    || (leb 8192 c && leb c 8202)
    || (c == 8232)
    || (c == 8233)
    || (c == 8239)
    || (c == 8287)
    || (c == 12288)

abbrev pub trim_start : Text → Text
trim_start [] = []
trim_start (c ∷ cs) = if is_whitespace c then trim_start cs else c ∷ cs

abbrev pub is_empty : Text → Bool
is_empty [] = true
is_empty (c ∷ cs) = false

abbrev pub trim_end : Text → Text
trim_end [] = []
trim_end (c ∷ cs) =
    let rest = trim_end cs in if is_whitespace c && is_empty rest then [] else c ∷ rest

abbrev pub trim : Text → Text
trim t = trim_end (trim_start t)

-- The text up to the first character of the kind, and what follows that character.
abbrev pub cut : (ℕ → Bool) → Text → Text × Option Text
cut f [] = ([], none)
cut f (c ∷ cs) = let (front, back) = cut f cs in if f c then ([], some cs) else (c ∷ front, back)

-- `split(c)`, which has one part more than the text has separators.
abbrev pub split_on : ℕ → Text → List Text
split_on c [] = [] ∷ []
split_on c (d ∷ ds) =
    let parts = split_on c ds in
    if d == c then [] ∷ parts else elim parts [ [] ↦ (d ∷ []) ∷ [] | p ∷ ps ↦ (d ∷ p) ∷ ps ]

-- `rsplit(c).next()`: what follows the last separator.
abbrev pub last_part : ℕ → Text → Text
last_part c [] = []
last_part c (d ∷ ds) = if contains c ds then last_part c ds else if d == c then ds else d ∷ ds

-- `to_lowercase`, for the letters whose lower case is ASCII.
abbrev pub to_lowercase : Text → Text
to_lowercase [] = []
to_lowercase (c ∷ cs) =
    (if leb 65 c && leb c 90 then c + 32 else if c == 8490 then 107 else c) ∷ to_lowercase cs

abbrev pub digits_value : ℕ → Text → Option ℕ
digits_value acc [] = some acc
digits_value acc (c ∷ cs) =
    if leb 48 c && leb c 57 then digits_value (acc * 10 + (c - 48)) cs else none

abbrev pub at_most : ℕ → Option ℕ → Option ℕ
at_most bound none = none
at_most bound (some n) = if leb n bound then some n else none

abbrev pub without_plus : Text → Text
without_plus [] = []
without_plus (c ∷ cs) = if c == 43 then cs else c ∷ cs

-- `parse` to an unsigned integer that is at most the bound: digits after an optional plus.
abbrev pub parse_uint : ℕ → Text → Option ℕ
parse_uint bound t =
    let ds = without_plus t in if is_empty ds then none else at_most bound (digits_value 0 ds)

-- `to_string` of an unsigned integer; its value is fuel enough.
abbrev pub digits : ℕ → ℕ → Text
digits zero n = (48 + n) ∷ []
digits (suc f) n =
    let rest = digits f (n / 10) in if ltb n 10 then (48 + n) ∷ [] else rest ++ (48 + n % 10) ∷ []

unfoldable pub decimal : ℕ → Text
decimal n = digits n n

-- `split_whitespace`, given the word being read.
abbrev pub words_from : Text → Text → List Text
words_from word [] = if is_empty word then [] else word ∷ []
words_from word (c ∷ cs) =
    let fresh = words_from [] cs in
    if is_whitespace c
    then (if is_empty word then fresh else word ∷ fresh)
    else words_from (word ++ c ∷ []) cs

abbrev pub split_whitespace : Text → List Text
split_whitespace t = words_from [] t

-- `lines().next()`, empty where there is no line.
abbrev pub without_cr : Text → Text
without_cr [] = []
without_cr (c ∷ []) = if c == 13 then [] else c ∷ []
without_cr (c ∷ d ∷ cs) = c ∷ without_cr (d ∷ cs)

abbrev pub line_of : Text × Option Text → Text
line_of (front, none) = front
line_of (front, some rest) = without_cr front

abbrev pub first_line : Text → Text
first_line t = line_of (cut (λ c. c == 10) t)

abbrev pub ascii_lowercase : Text → Text
ascii_lowercase [] = []
ascii_lowercase (c ∷ cs) = (if leb 65 c && leb c 90 then c + 32 else c) ∷ ascii_lowercase cs

abbrev pub eq_ignore_ascii_case : Text → Text → Bool
eq_ignore_ascii_case s t = same (ascii_lowercase s) (ascii_lowercase t)

-- What stands before and after the last such character.
abbrev pub rsplit_once : ℕ → Text → Option (Text × Text)
rsplit_once c [] = none
rsplit_once c (d ∷ ds) = elim (rsplit_once c ds) [
  | some (front, back) ↦ some (d ∷ front, back)
  | none ↦ if d == c then some ([], ds) else none
]

-- `join`.
unfoldable pub join : Text → List Text → Text
join sep [] = []
join sep (t ∷ []) = t
join sep (t ∷ u ∷ ts) = t ++ (sep ++ join sep (u ∷ ts))
