-- ===== src/Prelude/Utf8.antt =====
-- `String::from_utf8` and `String::from_utf8_lossy`, and texts printed in hexadecimal.
use Prim.Native.Nat.{ℕ, ◌+◌, ◌-◌, ◌*◌, ◌/◌, ◌%◌}
use mathlib.Core.Path.{◌≡◌, refl}
use mathlib.Core.Bool.{Bool, true, false, ◌&&◌}
use mathlib.Core.List.{List, [], ◌∷◌, map}
use mathlib.Core.Option.{Option, none, some}
use native.Mathlib.Omega.{arith}
use limux.Prelude.Tests.{if◌then◌else◌, leb, ltb, ◌==◌}
use limux.Prelude.Texts.{Text}

-- Where the decoder stands: between characters, or with the bits read and the continuation bytes
-- wanted, the first of them in a range.
pub data Decoder : Type 0 where
  between : Decoder
  inside : (bits wanted low high : ℕ) → Decoder

-- What a byte between characters does.
pub data Lead : Type 0 where
  whole : ℕ → Lead
  starts : Decoder → Lead
  wrong : Lead

abbrev pub lead : ℕ → Lead
lead b =
    if ltb b 128
    then whole b
    else if leb 194 b && leb b 223
    then starts (inside (b - 192) 1 128 191)
    else if leb 224 b && leb b 239
    then starts (inside (b - 224) 2 (if b == 224 then 160 else 128) (if b == 237 then 159 else 191))
    else if leb 240 b && leb b 244
    then starts (inside (b - 240) 3 (if b == 240 then 144 else 128) (if b == 244 then 143 else 191))
    else wrong

-- The characters of a sequence of bytes; none stands for a sequence that is not valid, as long as
-- it could have been the start of a character.
unfoldable pub decode : Decoder → List ℕ → List (Option ℕ)
decode between [] = []
decode (inside bits wanted low high) [] = none ∷ []
decode between (b ∷ bs) = elim (lead b) [
  | whole c ↦ some c ∷ decode between bs
  | starts d ↦ decode d bs
  | wrong ↦ none ∷ decode between bs
]
decode (inside bits wanted low high) (b ∷ bs) = elim (leb low b && leb b high) [
  | true ↦ elim (leb wanted 1) [
    | true ↦ some (bits * 64 + (b - 128)) ∷ decode between bs
    | false ↦ decode (inside (bits * 64 + (b - 128)) (wanted - 1) 128 191) bs
  ]
  | false ↦ elim (lead b) [
    | whole c ↦ none ∷ some c ∷ decode between bs
    | starts d ↦ none ∷ decode d bs
    | wrong ↦ none ∷ none ∷ decode between bs
  ]
]

abbrev pub all_some : List (Option ℕ) → Option Text
all_some [] = some []
all_some (none ∷ cs) = none
all_some (some c ∷ cs) = elim (all_some cs) [ none ↦ none | some t ↦ some (c ∷ t) ]

abbrev pub replaced : Option ℕ → ℕ
replaced none = 65533
replaced (some c) = c

unfoldable pub from_utf8 : List ℕ → Option Text
from_utf8 bs = all_some (decode between bs)

unfoldable pub from_utf8_lossy : List ℕ → Text
from_utf8_lossy bs = map replaced (decode between bs)

-- Bytes that are all ASCII.
abbrev pub is_ascii : List ℕ → Bool
is_ascii [] = true
is_ascii (b ∷ bs) = ltb b 128 && is_ascii bs

decode-ascii : (bs : List ℕ) → is_ascii bs ≡ true → decode between bs ≡ map some bs
unfolding decode
decode-ascii [] h = refl
decode-ascii (b ∷ bs) h = ground (arith, decode-ascii bs)

all_some-map : (bs : List ℕ) → all_some (map some bs) ≡ some bs
all_some-map [] = refl
all_some-map (b ∷ bs) = rw (all_some-map bs) refl

pub from_utf8-ascii : (bs : List ℕ) → is_ascii bs ≡ true → from_utf8 bs ≡ some bs
unfolding from_utf8
from_utf8-ascii bs h = rw (decode-ascii bs h) (all_some-map bs)

replaced-map : (bs : List ℕ) → map replaced (map some bs) ≡ bs
replaced-map [] = refl
replaced-map (b ∷ bs) = rw (replaced-map bs) refl

pub from_utf8_lossy-ascii : (bs : List ℕ) → is_ascii bs ≡ true → from_utf8_lossy bs ≡ bs
unfolding from_utf8_lossy
from_utf8_lossy-ascii bs h = rw (decode-ascii bs h) (replaced-map bs)

-- `as_bytes`.
abbrev pub char_bytes : ℕ → List ℕ → List ℕ
char_bytes c rest =
    if ltb c 128
    then c ∷ rest
    else if ltb c 2048
    then (192 + c / 64) ∷ (128 + c % 64) ∷ rest
    else if ltb c 65536
    then (224 + c / 4096) ∷ (128 + c / 64 % 64) ∷ (128 + c % 64) ∷ rest
    else (240 + c / 262144) ∷ (128 + c / 4096 % 64) ∷ (128 + c / 64 % 64) ∷ (128 + c % 64) ∷ rest

unfoldable pub as_bytes : Text → List ℕ
as_bytes [] = []
as_bytes (c ∷ cs) = char_bytes c (as_bytes cs)

pub as_bytes-ascii : (t : Text) → is_ascii t ≡ true → as_bytes t ≡ t
unfolding as_bytes
as_bytes-ascii [] h = refl
as_bytes-ascii (c ∷ t) h = ground (arith, as_bytes-ascii t)
