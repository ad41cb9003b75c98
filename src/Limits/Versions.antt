-- ===== src/Limits/Versions.antt =====
-- What app/src/update.rs makes of version tags, and when it prompts and checks.
use limux.Prelude.{
  ℕ, same_iff, ◌≤◌, ◌<◌, ◌≡◌, ◌≢◌, ◌↔◌, dec_lt, Option, none, same, ◌⊎◌, ◌∙◌, ap, refl, ◌&&◌, arith,
  inl, inr, true, false, not, some, [], ◌∷◌, ◌++◌, Text, text, split_on, decimal, contains,
  all_digits, decimal-all_digits, decimal-is_solid, is_solid, split_on-one, split_on-append,
  parse_uint-decimal, parse_uint, Bool-cases,
}
use mathlib.Core.Option.{some_inj}
use limux.Limits.Update.{
  Version, part_max, version_of, parse_parts, without_v, parse, is_newer, Settings, check_due,
  prompts, skips,
}

-- `X.Y.Z`, as the running version is given, and `vX.Y.Z`, as releases are tagged.
abbrev pub dotted : Version → Text
dotted v = decimal v.major ++ 46 ∷ (decimal v.minor ++ 46 ∷ decimal v.patch)

abbrev pub tag : Version → Text
tag v = text "v" ++ dotted v

no_dot : (t : Text) → all_digits t ≡ true → contains 46 t ≡ false
no_dot [] h = refl
no_dot (d ∷ t) h = ground (arith, no_dot t)

-- The parts are `u32`s.
pub record InRange (v : Version) : Type 0 where
  pub major : v.major ≤ part_max
  pub minor : v.minor ≤ part_max
  pub patch : v.patch ≤ part_max

tag-parts :
    (v : Version)
    → split_on 46 (decimal v.major ++ 46 ∷ (decimal v.minor ++ 46 ∷ decimal v.patch))
      ≡ decimal v.major ∷ decimal v.minor ∷ decimal v.patch ∷ []
tag-parts v =
    let plain = λ (n : ℕ). no_dot (decimal n) (decimal-all_digits n) in
    split_on-append 46 (decimal v.major) (decimal v.minor ++ 46 ∷ decimal v.patch) (plain v.major)
    ∙ ap (λ l. decimal v.major ∷ l)
        (split_on-append 46 (decimal v.minor) (decimal v.patch) (plain v.minor)
          ∙ ap (λ l. decimal v.minor ∷ l) (split_on-one 46 (decimal v.patch) (plain v.patch)))

parse_parts-dotted : (v : Version) → InRange v → parse_parts (split_on 46 (dotted v)) ≡ some v
parse_parts-dotted v r =
    ap parse_parts (tag-parts v)
    ∙ ap
        (λ a.
          version_of a (parse_uint part_max (decimal v.minor))
            (parse_uint part_max (decimal v.patch)))
        (parse_uint-decimal part_max v.major r.major)
    ∙ ap (λ b. version_of (some v.major) b (parse_uint part_max (decimal v.patch)))
        (parse_uint-decimal part_max v.minor r.minor)
    ∙ ap (version_of (some v.major) (some v.minor)) (parse_uint-decimal part_max v.patch r.patch)

-- The tag `vX.Y.Z` of a version whose parts are u32s is parsed to that version.
pub parse-tag : (v : Version) → InRange v → parse (tag v) ≡ some v
unfolding parse
parse-tag v r = parse_parts-dotted v r

-- A text that begins with a digit has no `v` to strip.
without_v-digits :
    (t rest : Text) → all_digits t ≡ true → is_solid t ≡ true → without_v (t ++ rest) ≡ t ++ rest
without_v-digits [] rest h k = absurd (ground arith)
without_v-digits (c ∷ t) rest h k = ground arith

parse-dotted : (v : Version) → InRange v → parse (dotted v) ≡ some v
unfolding parse
parse-dotted v r =
    ap (λ t. parse_parts (split_on 46 t))
      (without_v-digits (decimal v.major) (46 ∷ (decimal v.minor ++ 46 ∷ decimal v.patch))
        (decimal-all_digits v.major) (decimal-is_solid v.major))
    ∙ parse_parts-dotted v r

same_version : (v w : Version) → is_newer v w ≡ false → is_newer w v ≡ false → v ≡ w
unfolding is_newer
same_version v w a b =
    let e : v.major ≡ w.major = ground arith in
    let f : v.minor ≡ w.minor = ground arith in
    let g : v.patch ≡ w.patch = ground arith in
    λ i. record { major = e i; minor = f i; patch = g i }

-- Of any two versions exactly one holds: the first is newer, they are equal, or the second is
-- newer.
pub is_newer-trichotomy :
    (v w : Version)
    → ((is_newer v w ≡ true) × (is_newer w v ≡ false))
      ⊎ (((v ≡ w) × (is_newer v w ≡ false)) ⊎ ((is_newer w v ≡ true) × (is_newer v w ≡ false)))
unfolding is_newer
is_newer-trichotomy v w = elim (Bool-cases (is_newer v w)) [
  | inl a ↦ inl (a, ground arith)
  | inr a ↦ elim (Bool-cases (is_newer w v)) [
    | inl b ↦ inr (inr (b, a))
    | inr b ↦ inr (inl (same_version v w a b, a))
  ]
]

-- The first version is the newer one: by its first part that differs.
pub data Newer (v w : Version) : Type 0 where
  by_major : w.major < v.major → Newer v w
  by_minor : w.major ≡ v.major → w.minor < v.minor → Newer v w
  by_patch : w.major ≡ v.major → w.minor ≡ v.minor → w.patch < v.patch → Newer v w

is_newer_iff : (v w : Version) → (is_newer v w ≡ true) ↔ Newer v w
unfolding is_newer
is_newer_iff v w = (
  λ h. elim (dec_lt w.major v.major) [
    | yes a ↦ by_major a
    | no a ↦ elim (dec_lt w.minor v.minor) [
      | yes b ↦ by_minor (ground arith) b
      | no b ↦ by_patch (ground arith) (ground arith) (ground arith)
    ]
  ],
  λ n. elim n [
    | by_major a ↦ ground arith
    | by_minor e a ↦ ground arith
    | by_patch e f a ↦ ground arith
  ],
)

skips_iff : (skipped : Option Text) (t : Text) → (skips skipped t ≡ false) ↔ (skipped ≢ some t)
skips_iff none t = (λ h e. ground arith, λ h. refl)
skips_iff (some skipped) t =
    let (to, from) = same_iff skipped t in
    (
      λ h e. let z = from (some_inj.0 e) in absurd (ground arith),
      λ h. elim (Bool-cases (same skipped t)) [
        | inl e ↦ absurd (h (ap (λ x. some x) (to e)))
        | inr e ↦ e
      ],
    )

-- For a latest and a running version whose parts are u32s, the first given as a tag and the second
-- without the `v`, the update prompt is shown exactly when the first of the parts that differ is
-- higher in the latest, and its tag is not the skipped one.
pub prompts-tag :
    (s : Settings) (v w : Version)
    → InRange v
    → InRange w
    → (prompts s (tag v) (dotted w) ≡ true) ↔ (Newer v w × (s.skip_update_version ≢ some (tag v)))
unfolding prompts
prompts-tag s v w a b =
    let e : prompts s (tag v) (dotted w)
        ≡ (is_newer v w && not (skips s.skip_update_version (tag v))) =
      rw (prompts, parse-tag v a, parse-dotted w b) refl in
    let (to, from) = is_newer_iff v w in
    let (to', from') = skips_iff s.skip_update_version (tag v) in
    (
      λ h. (to (ground arith), to' (ground arith)),
      λ (n, k). let x = from n in let y = from' k in ground arith,
    )

-- A check that is due now is still due at any later time, with the same settings.
pub check_due-later :
    (s : Settings) (now later : ℕ) → now ≤ later → check_due s now ≡ true → check_due s later ≡ true
unfolding check_due
check_due-later s now later h e = ground arith
