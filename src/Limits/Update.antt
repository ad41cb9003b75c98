-- ===== src/Limits/Update.antt =====
-- Versions, the interval between checks and the decision to prompt, of app/src/update.rs. The settings
-- and the clock's seconds are arguments.
use limux.Prelude.{
  ℕ, ◌-◌, ◌*◌, Bool, true, false, not, ◌&&◌, ◌||◌, Option, none, some, List, [], ◌∷◌, ◌==◌,
  if◌then◌else◌, ltb, leb, Text, text, same, strip_prefix, split_on, parse_uint,
}

pub record Version : Type 0 where
  pub major : ℕ
  pub minor : ℕ
  pub patch : ℕ

abbrev pub part_max : ℕ
part_max = 4294967295

abbrev pub without_v : Text → Text
without_v s = elim (strip_prefix (text "v") s) [ none ↦ s | some rest ↦ rest ]

abbrev pub version_of : Option ℕ → Option ℕ → Option ℕ → Option Version
version_of (some a) (some b) (some c) = some (record { major = a; minor = b; patch = c })
version_of a b c = none

abbrev pub parse_parts : List Text → Option Version
parse_parts (a ∷ b ∷ c ∷ []) =
    version_of (parse_uint part_max a) (parse_uint part_max b) (parse_uint part_max c)
parse_parts parts = none

-- `Version::parse`.
unfoldable pub parse : Text → Option Version
parse s = parse_parts (split_on 46 (without_v s))

-- `>` of `partial_cmp`, which compares the three parts in their order.
unfoldable pub is_newer : Version → Version → Bool
is_newer v w =
    ltb w.major v.major
    || ((v.major == w.major)
        && (ltb w.minor v.minor || ((v.minor == w.minor) && ltb w.patch v.patch)))

abbrev pub daily_secs : ℕ
daily_secs = 24 * 60 * 60

abbrev pub weekly_secs : ℕ
weekly_secs = 7 * daily_secs

pub record Settings : Type 0 where
  pub check_for_updates : Bool
  pub last_update_check : Option ℕ
  pub update_check_frequency : Text
  pub skip_update_version : Option Text

-- `check_due`: a check that lies ahead of the clock leaves nothing elapsed.
unfoldable pub check_due : Settings → ℕ → Bool
check_due s now = if not s.check_for_updates then false else elim s.last_update_check [
  | none ↦ true
  | some last ↦
      if same s.update_check_frequency (text "startup")
      then true
      else leb (if same s.update_check_frequency (text "weekly") then weekly_secs else daily_secs)
          (now - last)
]

abbrev pub skips : Option Text → Text → Bool
skips none tag = false
skips (some skipped) tag = same skipped tag

-- Whether `maybe_check` shows the prompt for the latest tag, given the running version.
unfoldable pub prompts : Settings → Text → Text → Bool
unfolding parse is_newer
prompts s tag_name current = elim (parse tag_name) [
  | none ↦ false
  | some latest_ver ↦ elim (parse current) [
    | none ↦ false
    | some current_ver ↦
        is_newer latest_ver current_ver && not (skips s.skip_update_version tag_name)
  ]
]
