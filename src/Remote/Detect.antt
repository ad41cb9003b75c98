-- ===== src/Remote/Detect.antt =====
-- `detect`, `check_pid` and `tty_path_to_nr` of app/src/remote/ssh_detect.rs. What /proc holds is an
-- argument: the names of its entries (none where one is not UTF-8), and for a pid the texts of its
-- `stat` and `cmdline` (none where the file cannot be read), both decoded. A name with a minus sign, which
-- /proc has none of, counts as no pid.
use limux.Prelude.{
  split_whitespace, ℕ, ◌+◌, ◌*◌, ◌/◌, ◌%◌, Bool, false, not, ◌||◌, Option, none, some, List, [],
  ◌∷◌, ◌==◌, if◌then◌else◌, leb, ltb, filter, get_elem?, length, Text, text, same, strip_prefix,
  is_empty, contains, last_part, split_on, parse_uint,
}
use limux.Remote.Ssh.{DetectedSshSession, parse_ssh_command_line}

abbrev pub u32_max : ℕ
u32_max = 4294967295

abbrev pub i32_max : ℕ
i32_max = 2147483647

unfoldable pub tty_path_to_nr : Text → Option ℕ
tty_path_to_nr tty_path = elim (strip_prefix (text "/dev/pts/") tty_path) [
  | some n_str ↦ elim (parse_uint u32_max n_str) [
    | none ↦ none
    | some n ↦ some ((136 + n / 256) * 256 + n % 256)
  ]
  | none ↦ elim (strip_prefix (text "/dev/tty") tty_path) [
    | none ↦ none
    | some n_str ↦ elim (parse_uint u32_max n_str) [ none ↦ none | some n ↦ some (4 * 256 + n) ]
  ]
]

abbrev pub parsed_at : ℕ → List Text → ℕ → Option ℕ
parsed_at bound fields i = elim (get_elem? fields i) [ none ↦ none | some f ↦ parse_uint bound f ]

-- The fields of `stat` after the last parenthesis; one more character is skipped. The
-- code panics where the text ends at the parenthesis.
abbrev pub stat_fields : Text → Option (List Text)
stat_fields stat =
    if contains 41 stat
    then some (elim (last_part 41 stat) [ [] ↦ [] | c ∷ cs ↦ split_whitespace cs ])
    else none

-- The guards on the fields; a group that is negative does not parse, and is turned down like zero.
abbrev pub is_foreground : List Text → ℕ → Bool
is_foreground fields target_tty_nr =
    if ltb (length fields) 6 then false else elim (parsed_at i32_max fields 2) [
      | none ↦ false
      | some pgrp ↦ elim (parsed_at u32_max fields 4) [
        | none ↦ false
        | some tty_nr ↦ elim (parsed_at i32_max fields 5) [
          | none ↦ false
          | some tpgid ↦
              not (not (tty_nr == target_tty_nr) || pgrp == 0 || tpgid == 0 || not (pgrp == tpgid))
        ]
      ]
    ]

-- The arguments of a command line, if its program is ssh.
abbrev pub ssh_argv : Text → Option (List Text)
ssh_argv cmdline = elim (filter (λ s. not (is_empty s)) (split_on 0 cmdline)) [
  | [] ↦ none
  | exe ∷ args ↦ if same (last_part 47 exe) (text "ssh") then some (exe ∷ args) else none
]

unfoldable pub check_pid : Option Text → Option Text → ℕ → Option (List Text)
check_pid stat_file cmdline_file target_tty_nr = elim stat_file [
  | none ↦ none
  | some stat ↦ elim (stat_fields stat) [
    | none ↦ none
    | some fields ↦ if not (is_foreground fields target_tty_nr) then none else elim cmdline_file [
      | none ↦ none
      | some cmdline ↦ if is_empty cmdline then none else ssh_argv cmdline
    ]
  ]
]

abbrev pub Candidate : Type 0
Candidate = ℕ × List Text

module _ (stat cmdline : ℕ → Option Text) where
  abbrev pub candidate : ℕ → ℕ → List Candidate → List Candidate
  candidate pid tty_nr found = elim (check_pid (stat pid) (cmdline pid) tty_nr) [
    | none ↦ found
    | some args ↦ (pid, args) ∷ found
  ]

  -- The loop over /proc: none is the early return at a name that is no pid.
  unfoldable pub candidates : ℕ → List (Option Text) → Option (List Candidate)
  unfolding check_pid
  candidates tty_nr [] = some []
  candidates tty_nr (name ∷ names) =
      let rest = candidates tty_nr names in
      elim name [
        | none ↦ none
        | some name_str ↦ elim (parse_uint i32_max name_str) [
          | none ↦ none
          | some pid ↦ elim rest [ none ↦ none | some found ↦ some (candidate pid tty_nr found) ]
        ]
      ]

-- The stable sort by descending pid.
abbrev pub insert_desc : Candidate → List Candidate → List Candidate
insert_desc c [] = c ∷ []
insert_desc (p, args) ((q, more) ∷ cs) =
    let rest = insert_desc (p, args) cs in
    if leb q p then (p, args) ∷ (q, more) ∷ cs else (q, more) ∷ rest

abbrev pub sort_desc : List Candidate → List Candidate
sort_desc [] = []
sort_desc (c ∷ cs) = insert_desc c (sort_desc cs)

unfoldable pub first_session : List Candidate → Option DetectedSshSession
first_session [] = none
first_session ((pid, args) ∷ cs) =
    let rest = first_session cs in
    elim (parse_ssh_command_line args) [ none ↦ rest | some session ↦ some session ]

-- `read_dir` fails as a whole with none.
unfoldable pub detect :
    (stat cmdline : ℕ → Option Text)
    → Option (List (Option Text))
    → Text
    → Option DetectedSshSession
unfolding candidates first_session tty_path_to_nr
detect stat cmdline proc_dir tty_path = elim (tty_path_to_nr tty_path) [
  | none ↦ none
  | some tty_nr ↦ elim proc_dir [
    | none ↦ none
    | some names ↦ elim (candidates stat cmdline tty_nr names) [
      | none ↦ none
      | some found ↦ first_session (sort_desc found)
    ]
  ]
]
