-- ===== src/Remote/Processes.antt =====
-- What `check_pid` of app/src/remote/ssh_detect.rs asks of a process, in terms of the texts of its
-- `stat` and `cmdline`.
use limux.Prelude.{
  ℕ, ◌≡◌, ◌↔◌, refl, sym, ◌∙◌, inl, inr, false, Option, none, some, List, [], ◌∷◌, Bool-cases,
  Option-cases, arith, Text, split_whitespace, drop, is_empty,
}
use mathlib.Core.Option.{some_inj}
use mathlib.Core.Path.{subst}
use limux.Remote.Detect.{stat_fields, is_foreground, check_pid}
use limux.Remote.Foreground.{
  Foreground, some-foreground, is_foreground-Foreground, Foreground-fields,
}
use limux.Remote.Programs.{SshWords, ssh_argv_iff}

-- The process runs ssh in the foreground of the terminal, with these arguments.
pub record RunsSsh (stat_file cmdline_file : Option Text) (tty_nr : ℕ) (argv : List Text)
    : Type 0 where
  pub stat : Text
  pub cmdline : Text
  pub stat_read : stat_file ≡ some stat
  pub cmdline_read : cmdline_file ≡ some cmdline
  pub foreground : Foreground stat tty_nr
  pub command : SshWords cmdline argv

-- An empty command line has no words.
words-some : (cmdline : Text) (argv : List Text) → SshWords cmdline argv → is_empty cmdline ≡ false
words-some [] argv v = let z = v.words ∙ v.whole in absurd (ground arith)
words-some (c ∷ cs) argv v = refl

checked :
    (stat cmdline : Text) (tty_nr : ℕ) (argv : List Text)
    → Foreground stat tty_nr
    → SshWords cmdline argv
    → check_pid (some stat) (some cmdline) tty_nr ≡ some argv
unfolding check_pid
checked stat cmdline tty_nr argv v w =
    let e = Foreground-fields stat tty_nr v in
    let f =
      some-foreground (split_whitespace (drop 1 v.tail)) tty_nr v.group v.group_field v.tty_field
        v.front_field v.not_zero in
    let g = words-some cmdline argv w in
    let h = (ssh_argv_iff cmdline argv).1 w in rw (check_pid, e, f, g) h

pub check_pid_iff :
    (stat_file cmdline_file : Option Text) (tty_nr : ℕ) (argv : List Text)
    → (check_pid stat_file cmdline_file tty_nr ≡ some argv)
      ↔ RunsSsh stat_file cmdline_file tty_nr argv
unfolding check_pid
check_pid_iff none c tty_nr argv =
    (λ h. absurd (ground arith), λ v. let z = v.stat_read in absurd (ground arith))
check_pid_iff (some stat) none tty_nr argv = (
  λ h. elim (Option-cases (stat_fields stat)) [
    | inl e ↦ absurd (ground arith)
    | inr (fields, e) ↦ elim (Bool-cases (is_foreground fields tty_nr)) [
      | inl f ↦ absurd (ground arith)
      | inr f ↦ absurd (ground arith)
    ]
  ],
  λ v. let z = v.cmdline_read in absurd (ground arith),
)
check_pid_iff (some stat) (some cmdline) tty_nr argv = (
  λ h. elim (Option-cases (stat_fields stat)) [
    | inl e ↦ absurd (ground arith)
    | inr (fields, e) ↦ elim (Bool-cases (is_foreground fields tty_nr)) [
      | inr f ↦ absurd (ground arith)
      | inl f ↦ elim (Bool-cases (is_empty cmdline)) [
        | inl g ↦ absurd (ground arith)
        | inr g ↦ record {
          stat = stat;
          cmdline = cmdline;
          stat_read = refl;
          cmdline_read = refl;
          foreground = is_foreground-Foreground stat fields tty_nr e f;
          command = (ssh_argv_iff cmdline argv).0 (ground arith);
        }
      ]
    ]
  ],
  λ v.
      let s : stat ≡ v.stat = some_inj.0 v.stat_read in
      let c : cmdline ≡ v.cmdline = some_inj.0 v.cmdline_read in
      checked stat cmdline tty_nr argv (subst (λ t. Foreground t tty_nr) (sym s) v.foreground)
        (subst (λ t. SshWords t argv) (sym c) v.command),
)
