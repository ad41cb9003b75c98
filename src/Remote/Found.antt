-- ===== src/Remote/Found.antt =====
-- Which session `detect` of app/src/remote/ssh_detect.rs returns, in terms of the entries of /proc.
use limux.Prelude.{
  ℕ, ◌<◌, ◌≡◌, ◌≢◌, ◌⊎◌, ◌↔◌, refl, ap, sym, ◌∙◌, inl, inr, false, Option, none, some, List, [],
  ◌∷◌, leb, any, Bool-cases, Option-cases, arith, Text, parse_uint,
}
use mathlib.Core.Option.{some_inj}
use mathlib.Core.Path.{subst}
use limux.Remote.Ssh.{DetectedSshSession, parse_ssh_command_line}
use limux.Remote.Detect.{
  Candidate, check_pid, candidate, candidates, detect, tty_path_to_nr, i32_max,
}
use limux.Remote.Newest.{is_no_pid, newest, newer, session_of, detect-newest}
use limux.Remote.Processes.{RunsSsh, check_pid_iff}

-- Some name of the list is the pid.
abbrev pub Listed : ℕ → List (Option Text) → Type 0
Listed pid [] = ⊥
Listed pid (none ∷ names) = Listed pid names
Listed pid (some name ∷ names) = (parse_uint i32_max name ≡ some pid) ⊎ Listed pid names

-- The list has the pid with these arguments.
abbrev Has : ℕ → List Text → List Candidate → Type 0
Has pid argv [] = ⊥
Has pid argv ((p, args) ∷ cs) = ((p ≡ pid) × (args ≡ argv)) ⊎ Has pid argv cs

-- A candidate is put in front, if there is one.
abbrev put : ℕ → Option (List Text) → List Candidate → List Candidate
put p checked found = elim checked [ none ↦ found | some args ↦ (p, args) ∷ found ]

put-Has :
    (p : ℕ) (checked : Option (List Text)) (found : List Candidate) (pid : ℕ) (argv : List Text)
    → Has pid argv (put p checked found)
      ↔ (((p ≡ pid) × (checked ≡ some argv)) ⊎ Has pid argv found)
put-Has p none found pid argv =
    (λ h. inr h, λ h. elim h [ inl (z, e) ↦ absurd (ground arith) | inr i ↦ i ])
put-Has p (some args) found pid argv = (
  λ h. elim h [ inl (z, w) ↦ inl (z, ap (λ x. some x) w) | inr i ↦ inr i ],
  λ h. elim h [ inl (z, e) ↦ inl (z, some_inj.0 e) | inr i ↦ inr i ],
)

module _ (stat cmdline : ℕ → Option Text) (tty_nr : ℕ) where
  -- The process runs ssh in the foreground of the terminal, for this session.
  abbrev pub RunsSession : ℕ → DetectedSshSession → Type 0
  RunsSession pid s =
      (argv : List Text) × RunsSsh (stat pid) (cmdline pid) tty_nr argv
      × (parse_ssh_command_line argv ≡ some s)

  -- The session is that of the listed process with the highest pid of those that run one, and there
  -- is none only where no listed process does.
  abbrev pub IsNewest : List (Option Text) → Option DetectedSshSession → Type 0
  IsNewest names none =
      (pid : ℕ) (s : DetectedSshSession) → ¬ (Listed pid names × RunsSession pid s)
  IsNewest names (some s) =
      (pid : ℕ) × Listed pid names
      × RunsSession pid s
      × ((q : ℕ) (t : DetectedSshSession) → ¬ (Listed q names × RunsSession q t × (pid < q)))

  candidates-some :
      (names : List (Option Text))
      → any is_no_pid names ≡ false
      → (found : List Candidate) × (candidates stat cmdline tty_nr names ≡ some found)
  unfolding candidates
  candidates-some [] h = ([], refl)
  candidates-some (none ∷ names) h = absurd (ground arith)
  candidates-some (some name ∷ names) h = elim (Option-cases (parse_uint i32_max name)) [
    | inl e ↦ absurd (ground arith)
    | inr (pid, e) ↦
        let (found, f) = candidates-some names (ground arith) in
        (candidate stat cmdline pid tty_nr found, rw (candidates, e, f) refl)
  ]

  -- The candidates are the listed processes that run ssh.
  candidate-Has :
      (p : ℕ) (found : List Candidate) (pid : ℕ) (argv : List Text)
      → Has pid argv (candidate stat cmdline p tty_nr found)
        ↔ (((p ≡ pid) × RunsSsh (stat pid) (cmdline pid) tty_nr argv) ⊎ Has pid argv found)
  candidate-Has p found pid argv =
      let (to, from) = put-Has p (check_pid (stat p) (cmdline p) tty_nr) found pid argv in
      let checks = λ (q : ℕ). check_pid_iff (stat q) (cmdline q) tty_nr argv in
      (
        λ h. elim (to h) [
          | inl (z, e) ↦
              inl (z, subst (λ q. RunsSsh (stat q) (cmdline q) tty_nr argv) z ((checks p).0 e))
          | inr i ↦ inr i
        ],
        λ h. elim h [
          | inl (z, r) ↦
              from (inl (z, ap (λ q. check_pid (stat q) (cmdline q) tty_nr) z ∙ (checks pid).1 r))
          | inr i ↦ from (inr i)
        ],
      )

  candidates-Has :
      (names : List (Option Text)) (found : List Candidate) (pid : ℕ) (argv : List Text)
      → candidates stat cmdline tty_nr names ≡ some found
      → Has pid argv found ↔ (Listed pid names × RunsSsh (stat pid) (cmdline pid) tty_nr argv)
  unfolding candidates
  candidates-Has [] found pid argv e =
      let z : found ≡ [] = ground arith in rw z (λ h. absurd h, λ (l, r). l)
  candidates-Has (none ∷ names) found pid argv e = absurd (ground arith)
  candidates-Has (some name ∷ names) found pid argv e =
      elim (Option-cases (parse_uint i32_max name)) [
        | inl f ↦ absurd (ground arith)
        | inr (p, f) ↦ elim (Option-cases (candidates stat cmdline tty_nr names)) [
          | inl g ↦ absurd (ground arith)
          | inr (rest, g) ↦
              let z : found ≡ candidate stat cmdline p tty_nr rest = ground arith in
              let (to, from) = candidate-Has p rest pid argv in
              let (to', from') = candidates-Has names rest pid argv g in
              (
                λ h. elim (to (subst (Has pid argv) z h)) [
                  | inl (x, r) ↦ (inl (f ∙ ap (λ n. some n) x), r)
                  | inr i ↦ let (l, r) = to' i in (inr l, r)
                ],
                λ (l, r). subst (Has pid argv) (sym z) (
                    from (elim l [ inl x ↦ inl (ground arith, r) | inr l' ↦ inr (from' (l', r)) ])),
              )
        ]
      ]

-- The newest session of a list of candidates.
abbrev NewestOf : List Candidate → Option (ℕ × DetectedSshSession) → Type 0
NewestOf cs none =
    (q : ℕ) (argv : List Text) (t : DetectedSshSession)
    → ¬ (Has q argv cs × (parse_ssh_command_line argv ≡ some t))
NewestOf cs (some (p, s)) =
    ((argv : List Text) × Has p argv cs × (parse_ssh_command_line argv ≡ some s))
    × ((q : ℕ) (argv : List Text) (t : DetectedSshSession)
        → ¬ (Has q argv cs × (parse_ssh_command_line argv ≡ some t) × (p < q)))

-- No session comes of arguments that do not parse.
unparsed :
    (args argv : List Text) (t : DetectedSshSession)
    → parse_ssh_command_line args ≡ none
    → args ≡ argv
    → parse_ssh_command_line argv ≢ some t
unparsed args argv t n w e = let z = sym n ∙ ap parse_ssh_command_line w ∙ e in ground arith

newer-NewestOf :
    (p : ℕ) (args : List Text) (cs : List Candidate) (parsed : Option DetectedSshSession)
    (best : Option (ℕ × DetectedSshSession))
    → parse_ssh_command_line args ≡ parsed
    → NewestOf cs best
    → NewestOf ((p, args) ∷ cs) (newer p parsed best)
newer-NewestOf p args cs none none n v = λ q argv t (h, e). elim h [
  | inl (z, w) ↦ unparsed args argv t n w e
  | inr i ↦ v q argv t (i, e)
]
newer-NewestOf p args cs none (some (q, s)) n ((argv, has, e), most) = (
  (argv, inr has, e),
  λ q' argv' t (h, e', l). elim h [
    | inl (z, w) ↦ unparsed args argv' t n w e'
    | inr i ↦ most q' argv' t (i, e', l)
  ],
)
newer-NewestOf p args cs (some s) none n v = (
  (args, inl (refl, refl), n),
  λ q argv t (h, e, l). elim h [ inl (z, w) ↦ omega arith | inr i ↦ v q argv t (i, e) ],
)
newer-NewestOf p args cs (some s) (some (q, u)) n ((argv, has, e), most) =
    elim (Bool-cases (leb q p)) [
      | inl le ↦ rw le (
        (args, inl (refl, refl), n),
        λ q' argv' t (h, e', l). elim h [
          | inl (z, w) ↦ omega arith
          | inr i ↦ most q' argv' t (i, e', ground arith)
        ],
      )
      | inr gt ↦ rw gt (
        (argv, inr has, e),
        λ q' argv' t (h, e', l). elim h [
          | inl (z, w) ↦ ground arith
          | inr i ↦ most q' argv' t (i, e', l)
        ],
      )
    ]

newest-NewestOf : (cs : List Candidate) → NewestOf cs (newest cs)
newest-NewestOf [] = λ q argv t (h, e). h
newest-NewestOf ((p, args) ∷ cs) =
    newer-NewestOf p args cs (parse_ssh_command_line args) (newest cs) refl (newest-NewestOf cs)

NewestOf-IsNewest :
    (stat cmdline : ℕ → Option Text) (tty_nr : ℕ) (names : List (Option Text)) (cs : List Candidate)
    (best : Option (ℕ × DetectedSshSession))
    → candidates stat cmdline tty_nr names ≡ some cs
    → NewestOf cs best
    → IsNewest stat cmdline tty_nr names (session_of best)
NewestOf-IsNewest stat cmdline tty_nr names cs none f v = λ q t (l, (argv, r, e)).
    v q argv t ((candidates-Has stat cmdline tty_nr names cs q argv f).1 (l, r), e)
NewestOf-IsNewest stat cmdline tty_nr names cs (some (p, s)) f ((argv, has, e), most) =
    let (l, r) = (candidates-Has stat cmdline tty_nr names cs p argv f).0 has in
    (
      p,
      l,
      (argv, r, e),
      λ q t (l', (argv', r', e'), h).
          most q argv' t
            ((candidates-Has stat cmdline tty_nr names cs q argv' f).1 (l', r'), e', h),
    )

-- Where the terminal's path has a number and every entry of /proc is a pid, `detect` returns the
-- session of a listed process that runs ssh in the foreground of the terminal, and no listed
-- process with a higher pid does with arguments that parse; it returns none only where no listed
-- process does.
pub detect-IsNewest :
    (stat cmdline : ℕ → Option Text) (names : List (Option Text)) (tty_path : Text) (tty_nr : ℕ)
    → tty_path_to_nr tty_path ≡ some tty_nr
    → any is_no_pid names ≡ false
    → IsNewest stat cmdline tty_nr names (detect stat cmdline (some names) tty_path)
detect-IsNewest stat cmdline names tty_path tty_nr e h =
    let (found, f) = candidates-some stat cmdline tty_nr names h in
    rw (detect-newest stat cmdline names tty_path tty_nr found e f)
      (NewestOf-IsNewest stat cmdline tty_nr names found (newest found) f (newest-NewestOf found))
