-- ===== src/Remote/Newest.antt =====
-- What `detect` of app/src/remote/ssh_detect.rs finds, and when it finds nothing.
use limux.Prelude.{
  ℕ, ◌≤◌, ◌<◌, max, ap, ◌∙◌, ◌≡◌, inl, inr, Bool, true, false, Option, none, some, List, [], ◌∷◌,
  if◌then◌else◌, leb, any, arith, refl, Bool-cases, Option-cases, Text, parse_uint,
}
use limux.Remote.Ssh.{DetectedSshSession, parse_ssh_command_line}
use limux.Remote.Detect.{
  Candidate, candidates, insert_desc, sort_desc, first_session, detect, tty_path_to_nr, i32_max,
}

-- A name in /proc that is not a pid.
abbrev pub is_no_pid : Option Text → Bool
is_no_pid none = true
is_no_pid (some name) = elim (parse_uint i32_max name) [ none ↦ true | some pid ↦ false ]

module _ (stat cmdline : ℕ → Option Text) where
  candidates-no_pid :
      (tty_nr : ℕ) (names : List (Option Text))
      → any is_no_pid names ≡ true
      → candidates stat cmdline tty_nr names ≡ none
  unfolding candidates
  candidates-no_pid tty_nr [] h = absurd (ground arith)
  candidates-no_pid tty_nr (none ∷ names) h = refl
  candidates-no_pid tty_nr (some name ∷ names) h = elim (Option-cases (parse_uint i32_max name)) [
    | inl e ↦ rw (candidates, e) refl
    | inr (pid, e) ↦ rw (candidates, e, candidates-no_pid tty_nr names (ground arith)) refl
  ]

  -- If the name of one entry of /proc is not a pid, `detect` returns none, whatever the other
  -- entries show.
  pub detect-no_pid :
      (names : List (Option Text)) (tty_path : Text)
      → any is_no_pid names ≡ true
      → detect stat cmdline (some names) tty_path ≡ none
  unfolding detect
  detect-no_pid names tty_path h = elim (Option-cases (tty_path_to_nr tty_path)) [
    | inl e ↦ rw (detect, e) refl
    | inr (tty_nr, e) ↦ rw (detect, e, candidates-no_pid tty_nr names h) refl
  ]

-- The session of the highest pid among the candidates that parse, the earlier one of two equals.
abbrev pub newer :
    ℕ
    → Option DetectedSshSession
    → Option (ℕ × DetectedSshSession)
    → Option (ℕ × DetectedSshSession)
newer p none best = best
newer p (some s) none = some (p, s)
newer p (some s) (some (q, t)) = if leb q p then some (p, s) else some (q, t)

abbrev pub newest : List Candidate → Option (ℕ × DetectedSshSession)
newest [] = none
newest ((p, args) ∷ cs) = newer p (parse_ssh_command_line args) (newest cs)

abbrev pub session_of : Option (ℕ × DetectedSshSession) → Option DetectedSshSession
session_of none = none
session_of (some (p, s)) = some s

-- The pids are at most the bound and descend.
abbrev Descends : ℕ → List Candidate → Type 0
Descends bound [] = Unit
Descends bound ((p, args) ∷ cs) = (p ≤ bound) × Descends p cs

newest-bound :
    (cs : List Candidate) (bound p : ℕ) (s : DetectedSshSession)
    → Descends bound cs
    → newest cs ≡ some (p, s)
    → p ≤ bound
newest-bound [] bound p s d e = absurd (ground arith)
newest-bound ((q, args) ∷ cs) bound p s (le, d) e = elim (Option-cases (newest cs)) [
  | inl n ↦ elim (Option-cases (parse_ssh_command_line args)) [
    | inl m ↦ ground arith
    | inr (s', m) ↦ ground arith
  ]
  | inr ((r, t), n) ↦
      let low = newest-bound cs q r t d n in
      elim (Option-cases (parse_ssh_command_line args)) [
        | inl m ↦ ground arith
        | inr (s', m) ↦ elim (Bool-cases (leb r q)) [ inl h ↦ ground arith | inr h ↦ ground arith ]
      ]
]

-- Two candidates in the order of their pids may be tried in either order.
newer_comm :
    (p q : ℕ) (a b : Option DetectedSshSession) (best : Option (ℕ × DetectedSshSession))
    → p < q
    → ((r : ℕ) (t : DetectedSshSession) → best ≡ some (r, t) → r ≤ q)
    → newer q b (newer p a best) ≡ newer p a (newer q b best)
newer_comm p q none b best h low = refl
newer_comm p q (some s) none best h low = refl
newer_comm p q (some s) (some u) none h low = ground arith
newer_comm p q (some s) (some u) (some (r, t)) h low =
    let le = low r t refl in
    elim (Bool-cases (leb r p)) [ inl e ↦ ground arith | inr e ↦ ground arith ]

newest-insert_desc :
    (p bound : ℕ) (args : List Text) (cs : List Candidate)
    → Descends bound cs
    → newest (insert_desc (p, args) cs) ≡ newest ((p, args) ∷ cs)
newest-insert_desc p bound args [] d = refl
newest-insert_desc p bound args ((q, more) ∷ cs) (le, d) = elim (Bool-cases (leb q p)) [
  | inl e ↦ rw e refl
  | inr e ↦ rw e (
      ap (newer q (parse_ssh_command_line more)) (newest-insert_desc p q args cs d)
      ∙ newer_comm p q (parse_ssh_command_line args) (parse_ssh_command_line more) (newest cs)
          (ground arith) (λ r t. newest-bound cs q r t d))
]

insert_desc-Descends :
    (p bound : ℕ) (args : List Text) (cs : List Candidate)
    → p ≤ bound
    → Descends bound cs
    → Descends bound (insert_desc (p, args) cs)
insert_desc-Descends p bound args [] h d = (h, tt)
insert_desc-Descends p bound args ((q, more) ∷ cs) h (le, d) = elim (Bool-cases (leb q p)) [
  | inl e ↦ rw e (h, (ground arith, d))
  | inr e ↦ rw e (le, insert_desc-Descends p q args cs (ground arith) d)
]

-- A bound on all pids of a list.
abbrev top_pid : List Candidate → ℕ
top_pid [] = 0
top_pid ((p, args) ∷ cs) = max p (top_pid cs)

Descends-weaken : (a b : ℕ) (cs : List Candidate) → a ≤ b → Descends a cs → Descends b cs
Descends-weaken a b [] h d = tt
Descends-weaken a b ((p, args) ∷ cs) h (le, d) = (omega arith, d)

sort_desc-Descends : (cs : List Candidate) → Descends (top_pid cs) (sort_desc cs)
sort_desc-Descends [] = tt
sort_desc-Descends ((p, args) ∷ cs) =
    insert_desc-Descends p (max p (top_pid cs)) args (sort_desc cs) (omega arith) (
      Descends-weaken (top_pid cs) (max p (top_pid cs)) (sort_desc cs) (omega arith)
        (sort_desc-Descends cs))

newest-sort_desc : (cs : List Candidate) → newest (sort_desc cs) ≡ newest cs
newest-sort_desc [] = refl
newest-sort_desc ((p, args) ∷ cs) =
    newest-insert_desc p (top_pid cs) args (sort_desc cs) (sort_desc-Descends cs)
    ∙ ap (newer p (parse_ssh_command_line args)) (newest-sort_desc cs)

first_session-newest :
    (bound : ℕ) (cs : List Candidate)
    → Descends bound cs
    → first_session cs ≡ session_of (newest cs)
unfolding first_session
first_session-newest bound [] d = refl
first_session-newest bound ((p, args) ∷ cs) (le, d) =
    elim (Option-cases (parse_ssh_command_line args)) [
      | inl e ↦ rw (first_session, e) (first_session-newest p cs d)
      | inr (s, e) ↦ elim (Option-cases (newest cs)) [
        | inl n ↦ rw (first_session, e, n) refl
        | inr ((q, t), n) ↦
            let low = newest-bound cs p q t d n in rw (first_session, e, n) ground arith
      ]
    ]

-- Where the terminal's path has a number, `detect` returns the session of the candidate with the
-- highest pid among those whose command line parses.
pub detect-newest :
    (stat cmdline : ℕ → Option Text) (names : List (Option Text)) (tty_path : Text)
    → (tty_nr : ℕ) (found : List Candidate) → tty_path_to_nr tty_path ≡ some tty_nr
    → candidates stat cmdline tty_nr names ≡ some found
    → detect stat cmdline (some names) tty_path ≡ session_of (newest found)
unfolding detect
detect-newest stat cmdline names tty_path tty_nr found e f =
    rw (detect, e, f)
      (first_session-newest (top_pid found) (sort_desc found) (sort_desc-Descends found)
        ∙ ap session_of (newest-sort_desc found))
