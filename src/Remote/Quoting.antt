-- ===== src/Remote/Quoting.antt =====
-- What a POSIX shell reads in the texts that app/src/window.rs pastes and app/src/remote/shell.rs runs.
use limux.Prelude.{
  ℕ, ◌≡◌, refl, ap, sym, ◌∙◌, inl, inr, Option, none, some, Bool, true, false, not, ◌||◌, ◌&&◌,
  List, [], ◌∷◌, ◌++◌, append_assoc, append-nil, ◌==◌, ==_iff, ap₂, any, all, map, join, Bool-cases,
  Text, text, is_empty, arith,
}
use limux.Remote.Config.{RemoteConfiguration, ssh_interactive_args}
use limux.Remote.Shell.{
  escape, quote, is_special, shell_escape, shell_escape_paths, generate_bootstrap_script,
  startup_parts, generate_startup_command,
}

-- The characters that a shell does not take as they are, in the order of the standard: operators,
-- expansions, quotes and blanks, then patterns, comments and home directories, and `!`, `{` and `}`,
-- which are reserved words or expanded by shells in use.
abbrev pub metacharacters : List ℕ
metacharacters =
    124 ∷ 38 ∷ 59 ∷ 60 ∷ 62 ∷ 40 ∷ 41 ∷ 36 ∷ 96 ∷ 92 ∷ 34 ∷ 39 ∷ 32 ∷ 9 ∷ 10 ∷ 42 ∷ 63 ∷ 91 ∷ 35
    ∷ 126 ∷ 33 ∷ 123 ∷ 125 ∷ []

abbrev pub is_meta : ℕ → Bool
is_meta c = any (λ m. m == c) metacharacters

-- Between quotes, or right after a backslash, or neither.
pub data Mode : Type 0 where
  outside quoted escaped : Mode

-- A character for a word that may have begun.
abbrev pub push : Option Text → ℕ → Option Text
push none c = some (c ∷ [])
push (some w) c = some (w ++ c ∷ [])

abbrev pub begin_word : Option Text → Option Text
begin_word none = some []
begin_word (some w) = some w

abbrev pub end_word : Option Text → Option (List Text) → Option (List Text)
end_word none rest = rest
end_word (some w) none = none
end_word (some w) (some ws) = some (w ∷ ws)

-- The words of a command line. A character that a shell would interpret, other than a quote, a
-- backslash or a space, is refused.
unfoldable pub words : Mode → Option Text → Text → Option (List Text)
words outside w [] = end_word w (some [])
words quoted w [] = none
words escaped w [] = none
words escaped w (c ∷ cs) = words outside (push w c) cs
words quoted w (c ∷ cs) = elim (c == 39) [
  | true ↦ words outside w cs
  | false ↦ words quoted (push w c) cs
]
words outside w (c ∷ cs) = elim (c == 39) [
  | true ↦ words quoted (begin_word w) cs
  | false ↦ elim (c == 92) [
    | true ↦ words escaped w cs
    | false ↦ elim (c == 32) [
      | true ↦ end_word w (words outside none cs)
      | false ↦ elim (is_meta c) [ true ↦ none | false ↦ words outside (push w c) cs ]
    ]
  ]
]

-- The words of a whole line.
abbrev pub shell_words : Text → Option (List Text)
shell_words t = words outside none t

-- A text that is read as one word, whatever follows it.
abbrev pub IsWord : Text → Text → Type 0
IsWord t w = (rest : Text) → words outside none (t ++ rest) ≡ words outside (some w) rest

words-escape :
    (t w rest : Text)
    → words quoted (some w) (escape t ++ 39 ∷ rest) ≡ words outside (some (w ++ t)) rest
unfolding words escape
words-escape [] w rest = ap (λ v. words outside (some v) rest) (sym (append-nil w))
words-escape (c ∷ t) w rest = elim (Bool-cases (c == 39)) [
  | inl e ↦
      let z = (==_iff c 39).0 e in
      rw (escape, e)
        (words-escape t (w ++ 39 ∷ []) rest
          ∙ ap (λ v. words outside (some v) rest)
              (append_assoc w (39 ∷ []) t ∙ ap (λ d. w ++ d ∷ t) (sym z)))
  | inr e ↦
      rw (escape, e, words, e)
        (words-escape t (w ++ c ∷ []) rest
          ∙ ap (λ v. words outside (some v) rest) (append_assoc w (c ∷ []) t))
]

quote-IsWord : (t : Text) → IsWord (quote t) t
unfolding words
quote-IsWord t rest =
    ap (words quoted (some [])) (append_assoc (escape t) (39 ∷ []) rest) ∙ words-escape t [] rest

differs : (c d : ℕ) → is_meta d ≡ true → is_meta c ≡ false → (c == d) ≡ false
differs c d h k = elim (Bool-cases (c == d)) [
  | inl e ↦ let z : is_meta c ≡ is_meta d = ap is_meta ((==_iff c d).0 e) in cc
  | inr e ↦ e
]

or-false : (a b : Bool) → (a || b) ≡ false → (a ≡ false) × (b ≡ false)
or-false a b h = ground arith

and-true : (a b : Bool) → (a && b) ≡ true → (a ≡ true) × (b ≡ true)
and-true a b h = ground arith

any-cons :
    (c : ℕ) (t : Text) → any is_meta (c ∷ t) ≡ false → (is_meta c ≡ false) × (any is_meta t ≡ false)
any-cons c t h = or-false (is_meta c) (any is_meta t) h

plain-words :
    (t w rest : Text)
    → any is_meta t ≡ false
    → words outside (some w) (t ++ rest) ≡ words outside (some (w ++ t)) rest
unfolding words
plain-words [] w rest h = ap (λ v. words outside (some v) rest) (sym (append-nil w))
plain-words (c ∷ t) w rest h =
    let (black, more) = any-cons c t h in
    rw (words, differs c 39 refl black, differs c 92 refl black, differs c 32 refl black, black)
      (plain-words t (w ++ c ∷ []) rest more
        ∙ ap (λ v. words outside (some v) rest) (append_assoc w (c ∷ []) t))

-- A word that is not empty and has no special character.
abbrev pub is_plain : Text → Bool
is_plain t = not (is_empty t) && not (any is_meta t)

plain-any : (c : ℕ) (t : Text) → is_plain (c ∷ t) ≡ true → any is_meta (c ∷ t) ≡ false
plain-any c t h = elim (Bool-cases (any is_meta (c ∷ t))) [
  | inl e ↦ let z : is_plain (c ∷ t) ≡ false = ap not e in cc
  | inr e ↦ e
]

plain_of : (t : Text) → is_empty t ≡ false → any is_meta t ≡ false → is_plain t ≡ true
plain_of t h e = ap₂ (λ a b. not a && not b) h e

plain-IsWord : (t : Text) → is_plain t ≡ true → IsWord t t
unfolding words
plain-IsWord [] h rest = absurd (ground arith)
plain-IsWord (c ∷ t) h rest =
    let (black, more) = any-cons c t (plain-any c t h) in
    rw (words, differs c 39 refl black, differs c 92 refl black, differs c 32 refl black, black)
      (plain-words t (c ∷ []) rest more)

-- What the code leaves bare has no character that a shell interprets.
none_of_special :
    (c : ℕ) (ms : List ℕ)
    → all is_special ms ≡ true
    → is_special c ≡ false
    → any (λ m. m == c) ms ≡ false
none_of_special c [] h k = refl
none_of_special c (m ∷ ms) h k =
    let (a, b) = and-true (is_special m) (all is_special ms) h in
    let rest = none_of_special c ms b k in
    elim (Bool-cases (m == c)) [
      | inl e ↦ let z : is_special m ≡ is_special c = ap is_special ((==_iff m c).0 e) in absurd cc
      | inr e ↦ ap₂ (λ x y. x || y) e rest
    ]

meta-special : (c : ℕ) → is_special c ≡ false → is_meta c ≡ false
meta-special c h = none_of_special c metacharacters refl h

any_meta : (t : Text) → any is_special t ≡ false → any is_meta t ≡ false
any_meta [] h = refl
any_meta (c ∷ t) h =
    let (a, b) = or-false (is_special c) (any is_special t) h in
    ap₂ (λ x y. x || y) (meta-special c a) (any_meta t b)

shell_escape-IsWord : (t : Text) → is_empty t ≡ false → IsWord (shell_escape t) t
unfolding shell_escape
shell_escape-IsWord t h = elim (Bool-cases (any is_special t)) [
  | inl e ↦ rw (shell_escape, e) (quote-IsWord t)
  | inr e ↦ rw (shell_escape, e) (plain-IsWord t (plain_of t h (any_meta t e)))
]

-- The parts of a line with the words that they are read as.
abbrev pub AreWords : List Text → List Text → Type 0
AreWords [] [] = Unit {0}
AreWords (t ∷ ts) (w ∷ ws) = IsWord t w × AreWords ts ws
AreWords ts ws = ⊥

words-join :
    (t : Text) (ts : List Text) (w : Text) (ws : List Text)
    → AreWords (t ∷ ts) (w ∷ ws)
    → shell_words (join (text " ") (t ∷ ts)) ≡ some (w ∷ ws)
unfolding words join
words-join t [] w [] (a, b) = ap (words outside none) (sym (append-nil t)) ∙ a []
words-join t [] w (v ∷ ws) (a, b) = absurd b
words-join t (u ∷ ts) w [] (a, b) = absurd b
words-join t (u ∷ ts) w (v ∷ ws) (a, b) =
    a (32 ∷ join (text " ") (u ∷ ts)) ∙ ap (end_word (some w)) (words-join u ts v ws b)

escape-AreWords : (ps : List Text) → any is_empty ps ≡ false → AreWords (map shell_escape ps) ps
escape-AreWords [] h = tt
escape-AreWords (p ∷ ps) h =
    let (some_text, more) = or-false (is_empty p) (any is_empty ps) h in
    (shell_escape-IsWord p some_text, escape-AreWords ps more)

-- For paths none of which is empty, a POSIX shell, whose operators, expansions, quotes, blanks and
-- patterns are listed apart from the code, reads the text that is pasted for them as exactly these
-- words, with no such character left for it to interpret.
pub shell_words-shell_escape_paths :
    (paths : List Text)
    → any is_empty paths ≡ false
    → shell_words (shell_escape_paths paths) ≡ some paths
unfolding shell_escape_paths words join
shell_words-shell_escape_paths [] h = refl
shell_words-shell_escape_paths (p ∷ paths) h =
    words-join (shell_escape p) (map shell_escape paths) p paths (escape-AreWords (p ∷ paths) h)

AreWords-append :
    (ts ws us vs : List Text) → AreWords ts ws → AreWords us vs → AreWords (ts ++ us) (ws ++ vs)
AreWords-append [] [] us vs h k = k
AreWords-append [] (w ∷ ws) us vs h k = absurd h
AreWords-append (t ∷ ts) [] us vs h k = absurd h
AreWords-append (t ∷ ts) (w ∷ ws) us vs (a, b) k = (a, AreWords-append ts ws us vs b k)

plain-AreWords : (ts : List Text) → all is_plain ts ≡ true → AreWords ts ts
plain-AreWords [] h = tt
plain-AreWords (t ∷ ts) h =
    let (a, b) = and-true (is_plain t) (all is_plain ts) h in
    (plain-IsWord t a, plain-AreWords ts b)

-- For a configuration whose interactive arguments and destination are not empty and have no
-- character that a shell interprets, a POSIX shell reads the startup command as `ssh`, these
-- arguments, `-t`, the destination, and the bootstrap script as one word.
pub shell_words-generate_startup_command :
    (config : RemoteConfiguration) (relay_port : ℕ)
    → all is_plain (ssh_interactive_args config) ≡ true
    → is_plain config.destination ≡ true
    → shell_words (generate_startup_command config relay_port)
      ≡ some (
          text "ssh"
          ∷ (ssh_interactive_args config
              ++ text "-t" ∷ config.destination ∷ generate_bootstrap_script relay_port ∷ []))
unfolding generate_startup_command startup_parts
shell_words-generate_startup_command config relay_port h k =
    let args = ssh_interactive_args config in
    let script = generate_bootstrap_script relay_port in
    words-join (text "ssh") (args ++ text "-t" ∷ config.destination ∷ quote script ∷ [])
      (text "ssh") (args ++ text "-t" ∷ config.destination ∷ script ∷ [])
      (
        plain-IsWord (text "ssh") refl,
        AreWords-append args args (text "-t" ∷ config.destination ∷ quote script ∷ [])
            (text "-t" ∷ config.destination ∷ script ∷ []) (plain-AreWords args h)
            (
              plain-IsWord (text "-t") refl,
              (plain-IsWord config.destination k, (quote-IsWord script, tt)),
            ),
      )
