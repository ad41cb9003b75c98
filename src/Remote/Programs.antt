-- ===== src/Remote/Programs.antt =====
-- Which command lines are of ssh for `check_pid` of app/src/remote/ssh_detect.rs.
use limux.Prelude.{
  ◌≡◌, ◌⊎◌, ◌↔◌, refl, ap, sym, ◌∙◌, inl, inr, true, not, Option, none, some, List, [], ◌∷◌, ◌++◌,
  if◌then◌else◌, Bool-cases, arith, Text, text, contains, last_part, last_part-split,
  last_part-append, last_part-whole, split_on, filter, is_empty, same, same_iff,
}
use limux.Remote.Detect.{ssh_argv}

-- The words of a command line, which end with zeros.
abbrev pub words_of : Text → List Text
words_of t = filter (λ s. not (is_empty s)) (split_on 0 t)

-- The program is `ssh`, by itself or in some directory.
abbrev pub IsSsh : Text → Type 0
IsSsh exe = (exe ≡ text "ssh") ⊎ ((dir : Text) × (exe ≡ dir ++ text "/ssh"))

-- The words of the command line are the arguments, and the first is ssh.
pub record SshWords (cmdline : Text) (argv : List Text) : Type 0 where
  pub exe : Text
  pub args : List Text
  pub whole : argv ≡ exe ∷ args
  pub words : words_of cmdline ≡ argv
  pub program : IsSsh exe

last_part-IsSsh : (exe : Text) → (same (last_part 47 exe) (text "ssh") ≡ true) ↔ IsSsh exe
last_part-IsSsh exe =
    let (to, from) = same_iff (last_part 47 exe) (text "ssh") in
    (
      λ h. elim (Bool-cases (contains 47 exe)) [
        | inl e ↦
            let (dir, f, g) = last_part-split 47 exe e in
            inr (dir, f ∙ ap (λ t. dir ++ 47 ∷ t) (to h))
        | inr e ↦ inl (sym (last_part-whole 47 exe e) ∙ to h)
      ],
      λ p. elim p [
        | inl e ↦ from (ap (last_part 47) e)
        | inr (dir, e) ↦ from (ap (last_part 47) e ∙ last_part-append 47 dir (text "ssh") refl)
      ],
    )

-- The words, if the first is ssh.
abbrev if_ssh : List Text → Option (List Text)
if_ssh [] = none
if_ssh (exe ∷ args) = if same (last_part 47 exe) (text "ssh") then some (exe ∷ args) else none

if_ssh-some :
    (exe : Text) (args : List Text)
    → same (last_part 47 exe) (text "ssh") ≡ true
    → if_ssh (exe ∷ args) ≡ some (exe ∷ args)
if_ssh-some exe args f = rw f refl

ssh_argv-words : (cmdline : Text) → ssh_argv cmdline ≡ if_ssh (words_of cmdline)
ssh_argv-words cmdline = elim_same (words_of cmdline)
  where
    elim_same :
        (ws : List Text)
        → elim ws [
          | [] ↦ none
          | exe ∷ args ↦ if same (last_part 47 exe) (text "ssh") then some (exe ∷ args) else none
        ]
          ≡ if_ssh ws
    elim_same [] = refl
    elim_same (exe ∷ args) = refl

pub ssh_argv_iff :
    (cmdline : Text) (argv : List Text) → (ssh_argv cmdline ≡ some argv) ↔ SshWords cmdline argv
ssh_argv_iff cmdline argv = (to (words_of cmdline) refl, from)
  where
    to :
        (ws : List Text)
        → words_of cmdline ≡ ws
        → ssh_argv cmdline ≡ some argv
        → SshWords cmdline argv
    to [] e h = absurd (ground arith)
    to (exe ∷ args) e h = elim (Bool-cases (same (last_part 47 exe) (text "ssh"))) [
      | inr f ↦ absurd (ground arith)
      | inl f ↦
          let z : argv ≡ exe ∷ args = ground arith in
          record {
            exe = exe;
            args = args;
            whole = z;
            words = e ∙ sym z;
            program = (last_part-IsSsh exe).0 f;
          }
    ]

    from : SshWords cmdline argv → ssh_argv cmdline ≡ some argv
    from v =
        let f = (last_part-IsSsh v.exe).1 v.program in
        let e : words_of cmdline ≡ v.exe ∷ v.args = v.words ∙ v.whole in
        ssh_argv-words cmdline
        ∙ ap if_ssh e
        ∙ if_ssh-some v.exe v.args f
        ∙ ap (λ ws. some ws) (sym v.whole)
