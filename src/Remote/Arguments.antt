-- ===== src/Remote/Arguments.antt =====
-- The arguments that app/src/remote/config.rs gives ssh, read back by app/src/remote/ssh_detect.rs.
use limux.Prelude.{
  ◌≡◌, ◌∙◌, ap, ap₂, subst, refl, sym, false, not, Option, none, some, List, [], ◌∷◌, ◌++◌,
  if◌then◌else◌, Bool-cases, inl, inr, Text, text, is_empty, starts_with, arith,
}
use limux.Remote.Config.{
  RemoteConfiguration, has_ssh_option, option_args, append_connection_args, host_key_args,
  ssh_interactive_args,
}
use limux.Remote.Ssh.{
  DetectedSshSession, Parsed, parse_args, read_arg, is_destination, finish, nothing_parsed,
  parse_ssh_command_line, resolve_destination,
}
use limux.Remote.Feeding.{
  Trimmed, Kept, AllKept, with_options, Feeds, Feeds-append, option_args-Feeds, port_args,
  identity_args, override, Fits, TrimmedIf, port_args-Feeds, identity_args-Feeds,
}

-- The options that ssh always gets, and the host-key option unless the configuration sets it.
abbrev pub standing_options : RemoteConfiguration → List Text
standing_options c =
    (text "ServerAliveInterval=20" ∷ text "ServerAliveCountMax=2" ∷ [])
    ++ (if not (has_ssh_option c (text "StrictHostKeyChecking"))
        then text "StrictHostKeyChecking=accept-new" ∷ []
        else [])

interval-Kept : Kept (text "ServerAliveInterval=20")
interval-Kept = record {
  whole = record { trimmed = refl; some_text = refl };
  not_port = refl;
  not_identity = refl;
  not_user = refl;
  not_filtered = refl;
}

count_max-Kept : Kept (text "ServerAliveCountMax=2")
count_max-Kept = record {
  whole = record { trimmed = refl; some_text = refl };
  not_port = refl;
  not_identity = refl;
  not_user = refl;
  not_filtered = refl;
}

host_key-Kept : Kept (text "StrictHostKeyChecking=accept-new")
host_key-Kept = record {
  whole = record { trimmed = refl; some_text = refl };
  not_port = refl;
  not_identity = refl;
  not_user = refl;
  not_filtered = refl;
}

standing-AllKept : (c : RemoteConfiguration) → AllKept (standing_options c)
standing-AllKept c = elim (Bool-cases (has_ssh_option c (text "StrictHostKeyChecking"))) [
  | inl set ↦ (interval-Kept, (count_max-Kept, rw set tt))
  | inr unset ↦ (interval-Kept, (count_max-Kept, rw unset (host_key-Kept, tt)))
]

standing-args :
    (c : RemoteConfiguration)
    → option_args (text "ServerAliveInterval=20" ∷ text "ServerAliveCountMax=2" ∷ [])
        ++ host_key_args c
      ≡ option_args (standing_options c)
standing-args c = elim (Bool-cases (has_ssh_option c (text "StrictHostKeyChecking"))) [
  | inl set ↦ rw set refl
  | inr unset ↦ rw unset refl
]

-- What the parser's variables hold after the arguments of the configuration.
abbrev after_args : RemoteConfiguration → Parsed → Parsed
after_args c s = record {
  port = override c.port s.port;
  identity_file = override c.identity_file s.identity_file;
  login_name = s.login_name;
  ssh_options = (s.ssh_options ++ standing_options c) ++ c.ssh_options;
}

-- A configuration that ssh reads as it is meant: the destination is no flag, and no text loses
-- white space; the options are none that the parser reads or filters out.
pub record Usable (c : RemoteConfiguration) : Type 0 where
  pub destination : Trimmed c.destination
  pub not_flag : starts_with (text "-") c.destination ≡ false
  pub port : Fits c.port
  pub identity_file : TrimmedIf c.identity_file
  pub ssh_options : AllKept c.ssh_options

ssh_interactive_args-parts :
    (c : RemoteConfiguration)
    → ssh_interactive_args c
      ≡ option_args (standing_options c)
        ++ port_args c.port
        ++ identity_args c.identity_file
        ++ option_args c.ssh_options
unfolding ssh_interactive_args append_connection_args
ssh_interactive_args-parts c =
    ap
      (λ front.
        front ++ port_args c.port ++ identity_args c.identity_file ++ option_args c.ssh_options)
      (standing-args c)

args-Feeds : (c : RemoteConfiguration) → Usable c → Feeds (ssh_interactive_args c) (after_args c)
args-Feeds c u =
    subst (λ args. Feeds args (after_args c)) (sym (ssh_interactive_args-parts c))
      (Feeds-append
        (option_args (standing_options c) ++ port_args c.port ++ identity_args c.identity_file)
        (option_args c.ssh_options) _ (with_options c.ssh_options)
        (Feeds-append (option_args (standing_options c) ++ port_args c.port)
          (identity_args c.identity_file) _
          (λ s. record s { identity_file = override c.identity_file s.identity_file })
          (Feeds-append (option_args (standing_options c)) (port_args c.port)
            (with_options (standing_options c)) (λ s. record s { port = override c.port s.port })
            (option_args-Feeds (standing_options c) (standing-AllKept c))
            (port_args-Feeds c.port u.port))
          (identity_args-Feeds c.identity_file u.identity_file))
        (option_args-Feeds c.ssh_options u.ssh_options))

read_arg-destination :
    (d : Text) → is_empty d ≡ false → starts_with (text "-") d ≡ false → read_arg d ≡ is_destination
unfolding read_arg
read_arg-destination [] e h = absurd (ground arith)
read_arg-destination (c ∷ d) e h = ground arith

abbrev conclude : Option (Parsed × Option Text) → Option DetectedSshSession
conclude r = elim r [ none ↦ none | some (s, destination) ↦ finish s destination ]

parse_args-destination :
    (d : Text) (s : Parsed)
    → is_empty d ≡ false
    → starts_with (text "-") d ≡ false
    → parse_args s (d ∷ []) ≡ some (s, some d)
unfolding parse_args
parse_args-destination d s e h = rw (parse_args, read_arg-destination d e h) refl

resolve_destination-plain : (d : Text) → Trimmed d → resolve_destination d none ≡ d
unfolding resolve_destination
resolve_destination-plain d t = rw (t.trimmed, t.some_text) refl

finish-plain :
    (d : Text) (s : Parsed)
    → Trimmed d
    → s.login_name ≡ none
    → finish s (some d)
      ≡ some (record {
        destination = d;
        port = s.port;
        identity_file = s.identity_file;
        ssh_options = s.ssh_options;
      })
finish-plain d s t e = rw (e, resolve_destination-plain d t, t.some_text) refl

override-none : {A : Type 0} (o : Option A) → override o none ≡ o
override-none none = refl
override-none (some a) = refl

-- For a usable configuration (its destination is trimmed, not empty and no flag, its port is a u16,
-- its identity file is trimmed and not empty, and its options are trimmed and none that the parser
-- reads or filters) the command line `ssh`, the interactive arguments, the destination is parsed
-- back to the same destination, port and identity file and to the standing options followed by the
-- configuration's own.
pub parse_ssh_command_line-ssh_interactive_args :
    (c : RemoteConfiguration)
    → Usable c
    → parse_ssh_command_line (text "ssh" ∷ ssh_interactive_args c ++ c.destination ∷ [])
      ≡ some (record {
        destination = c.destination;
        port = c.port;
        identity_file = c.identity_file;
        ssh_options = standing_options c ++ c.ssh_options;
      })
unfolding parse_ssh_command_line
parse_ssh_command_line-ssh_interactive_args c u =
    ap conclude (
      args-Feeds c u nothing_parsed (c.destination ∷ [])
      ∙ parse_args-destination c.destination (after_args c nothing_parsed) u.destination.some_text
          u.not_flag)
    ∙ finish-plain c.destination (after_args c nothing_parsed) u.destination refl
    ∙ ap₂
        (λ port identity_file. some (record {
          destination = c.destination;
          port = port;
          identity_file = identity_file;
          ssh_options = standing_options c ++ c.ssh_options;
        }))
        (override-none c.port) (override-none c.identity_file)
