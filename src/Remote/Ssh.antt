-- ===== src/Remote/Ssh.antt =====
-- The parser of ssh command lines in app/src/remote/ssh_detect.rs.
use limux.Prelude.{
  ℕ, not, ◌&&◌, ◌||◌, Option, none, some, List, [], ◌∷◌, ◌++◌, ◌==◌, if◌then◌else◌, any, all, Text,
  text, same, contains, starts_with, is_whitespace, trim, is_empty, cut, last_part, to_lowercase,
  parse_uint,
}
use limux.Remote.Config.{RemoteConfiguration}

pub record DetectedSshSession : Type 0 where
  pub destination : Text
  pub port : Option ℕ
  pub identity_file : Option Text
  pub ssh_options : List Text

unfoldable pub to_remote_config : DetectedSshSession → RemoteConfiguration
to_remote_config s = record {
  destination = s.destination;
  port = s.port;
  identity_file = s.identity_file;
  ssh_options = s.ssh_options;
  terminal_startup_command = none;
  relay_port = none;
  relay_id = none;
  relay_token = none;
  local_socket_path = none;
}

abbrev pub no_arg_flags : Text
no_arg_flags = text "46AaCfGgKkMNnqsTtVvXxYy"

abbrev pub value_arg_flags : Text
value_arg_flags = text "BbcDEeFIiJLlmOopQRSWw"

abbrev pub filtered_option_keys : List Text
filtered_option_keys =
    text "batchmode"
    ∷ text "controlmaster"
    ∷ text "controlpersist"
    ∷ text "forkafterauthentication"
    ∷ text "localcommand"
    ∷ text "permitlocalcommand"
    ∷ text "remotecommand"
    ∷ text "requesttty"
    ∷ text "sendenv"
    ∷ text "sessiontype"
    ∷ text "setenv"
    ∷ text "stdioforward"
    ∷ []

-- The variables that the parser fills in.
pub record Parsed : Type 0 where
  pub port : Option ℕ
  pub identity_file : Option Text
  pub login_name : Option Text
  pub ssh_options : List Text

abbrev pub u16_max : ℕ
u16_max = 65535

abbrev pub non_empty : Text → Option Text
non_empty v = if is_empty v then none else some v

abbrev pub ssh_option_key : Text → Text
ssh_option_key option = to_lowercase ((cut (λ c. (c == 61) || is_whitespace c) option).0)

abbrev pub ssh_option_value : Text → Option Text
ssh_option_value option = elim ((cut (λ c. c == 61) option).1) [
  | some v ↦ non_empty (trim v)
  | none ↦ elim ((cut is_whitespace option).1) [ some v ↦ non_empty (trim v) | none ↦ none ]
]

abbrev pub set_port : Text → Parsed → Parsed
set_port v s = elim (parse_uint u16_max v) [ none ↦ s | some p ↦ record s { port = some p } ]

-- What `consume_ssh_option` does with a trimmed option, its key and its value.
abbrev pub take_option : Text → Text → Option Text → Parsed → Parsed
take_option trimmed key value s =
    if same key (text "port")
    then elim value [ none ↦ s | some v ↦ set_port v s ]
    else if same key (text "identityfile")
    then elim value [ none ↦ s | some v ↦ record s { identity_file = some v } ]
    else if same key (text "user")
    then elim value [ none ↦ s | some v ↦ record s { login_name = some v } ]
    else if any (same key) filtered_option_keys
    then s
    else record s { ssh_options = s.ssh_options ++ trimmed ∷ [] }

unfoldable pub consume_ssh_option : Text → Parsed → Parsed
consume_ssh_option option s =
    let trimmed = trim option in
    if is_empty trimmed
    then s
    else take_option trimmed (ssh_option_key trimmed) (ssh_option_value trimmed) s

unfoldable pub consume_value : ℕ → Text → Parsed → Parsed
unfolding consume_ssh_option
consume_value flag value s =
    let trimmed = trim value in
    if is_empty trimmed
    then s
    else
        -- 'p', 'i', 'l' and 'o'
        if flag == 112
    then set_port trimmed s
    else if flag == 105
    then record s { identity_file = some trimmed }
    else if flag == 108
    then record s { login_name = some trimmed }
    else if flag == 111
    then consume_ssh_option trimmed s
    else s

-- How the loop reads an argument, by its tests in order.
pub data Reading : Type 0 where
  end_of_options : Reading
  is_destination : Reading
  attached : (flag : ℕ) → (value : Text) → Reading
  separate : (flag : ℕ) → Reading
  switches unknown : Reading

abbrev pub read_flags : Text → Reading
read_flags chars = if all (λ c. contains c no_arg_flags) chars then switches else unknown

abbrev pub read_flag : Text → Reading
read_flag [] = read_flags []
read_flag (c ∷ []) = if contains c value_arg_flags then separate c else read_flags (c ∷ [])
read_flag (c ∷ d ∷ cs) =
    if contains c value_arg_flags then attached c (d ∷ cs) else read_flags (c ∷ d ∷ cs)

-- `arg.chars().skip(1)`.
abbrev pub chars_after : Text → Text
chars_after [] = []
chars_after (c ∷ cs) = cs

unfoldable pub read_arg : Text → Reading
read_arg arg =
    if same arg (text "--")
    then end_of_options
    else if not (starts_with (text "-") arg) || same arg (text "-")
    then is_destination
    else read_flag (chars_after arg)

-- The loop: none is the early `return None`, a result has the destination, if one was met.
unfoldable pub parse_args : Parsed → List Text → Option (Parsed × Option Text)
unfolding consume_value read_arg
parse_args s [] = some (s, none)
parse_args s (arg ∷ []) = elim (read_arg arg) [
  | end_of_options ↦ some (s, none)
  | is_destination ↦ some (s, some arg)
  | attached flag value ↦ some (consume_value flag value s, none)
  | separate flag ↦ none
  | switches ↦ some (s, none)
  | unknown ↦ none
]
parse_args s (arg ∷ next ∷ rest) = elim (read_arg arg) [
  | end_of_options ↦ some (s, some next)
  | is_destination ↦ some (s, some arg)
  | attached flag value ↦ parse_args (consume_value flag value s) (next ∷ rest)
  | separate flag ↦ parse_args (consume_value flag next s) rest
  | switches ↦ parse_args s (next ∷ rest)
  | unknown ↦ none
]

abbrev pub with_login : Option Text → Text → Text
with_login none trimmed = trimmed
with_login (some l) trimmed =
    let login = trim l in
    if not (is_empty login) && not (contains 64 trimmed)
    then login ++ text "@" ++ trimmed
    else trimmed

unfoldable pub resolve_destination : Text → Option Text → Text
resolve_destination destination login_name =
    let trimmed = trim destination in if is_empty trimmed then [] else with_login login_name trimmed

abbrev pub finish : Parsed → Option Text → Option DetectedSshSession
finish s none = none
finish s (some dest) =
    let final_dest = resolve_destination dest s.login_name in
    if is_empty final_dest
    then none
    else some (record {
      destination = final_dest;
      port = s.port;
      identity_file = s.identity_file;
      ssh_options = s.ssh_options;
    })

abbrev pub nothing_parsed : Parsed
nothing_parsed = record { port = none; identity_file = none; login_name = none; ssh_options = [] }

abbrev pub skip_exe : List Text → List Text
skip_exe [] = []
skip_exe (exe ∷ args) = if same (last_part 47 exe) (text "ssh") then args else exe ∷ args

unfoldable pub parse_ssh_command_line : List Text → Option DetectedSshSession
unfolding parse_args resolve_destination
parse_ssh_command_line [] = none
parse_ssh_command_line (exe ∷ args) = elim (parse_args nothing_parsed (skip_exe (exe ∷ args))) [
  | none ↦ none
  | some (s, destination) ↦ finish s destination
]
