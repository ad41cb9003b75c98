-- ===== src/Remote/Config.antt =====
-- The configuration of a remote session in app/src/remote/config.rs, with the arguments it gives ssh.
use limux.Prelude.{
  ℕ, Bool, true, false, not, ◌&&◌, Option, none, some, List, [], ◌∷◌, ◌++◌, ◌==◌, if◌then◌else◌,
  any, find, Text, text, same, strip_prefix, decimal,
}

pub record RemoteConfiguration : Type 0 where
  pub destination : Text
  pub port : Option ℕ
  pub identity_file : Option Text
  pub ssh_options : List Text
  pub terminal_startup_command : Option Text
  pub relay_port : Option ℕ
  pub relay_id : Option Text
  pub relay_token : Option Text
  pub local_socket_path : Option Text

-- "user@host" or "user@host:port".
unfoldable pub display_target : RemoteConfiguration → Text
display_target c = elim c.port [
  | some p ↦ c.destination ++ text ":" ++ decimal p
  | none ↦ c.destination
]

-- The option starts with the key, and ends there or goes on with `=`.
abbrev pub sets_option : Text → Text → Bool
sets_option key o = elim (strip_prefix key o) [
  | none ↦ false
  | some rest ↦ elim rest [ [] ↦ true | c ∷ cs ↦ c == 61 ]
]

unfoldable pub has_ssh_option : RemoteConfiguration → Text → Bool
has_ssh_option c key = any (sets_option key) c.ssh_options

abbrev pub option_args : List Text → List Text
option_args [] = []
option_args (o ∷ os) = text "-o" ∷ o ∷ option_args os

unfoldable pub append_connection_args : RemoteConfiguration → List Text → List Text
append_connection_args c args =
    args
    ++ elim c.port [ some p ↦ text "-p" ∷ decimal p ∷ [] | none ↦ [] ]
    ++ elim c.identity_file [ some i ↦ text "-i" ∷ i ∷ [] | none ↦ [] ]
    ++ option_args c.ssh_options

abbrev pub host_key_args : RemoteConfiguration → List Text
host_key_args c =
    if not (has_ssh_option c (text "StrictHostKeyChecking"))
    then text "-o" ∷ text "StrictHostKeyChecking=accept-new" ∷ []
    else []

unfoldable pub ssh_interactive_args : RemoteConfiguration → List Text
ssh_interactive_args c = append_connection_args c (
    option_args (text "ServerAliveInterval=20" ∷ text "ServerAliveCountMax=2" ∷ [])
    ++ host_key_args c)

unfoldable pub ssh_batch_args : RemoteConfiguration → List Text
ssh_batch_args c = append_connection_args c (
    option_args
      (text "ConnectTimeout=6" ∷ text "ServerAliveInterval=20" ∷ text "ServerAliveCountMax=2" ∷ [])
    ++ host_key_args c
    ++ option_args (text "BatchMode=yes" ∷ text "ControlMaster=no" ∷ []))

-- `parts.join(" ")`.
abbrev pub join : Text → List Text → Text
join sep [] = []
join sep (t ∷ []) = t
join sep (t ∷ u ∷ ts) = t ++ sep ++ join sep (u ∷ ts)

unfoldable pub ssh_command : RemoteConfiguration → Text
unfolding ssh_interactive_args
ssh_command c = elim c.terminal_startup_command [
  | some cmd ↦ cmd
  | none ↦ join (text " ") (text "ssh" ∷ ssh_interactive_args c ++ c.destination ∷ [])
]

pub record ManifestEntry : Type 0 where
  pub go_os : Text
  pub go_arch : Text
  pub download_url : Text
  pub sha256 : Text

unfoldable pub find_entry : List ManifestEntry → Text → Text → Option ManifestEntry
find_entry entries go_os go_arch = find (λ e. same e.go_os go_os && same e.go_arch go_arch) entries
