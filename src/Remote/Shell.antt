-- ===== src/Remote/Shell.antt =====
-- app/src/remote/shell.rs, the arguments of app/src/remote/file_drop.rs, and `shell_escape_paths` of
-- app/src/window.rs.
use limux.Prelude.{
  ℕ, Option, none, some, Bool, ◌||◌, List, [], ◌∷◌, ◌++◌, ◌==◌, if◌then◌else◌, any, map, join, Text,
  text, is_whitespace, contains, decimal,
}
use limux.Remote.Config.{RemoteConfiguration, ssh_interactive_args, ssh_batch_args, option_args}

-- `replace('\'', "'\\''")`.
unfoldable pub escape : Text → Text
escape [] = []
escape (c ∷ cs) = if c == 39 then 39 ∷ 92 ∷ 39 ∷ 39 ∷ escape cs else c ∷ escape cs

-- `'{}'` of an escaped text.
abbrev pub quote : Text → Text
quote t = 39 ∷ (escape t ++ 39 ∷ [])

abbrev pub specials : Text
specials = text "\"'\\$`!#&|;(){}[]<>?*~"

abbrev pub is_special : ℕ → Bool
is_special c = is_whitespace c || contains c specials

unfoldable pub shell_escape : Text → Text
shell_escape p = if any is_special p then quote p else p

unfoldable pub shell_escape_paths : List Text → Text
shell_escape_paths paths = join (text " ") (map shell_escape paths)

abbrev pub newline : Text
newline = 10 ∷ []

unfoldable pub generate_bootstrap_script : ℕ → Text
generate_bootstrap_script relay_port =
    text "export PATH=\"$HOME/.limux/bin:$PATH\""
    ++ (newline
        ++ (text "export LIMUX_SOCKET_PATH='127.0.0.1:"
            ++ (decimal relay_port
                ++ (text "'"
                    ++ (newline
                        ++ (text "export COLORTERM='truecolor'"
                            ++ (newline
                                ++ (text "export TERM_PROGRAM='ghostty'"
                                    ++ (newline ++ text "exec \"$SHELL\" -il")))))))))

-- The parts of the command before they are joined.
unfoldable pub startup_parts : RemoteConfiguration → ℕ → List Text
startup_parts config relay_port =
    (text "ssh" ∷ ssh_interactive_args config)
    ++ text "-t" ∷ config.destination ∷ quote (generate_bootstrap_script relay_port) ∷ []

unfoldable pub generate_startup_command : RemoteConfiguration → ℕ → Text
generate_startup_command config relay_port = join (text " ") (startup_parts config relay_port)

unfoldable pub build_ssh_args : RemoteConfiguration → Text → List Text
build_ssh_args config command = ssh_batch_args config ++ config.destination ∷ command ∷ []

unfoldable pub scp_base_args : RemoteConfiguration → List Text
scp_base_args config =
    (text "-o" ∷ text "BatchMode=yes" ∷ text "-o" ∷ text "StrictHostKeyChecking=accept-new" ∷ [])
    ++ (elim config.port [ some port ↦ text "-P" ∷ decimal port ∷ [] | none ↦ [] ]
        ++ (elim config.identity_file [ some identity ↦ text "-i" ∷ identity ∷ [] | none ↦ [] ]
            ++ option_args config.ssh_options))

-- The commands of an upload and how they end.
pub data Run : Type 0 where
  ssh scp : List Text → Run

-- A local path and its file name, where it has one that is UTF-8.
abbrev pub LocalPath : Type 0
LocalPath = Text × Option Text

abbrev pub file_name : Option Text → Text
file_name none = text "file"
file_name (some n) = n

-- The copies one after another; `works` tells how a command ends. The remote paths, if all do.
unfoldable pub copy_files :
    (Run → Bool) → RemoteConfiguration → Text → List LocalPath → List Run × Option (List Text)
copy_files works config remote_dir [] = ([], some [])
copy_files works config remote_dir ((path, name) ∷ paths) =
    let remote_path = remote_dir ++ 47 ∷ file_name name in
    let run = scp (scp_base_args config ++ path ∷ (config.destination ++ 58 ∷ remote_path) ∷ []) in
    let (runs, rest) = copy_files works config remote_dir paths in
    if works run
    then (run ∷ runs, elim rest [ none ↦ none | some remote ↦ some (remote_path ∷ remote) ])
    else (run ∷ [], none)

unfoldable pub upload_files :
    (Run → Bool)
    → RemoteConfiguration
    → (random_suffix : Text) → List LocalPath
    → List Run × Option (List Text)
upload_files works config random_suffix [] = ([], some [])
upload_files works config random_suffix (path ∷ paths) =
    let remote_dir = text "/tmp/limux-drop-" ++ random_suffix in
    let mkdir = ssh (build_ssh_args config (text "mkdir -p '" ++ (remote_dir ++ text "'"))) in
    let (runs, result) = copy_files works config remote_dir (path ∷ paths) in
    if works mkdir then (mkdir ∷ runs, result) else (mkdir ∷ [], none)
