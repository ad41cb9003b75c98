-- ===== src/Remote/Tests.antt =====
-- The theorems on remote sessions of app/src/remote at concrete leases, configurations and processes.
use limux.Prelude.{
  ◌==◌, if◌then◌else◌, decimal, lookup, arith, ℕ, ◌≡◌, inl, inr, Bool-cases, same_text, refl, arith,
  Option, some, none, List, [], ◌∷◌, ◌++◌, Text, text, lookup_text,
}
use limux.Remote.Broker.{Entries, ProxyEndpoint, acquire, release, tunnel_task, attempting, up}
use limux.Remote.Counts.{Action, acquired, dropped, turned, happen_all, Accounts, leases_of}
use limux.Remote.Leases.{happen_all-Accounts, release-acquire}
use limux.Remote.Sharing.{CameUp, tunnel_task-up}
use limux.Remote.Config.{
  RemoteConfiguration, ssh_interactive_args, append_connection_args, has_ssh_option,
}
use limux.Remote.Controller.{Registry}
use limux.Remote.Registry.{
  IsKept, Request, connects, disconnects, reconnects, serve_all, serve_all-IsKept,
}
use limux.Remote.Shell.{shell_escape_paths, generate_bootstrap_script, generate_startup_command}
use limux.Remote.Quoting.{
  shell_words, shell_words-shell_escape_paths, shell_words-generate_startup_command,
}
use limux.Remote.Ssh.{parse_ssh_command_line}
use limux.Remote.Arguments.{Usable, standing_options, parse_ssh_command_line-ssh_interactive_args}
use limux.Remote.Detect.{candidates, detect, tty_path_to_nr, check_pid, first_session}
use limux.Remote.Newest.{detect-no_pid}
use limux.Remote.Found.{IsNewest, detect-IsNewest}

no_leases : Accounts [] []
unfolding lookup_text
no_leases = record { counted = λ key. refl }

abbrev some_actions : List Action
some_actions =
    acquired "dest=a" 1 8
    ∷ turned "dest=a" (attempting 0) (up 4 5 (record { host = "h"; port = 90 }))
    ∷ acquired "dest=a" 2 9
    ∷ dropped "dest=a"
    ∷ []

happen_all-Accounts_example :
    Accounts (happen_all some_actions ([], [])).0 (happen_all some_actions ([], [])).1
happen_all-Accounts_example = happen_all-Accounts some_actions ([], []) no_leases

abbrev one_entry : Entries
one_entry =
    (
      "dest=a",
      record {
        subscriber_count = 1;
        tunnel = none;
        rpc = none;
        endpoint = none;
        callbacks = 1 ∷ [];
        task = some 8;
      },
    )
    ∷ []

one_lease : Accounts one_entry ("dest=a" ∷ [])
unfolding lookup_text
one_lease = record {
  counted = λ key. elim (Bool-cases (same_text "dest=a" key)) [
    | inl e ↦ rw e (refl, refl, omega arith)
    | inr n ↦ rw n refl
  ];
}

release-acquire_example :
    lookup_text "dest=a" (release (acquire one_entry "dest=a" 2 9).0 "dest=a").0
    ≡ lookup_text "dest=a" one_entry
release-acquire_example = release-acquire one_entry "dest=a" 2 9 ("dest=a" ∷ []) one_lease

abbrev endpoint : ProxyEndpoint
endpoint = record { host = "127.0.0.1"; port = 1080 }

tunnel_task-up_example :
    CameUp one_entry "dest=a"
      (leases_of "dest=a" ("dest=a" ∷ []))
      4
      5
      endpoint
      (tunnel_task one_entry "dest=a" (attempting 0) (up 4 5 endpoint))
tunnel_task-up_example =
    tunnel_task-up one_entry "dest=a" ("dest=a" ∷ []) 0 4 5 endpoint one_lease (omega arith)

abbrev build_host : RemoteConfiguration
build_host = record {
  destination = text "me@build.example";
  port = some 2222;
  identity_file = some (text "/home/me/.ssh/id");
  ssh_options = text "ForwardAgent=yes" ∷ [];
  terminal_startup_command = none;
  relay_port = none;
  relay_id = none;
  relay_token = none;
  local_socket_path = none;
}

build_host-Usable : Usable build_host
build_host-Usable = record {
  destination = record { trimmed = refl; some_text = refl };
  not_flag = refl;
  port = omega arith;
  identity_file = record { trimmed = refl; some_text = refl };
  ssh_options = (
    record {
      whole = record { trimmed = refl; some_text = refl };
      not_port = refl;
      not_identity = refl;
      not_user = refl;
      not_filtered = refl;
    },
    tt,
  );
}

parse_ssh_command_line-ssh_interactive_args_example :
    parse_ssh_command_line
      (text "ssh" ∷ ssh_interactive_args build_host ++ build_host.destination ∷ [])
    ≡ some (record {
      destination = build_host.destination;
      port = build_host.port;
      identity_file = build_host.identity_file;
      ssh_options = standing_options build_host ++ build_host.ssh_options;
    })
parse_ssh_command_line-ssh_interactive_args_example =
    parse_ssh_command_line-ssh_interactive_args build_host build_host-Usable

-- A process in the foreground of /dev/pts/5 that runs ssh.
abbrev stat_of : ℕ → Option Text
stat_of pid = some (text "40 (ssh) S 1 40 40 34821 40 0")

abbrev cmdline_of : ℕ → Option Text
cmdline_of pid = some (text "ssh" ++ 0 ∷ text "me@host" ++ 0 ∷ [])

detect-no_pid_example :
    detect stat_of cmdline_of
      (some (some (text "40") ∷ some (text "self") ∷ []))
      (text "/dev/pts/5")
    ≡ none
detect-no_pid_example =
    detect-no_pid stat_of cmdline_of (some (text "40") ∷ some (text "self") ∷ [])
      (text "/dev/pts/5") refl

five : tty_path_to_nr (text "/dev/pts/5") ≡ some 34821
unfolding tty_path_to_nr
five = refl

-- Three processes in the foreground of /dev/pts/5, of which two run ssh.
abbrev host_of : ℕ → Option Text
host_of pid =
    if pid == 7
    then some (text "vim" ++ 0 ∷ [])
    else if pid == 40
    then some (text "ssh" ++ 0 ∷ text "me@old" ++ 0 ∷ [])
    else some (text "/usr/bin/ssh" ++ 0 ∷ text "me@new" ++ 0 ∷ [])

abbrev three_processes : List (Option Text)
three_processes = some (text "40") ∷ some (text "55") ∷ some (text "7") ∷ []

new_host :
    elim (detect stat_of host_of (some three_processes) (text "/dev/pts/5")) [
      | none ↦ []
      | some s ↦ s.destination
    ]
    ≡ text "me@new"
unfolding detect tty_path_to_nr candidates check_pid first_session parse_ssh_command_line
new_host = refl

detect-IsNewest_example :
    IsNewest stat_of host_of 34821 three_processes
      (detect stat_of host_of (some three_processes) (text "/dev/pts/5"))
detect-IsNewest_example =
    detect-IsNewest stat_of host_of three_processes (text "/dev/pts/5") 34821 five refl

-- A path with a space and a quote, and one that needs no quoting.
abbrev dropped_paths : List Text
dropped_paths = text "/tmp/it's here" ∷ text "/tmp/a.txt" ∷ []

shell_words-shell_escape_paths_example :
    shell_words (shell_escape_paths dropped_paths) ≡ some dropped_paths
shell_words-shell_escape_paths_example = shell_words-shell_escape_paths dropped_paths refl

abbrev work : RemoteConfiguration
work = record {
  destination = text "me@work";
  port = some 2222;
  identity_file = none;
  ssh_options = [];
  terminal_startup_command = none;
  relay_port = none;
  relay_id = none;
  relay_token = none;
  local_socket_path = none;
}

shell_words-generate_startup_command_example :
    shell_words (generate_startup_command work 4000)
    ≡ some (
        text "ssh"
        ∷ (ssh_interactive_args work
            ++ text "-t" ∷ work.destination ∷ generate_bootstrap_script 4000 ∷ []))
unfolding ssh_interactive_args append_connection_args has_ssh_option decimal
shell_words-generate_startup_command_example =
    shell_words-generate_startup_command work 4000 refl refl

-- No thread runs before the first request.
abbrev no_threads : Registry
no_threads = record { running = []; stopped = [] }

no_threads-IsKept : IsKept 0 no_threads
unfolding lookup
no_threads-IsKept = record {
  runs = λ ws t h. absurd (ground arith);
  found = λ t l h. absurd (omega arith);
  one_owner = λ ws ws' t h k. absurd (ground arith);
  known = λ t h. absurd (ground arith);
}

abbrev requests : List Request
requests = connects 1 ∷ connects 2 ∷ reconnects 1 ∷ disconnects 2 ∷ []

serve_all-IsKept_example :
    IsKept (serve_all requests (0, no_threads)).0 (serve_all requests (0, no_threads)).1
serve_all-IsKept_example = serve_all-IsKept requests 0 no_threads no_threads-IsKept
