-- ===== src/Ports/Scan.antt =====
-- `scan` and `is_under` of app/src/port_detect.rs. The processes with their directories and listening
-- ports are an argument; a `BTreeSet` is an ascending list, and the results of the hash map come in
-- the order in which their workspaces were first met.
use limux.Prelude.{
  ℕ, Bool, true, false, not, ◌&&◌, ◌||◌, Option, none, some, List, [], ◌∷◌, ◌++◌, ◌==◌,
  if◌then◌else◌, ltb, leb, length, filter, filter_map, Map, lookup, insert, map, Text, text, same,
  starts_with, contains,
}

abbrev pub WorkspaceId : Type 0
WorkspaceId = ℕ

-- The directory of a process, and the ports it listens on.
abbrev pub PidPorts : Type 0
PidPorts = Text × List ℕ

unfoldable pub is_under : Text → Text → Bool
is_under cwd dir = same cwd dir || starts_with (dir ++ text "/") cwd

abbrev pub insert_port : ℕ → List ℕ → List ℕ
insert_port p [] = p ∷ []
insert_port p (q ∷ qs) =
    let rest = insert_port p qs in
    if p == q then q ∷ qs else if ltb p q then p ∷ q ∷ qs else q ∷ rest

abbrev pub insert_ports : List ℕ → List ℕ → List ℕ
insert_ports [] set = set
insert_ports (p ∷ ps) set = insert_ports ps (insert_port p set)

abbrev pub dir_len : Option (WorkspaceId × Text) → ℕ
dir_len none = 0
dir_len (some (w, dir)) = length dir

-- `filter(is_under).max_by_key(len)`, which keeps the last of equals. Of two directories that a path
-- is under, the longer one is longer in bytes and in characters alike.
unfoldable pub best_under :
    Text → List (WorkspaceId × Text) → Option (WorkspaceId × Text) → Option (WorkspaceId × Text)
unfolding is_under
best_under cwd [] best = best
best_under cwd ((w, dir) ∷ ws) best =
    best_under cwd ws
      (if is_under cwd dir && leb (dir_len best) (length dir) then some (w, dir) else best)

-- The sets of ports by workspace, and all the ports that were claimed.
abbrev pub Claims : Type 0
Claims = Map (List ℕ) × List ℕ

abbrev pub or_default : Option (List ℕ) → List ℕ
or_default none = []
or_default (some set) = set

unfoldable pub claim : List (WorkspaceId × Text) → Claims → PidPorts → Claims
unfolding best_under
claim cwd_workspaces (results, claimed) (cwd, ports) = elim (best_under cwd cwd_workspaces none) [
  | none ↦ (results, claimed)
  | some (ws_id, dir) ↦ (
    insert ws_id (insert_ports ports (or_default (lookup ws_id results))) results,
    insert_ports ports claimed,
  )
]

unfoldable pub claim_all : List (WorkspaceId × Text) → Claims → List PidPorts → Claims
unfolding claim
claim_all cwd_workspaces acc [] = acc
claim_all cwd_workspaces acc (p ∷ ps) = claim_all cwd_workspaces (claim cwd_workspaces acc p) ps

abbrev pub all_ports : List PidPorts → List ℕ → List ℕ
all_ports [] set = set
all_ports ((cwd, ports) ∷ ps) set = all_ports ps (insert_ports ports set)

abbrev pub with_dir : WorkspaceId × Option Text → Option (WorkspaceId × Text)
with_dir (w, none) = none
with_dir (w, some dir) = some (w, dir)

abbrev pub without_dir : WorkspaceId × Option Text → Option WorkspaceId
without_dir (w, none) = some w
without_dir (w, some dir) = none

abbrev pub no_ports : List ℕ → Bool
no_ports [] = true
no_ports (p ∷ ps) = false

-- What the workspaces without a directory are shown.
unfoldable pub fallback_ports : List (WorkspaceId × Text) → List PidPorts → List ℕ → List ℕ
fallback_ports cwd_workspaces pid_ports claimed =
    let every = all_ports pid_ports [] in
    if no_ports claimed
    then every
    else elim cwd_workspaces [ [] ↦ every | w ∷ ws ↦ filter (λ p. not (contains p claimed)) every ]

unfoldable pub scan : List PidPorts → List (WorkspaceId × Option Text) → List (WorkspaceId × List ℕ)
unfolding claim_all fallback_ports
scan pid_ports workspaces =
    let cwd_workspaces = filter_map with_dir workspaces in
    let (results, claimed) = claim_all cwd_workspaces ([], []) pid_ports in
    let fallback = fallback_ports cwd_workspaces pid_ports claimed in
    filter (λ (w, set). not (no_ports set)) results
    ++ (if no_ports fallback
        then []
        else map (λ w. (w, fallback)) (filter_map without_dir workspaces))
