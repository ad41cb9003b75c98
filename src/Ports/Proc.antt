-- ===== src/Ports/Proc.antt =====
-- The readers of /proc in app/src/port_detect.rs: what its files and links hold are arguments, none
-- where one cannot be read.
use limux.Prelude.{
  ℕ, ◌+◌, ◌-◌, ◌*◌, ◌^◌, Option, none, some, ◌&&◌, List, [], ◌∷◌, ◌==◌, if◌then◌else◌, leb, chain,
  Map, lookup, insert, Text, text, same, split_on, split_whitespace, without_cr, rsplit_once,
  is_empty, strip_prefix, without_plus, parse_uint, at_most, drop, filter_map,
}

-- `from_str_radix` with radix 16.
abbrev pub hex_value : ℕ → ℕ → Option ℕ
hex_value acc c =
    if leb 48 c && leb c 57
    then some (acc * 16 + (c - 48))
    else if leb 97 c && leb c 102
    then some (acc * 16 + (c - 87))
    else if leb 65 c && leb c 70
    then some (acc * 16 + (c - 55))
    else none

unfoldable pub hex_digits_value : ℕ → Text → Option ℕ
hex_digits_value acc [] = some acc
hex_digits_value acc (c ∷ cs) = elim (hex_value acc c) [
  | none ↦ none
  | some n ↦ hex_digits_value n cs
]

unfoldable pub parse_hex : ℕ → Text → Option ℕ
parse_hex bound t =
    let ds = without_plus t in if is_empty ds then none else at_most bound (hex_digits_value 0 ds)

-- The inode and the port of a line of /proc/net/tcp, by its fields.
unfoldable pub listening_socket : List Text → Option (ℕ × ℕ)
listening_socket
      (sl ∷ addr ∷ rem ∷ st ∷ queues ∷ timer ∷ retrnsmt ∷ uid ∷ timeout ∷ inode ∷ others) =
    if same st (text "0A")
    then elim (rsplit_once 58 addr) [
      | none ↦ none
      | some (host, digits) ↦ elim (parse_hex 65535 digits) [
        | none ↦ none
        | some port ↦
            if port == 0
            then none
            else elim (parse_uint (2 ^ 64 - 1) inode) [ none ↦ none | some n ↦ some (n, port) ]
      ]
    ]
    else none
listening_socket fields = none

abbrev pub add_socket : Option (ℕ × ℕ) → Map ℕ → Map ℕ
add_socket none m = m
add_socket (some (inode, port)) m = insert inode port m

unfoldable pub add_lines : List Text → Map ℕ → Map ℕ
add_lines [] m = m
add_lines (l ∷ ls) m =
    add_lines ls (add_socket (listening_socket (split_whitespace (without_cr l))) m)

-- The header line is skipped. A last line that is empty has no fields.
unfoldable pub parse_proc_net_tcp : Option Text → Map ℕ → Map ℕ
parse_proc_net_tcp none m = m
parse_proc_net_tcp (some content) m = add_lines (drop 1 (split_on 10 content)) m

unfoldable pub read_listening_inodes : Option Text → Option Text → Map ℕ
read_listening_inodes tcp tcp6 = parse_proc_net_tcp tcp6 (parse_proc_net_tcp tcp [])

-- The second word after the last parenthesis of a `stat`.
abbrev pub second_word : List Text → Option Text
second_word (state ∷ ppid ∷ rest) = some ppid
second_word words = none

unfoldable pub read_ppid : Option Text → Option ℕ
read_ppid content = chain content λ stat.
    chain (rsplit_once 41 stat)
      λ (front, rest). chain (second_word (split_whitespace rest)) (parse_uint (2 ^ 32 - 1))

-- `strip_suffix(']')`.
abbrev pub strip_bracket : Text → Option Text
strip_bracket [] = none
strip_bracket (c ∷ []) = if c == 93 then some [] else none
strip_bracket (c ∷ d ∷ cs) = elim (strip_bracket (d ∷ cs)) [ none ↦ none | some t ↦ some (c ∷ t) ]

unfoldable pub socket_port : Map ℕ → Option Text → Option ℕ
socket_port inodes target = chain target λ s. chain (strip_prefix (text "socket:[") s) λ rest.
    chain (strip_bracket rest)
      λ inner. chain (parse_uint (2 ^ 64 - 1) inner) λ inode. lookup inode inodes

-- The targets of the links in a process's `fd`.
unfoldable pub pid_listening_ports : Map ℕ → List (Option Text) → List ℕ
pid_listening_ports inodes links = filter_map (socket_port inodes) links
