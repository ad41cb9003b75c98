-- ===== src/Socket/Lines.antt =====
-- `handle_client` of app/src/socket.rs: one callback of the main loop for each time that the
-- client's stream has something to read. What a command does is a function on the app's state.
use limux.Prelude.{
  ℕ, ◌^◌, Option, none, some, Bool, true, false, List, [], ◌∷◌, ◌++◌, length, ltb, ◌==◌,
  if◌then◌else◌, Text, text, starts_with, trim, from_utf8_lossy,
}

-- What a read returns; the callback's reads end when one would block.
pub data Read : Type 0 where
  chunk : List ℕ → Read
  closed failed : Read

abbrev pub max_buffered : ℕ
max_buffered = 2 ^ 20

-- The loop that drains the stream into the buffer; none is a `Break`.
unfoldable pub drain : List ℕ → List Read → Option (List ℕ)
drain buf [] = some buf
drain buf (closed ∷ reads) = none
drain buf (failed ∷ reads) = none
drain buf (chunk bytes ∷ reads) =
    let buf' = buf ++ bytes in
    elim (ltb max_buffered (length buf')) [ true ↦ none | false ↦ drain buf' reads ]

-- The complete lines after a line that has begun, and what is left of the buffer.
unfoldable pub split_lines : List ℕ → List ℕ → List (List ℕ) × List ℕ
split_lines begun [] = ([], begun)
split_lines begun (b ∷ bytes) = elim (b == 10) [
  | true ↦ let (lines, rest) = split_lines [] bytes in (begun ∷ lines, rest)
  | false ↦ split_lines (begun ++ b ∷ []) bytes
]

-- The response as it is written: one that gives its length ends without a newline.
abbrev pub written : Text → Text
written response = if starts_with (text "OK+") response then response else response ++ 10 ∷ []

-- A connection: the app's state, the buffer, and what was handed to the writes to the client, whose
-- results the code drops.
pub record Connection (S : Type 0) : Type 0 where
  pub app : S
  pub buf : List ℕ
  pub out : Text

abbrev pub if_open :
    {S : Type 0} → (Connection S → Connection S × Bool) → Connection S × Bool → Connection S × Bool
if_open k (c, true) = k c
if_open k (c, false) = (c, false)

module _ {S : Type 0} (handle_command : S → Text → S × Text) where
  unfoldable pub run_lines : S → List (List ℕ) → S × Text
  run_lines s [] = (s, [])
  run_lines s (l ∷ lines) =
      let (s', response) = handle_command s (trim (from_utf8_lossy l)) in
      let (s'', more) = run_lines s' lines in (s'', written response ++ more)

  unfoldable pub process : Connection S → List ℕ → Connection S
  process c buf =
      let (lines, rest) = split_lines [] buf in
      let (s, responses) = run_lines c.app lines in
      record { app = s; buf = rest; out = c.out ++ responses }

  -- A callback, and whether it is to be called again.
  unfoldable pub on_readable : Connection S → List Read → Connection S × Bool
  on_readable c reads = elim (drain c.buf reads) [
    | none ↦ (c, false)
    | some buf ↦ (process c buf, true)
  ]

  -- Callbacks until one ends the connection.
  unfoldable pub serve : Connection S → List (List Read) → Connection S × Bool
  serve c [] = (c, true)
  serve c (reads ∷ wakeups) = if_open (λ c'. serve c' wakeups) (on_readable c reads)
