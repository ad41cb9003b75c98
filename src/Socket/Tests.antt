-- ===== src/Socket/Tests.antt =====
-- The theorems on the control socket of app/src/socket.rs at a concrete connection.
use limux.Prelude.{ℕ, ◌+◌, ◌≡◌, refl, some, List, [], ◌∷◌, ◌++◌, Text, text, arith}
use limux.Socket.Lines.{
  Read, chunk, Connection, process, on_readable, serve, drain, split_lines, run_lines,
}
use limux.Socket.Chunks.{IsWaiting, all_bytes_of, serve-process}

-- An app that counts its commands.
abbrev counting : ℕ → Text → ℕ × Text
counting n cmd = (n + 1, text "OK pong")

abbrev fresh : Connection ℕ
fresh = record { app = 0; buf = []; out = [] }

-- `ping`, twice, in three reads and two callbacks.
abbrev pings : List (List Read)
pings =
    (chunk (text "pi") ∷ chunk (text "ng" ++ 10 ∷ text "pin") ∷ [])
    ∷ (chunk (text "g" ++ 10 ∷ []) ∷ [])
    ∷ []

served : Connection ℕ
served = (serve counting fresh pings).0

serve-process_example :
    (bytes : List ℕ) × (all_bytes_of pings ≡ some bytes)
    × (served ≡ process counting fresh (fresh.buf ++ bytes))
    × IsWaiting served
unfolding served serve on_readable drain process split_lines run_lines
serve-process_example =
    serve-process counting fresh pings served (record { bounded = omega arith; partial = refl })
      refl
