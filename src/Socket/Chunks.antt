-- ===== src/Socket/Chunks.antt =====
-- How the division of a client's bytes into reads and callbacks matters to `handle_client` of
-- app/src/socket.rs, and how much it buffers.
use limux.Prelude.{
  ℕ, ◌+◌, ◌≤◌, ◌≡◌, refl, ap, sym, ◌∙◌, inl, inr, Option, none, some, true, false, List, [], ◌∷◌,
  ◌++◌, append_assoc, append-nil, length, length-append, ltb, ◌==◌, Bool-cases, Option-cases, Text,
  trim, from_utf8_lossy, contains, arith,
}
use limux.Socket.Lines.{
  Read, chunk, closed, failed, max_buffered, drain, split_lines, run_lines, Connection, process,
  on_readable, serve, if_open, written,
}

-- The bytes of a callback's reads, if the stream stays open.
abbrev pub bytes_of : List Read → Option (List ℕ)
bytes_of [] = some []
bytes_of (closed ∷ reads) = none
bytes_of (failed ∷ reads) = none
bytes_of (chunk bs ∷ reads) = elim (bytes_of reads) [ none ↦ none | some more ↦ some (bs ++ more) ]

-- All bytes of a list of callbacks, if the stream stays open in each.
abbrev pub all_bytes_of : List (List Read) → Option (List ℕ)
all_bytes_of [] = some []
all_bytes_of (reads ∷ wakeups) = elim (bytes_of reads) [
  | none ↦ none
  | some bs ↦ elim (all_bytes_of wakeups) [ none ↦ none | some more ↦ some (bs ++ more) ]
]

drain-some :
    (buf : List ℕ) (reads : List Read) (buf' : List ℕ)
    → length buf ≤ max_buffered
    → drain buf reads ≡ some buf'
    → (more : List ℕ) × (bytes_of reads ≡ some more)
      × (buf' ≡ buf ++ more)
      × (length buf' ≤ max_buffered)
unfolding drain
drain-some buf [] buf' l h = ([], refl, ground (arith, append-nil buf), ground arith)
drain-some buf (closed ∷ reads) buf' l h = absurd (ground arith)
drain-some buf (failed ∷ reads) buf' l h = absurd (ground arith)
drain-some buf (chunk bs ∷ reads) buf' l h =
    elim (Bool-cases (ltb max_buffered (length (buf ++ bs)))) [
      | inl e ↦ absurd (ground arith)
      | inr e ↦
          let (more, f, g, m) = drain-some (buf ++ bs) reads buf' (ground arith) (ground arith) in
          (bs ++ more, rw f refl, g ∙ append_assoc buf bs more, m)
    ]

contains-push :
    (t : Text) (b : ℕ)
    → contains 10 t ≡ false
    → (b == 10) ≡ false
    → contains 10 (t ++ b ∷ []) ≡ false
contains-push [] b h e = rw e refl
contains-push (c ∷ t) b h e = ground (arith, contains-push t b)

-- What is left of a line that has begun has no newline, and is no longer than the bytes.
rest-no_newline :
    (begun bytes : List ℕ)
    → contains 10 begun ≡ false
    → contains 10 (split_lines begun bytes).1 ≡ false
unfolding split_lines
rest-no_newline begun [] h = h
rest-no_newline begun (b ∷ bytes) h = elim (Bool-cases (b == 10)) [
  | inl e ↦ rw (split_lines, e) (rest-no_newline [] bytes refl)
  | inr e ↦
      rw (split_lines, e) (rest-no_newline (begun ++ b ∷ []) bytes (contains-push begun b h e))
]

length-rest :
    (begun bytes : List ℕ) → length (split_lines begun bytes).1 ≤ length begun + length bytes
unfolding split_lines
length-rest begun [] = omega arith
length-rest begun (b ∷ bytes) = elim (Bool-cases (b == 10)) [
  | inl e ↦ rw (split_lines, e) (omega (arith, length-rest [] bytes))
  | inr e ↦
      rw (split_lines, e)
        (omega (arith, length-rest (begun ++ b ∷ []) bytes, length-append begun (b ∷ [])))
]

-- Bytes that follow: their lines begin with what was left.
split_lines-append :
    (begun xs ys : List ℕ)
    → let (lines, rest) = split_lines begun xs in
      let (lines', rest') = split_lines rest ys in
      split_lines begun (xs ++ ys) ≡ (lines ++ lines', rest')
unfolding split_lines
split_lines-append begun [] ys = refl
split_lines-append begun (b ∷ xs) ys = elim (Bool-cases (b == 10)) [
  | inl e ↦ rw (split_lines, e) (ap (λ p. (begun ∷ p.0, p.1)) (split_lines-append [] xs ys))
  | inr e ↦ rw (split_lines, e) (split_lines-append (begun ++ b ∷ []) xs ys)
]

pub split_lines-begun :
    (begun line ys : List ℕ)
    → contains 10 line ≡ false
    → split_lines begun (line ++ ys) ≡ split_lines (begun ++ line) ys
unfolding split_lines
split_lines-begun begun [] ys h = ap (λ t. split_lines t ys) (sym (append-nil begun))
split_lines-begun begun (b ∷ line) ys h = elim (Bool-cases (b == 10)) [
  | inl e ↦ absurd (ground arith)
  | inr e ↦
      rw (split_lines, e)
        (split_lines-begun (begun ++ b ∷ []) line ys (ground arith)
          ∙ ap (λ t. split_lines t ys) (append_assoc begun (b ∷ []) line))
]

-- The buffer between two callbacks.
pub record IsWaiting {S : Type 0} (c : Connection S) : Type 0 where
  pub bounded : length c.buf ≤ max_buffered
  pub partial : contains 10 c.buf ≡ false

module _ {S : Type 0} (handle_command : S → Text → S × Text) where
  run_lines-append :
      (s : S) (ls ks : List (List ℕ))
      → let (s', out) = run_lines handle_command s ls in
        let (s'', more) = run_lines handle_command s' ks in
        run_lines handle_command s (ls ++ ks) ≡ (s'', out ++ more)
  unfolding run_lines
  run_lines-append s [] ks = refl
  run_lines-append s (l ∷ ls) ks =
      let (s', response) = handle_command s (trim (from_utf8_lossy l)) in
      let ih = run_lines-append s' ls ks in
      ap (λ p. (p.0, written response ++ p.1)) ih
      ∙ ap (λ t. ((run_lines handle_command (run_lines handle_command s' ls).0 ks).0, t))
          (sym (
            append_assoc (written response) (run_lines handle_command s' ls).1
              (run_lines handle_command (run_lines handle_command s' ls).0 ks).1))

  process-append :
      (c : Connection S) (xs ys : List ℕ)
      → process handle_command
          (process handle_command c xs)
          ((process handle_command c xs).buf ++ ys)
        ≡ process handle_command c (xs ++ ys)
  unfolding process
  process-append c xs ys =
      let (lines, rest) = split_lines [] xs in
      let (lines', rest') = split_lines rest ys in
      let (s', out) = run_lines handle_command c.app lines in
      let again : split_lines [] (rest ++ ys) ≡ (lines', rest') =
        split_lines-begun [] rest ys (rest-no_newline [] xs refl) in
      rw
        (
          again,
          split_lines-append [] xs ys,
          run_lines-append c.app lines lines',
          append_assoc c.out out (run_lines handle_command s' lines').1,
        )
        refl

  process-nothing :
      (c : Connection S) → contains 10 c.buf ≡ false → process handle_command c c.buf ≡ c
  unfolding process run_lines split_lines
  process-nothing c h =
      let whole : split_lines [] c.buf ≡ ([], c.buf) =
        ap (split_lines []) (sym (append-nil c.buf)) ∙ split_lines-begun [] c.buf [] h in
      rw (process, whole, append-nil c.out) refl

  process-IsWaiting :
      (c : Connection S) (buf : List ℕ)
      → length buf ≤ max_buffered
      → IsWaiting (process handle_command c buf)
  unfolding process
  process-IsWaiting c buf h = record {
    bounded = omega (arith, length-rest [] buf);
    partial = rest-no_newline [] buf refl;
  }

  -- When callbacks that start from a buffer within 2^20 bytes and without a newline all leave the
  -- connection open, the commands run, the answers and the buffer are those of one pass over the
  -- bytes in order, however they were divided into reads and callbacks, and the buffer again has at
  -- most 2^20 bytes and no newline.
  pub serve-process :
      (c : Connection S) (wakeups : List (List Read)) (c' : Connection S)
      → IsWaiting c
      → serve handle_command c wakeups ≡ (c', true)
      → (bytes : List ℕ) × (all_bytes_of wakeups ≡ some bytes)
        × (c' ≡ process handle_command c (c.buf ++ bytes))
        × IsWaiting c'
  unfolding serve on_readable
  serve-process c [] c' v h =
      let e : c' ≡ c = ground arith in
      rw e (
        [],
        refl,
        sym (ap (process handle_command c) (append-nil c.buf) ∙ process-nothing c v.partial),
        v,
      )
  serve-process c (reads ∷ wakeups) c' v h = elim (Option-cases (drain c.buf reads)) [
    | inl e ↦ absurd (ground arith)
    | inr (buf, e) ↦
        let (more, f, g, l) = drain-some c.buf reads buf v.bounded e in
        let c1 = process handle_command c buf in
        let now : on_readable handle_command c reads ≡ (c1, true) = rw (on_readable, e) refl in
        let step = ap (if_open (λ d. serve handle_command d wakeups)) now in
        let (bytes, f', g', v') =
          serve-process c1 wakeups c' (process-IsWaiting c buf l) (sym step ∙ h) in
        (
          more ++ bytes,
          ground (arith, f, f'),
          g'
              ∙ process-append c buf bytes
              ∙ ap (process handle_command c)
                  (ap (λ t. t ++ bytes) g ∙ append_assoc c.buf more bytes),
          v',
        )
  ]

  pub on_readable-closed :
      (c : Connection S) (reads : List Read)
      → length c.buf ≤ max_buffered
      → bytes_of reads ≡ none
      → on_readable handle_command c reads ≡ (c, false)
  unfolding on_readable
  on_readable-closed c reads l h = elim (Option-cases (drain c.buf reads)) [
    | inl e ↦ rw (on_readable, e) refl
    | inr (buf, e) ↦ let (more, f, g, m) = drain-some c.buf reads buf l e in absurd (ground arith)
  ]
