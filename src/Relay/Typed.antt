-- ===== src/Relay/Typed.antt =====
-- A request to type text, from its JSON in app/src/remote/relay.rs to the command that
-- app/src/socket.rs carries out.
use limux.Prelude.{
  ℕ, ◌^◌, ◌-◌, ◌≤◌, ◌<◌, ◌≡◌, refl, ap, sym, ◌∙◌, inl, inr, Option, some, Bool, true, false, List,
  [], ◌∷◌, ◌++◌, append_assoc, append-nil, length, length-append, ltb, ◌==◌, if◌then◌else◌,
  Bool-cases, Text, text, trim, trim_end, is_empty, cut, contains, decimal, decimal-all_digits,
  decimal-is_solid, all_digits, parse_uint, parse_uint-decimal, trim-solid, as_bytes,
  as_bytes-ascii, starts_with, is_ascii, from_utf8_lossy-ascii, Json, string, object, field,
  no_field, arith,
}
use limux.Relay.Translate.{
  translate_request, translate_v2_to_v1, v2_method_to_v1, with_params, workspace_arg, surface_arg,
}
use limux.Socket.Lines.{
  chunk, on_readable, drain, process, split_lines, run_lines, max_buffered, written,
}
use limux.Socket.Chunks.{split_lines-begun}
use limux.Socket.Options.{plain, failure, response_text}
use limux.Socket.Actions
use limux.Socket.Commands
use limux.Socket.Dispatch.{
  handle_command, handle_line, workspace_command, metadata_command, management_command,
  terminal_command,
}

-- The request that types a text into a surface.
abbrev pub send_request : Json → ℕ → Text → Json
send_request id surface typed = object (
    field (text "id") id (
      field (text "method") (string (text "surface.send_text")) (
        field (text "params")
          (object (
            field (text "surface") (string (decimal surface))
              (field (text "text") (string typed) no_field)))
          no_field)))

abbrev pub send_command : ℕ → Text → Text
send_command surface typed = text "send " ++ (decimal surface ++ 32 ∷ typed)

translate-send :
    (cmd : Text) (id : Json) (surface : ℕ) (typed : Text)
    → translate_request cmd (send_request id surface typed) ≡ (send_command surface typed, some id)
unfolding translate_request v2_method_to_v1 with_params workspace_arg surface_arg
translate-send cmd id surface typed =
    ap (λ t. (t, some id)) (append_assoc (text "send ") (decimal surface) (32 ∷ typed))

space_not_in : (t : Text) → all_digits t ≡ true → contains 32 t ≡ false
space_not_in [] h = refl
space_not_in (c ∷ t) h = ground (arith, space_not_in t)

cut-append :
    (front back : Text)
    → contains 32 front ≡ false
    → cut (λ c. c == 32) (front ++ 32 ∷ back) ≡ (front, some back)
cut-append [] back h = refl
cut-append (c ∷ front) back h = elim (Bool-cases (c == 32)) [
  | inl e ↦ absurd (ground arith)
  | inr e ↦ rw (e, cut-append front back (ground arith)) refl
]

full : (s t : Text) → is_empty t ≡ false → is_empty (s ++ t) ≡ false
full [] t h = h
full (c ∷ s) t h = refl

trim_end-append : (s t : Text) → is_empty t ≡ false → trim_end t ≡ t → trim_end (s ++ t) ≡ s ++ t
trim_end-append [] t h e = e
trim_end-append (c ∷ s) t h e = rw (trim_end-append s t h e, full s t h) (ground arith)

parse_u32-decimal : (n : ℕ) → n ≤ 2 ^ 32 - 1 → Commands.parse_u32 (decimal n) ≡ some n
parse_u32-decimal n h =
    ap (parse_uint Commands.u32_max) (trim-solid (decimal n) (decimal-is_solid n))
    ∙ parse_uint-decimal Commands.u32_max n h

-- `send` with the number of a surface and a text.
handle_command-send :
    {S F : Type 0} (app : Actions.App S F) (surface : ℕ) (typed : Text) (s : S)
    → surface ≤ 2 ^ 32 - 1
    → handle_command app (send_command surface typed) s
      ≡ Commands.tries app (Actions.send_text surface typed) (text "surface not found") s
unfolding handle_command workspace_command metadata_command management_command terminal_command
handle_command-send app surface typed s h =
    ap
      (λ parts.
        Commands.two_parts app (text "send <surface_id> <text>")
          (λ id typed'.
            Commands.with_u32 app (text "surface id") id
              λ sid. Commands.tries app (Actions.send_text sid typed') (text "surface not found"))
          parts s)
      (cut-append (decimal surface) typed
        (space_not_in (decimal surface) (decimal-all_digits surface)))
    ∙ ap
        (λ n.
          Commands.valid_u32 app (text "surface id")
            (λ sid. Commands.tries app (Actions.send_text sid typed) (text "surface not found")) n
            s)
        (parse_u32-decimal surface h)

-- A command that is whole in the first callback is carried out and answered.
on_readable-line :
    {S : Type 0} (handle : S → Text → S × Text) (s : S) (line : List ℕ)
    → is_ascii line ≡ true
    → contains 10 line ≡ false
    → length line < max_buffered
    → on_readable handle (record { app = s; buf = []; out = [] }) (chunk (line ++ 10 ∷ []) ∷ []) ≡ (
      record { app = (handle s (trim line)).0; buf = []; out = written (handle s (trim line)).1 },
      true,
    )
unfolding on_readable drain process run_lines split_lines
on_readable-line handle s line ascii one small =
    let fits : ltb max_buffered (length (line ++ 10 ∷ [])) ≡ false =
      ground (arith, length-append line (10 ∷ [])) in
    rw
      (
        on_readable,
        drain,
        fits,
        process,
        split_lines-begun [] line (10 ∷ []) one,
        from_utf8_lossy-ascii line ascii,
        append-nil (written (handle s (trim line)).1),
      )
      refl

-- A text that stays as it is on its way: ASCII, in one line, not empty, and with no white space at
-- its end.
pub record IsTypable (typed : Text) : Type 0 where
  pub ascii : is_ascii typed ≡ true
  pub single : contains 10 typed ≡ false
  pub some_text : is_empty typed ≡ false
  pub no_tail : trim_end typed ≡ typed

trim-send_command :
    (surface : ℕ) (typed : Text)
    → IsTypable typed
    → trim (send_command surface typed) ≡ send_command surface typed
trim-send_command surface typed t =
    let front = text "send " ++ (decimal surface ++ 32 ∷ []) in
    let shift : front ++ typed ≡ send_command surface typed = simp (append_assoc) in
    ap trim_end (sym shift) ∙ trim_end-append front typed t.some_text t.no_tail ∙ shift

ascii-append : (s t : Text) → is_ascii s ≡ true → is_ascii t ≡ true → is_ascii (s ++ t) ≡ true
ascii-append [] t h k = k
ascii-append (c ∷ s) t h k = ground (arith, ascii-append s t)

digits-ascii : (t : Text) → all_digits t ≡ true → (is_ascii t ≡ true) × (contains 10 t ≡ false)
digits-ascii [] h = (refl, refl)
digits-ascii (c ∷ t) h = ground (arith, digits-ascii t)

one_line-append :
    (s t : Text) → contains 10 s ≡ false → contains 10 t ≡ false → contains 10 (s ++ t) ≡ false
one_line-append [] t h k = k
one_line-append (c ∷ s) t h k = ground (arith, one_line-append s t)

-- What the app's answer looks like on the socket.
abbrev pub typed_response : Bool → Text
typed_response done =
    written (response_text (if done then plain else failure (text "surface not found")))

module _ {S F : Type 0} (app : Actions.App S F) where
  -- For an app with any state, a surface number that is a u32, and a typed text that is ASCII, one
  -- line, not empty and without white space at its end, a JSON request of the method
  -- `surface.send_text` for them is translated to a command that the socket's first callback, if
  -- the command and its newline are what it reads and shorter than the buffer's limit, carries out
  -- as one `send_text` of that text to that surface, and answers by whether the app found the
  -- surface; nothing stays in the buffer.
  pub on_readable-send :
      (parse : Text → Option Json) (cmd : Text) (id : Json) (surface : ℕ) (typed : Text) (s : S)
      → starts_with (text "{") cmd ≡ true
      → parse cmd ≡ some (send_request id surface typed)
      → surface ≤ 2 ^ 32 - 1
      → IsTypable typed
      → length (send_command surface typed) < max_buffered
      → on_readable
          (handle_line app)
          (record { app = s; buf = []; out = [] })
          (chunk (as_bytes (translate_v2_to_v1 parse cmd).0 ++ 10 ∷ []) ∷ [])
        ≡ (
          record {
            app = (app.try (Actions.send_text surface typed) s).0;
            buf = [];
            out = typed_response (app.try (Actions.send_text surface typed) s).1;
          },
          true,
        )
  unfolding handle_line translate_v2_to_v1
  on_readable-send parse cmd id surface typed s brace parsed small t fits =
      let line = send_command surface typed in
      let digits = decimal-all_digits surface in
      let (da, dn) = digits-ascii (decimal surface) digits in
      let ascii : is_ascii line ≡ true = ascii-append (decimal surface) (32 ∷ typed) da t.ascii in
      let single : contains 10 line ≡ false =
        one_line-append (decimal surface) (32 ∷ typed) dn t.single in
      let to_line : (translate_v2_to_v1 parse cmd).0 ≡ line =
        rw (translate_v2_to_v1, brace, parsed)
          (ap (λ r. r.0) (translate-send cmd id surface typed)) in
      ap
        (λ bs.
          on_readable (handle_line app) (record { app = s; buf = []; out = [] })
            (chunk (bs ++ 10 ∷ []) ∷ []))
        (ap as_bytes to_line ∙ as_bytes-ascii line ascii)
      ∙ on_readable-line (handle_line app) s line ascii single fits
      ∙ ap
          (λ c. (
            record {
              app = (handle_line app s c).0;
              buf = [];
              out = written (handle_line app s c).1;
            },
            true,
          ))
          (trim-send_command surface typed t)
      ∙ ap (λ r. (record { app = r.0; buf = []; out = written (response_text r.1) }, true))
          (handle_command-send app surface typed s small)
