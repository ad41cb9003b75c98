-- ===== src/Socket/Options.antt =====
-- `parse_opts` of app/src/socket.rs, and the shapes of its responses.
use limux.Prelude.{
  Option, none, some, List, [], ◌∷◌, ◌++◌, length, ◌==◌, Text, text, cut, same, strip_prefix,
  split_whitespace, decimal, as_bytes, if◌then◌else◌,
}

pub record ParsedOpts : Type 0 where
  pub positional : List Text
  -- the newest value of a key in front
  pub opts : List (Text × Text)

abbrev pub find_opt : Text → List (Text × Text) → Option Text
find_opt key [] = none
find_opt key ((k, v) ∷ opts) = if same k key then some v else find_opt key opts

-- `split_once('=')` of an option, put into the map.
abbrev pub add_opt : Text × Option Text → List (Text × Text) → List (Text × Text)
add_opt (k, none) opts = opts
add_opt (k, some v) opts = (k, v) ∷ opts

unfoldable pub parse_parts : List Text → ParsedOpts → ParsedOpts
parse_parts [] parsed = parsed
parse_parts (part ∷ parts) parsed = parse_parts parts (elim (strip_prefix (text "--") part) [
  | some kv ↦ record parsed { opts = add_opt (cut (λ c. c == 61) kv) parsed.opts }
  | none ↦ record parsed { positional = parsed.positional ++ part ∷ [] }
])

unfoldable pub parse_opts : Text → ParsedOpts
parse_opts args = parse_parts (split_whitespace args) (record { positional = []; opts = [] })

-- What `handle_command` answers with.
pub data Response : Type 0 where
  plain : Response
  value : Text → Response
  lines : Text → Response
  failure : Text → Response

abbrev pub response_text : Response → Text
response_text plain = text "OK"
response_text (value t) = text "OK " ++ t
response_text (lines t) = text "OK+" ++ (decimal (length (as_bytes t)) ++ 10 ∷ t)
response_text (failure e) = text "ERROR: " ++ e
