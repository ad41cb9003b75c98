-- ===== src/Remote/Transport.antt =====
-- `transport_key` of app/src/remote/config.rs, the key by which workspaces share a proxy tunnel.
use limux.Prelude.{
  ℕ, Bool, true, false, Option, none, some, List, [], ◌∷◌, ◌++◌, ◌==◌, if◌then◌else◌, Text, text,
  decimal, join, map, ltb,
}
use mathlib.Core.List.{foldr}
use limux.Remote.Config.{RemoteConfiguration}

-- The order of strings, byte by byte.
unfoldable pub text_le : Text → Text → Bool
text_le [] ys = true
text_le (x ∷ xs) [] = false
text_le (x ∷ xs) (y ∷ ys) =
    let rest = text_le xs ys in if ltb x y then true else if x == y then rest else false

unfoldable pub insert_option : Text → List Text → List Text
insert_option o [] = o ∷ []
insert_option o (p ∷ ps) =
    let rest = insert_option o ps in if text_le o p then o ∷ p ∷ ps else p ∷ rest

-- `opts.sort()`: options that are equal in this order are the same text, so every sort gives this
-- list.
unfoldable pub sort : List Text → List Text
sort os = foldr insert_option [] os

abbrev pub optional_part : Option Text → List Text
optional_part none = []
optional_part (some t) = t ∷ []

abbrev pub port_part : Option ℕ → Option Text
port_part none = none
port_part (some p) = some (text "port=" ++ decimal p)

abbrev pub identity_part : Option Text → Option Text
identity_part none = none
identity_part (some id) = some (text "id=" ++ id)

unfoldable pub key_parts : RemoteConfiguration → List Text
key_parts c =
    (text "dest=" ++ c.destination)
    ∷ (optional_part (port_part c.port)
        ++ (optional_part (identity_part c.identity_file)
            ++ map (λ opt. text "opt=" ++ opt) (sort c.ssh_options)))

unfoldable pub transport_key : RemoteConfiguration → Text
transport_key c = join (text "|") (key_parts c)
