-- ===== src/Workspace/Colors.antt =====
-- The accent colours and log levels of app/src/workspace.rs, with their names.
use limux.Prelude.{
  ◌≡◌, refl, Bool, ◌||◌, Option, none, some, List, [], ◌∷◌, if◌then◌else◌, Text, text, same,
  to_lowercase,
}

pub data WorkspaceColor : Type 0 where
  red orange yellow green blue purple pink gray : WorkspaceColor

abbrev pub all_colors : List WorkspaceColor
all_colors = red ∷ orange ∷ yellow ∷ green ∷ blue ∷ purple ∷ pink ∷ gray ∷ []

unfoldable pub css_class : WorkspaceColor → Text
css_class red = text "ws-color-red"
css_class orange = text "ws-color-orange"
css_class yellow = text "ws-color-yellow"
css_class green = text "ws-color-green"
css_class blue = text "ws-color-blue"
css_class purple = text "ws-color-purple"
css_class pink = text "ws-color-pink"
css_class gray = text "ws-color-gray"

unfoldable pub hex : WorkspaceColor → Bool → Text
hex red dark = if dark then text "#ff6b6b" else text "#e74c3c"
hex orange dark = if dark then text "#ffa94d" else text "#e67e22"
hex yellow dark = if dark then text "#ffd43b" else text "#f1c40f"
hex green dark = if dark then text "#69db7c" else text "#2ecc71"
hex blue dark = if dark then text "#74c0fc" else text "#3498db"
hex purple dark = if dark then text "#cc8ef5" else text "#9b59b6"
hex pink dark = if dark then text "#f783ac" else text "#e91e8a"
hex gray dark = if dark then text "#adb5bd" else text "#95a5a6"

unfoldable pub bell_hex : Bool → Text
bell_hex dark = if dark then text "#ff6b6b" else text "#e74c3c"

-- `Display`.
unfoldable pub to_string : WorkspaceColor → Text
to_string red = text "red"
to_string orange = text "orange"
to_string yellow = text "yellow"
to_string green = text "green"
to_string blue = text "blue"
to_string purple = text "purple"
to_string pink = text "pink"
to_string gray = text "gray"

abbrev pub named : Text → Option WorkspaceColor
named name =
    if same name (text "red")
    then some red
    else if same name (text "orange")
    then some orange
    else if same name (text "yellow")
    then some yellow
    else if same name (text "green")
    then some green
    else if same name (text "blue")
    then some blue
    else if same name (text "purple")
    then some purple
    else if same name (text "pink")
    then some pink
    else if same name (text "gray") || same name (text "grey")
    then some gray
    else none

unfoldable pub from_name : Text → Option WorkspaceColor
from_name name = named (to_lowercase name)

pub data LogLevel : Type 0 where
  info progress success warning error : LogLevel

unfoldable pub from_str : Text → LogLevel
from_str s =
    if same s (text "progress")
    then progress
    else if same s (text "success")
    then success
    else if same s (text "warning") || same s (text "warn")
    then warning
    else if same s (text "error")
    then error
    else info

unfoldable pub as_str : LogLevel → Text
as_str info = text "info"
as_str progress = text "progress"
as_str success = text "success"
as_str warning = text "warning"
as_str error = text "error"

-- The displayed name of every colour is parsed back to that colour.
pub from_name-to_string : (c : WorkspaceColor) → from_name (to_string c) ≡ some c
unfolding from_name to_string
from_name-to_string red = refl
from_name-to_string orange = refl
from_name-to_string yellow = refl
from_name-to_string green = refl
from_name-to_string blue = refl
from_name-to_string purple = refl
from_name-to_string pink = refl
from_name-to_string gray = refl

-- The name of every log level is parsed back to that level.
pub from_str-as_str : (l : LogLevel) → from_str (as_str l) ≡ l
unfolding from_str as_str
from_str-as_str info = refl
from_str-as_str progress = refl
from_str-as_str success = refl
from_str-as_str warning = refl
from_str-as_str error = refl
