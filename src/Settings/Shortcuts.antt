-- ===== src/Settings/Shortcuts.antt =====
-- app/src/settings.rs without its file: the preferences with their defaults, and the shortcuts. A
-- width and a time are taken as not negative.
use Prim.Native.String.{String}
use limux.Prelude.{
  ℕ, Option, none, some, Bool, true, false, List, [], ◌∷◌, if◌then◌else◌, unwrap_or, TextMap,
  lookup_text, insert_text, same_text,
}

pub record GeneralSettings : Type 0 where
  pub default_shell : Option String
  pub working_directory : Option String
  pub session_restore : Option Bool
  pub notifications_enabled : Option Bool
  pub hide_integrate_prompt : Option Bool
  pub desktop_integrated : Option Bool
  pub check_for_updates : Option Bool
  pub update_check_frequency : Option String
  pub skip_update_version : Option String
  pub last_update_check : Option ℕ

pub record SidebarSettings : Type 0 where
  pub width : Option ℕ
  pub visible : Option Bool

pub record AppSettings : Type 0 where
  pub version : ℕ
  pub general : GeneralSettings
  pub sidebar : SidebarSettings
  pub shortcuts : TextMap String

unfoldable pub default_settings : AppSettings
default_settings = record {
  version = 1;
  general = record {
    default_shell = none;
    working_directory = none;
    session_restore = none;
    notifications_enabled = none;
    hide_integrate_prompt = none;
    desktop_integrated = none;
    check_for_updates = none;
    update_check_frequency = none;
    skip_update_version = none;
    last_update_check = none;
  };
  sidebar = record { width = none; visible = none };
  shortcuts = [];
}

unfoldable pub session_restore : AppSettings → Bool
session_restore s = unwrap_or true s.general.session_restore

unfoldable pub notifications_enabled : AppSettings → Bool
notifications_enabled s = unwrap_or true s.general.notifications_enabled

unfoldable pub hide_integrate_prompt : AppSettings → Bool
hide_integrate_prompt s = unwrap_or false s.general.hide_integrate_prompt

unfoldable pub desktop_integrated : AppSettings → Bool
desktop_integrated s = unwrap_or false s.general.desktop_integrated

unfoldable pub check_for_updates : AppSettings → Bool
check_for_updates s = unwrap_or true s.general.check_for_updates

unfoldable pub update_check_frequency : AppSettings → String
update_check_frequency s = unwrap_or "daily" s.general.update_check_frequency

unfoldable pub last_update_check : AppSettings → Option ℕ
last_update_check s = s.general.last_update_check

unfoldable pub skip_update_version : AppSettings → Option String
skip_update_version s = s.general.skip_update_version

unfoldable pub sidebar_width : AppSettings → ℕ
sidebar_width s = unwrap_or 180 s.sidebar.width

unfoldable pub sidebar_visible : AppSettings → Bool
sidebar_visible s = unwrap_or true s.sidebar.visible

-- An action with its default accelerator and its label.
pub record ShortcutDef : Type 0 where
  pub action : String
  pub default_accel : String
  pub label : String

abbrev pub def : String → String → String → ShortcutDef
def action accel label = record { action = action; default_accel = accel; label = label }

-- `SHORTCUT_DEFAULTS`.
unfoldable pub shortcut_defaults : List ShortcutDef
shortcut_defaults =
    def "new-workspace" "<Ctrl><Shift>t" "New Workspace"
    ∷ def "close-workspace" "<Ctrl><Shift>w" "Close Workspace"
    ∷ def "next-workspace" "<Ctrl>Page_Down" "Next Workspace"
    ∷ def "prev-workspace" "<Ctrl>Page_Up" "Previous Workspace"
    ∷ def "split-right" "<Ctrl><Shift>Return" "Split Right"
    ∷ def "split-down" "<Ctrl><Shift>e" "Split Down"
    ∷ def "next-split" "<Ctrl><Shift>bracketright" "Next Split"
    ∷ def "prev-split" "<Ctrl><Shift>bracketleft" "Previous Split"
    ∷ def "equalize-splits" "<Ctrl><Shift>plus" "Equalize Splits"
    ∷ def "split-left" "<Alt>Left" "Navigate Left"
    ∷ def "split-right-nav" "<Alt>Right" "Navigate Right"
    ∷ def "split-up" "<Alt>Up" "Navigate Up"
    ∷ def "split-down-nav" "<Alt>Down" "Navigate Down"
    ∷ def "new-pane-tab" "<Ctrl>t" "New Tab in Pane"
    ∷ def "close-pane-tab" "<Ctrl>w" "Close Tab in Pane"
    ∷ def "next-pane-tab" "<Ctrl>Tab" "Next Tab in Pane"
    ∷ def "prev-pane-tab" "<Ctrl><Shift>Tab" "Previous Tab in Pane"
    ∷ def "toggle-sidebar" "<Ctrl><Shift>backslash" "Toggle Sidebar"
    ∷ def "open-browser" "<Ctrl><Shift>b" "Open Browser"
    ∷ def "focus-address-bar" "<Ctrl>l" "Focus Address Bar"
    ∷ def "browser-find" "<Ctrl>f" "Browser Find"
    ∷ def "open-settings" "<Ctrl>comma" "Open Settings"
    ∷ []

-- `find` of an action.
unfoldable pub find_default : String → List ShortcutDef → Option String
find_default action [] = none
find_default action (d ∷ ds) =
    if same_text d.action action then some d.default_accel else find_default action ds

unfoldable pub default_shortcut : String → Option String
default_shortcut action = find_default action shortcut_defaults

unfoldable pub shortcut_accel : AppSettings → String → Option String
shortcut_accel s action = elim (lookup_text action s.shortcuts) [
  | some accel ↦ some accel
  | none ↦ default_shortcut action
]

-- The loop of `merged_shortcuts`.
unfoldable pub merge_shortcuts : TextMap String → List ShortcutDef → TextMap String → TextMap String
merge_shortcuts overrides [] merged = merged
merge_shortcuts overrides (d ∷ ds) merged =
    merge_shortcuts overrides ds
      (insert_text d.action (unwrap_or d.default_accel (lookup_text d.action overrides)) merged)

unfoldable pub merged_shortcuts : AppSettings → TextMap String
merged_shortcuts s = merge_shortcuts s.shortcuts shortcut_defaults []
