-- ===== src/Settings/Tests.antt =====
-- The theorem on shortcuts of app/src/settings.rs at a concrete override.
use limux.Prelude.{◌≡◌, none, some, [], ◌∷◌, lookup_text}
use limux.Settings.Shortcuts.{
  AppSettings, default_settings, default_shortcut, shortcut_accel, merged_shortcuts,
}
use limux.Settings.Merged.{merged_shortcuts-accel}

abbrev custom : AppSettings
custom = record default_settings { shortcuts = ("new-workspace", "<Ctrl>n") ∷ [] }

merged_shortcuts-accel_example :
    lookup_text "new-workspace" (merged_shortcuts custom)
    ≡ elim (default_shortcut "new-workspace") [
      | none ↦ none
      | some accel ↦ shortcut_accel custom "new-workspace"
    ]
merged_shortcuts-accel_example = merged_shortcuts-accel custom "new-workspace"
