-- ===== src/Settings/Merged.antt =====
-- The map of `merged_shortcuts` in app/src/settings.rs against `shortcut_accel`.
use Prim.Native.String.{String}
use limux.Prelude.{
  ◌≡◌, refl, ap, sym, ◌∙◌, inl, inr, Option, none, some, Bool, true, false, not, ◌&&◌, List, [],
  ◌∷◌, if◌then◌else◌, unwrap_or, Bool-cases, Option-cases, TextMap, lookup_text, insert_text,
  lookup-insert_text, same_text, same_text_iff, arith,
}
use limux.Settings.Shortcuts.{
  AppSettings, ShortcutDef, shortcut_defaults, find_default, default_shortcut, shortcut_accel,
  merge_shortcuts, merged_shortcuts,
}

defines : String → List ShortcutDef → Bool
defines action [] = false
defines action (d ∷ ds) = if same_text d.action action then true else defines action ds

-- No action is defined twice.
distinct : List ShortcutDef → Bool
unfolding defines
distinct [] = true
distinct (d ∷ ds) = not (defines d.action ds) && distinct ds

-- What the merged map holds for an action: the override, or the default.
chosen : TextMap String → String → List ShortcutDef → Option String → Option String
chosen overrides action ds before = elim (find_default action ds) [
  | none ↦ before
  | some accel ↦ some (unwrap_or accel (lookup_text action overrides))
]

find-defines :
    (action : String) (ds : List ShortcutDef)
    → defines action ds ≡ false
    → find_default action ds ≡ none
unfolding defines find_default
find-defines action [] h = refl
find-defines action (d ∷ ds) h = elim (Bool-cases (same_text d.action action)) [
  | inl e ↦ absurd (ground arith)
  | inr e ↦ rw (find_default, e) (find-defines action ds (ground arith))
]

lookup-merge :
    (overrides : TextMap String) (action : String) (ds : List ShortcutDef) (merged : TextMap String)
    → distinct ds ≡ true
    → lookup_text action (merge_shortcuts overrides ds merged)
      ≡ chosen overrides action ds (lookup_text action merged)
unfolding merge_shortcuts chosen find_default distinct
lookup-merge overrides action [] merged h = refl
lookup-merge overrides action (d ∷ ds) merged h =
    let rest =
      lookup-merge overrides action ds
        (insert_text d.action (unwrap_or d.default_accel (lookup_text d.action overrides)) merged)
        (ground arith) in
    let put =
      lookup-insert_text d.action action
        (unwrap_or d.default_accel (lookup_text d.action overrides)) merged in
    elim (Bool-cases (same_text d.action action)) [
      | inl e ↦
          let z = same_text_iff d.action action e in
          let gone : find_default action ds ≡ none =
            ap (λ a. find_default a ds) (sym z) ∙ find-defines d.action ds (ground arith) in
          ground (arith, rest, put, ap (λ a. lookup_text a overrides) z)
      | inr e ↦ ground (arith, rest, put)
    ]

distinct_defaults : distinct shortcut_defaults ≡ true
unfolding distinct shortcut_defaults
distinct_defaults = refl

-- For any preferences and any action, the merged map holds the accelerator that `shortcut_accel`
-- gives if the action is one of the defaults, and nothing otherwise.
pub merged_shortcuts-accel :
    (s : AppSettings) (action : String)
    → lookup_text action (merged_shortcuts s)
      ≡ elim (default_shortcut action) [ none ↦ none | some accel ↦ shortcut_accel s action ]
unfolding merged_shortcuts shortcut_accel default_shortcut chosen lookup_text
merged_shortcuts-accel s action =
    lookup-merge s.shortcuts action shortcut_defaults [] distinct_defaults
    ∙ elim (Option-cases (find_default action shortcut_defaults)) [
      | inl e ↦ rw (chosen, e) refl
      | inr (accel, e) ↦ ground arith
    ]
