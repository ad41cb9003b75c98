-- ===== src/Workspace/Payload.antt =====
-- The payload of a dragged tab in app/src/window.rs, written and read back.
use limux.Prelude.{
  ℕ, ◌≤◌, ◌≡◌, ◌∙◌, ap, ap₂, refl, arith, false, Option, none, some, List, [], ◌∷◌, ◌++◌,
  if◌then◌else◌, Text, text, same, strip_prefix, split_on, parse_uint, decimal, contains,
  decimal-all_digits, contains-digits, split_on-one, split_on-append, parse_uint-decimal,
}
use limux.Workspace.Pane.{PanelKind}
use limux.Workspace.Drag.{TabDragIdentity, surface, browser, panel_drag_identity}

abbrev pub u32_bound : ℕ
u32_bound = 4294967295

abbrev payload_of : ℕ → Text → ℕ → Text
payload_of pane_id kind panel_id =
    text "pane:" ++ (decimal pane_id ++ 58 ∷ (kind ++ 58 ∷ decimal panel_id))

unfoldable pub tab_drag_payload : ℕ → PanelKind → Text
tab_drag_payload pane_id panel = elim (panel_drag_identity panel) [
  | surface surface_id ↦ payload_of pane_id (text "surface") surface_id
  | browser browser_id ↦ payload_of pane_id (text "browser") browser_id
]

abbrev pub read_identity : Text → ℕ → Option TabDragIdentity
read_identity panel_kind panel_id =
    if same panel_kind (text "surface")
    then some (surface panel_id)
    else if same panel_kind (text "browser")
    then some (browser panel_id)
    else none

-- The parsed fields, each `?` of the code in its turn.
abbrev pub assemble : Option ℕ → Text → Option ℕ → Option (ℕ × TabDragIdentity)
assemble none panel_kind panel = none
assemble (some pane_id) panel_kind none = none
assemble (some pane_id) panel_kind (some panel_id) = elim (read_identity panel_kind panel_id) [
  | none ↦ none
  | some identity ↦ some (pane_id, identity)
]

-- The three fields behind the prefix.
abbrev pub read_fields : List Text → Option (ℕ × TabDragIdentity)
read_fields (pane ∷ panel_kind ∷ panel ∷ []) =
    assemble (parse_uint u32_bound pane) panel_kind (parse_uint u32_bound panel)
read_fields fields = none

unfoldable pub parse_tab_drag_payload : Text → Option (ℕ × TabDragIdentity)
parse_tab_drag_payload payload = elim (strip_prefix (text "pane:") payload) [
  | none ↦ none
  | some rest ↦ read_fields (split_on 58 rest)
]

split-payload :
    (pane_id panel_id : ℕ) (kind : Text)
    → contains 58 kind ≡ false
    → split_on 58 (decimal pane_id ++ 58 ∷ (kind ++ 58 ∷ decimal panel_id))
      ≡ decimal pane_id ∷ kind ∷ decimal panel_id ∷ []
split-payload pane_id panel_id kind h =
    let no_colon = λ (n : ℕ). contains-digits 58 (decimal n) (omega arith) (decimal-all_digits n) in
    split_on-append 58 (decimal pane_id) (kind ++ 58 ∷ decimal panel_id) (no_colon pane_id)
    ∙ ap (λ l. decimal pane_id ∷ l)
        (split_on-append 58 kind (decimal panel_id) h
          ∙ ap (λ l. kind ∷ l) (split_on-one 58 (decimal panel_id) (no_colon panel_id)))

read-payload :
    (pane_id panel_id : ℕ) (kind : Text) (identity : TabDragIdentity)
    → pane_id ≤ u32_bound
    → panel_id ≤ u32_bound
    → read_identity kind panel_id ≡ some identity
    → read_fields (decimal pane_id ∷ kind ∷ decimal panel_id ∷ []) ≡ some (pane_id, identity)
read-payload pane_id panel_id kind identity h k e =
    ap₂ (λ a b. assemble a kind b) (parse_uint-decimal u32_bound pane_id h)
      (parse_uint-decimal u32_bound panel_id k)
    ∙ ap
        (λ (r : Option TabDragIdentity). elim r as (λ x. Option (ℕ × TabDragIdentity)) [
          | none ↦ none
          | some found ↦ some (pane_id, found)
        ])
        e

-- The number of a panel.
abbrev pub panel_number : PanelKind → ℕ
panel_number (PanelKind.terminal s) = s
panel_number (PanelKind.browser b url) = b

-- For a pane and a panel whose numbers are u32s, the payload of the panel's drag is parsed back to
-- that pane and the identity of that panel.
pub parse_tab_drag_payload-tab_drag_payload :
    (pane_id : ℕ) (panel : PanelKind)
    → pane_id ≤ u32_bound
    → panel_number panel ≤ u32_bound
    → parse_tab_drag_payload (tab_drag_payload pane_id panel)
      ≡ some (pane_id, panel_drag_identity panel)
unfolding parse_tab_drag_payload tab_drag_payload
parse_tab_drag_payload-tab_drag_payload pane_id (PanelKind.terminal s) h k =
    ap read_fields (split-payload pane_id s (text "surface") refl)
    ∙ read-payload pane_id s (text "surface") (surface s) h k refl
parse_tab_drag_payload-tab_drag_payload pane_id (PanelKind.browser b url) h k =
    ap read_fields (split-payload pane_id b (text "browser") refl)
    ∙ read-payload pane_id b (text "browser") (browser b) h k refl
