-- ===== src/Prelude/Values.antt =====
-- `serde_json::Value` as the app reads it. A number that is no u64 keeps its text alone.
use Prim.Native.Nat.{ℕ}
use mathlib.Core.Bool.{Bool}
use mathlib.Core.Option.{Option, none, some}
use limux.Prelude.Tests.{if◌then◌else◌}
use limux.Prelude.Texts.{Text, same}

mutual
  pub data Json : Type 0 where
    null : Json
    boolean : Bool → Json
    natural : ℕ → Json
    number string : Text → Json
    array : Items → Json
    object : Fields → Json

  pub data Items : Type 0 where
    no_item : Items
    item : Json → Items → Items

  pub data Fields : Type 0 where
    no_field : Fields
    field : Text → Json → Fields → Fields

abbrev pub find_field : Text → Fields → Option Json
find_field key no_field = none
find_field key (field k v fs) = if same k key then some v else find_field key fs

-- `get`, `as_u64` and `as_str`.
abbrev pub get : Text → Json → Option Json
get key (object fields) = find_field key fields
get key v = none

abbrev pub as_u64 : Json → Option ℕ
as_u64 (natural n) = some n
as_u64 v = none

abbrev pub as_str : Json → Option Text
as_str (string t) = some t
as_str v = none

-- `and_then`.
abbrev pub chain {ℓ κ} : {A : Type ℓ} {B : Type κ} → Option A → (A → Option B) → Option B
chain none f = none
chain (some a) f = f a

abbrev pub get_u64 : Text → Json → Option ℕ
get_u64 key v = chain (get key v) as_u64

abbrev pub get_str : Text → Json → Option Text
get_str key v = chain (get key v) as_str

abbrev pub unwrap_or {ℓ} : {A : Type ℓ} → A → Option A → A
unwrap_or d none = d
unwrap_or d (some a) = a
