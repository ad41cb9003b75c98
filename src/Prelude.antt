-- ===== src/Prelude.antt =====
-- Names that every module shares: those of the libraries, passed on, and the children's tests,
-- list functions and finite maps over the native numbers.
mod Tests
mod Lists
mod Maps
mod Cyclic
mod TextMaps
mod Texts
mod Digits
mod Matches
mod Finding
mod Utf8
mod Values
unfoldable pub use Tests.*
pub use Lists.*
pub use Cyclic.*
unfoldable pub use Maps.*
unfoldable pub use TextMaps.*
unfoldable pub use Texts.*
pub use Digits.*
pub use Matches.*
unfoldable pub use Utf8.*
pub use Values.*
pub use Finding.*
pub use Prim.Native.Nat.{ℕ, zero, suc, ◌+◌, ◌-◌, ◌*◌, ◌/◌, ◌%◌, ◌^◌, ◌≤◌, ◌<◌, max, min}
pub use mathlib.Core.Path.{◌≡◌, refl, sym, ap, ap₂, subst, ◌∙◌}
pub use mathlib.Core.Logic.{◌≢◌, ◌↔◌, ◌⊎◌, inl, inr}
pub use mathlib.Core.Bool.{Bool, true, false, not, ◌&&◌, ◌||◌}
pub use mathlib.Core.Option.{Option, none, some}
pub use mathlib.Core.List.{List, [], ◌∷◌, ◌++◌, map, append-nil, append_assoc}
pub use native.Mathlib.Omega.{arith}
unfoldable pub use native.Mathlib.Decide.{dec_lt, dec_le, ℕ_discrete}
