-- ===== src/Limits/Notify.antt =====
-- The rate limits of app/src/notify.rs. The thread-local cells are the state; an instant is a number of
-- nanoseconds, and the result says whether a notification is sent.
use limux.Prelude.{
  ℕ, ◌-◌, ◌*◌, ◌/◌, Bool, true, false, not, none, some, List, [], ◌∷◌, ◌++◌, Map, lookup, insert,
  if◌then◌else◌, length, filter, ltb, leb,
}

abbrev pub WorkspaceId : Type 0
WorkspaceId = ℕ

abbrev pub nanos : ℕ → ℕ
nanos secs = secs * 1000000000

pub record Notify : Type 0 where
  pub enabled : Bool
  pub window_active : Bool
  pub last_notify : Map ℕ
  pub recent : List ℕ

abbrev pub per_workspace_cooldown_secs : ℕ
per_workspace_cooldown_secs = 5

abbrev pub global_max_burst : ℕ
global_max_burst = 3

abbrev pub global_burst_window_secs : ℕ
global_burst_window_secs = 10

unfoldable pub set_window_active : Notify → Bool → Notify
set_window_active s active = record s { window_active = active }

unfoldable pub enable : Notify → Notify
enable s = record s { enabled = true }

unfoldable pub disable : Notify → Notify
disable s = record s { enabled = false }

-- Whether the workspace was notified of less than the cooldown ago, in whole seconds.
abbrev pub throttled : Notify → WorkspaceId → ℕ → Bool
throttled s workspace_id now = elim (lookup workspace_id s.last_notify) [
  | some last ↦ ltb ((now - last) / nanos 1) per_workspace_cooldown_secs
  | none ↦ false
]

-- `retain(|t| *t > cutoff)`; the clock is assumed to be past the first ten seconds.
abbrev pub retain_recent : ℕ → List ℕ → List ℕ
retain_recent now ts = filter (λ t. ltb (now - nanos global_burst_window_secs) t) ts

-- `send_bell_notification`, which trims the recent instants also when it then sends nothing.
unfoldable pub send_bell_notification : Notify → WorkspaceId → ℕ → Notify × Bool
send_bell_notification s workspace_id now =
    if not s.enabled
    then (s, false)
    else if s.window_active
    then (s, false)
    else if throttled s workspace_id now
    then (s, false)
    else let kept = retain_recent now s.recent in
      if leb global_max_burst (length kept) then (record s { recent = kept }, false) else (
        record s { last_notify = insert workspace_id now s.last_notify; recent = kept ++ now ∷ [] },
        true,
      )
