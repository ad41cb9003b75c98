-- ===== src/Remote/Controller.antt =====
-- app/src/remote/controller.rs: the registry of connection threads, and the loop of one of them. A
-- thread is known by a number, and its loop is cut where it waits; what it tells the window is a list
-- of effects.
use limux.Prelude.{
  ℕ, ◌+◌, ◌-◌, ◌*◌, ◌^◌, min, Option, none, some, Bool, true, false, List, [], ◌∷◌, ◌++◌,
  if◌then◌else◌, Map, lookup, insert, remove, Text, text, decimal,
}
use limux.Remote.Config.{RemoteConfiguration, display_target}

-- The registry, and the threads whose stop flag is set.
pub record Registry : Type 0 where
  pub running : Map ℕ
  pub stopped : List ℕ

unfoldable pub disconnect : ℕ → Registry → Registry
disconnect ws_id r = elim (lookup ws_id r.running) [
  | none ↦ r
  | some thread ↦ record r { running = remove ws_id r.running; stopped = thread ∷ r.stopped }
]

-- `connect`, with the number of the thread that is spawned.
unfoldable pub connect : ℕ → ℕ → Registry → Registry
unfolding disconnect
connect ws_id thread r0 =
    let r = disconnect ws_id r0 in record r { running = insert ws_id thread r.running }

unfoldable pub reconnect : ℕ → ℕ → Registry → Registry
unfolding disconnect connect
reconnect ws_id thread r = connect ws_id thread (disconnect ws_id r)

unfoldable pub is_active : ℕ → Registry → Bool
is_active ws_id r = elim (lookup ws_id r.running) [ none ↦ false | some thread ↦ true ]

pub data ConnectionState : Type 0 where
  connecting connected error : ConnectionState

-- What `push_state` and `push_proxy_state` tell the window, and the lease on a proxy.
pub data Effect : Type 0 where
  push_state : ConnectionState → (status detail : Option Text) → Effect
  acquire_lease drop_lease clear_proxy : Effect
  sleep : (secs : ℕ) → Effect

-- In whole seconds, which the delays are: `base * 2^(retry - 1)`, at most a minute.
unfoldable pub retry_delay : ℕ → ℕ → ℕ
retry_delay base retry = min (base * 2 ^ (retry - 1)) 60

-- Where the loop waits.
pub data Stage : Type 0 where
  -- for `run_full_connection`
  attempting : (retry_count : ℕ) → Stage
  -- for `monitor_tunnel`
  monitoring : Stage
  sleeping : (retry_count : ℕ) → Stage
  returned : Stage

-- What the wait ends with.
pub data Outcome : Type 0 where
  ready : Outcome
  failed : Text → Outcome
  tunnel_ended slept : Outcome

module _ (config : RemoteConfiguration) where
  -- The head of the loop, with the stop flag.
  unfoldable pub begin_attempt : Bool → ℕ → Stage × List Effect
  begin_attempt stop retry_count = if stop then (returned, []) else (
    attempting retry_count,
    push_state connecting (some (text "Connecting to " ++ (display_target config ++ text "...")))
          none
        ∷ [],
  )

  unfoldable pub on_ready : Stage × List Effect
  on_ready = (
    monitoring,
    push_state connected none (some (text "Connected to " ++ display_target config))
        ∷ acquire_lease
        ∷ [],
  )

  unfoldable pub on_failed : Bool → ℕ → Text → Stage × List Effect
  on_failed stop retry_count e = if stop then (returned, []) else (
    sleeping (retry_count + 1),
    push_state error (some e) (
          some (
            e
            ++ (text " (retry "
                ++ (decimal (retry_count + 1)
                    ++ (text " in " ++ (decimal (retry_delay 4 (retry_count + 1)) ++ text "s)"))))))
        ∷ sleep (retry_delay 4 (retry_count + 1))
        ∷ [],
  )

  -- The retries were set to zero when the connection came up.
  unfoldable pub on_tunnel_ended : Bool → Stage × List Effect
  on_tunnel_ended stop = if stop then (returned, drop_lease ∷ clear_proxy ∷ []) else (
    sleeping 1,
    drop_lease
        ∷ clear_proxy
        ∷ push_state connecting none (
            some (
              text "Relay tunnel lost, reconnecting in "
              ++ (decimal (retry_delay 2 1) ++ text "s...")))
        ∷ sleep (retry_delay 2 1)
        ∷ [],
  )

  -- One turn of the loop; an outcome that the stage does not wait for changes nothing.
  unfoldable pub turn : Bool → Stage → Outcome → Stage × List Effect
  turn stop (attempting retry_count) ready = on_ready
  turn stop (attempting retry_count) (failed e) = on_failed stop retry_count e
  turn stop monitoring tunnel_ended = on_tunnel_ended stop
  turn stop (sleeping retry_count) slept = begin_attempt stop retry_count
  turn stop stage outcome = (stage, [])
