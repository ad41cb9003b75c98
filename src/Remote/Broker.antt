-- ===== src/Remote/Broker.antt =====
-- app/src/remote/proxy_broker.rs. The map behind the mutex is passed explicitly, and what a call does
-- to the world outside is the list of effects it returns, in order.
use Prim.Native.String.{String}
use limux.Prelude.{
  ℕ, ◌+◌, ◌-◌, ◌*◌, ◌^◌, min, Option, none, some, List, [], ◌∷◌, ◌++◌, map, ◌==◌, if◌then◌else◌,
  TextMap, lookup_text, insert_text, remove_text,
}

pub record ProxyEndpoint : Type 0 where
  pub host : String
  pub port : ℕ

pub data ProxyState : Type 0 where
  connecting : ProxyState
  ready : ProxyEndpoint → ProxyState
  error : String → ProxyState

-- A callback, a tunnel, an RPC client and a task are known by numbers.
abbrev pub Callback : Type 0
Callback = ℕ

pub record BrokerEntry : Type 0 where
  pub subscriber_count : ℕ
  pub tunnel : Option ℕ
  pub rpc : Option ℕ
  pub endpoint : Option ProxyEndpoint
  pub callbacks : List Callback
  pub task : Option ℕ

abbrev pub Entries : Type 0
Entries = TextMap BrokerEntry

pub data Effect : Type 0 where
  notify : Callback → ProxyState → Effect
  spawn abort : ℕ → Effect
  shutdown_tunnel shutdown_rpc : ℕ → Effect
  sleep : (secs : ℕ) → Effect

-- `acquire`, with the key of the configuration and the handle that a spawned task would get.
unfoldable pub acquire : Entries → String → Callback → ℕ → Entries × List Effect
acquire entries key callback handle = elim (lookup_text key entries) [
  | some e ↦ (
    insert_text key
        (record e {
          subscriber_count = e.subscriber_count + 1;
          callbacks = e.callbacks ++ callback ∷ [];
        })
        entries,
    elim e.endpoint [ some ep ↦ notify callback (ready ep) | none ↦ notify callback connecting ]
        ∷ [],
  )
  | none ↦ (
    insert_text key
        (record {
          subscriber_count = 1;
          tunnel = none;
          rpc = none;
          endpoint = none;
          callbacks = callback ∷ [];
          task = some handle;
        })
        entries,
    notify callback connecting ∷ spawn handle ∷ [],
  )
]

-- `Vec::pop`, without the popped element.
abbrev pub pop : List Callback → List Callback
pop [] = []
pop (c ∷ []) = []
pop (c ∷ d ∷ cs) = c ∷ pop (d ∷ cs)

abbrev pub on_some : Option ℕ → (ℕ → Effect) → List Effect
on_some none f = []
on_some (some n) f = f n ∷ []

-- `release`, which dropping a lease calls.
unfoldable pub release : Entries → String → Entries × List Effect
release entries key = elim (lookup_text key entries) [
  | none ↦ (entries, [])
  | some e ↦
      let left = e.subscriber_count - 1 in
      if left == 0
      then (
        remove_text key entries,
        on_some e.task abort ++ on_some e.tunnel shutdown_tunnel ++ on_some e.rpc shutdown_rpc,
      )
      else (
        insert_text key (record e { subscriber_count = left; callbacks = pop e.callbacks }) entries,
        [],
      )
]

-- The seconds before the next attempt: `base_delay * 2^(retry_count - 1)`, at most `max_delay`.
abbrev pub delay : ℕ → ℕ
delay retry_count = min (3 * 2 ^ (retry_count - 1)) 60

-- Where a tunnel task waits.
pub data Phase : Type 0 where
  -- for `start_tunnel`
  attempting : (retry_count : ℕ) → Phase
  -- for ten seconds, before the next ping
  polling : (rpc retry_count : ℕ) → Phase
  -- for the answer to a ping
  pinging : (rpc retry_count : ℕ) → Phase
  -- after a failed attempt
  sleeping : (retry_count : ℕ) → Phase
  stopped : Phase

-- What the wait ends with.
pub data Answer : Type 0 where
  up : (rpc tunnel : ℕ) → ProxyEndpoint → Answer
  down : String → Answer
  slept ping_ok ping_failed : Answer

abbrev pub tell : ProxyState → List Callback → List Effect
tell s cs = map (λ c. notify c s) cs

-- `Ok` of `start_tunnel`.
unfoldable pub on_up : Entries → String → ℕ → ℕ → ProxyEndpoint → Entries × Phase × List Effect
on_up entries key rpc tunnel ep = elim (lookup_text key entries) [
  | none ↦ (entries, stopped, shutdown_rpc rpc ∷ [])
  | some e ↦ (
    insert_text key (record e { tunnel = some tunnel; rpc = some rpc; endpoint = some ep }) entries,
    polling rpc 0,
    tell (ready ep) e.callbacks,
  )
]

-- `Err` of `start_tunnel`, up to the sleep.
unfoldable pub on_down : Entries → String → String → ℕ → Entries × Phase × List Effect
on_down entries key e retry_count = elim (lookup_text key entries) [
  | none ↦ (entries, stopped, [])
  | some entry ↦ (
    entries,
    sleeping (retry_count + 1),
    tell (error e) entry.callbacks ++ sleep (delay (retry_count + 1)) ∷ [],
  )
]

-- The `contains_key` test before a ping.
unfoldable pub on_poll : Entries → String → ℕ → ℕ → Entries × Phase × List Effect
on_poll entries key rpc retry_count = elim (lookup_text key entries) [
  | none ↦ (entries, stopped, shutdown_rpc rpc ∷ [])
  | some e ↦ (entries, pinging rpc retry_count, [])
]

-- The clean-up after a ping that failed.
unfoldable pub on_died : Entries → String → ℕ → ℕ → Entries × Phase × List Effect
on_died entries key rpc retry_count = elim (lookup_text key entries) [
  | none ↦ (entries, stopped, [])
  | some e ↦ (
    insert_text key (record e { tunnel = none; rpc = none; endpoint = none }) entries,
    attempting (retry_count + 1),
    tell connecting e.callbacks ++ shutdown_rpc rpc ∷ [],
  )
]

-- The `contains_key` test after the sleep that follows a failed attempt.
unfoldable pub on_slept : Entries → String → ℕ → Entries × Phase × List Effect
on_slept entries key retry_count = elim (lookup_text key entries) [
  | none ↦ (entries, stopped, [])
  | some e ↦ (entries, attempting retry_count, [])
]

-- One turn of `tunnel_task`; an answer that the phase does not wait for changes nothing.
unfoldable pub tunnel_task : Entries → String → Phase → Answer → Entries × Phase × List Effect
unfolding on_up on_down on_poll on_died on_slept
tunnel_task entries key (attempting r) (up rpc tunnel ep) = on_up entries key rpc tunnel ep
tunnel_task entries key (attempting r) (down e) = on_down entries key e r
tunnel_task entries key (polling rpc r) slept = on_poll entries key rpc r
tunnel_task entries key (pinging rpc r) ping_ok = (entries, polling rpc r, [])
tunnel_task entries key (pinging rpc r) ping_failed = on_died entries key rpc r
tunnel_task entries key (sleeping r) slept = on_slept entries key r
tunnel_task entries key phase answer = (entries, phase, [])
