-- ===== src/Tunnel/Cleanup.antt =====
-- What a session of app/src/remote/proxy_tunnel.rs leaves behind at the daemon and in the client's
-- subscriptions.
use limux.Prelude.{
  ℕ, ◌+◌, ◌≡◌, ◌⊎◌, refl, inl, inr, Option, none, some, Bool, true, false, List, [], ◌∷◌, ◌++◌,
  if◌then◌else◌, Bool-cases, Option-cases, Text, text, Json, get_str,
}
use limux.Rpc.Client.{Answer, done, failed}
use limux.Tunnel.Stream.{TcpStream, Outcome, ok, err, write_all}
use limux.Tunnel.Session.{
  RpcCall, proxy_open, subscribe, unsubscribe, proxy_subscribe, proxy_close, proxy_write, is_socks5,
  handshake, success, BridgeEvent, client_sent, client_closed, daemon_event, events_over,
  on_stream_event, bridge, run_stream, on_open, handle_connection,
}

-- How many streams the calls close at the daemon, and how many subscriptions they drop.
abbrev pub closings : List RpcCall → ℕ
closings [] = 0
closings (proxy_close s ∷ calls) = 1 + closings calls
closings (proxy_open h p ∷ calls) = closings calls
closings (subscribe s ∷ calls) = closings calls
closings (unsubscribe s ∷ calls) = closings calls
closings (proxy_subscribe s ∷ calls) = closings calls
closings (proxy_write s d ∷ calls) = closings calls

abbrev pub drops : List RpcCall → ℕ
drops [] = 0
drops (unsubscribe s ∷ calls) = 1 + drops calls
drops (proxy_close s ∷ calls) = drops calls
drops (proxy_open h p ∷ calls) = drops calls
drops (subscribe s ∷ calls) = drops calls
drops (proxy_subscribe s ∷ calls) = drops calls
drops (proxy_write s d ∷ calls) = drops calls

abbrev pub succeeded : Outcome (Unit {0}) → Bool
succeeded (ok u) = true
succeeded (err e) = false

-- A stream is closed and its subscription dropped once, or neither.
abbrev pub CleansUp : Bool → List RpcCall → Type 0
CleansUp yes? calls =
    (closings calls ≡ (if yes? then 1 else 0)) × (drops calls ≡ (if yes? then 1 else 0))

outcome-cases : {A : Type 0} (o : Outcome A) → ((e : Text) × (o ≡ err e)) ⊎ ((a : A) × (o ≡ ok a))
outcome-cases (err e) = inl (e, refl)
outcome-cases (ok a) = inr (a, refl)

module _ (print : Json → Text) (encode : List ℕ → Text) (decode : Text → Option (List ℕ)) where
  bridge-CleansUp :
      (stream_id : Text) (events : List BridgeEvent) (s : TcpStream)
      → CleansUp true (
          (bridge print encode decode stream_id events s).0
          ++ proxy_close stream_id ∷ unsubscribe stream_id ∷ [])
  unfolding bridge
  bridge-CleansUp stream_id [] s = (refl, refl)
  bridge-CleansUp stream_id (client_sent bytes true ∷ events) s = bridge-CleansUp stream_id events s
  bridge-CleansUp stream_id (client_sent bytes false ∷ events) s = (refl, refl)
  bridge-CleansUp stream_id (client_closed ∷ events) s = (refl, refl)
  bridge-CleansUp stream_id (events_over ∷ events) s = (refl, refl)
  bridge-CleansUp stream_id (daemon_event evt ∷ events) s =
      elim (Bool-cases (on_stream_event print encode decode evt s).0) [
        | inl e ↦
            rw (bridge, e)
              (bridge-CleansUp stream_id events (on_stream_event print encode decode evt s).1)
        | inr e ↦ rw (bridge, e) (refl, refl)
      ]

  run_stream-CleansUp :
      (socks : Bool) (stream_id : Text) (sub : Answer) (events : List BridgeEvent) (s : TcpStream)
      → let (result, calls, s') = run_stream print encode decode socks stream_id sub events s in
        CleansUp (succeeded result) calls
  unfolding run_stream write_all
  run_stream-CleansUp socks stream_id (failed e) events s = (refl, refl)
  run_stream-CleansUp socks stream_id (done sub) events s = elim (Bool-cases s.takes) [
    | inl e ↦
        rw (run_stream, write_all, e)
          (bridge-CleansUp stream_id events (write_all (success socks) s).1)
    | inr e ↦ rw (run_stream, write_all, e) (refl, refl)
  ]

  on_open-CleansUp :
      (socks : Bool) (opened : Answer) (subscribed : Text → Answer) (events : List BridgeEvent)
      (s : TcpStream)
      → let (result, calls, s') = on_open print encode decode socks opened subscribed events s in
        CleansUp (succeeded result) calls
  unfolding on_open
  on_open-CleansUp socks (failed e) subscribed events s = (refl, refl)
  on_open-CleansUp socks (done result) subscribed events s =
      elim (Option-cases (get_str (text "stream_id") result)) [
        | inl e ↦ rw (on_open, e) (refl, refl)
        | inr (stream_id, e) ↦
            rw (on_open, e) (run_stream-CleansUp socks stream_id (subscribed stream_id) events s)
      ]

  -- Whatever the client sends and the daemon answers, a session that ends without an error closes
  -- one stream at the daemon and drops one subscription, and a session that ends with an error does
  -- neither, also where its stream was opened.
  pub handle_connection-CleansUp :
      (peek_error : Option Text) (opened : Text → ℕ → Answer) (subscribed : Text → Answer)
      (events : List BridgeEvent) (s : TcpStream)
      → let (result, calls, s') =
          handle_connection print encode decode peek_error opened subscribed events s in
        CleansUp (succeeded result) calls
  unfolding handle_connection
  handle_connection-CleansUp (some e) opened subscribed events s = (refl, refl)
  handle_connection-CleansUp none opened subscribed events s =
      elim (outcome-cases (handshake s).0) [
        | inl (e, h) ↦ rw (handle_connection, h) (refl, refl)
        | inr ((host, port), h) ↦
            rw (handle_connection, h)
              (on_open-CleansUp (is_socks5 s) (opened host port) subscribed events (handshake s).1)
      ]
