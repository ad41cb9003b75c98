-- ===== src/Tunnel/Session.antt =====
-- `handle_connection` of app/src/remote/proxy_tunnel.rs: the handshake, the calls of the daemon in
-- order, and the bridge between the client and the stream events.
use limux.Prelude.{
  ℕ, Option, none, some, Bool, true, false, ◌||◌, List, [], ◌∷◌, ◌++◌, ◌==◌, if◌then◌else◌, Text,
  text, same, Json, get_str,
}
use limux.Rpc.Client.{Answer, done, failed, StreamEvent, error_text}
use limux.Tunnel.Stream.{TcpStream, Outcome, ok, err, Io, write_all}
use limux.Tunnel.Socks.{socks5_handshake, reply}
use limux.Tunnel.Connect.{http_connect_handshake}

-- The calls of a session to the RPC client.
pub data RpcCall : Type 0 where
  proxy_open : (host : Text) (port : ℕ) → RpcCall
  subscribe unsubscribe : (stream_id : Text) → RpcCall
  proxy_subscribe proxy_close : (stream_id : Text) → RpcCall
  proxy_write : (stream_id data_base64 : Text) → RpcCall

-- The first byte, which `peek` leaves 0 where the stream has ended.
abbrev pub first_byte : List ℕ → ℕ
first_byte [] = 0
first_byte (b ∷ bs) = b

unfoldable pub is_socks5 : TcpStream → Bool
is_socks5 s = first_byte s.incoming == 5

unfoldable pub handshake : Io (Text × ℕ)
handshake s = if is_socks5 s then socks5_handshake s else http_connect_handshake s

abbrev pub crlf : Text
crlf = 13 ∷ 10 ∷ []

abbrev pub refusal : Bool → List ℕ
refusal true = reply 5
refusal false = text "HTTP/1.1 502 Bad Gateway" ++ (crlf ++ crlf)

abbrev pub success : Bool → List ℕ
success true = reply 0
success false = text "HTTP/1.1 200 Connection Established" ++ (crlf ++ crlf)

-- What happens while the bridge runs.
pub data BridgeEvent : Type 0 where
  -- a read of the client's side, and how `proxy.write` of it ends
  client_sent : List ℕ → (accepted : Bool) → BridgeEvent
  client_closed : BridgeEvent
  daemon_event : StreamEvent → BridgeEvent
  -- the channel of events is closed
  events_over : BridgeEvent

-- The calls of a session and what the client's side looks like after them.
abbrev pub Session : Type 0
Session = List RpcCall × TcpStream

-- base64 and the printing of JSON are those of the crates that the app uses.
module _ (print : Json → Text) (encode : List ℕ → Text) (decode : Text → Option (List ℕ)) where
  -- A data event written to the client, and whether the bridge goes on.
  unfoldable pub on_data : StreamEvent → TcpStream → Bool × TcpStream
  on_data evt s = elim (get_str (text "data_base64") evt.payload) [
    | none ↦ (true, s)
    | some data_b64 ↦ elim (decode data_b64) [
      | none ↦ (true, s)
      | some bytes ↦ (s.takes, (write_all bytes s).1)
    ]
  ]

  unfoldable pub on_stream_event : StreamEvent → TcpStream → Bool × TcpStream
  on_stream_event evt s =
      if same evt.event (text "proxy.stream.data")
      then on_data evt s
      else if same evt.event (text "proxy.stream.eof") || same evt.event (text "proxy.stream.close")
      then (false, s)
      else (true, s)

  -- The two directions as one sequence of events, up to the first that ends one of them.
  unfoldable pub bridge : Text → List BridgeEvent → TcpStream → Session
  bridge stream_id [] s = ([], s)
  bridge stream_id (client_sent bytes accepted ∷ events) s =
      let write = proxy_write stream_id (encode bytes) in
      elim accepted [
        | true ↦ let (calls, s') = bridge stream_id events s in (write ∷ calls, s')
        | false ↦ (write ∷ [], s)
      ]
  bridge stream_id (client_closed ∷ events) s = ([], s)
  bridge stream_id (events_over ∷ events) s = ([], s)
  bridge stream_id (daemon_event evt ∷ events) s =
      let (more, s') = on_stream_event evt s in
      elim more [ true ↦ bridge stream_id events s' | false ↦ ([], s') ]

  -- Once the stream is open: the subscriptions, the reply, the bridge and the clean-up.
  unfoldable pub run_stream :
      Bool
      → Text
      → Answer
      → List BridgeEvent
      → TcpStream
      → Outcome (Unit {0}) × List RpcCall × TcpStream
  run_stream socks stream_id (failed e) events s = (
    err (text "proxy.stream.subscribe failed: " ++ error_text print e),
    subscribe stream_id ∷ proxy_subscribe stream_id ∷ [],
    s,
  )
  run_stream socks stream_id (done sub) events s = elim (write_all (success socks) s).0 [
    | err e ↦ (err e, subscribe stream_id ∷ proxy_subscribe stream_id ∷ [], s)
    | ok u ↦
        let (calls, s') = bridge stream_id events (write_all (success socks) s).1 in
        (
          ok tt,
          subscribe stream_id
              ∷ proxy_subscribe stream_id
              ∷ (calls ++ proxy_close stream_id ∷ unsubscribe stream_id ∷ []),
          s',
        )
  ]

  -- The answer to `proxy.open`.
  unfoldable pub on_open :
      Bool
      → Answer
      → (Text → Answer)
      → List BridgeEvent
      → TcpStream
      → Outcome (Unit {0}) × List RpcCall × TcpStream
  on_open socks (failed e) subscribed events s =
      (err (text "proxy.open failed: " ++ error_text print e), [], (write_all (refusal socks) s).1)
  on_open socks (done result) subscribed events s = elim (get_str (text "stream_id") result) [
    | none ↦ (err (text "proxy.open did not return stream_id"), [], s)
    | some stream_id ↦ run_stream socks stream_id (subscribed stream_id) events s
  ]

  -- A whole session, with the error of `peek`, if it fails, the daemon's answers and the events of
  -- the bridge.
  unfoldable pub handle_connection :
      Option Text
      → (opened : Text → ℕ → Answer) (subscribed : Text → Answer) → List BridgeEvent
      → TcpStream
      → Outcome (Unit {0}) × List RpcCall × TcpStream
  handle_connection (some e) opened subscribed events s = (err e, [], s)
  handle_connection none opened subscribed events s =
      let (target, s') = handshake s in
      elim target [
        | err e ↦ (err e, [], s')
        | ok (host, port) ↦
            let (result, calls, s'') =
              on_open (is_socks5 s) (opened host port) subscribed events s' in
            (result, proxy_open host port ∷ calls, s'')
      ]
