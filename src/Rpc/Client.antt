-- ===== src/Rpc/Client.antt =====
-- app/src/remote/rpc.rs. The maps behind the mutexes are fields of the state; a call is known by its
-- id, a receiver of stream events by a number. A call that waits for its answer, and what a call
-- returned, stand beside the client.
use limux.Prelude.{
  ℕ, ◌+◌, ◌%◌, ◌^◌, Option, none, some, Bool, true, false, not, List, [], ◌∷◌, ◌++◌, any, filter,
  ◌==◌, if◌then◌else◌, Text, text, same, Json, null, get, get_u64, get_str, unwrap_or, Map, lookup,
  insert, remove,
}

pub record StreamEvent : Type 0 where
  pub stream_id : Text
  pub event : Text
  pub payload : Json

pub data RpcError : Type 0 where
  process_died remote : Text → RpcError
  -- with the response, which its message shows
  hello_failed : Json → RpcError
  timeout : RpcError
  io : Text → RpcError

pub data Answer : Type 0 where
  done : Json → Answer
  failed : RpcError → Answer

-- The subscriptions, with the newest one of a stream id in front.
abbrev pub Subscriptions : Type 0
Subscriptions = List (Text × ℕ)

unfoldable pub without_stream : Text → Subscriptions → Subscriptions
without_stream stream_id subs = filter (λ entry. not (same entry.0 stream_id)) subs

unfoldable pub find_stream : Text → Subscriptions → Option ℕ
find_stream stream_id [] = none
find_stream stream_id ((s, tx) ∷ subs) =
    if same s stream_id then some tx else find_stream stream_id subs

pub record RpcClient : Type 0 where
  pub next_id : ℕ
  pub pending : Map (Unit {0})
  pub subscriptions : Subscriptions
  -- whether the reader task has come to its end
  pub ended : Bool
  -- the calls that wait, what calls returned, and the events that receivers got, newest first
  pub waiting : List ℕ
  pub returned : List (ℕ × Answer)
  pub delivered : List (ℕ × StreamEvent)

-- A value sent to a call: only one that still waits takes it.
unfoldable pub send : ℕ → Answer → RpcClient → RpcClient
send id answer c =
    if any (λ w. w == id) c.waiting
    then record c {
      waiting = filter (λ w. not (w == id)) c.waiting;
      returned = (id, answer) ∷ c.returned;
    }
    else c

-- The result that a response carries.
unfoldable pub response : Json → Answer
response obj = elim (get (text "error") obj) [
  | some e ↦ failed (remote (unwrap_or (text "unknown error") (get_str (text "message") e)))
  | none ↦ done (unwrap_or null (get (text "result") obj))
]

-- A response goes to the pending call with its id, which is no longer pending then.
unfoldable pub on_response : ℕ → Json → RpcClient → RpcClient
on_response id obj c = elim (lookup id c.pending) [
  | none ↦ c
  | some tx ↦ send id (response obj) (record c { pending = remove id c.pending })
]

unfoldable pub on_event : Text → Json → RpcClient → RpcClient
on_event name obj c =
    let stream_id = unwrap_or [] (get_str (text "stream_id") obj) in
    let event : StreamEvent = record { stream_id = stream_id; event = name; payload = obj } in
    elim (find_stream stream_id c.subscriptions) [
      | none ↦ c
      | some tx ↦ record c { delivered = (tx, event) ∷ c.delivered }
    ]

-- A line that the reader task reads; none stands for one that is blank or not JSON.
unfoldable pub on_line : Option Json → RpcClient → RpcClient
on_line none c = c
on_line (some obj) c = elim (get_u64 (text "id") obj) [
  | some id ↦ on_response id obj c
  | none ↦ elim (get_str (text "event") obj) [ some name ↦ on_event name obj c | none ↦ c ]
]

abbrev pub exited : Answer
exited = failed (process_died (text "SSH process exited"))

unfoldable pub drain : Map (Unit {0}) → RpcClient → RpcClient
drain [] c = c
drain ((id, tx) ∷ rest) c = drain rest (send id exited c)

-- The end of the reader's input: all pending calls are told.
unfoldable pub on_eof : RpcClient → RpcClient
on_eof c = drain c.pending (record c { pending = []; ended = true })

-- `fetch_add` on an `AtomicU64`.
unfoldable pub wrap64 : ℕ → ℕ
wrap64 n = n % 2 ^ 64

-- `call`, up to the wait. Where writing the request fails the call returns, and stays pending.
unfoldable pub begin_call : Option Text → RpcClient → RpcClient
begin_call failure c =
    let id = c.next_id in
    let c' = record c { next_id = wrap64 (id + 1); pending = insert id tt c.pending } in
    elim failure [
      | none ↦ record c' { waiting = id ∷ c.waiting }
      | some e ↦ record c' { returned = (id, failed (io e)) ∷ c.returned }
    ]

-- Thirty seconds of waiting are over.
unfoldable pub on_timeout : ℕ → RpcClient → RpcClient
on_timeout id c =
    if any (λ w. w == id) c.waiting
    then send id (failed timeout) (record c { pending = remove id c.pending })
    else c

unfoldable pub subscribe : Text → ℕ → RpcClient → RpcClient
subscribe stream_id tx c = record c {
  subscriptions = (stream_id, tx) ∷ without_stream stream_id c.subscriptions;
}

unfoldable pub unsubscribe : Text → RpcClient → RpcClient
unsubscribe stream_id c = record c { subscriptions = without_stream stream_id c.subscriptions }

-- The client that `connect` makes, before the handshake.
unfoldable pub new_client : RpcClient
new_client = record {
  next_id = 1;
  pending = [];
  subscriptions = [];
  ended = false;
  waiting = [];
  returned = [];
  delivered = [];
}

-- What may happen next, in any order. The reader task does nothing once it has ended.
pub data Step : Type 0 where
  call : (failure : Option Text) → Step
  line : Option Json → Step
  eof : Step
  time_out : ℕ → Step
  open_stream : Text → ℕ → Step
  close_stream : Text → Step

unfoldable pub step : Step → RpcClient → RpcClient
step (call failure) c = begin_call failure c
step (line obj) c = if c.ended then c else on_line obj c
step eof c = if c.ended then c else on_eof c
step (time_out id) c = on_timeout id c
step (open_stream stream_id tx) c = subscribe stream_id tx c
step (close_stream stream_id) c = unsubscribe stream_id c

unfoldable pub steps : List Step → RpcClient → RpcClient
steps [] c = c
steps (s ∷ ss) c = steps ss (step s c)

-- The outcome of the `hello` call in `connect`.
unfoldable pub hello_result : Answer → Option RpcError
hello_result (failed e) = some e
hello_result (done resp) = elim (get (text "name") resp) [
  | none ↦ some (hello_failed resp)
  | some name ↦ none
]

-- `fmt` of an error, with the text of a JSON value as serde_json prints it.
unfoldable pub error_text : (Json → Text) → RpcError → Text
error_text print (process_died s) = text "SSH process died: " ++ s
error_text print timeout = text "RPC call timed out"
error_text print (remote s) = text "remote error: " ++ s
error_text print (io e) = text "IO error: " ++ e
error_text print (hello_failed resp) =
    text "hello failed: " ++ (text "unexpected hello response: " ++ print resp)
