-- ===== src/Rpc/Settled.antt =====
-- The calls of app/src/remote/rpc.rs over any sequence of steps: which wait, and what they returned.
use limux.Prelude.{
  ℕ, suc, ◌+◌, ◌^◌, ◌≤◌, ◌<◌, ◌≡◌, refl, ap, sym, ◌∙◌, inl, inr, Option, none, some, Bool, true,
  false, not, ◌&&◌, List, [], ◌∷◌, any, filter, length, count, ltb, leb, ◌==◌, ==_iff,
  if◌then◌else◌, Bool-cases, Option-cases, Text, text, unwrap_or, Json, get_u64, get_str, Map,
  lookup, remove, lookup-insert, lookup-remove, arith,
}
use limux.Rpc.Client.{
  RpcClient, Answer, Step, call, line, eof, time_out, open_stream, close_stream, send, response,
  on_response, on_event, on_line, exited, drain, on_eof, wrap64, begin_call, on_timeout, subscribe,
  unsubscribe, step, steps, new_client, failed, timeout, find_stream,
}

-- How many answers a call got.
abbrev pub answers : ℕ → List (ℕ × Answer) → ℕ
answers id [] = 0
answers id ((k, a) ∷ rest) = (if k == id then 1 else 0) + answers id rest

abbrev pub begun : ℕ → RpcClient → ℕ
begun id c = if leb 1 id && ltb id c.next_id then 1 else 0

-- Every call that was begun waits or has returned, once; no other has. While the reader task runs,
-- a call that waits is pending. Only ids that were given out are pending.
pub record Settled (c : RpcClient) : Type 0 where
  pub positive : 1 ≤ c.next_id
  pub once : (id : ℕ) → count id c.waiting + answers id c.returned ≡ begun id c
  pub reached : c.ended ≡ false → (id : ℕ) → 0 < count id c.waiting → lookup id c.pending ≡ some tt

count-filter :
    (id k : ℕ) (xs : List ℕ)
    → count k (filter (λ w. not (w == id)) xs) ≡ (if k == id then 0 else count k xs)
count-filter id k [] = ground arith
count-filter id k (x ∷ xs) = ground (arith, count-filter id k xs)

pub any-count : (id : ℕ) (xs : List ℕ) → any (λ w. w == id) xs ≡ ltb 0 (count id xs)
any-count id [] = refl
any-count id (x ∷ xs) = ground (arith, any-count id xs)

-- What `send` does to the accounts, and what it leaves alone.
pub count-send :
    (id k : ℕ) (a : Answer) (c : RpcClient)
    → count k (send id a c).waiting ≡ (if k == id then 0 else count k c.waiting)
unfolding send
count-send id k a c = ground (arith, any-count id c.waiting, count-filter id k c.waiting)

answers-send :
    (id k : ℕ) (a : Answer) (c : RpcClient)
    → answers k (send id a c).returned
      ≡ (if ltb 0 (count id c.waiting) && (k == id) then 1 else 0) + answers k c.returned
unfolding send
answers-send id k a c = ground (arith, any-count id c.waiting)

send-rest :
    (id : ℕ) (a : Answer) (c : RpcClient)
    → ((send id a c).next_id ≡ c.next_id)
      × ((send id a c).pending ≡ c.pending)
      × ((send id a c).ended ≡ c.ended)
unfolding send
send-rest id a c = ground arith

-- The accounts of a call are kept by `send`, since a call waits once.
once-send :
    (id k : ℕ) (a : Answer) (c : RpcClient)
    → count id c.waiting ≤ 1
    → count k (send id a c).waiting + answers k (send id a c).returned
      ≡ count k c.waiting + answers k c.returned
once-send id k a c h = ground (arith, count-send id k a c, answers-send id k a c, ==_iff k id)

begun-le : (id : ℕ) (c : RpcClient) → begun id c ≤ 1
begun-le id c = ground arith

waits_once : {c : RpcClient} (v : Settled c) (id : ℕ) → count id c.waiting ≤ 1
waits_once {c} v id = omega (arith, v.once id, begun-le id c)

-- A call that a pending map lacks is given its answer.
send-Settled :
    (id : ℕ) (a : Answer) (c : RpcClient)
    → Settled c
    → Settled (send id a (record c { pending = remove id c.pending }))
send-Settled id a c v =
    let c' = record c { pending = remove id c.pending } in
    let (next, pend, ended) = send-rest id a c' in
    record {
      positive = omega (arith, v.positive, next);
      once = λ k. ground (arith, once-send id k a c' (waits_once v id), v.once k, next);
      reached = λ e k h.
          ap (lookup k) pend
          ∙ ground (
            arith,
            count-send id k a c',
            lookup-remove id k c.pending,
            v.reached (sym ended ∙ e) k,
          );
    }

on_response-Settled :
    (id : ℕ) (obj : Json) (c : RpcClient) → Settled c → Settled (on_response id obj c)
unfolding on_response
on_response-Settled id obj c v = elim (Option-cases (lookup id c.pending)) [
  | inl e ↦ rw (on_response, e) v
  | inr (tx, e) ↦ rw (on_response, e) (send-Settled id (response obj) c v)
]

on_event-Settled :
    (name : Text) (obj : Json) (c : RpcClient) → Settled c → Settled (on_event name obj c)
unfolding on_event
on_event-Settled name obj c v =
    elim (Option-cases
      (find_stream (unwrap_or [] (get_str (text "stream_id") obj)) c.subscriptions)) [
        | inl e ↦ rw (on_event, e) v
        | inr (tx, e) ↦
            rw (on_event, e) (record { positive = v.positive; once = v.once; reached = v.reached })
      ]

on_line-Settled : (obj : Option Json) (c : RpcClient) → Settled c → Settled (on_line obj c)
unfolding on_line
on_line-Settled none c v = v
on_line-Settled (some obj) c v = elim (Option-cases (get_u64 (text "id") obj)) [
  | inr (id, e) ↦ rw (on_line, e) (on_response-Settled id obj c v)
  | inl e ↦ elim (Option-cases (get_str (text "event") obj)) [
    | inl f ↦ rw (on_line, e, f) v
    | inr (name, f) ↦ rw (on_line, e, f) (on_event-Settled name obj c v)
  ]
]

-- Once the reader has ended, only the accounts matter.
drain-Settled :
    (m : Map (Unit {0})) (c : RpcClient) → c.ended ≡ true → Settled c → Settled (drain m c)
unfolding drain
drain-Settled [] c e v = v
drain-Settled ((id, tx) ∷ m) c e v =
    let (next, pend, ended) = send-rest id exited c in
    drain-Settled m (send id exited c) (ended ∙ e) (record {
      positive = omega (arith, v.positive, next);
      once = λ k. ground (arith, once-send id k exited c (waits_once v id), v.once k, next);
      reached = λ f k h. absurd (ground (arith, ended));
    })

on_eof-Settled : (c : RpcClient) → Settled c → Settled (on_eof c)
unfolding on_eof
on_eof-Settled c v =
    drain-Settled c.pending (record c { pending = []; ended = true }) refl
      (record { positive = v.positive; once = v.once; reached = λ e k h. absurd (ground arith) })

wrap64-small : (n : ℕ) → n < 2 ^ 64 → wrap64 n ≡ n
unfolding wrap64
wrap64-small n h = omega arith

begin_call-Settled :
    (failure : Option Text) (c : RpcClient)
    → suc c.next_id < 2 ^ 64
    → Settled c
    → Settled (begin_call failure c)
unfolding begin_call
begin_call-Settled none c room v =
    let next = wrap64-small (c.next_id + 1) (omega arith) in
    record {
      positive = omega (arith, v.positive, next);
      once = λ k. ground (arith, v.once k, next, v.positive);
      reached = λ e k h. ground (arith, v.reached e k, lookup-insert c.next_id k tt c.pending);
    }
begin_call-Settled (some _) c room v =
    let next = wrap64-small (c.next_id + 1) (omega arith) in
    record {
      positive = omega (arith, v.positive, next);
      once = λ k. ground (arith, v.once k, next, v.positive);
      reached = λ e k h. ground (arith, v.reached e k, lookup-insert c.next_id k tt c.pending);
    }

on_timeout-Settled : (id : ℕ) (c : RpcClient) → Settled c → Settled (on_timeout id c)
unfolding on_timeout
on_timeout-Settled id c v = elim (Bool-cases (any (λ w. w == id) c.waiting)) [
  | inl e ↦ rw (on_timeout, e) (send-Settled id (failed timeout) c v)
  | inr e ↦ rw (on_timeout, e) v
]

Settled-if : (b : Bool) {c d : RpcClient} → Settled c → Settled d → Settled (if b then c else d)
Settled-if true v w = v
Settled-if false v w = w

step-Settled : (s : Step) (c : RpcClient) → suc c.next_id < 2 ^ 64 → Settled c → Settled (step s c)
unfolding step subscribe unsubscribe
step-Settled (call failure) c room v = begin_call-Settled failure c room v
step-Settled (line obj) c room v = Settled-if c.ended v (on_line-Settled obj c v)
step-Settled eof c room v = Settled-if c.ended v (on_eof-Settled c v)
step-Settled (time_out id) c room v = on_timeout-Settled id c v
step-Settled (open_stream s tx) c room v = record {
  positive = v.positive;
  once = v.once;
  reached = v.reached;
}
step-Settled (close_stream s) c room v = record {
  positive = v.positive;
  once = v.once;
  reached = v.reached;
}

next_id-drain : (m : Map (Unit {0})) (c : RpcClient) → (drain m c).next_id ≡ c.next_id
unfolding drain
next_id-drain [] c = refl
next_id-drain ((id, tx) ∷ m) c = next_id-drain m (send id exited c) ∙ (send-rest id exited c).0

next_id-on_line : (obj : Option Json) (c : RpcClient) → (on_line obj c).next_id ≡ c.next_id
unfolding on_line on_response on_event
next_id-on_line none c = refl
next_id-on_line (some obj) c = elim (Option-cases (get_u64 (text "id") obj)) [
  | inr (id, e) ↦ elim (Option-cases (lookup id c.pending)) [
    | inl f ↦ rw (on_line, e, on_response, f) refl
    | inr (tx, f) ↦
        rw (on_line, e, on_response, f)
          (send-rest id (response obj) (record c { pending = remove id c.pending })).0
  ]
  | inl e ↦ elim (Option-cases (get_str (text "event") obj)) [
    | inl f ↦ rw (on_line, e, f) refl
    | inr (name, f) ↦
        elim (Option-cases
          (find_stream (unwrap_or [] (get_str (text "stream_id") obj)) c.subscriptions)) [
            | inl g ↦ rw (on_line, e, f, on_event, g) refl
            | inr (tx, g) ↦ rw (on_line, e, f, on_event, g) refl
          ]
  ]
]

next_id-step :
    (s : Step) (c : RpcClient) → suc c.next_id < 2 ^ 64 → (step s c).next_id ≤ suc c.next_id
unfolding step begin_call on_eof on_timeout subscribe unsubscribe
next_id-step (call failure) c room = ground (arith, wrap64-small (c.next_id + 1))
next_id-step (line obj) c room = ground (arith, next_id-on_line obj c)
next_id-step eof c room =
    ground (arith, next_id-drain c.pending (record c { pending = []; ended = true }))
next_id-step (time_out id) c room =
    ground (arith, (send-rest id (failed timeout) (record c { pending = remove id c.pending })).0)
next_id-step (open_stream s tx) c room = omega arith
next_id-step (close_stream s) c room = omega arith

-- From an account that is settled, any sequence of calls, lines, an end of the input, time-outs and
-- subscriptions, in any order, keeps it settled, as long as the ids given out stay below 2^64:
-- every call that was begun waits or has returned, once, no other has, and while the reader task
-- runs every call that waits is pending.
pub steps-Settled :
    (ss : List Step) (c : RpcClient)
    → Settled c
    → c.next_id + length ss < 2 ^ 64
    → Settled (steps ss c)
unfolding steps
steps-Settled [] c v room = v
steps-Settled (s ∷ ss) c v room =
    steps-Settled ss (step s c) (step-Settled s c (omega arith) v)
      (omega (arith, next_id-step s c (omega arith)))

pub new_client-Settled : Settled new_client
unfolding new_client
new_client-Settled = record {
  positive = omega arith;
  once = λ id. ground arith;
  reached = λ e id h. absurd (omega arith);
}
