-- ===== src/Rpc/Tests.antt =====
-- The theorems on the calls of app/src/remote/rpc.rs at a concrete run.
use limux.Prelude.{
  ℕ, ◌≡◌, refl, none, some, false, List, [], ◌∷◌, count, ltb, ◌==◌, if◌then◌else◌, text, Json,
  natural, string, object, field, no_field, lookup, arith,
}
use limux.Rpc.Client.{
  RpcClient, exited, Step, call, line, eof, response, step, steps, new_client, begin_call, wrap64,
}
use limux.Rpc.Settled.{Settled, new_client-Settled, steps-Settled}
use limux.Rpc.Answered.{eof-answers, response-answers}

-- Three calls, the second of which cannot be written.
abbrev three_calls : List Step
three_calls = call none ∷ call (some (text "broken pipe")) ∷ call none ∷ []

abbrev pong : Json
pong =
    object (field (text "id") (natural 3) (field (text "result") (string (text "pong")) no_field))

steps-Settled_example : Settled (steps three_calls new_client)
unfolding new_client
steps-Settled_example = steps-Settled three_calls new_client new_client-Settled (omega arith)

abbrev busy : RpcClient
unfolding steps step begin_call wrap64 new_client
busy = steps three_calls new_client

busy-Settled : Settled busy
unfolding busy
busy-Settled = steps-Settled_example

busy-open : busy.ended ≡ false
unfolding busy
busy-open = refl

eof-answers_example :
    ((step eof busy).waiting ≡ [])
    × ((id : ℕ)
        → lookup id (step eof busy).returned
          ≡ (if ltb 0 (count id busy.waiting) then some exited else lookup id busy.returned))
eof-answers_example = eof-answers busy busy-Settled busy-open

response-answers_example :
    let c' = step (line (some pong)) busy in
    (c'.returned ≡ (
      if ltb 0 (count 3 busy.waiting) then (3, response pong) ∷ busy.returned else busy.returned))
    × ((k : ℕ) → count k c'.waiting ≡ (if k == 3 then 0 else count k busy.waiting))
    × ((k : ℕ) → lookup k c'.pending ≡ (if k == 3 then none else lookup k busy.pending))
response-answers_example = response-answers busy pong 3 busy-Settled busy-open refl
