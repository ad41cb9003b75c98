-- ===== src/Rpc/Answered.antt =====
-- Which answer a call of app/src/remote/rpc.rs returns, by what the reader task reads.
use limux.Prelude.{
  ℕ, ◌≡◌, refl, inl, inr, none, some, Bool, true, false, ◌&&◌, List, [], ◌∷◌, count, ltb, ◌==◌,
  if◌then◌else◌, Option-cases, text, Json, get_u64, Map, lookup, remove, lookup-remove, arith,
}
use limux.Rpc.Client.{
  RpcClient, Answer, line, eof, send, response, on_response, on_line, exited, drain, on_eof, step,
}
use limux.Rpc.Settled.{Settled, count-send, any-count}

abbrev holds : ℕ → Map (Unit {0}) → Bool
holds id m = elim (lookup id m) [ none ↦ false | some tx ↦ true ]

lookup-send :
    (id k : ℕ) (a : Answer) (c : RpcClient)
    → lookup k (send id a c).returned
      ≡ (if ltb 0 (count id c.waiting) && (id == k) then some a else lookup k c.returned)
unfolding send lookup
lookup-send id k a c = ground (arith, any-count id c.waiting)

count-drain :
    (m : Map (Unit {0})) (k : ℕ) (c : RpcClient)
    → count k (drain m c).waiting ≡ (if holds k m then 0 else count k c.waiting)
unfolding drain lookup
count-drain [] k c = refl
count-drain ((id, tx) ∷ m) k c =
    ground (arith, count-drain m k (send id exited c), count-send id k exited c)

lookup-drain :
    (m : Map (Unit {0})) (k : ℕ) (c : RpcClient)
    → lookup k (drain m c).returned
      ≡ (if ltb 0 (count k c.waiting) && holds k m then some exited else lookup k c.returned)
unfolding drain lookup
lookup-drain [] k c = ground arith
lookup-drain ((id, tx) ∷ m) k c = ground (
  arith,
  lookup-drain m k (send id exited c),
  count-send id k exited c,
  lookup-send id k exited c,
)

empty-count : (xs : List ℕ) → ((k : ℕ) → count k xs ≡ 0) → xs ≡ []
empty-count [] h = refl
empty-count (x ∷ xs) h = absurd (ground (arith, h x))

-- In a settled account whose reader task runs, the end of the input leaves no call waiting: each
-- call that waited has returned that the process died, and every other keeps the answer it had.
pub eof-answers :
    (c : RpcClient)
    → Settled c
    → c.ended ≡ false
    → ((step eof c).waiting ≡ [])
      × ((id : ℕ)
          → lookup id (step eof c).returned
            ≡ (if ltb 0 (count id c.waiting) then some exited else lookup id c.returned))
unfolding step on_eof
eof-answers c v e =
    let c' = record c { pending = []; ended = true } in
    rw (step, e)
      (
        empty-count (on_eof c).waiting
            λ k. ground (arith, count-drain c.pending k c', v.reached e k),
        λ id. ground (arith, lookup-drain c.pending id c', v.reached e id),
      )

-- In a settled account whose reader task runs, a line whose `id` is a number gives its result to
-- the call with that id if it still waits, and to none otherwise; after it that call neither waits
-- nor is pending, and all other calls wait and are pending as before.
pub response-answers :
    (c : RpcClient) (obj : Json) (id : ℕ)
    → Settled c
    → c.ended ≡ false
    → get_u64 (text "id") obj ≡ some id
    → let c' = step (line (some obj)) c in
      (c'.returned
        ≡ (if ltb 0 (count id c.waiting) then (id, response obj) ∷ c.returned else c.returned))
      × ((k : ℕ) → count k c'.waiting ≡ (if k == id then 0 else count k c.waiting))
      × ((k : ℕ) → lookup k c'.pending ≡ (if k == id then none else lookup k c.pending))
unfolding step on_line on_response send
response-answers c obj id v e at = elim (Option-cases (lookup id c.pending)) [
  | inl f ↦
      let zero_waits : count id c.waiting ≡ 0 = ground (arith, v.reached e id) in
      rw (step, e, on_line, at, on_response, f) (ground arith, λ k. ground arith, λ k. ground arith)
  | inr (tx, f) ↦
      let c1 = record c { pending = remove id c.pending } in
      rw (step, e, on_line, at, on_response, f)
        (
          ground (arith, any-count id c.waiting),
          λ k. count-send id k (response obj) c1,
          λ k. ground (arith, any-count id c.waiting, lookup-remove id k c.pending),
        )
]
