-- ===== src/Remote/Sharing.antt =====
-- What the leases of a key share in app/src/remote/proxy_broker.rs once its tunnel is up, from the
-- announcement to the end of the last lease.
use Prim.Native.String.{String}
use limux.Prelude.{
  ℕ, zero, suc, ◌-◌, ◌<◌, ◌≡◌, inl, inr, true, false, none, some, List, [], ◌∷◌, ◌++◌, append-nil,
  append_assoc, ◌==◌, arith, refl, ap, ◌∙◌, Option-cases, length, same_text_refl, lookup_text,
  lookup-insert_text,
}
use limux.Remote.Broker.{
  BrokerEntry, Entries, Callback, Phase, Effect, acquire, release, pop, tunnel_task, on_up, on_some,
  attempting, polling, up, ready, tell, notify, abort, shutdown_tunnel, shutdown_rpc, ProxyEndpoint,
}
use limux.Remote.Counts.{leases_of, Accounts}
use limux.Remote.Leases.{release-more, release-last}

-- Drops of so many leases on a key, one after another.
abbrev pub drop_all : ℕ → Entries → String → Entries × List Effect
drop_all zero es key = (es, [])
drop_all (suc n) es key =
    let (es', effects) = release es key in
    let (es'', more) = drop_all n es' key in (es'', effects ++ more)

-- What is undone with the last lease.
abbrev torn_down_with : BrokerEntry → List Effect
torn_down_with e =
    on_some e.task abort ++ on_some e.tunnel shutdown_tunnel ++ on_some e.rpc shutdown_rpc

release-last_effects :
    (es : Entries) (key : String) (e : BrokerEntry)
    → lookup_text key es ≡ some e
    → (e.subscriber_count - 1 == 0) ≡ true
    → (release es key).1 ≡ torn_down_with e
unfolding release
release-last_effects es key e there last = rw (release, there, last) refl

release-more_effects :
    (es : Entries) (key : String) (e : BrokerEntry)
    → lookup_text key es ≡ some e
    → (e.subscriber_count - 1 == 0) ≡ false
    → (release es key).1 ≡ []
unfolding release
release-more_effects es key e there more = rw (release, there, more) refl

drop_all-ends :
    (n : ℕ) (es : Entries) (key : String) (e : BrokerEntry)
    → lookup_text key es ≡ some e
    → e.subscriber_count ≡ suc n
    → ((drop_all (suc n) es key).1 ≡ torn_down_with e)
      × (lookup_text key (drop_all (suc n) es key).0 ≡ none)
drop_all-ends zero es key e there h = (
  append-nil (release es key).1 ∙ release-last_effects es key e there (ground arith),
  release-last es key e there (ground arith),
)
drop_all-ends (suc n) es key e there h =
    let left = record e {
      subscriber_count = e.subscriber_count - 1;
      callbacks = pop e.callbacks;
    } in
    let (effects, gone) =
      drop_all-ends n (release es key).0 key left (release-more es key e there (ground arith))
        (omega arith) in
    (
      ap (λ fx. fx ++ (drop_all (suc n) (release es key).0 key).1)
            (release-more_effects es key e there (ground arith))
          ∙ effects,
      gone,
    )

-- What a task does whose connection comes up, and what follows from it.
pub record CameUp (es : Entries) (key : String) (leases rpc tunnel : ℕ) (ep : ProxyEndpoint)
    (out : Entries × Phase × List Effect) : Type 0 where
  pub entry : BrokerEntry
  pub there : lookup_text key es ≡ some entry
  pub each : length entry.callbacks ≡ leases
  pub announced : out.2 ≡ tell (ready ep) entry.callbacks
  pub polls : out.1 ≡ polling rpc 0
  pub later : (c : Callback) (h : ℕ) → (acquire out.0 key c h).1 ≡ notify c (ready ep) ∷ []
  pub torn_down :
      (drop_all leases out.0 key).1
      ≡ on_some entry.task abort ++ (shutdown_tunnel tunnel ∷ shutdown_rpc rpc ∷ [])
  pub gone : lookup_text key (drop_all leases out.0 key).0 ≡ none

acquire-told :
    (es : Entries) (key : String) (c : Callback) (h : ℕ) (e : BrokerEntry) (ep : ProxyEndpoint)
    → lookup_text key es ≡ some e
    → e.endpoint ≡ some ep
    → (acquire es key c h).1 ≡ notify c (ready ep) ∷ []
unfolding acquire
acquire-told es key c h e ep there p = rw (acquire, there, p) refl

-- Where the entries account for the leases that are alive and a key has one, a task whose
-- connection comes up announces the endpoint once for each of the key's leases and goes on to poll
-- with no retries counted; after it whoever acquires the key is told the endpoint at once and no
-- task is spawned, and when the key's leases are dropped one after another, the task is aborted and
-- that tunnel and RPC client are shut down, once, and the key has no entry.
pub tunnel_task-up :
    (es : Entries) (key : String) (ls : List String) (r rpc tunnel : ℕ) (ep : ProxyEndpoint)
    → Accounts es ls
    → 0 < leases_of key ls
    → CameUp es key
        (leases_of key ls)
        rpc
        tunnel
        ep
        (tunnel_task es key (attempting r) (up rpc tunnel ep))
unfolding tunnel_task on_up
tunnel_task-up es key ls r rpc tunnel ep v alive = elim (Option-cases (lookup_text key es)) [
  | inl none_there ↦ absurd (ground (arith, v.counted key))
  | inr (e, there) ↦
      let e' = record e { tunnel = some tunnel; rpc = some rpc; endpoint = some ep } in
      let out = tunnel_task es key (attempting r) (up rpc tunnel ep) in
      let stored : lookup_text key out.0 ≡ some e' =
        rw (tunnel_task, on_up, there, lookup-insert_text key key e' es, same_text_refl key) refl in
      let count : e.subscriber_count ≡ leases_of key ls = ground (arith, v.counted key) in
      let n = leases_of key ls - 1 in
      let total : leases_of key ls ≡ suc n = omega arith in
      let (effects, gone) = drop_all-ends n out.0 key e' stored (omega arith) in
      record {
        entry = e;
        there = there;
        each = ground (arith, v.counted key);
        announced = rw (tunnel_task, on_up, there) refl;
        polls = rw (tunnel_task, on_up, there) refl;
        later = λ c h. acquire-told out.0 key c h e' ep stored refl;
        torn_down =
            ap (λ m. (drop_all m out.0 key).1) total
            ∙ effects
            ∙ append_assoc (on_some e.task abort) (shutdown_tunnel tunnel ∷ [])
                (shutdown_rpc rpc ∷ []);
        gone = ap (λ m. lookup_text key (drop_all m out.0 key).0) total ∙ gone;
      }
]
