-- ===== src/Remote/Leases.antt =====
-- The leases of app/src/remote/proxy_broker.rs against its entries, over sequences of calls.
use Prim.Native.String.{String}
use limux.Prelude.{
  ℕ, ◌+◌, ◌-◌, ◌≡◌, inl, inr, true, false, none, some, List, [], ◌∷◌, ◌++◌, ◌==◌, arith, refl, ap₂,
  ◌∙◌, Bool-cases, Option-cases, same_text_refl, lookup_text, lookup-insert_text,
  lookup-remove_text,
}
use limux.Remote.Broker.{BrokerEntry, Entries, Callback, acquire, release, pop}
use limux.Remote.Counts.{
  leases_of, drop_lease, Accounts, Action, happen, happen_all, leases_of-drop_lease,
  acquire-Counted, release-Counted, tunnel_task-Counted, acquired, dropped, turned,
}

happen-Accounts :
    (a : Action) (s : Entries × List String)
    → Accounts s.0 s.1
    → Accounts (happen a s).0 (happen a s).1
unfolding happen
happen-Accounts (acquired key c h) (es, ls) v = record {
  counted = λ j. acquire-Counted es key j c h (leases_of j ls) (v.counted j);
}
happen-Accounts (dropped key) (es, ls) v = elim (Bool-cases (leases_of key ls == 0)) [
  | inl gone ↦ rw gone v
  | inr alive ↦ rw alive (record {
    counted = λ j.
        release-Counted es key j (leases_of j (drop_lease key ls))
          (rw⁻¹ (leases_of-drop_lease key j ls (ground arith)) (v.counted j));
  })
]
happen-Accounts (turned key p a) (es, ls) v = record {
  counted = λ j. tunnel_task-Counted es key j p a (leases_of j ls) (v.counted j);
}

-- If the entries account for the leases that are alive, they still do after any sequence of
-- acquisitions, drops of leases that are alive and turns of tunnel tasks: each key has one
-- subscriber and one callback for every lease alive for it, and a key without leases has no entry.
pub happen_all-Accounts :
    (acts : List Action) (s : Entries × List String)
    → Accounts s.0 s.1
    → Accounts (happen_all acts s).0 (happen_all acts s).1
unfolding happen_all
happen_all-Accounts [] s v = v
happen_all-Accounts (a ∷ acts) s v = happen_all-Accounts acts (happen a s) (happen-Accounts a s v)

pop-append : (cs : List Callback) (c : Callback) → pop (cs ++ c ∷ []) ≡ cs
pop-append [] c = refl
pop-append (d ∷ []) c = refl
pop-append (d ∷ e ∷ cs) c = ground (arith, pop-append (e ∷ cs) c)

acquire-some :
    (es : Entries) (key : String) (c : Callback) (h : ℕ) (e : BrokerEntry)
    → lookup_text key es ≡ some e
    → lookup_text key (acquire es key c h).0
      ≡ some (record e {
        subscriber_count = e.subscriber_count + 1;
        callbacks = e.callbacks ++ c ∷ [];
      })
unfolding acquire
acquire-some es key c h e there =
    rw (acquire, there, lookup-insert_text key key _ es, same_text_refl key) refl

acquire-none :
    (es : Entries) (key : String) (c : Callback) (h : ℕ)
    → lookup_text key es ≡ none
    → lookup_text key (acquire es key c h).0
      ≡ some (record {
        subscriber_count = 1;
        tunnel = none;
        rpc = none;
        endpoint = none;
        callbacks = c ∷ [];
        task = some h;
      })
unfolding acquire
acquire-none es key c h none_there =
    rw (acquire, none_there, lookup-insert_text key key _ es, same_text_refl key) refl

pub release-more :
    (es : Entries) (key : String) (e : BrokerEntry)
    → lookup_text key es ≡ some e
    → (e.subscriber_count - 1 == 0) ≡ false
    → lookup_text key (release es key).0
      ≡ some (record e { subscriber_count = e.subscriber_count - 1; callbacks = pop e.callbacks })
unfolding release
release-more es key e there more =
    rw (release, there, more, lookup-insert_text key key _ es, same_text_refl key) refl

pub release-last :
    (es : Entries) (key : String) (e : BrokerEntry)
    → lookup_text key es ≡ some e
    → (e.subscriber_count - 1 == 0) ≡ true
    → lookup_text key (release es key).0 ≡ none
unfolding release
release-last es key e there last =
    rw (release, there, last, lookup-remove_text key key es, same_text_refl key) refl

-- Where the entries account for the leases that are alive, a drop right after an acquisition for
-- the same key gives that key back the entry it had, so the newest callback is the one that goes.
pub release-acquire :
    (es : Entries) (key : String) (c : Callback) (h : ℕ) (ls : List String)
    → Accounts es ls
    → lookup_text key (release (acquire es key c h).0 key).0 ≡ lookup_text key es
release-acquire es key c h ls v = elim (Option-cases (lookup_text key es)) [
  | inl none_there ↦
      rw none_there
        (release-last (acquire es key c h).0 key _ (acquire-none es key c h none_there) refl)
  | inr (e, there) ↦ rw there (
      release-more (acquire es key c h).0 key _ (acquire-some es key c h e there)
        (ground (arith, v.counted key))
      ∙ ap₂ (λ n cs. some (record e { subscriber_count = n; callbacks = cs })) (omega arith)
          (pop-append e.callbacks c))
]
