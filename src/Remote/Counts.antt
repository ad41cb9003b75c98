-- ===== src/Remote/Counts.antt =====
-- The accounts of app/src/remote/proxy_broker.rs: what each operation does to an entry's counts.
use Prim.Native.String.{String}
use limux.Prelude.{
  ℕ, ◌+◌, ◌-◌, ◌<◌, ◌≡◌, inl, inr, true, false, Option, none, some, List, [], ◌∷◌, ◌==◌,
  if◌then◌else◌, arith, refl, ap, sym, Bool-cases, Option-cases, length, length-append, same_text,
  same_text_iff, lookup_text, insert_text, lookup-insert_text, lookup-remove_text,
}
use limux.Remote.Broker.{
  BrokerEntry, Entries, Callback, Phase, Answer, acquire, release, pop, tunnel_task, on_up, on_down,
  on_poll, on_died, on_slept, attempting, polling, pinging, sleeping, up, down, slept, ping_failed,
}

-- How many of the leases that are alive are for the key.
abbrev pub leases_of : String → List String → ℕ
leases_of key [] = 0
leases_of key (k ∷ ks) = (if same_text k key then 1 else 0) + leases_of key ks

-- Drops one lease for the key.
abbrev pub drop_lease : String → List String → List String
drop_lease key [] = []
drop_lease key (k ∷ ks) = if same_text k key then ks else k ∷ drop_lease key ks

-- The entry of a key that has `n` leases: none without leases, else one with `n` subscribers and
-- as many callbacks.
abbrev pub Counted : Option BrokerEntry → ℕ → Type 0
Counted none n = n ≡ 0
Counted (some e) n = (e.subscriber_count ≡ n) × (length e.callbacks ≡ n) × (0 < n)

-- The entries account for the leases that are alive.
pub record Accounts (entries : Entries) (leases : List String) : Type 0 where
  pub counted : (key : String) → Counted (lookup_text key entries) (leases_of key leases)

-- What happens to the broker: a lease is taken, a lease is dropped, or a tunnel task turns.
pub data Action : Type 0 where
  acquired : String → Callback → (handle : ℕ) → Action
  dropped : String → Action
  turned : String → Phase → Answer → Action

-- Only a lease that is alive can be dropped.
unfoldable pub happen : Action → Entries × List String → Entries × List String
happen (acquired key c h) (es, ls) = ((acquire es key c h).0, key ∷ ls)
happen (dropped key) (es, ls) =
    if leases_of key ls == 0 then (es, ls) else ((release es key).0, drop_lease key ls)
happen (turned key p a) (es, ls) = ((tunnel_task es key p a).0, ls)

unfoldable pub happen_all : List Action → Entries × List String → Entries × List String
unfolding happen
happen_all [] s = s
happen_all (a ∷ acts) s = happen_all acts (happen a s)

pub leases_of-drop_lease :
    (key j : String) (ls : List String)
    → 0 < leases_of key ls
    → leases_of j ls ≡ (if same_text key j then 1 else 0) + leases_of j (drop_lease key ls)
leases_of-drop_lease key j [] h = absurd (omega arith)
leases_of-drop_lease key j (k ∷ ls) h = elim (Bool-cases (same_text k key)) [
  | inl e ↦ ground (arith, same_text_iff k key e)
  | inr n ↦ ground (arith, leases_of-drop_lease key j ls)
]

pub length-pop : (cs : List Callback) → length (pop cs) ≡ length cs - 1
length-pop [] = refl
length-pop (c ∷ []) = refl
length-pop (c ∷ d ∷ cs) = ground (arith, length-pop (d ∷ cs))

-- An entry put under a key shows there and nowhere else.
pub insert-Counted :
    (es : Entries) (key j : String) (e : BrokerEntry) (n : ℕ)
    → (same_text key j ≡ true → Counted (some e) n)
    → (same_text key j ≡ false → Counted (lookup_text j es) n)
    → Counted (lookup_text j (insert_text key e es)) n
insert-Counted es key j e n here there =
    rw (lookup-insert_text key j e es)
      elim (Bool-cases (same_text key j)) [ inl h ↦ rw h (here h) | inr h ↦ rw h (there h) ]

pub lookup_same :
    (es : Entries) (key j : String) → same_text key j ≡ true → lookup_text j es ≡ lookup_text key es
lookup_same es key j h = ap (λ k. lookup_text k es) (sym (same_text_iff key j h))

pub acquire-Counted :
    (es : Entries) (key j : String) (c : Callback) (h n : ℕ)
    → Counted (lookup_text j es) n
    → Counted (lookup_text j (acquire es key c h).0) ((if same_text key j then 1 else 0) + n)
unfolding acquire
acquire-Counted es key j c h n v = elim (Option-cases (lookup_text key es)) [
  | inl none_there ↦
      rw (acquire, none_there)
        (insert-Counted es key j _ _ (λ e. ground (arith, lookup_same es key j e))
          (λ e. ground arith))
  | inr (e, there) ↦
      rw (acquire, there)
        (insert-Counted es key j _ _
          (λ h'. ground (arith, lookup_same es key j h', length-append e.callbacks (c ∷ [])))
          (λ e. ground arith))
]

pub release-Counted :
    (es : Entries) (key j : String) (n : ℕ)
    → Counted (lookup_text j es) ((if same_text key j then 1 else 0) + n)
    → Counted (lookup_text j (release es key).0) n
unfolding release
release-Counted es key j n v = elim (Option-cases (lookup_text key es)) [
  | inl none_there ↦ rw (release, none_there) ground (arith, lookup_same es key j)
  | inr (e, there) ↦ elim (Bool-cases (e.subscriber_count - 1 == 0)) [
    | inl last ↦
        rw (release, there, last, lookup-remove_text key j es) ground (arith, lookup_same es key j)
    | inr more ↦
        rw (release, there, more)
          (insert-Counted es key j _ _
            (λ h. ground (arith, lookup_same es key j h, length-pop e.callbacks))
            (λ h. ground arith))
  ]
]

-- A turn of a tunnel task puts at most one entry, with the count and the callbacks it found.
pub same-Counted :
    (es : Entries) (key j : String) (e e' : BrokerEntry) (n : ℕ)
    → lookup_text key es ≡ some e
    → e'.subscriber_count ≡ e.subscriber_count
    → e'.callbacks ≡ e.callbacks
    → Counted (lookup_text j es) n
    → Counted (lookup_text j (insert_text key e' es)) n
same-Counted es key j e e' n there same_count same_callbacks v =
    insert-Counted es key j e' n (λ h. ground (arith, lookup_same es key j h)) (λ h. v)

pub tunnel_task-Counted :
    (es : Entries) (key j : String) (p : Phase) (a : Answer) (n : ℕ)
    → Counted (lookup_text j es) n
    → Counted (lookup_text j (tunnel_task es key p a).0) n
unfolding tunnel_task
tunnel_task-Counted es key j (attempting r) (up rpc tunnel ep) n v =
    elim (Option-cases (lookup_text key es)) [
      | inl none_there ↦ rw (on_up, none_there) v
      | inr (e, there) ↦ rw (on_up, there) (same-Counted es key j e _ n there refl refl v)
    ]
tunnel_task-Counted es key j (pinging rpc r) ping_failed n v =
    elim (Option-cases (lookup_text key es)) [
      | inl none_there ↦ rw (on_died, none_there) v
      | inr (e, there) ↦ rw (on_died, there) (same-Counted es key j e _ n there refl refl v)
    ]
tunnel_task-Counted es key j (attempting r) (down e) n v =
    elim (Option-cases (lookup_text key es)) [
      | inl none_there ↦ rw (on_down, none_there) v
      | inr (e', there) ↦ rw (on_down, there) v
    ]
tunnel_task-Counted es key j (polling rpc r) slept n v = elim (Option-cases (lookup_text key es)) [
  | inl none_there ↦ rw (on_poll, none_there) v
  | inr (e, there) ↦ rw (on_poll, there) v
]
tunnel_task-Counted es key j (sleeping r) slept n v = elim (Option-cases (lookup_text key es)) [
  | inl none_there ↦ rw (on_slept, none_there) v
  | inr (e, there) ↦ rw (on_slept, there) v
]
tunnel_task-Counted es key j p a n v = v
