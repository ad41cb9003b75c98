-- ===== src/Remote/Registry.antt =====
-- The threads of app/src/remote/controller.rs over any sequence of connects and disconnects.
use limux.Prelude.{
  ℕ, suc, ◌<◌, ◌≡◌, refl, ap, inl, inr, none, some, Bool, true, false, List, [], ◌∷◌, any, ◌==◌,
  ==_iff, Bool-cases, Option-cases, Map, lookup, insert, remove, lookup-insert, lookup-remove,
  arith,
}
use limux.Remote.Controller.{Registry, connect, disconnect, reconnect}

abbrev pub told : ℕ → List ℕ → Bool
told t stopped = any (λ s. s == t) stopped

-- Of the threads numbered below a bound, each is in the registry for one workspace or has been told
-- to stop, and not both.
pub record IsKept (n : ℕ) (r : Registry) : Type 0 where
  pub runs : (ws t : ℕ) → lookup ws r.running ≡ some t → (t < n) × (told t r.stopped ≡ false)
  pub found : (t : ℕ) → t < n → told t r.stopped ≡ false → (ws : ℕ) × (lookup ws r.running ≡ some t)
  pub one_owner :
      (ws ws' t : ℕ) → lookup ws r.running ≡ some t → lookup ws' r.running ≡ some t → ws ≡ ws'
  pub known : (t : ℕ) → told t r.stopped ≡ true → t < n

disconnect-none : (ws : ℕ) (r : Registry) → lookup ws r.running ≡ none → disconnect ws r ≡ r
unfolding disconnect
disconnect-none ws r e = rw (disconnect, e) refl

disconnect-some :
    (ws thread : ℕ) (r : Registry)
    → lookup ws r.running ≡ some thread
    → disconnect ws r ≡ record r { running = remove ws r.running; stopped = thread ∷ r.stopped }
unfolding disconnect
disconnect-some ws thread r e = rw (disconnect, e) refl

-- Entries with different values have different keys.
other_key :
    (k j v w : ℕ) (m : Map ℕ)
    → lookup k m ≡ some v
    → lookup j m ≡ some w
    → (v == w) ≡ false
    → (k == j) ≡ false
other_key k j v w m e f h = elim (Bool-cases (k == j)) [
  | inl same ↦
      let z : lookup k m ≡ lookup j m = ap (λ x. lookup x m) ((==_iff k j).0 same) in
      absurd (ground arith)
  | inr other ↦ other
]

stop-IsKept :
    (n ws thread : ℕ) (r : Registry)
    → lookup ws r.running ≡ some thread
    → IsKept n r
    → IsKept n (record r { running = remove ws r.running; stopped = thread ∷ r.stopped })
stop-IsKept n ws thread r e v = record {
  runs = λ w t h. ground (arith, lookup-remove ws w r.running, v.runs w t, v.one_owner ws w t);
  found = λ t l h. elim (Bool-cases (thread == t)) [
    | inl same ↦ absurd (ground arith)
    | inr other ↦
        let (w, at) = v.found t l (ground arith) in
        let keep : (ws == w) ≡ false = other_key ws w thread t r.running e at other in
        (w, ground (arith, lookup-remove ws w r.running))
  ];
  one_owner = λ w w' t h k.
      ground
        (arith, lookup-remove ws w r.running, lookup-remove ws w' r.running, v.one_owner w w' t);
  known = λ t h. ground (arith, v.known t, v.runs ws thread e);
}

disconnect-IsKept : (n ws : ℕ) (r : Registry) → IsKept n r → IsKept n (disconnect ws r)
disconnect-IsKept n ws r v = elim (Option-cases (lookup ws r.running)) [
  | inl e ↦ rw (disconnect-none ws r e) v
  | inr (thread, e) ↦ rw (disconnect-some ws thread r e) (stop-IsKept n ws thread r e v)
]

lookup-disconnect : (ws : ℕ) (r : Registry) → lookup ws (disconnect ws r).running ≡ none
lookup-disconnect ws r = elim (Option-cases (lookup ws r.running)) [
  | inl e ↦ rw (disconnect-none ws r e) e
  | inr (thread, e) ↦
      rw (disconnect-some ws thread r e) (ground (arith, lookup-remove ws ws r.running))
]

no_key : (k j w : ℕ) (m : Map ℕ) → lookup k m ≡ none → lookup j m ≡ some w → (k == j) ≡ false
no_key k j w m e f = elim (Bool-cases (k == j)) [
  | inl same ↦
      let z : lookup k m ≡ lookup j m = ap (λ x. lookup x m) ((==_iff k j).0 same) in
      absurd (ground arith)
  | inr other ↦ other
]

start-IsKept :
    (n ws : ℕ) (r : Registry)
    → lookup ws r.running ≡ none
    → IsKept n r
    → IsKept (suc n) (record r { running = insert ws n r.running })
start-IsKept n ws r e v = record {
  runs = λ w t h. ground (arith, lookup-insert ws w n r.running, v.runs w t, v.known n);
  found = λ t l h. elim (Bool-cases (t == n)) [
    | inl new ↦ (ws, ground (arith, lookup-insert ws ws n r.running))
    | inr old ↦
        let (w, at) = v.found t (ground arith) h in
        let apart : (ws == w) ≡ false = no_key ws w t r.running e at in
        (w, ground (arith, lookup-insert ws w n r.running))
  ];
  one_owner = λ w w' t h k. ground (
    arith,
    lookup-insert ws w n r.running,
    lookup-insert ws w' n r.running,
    v.one_owner w w' t,
    v.runs w t,
    v.runs w' t,
  );
  known = λ t h. omega (arith, v.known t h);
}

-- What the window asks of the controller.
pub data Request : Type 0 where
  connects disconnects reconnects : (ws_id : ℕ) → Request

-- Each connect spawns the thread with the next number.
unfoldable pub serve_all : List Request → ℕ × Registry → ℕ × Registry
serve_all [] (n, r) = (n, r)
serve_all (connects ws ∷ rest) (n, r) = serve_all rest (suc n, connect ws n r)
serve_all (reconnects ws ∷ rest) (n, r) = serve_all rest (suc n, reconnect ws n r)
serve_all (disconnects ws ∷ rest) (n, r) = serve_all rest (n, disconnect ws r)

connect-IsKept : (n ws : ℕ) (r : Registry) → IsKept n r → IsKept (suc n) (connect ws n r)
unfolding connect
connect-IsKept n ws r v =
    start-IsKept n ws (disconnect ws r) (lookup-disconnect ws r) (disconnect-IsKept n ws r v)

-- From a registry that is kept, any sequence of connects, disconnects and reconnects keeps it so:
-- each thread spawned is in the registry, for one workspace, or has been told to stop, and not
-- both.
pub serve_all-IsKept :
    (requests : List Request) (n : ℕ) (r : Registry)
    → IsKept n r
    → IsKept (serve_all requests (n, r)).0 (serve_all requests (n, r)).1
unfolding serve_all reconnect
serve_all-IsKept [] n r v = v
serve_all-IsKept (connects ws ∷ rest) n r v =
    serve_all-IsKept rest (suc n) (connect ws n r) (connect-IsKept n ws r v)
serve_all-IsKept (reconnects ws ∷ rest) n r v =
    serve_all-IsKept rest (suc n) (reconnect ws n r)
      (connect-IsKept n ws (disconnect ws r) (disconnect-IsKept n ws r v))
serve_all-IsKept (disconnects ws ∷ rest) n r v =
    serve_all-IsKept rest n (disconnect ws r) (disconnect-IsKept n ws r v)
