-- ===== src/Ports/Attribution.antt =====
-- Where the ports of app/src/port_detect.rs go.
use limux.Prelude.{
  ℕ, ◌≤◌, ◌<◌, ◌≡◌, ◌⊎◌, ◌↔◌, same, same_iff, strip_prefix, strip_prefix-append, strip_prefix-some,
  text, sym, append_assoc, refl, ap, ◌∙◌, arith, Bool, true, false, ◌&&◌, ◌||◌, Option, none, some,
  List, [], ◌∷◌, ◌++◌, ◌==◌, ltb, leb, length, Map, lookup, lookup-insert, contains, Text,
  Bool-cases, Option-cases, inl, inr, ==_iff, ==_refl,
}
use mathlib.Core.Path.{subst}
use limux.Ports.Scan.{
  WorkspaceId, PidPorts, is_under, insert_port, insert_ports, dir_len, best_under, Claims,
  or_default, claim, claim_all,
}

contains-insert_port :
    (a p : ℕ) (set : List ℕ) → contains a (insert_port p set) ≡ ((p == a) || contains a set)
contains-insert_port a p [] = refl
contains-insert_port a p (q ∷ qs) = elim (Bool-cases (p == q)) [
  | inl e ↦ rw e ground arith
  | inr e ↦ elim (Bool-cases (ltb p q)) [
    | inl l ↦ rw (e, l) refl
    | inr l ↦ rw (e, l) ground (arith, contains-insert_port a p qs)
  ]
]

contains-insert_ports :
    (a : ℕ) (ps set : List ℕ) → contains a (insert_ports ps set) ≡ (contains a ps || contains a set)
contains-insert_ports a [] set = refl
contains-insert_ports a (p ∷ ps) set =
    ground (arith, contains-insert_ports a ps (insert_port p set), contains-insert_port a p set)

-- The path is the directory, or goes on behind it with a slash.
abbrev pub Under : Text → Text → Type 0
Under cwd dir = (cwd ≡ dir) ⊎ ((rest : Text) × (cwd ≡ dir ++ 47 ∷ rest))

is_under_iff : (cwd dir : Text) → (is_under cwd dir ≡ true) ↔ Under cwd dir
unfolding is_under
is_under_iff cwd dir =
    let (to, from) = same_iff cwd dir in
    (
      λ h. elim (Bool-cases (same cwd dir)) [
        | inl e ↦ inl (to e)
        | inr e ↦ elim (Option-cases (strip_prefix (dir ++ text "/") cwd)) [
          | inl n ↦ absurd (ground arith)
          | inr (rest, f) ↦ inr (
            rest,
            strip_prefix-some (dir ++ text "/") cwd rest f ∙ append_assoc dir (text "/") rest,
          )
        ]
      ],
      λ u. elim u [
        | inl e ↦ let z = from e in ground arith
        | inr (rest, e) ↦
            let z : strip_prefix (dir ++ text "/") cwd ≡ some rest =
              ap (strip_prefix (dir ++ text "/")) (e ∙ sym (append_assoc dir (text "/") rest))
              ∙ strip_prefix-append (dir ++ text "/") rest in
            ground arith
      ],
    )

-- Some directory of the list that the path is under is longer than the number.
abbrev pub Longer : Text → ℕ → List (WorkspaceId × Text) → Type 0
Longer cwd n [] = ⊥
Longer cwd n ((w, dir) ∷ ws) = (Under cwd dir × (n < length dir)) ⊎ Longer cwd n ws

-- The workspace's directory is the path's, or one above it, and stands in the list.
abbrev pub Offers : Text → WorkspaceId → Text → List (WorkspaceId × Text) → Type 0
Offers cwd w dir [] = ⊥
Offers cwd w dir ((v, d) ∷ ws) = ((v ≡ w) × (d ≡ dir) × Under cwd dir) ⊎ Offers cwd w dir ws

-- The ports that a workspace has.
abbrev pub has_port : Map (List ℕ) → WorkspaceId → ℕ → Bool
has_port m w p = contains p (or_default (lookup w m))

or_right : (a b : Bool) → b ≡ true → (a || b) ≡ true
or_right a b h = ground arith

claim-keeps :
    (ws : List (WorkspaceId × Text)) (acc : Claims) (x : PidPorts) (w : WorkspaceId) (p : ℕ)
    → has_port acc.0 w p ≡ true
    → has_port (claim ws acc x).0 w p ≡ true
unfolding claim
claim-keeps ws (m, claimed) (cwd, ports) w p h = elim (Option-cases (best_under cwd ws none)) [
  | inl e ↦ rw (claim, e) h
  | inr ((v, dir), e) ↦
      rw (claim, e, lookup-insert v w (insert_ports ports (or_default (lookup v m))) m)
        elim (Bool-cases (v == w)) [
          | inl s ↦
              rw (s, contains-insert_ports p ports (or_default (lookup v m)))
                (or_right (contains p ports) (contains p (or_default (lookup v m)))
                  (ap (λ k. contains p (or_default (lookup k m))) ((==_iff v w).0 s) ∙ h))
          | inr n ↦ rw n h
        ]
]

claim_all-keeps :
    (ws : List (WorkspaceId × Text)) (acc : Claims) (xs : List PidPorts) (w : WorkspaceId) (p : ℕ)
    → has_port acc.0 w p ≡ true
    → has_port (claim_all ws acc xs).0 w p ≡ true
unfolding claim_all
claim_all-keeps ws acc [] w p h = h
claim_all-keeps ws acc (x ∷ xs) w p h =
    claim_all-keeps ws (claim ws acc x) xs w p (claim-keeps ws acc x w p h)

claim-adds :
    (ws : List (WorkspaceId × Text)) (acc : Claims) (cwd dir : Text) (ports : List ℕ)
    → (w : WorkspaceId) (p : ℕ) → best_under cwd ws none ≡ some (w, dir)
    → contains p ports ≡ true
    → has_port (claim ws acc (cwd, ports)).0 w p ≡ true
unfolding claim
claim-adds ws (m, claimed) cwd dir ports w p e h =
    rw
      (
        claim,
        e,
        lookup-insert w w (insert_ports ports (or_default (lookup w m))) m,
        ==_refl w,
        contains-insert_ports p ports (or_default (lookup w m)),
        h,
      )
      refl

-- Every port of a process for which a workspace is chosen is among that workspace's ports in the
-- end, whatever processes come before and after it.
pub claim_all-attributes :
    (ws : List (WorkspaceId × Text)) (acc : Claims) (xs ys : List PidPorts) (cwd dir : Text)
    → (ports : List ℕ) (w : WorkspaceId) (p : ℕ) → best_under cwd ws none ≡ some (w, dir)
    → contains p ports ≡ true
    → has_port (claim_all ws acc (xs ++ (cwd, ports) ∷ ys)).0 w p ≡ true
unfolding claim_all
claim_all-attributes ws acc [] ys cwd dir ports w p e h =
    claim_all-keeps ws (claim ws acc (cwd, ports)) ys w p (claim-adds ws acc cwd dir ports w p e h)
claim_all-attributes ws acc (x ∷ xs) ys cwd dir ports w p e h =
    claim_all-attributes ws (claim ws acc x) xs ys cwd dir ports w p e h

-- What the choice of a workspace for a path comes to.
abbrev pub Chosen :
    Text
    → List (WorkspaceId × Text)
    → Option (WorkspaceId × Text)
    → Option (WorkspaceId × Text)
    → Type 0
Chosen cwd ws best none = (best ≡ none) × ((w : WorkspaceId) (dir : Text) → ¬ Offers cwd w dir ws)
Chosen cwd ws best (some (w, dir)) =
    ((best ≡ some (w, dir)) ⊎ Offers cwd w dir ws)
    × (dir_len best ≤ length dir)
    × ¬ Longer cwd (length dir) ws

took-Chosen :
    (cwd : Text) (w : WorkspaceId) (dir : Text) (ws : List (WorkspaceId × Text))
    → (best r : Option (WorkspaceId × Text)) → is_under cwd dir ≡ true
    → dir_len best ≤ length dir
    → Chosen cwd ws (some (w, dir)) r
    → Chosen cwd ((w, dir) ∷ ws) best r
took-Chosen cwd w dir ws best none u h (e, nothing) = absurd (ground arith)
took-Chosen cwd w dir ws best (some (v, d)) u h (from, le, least) = (
  inr (elim from [
    | inl e ↦
        let z : dir ≡ d = ground arith in
        inl (ground arith, ground arith, subst (Under cwd) z ((is_under_iff cwd dir).0 u))
    | inr o ↦ inr o
  ]),
  omega (arith, le),
  λ l. elim l [ inl (u', lt) ↦ omega (arith, le) | inr l' ↦ least l' ],
)

left-Chosen :
    (cwd : Text) (w : WorkspaceId) (dir : Text) (ws : List (WorkspaceId × Text))
    → (best r : Option (WorkspaceId × Text))
    → (is_under cwd dir && leb (dir_len best) (length dir)) ≡ false
    → Chosen cwd ws best r
    → Chosen cwd ((w, dir) ∷ ws) best r
left-Chosen cwd w dir ws best none h (e, nothing) = (
  e,
  λ v d o. elim o [
    | inl (a, b, u) ↦ let z = (is_under_iff cwd dir).1 (subst (Under cwd) (sym b) u) in ground arith
    | inr o' ↦ nothing v d o'
  ],
)
left-Chosen cwd w dir ws best (some (v, d)) h (from, le, least) = (
  elim from [ inl e ↦ inl e | inr o ↦ inr (inr o) ],
  le,
  λ l. elim l [
    | inl (u, lt) ↦ let z = (is_under_iff cwd dir).1 u in ground arith
    | inr l' ↦ least l'
  ],
)

-- The choice of a workspace for a process takes one whose directory is that of the process, or what
-- that of the process has in front of a slash, no other such directory of the list is longer, and
-- its length is no less than that of the choice so far; it chooses none only if it started from
-- none and the list has no such directory.
pub best_under-Chosen :
    (cwd : Text) (ws : List (WorkspaceId × Text)) (best : Option (WorkspaceId × Text))
    → Chosen cwd ws best (best_under cwd ws best)
unfolding best_under
best_under-Chosen cwd [] none = (refl, λ w dir o. o)
best_under-Chosen cwd [] (some (w, dir)) = (inl refl, omega arith, λ l. l)
best_under-Chosen cwd ((w, dir) ∷ ws) best =
    elim (Bool-cases (is_under cwd dir && leb (dir_len best) (length dir))) [
      | inl take ↦ rw take (
          took-Chosen cwd w dir ws best (best_under cwd ws (some (w, dir))) (ground arith)
            (ground arith) (best_under-Chosen cwd ws (some (w, dir))))
      | inr leave ↦ rw leave (
          left-Chosen cwd w dir ws best (best_under cwd ws best) leave
            (best_under-Chosen cwd ws best))
    ]
