-- ===== src/Ports/Reached.antt =====
-- Which processes `collect_descendant_pids` of app/src/port_detect.rs returns.
use limux.Prelude.{
  ℕ, zero, suc, ◌≡◌, refl, ap, sym, ◌∙◌, ◌↔◌, ◌⊎◌, inl, inr, some, Bool, true, false, ◌||◌, List,
  [], ◌∷◌, ◌++◌, ◌==◌, ==_iff, ==_refl, any, Bool-cases, arith,
}
use limux.Ports.Descendants.{
  Parents, children, push_all, collect, collect_descendant_pids, Ranked, weight, total,
  collect-ends,
}

abbrev pub has : ℕ → List ℕ → Bool
has p xs = any (λ x. x == p) xs

-- The map from a process to its parent has the entry.
abbrev pub IsChild : ℕ → ℕ → Parents → Type 0
IsChild p parent [] = ⊥
IsChild p parent ((pid, ppid) ∷ entries) = ((pid ≡ p) × (ppid ≡ parent)) ⊎ IsChild p parent entries

-- A process is reached from the root when it is the root or the map gives it a parent that is
-- reached.
pub data Reaches (parent_of : Parents) (root : ℕ) : ℕ → Type 0 where
  itself : (p : ℕ) → p ≡ root → Reaches parent_of root p
  below :
      (p parent : ℕ)
      → IsChild p parent parent_of
      → Reaches parent_of root parent
      → Reaches parent_of root p

has-append : (p : ℕ) (xs ys : List ℕ) → has p (xs ++ ys) ≡ (has p xs || has p ys)
has-append p [] ys = refl
has-append p (x ∷ xs) ys = ground (arith, has-append p xs ys)

has-push_all : (p : ℕ) (xs ys : List ℕ) → has p (push_all xs ys) ≡ (has p xs || has p ys)
has-push_all p [] ys = refl
has-push_all p (x ∷ xs) ys = ground (arith, has-push_all p xs (x ∷ ys))

has-children_iff :
    (p parent : ℕ) (entries : Parents)
    → (has p (children parent entries) ≡ true) ↔ IsChild p parent entries
unfolding children
has-children_iff p parent [] = (λ h. absurd (ground arith), λ h. absurd h)
has-children_iff p parent ((pid, ppid) ∷ entries) =
    let (to, from) = has-children_iff p parent entries in
    elim (Bool-cases (ppid == parent)) [
      | inl e ↦ (
        λ h. elim (Bool-cases (pid == p)) [
          | inl f ↦ inl ((==_iff pid p).0 f, (==_iff ppid parent).0 e)
          | inr f ↦ inr (to (ground arith))
        ],
        λ h. elim h [
          | inl (a, b) ↦ let z = ==_refl p in ground arith
          | inr i ↦ let z = from i in ground arith
        ],
      )
      | inr e ↦ (
        λ h. inr (to (ground arith)),
        λ h. elim h [
          | inl (a, b) ↦ let z = ==_refl parent in absurd (ground arith)
          | inr i ↦ let z = from i in ground arith
        ],
      )
    ]

or-cases : (a b : Bool) → (a || b) ≡ true → (a ≡ true) ⊎ (b ≡ true)
or-cases true b h = inl refl
or-cases false b h = inr h

module _ (parent_of : Parents) (root : ℕ) where
  collect-Reaches :
      (fuel : ℕ) (queue result found : List ℕ)
      → collect fuel parent_of queue result ≡ some found
      → ((p : ℕ) → has p queue ≡ true → Reaches parent_of root p)
      → ((p : ℕ) → has p result ≡ true → Reaches parent_of root p)
      → (p : ℕ) → has p found ≡ true
      → Reaches parent_of root p
  unfolding collect
  collect-Reaches fuel [] result found e q r p h = r p (ground arith)
  collect-Reaches zero (x ∷ queue) result found e q r p h = absurd (ground arith)
  collect-Reaches (suc fuel) (x ∷ queue) result found e q r p h =
      let kids = children x parent_of in
      let kid = λ (c : ℕ) (k : has c kids ≡ true).
        below c x ((has-children_iff c x parent_of).0 k) (q x (ground (arith, ==_refl x))) in
      collect-Reaches fuel (push_all kids queue) (result ++ kids) found e
        (λ c k. elim (or-cases (has c kids) (has c queue) (sym (has-push_all c kids queue) ∙ k)) [
          | inl a ↦ kid c a
          | inr b ↦ q c (ground arith)
        ])
        (λ c k. elim (or-cases (has c result) (has c kids) (sym (has-append c result kids) ∙ k)) [
          | inl a ↦ r c a
          | inr b ↦ kid c b
        ])
        p h

  collect-all_children :
      (fuel : ℕ) (queue result found : List ℕ)
      → collect fuel parent_of queue result ≡ some found
      → ((p q : ℕ)
          → has p result ≡ true
          → has p queue ≡ false
          → has q (children p parent_of) ≡ true
          → has q result ≡ true)
      → ((p q : ℕ) → has p found ≡ true → has q (children p parent_of) ≡ true → has q found ≡ true)
        × ((p : ℕ) → has p result ≡ true → has p found ≡ true)
  unfolding collect
  collect-all_children fuel [] result found e inv =
      let z : found ≡ result = ground arith in rw z (λ p q h k. inv p q h refl k, λ p h. h)
  collect-all_children zero (x ∷ queue) result found e inv = absurd (ground arith)
  collect-all_children (suc fuel) (x ∷ queue) result found e inv =
      let kids = children x parent_of in
      let (closed, more) =
        collect-all_children fuel (push_all kids queue) (result ++ kids) found e λ p q h n k.
          elim (Bool-cases (x == p)) [
            | inl same ↦
                let z : x ≡ p = (==_iff x p).0 same in
                let k' : has q kids ≡ true = ap (λ t. has q (children t parent_of)) z ∙ k in
                ground (arith, has-append q result kids)
            | inr other ↦ ground (
              arith,
              has-append q result kids,
              has-append p result kids,
              has-push_all p kids queue,
              inv p q,
            )
          ] in
      (closed, λ p h. more p (ground (arith, has-append p result kids)))

  found_all :
      (found : List ℕ)
      → ((p q : ℕ) → has p found ≡ true → has q (children p parent_of) ≡ true → has q found ≡ true)
      → has root found ≡ true
      → (p : ℕ) → Reaches parent_of root p
      → has p found ≡ true
  found_all found closed at p (itself q e) = ap (λ t. has t found) e ∙ at
  found_all found closed at p (below q parent k r) =
      closed parent q (found_all found closed at parent r)
        ((has-children_iff q parent parent_of).1 k)

  -- Where every process can be ranked below its parent, the walk over the descendants of a process
  -- comes to its end, and it returns exactly the processes that are reached from that one by
  -- entries of the map from a process to its parent.
  pub collect_descendant_pids-Reaches :
      (rank : ℕ → ℕ)
      → Ranked rank parent_of
      → (fuel : ℕ) × (found : List ℕ) × (collect_descendant_pids fuel parent_of root ≡ some found)
        × ((p : ℕ) → (has p found ≡ true) ↔ Reaches parent_of root p)
  unfolding collect_descendant_pids
  collect_descendant_pids-Reaches rank ranked =
      let n = rank root in
      let fuel = total (weight parent_of n) (root ∷ []) in
      let (found, e) =
        collect-ends rank parent_of ranked fuel n (root ∷ []) (root ∷ []) (omega arith, tt)
          (omega arith) in
      let start = λ (p : ℕ) (h : has p (root ∷ []) ≡ true). itself p (ground arith) in
      let (closed, more) =
        collect-all_children fuel (root ∷ []) (root ∷ []) found e
          λ p q h k l. absurd (ground arith) in
      (
        fuel,
        found,
        e,
        λ p. (
          collect-Reaches fuel (root ∷ []) (root ∷ []) found e start start p,
          found_all found closed (more root (ground (arith, ==_refl root))) p,
        ),
      )
