-- ===== src/Ports/Descendants.antt =====
-- `collect_descendant_pids` of app/src/port_detect.rs. The map from a process to its parent is given
-- as its entries in the order of the iteration; the queue is given from its last element on, which
-- is where the code pops.
use limux.Prelude.{
  ℕ, zero, suc, ◌+◌, ◌≤◌, ◌<◌, ◌≡◌, refl, ap, sym, inl, inr, Option, none, some, List, [], ◌∷◌,
  ◌++◌, ◌==◌, ==_iff, if◌then◌else◌, Bool-cases, arith,
}

abbrev pub Parents : Type 0
Parents = List (ℕ × ℕ)

unfoldable pub children : ℕ → Parents → List ℕ
children parent [] = []
children parent ((pid, ppid) ∷ entries) =
    let rest = children parent entries in if ppid == parent then pid ∷ rest else rest

abbrev pub push_all : List ℕ → List ℕ → List ℕ
push_all [] queue = queue
push_all (pid ∷ pids) queue = push_all pids (pid ∷ queue)

-- The loop on fuel, one for each process that is popped.
unfoldable pub collect : ℕ → Parents → List ℕ → List ℕ → Option (List ℕ)
collect fuel parent_of [] result = some result
collect zero parent_of (parent ∷ queue) result = none
collect (suc fuel) parent_of (parent ∷ queue) result =
    collect fuel parent_of (push_all (children parent parent_of) queue)
      (result ++ children parent parent_of)

unfoldable pub collect_descendant_pids : ℕ → Parents → ℕ → Option (List ℕ)
collect_descendant_pids fuel parent_of root = collect fuel parent_of (root ∷ []) (root ∷ [])

-- Every process is ranked below its parent.
abbrev pub Ranked : (ℕ → ℕ) → Parents → Type 0
Ranked rank [] = Unit {0}
Ranked rank ((pid, ppid) ∷ entries) = (rank pid < rank ppid) × Ranked rank entries

-- How many processes are popped for one, with so many generations.
pub total : (ℕ → ℕ) → List ℕ → ℕ
total f [] = 0
total f (x ∷ xs) = f x + total f xs

pub weight : Parents → ℕ → ℕ → ℕ
unfolding total
weight parent_of zero p = 1
weight parent_of (suc n) p = suc (total (weight parent_of n) (children p parent_of))

-- All of the list are ranked at most so high.
abbrev pub Below : (ℕ → ℕ) → ℕ → List ℕ → Type 0
Below rank n [] = Unit {0}
Below rank n (x ∷ xs) = (rank x ≤ n) × Below rank n xs

total-push_all : (f : ℕ → ℕ) (xs ys : List ℕ) → total f (push_all xs ys) ≡ total f xs + total f ys
unfolding total
total-push_all f [] ys = omega arith
total-push_all f (x ∷ xs) ys = omega (arith, total-push_all f xs (x ∷ ys))

Below-push_all :
    (rank : ℕ → ℕ) (n : ℕ) (xs ys : List ℕ)
    → Below rank n xs
    → Below rank n ys
    → Below rank n (push_all xs ys)
Below-push_all rank n [] ys h k = k
Below-push_all rank n (x ∷ xs) ys (h, hs) k = Below-push_all rank n xs (x ∷ ys) hs (h, k)

module _ (rank : ℕ → ℕ) where
  children-Below :
      (p n : ℕ) (entries : Parents)
      → Ranked rank entries
      → rank p ≤ suc n
      → Below rank n (children p entries)
  unfolding children
  children-Below p n [] r h = tt
  children-Below p n ((pid, ppid) ∷ entries) (r, rs) h = elim (Bool-cases (ppid == p)) [
    | inl e ↦
        let z : ppid ≡ p = (==_iff ppid p).0 e in
        let less : rank ppid ≤ suc n = omega (arith, ap rank z) in
        rw (children, e) (omega arith, children-Below p n entries rs h)
    | inr e ↦ rw (children, e) (children-Below p n entries rs h)
  ]

  no_children :
      (p : ℕ) (entries : Parents) → Ranked rank entries → rank p ≤ 0 → children p entries ≡ []
  unfolding children
  no_children p [] r h = refl
  no_children p ((pid, ppid) ∷ entries) (r, rs) h = elim (Bool-cases (ppid == p)) [
    | inl e ↦ let z : ppid ≡ p = (==_iff ppid p).0 e in absurd (omega (arith, ap rank z))
    | inr e ↦ rw (children, e) (no_children p entries rs h)
  ]

  total-same :
      (f g : ℕ → ℕ) (n : ℕ) (xs : List ℕ)
      → ((x : ℕ) → rank x ≤ n → f x ≡ g x)
      → Below rank n xs
      → total f xs ≡ total g xs
  unfolding total
  total-same f g n [] k b = refl
  total-same f g n (x ∷ xs) k (b, bs) = omega (arith, k x b, total-same f g n xs k bs)

  module _ (parent_of : Parents) (ranked : Ranked rank parent_of) where
    -- More generations than a process has make no difference.
    weight-suc : (n p : ℕ) → rank p ≤ n → weight parent_of (suc n) p ≡ weight parent_of n p
    unfolding weight total
    weight-suc zero p h = rw (weight, no_children p parent_of ranked h) refl
    weight-suc (suc n) p h = ap suc (
        total-same (weight parent_of (suc n)) (weight parent_of n) n (children p parent_of)
          (weight-suc n) (children-Below p n parent_of ranked h))

    weight-children :
        (n p : ℕ)
        → rank p ≤ n
        → weight parent_of n p ≡ suc (total (weight parent_of n) (children p parent_of))
    unfolding weight total
    weight-children zero p h = rw (no_children p parent_of ranked h) refl
    weight-children (suc n) p h = ap suc (
        total-same (weight parent_of n) (weight parent_of (suc n)) n (children p parent_of)
          (λ x l. sym (weight-suc n x l)) (children-Below p n parent_of ranked h))

    children-Below_same : (n p : ℕ) → rank p ≤ n → Below rank n (children p parent_of)
    children-Below_same n p h = children-Below p n parent_of ranked (omega arith)

    pub collect-ends :
        (fuel n : ℕ) (queue result : List ℕ)
        → Below rank n queue
        → total (weight parent_of n) queue ≤ fuel
        → (found : List ℕ) × (collect fuel parent_of queue result ≡ some found)
    unfolding collect total
    collect-ends fuel n [] result b h = (result, refl)
    collect-ends zero n (p ∷ queue) result (b, bs) h = absurd (omega (arith, weight-children n p b))
    collect-ends (suc fuel) n (p ∷ queue) result (b, bs) h =
        let kids = children p parent_of in
        collect-ends fuel n (push_all kids queue) (result ++ kids)
          (Below-push_all rank n kids queue (children-Below_same n p b) bs)
          (omega (arith, total-push_all (weight parent_of n) kids queue, weight-children n p b))
