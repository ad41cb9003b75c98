-- ===== src/Workspace/Cuts.antt =====
-- Lists in two parts, for the tab moves of app/src/window.rs.
use limux.Prelude.{
  ℕ, suc, ◌≤◌, ◌≡◌, refl, arith, Bool, true, false, some, List, [], ◌∷◌, ◌++◌, length, any,
  position, remove_at, get_elem?, Bool-cases, Option-cases, inl, inr, ap, ◌∙◌,
}
use limux.Workspace.Order.{insert_at}

module _ {ℓ} {A : Type ℓ} where
  -- The list is cut at its first element that passes the test.
  pub record Cut (f : A → Bool) (xs : List A) (i : ℕ) : Type ℓ where
    pub front : List A
    pub item : A
    pub back : List A
    pub whole : xs ≡ front ++ item ∷ back
    pub size : length front ≡ i
    pub here : f item ≡ true
    pub first : any f front ≡ false

  pub position-Cut : (f : A → Bool) (xs : List A) (i : ℕ) → position f xs ≡ some i → Cut f xs i
  position-Cut f [] i e = absurd (ground arith)
  position-Cut f (x ∷ xs) i e = elim (Bool-cases (f x)) [
    | inl h ↦ record {
      front = [];
      item = x;
      back = xs;
      whole = refl;
      size = ground arith;
      here = h;
      first = refl;
    }
    | inr h ↦ elim (Option-cases (position f xs)) [
      | inl n ↦ absurd (ground arith)
      | inr (j, g) ↦
          let c = position-Cut f xs j g in
          record {
            front = x ∷ c.front;
            item = c.item;
            back = c.back;
            whole = ap (λ ys. x ∷ ys) c.whole;
            size = ap suc c.size ∙ ground arith;
            here = c.here;
            first = ground (arith, c.first);
          }
    ]
  ]

  pub append-cut :
      (a x f y : List A)
      → a ++ x ≡ f ++ y
      → length a ≤ length f
      → (b : List A) × (f ≡ a ++ b) × (x ≡ b ++ y)
  append-cut [] x f y e h = (f, refl, e)
  append-cut (c ∷ a) x [] y e h = absurd (omega arith)
  append-cut (c ∷ a) x (d ∷ f) y e h =
      let (b, p, q) = append-cut a x f y (ground arith) (omega arith) in (b, ground arith, q)

  pub remove_at-append : (a r : List A) (t : A) → remove_at (a ++ t ∷ r) (length a) ≡ a ++ r
  remove_at-append [] r t = refl
  remove_at-append (c ∷ a) r t = ap (λ xs. c ∷ xs) (remove_at-append a r t)

  pub insert_at-append : (a r : List A) (t : A) → insert_at (a ++ r) (length a) t ≡ a ++ t ∷ r
  insert_at-append [] r t = refl
  insert_at-append (c ∷ a) r t = ap (λ xs. c ∷ xs) (insert_at-append a r t)

  pub get_elem?-append : (a r : List A) (t : A) → get_elem? (a ++ t ∷ r) (length a) ≡ some t
  get_elem?-append [] r t = refl
  get_elem?-append (c ∷ a) r t = get_elem?-append a r t
