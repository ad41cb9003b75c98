-- ===== src/Remote/Foreground.antt =====
-- Which processes are in the foreground of a terminal for `check_pid` of
-- app/src/remote/ssh_detect.rs, in terms of the text of `stat`.
use limux.Prelude.{
  ℕ, ◌≡◌, ◌≢◌, ◌↔◌, refl, ap, sym, ◌∙◌, inl, inr, true, false, some, List, [], ◌∷◌, ◌++◌, ◌==◌,
  ==_ne, ==_of_ne, ==_refl, Bool-cases, Option-cases, arith, Text, contains, last_part,
  last_part-split, contains-append, last_part-append, split_whitespace, drop, get_elem?,
  get_elem?-lt, parse_uint, ltb, length,
}
use limux.Remote.Detect.{u32_max, i32_max, parsed_at, stat_fields, is_foreground}

-- The field is a number within the bound.
abbrev pub NumberAt : ℕ → List Text → ℕ → ℕ → Type 0
NumberAt bound fields i n =
    (f : Text) × (get_elem? fields i ≡ some f) × (parse_uint bound f ≡ some n)

-- Behind the last parenthesis and one more character, the third field is the process group, which
-- is not zero, the fifth is the terminal, and the sixth, its foreground group, is the same group.
pub record Foreground (stat : Text) (tty_nr : ℕ) : Type 0 where
  pub head : Text
  pub tail : Text
  pub shape : stat ≡ head ++ 41 ∷ tail
  pub last : contains 41 tail ≡ false
  pub group : ℕ
  pub group_field : NumberAt i32_max (split_whitespace (drop 1 tail)) 2 group
  pub tty_field : NumberAt u32_max (split_whitespace (drop 1 tail)) 4 tty_nr
  pub front_field : NumberAt i32_max (split_whitespace (drop 1 tail)) 5 group
  pub not_zero : group ≢ 0

parsed_at_iff :
    (bound : ℕ) (fields : List Text) (i n : ℕ)
    → (parsed_at bound fields i ≡ some n) ↔ NumberAt bound fields i n
parsed_at_iff bound fields i n = (
  λ h. elim (Option-cases (get_elem? fields i)) [
    | inl e ↦ absurd (ground arith)
    | inr (f, e) ↦ (f, e, ground arith)
  ],
  λ (f, e, g). ground arith,
)

fields-same :
    (tail : Text)
    → elim tail [ [] ↦ [] | c ∷ cs ↦ split_whitespace cs ] ≡ split_whitespace (drop 1 tail)
fields-same [] = refl
fields-same (c ∷ cs) = refl

foreground-some :
    (fields : List Text) (tty_nr : ℕ)
    → is_foreground fields tty_nr ≡ true
    → (group : ℕ) × NumberAt i32_max fields 2 group
      × NumberAt u32_max fields 4 tty_nr
      × NumberAt i32_max fields 5 group
      × (group ≢ 0)
foreground-some fields tty_nr h = elim (Bool-cases (ltb (length fields) 6)) [
  | inl e ↦ absurd (ground arith)
  | inr e ↦ elim (Option-cases (parsed_at i32_max fields 2)) [
    | inl a ↦ absurd (ground arith)
    | inr (g, a) ↦ elim (Option-cases (parsed_at u32_max fields 4)) [
      | inl b ↦ absurd (ground arith)
      | inr (t, b) ↦ elim (Option-cases (parsed_at i32_max fields 5)) [
        | inl c ↦ absurd (ground arith)
        | inr (k, c) ↦
            let same_tty : t ≡ tty_nr = ground arith in
            let same_group : k ≡ g = ground arith in
            let not_zero : (g == 0) ≡ false = ground arith in
            (
              g,
              (parsed_at_iff i32_max fields 2 g).0 a,
              (parsed_at_iff u32_max fields 4 tty_nr).0 (b ∙ ap (λ n. some n) same_tty),
              (parsed_at_iff i32_max fields 5 g).0 (c ∙ ap (λ n. some n) same_group),
              ==_ne g 0 not_zero,
            )
      ]
    ]
  ]
]

pub some-foreground :
    (fields : List Text) (tty_nr group : ℕ)
    → NumberAt i32_max fields 2 group
    → NumberAt u32_max fields 4 tty_nr
    → NumberAt i32_max fields 5 group
    → group ≢ 0
    → is_foreground fields tty_nr ≡ true
some-foreground fields tty_nr group a b c n =
    let l = get_elem?-lt fields 5 c.1 in
    let a' = (parsed_at_iff i32_max fields 2 group).1 a in
    let b' = (parsed_at_iff u32_max fields 4 tty_nr).1 b in
    let c' = (parsed_at_iff i32_max fields 5 group).1 c in
    let k = ==_of_ne group 0 n in ground (arith, ==_refl group, ==_refl tty_nr)

pub is_foreground-Foreground :
    (stat : Text) (fields : List Text) (tty_nr : ℕ)
    → stat_fields stat ≡ some fields
    → is_foreground fields tty_nr ≡ true
    → Foreground stat tty_nr
is_foreground-Foreground stat fields tty_nr e h = elim (Bool-cases (contains 41 stat)) [
  | inr f ↦ absurd (ground arith)
  | inl f ↦
      let (head, shape, last) = last_part-split 41 stat f in
      let z : fields ≡ elim (last_part 41 stat) [ [] ↦ [] | c ∷ cs ↦ split_whitespace cs ] =
        ground arith in
      let (g, a, b, c, n) =
        foreground-some (split_whitespace (drop 1 (last_part 41 stat))) tty_nr
          (ap (λ fs. is_foreground fs tty_nr) (sym (z ∙ fields-same (last_part 41 stat))) ∙ h) in
      record {
        head = head;
        tail = last_part 41 stat;
        shape = shape;
        last = last;
        group = g;
        group_field = a;
        tty_field = b;
        front_field = c;
        not_zero = n;
      }
]

pub Foreground-fields :
    (stat : Text) (tty_nr : ℕ)
    → (v : Foreground stat tty_nr) → stat_fields stat ≡ some (split_whitespace (drop 1 v.tail))
Foreground-fields stat tty_nr v =
    let a : contains 41 stat ≡ true = ap (contains 41) v.shape ∙ contains-append 41 v.head v.tail in
    let b : last_part 41 stat ≡ v.tail =
      ap (last_part 41) v.shape ∙ last_part-append 41 v.head v.tail v.last in
    rw (a, b) (ap (λ fs. some fs) (fields-same v.tail))
