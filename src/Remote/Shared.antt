-- ===== src/Remote/Shared.antt =====
-- Which configurations have the same transport key.
pub mod Tests
use limux.Prelude.{
  ℕ, ◌≡◌, ◌≢◌, ◌↔◌, refl, arith, Bool, true, false, Option, none, some, List, [], ◌∷◌, ◌++◌, ◌==◌,
  ap, ◌∙◌, sym, if◌then◌else◌, Text, text, decimal, join, map, contains, Bool-cases, inl, inr,
  head?, drop, split_on, contains-digits, decimal-all_digits,
}
use mathlib.Core.List.{Perm}
use limux.Remote.Config.{RemoteConfiguration}
use limux.Remote.Transport.{
  transport_key, key_parts, sort, insert_option, text_le, port_part, identity_part, optional_part,
}
use limux.Remote.Keys.{
  AllWithout, split_on-join, decimal-same, map-same, optional_part-same, initial,
}
use limux.Remote.Sorted.{sort-same_iff}

-- A configuration none of whose texts has the character `|`.
pub record IsPlain (c : RemoteConfiguration) : Type 0 where
  pub destination : contains 124 c.destination ≡ false
  pub identity : (id : Text) → c.identity_file ≡ some id → contains 124 id ≡ false
  pub options : AllWithout 124 c.ssh_options

-- The two configurations name the same transport; only the order of the ssh options may differ.
pub record SameTransport (c d : RemoteConfiguration) : Type 0 where
  pub destination : c.destination ≡ d.destination
  pub port : c.port ≡ d.port
  pub identity : c.identity_file ≡ d.identity_file
  pub options : Perm c.ssh_options d.ssh_options

key_parts-SameTransport :
    (c d : RemoteConfiguration) → SameTransport c d → key_parts c ≡ key_parts d
unfolding key_parts
key_parts-SameTransport c d s =
    let o = (sort-same_iff c.ssh_options d.ssh_options).1 s.options in
    let e = s.destination in let p = s.port in let i = s.identity in rw (e, p, i, o) refl

port_part-head : (p : Option ℕ) (t : Text) → port_part p ≡ some t → head? t ≡ some 112
port_part-head none t e = absurd (ground arith)
port_part-head (some p) t e = ground arith

identity_part-head : (i : Option Text) (t : Text) → identity_part i ≡ some t → head? t ≡ some 105
identity_part-head none t e = absurd (ground arith)
identity_part-head (some i) t e = ground arith

port_part-same : (p q : Option ℕ) → port_part p ≡ port_part q → p ≡ q
port_part-same none none e = refl
port_part-same none (some q) e = absurd (ground arith)
port_part-same (some p) none e = absurd (ground arith)
port_part-same (some p) (some q) e =
    let a : decimal p ≡ decimal q = ground arith in ap (λ n. some n) (decimal-same p q a)

identity_part-same : (i j : Option Text) → identity_part i ≡ identity_part j → i ≡ j
identity_part-same none none e = refl
identity_part-same none (some j) e = absurd (ground arith)
identity_part-same (some i) none e = absurd (ground arith)
identity_part-same (some i) (some j) e = ground arith

-- The parts of the options.
abbrev option_parts : List Text → List Text
option_parts os = map (λ opt. text "opt=" ++ opt) os

option_parts-initial :
    (k : ℕ) (i : Option Text) (os : List Text)
    → k ≡ 112
    → initial (optional_part (identity_part i) ++ option_parts os) ≢ some k
option_parts-initial k none [] h e = ground arith
option_parts-initial k none (o ∷ os) h e = ground arith
option_parts-initial k (some i) os h e = ground arith

option_parts-no_identity : (os : List Text) → initial (option_parts os) ≢ some 105
option_parts-no_identity [] e = ground arith
option_parts-no_identity (o ∷ os) e = ground arith

key_parts-same : (c d : RemoteConfiguration) → key_parts c ≡ key_parts d → SameTransport c d
unfolding key_parts
key_parts-same c d e =
    let tail = ap (drop 1) e in
    let (p, after) =
      optional_part-same 112 (port_part c.port) (port_part d.port) _ _ (port_part-head c.port)
        (port_part-head d.port) (option_parts-initial 112 c.identity_file (sort c.ssh_options) refl)
        (option_parts-initial 112 d.identity_file (sort d.ssh_options) refl) tail in
    let (i, opts) =
      optional_part-same 105 (identity_part c.identity_file) (identity_part d.identity_file) _ _
        (identity_part-head c.identity_file) (identity_part-head d.identity_file)
        (option_parts-no_identity (sort c.ssh_options))
        (option_parts-no_identity (sort d.ssh_options)) after in
    let os =
      map-same (text "opt=") (sort c.ssh_options) (sort d.ssh_options) opts
        (λ x y h. ap (drop 4) h) in
    record {
      destination = ap (λ ps. elim (head? ps) [ none ↦ [] | some t ↦ drop 5 t ]) e;
      port = port_part-same c.port d.port p;
      identity = identity_part-same c.identity_file d.identity_file i;
      options = (sort-same_iff c.ssh_options d.ssh_options).0 os;
    }

AllWithout-insert_option :
    (k : ℕ) (o : Text) (os : List Text)
    → contains k o ≡ false
    → AllWithout k os
    → AllWithout k (insert_option o os)
unfolding insert_option
AllWithout-insert_option k o [] h w = (h, tt)
AllWithout-insert_option k o (p ∷ ps) h (v, w) = elim (Bool-cases (text_le o p)) [
  | inl e ↦ rw e (h, (v, w))
  | inr e ↦ rw e (v, AllWithout-insert_option k o ps h w)
]

AllWithout-sort : (k : ℕ) (os : List Text) → AllWithout k os → AllWithout k (sort os)
unfolding sort
AllWithout-sort k [] w = tt
AllWithout-sort k (o ∷ os) (h, w) =
    AllWithout-insert_option k o (sort os) h (AllWithout-sort k os w)

AllWithout-option_parts : (os : List Text) → AllWithout 124 os → AllWithout 124 (option_parts os)
AllWithout-option_parts [] w = tt
AllWithout-option_parts (o ∷ os) (h, w) = (h, AllWithout-option_parts os w)

AllWithout-identity :
    (i : Option Text) (os : List Text)
    → ((id : Text) → i ≡ some id → contains 124 id ≡ false)
    → AllWithout 124 os
    → AllWithout 124 (optional_part (identity_part i) ++ os)
AllWithout-identity none os h w = w
AllWithout-identity (some i) os h w = (h i refl, w)

AllWithout-port :
    (p : Option ℕ) (os : List Text)
    → AllWithout 124 os
    → AllWithout 124 (optional_part (port_part p) ++ os)
AllWithout-port none os w = w
AllWithout-port (some p) os w =
    (contains-digits 124 (decimal p) (omega arith) (decimal-all_digits p), w)

key_parts-AllWithout : (c : RemoteConfiguration) → IsPlain c → AllWithout 124 (key_parts c)
unfolding key_parts
key_parts-AllWithout c p = (
  p.destination,
  AllWithout-port c.port _ (
      AllWithout-identity c.identity_file _ p.identity (
        AllWithout-option_parts (sort c.ssh_options)
          (AllWithout-sort 124 c.ssh_options p.options))),
)

split_on-parts :
    (c : RemoteConfiguration)
    → IsPlain c
    → split_on 124 (join (text "|") (key_parts c)) ≡ key_parts c
unfolding key_parts
split_on-parts c p = split_on-join 124 _ _ (key_parts-AllWithout c p)

-- For two configurations none of whose destinations, identity files and ssh options has the
-- character `|`, the transport keys are equal exactly when the destinations, the ports and the
-- identity files are and the ssh options are the same up to their order.
pub transport_key-SameTransport :
    (c d : RemoteConfiguration)
    → IsPlain c
    → IsPlain d
    → (transport_key c ≡ transport_key d) ↔ SameTransport c d
unfolding transport_key
transport_key-SameTransport c d p q = (
  λ e. key_parts-same c d (sym (split_on-parts c p) ∙ ap (split_on 124) e ∙ split_on-parts d q),
  λ s. ap (join (text "|")) (key_parts-SameTransport c d s),
)
