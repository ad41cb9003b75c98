-- ===== src/Remote/Feeding.antt =====
-- How the loop of app/src/remote/ssh_detect.rs takes in each kind of argument of config.rs.
use limux.Prelude.{
  ℕ, ◌≤◌, ◌≡◌, ◌∙◌, ap, refl, sym, true, false, Option, none, some, List, [], ◌∷◌, ◌++◌,
  append_assoc, append-nil, any, Text, text, same, trim, is_empty, is_solid, decimal, trim-solid,
  decimal-is_solid, parse_uint-decimal, arith,
}
use limux.Remote.Config.{option_args}
use limux.Remote.Ssh.{
  Parsed, filtered_option_keys, ssh_option_key, consume_value, consume_ssh_option, parse_args,
  read_arg, u16_max,
}

-- A text that is its own trimmed form, and not empty.
pub record Trimmed (t : Text) : Type 0 where
  pub trimmed : trim t ≡ t
  pub some_text : is_empty t ≡ false

-- An option that the parser keeps as it is.
pub record Kept (o : Text) : Type 0 where
  pub whole : Trimmed o
  pub not_port : same (ssh_option_key o) (text "port") ≡ false
  pub not_identity : same (ssh_option_key o) (text "identityfile") ≡ false
  pub not_user : same (ssh_option_key o) (text "user") ≡ false
  pub not_filtered : any (same (ssh_option_key o)) filtered_option_keys ≡ false

abbrev pub AllKept : List Text → Type 0
AllKept [] = Unit
AllKept (o ∷ os) = Kept o × AllKept os

abbrev pub with_options : List Text → Parsed → Parsed
with_options os s = record s { ssh_options = s.ssh_options ++ os }

pub consume_value-option :
    (o : Text) (s : Parsed) → Kept o → consume_value 111 o s ≡ with_options (o ∷ []) s
unfolding consume_value consume_ssh_option
consume_value-option o s k =
    rw
      (
        k.whole.trimmed, k.whole.some_text, k.whole.trimmed, k.whole.some_text, k.not_port,
        k.not_identity, k.not_user, k.not_filtered,
      )
      refl

-- The arguments turn the parser's variables by the function, whatever follows them.
abbrev pub Feeds : List Text → (Parsed → Parsed) → Type 0
Feeds args f = (s : Parsed) (rest : List Text) → parse_args s (args ++ rest) ≡ parse_args (f s) rest

pub Feeds-append :
    (xs ys : List Text) (f g : Parsed → Parsed)
    → Feeds xs f
    → Feeds ys g
    → Feeds (xs ++ ys) (λ s. g (f s))
Feeds-append xs ys f g fx fy s rest =
    ap (parse_args s) (append_assoc xs ys rest) ∙ fx s (ys ++ rest) ∙ fy (f s) rest

pub option_args-Feeds : (os : List Text) → AllKept os → Feeds (option_args os) (with_options os)
unfolding parse_args read_arg
option_args-Feeds [] k s rest =
    ap (λ all_options. parse_args (record s { ssh_options = all_options }) rest)
      (sym (append-nil s.ssh_options))
option_args-Feeds (o ∷ os) (k, ks) s rest = rw (consume_value-option o s k) (
    option_args-Feeds os ks (with_options (o ∷ []) s) rest
    ∙ ap (λ all_options. parse_args (record s { ssh_options = all_options }) rest)
        (append_assoc s.ssh_options (o ∷ []) os))

abbrev pub port_args : Option ℕ → List Text
port_args port = elim port [ some p ↦ text "-p" ∷ decimal p ∷ [] | none ↦ [] ]

abbrev pub identity_args : Option Text → List Text
identity_args i = elim i [ some f ↦ text "-i" ∷ f ∷ [] | none ↦ [] ]

-- The later value, if there is one.
abbrev pub override : {A : Type 0} → Option A → Option A → Option A
override none old = old
override (some a) old = some a

-- A port is a `u16`.
abbrev pub Fits : Option ℕ → Type 0
Fits none = Unit
Fits (some p) = p ≤ u16_max

abbrev pub TrimmedIf : Option Text → Type 0
TrimmedIf none = Unit
TrimmedIf (some i) = Trimmed i

pub is_solid-empty : (t : Text) → is_solid t ≡ true → is_empty t ≡ false
is_solid-empty [] h = absurd (ground arith)
is_solid-empty (c ∷ cs) h = refl

pub consume_value-port :
    (p : ℕ) (s : Parsed)
    → p ≤ u16_max
    → consume_value 112 (decimal p) s ≡ record s { port = some p }
unfolding consume_value
consume_value-port p s h =
    rw
      (trim-solid (decimal p) (decimal-is_solid p), is_solid-empty (decimal p) (decimal-is_solid p))
      (ap (λ (port : Option ℕ). elim port [ none ↦ s | some q ↦ record s { port = some q } ])
        (parse_uint-decimal u16_max p h))

pub port_args-Feeds :
    (port : Option ℕ)
    → Fits port
    → Feeds (port_args port) (λ s. record s { port = override port s.port })
unfolding parse_args read_arg
port_args-Feeds none h s rest = refl
port_args-Feeds (some p) h s rest = ap (λ s'. parse_args s' rest) (consume_value-port p s h)

pub identity_args-Feeds :
    (i : Option Text)
    → TrimmedIf i
    → Feeds (identity_args i) (λ s. record s { identity_file = override i s.identity_file })
unfolding parse_args read_arg consume_value
identity_args-Feeds none h s rest = refl
identity_args-Feeds (some f) h s rest = rw (h.trimmed, h.some_text) refl
