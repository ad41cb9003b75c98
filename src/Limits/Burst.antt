-- ===== src/Limits/Burst.antt =====
-- What the rate limits of app/src/notify.rs guarantee of every history of events.
use limux.Prelude.{
  ℕ, ◌+◌, ◌-◌, ◌≤◌, ◌<◌, ◌≡◌, ◌⊎◌, inl, inr, Bool, true, false, Option, none, some, List, [], ◌∷◌,
  ◌++◌, ◌==◌, if◌then◌else◌, suc, arith, refl, ap, ◌∙◌, Bool-cases, Option-cases, length, lookup,
  insert, lookup-insert, ltb, leb,
}
use limux.Limits.Notify.{
  WorkspaceId, Notify, nanos, throttled, retain_recent, send_bell_notification, set_window_active,
  enable, disable, per_workspace_cooldown_secs, global_burst_window_secs, global_max_burst,
}

pub data Event : Type 0 where
  bell : WorkspaceId → (now : ℕ) → Event
  focus : Bool → Event
  enabling disabling : Event

-- The notifications sent so far, newest first.
abbrev pub Sent : Type 0
Sent = List (WorkspaceId × ℕ)

unfoldable pub handle : Event → Notify × Sent → Notify × Sent
unfolding send_bell_notification set_window_active enable disable
handle (bell w now) (s, sent) =
    let (s', fired) = send_bell_notification s w now in
    (s', if fired then (w, now) ∷ sent else sent)
handle (focus active) (s, sent) = (set_window_active s active, sent)
handle enabling (s, sent) = (enable s, sent)
handle disabling (s, sent) = (disable s, sent)

unfoldable pub handle_all : List Event → Notify × Sent → Notify × Sent
unfolding handle
handle_all [] s = s
handle_all (e ∷ es) s = handle_all es (handle e s)

-- The clock never runs back.
abbrev pub InOrder : ℕ → List Event → Type 0
InOrder from [] = Unit
InOrder from (bell w now ∷ es) = (from ≤ now) × InOrder now es
InOrder from (focus b ∷ es) = InOrder from es
InOrder from (enabling ∷ es) = InOrder from es
InOrder from (disabling ∷ es) = InOrder from es

abbrev pub times : Sent → List ℕ
times [] = []
times ((w, t) ∷ sent) = t ∷ times sent

-- When the workspace was last notified of.
abbrev pub last_of : WorkspaceId → Sent → Option ℕ
last_of w [] = none
last_of w ((v, t) ∷ sent) = if v == w then some t else last_of w sent

-- The instant is five seconds after the last one, if there is one.
abbrev pub Rested : Option ℕ → ℕ → Type 0
Rested none now = Unit
Rested (some last) now = last + nanos per_workspace_cooldown_secs ≤ now

-- Every notification came five seconds or more after the one before it for its workspace, and found
-- at most two others sent in the ten seconds before it.
abbrev pub Paced : Sent → Type 0
Paced [] = Unit
Paced ((w, now) ∷ sent) =
    Rested (last_of w sent) now
    × (length (retain_recent now (times sent)) < global_max_burst)
    × Paced sent

-- The cells of the limiter agree with what was sent up to `from`.
pub record Tracks (from : ℕ) (s : Notify) (sent : Sent) : Type 0 where
  pub last : (w : WorkspaceId) → lookup w s.last_notify ≡ last_of w sent
  pub window :
      (now : ℕ)
      → from ≤ now
      → length (retain_recent now s.recent) ≡ length (retain_recent now (times sent))
  pub paced : Paced sent

retain_recent-retain_recent :
    (a b : ℕ) (ts : List ℕ) → a ≤ b → retain_recent b (retain_recent a ts) ≡ retain_recent b ts
retain_recent-retain_recent a b [] h = refl
retain_recent-retain_recent a b (t ∷ ts) h = ground (arith, retain_recent-retain_recent a b ts h)

retain_recent-append :
    (a t : ℕ) (ts : List ℕ)
    → length (retain_recent a (ts ++ t ∷ [])) ≡ length (retain_recent a (t ∷ ts))
retain_recent-append a t [] = refl
retain_recent-append a t (u ∷ ts) = ground (arith, retain_recent-append a t ts)

length-retain_cons :
    (a t : ℕ) (xs ys : List ℕ)
    → length (retain_recent a xs) ≡ length (retain_recent a ys)
    → length (retain_recent a (t ∷ xs)) ≡ length (retain_recent a (t ∷ ys))
length-retain_cons a t xs ys h = elim (Bool-cases (ltb (a - nanos global_burst_window_secs) t)) [
  | inl e ↦ rw e (ap suc h)
  | inr e ↦ rw e h
]

-- An unthrottled workspace has rested.
throttled-Rested :
    (s : Notify) (w : WorkspaceId) (now : ℕ)
    → throttled s w now ≡ false
    → Rested (lookup w s.last_notify) now
throttled-Rested s w now h = elim (Option-cases (lookup w s.last_notify)) [
  | inl e ↦ rw e tt
  | inr (last, e) ↦ ground arith
]

-- The state and the answer when the limits let a bell through.
record Passed (s : Notify) (w : WorkspaceId) (now : ℕ) : Type 0 where
  unthrottled : throttled s w now ≡ false
  room : length (retain_recent now s.recent) < global_max_burst
  sends : send_bell_notification s w now ≡ (
    record s {
      last_notify = insert w now s.last_notify;
      recent = retain_recent now s.recent ++ now ∷ [];
    },
    true,
  )

-- The state and the answer when they do not: at most the old instants are forgotten.
abbrev HeldBack : Notify → WorkspaceId → ℕ → Type 0
HeldBack s w now =
    (send_bell_notification s w now ≡ (s, false))
    ⊎ (send_bell_notification s w now ≡ (record s { recent = retain_recent now s.recent }, false))

send-cases : (s : Notify) (w : WorkspaceId) (now : ℕ) → Passed s w now ⊎ HeldBack s w now
unfolding send_bell_notification
send-cases s w now = elim (Bool-cases s.enabled) [
  | inr off ↦ inr (inl (ground arith))
  | inl on ↦ elim (Bool-cases s.window_active) [
    | inl active ↦ inr (inl (ground arith))
    | inr away ↦ elim (Bool-cases (throttled s w now)) [
      | inl early ↦ inr (inl (rw (on, away, early) refl))
      | inr late ↦ elim (Bool-cases (leb global_max_burst (length (retain_recent now s.recent)))) [
        | inl full ↦ inr (inr (rw (on, away, late, full) refl))
        | inr free ↦ inl (record {
          unthrottled = late;
          room = ground arith;
          sends = rw (on, away, late, free) refl;
        })
      ]
    ]
  ]
]

bell-Tracks :
    (w : WorkspaceId) (from now : ℕ) (s : Notify) (sent : Sent)
    → from ≤ now
    → Tracks from s sent
    → Tracks now (handle (bell w now) (s, sent)).0 (handle (bell w now) (s, sent)).1
unfolding handle
bell-Tracks w from now s sent h v = elim (send-cases s w now) [
  | inl p ↦ rw p.sends (record {
    last = λ u. ground (arith, lookup-insert w u now s.last_notify, v.last u);
    window = λ n le.
        retain_recent-append n now (retain_recent now s.recent)
        ∙ length-retain_cons n now (retain_recent now s.recent) (times sent)
            (ap length (retain_recent-retain_recent now n s.recent le) ∙ v.window n (omega arith));
    paced = (
      rw⁻¹ (v.last w) (throttled-Rested s w now p.unthrottled),
      ground (arith, p.room, v.window now h),
      v.paced,
    );
  })
  | inr (inl e) ↦
      rw e (record { last = v.last; window = λ n le. v.window n (omega arith); paced = v.paced })
  | inr (inr e) ↦ rw e (record {
    last = v.last;
    window = λ n le. rw (retain_recent-retain_recent now n s.recent le) (v.window n (omega arith));
    paced = v.paced;
  })
]

handle-Tracks :
    (e : Event) (es : List Event) (from : ℕ) (s : Notify) (sent : Sent)
    → InOrder from (e ∷ es)
    → Tracks from s sent
    → (now : ℕ) × InOrder now es × Tracks now (handle e (s, sent)).0 (handle e (s, sent)).1
unfolding handle set_window_active enable disable
handle-Tracks (bell w now) es from s sent (le, rest) v =
    (now, rest, bell-Tracks w from now s sent le v)
handle-Tracks (focus b) es from s sent rest v =
    (from, rest, record { last = v.last; window = v.window; paced = v.paced })
handle-Tracks enabling es from s sent rest v =
    (from, rest, record { last = v.last; window = v.window; paced = v.paced })
handle-Tracks disabling es from s sent rest v =
    (from, rest, record { last = v.last; window = v.window; paced = v.paced })

-- From a limiter that agrees with the notifications sent so far, every history of bells, focus
-- changes and switches whose clock never runs back leaves the notifications paced: each comes five
-- seconds or more after the one before it for its workspace, and finds at most two others of any
-- workspace sent in the ten seconds before it.
pub handle_all-Paced :
    (es : List Event) (from : ℕ) (s : Notify) (sent : Sent)
    → InOrder from es
    → Tracks from s sent
    → Paced (handle_all es (s, sent)).1
unfolding handle_all
handle_all-Paced [] from s sent o v = v.paced
handle_all-Paced (e ∷ es) from s sent o v =
    let (now, rest, v') = handle-Tracks e es from s sent o v in
    handle_all-Paced es now (handle e (s, sent)).0 (handle e (s, sent)).1 rest v'
