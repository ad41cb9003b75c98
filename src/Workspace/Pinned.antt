-- ===== src/Workspace/Pinned.antt =====
-- Where pinned workspaces stand after `move_workspace` and `reorder_workspaces_for_pin` of
-- app/src/window.rs.
use limux.Prelude.{
  ℕ, zero, suc, ◌+◌, ◌≡◌, ◌≢◌, refl, sym, arith, ◌∙◌, Bool, true, false, not, some, List, [], ◌∷◌,
  ◌++◌, ◌==◌, if◌then◌else◌, all, filter, position, get_elem?, remove_at, Bool-cases, Option-cases,
  inl, inr, position-find, find-position, find-remove_at,
}
use limux.Workspace.State.{Workspace}
use limux.Workspace.Order.{
  insert_at, has_id, same_group, put_beside, move_workspace, reorder_workspaces_for_pin,
}

module _ {R : Type 0} where
  abbrev pub is_unpinned : Workspace R → Bool
  is_unpinned w = not w.pinned

  -- Behind an unpinned workspace stand unpinned ones only.
  abbrev pub PinnedFirst : List (Workspace R) → Type 0
  PinnedFirst [] = Unit
  PinnedFirst (w ∷ ws) = (w.pinned ≡ false → all is_unpinned ws ≡ true) × PinnedFirst ws

  -- How often a workspace number occurs.
  abbrev pub times_of : ℕ → List (Workspace R) → ℕ
  times_of i [] = 0
  times_of i (w ∷ ws) = (if w.id == i then 1 else 0) + times_of i ws

  all-remove_at :
      (ws : List (Workspace R)) (i : ℕ)
      → all is_unpinned ws ≡ true
      → all is_unpinned (remove_at ws i) ≡ true
  all-remove_at [] i h = ground arith
  all-remove_at (w ∷ ws) zero h = ground arith
  all-remove_at (w ∷ ws) (suc i) h = ground (arith, all-remove_at ws i)

  remove_at-PinnedFirst :
      (ws : List (Workspace R)) (i : ℕ) → PinnedFirst ws → PinnedFirst (remove_at ws i)
  remove_at-PinnedFirst [] i v = tt
  remove_at-PinnedFirst (w ∷ ws) zero v = v.1
  remove_at-PinnedFirst (w ∷ ws) (suc i) (h, v) =
      (λ e. all-remove_at ws i (h e), remove_at-PinnedFirst ws i v)

  times_of-remove_at :
      (j : ℕ) (ws : List (Workspace R)) (i : ℕ) (w : Workspace R)
      → get_elem? ws i ≡ some w
      → times_of j ws ≡ (if w.id == j then 1 else 0) + times_of j (remove_at ws i)
  times_of-remove_at j [] i w e = absurd (ground arith)
  times_of-remove_at j (v ∷ ws) zero w e = ground arith
  times_of-remove_at j (v ∷ ws) (suc i) w e = ground (arith, times_of-remove_at j ws i w e)

  times_of-insert_at :
      (j : ℕ) (ws : List (Workspace R)) (i : ℕ) (w : Workspace R)
      → times_of j (insert_at ws i w) ≡ (if w.id == j then 1 else 0) + times_of j ws
  times_of-insert_at j ws zero w = ground arith
  times_of-insert_at j [] (suc i) w = ground arith
  times_of-insert_at j (v ∷ ws) (suc i) w = ground (arith, times_of-insert_at j ws i w)

  all-insert_at :
      (ws : List (Workspace R)) (i : ℕ) (w : Workspace R)
      → all is_unpinned ws ≡ true
      → w.pinned ≡ false
      → all is_unpinned (insert_at ws i w) ≡ true
  all-insert_at ws zero w h e = ground arith
  all-insert_at [] (suc i) w h e = ground arith
  all-insert_at (v ∷ ws) (suc i) w h e = ground (arith, all-insert_at ws i w)

  all-get_elem? :
      (ws : List (Workspace R)) (i : ℕ) (w : Workspace R)
      → all is_unpinned ws ≡ true
      → get_elem? ws i ≡ some w
      → w.pinned ≡ false
  all-get_elem? [] i w h e = absurd (ground arith)
  all-get_elem? (v ∷ ws) zero w h e = ground arith
  all-get_elem? (v ∷ ws) (suc i) w h e = all-get_elem? ws i w (ground arith) e

  -- A workspace put right before or right behind one of its own group.
  insert_before-PinnedFirst :
      (ws : List (Workspace R)) (i : ℕ) (w t : Workspace R)
      → PinnedFirst ws
      → get_elem? ws i ≡ some t
      → w.pinned ≡ t.pinned
      → PinnedFirst (insert_at ws i w)
  insert_before-PinnedFirst [] i w t v e g = absurd (ground arith)
  insert_before-PinnedFirst (u ∷ ws) zero w t (h, v) e g = (λ un. ground arith, (h, v))
  insert_before-PinnedFirst (u ∷ ws) (suc i) w t (h, v) e g = (
    λ un. all-insert_at ws i w (h un) (g ∙ all-get_elem? ws i t (h un) e),
    insert_before-PinnedFirst ws i w t v e g,
  )

  insert_behind-PinnedFirst :
      (ws : List (Workspace R)) (i : ℕ) (w t : Workspace R)
      → PinnedFirst ws
      → get_elem? ws i ≡ some t
      → w.pinned ≡ t.pinned
      → PinnedFirst (insert_at ws (suc i) w)
  insert_behind-PinnedFirst [] i w t v e g = absurd (ground arith)
  insert_behind-PinnedFirst (u ∷ ws) zero w t (h, v) e g =
      (λ un. ground arith, (λ un. ground arith, v))
  insert_behind-PinnedFirst (u ∷ ws) (suc i) w t (h, v) e g = (
    λ un. all-insert_at ws (suc i) w (h un) (g ∙ all-get_elem? ws i t (h un) e),
    insert_behind-PinnedFirst ws i w t v e g,
  )

  same_group-pinned : (v w : Workspace R) → same_group v w ≡ true → v.pinned ≡ w.pinned
  same_group-pinned v w h = ground arith

  -- What a move promises: pinned workspaces stay in front, and no workspace is lost or doubled.
  pub record Moved (ws out : List (Workspace R)) : Type 0 where
    pub in_front : PinnedFirst out
    pub kept : (j : ℕ) → times_of j out ≡ times_of j ws

  put_beside-Moved :
      (ws : List (Workspace R)) (i j target_id : ℕ) (source target : Workspace R) (before : Bool)
      → PinnedFirst ws
      → get_elem? ws i ≡ some source
      → position (has_id target_id) (remove_at ws i) ≡ some j
      → get_elem? (remove_at ws i) j ≡ some target
      → source.pinned ≡ target.pinned
      → Moved ws (put_beside ws i source target_id before)
  put_beside-Moved ws i j target_id source target true v from to at group = rw to (record {
    in_front =
        insert_before-PinnedFirst (remove_at ws i) j source target (remove_at-PinnedFirst ws i v) at
          group;
    kept = λ k.
        times_of-insert_at k (remove_at ws i) j source
        ∙ sym (times_of-remove_at k ws i source from);
  })
  put_beside-Moved ws i j target_id source target false v from to at group = rw to (record {
    in_front =
        insert_behind-PinnedFirst (remove_at ws i) j source target (remove_at-PinnedFirst ws i v) at
          group;
    kept = λ k.
        times_of-insert_at k (remove_at ws i) (suc j) source
        ∙ sym (times_of-remove_at k ws i source from);
  })

  move_workspace-found :
      (ws : List (Workspace R)) (i j source_id target_id : ℕ) (source target : Workspace R)
      → (before : Bool) → position (has_id source_id) ws ≡ some i
      → position (has_id target_id) ws ≡ some j
      → get_elem? ws i ≡ some source
      → get_elem? ws j ≡ some target
      → move_workspace ws source_id target_id before
        ≡ (if same_group source target then put_beside ws i source target_id before else ws)
  unfolding move_workspace
  move_workspace-found ws i j source_id target_id source target before e f g h =
      rw (move_workspace, e, f, g, h) refl

  -- In a list of workspaces where the pinned ones stand in front, `move_workspace` of a workspace
  -- to another keeps the pinned ones in front and every workspace number as often as it was.
  pub move_workspace-Moved :
      (ws : List (Workspace R)) (source_id target_id : ℕ) (before : Bool)
      → PinnedFirst ws
      → source_id ≢ target_id
      → Moved ws (move_workspace ws source_id target_id before)
  unfolding move_workspace
  move_workspace-Moved ws source_id target_id before v apart =
      elim (Option-cases (position (has_id source_id) ws)) [
        | inl e ↦ rw (move_workspace, e) (record { in_front = v; kept = λ j. refl })
        | inr (i, e) ↦ elim (Option-cases (position (has_id target_id) ws)) [
          | inl f ↦ rw (move_workspace, e, f) (record { in_front = v; kept = λ j. refl })
          | inr (j, f) ↦
              let (source, from, found_source, is_source) =
                position-find (has_id source_id) ws i e in
              let (target, to, found, is_target) = position-find (has_id target_id) ws j f in
              let other : has_id target_id source ≡ false = ground arith in
              let (k, still, at) =
                find-position (has_id target_id) (remove_at ws i) target
                  (find-remove_at (has_id target_id) ws i source from other ∙ found) in
              rw (move_workspace-found ws i j source_id target_id source target before e f from to)
                elim (Bool-cases (same_group source target)) [
                  | inl g ↦ rw g (
                      put_beside-Moved ws i k target_id source target before v from still at
                        (same_group-pinned source target g))
                  | inr g ↦ rw g (record { in_front = v; kept = λ l. refl })
                ]
        ]
      ]

  all-unpinned : (ws : List (Workspace R)) → all is_unpinned (filter is_unpinned ws) ≡ true
  all-unpinned [] = refl
  all-unpinned (w ∷ ws) = elim (Bool-cases w.pinned) [
    | inl e ↦ ground (arith, all-unpinned ws)
    | inr e ↦ ground (arith, all-unpinned ws)
  ]

  unpinned-PinnedFirst : (ws : List (Workspace R)) → all is_unpinned ws ≡ true → PinnedFirst ws
  unpinned-PinnedFirst [] h = tt
  unpinned-PinnedFirst (w ∷ ws) h = (λ e. ground arith, unpinned-PinnedFirst ws (ground arith))

  pinned-PinnedFirst :
      (ws us : List (Workspace R)) → PinnedFirst us → PinnedFirst (filter (λ w. w.pinned) ws ++ us)
  pinned-PinnedFirst [] us v = v
  pinned-PinnedFirst (w ∷ ws) us v = elim (Bool-cases w.pinned) [
    | inl e ↦ rw e (λ un. absurd (ground arith), pinned-PinnedFirst ws us v)
    | inr e ↦ rw e (pinned-PinnedFirst ws us v)
  ]

  times_of-append :
      (j : ℕ) (xs ys : List (Workspace R)) → times_of j (xs ++ ys) ≡ times_of j xs + times_of j ys
  times_of-append j [] ys = omega arith
  times_of-append j (x ∷ xs) ys = omega (arith, times_of-append j xs ys)

  times_of-parts :
      (j : ℕ) (ws : List (Workspace R))
      → times_of j (filter (λ w. w.pinned) ws) + times_of j (filter is_unpinned ws) ≡ times_of j ws
  times_of-parts j [] = refl
  times_of-parts j (w ∷ ws) = elim (Bool-cases w.pinned) [
    | inl e ↦ rw e omega (arith, times_of-parts j ws)
    | inr e ↦ rw e omega (arith, times_of-parts j ws)
  ]

  -- `reorder_workspaces_for_pin` puts the pinned workspaces in front and keeps every workspace
  -- number as often as it was.
  pub reorder_workspaces_for_pin-Moved :
      (ws : List (Workspace R)) → Moved ws (reorder_workspaces_for_pin ws)
  unfolding reorder_workspaces_for_pin
  reorder_workspaces_for_pin-Moved ws = record {
    in_front =
        pinned-PinnedFirst ws (filter is_unpinned ws)
          (unpinned-PinnedFirst (filter is_unpinned ws) (all-unpinned ws));
    kept = λ j.
        times_of-append j (filter (λ w. w.pinned) ws) (filter is_unpinned ws) ∙ times_of-parts j ws;
  }
