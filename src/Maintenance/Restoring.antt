-- ===== src/Maintenance/Restoring.antt =====
-- Restore keeps the invariant of a swap, on every branch and under every fault.
use holodex.Prelude.{ℕ, Str, ◌≡◌, refl, true, false, none, some}
use holodex.Maintenance.Disk.{
  Node, absent, file, HeldState, held, restoring, state_eq, HeldOriginal, Disk, Reply, good, bad,
  raise,
}
use holodex.Maintenance.Swap.{held_path, held_row, held_for, after_restore, restore}
use holodex.Maintenance.Hoare.{
  Triple, Triple-bind, Triple-tried, Triple-guarded, Triple-last, Triple-raise, Triple-pure,
  Triple-weaken, Triple-given, on_reply,
}
use holodex.Maintenance.Journal.{RowOf}
use holodex.Maintenance.Steps.{At, is_present, move_back, set_state, drop_journal}
use holodex.Maintenance.Reads.{refuse_symlink-Steps, get_held-Steps}
use holodex.Maintenance.Guard.{
  Guarded, idle, both, restored, Guards, standing-RowOf, row_read, no_row_read,
}

-- Restore.
module _ (v : ℕ) (p : Str) (o : ℕ) where
  finish_restore :
      (n : Node) (r : Reply (Unit {0}))
      → is_present n ≡ true
      → Guards v p o
          (on_reply
            (λ _. At v p (file o) absent (some restoring))
            (At v p n (file o) (some restoring))
            r)
          (after_restore v r)
  finish_restore n (good _) here =
      Triple-last _ (λ _ h. restored h) (λ _ _ h. idle h)
        (drop_journal v p (file o) absent (some restoring))
  finish_restore n (bad e) here =
      Triple-bind _ _
        (Triple-tried _ (λ _ h. both n restoring here refl h)
          (set_state v p n (file o) restoring held))
        reply
    where
      reply :
          (r : Reply (Unit {0}))
          → Guards v p o
              (on_reply (λ _. At v p n (file o) (some held)) (At v p n (file o) (some restoring)) r)
              (raise {A = Unit {0}} e)
      reply (good _) = Triple-raise _ (λ _ h. both n held here refl h)
      reply (bad _) = Triple-raise _ (λ _ h. both n restoring here refl h)

  -- heldFor hands over the held path of a standing hold, and refuses any other row.
  standing-Guards :
      (n : Node) (h : HeldOriginal)
      → is_present n ≡ true
      → RowOf v p held h
      → Triple
          (At v p n (file o) (some held))
          (held_row (held_path p) (some h))
          (λ q d. At v p n (file o) (some held) d × (q ≡ held_path p))
          (λ _. Guarded v p o)
          (Guarded v p o)
  standing-Guards n h here r = rw (standing-RowOf v p held h r) (
      Triple-bind _ _
        (Triple-guarded _ (λ _ x. both n held here refl x) (refuse_symlink-Steps (held_path p)))
        λ _. Triple-pure _ (λ _ x. (x, refl)))

  held_for-standing :
      (n : Node)
      → is_present n ≡ true
      → Triple
          (At v p n (file o) (some held))
          (held_for v p)
          (λ q d. At v p n (file o) (some held) d × (q ≡ held_path p))
          (λ _. Guarded v p o)
          (Guarded v p o)
  unfolding held_for
  held_for-standing n here =
      Triple-bind _ _ (Triple-guarded _ (λ _ x. both n held here refl x) (get_held-Steps v)) λ r.
        Triple-given _ (row_read v p n (file o) held r)
          λ (h, e, of_row). rw e (Triple-weaken _ (λ _ x. x.0) (standing-Guards n h here of_row))

  pub restore-standing :
      (n : Node) → is_present n ≡ true → Guards v p o (At v p n (file o) (some held)) (restore v p)
  unfolding restore
  restore-standing n here = Triple-bind _ _ (held_for-standing n here) λ q.
      Triple-given _ (λ d x. x.1)
        λ e. rw e (
          Triple-weaken _ (λ _ x. x.0)
            (Triple-bind _ _
              (Triple-guarded _ (λ _ x. both n held here refl x)
                (set_state v p n (file o) held restoring))
              λ _.
                Triple-bind _ _
                  (Triple-tried _ (λ _ x. both n restoring here refl x)
                    (move_back v p n o (some restoring)))
                  (λ r. finish_restore n r here)))

  pub restore-idle : Guards v p o (At v p (file o) absent none) (restore v p)
  unfolding restore held_for
  restore-idle =
      Triple-bind {Q = λ _ _. ⊥} _ _
        (Triple-bind _ _ (Triple-guarded _ (λ _ x. idle x) (get_held-Steps v)) λ r.
          Triple-given _ (no_row_read v p (file o) absent r)
            λ e. rw e (Triple-raise _ (λ _ x. idle x.0)))
        λ _. record { run = λ w x. absurd x }

  pub restore-busy :
      (a b : Node) (s : HeldState)
      → ((d : Disk) → At v p a b (some s) d → Guarded v p o d)
      → state_eq s held ≡ false
      → Guards v p o (At v p a b (some s)) (restore v p)
  unfolding restore held_for
  restore-busy a b s keep other =
      Triple-bind {Q = λ _ _. ⊥} _ _
        (Triple-bind _ _ (Triple-guarded _ keep (get_held-Steps v)) λ r.
          Triple-given _ (row_read v p a b s r) λ (h, e, of_row).
            rw (e, standing-RowOf v p s h of_row, other) (Triple-raise _ (λ _ x. keep _ x.0)))
        λ _. record { run = λ w x. absurd x }
