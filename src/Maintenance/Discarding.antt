-- ===== src/Maintenance/Discarding.antt =====
-- Discard: the held original goes, and the file at the path is never touched.
use holodex.Prelude.{ℕ, Str, ◌≡◌, refl, none, some}
use holodex.Maintenance.Disk.{
  Node, absent, file, held, discarding, Disk, World, Error, not_exist, M, ◌>>=◌, try, Outcome, done,
  err, crashed, Reply, good, bad, raise, set_held_state,
}
use holodex.Maintenance.Swap.{held_path, held_for, after_discard, discard}
use holodex.Maintenance.Hoare.{
  Assert, Ends, Triple, Triple-bind, Triple-try, Triple-tried, Triple-guarded, Triple-raise,
  Triple-pure, Triple-weaken, Triple-given, Triple-widen, on_reply,
}
use holodex.Maintenance.Steps.{At, remove_held, set_state, drop_journal}
use holodex.Maintenance.Reads.{refuse_symlink-Steps, get_held-Steps}
use holodex.Maintenance.Guard.{standing-RowOf, row_read}

-- Where a discard can leave the file: `n` stays at the path, and a held original that is gone has
-- its row in `discarding`, which recovery finishes, or no row.
data Kept (v : ℕ) (p : Str) (n : Node) (o : ℕ) (d : Disk) : Type 0 where
  standing : At v p n (file o) (some held) d → Kept v p n o d
  leaving : At v p n (file o) (some discarding) d → Kept v p n o d
  left : At v p n absent (some discarding) d → Kept v p n o d

module _ (v : ℕ) (p : Str) (n : Node) (o : ℕ) where
  abbrev Keeps : {A : Type 0} → Assert → M A → Assert → Type 0
  Keeps P m Q = Triple P m (λ _. Q) (λ _. Kept v p n o) (Kept v p n o)

  abbrev Gone : Assert
  Gone = At v p n absent none

  give_back :
      (e : Error)
      → Keeps
          (At v p n (file o) (some discarding))
          (try (set_held_state v held) >>= λ _. raise {A = Unit {0}} e)
          Gone
  give_back e =
      Triple-bind _ _ (Triple-tried _ (λ _ h. leaving h) (set_state v p n (file o) discarding held))
        reply
    where
      reply :
          (r : Reply (Unit {0}))
          → Keeps
              (on_reply
                (λ _. At v p n (file o) (some held))
                (At v p n (file o) (some discarding))
                r)
              (raise {A = Unit {0}} e)
              Gone
      reply (good _) = Triple-raise _ (λ _ h. standing h)
      reply (bad _) = Triple-raise _ (λ _ h. leaving h)

  -- What the caller knows after `remove`: done, already missing, or still there.
  abbrev Removed : Reply (Unit {0}) → Assert
  Removed (good _) d = At v p n absent (some discarding) d
  Removed (bad e) d = At v p n (file o) (some discarding) d × (e ≡ not_exist → file o ≡ absent)

  finish_discard : (r : Reply (Unit {0})) → Keeps (Removed r) (after_discard v r) Gone
  finish_discard (good _) =
      Triple-guarded _ (λ _ h. left h) (drop_journal v p n absent (some discarding))
  finish_discard (bad not_exist) = Triple-given _ (λ d h. h.1 refl) (λ e. cc)
  finish_discard (bad e) = Triple-weaken _ (λ _ h. h.0) (give_back e)

  discard-Keeps : Keeps (At v p n (file o) (some held)) (discard v p) Gone
  unfolding discard held_for
  discard-Keeps =
      Triple-bind {Q = λ q d. At v p n (file o) (some held) d × (q ≡ held_path p)} _ _
        (Triple-bind _ _ (Triple-guarded _ (λ _ h. standing h) (get_held-Steps v)) λ r.
          Triple-given _ (row_read v p n (file o) held r) λ (h, e, of_row).
            rw (e, standing-RowOf v p held h of_row)
              (Triple-weaken _ (λ _ x. x.0)
                (Triple-bind _ _
                  (Triple-guarded _ (λ _ x. standing x) (refuse_symlink-Steps (held_path p)))
                  λ _. Triple-pure _ (λ _ x. (x, refl)))))
        λ q.
          Triple-given _ (λ d x. x.1)
            λ e. rw e (
              Triple-weaken _ (λ _ x. x.0)
                (Triple-bind _ _
                  (Triple-guarded _ (λ _ x. standing x) (set_state v p n (file o) held discarding))
                  λ _.
                    Triple-bind {Q = Removed} _ _
                      (Triple-try {Q = Removed} _ (
                        Triple-widen _ (λ _ _ x. x) (λ _ _ x. x) (λ _ x. leaving x)
                          (remove_held v p n (file o) (some discarding))))
                      finish_discard))

-- Over a standing hold, Discard never changes the file at the path, whatever fails and wherever the
-- process dies; and when it returns with no error, nothing stands at the held path and the video's
-- journal row is gone.
pub discard-keeps_file :
    (v : ℕ) (p : Str) (n : Node) (o : ℕ) (w : World)
    → At v p n (file o) (some held) w.disk
    → ((discard v p w).1.disk.files p ≡ n)
      × ((discard v p w).0 ≡ done tt → At v p n absent none (discard v p w).1.disk)
discard-keeps_file v p n o w h = ended _ _ ((discard-Keeps v p n o).run w h)
  where
    kept : (d : Disk) → Kept v p n o d → d.files p ≡ n
    kept d (standing t) = t.path
    kept d (leaving t) = t.path
    kept d (left t) = t.path

    ended :
        (r : Outcome (Unit {0})) (d : Disk)
        → Ends (λ _. At v p n absent none) (λ _. Kept v p n o) (Kept v p n o) r d
        → (d.files p ≡ n) × (r ≡ done tt → At v p n absent none d)
    ended (done _) d t = (t.path, λ _. t)
    ended (err e) d t = (kept d t, λ q. cc)
    ended crashed d t = (kept d t, λ q. cc)
