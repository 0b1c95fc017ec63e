-- ===== src/Writeback/Life/Calm.antt =====
-- The operations that queue jobs or take them out, and run none.
use holodex.Prelude.{
  ℕ, ◌≤◌, ◌≡◌, refl, ap, arith, Str, Bool, true, ◌&&◌, Option, none, some, List, [], ◌∷◌, leb, ltb,
  if_both,
}
use holodex.Writeback.Table.{
  Kind, write, maintenance, rename, Row, Table, count, has, select, delete_where, first, has_id,
  is_failed, is_active, of_lane,
}
use holodex.Writeback.Queue.{
  JobInsert, insert, requeue_row, requeue_writeback, replace_failed, enqueue_maintenance,
  enqueue_rename, enqueue_renames, enqueue_writeback_batch,
}
use holodex.Writeback.Safe.{Safe, insert-Safe}
use holodex.Writeback.Exclusive.{replace_failed-Safe, requeue_row-Safe}
use holodex.Writeback.Life.{
  Phase, gone, queued, phase_of, phase, Follows, none-count, calm, Calm, calm-may_become,
  calm_trans, delete_where-Calm, insert-Calm,
}

Calm-trans :
    (id : ℕ) (t u w : Table)
    → Safe t
    → t.next_id ≤ u.next_id
    → Calm id t u
    → Calm id u w
    → Calm id t w
Calm-trans id t u w s le h k =
    calm_trans (leb t.next_id id) (leb u.next_id id) (phase id t) (phase id u) (phase id w) h k
      (λ e. ground arith)
      (λ e. ap phase_of (none-count (has_id id) t.rows (s.fresh id (ground arith))))

pub Calm-refl : (id : ℕ) (t : Table) → Calm id t t
Calm-refl id t = by_phase (phase id t)
  where
    by_phase : (x : Phase) → calm (leb t.next_id id) x x ≡ true
    by_phase gone = refl
    by_phase (queued s) = ground arith

pub Calm-Follows : (id : ℕ) (t u : Table) → Calm id t u → Follows id t u
Calm-Follows id t u h = calm-may_become (leb t.next_id id) (phase id t) (phase id u) h

replace_failed-Calm :
    (id v : ℕ) (k : Kind) (payload batch : Str) (now : ℕ) (t : Table)
    → Safe t
    → Calm id t (replace_failed v k payload batch now t)
replace_failed-Calm id v k payload batch now t s =
    Calm-trans id t cleared (insert v k payload batch 0 now cleared) s (omega arith)
      (delete_where-Calm id q t s) (insert-Calm id v k payload batch 0 now cleared)
  where
    q : Row → Bool
    q r = of_lane v k r && is_failed r.status

    cleared : Table
    cleared = record t { rows = delete_where q t.rows }

-- The table after, with its next id
abbrev pub Grows : ℕ → Table → Table → Type 0
Grows id t u = (t.next_id ≤ u.next_id) × Calm id t u

pub enqueue_writeback_batch-Grows :
    (id : ℕ) (jobs : List JobInsert) (now : ℕ) (t : Table)
    → Safe t
    → Grows id t (enqueue_writeback_batch jobs now t).1
unfolding enqueue_writeback_batch
enqueue_writeback_batch-Grows id [] now t s = (omega arith, Calm-refl id t)
enqueue_writeback_batch-Grows id (j ∷ js) now t s =
    let u = insert j.video_id write j.payload j.batch_id 0 now t in
    let rest =
      enqueue_writeback_batch-Grows id js now u
        (insert-Safe j.video_id write j.payload j.batch_id 0 now t s) in
    (
      omega (arith, rest.0),
      Calm-trans id t u (enqueue_writeback_batch js now u).1 s (omega arith)
          (insert-Calm id j.video_id write j.payload j.batch_id 0 now t) rest.1,
    )

enqueue_rename-Grows :
    (id v : ℕ) (payload batch : Str) (now : ℕ) (t : Table)
    → Safe t
    → Grows id t (enqueue_rename v payload batch now t)
      × Safe (enqueue_rename v payload batch now t)
enqueue_rename-Grows id v payload batch now t s =
    if_both (λ (u : Table). Grows id t u × Safe u)
      (has (λ r. of_lane v rename r && is_active r.status) t.rows)
      ((omega arith, Calm-refl id t), s)
      (
        (omega arith, replace_failed-Calm id v rename payload batch now t s),
        replace_failed-Safe v rename payload batch now t s,
      )

pub enqueue_renames-Grows :
    (id : ℕ) (jobs : List (ℕ × Str)) (batch : Str) (now : ℕ) (t : Table)
    → Safe t
    → Grows id t (enqueue_renames jobs batch now t)
unfolding enqueue_renames
enqueue_renames-Grows id [] batch now t s = (omega arith, Calm-refl id t)
enqueue_renames-Grows id (j ∷ js) batch now t s =
    let one = enqueue_rename-Grows id j.0 j.1 batch now t s in
    let rest = enqueue_renames-Grows id js batch now (enqueue_rename j.0 j.1 batch now t) one.1 in
    (
      omega (arith, one.0.0, rest.0),
      Calm-trans id t (enqueue_rename j.0 j.1 batch now t)
          (enqueue_renames js batch now (enqueue_rename j.0 j.1 batch now t)) s one.0.0 one.0.1
          rest.1,
    )

pub requeue_writeback-Calm :
    (id i now : ℕ) (t : Table) → Safe t → Calm id t (requeue_writeback i now t)
unfolding requeue_writeback
requeue_writeback-Calm id i now t s = by_row (first (select (has_id i) t.rows))
  where
    by_row :
        (o : Option Row)
        → Calm id t (record (requeue_row o now t) {
          rows = delete_where (has_id i) (requeue_row o now t).rows;
        })
    by_row none = delete_where-Calm id (has_id i) t s
    by_row (some r) =
        Calm-trans id t (requeue_row (some r) now t)
          (record (requeue_row (some r) now t) {
            rows = delete_where (has_id i) (requeue_row (some r) now t).rows;
          })
          s (omega arith) (insert-Calm id r.video_id r.kind r.payload r.batch_id r.attempts now t)
          (delete_where-Calm id (has_id i) (requeue_row (some r) now t)
            (requeue_row-Safe (some r) now t s))

pub enqueue_maintenance-Calm :
    (id v : ℕ) (payload : Str) (now : ℕ) (t : Table)
    → Safe t
    → Calm id t (enqueue_maintenance v payload now t).1
unfolding enqueue_maintenance
enqueue_maintenance-Calm id v payload now t s =
    if_both (λ (o : Option ℕ × Table). Calm id t o.1)
      (ltb 0 (count (λ r. of_lane v maintenance r && is_active r.status) t.rows)) (Calm-refl id t)
      (replace_failed-Calm id v maintenance payload [] now t s)
