-- ===== src/Writeback/Safe.antt =====
-- What every operation of the queue keeps of its table, and the statements that keep it.
use holodex.Prelude.{ℕ, ◌≤◌, ◌≡◌, refl, arith, Str, Bool, true, ◌&&◌}
use holodex.Writeback.Table.{
  Kind, Row, Table, count, delete_where, update_where, has_id, has_video, is_running,
}
use holodex.Writeback.Queue.{new_row, insert}
use holodex.Writeback.Steps.{empty}
use holodex.Writeback.Count.{count-snoc, count-delete_where-le, count-update_where-le}

abbrev pub runs : ℕ → Row → Bool
runs v r = has_video v r && is_running r.status

-- Ids are unique and below the next one, and a video has one running job at most.
pub record Safe (t : Table) : Type 0 where
  pub ids : (i : ℕ) → count (has_id i) t.rows ≤ 1
  pub fresh : (i : ℕ) → t.next_id ≤ i → count (has_id i) t.rows ≡ 0
  pub running : (v : ℕ) → count (runs v) t.rows ≤ 1

pub empty-Safe : Safe empty
unfolding count
empty-Safe = record { ids = λ i. omega arith; fresh = λ i h. refl; running = λ v. omega arith }

pub delete_where-Safe :
    (q : Row → Bool) (t : Table) → Safe t → Safe (record t { rows = delete_where q t.rows })
delete_where-Safe q t s = record {
  ids = λ i. omega (arith, s.ids i, count-delete_where-le (has_id i) q t.rows);
  fresh = λ i h. omega (arith, s.fresh i h, count-delete_where-le (has_id i) q t.rows);
  running = λ v. omega (arith, s.running v, count-delete_where-le (runs v) q t.rows);
}

-- An update that keeps ids, and makes no job of a video run.
pub update_where-Safe :
    (q : Row → Bool) (f : Row → Row) (t : Table)
    → ((i : ℕ) (r : Row) → has_id i (f r) ≡ true → has_id i r ≡ true)
    → ((v : ℕ) (r : Row) → runs v (f r) ≡ true → runs v r ≡ true)
    → Safe t
    → Safe (record t { rows = update_where q f t.rows })
update_where-Safe q f t h k s = record {
  ids = λ i. omega (arith, s.ids i, count-update_where-le (has_id i) q f t.rows (h i));
  fresh = λ i lt. omega (arith, s.fresh i lt, count-update_where-le (has_id i) q f t.rows (h i));
  running = λ v. omega (arith, s.running v, count-update_where-le (runs v) q f t.rows (k v));
}

pub insert-Safe :
    (v : ℕ) (k : Kind) (payload batch : Str) (attempts now : ℕ) (t : Table)
    → Safe t
    → Safe (insert v k payload batch attempts now t)
insert-Safe v k payload batch attempts now t s =
    let row = new_row t.next_id v k payload batch attempts now in
    record {
      ids = λ i.
          let a = s.ids i in
          let b = s.fresh i in let c = count-snoc (has_id i) t.rows row in ground arith;
      fresh = λ i lt.
          let b = s.fresh i (omega (arith, lt)) in
          let c = count-snoc (has_id i) t.rows row in ground arith;
      running = λ w. let a = s.running w in let c = count-snoc (runs w) t.rows row in ground arith;
    }
