-- ===== src/Writeback/Life.antt =====
-- The life of one job, as an abstract machine that the queue implements.
pub mod Calm
pub mod History
pub mod Steps
use holodex.Prelude.{
  ℕ, suc, ◌+◌, ◌≤◌, ◌≡◌, ◌≢◌, ◌⊎◌, refl, sym, subst, ap, ◌∙◌, arith, Str, Bool, true, false, not,
  ◌&&◌, ◌||◌, Option, none, some, List, [], ◌∷◌, ◌++◌, ◌==◌, leb, ltb, if◌then◌else◌, Bool-cases,
  inl, inr, if_both,
}
use holodex.Writeback.Queue.{new_row, insert}
use holodex.Writeback.Safe.{Safe}
use holodex.Writeback.Table.{
  Kind, write, maintenance, rename, Status, pending, running, failed, Row, Table, count, has,
  select, delete_where, update_where, first, has_id, is_pending, is_running, is_failed, is_active,
  of_lane, has_video,
}

-- Where a job is: nowhere, or in the queue with a status.
pub data Phase : Type 0 where
  gone : Phase
  queued : Status → Phase

abbrev pub phase_of : Option Row → Phase
phase_of none = gone
phase_of (some r) = queued r.status

abbrev pub phase : ℕ → Table → Phase
phase id t = phase_of (first (select (has_id id) t.rows))

-- The steps of the machine, for an id that is new to the queue or not: a job comes as pending under a new id,
-- and a job that is gone does not come back; one that failed runs only after it is pending again.
abbrev pub may_become : Bool → Phase → Phase → Bool
may_become is_new gone gone = true
may_become is_new gone (queued pending) = is_new
may_become is_new gone (queued running) = false
may_become is_new gone (queued failed) = false
may_become is_new (queued s) gone = true
may_become is_new (queued s) (queued pending) = true
may_become is_new (queued s) (queued running) = not (is_failed s)
may_become is_new (queued s) (queued failed) = true

abbrev updated : (Row → Bool) → (Row → Row) → Option Row → Option Row
updated q f none = none
updated q f (some r) = some (if q r then f r else r)

first-update_where :
    (id : ℕ) (q : Row → Bool) (f : Row → Row) (rs : List Row)
    → ((r : Row) → (f r).id ≡ r.id)
    → first (select (has_id id) (update_where q f rs)) ≡ updated q f (first (select (has_id id) rs))
unfolding select update_where
first-update_where id q f [] h = refl
first-update_where id q f (r ∷ rs) h =
    let a = first-update_where id q f rs h in let b = h r in ground arith

pub none-count : (p : Row → Bool) (rs : List Row) → count p rs ≡ 0 → first (select p rs) ≡ none
unfolding select count
none-count p [] h = refl
none-count p (r ∷ rs) h = let a = none-count p rs in ground arith

abbrev left : (Row → Bool) → Option Row → Option Row
left q none = none
left q (some r) = if q r then none else some r

first-delete_where :
    (id : ℕ) (q : Row → Bool) (rs : List Row)
    → count (has_id id) rs ≤ 1
    → first (select (has_id id) (delete_where q rs)) ≡ left q (first (select (has_id id) rs))
unfolding select delete_where count
first-delete_where id q [] h = refl
first-delete_where id q (r ∷ rs) h =
    let a = first-delete_where id q rs in
    elim (Bool-cases (has_id id r)) [ inl e ↦ same e (λ k. a k) | inr e ↦ ground arith ]
  where
    same :
        has_id id r ≡ true
        → (count (has_id id) rs ≤ 1
            → first (select (has_id id) (delete_where q rs))
              ≡ left q (first (select (has_id id) rs)))
        → first (select (has_id id) (delete_where q (r ∷ rs)))
          ≡ left q (first (select (has_id id) (r ∷ rs)))
    same e later =
        let d = later (ground arith) ∙ ap (left q) (none-count (has_id id) rs (ground arith)) in
        ground arith

abbrev added : (Row → Bool) → Row → Option Row → Option Row
added p r none = if p r then some r else none
added p r (some s) = some s

first-append :
    (id : ℕ) (rs : List Row) (r : Row)
    → first (select (has_id id) (rs ++ r ∷ []))
      ≡ added (has_id id) r (first (select (has_id id) rs))
unfolding select
first-append id [] r = ground arith
first-append id (s ∷ rs) r = let a = first-append id rs r in ground arith

-- What an operation may do to a job: nothing, a step of the machine.
abbrev pub Follows : ℕ → Table → Table → Type 0
Follows id t t' = may_become (leb t.next_id id) (phase id t) (phase id t') ≡ true

pub stays : (b : Bool) (x : Phase) → may_become b x x ≡ true
stays b gone = refl
stays b (queued pending) = refl
stays b (queued running) = refl
stays b (queued failed) = refl

steps_on :
    (b : Bool) (x y : Status)
    → (is_running y ≡ true → is_failed x ≡ false)
    → may_become b (queued x) (queued y) ≡ true
steps_on b x pending h = refl
steps_on b x running h = ground arith
steps_on b x failed h = refl

-- An update that makes no failed job run
pub update_where-Follows :
    (id : ℕ) (q : Row → Bool) (f : Row → Row) (t : Table)
    → ((r : Row) → (f r).id ≡ r.id)
    → ((r : Row)
        → first (select (has_id id) t.rows) ≡ some r
        → q r ≡ true
        → is_running (f r).status ≡ true
        → is_failed r.status ≡ false)
    → Follows id t (record t { rows = update_where q f t.rows })
update_where-Follows id q f t h k =
    subst (λ (o : Option Row). may_become new (phase id t) (phase_of o) ≡ true)
      (sym (first-update_where id q f t.rows h)) (by_found (first (select (has_id id) t.rows)) refl)
  where
    new : Bool
    new = leb t.next_id id

    by_test :
        (r : Row) (b : Bool)
        → q r ≡ b
        → first (select (has_id id) t.rows) ≡ some r
        → may_become new (queued r.status) (queued (if b then f r else r).status) ≡ true
    by_test r true e found = steps_on new r.status (f r).status (k r found e)
    by_test r false e found = stays new (queued r.status)

    by_found :
        (o : Option Row)
        → first (select (has_id id) t.rows) ≡ o
        → may_become new (phase_of o) (phase_of (updated q f o)) ≡ true
    by_found none e = refl
    by_found (some r) e = by_test r (q r) refl e

-- An operation that queues new jobs, or takes jobs out of the queue
abbrev pub calm : Bool → Phase → Phase → Bool
calm is_new gone gone = true
calm is_new gone (queued pending) = is_new
calm is_new gone (queued running) = false
calm is_new gone (queued failed) = false
calm is_new (queued s) gone = true
calm is_new (queued pending) (queued s) = is_pending s
calm is_new (queued running) (queued s) = is_running s
calm is_new (queued failed) (queued s) = is_failed s

pub calm-may_become : (b : Bool) (x y : Phase) → calm b x y ≡ true → may_become b x y ≡ true
calm-may_become b x y h = ground arith

pub calm_trans :
    (b c : Bool) (x y z : Phase)
    → calm b x y ≡ true
    → calm c y z ≡ true
    → (c ≡ true → b ≡ true)
    → (b ≡ true → x ≡ gone)
    → calm b x z ≡ true
calm_trans b c x y z h k l m = ground arith

abbrev pub Calm : ℕ → Table → Table → Type 0
Calm id t t' = calm (leb t.next_id id) (phase id t) (phase id t') ≡ true

pub delete_where-Calm :
    (id : ℕ) (q : Row → Bool) (t : Table)
    → Safe t
    → Calm id t (record t { rows = delete_where q t.rows })
delete_where-Calm id q t s =
    subst (λ (o : Option Row). calm (leb t.next_id id) (phase id t) (phase_of o) ≡ true)
      (sym (first-delete_where id q t.rows (s.ids id)))
      (by_found (first (select (has_id id) t.rows)))
  where
    by_found : (o : Option Row) → calm (leb t.next_id id) (phase_of o) (phase_of (left q o)) ≡ true
    by_found none = refl
    by_found (some r) =
        if_both (λ (o : Option Row). calm (leb t.next_id id) (queued r.status) (phase_of o) ≡ true)
          (q r) refl (ground arith)

pub insert-Calm :
    (id v : ℕ) (k : Kind) (payload batch : Str) (attempts now : ℕ) (t : Table)
    → Calm id t (insert v k payload batch attempts now t)
insert-Calm id v k payload batch attempts now t =
    subst (λ (o : Option Row). calm (leb t.next_id id) (phase id t) (phase_of o) ≡ true)
      (sym (first-append id t.rows row)) (by_found (first (select (has_id id) t.rows)))
  where
    row : Row
    row = new_row t.next_id v k payload batch attempts now

    by_found :
        (o : Option Row)
        → calm (leb t.next_id id) (phase_of o) (phase_of (added (has_id id) row o)) ≡ true
    by_found none = ground arith
    by_found (some r) = ground arith
