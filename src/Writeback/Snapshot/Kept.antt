-- ===== src/Writeback/Snapshot/Kept.antt =====
-- Attempts at a job that a crash cuts short keep the snapshot of the original file.
use holodex.Prelude.{
  ◌≡◌, ◌≢◌, refl, sym, ap, ◌∙◌, arith, Str, Bool, true, false, List, [], ◌∷◌, ◌++◌, map, =s_refl,
  ==_refl, if◌then◌else◌, ◌⊎◌, inl, inr, All,
}
use holodex.Writeback.Snapshot.{
  Snap, JobKey, Call, works, fails, dies, Attempt, is_of, snapshot_exists, snapshot_rows, batch_of,
  World, Stepped, died, went_on, read_current, insert_snapshots, capture, snapshot_before_write,
  write_file, attempt, attempts,
}

-- The rows of a job's batch and video
abbrev pub own : JobKey → List Snap → List Snap
own job [] = []
own job (s ∷ ss) = if is_of (batch_of job) job.video_id s then s ∷ own job ss else own job ss

own-append : (job : JobKey) (xs ys : List Snap) → own job (xs ++ ys) ≡ own job xs ++ own job ys
own-append job [] ys = refl
own-append job (x ∷ xs) ys = let a = own-append job xs ys in ground arith

own-snapshot_rows :
    (job : JobKey) (ps : List (Str × Str))
    → own job (snapshot_rows job.video_id (batch_of job) ps)
      ≡ snapshot_rows job.video_id (batch_of job) ps
unfolding snapshot_rows
own-snapshot_rows job [] = refl
own-snapshot_rows job (p ∷ ps) =
    let a = own-snapshot_rows job ps in
    let b = =s_refl (batch_of job) in let c = ==_refl job.video_id in ground arith

own-none :
    (job : JobKey) (ss : List Snap)
    → snapshot_exists (batch_of job) job.video_id ss ≡ false
    → own job ss ≡ []
unfolding snapshot_exists
own-none job [] h = refl
own-none job (s ∷ ss) h = let a = own-none job ss in ground arith

own-some :
    (job : JobKey) (ss : List Snap)
    → snapshot_exists (batch_of job) job.video_id ss ≡ true
    → own job ss ≢ []
unfolding snapshot_exists
own-some job [] h = absurd (cc)
own-some job (s ∷ ss) h = let a = own-some job ss in ground arith

-- No call of the attempt returns an error; the process may die at each.
abbrev pub is_error : Call → Bool
is_error works = false
is_error fails = true
is_error dies = false

abbrev pub NoError : Attempt → Type 0
NoError a = (is_error a.lookup ≡ false) × ((is_error a.read ≡ false) × (is_error a.insert ≡ false))

module _ {File : Type 0} (value : File → Str → Str) (written : File → File) (keys : List Str)
    (job : JobKey) where
  abbrev original : File → List Snap
  original f = snapshot_rows job.video_id (batch_of job) (read_current value written keys f)

  -- The snapshot has the values of the file f; or there is none, and the file still is f.
  abbrev pub Captured : File → World value written keys → Type 0
  Captured f w = (own job w.snaps ≡ original f) ⊎ ((own job w.snaps ≡ []) × (w.file ≡ f))

  -- Without keys there is nothing to read of any file.
  rows_nil :
      (f g : File) (ks : List Str)
      → snapshot_rows job.video_id (batch_of job) (map (λ k. (k, value f k)) ks) ≡ []
      → snapshot_rows job.video_id (batch_of job) (map (λ k. (k, value g k)) ks) ≡ []
  unfolding snapshot_rows
  rows_nil f g [] e = refl
  rows_nil f g (k ∷ ks) e = absurd (cc)

  -- What the steps before the write leave: a snapshot of f, when the job goes on to write.
  abbrev Ready : File → Stepped value written keys → Type 0
  Ready f (died w) = Captured f w
  Ready f (went_on batch w) = own job w.snaps ≡ original f

  insert-Ready :
      (c : Call) (f : File) (w : World value written keys)
      → is_error c ≡ false
      → own job w.snaps ≡ []
      → Captured f w
      → Ready f (insert_snapshots value written keys c job w)
  insert-Ready works f w n e h =
      own-append job w.snaps (original w.file)
      ∙ ap (λ (xs : List Snap). xs ++ own job (original w.file)) e
      ∙ own-snapshot_rows job (read_current value written keys w.file)
      ∙ by_case h
    where
      by_case : Captured f w → original w.file ≡ original f
      by_case (inl k) = let z = sym k ∙ e in rows_nil f w.file keys z ∙ sym z
      by_case (inr (k, same)) = ap original same
  insert-Ready fails f w n e h = absurd (cc)
  insert-Ready dies f w n e h = h

  capture-Ready :
      (a : Attempt) (f : File) (w : World value written keys)
      → NoError a
      → own job w.snaps ≡ []
      → Captured f w
      → Ready f (capture value written keys a job w)
  capture-Ready a f w n e h = by_read a.read n.1.0
    where
      by_read :
          (c : Call)
          → is_error c ≡ false
          → Ready f (elim c [
            | works ↦ insert_snapshots value written keys a.insert job w
            | fails ↦ went_on [] w
            | dies ↦ died w
          ])
      by_read works k = insert-Ready a.insert f w n.1.1 e h
      by_read fails k = absurd (cc)
      by_read dies k = h

  snapshot_before_write-Ready :
      (a : Attempt) (f : File) (w : World value written keys)
      → NoError a
      → Captured f w
      → Ready f (snapshot_before_write value written keys a job w)
  unfolding snapshot_before_write
  snapshot_before_write-Ready a f w n h = by_lookup a.lookup n.0
    where
      by_exists :
          (b : Bool)
          → snapshot_exists (batch_of job) job.video_id w.snaps ≡ b
          → Captured f w
          → Ready f (if b then went_on (batch_of job) w else capture value written keys a job w)
      by_exists true e (inl k) = k
      by_exists true e (inr (k, same)) = absurd (own-some job w.snaps e k)
      by_exists false e k = capture-Ready a f w n (own-none job w.snaps e) k

      by_lookup :
          (c : Call)
          → is_error c ≡ false
          → Ready f (elim c [
            | works ↦
                if snapshot_exists (batch_of job) job.video_id w.snaps
                then went_on (batch_of job) w
                else capture value written keys a job w
            | fails ↦ capture value written keys a job w
            | dies ↦ died w
          ])
      by_lookup works k = by_exists (snapshot_exists (batch_of job) job.video_id w.snaps) refl h
      by_lookup fails k = absurd (cc)
      by_lookup dies k = h

  write_file-Captured :
      (b : Bool) (f : File) (s : Stepped value written keys)
      → Ready f s
      → Captured f (write_file value written keys b s)
  write_file-Captured true f (went_on batch w) h = inl h
  write_file-Captured false f (went_on batch w) h = inl h
  write_file-Captured b f (died w) h = h

  attempts-Captured :
      (tries : List Attempt) (f : File) (w : World value written keys)
      → All NoError tries
      → Captured f w
      → Captured f (attempts value written keys job tries w)
  unfolding attempts
  attempts-Captured [] f w n h = h
  attempts-Captured (a ∷ later) f w (k, n) h =
      attempts-Captured later f (attempt value written keys job a w) n (
        write_file-Captured a.is_written f (snapshot_before_write value written keys a job w)
          (snapshot_before_write-Ready a f w k h))

  -- However often a job is cut short by a crash and run again, its snapshot holds the values that the
  -- file had before the first attempt, one row for each field; or there is no row yet, and the file
  -- is unchanged. The calls of the attempts return no error, and no snapshot of the job exists at first.
  pub attempts-Kept :
      (tries : List Attempt) (w : World value written keys)
      → All NoError tries
      → snapshot_exists (batch_of job) job.video_id w.snaps ≡ false
      → Captured w.file (attempts value written keys job tries w)
  attempts-Kept tries w n none_yet =
      attempts-Captured tries w.file w n (inr (own-none job w.snaps none_yet, refl))
