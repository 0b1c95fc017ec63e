-- ===== src/Maintenance/Undo.antt =====
-- A first swap in which nothing fails, and the restore that takes it back.
use holodex.Prelude.{ℕ, ◌+◌, Str, =s_refl, ◌≡◌, refl, some, [], ◌∷◌, ◌++◌}
use holodex.Maintenance.Disk.{
  Node, absent, file, swapping, held, restoring, HeldOriginal, Disk, done, put, ◌>>=◌, try, effect,
  get_held_original, begin_swap, begin_act, set_held_state, set_act, put_state, drop_row,
  delete_held_original, pure,
}
use holodex.Maintenance.Swap.{held_path, new_path, swap, restore, held_for}
use holodex.Maintenance.Paths.{path_ne_held, path_ne_new, held_ne_new, new_ne_held}
use holodex.Maintenance.Journal.{find_row-drop_row, find_row-begin, find_row-put_state}
use holodex.Maintenance.Steps.{At}
use holodex.Maintenance.Guard.{standing-RowOf}
use holodex.Maintenance.Clean.{calm, refuse_symlink-calm, exists-calm, rename-calm}
use holodex.Maintenance.Safety.{IsFresh}

module _ (v : ℕ) (p : Str) (o c : ℕ) (d : Disk) (op : Str) (now hold : ℕ) where
  -- The journal row and the files that the swap leaves.
  abbrev swap_entry : HeldOriginal
  swap_entry = record {
    video_id = v;
    held_path = held_path p;
    op = op;
    state = swapping;
    created_at = now;
    expires_at = now + hold;
  }

  abbrev aside_files : Str → Node
  aside_files = put (put d.files p absent) (held_path p) (file o)

  abbrev swapped_disk : Disk
  swapped_disk = record {
    files = put (put aside_files (new_path p) absent) p (file c);
    journal = put_state v held (d.journal ++ swap_entry ∷ []);
  }

  swap-calm :
      IsFresh v p o d
      → d.files (new_path p) ≡ file c
      → swap v p op now hold (calm d) ≡ (done tt, calm swapped_disk)
  unfolding swap ◌>>=◌ get_held_original effect try begin_swap begin_act set_held_state set_act
  swap-calm fresh candidate =
      let begun : Disk = record d { journal = d.journal ++ swap_entry ∷ [] } in
      let moved : aside_files (new_path p) ≡ file c =
        unfold put in rw (held_ne_new p, path_ne_new p) candidate in
      rw (
        refuse_symlink-calm (held_path p) d (rw fresh.original),
        refuse_symlink-calm (new_path p) d fresh.candidate,
        fresh.journaled,
        exists-calm (held_path p) d,
        fresh.original,
        fresh.journaled,
        rename-calm p (held_path p) (file o) begun fresh.path refl,
        rename-calm (new_path p) p (file c) (record begun { files = aside_files }) moved refl,
        find_row-begin v swap_entry d.journal fresh.journaled refl,
      )

  swapped-At : IsFresh v p o d → At v p (file c) (file o) (some held) swapped_disk
  unfolding put
  swapped-At fresh = record {
    path = rw =s_refl;
    original = rw (path_ne_held p, new_ne_held p, =s_refl);
    candidate = rw (path_ne_new p, =s_refl);
    journaled = (
      record swap_entry { state = held },
      find_row-put_state v held swap_entry _
          (find_row-begin v swap_entry d.journal fresh.journaled refl),
      record { in_state = refl; holds = refl; of_video = refl },
    );
  }

module _ (v : ℕ) (p : Str) (n : Node) (o : ℕ) (d : Disk) where
  abbrev restored_disk : Disk
  restored_disk = record {
    files = put (put d.files (held_path p) absent) p (file o);
    journal = drop_row v (put_state v restoring d.journal);
  }

  restore-calm :
      At v p n (file o) (some held) d → restore v p (calm d) ≡ (done tt, calm restored_disk)
  unfolding restore held_for ◌>>=◌ get_held_original effect try set_held_state set_act pure
      delete_held_original
  restore-calm t =
      let (h, f, r) = t.journaled in
      rw (
        f,
        standing-RowOf v p held h r,
        refuse_symlink-calm (held_path p) d (rw t.original),
        f,
        rename-calm (held_path p) p (file o)
            (record d { journal = put_state v restoring d.journal }) t.original refl,
      )

  restored-IsFresh : At v p n (file o) (some held) d → IsFresh v p o restored_disk
  unfolding put
  restored-IsFresh t = record {
    path = rw =s_refl;
    original = rw (path_ne_held p, =s_refl);
    candidate = rw (path_ne_new p, held_ne_new p) t.candidate;
    journaled = find_row-drop_row v _;
  }

-- A first swap with a candidate in which nothing fails puts the candidate's content at the path and
-- the original at the held path, and a restore after it, in which nothing fails, puts the file, its
-- held path and the journal back as they were: the original in place, nothing held, no row. Neither
-- returns an error.
pub restore-swap :
    (v : ℕ) (p : Str) (o c : ℕ) (d : Disk) (op : Str) (now hold : ℕ)
    → IsFresh v p o d
    → d.files (new_path p) ≡ file c
    → let (r, w) = swap v p op now hold (calm d) in
      let (s, x) = restore v p w in
      (r ≡ done tt)
      × (w.disk.files p ≡ file c)
      × (w.disk.files (held_path p) ≡ file o)
      × (s ≡ done tt)
      × IsFresh v p o x.disk
restore-swap v p o c d op now hold fresh candidate =
    let t = swapped-At v p o c d op now hold fresh in
    rw (swap-calm v p o c d op now hold fresh candidate) (
      refl,
      t.path,
      t.original,
      rw (restore-calm v p (file c) o _ t),
      rw (restore-calm v p (file c) o _ t) (restored-IsFresh v p (file c) o _ t),
    )
