-- ===== src/Maintenance/Tests.antt =====
-- Runs of the swap on one file, and its theorems at them.
use holodex.Prelude.{Str, codes, ◌=s◌, ◌≡◌, refl, ◌⊎◌, some, none, List, [], ◌∷◌}
use holodex.Maintenance.Disk.{
  absent, file, swapping, held, HeldOriginal, Disk, Fault, works, dies, done, ◌>>=◌, try, effect,
  put, move_act, lstat_act, find_row, put_state, get_held_original, begin_act, begin_swap, set_act,
  set_held_state, pure, raise, list_held_originals, rows_in,
}
use holodex.Maintenance.Swap.{
  held_path, new_path, swap, restore, discard, rename, lstat, exists, refuse_symlink, recover_one,
  recover_swaps,
}
use holodex.Maintenance.Steps.{At}
use holodex.Maintenance.Recovery.{Settled}
use holodex.Maintenance.Clean.{calm}
use holodex.Maintenance.Safety.{
  IsFresh, Reach, here, next, swaps, under, Reach-keeps_original, recover_one-Settled,
}
use holodex.Maintenance.Undo.{restore-swap}
use holodex.Maintenance.Discarding.{discard-keeps_file}

abbrev movie : Str
movie = codes "a.mkv"

abbrev remux : Str
remux = codes "remux"

abbrev start : Disk
start = record {
  files = put (put (λ _. absent) movie (file 1)) (new_path movie) (file 2);
  journal = [];
}

start-IsFresh : IsFresh 7 movie 1 start
unfolding put held_path new_path ◌=s◌ find_row
start-IsFresh = record { path = refl; original = refl; candidate = refl; journaled = refl }

-- The process dies between the two renames: the sixth call is the first rename.
abbrev cut_between : List Fault
cut_between = works ∷ works ∷ works ∷ works ∷ works ∷ works ∷ dies ∷ []

abbrev torn : Disk
torn = (swap 7 movie remux 10 100 (under start cut_between)).1.disk

torn-Reach : Reach 7 movie start torn
torn-Reach = next here (swaps start remux 10 100 cut_between)

abbrev entry : HeldOriginal
entry = record {
  video_id = 7;
  held_path = held_path movie;
  op = remux;
  state = swapping;
  created_at = 10;
  expires_at = 110;
}

torn_files : (torn.files movie ≡ absent) × (torn.files (held_path movie) ≡ file 1)
unfolding swap ◌>>=◌ try effect get_held_original find_row refuse_symlink exists lstat lstat_act
    pure raise rename move_act put begin_swap begin_act set_held_state set_act held_path new_path
    ◌=s◌
torn_files = (refl, refl)

torn_row : find_row 7 torn.journal ≡ some entry
unfolding swap ◌>>=◌ try effect get_held_original find_row refuse_symlink exists lstat lstat_act
    pure raise rename move_act put begin_swap begin_act set_held_state set_act held_path new_path
    ◌=s◌
torn_row = refl

Reach-keeps_original_example : (torn.files movie ≡ file 1) ⊎ (torn.files (held_path movie) ≡ file 1)
Reach-keeps_original_example = Reach-keeps_original 7 movie 1 start-IsFresh torn-Reach

recover_one-Settled_example :
    ((recover_one entry (calm torn)).0 ≡ done tt)
    × Settled 7 movie 1 (recover_one entry (calm torn)).1.disk
recover_one-Settled_example = recover_one-Settled 7 movie 1 entry start-IsFresh torn-Reach torn_row

start_candidate : start.files (new_path movie) ≡ file 2
unfolding put new_path ◌=s◌
start_candidate = refl

restore-swap_example :
    let (r, w) = swap 7 movie remux 10 100 (calm start) in
    let (s, x) = restore 7 movie w in
    (r ≡ done tt)
    × (w.disk.files movie ≡ file 2)
    × (w.disk.files (held_path movie) ≡ file 1)
    × (s ≡ done tt)
    × IsFresh 7 movie 1 x.disk
restore-swap_example = restore-swap 7 movie 1 2 start remux 10 100 start-IsFresh start_candidate

abbrev holding_disk : Disk
holding_disk = record {
  files = put (put (λ _. absent) movie (file 2)) (held_path movie) (file 1);
  journal = record entry { state = held } ∷ [];
}

holding_disk-At : At 7 movie (file 2) (file 1) (some held) holding_disk
unfolding put held_path new_path ◌=s◌ find_row
holding_disk-At = record {
  path = refl;
  original = refl;
  candidate = refl;
  journaled = (
    record entry { state = held },
    refl,
    record { in_state = refl; holds = refl; of_video = refl },
  );
}

discard-keeps_file_example :
    ((discard 7 movie (calm holding_disk)).1.disk.files movie ≡ file 2)
    × ((discard 7 movie (calm holding_disk)).0 ≡ done tt
        → At 7 movie (file 2) absent none (discard 7 movie (calm holding_disk)).1.disk)
discard-keeps_file_example =
    discard-keeps_file 7 movie (file 2) 1 (calm holding_disk) holding_disk-At

-- The boot pass over the torn journal settles its one row.
recover_swaps_example : (recover_swaps (calm torn)).0 ≡ done (1, 0)
unfolding recover_swaps recover_one swap ◌>>=◌ try effect get_held_original find_row refuse_symlink
    exists lstat lstat_act pure raise rename move_act put begin_swap begin_act set_held_state
    set_act put_state held_path new_path ◌=s◌ list_held_originals rows_in
recover_swaps_example = refl
