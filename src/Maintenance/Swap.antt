-- ===== src/Maintenance/Swap.antt =====
-- The Swapper of internal/maintenance/swap.go: each method is an action on the disk. A logged or
-- dropped error is a `try` whose reply is not looked at.
use holodex.Prelude.{
  ℕ, suc, ◌+◌, Str, codes, ◌=s◌, Bool, true, false, not, ◌&&◌, Option, none, some, List, [], ◌∷◌,
  ◌++◌, if◌then◌else◌,
}
use holodex.Maintenance.Disk.{
  Node, link, HeldState, swapping, held, restoring, discarding, state_eq, held_path_suffix,
  HeldOriginal, Error, not_exist, symlinked_sibling, held_mismatch, missing, M, ◌>>=◌, ◌>>◌, pure,
  raise, effect, Reply, good, bad, try, lstat_act, move_act, remove_act, get_held_original,
  begin_swap, set_held_state, delete_held_original, list_held_originals,
}

-- HeldPath
unfoldable pub held_path : Str → Str
held_path path = path ++ held_path_suffix

-- NewPath
unfoldable pub new_path : Str → Str
new_path path = path ++ codes ".holodex-new"

unfoldable pub rename : Str → Str → M (Unit {0})
rename old new = effect (move_act old new)

unfoldable pub remove : Str → M (Unit {0})
remove name = effect (remove_act name)

unfoldable pub lstat : Str → M Node
lstat name = effect (lstat_act name)

abbrev pub symlink_reply : Reply Node → M (Unit {0})
symlink_reply (good link) = raise symlinked_sibling
symlink_reply _ = pure tt

-- refuseSymlink: an Lstat error of any kind refuses nothing.
unfoldable pub refuse_symlink : Str → M (Unit {0})
refuse_symlink name = try (lstat name) >>= symlink_reply

abbrev pub exists_reply : Reply Node → M Bool
exists_reply (good n) = pure true
exists_reply (bad not_exist) = pure false
exists_reply (bad e) = raise e

-- exists
unfoldable pub exists : Str → M Bool
exists name = try (lstat name) >>= exists_reply

abbrev pub standing : HeldOriginal → Str → Bool
standing h path = state_eq h.state held && h.held_path =s path

-- The second rename of a first swap failed: roll the first one back. A failed rollback leaves the
-- row in swapping, for boot recovery.
abbrev pub rolled_back : ℕ → Error → Reply (Unit {0}) → M (Unit {0})
rolled_back v e (bad _) = raise e
rolled_back v e (good _) = try (delete_held_original v) >>= λ _. raise e

abbrev pub placed : ℕ → Str → Reply (Unit {0}) → M (Unit {0})
placed v path (good _) = set_held_state v held
placed v path (bad e) = try (rename (held_path path) path) >>= rolled_back v e

abbrev pub set_aside : ℕ → Str → Reply (Unit {0}) → M (Unit {0})
set_aside v path (good _) = try (rename (new_path path) path) >>= placed v path
set_aside v path (bad e) = try (delete_held_original v) >>= λ _. raise e

-- A file at the held path with no journal row, or an unknown answer, stops the swap.
abbrev pub first_swap : ℕ → Str → Str → ℕ → ℕ → Reply Bool → M (Unit {0})
first_swap v path op now hold (bad e) = raise held_mismatch
first_swap v path op now hold (good true) = raise held_mismatch
first_swap v path op now hold (good false) = do
  begin_swap v (held_path path) op now (now + hold)
  aside ← try (rename path (held_path path))
  set_aside v path aside

abbrev pub swap_row : ℕ → Str → Str → ℕ → ℕ → Option HeldOriginal → M (Unit {0})
swap_row v path op now hold (some h) =
    if not (standing h (held_path path)) then raise held_mismatch else rename (new_path path) path
swap_row v path op now hold none = try (exists (held_path path)) >>= first_swap v path op now hold

-- Swapper.Swap, with the clock's reading and the hold's length
unfoldable pub swap : ℕ → Str → Str → ℕ → ℕ → M (Unit {0})
swap v path op now hold = do
  refuse_symlink (held_path path)
  refuse_symlink (new_path path)
  h ← get_held_original v
  swap_row v path op now hold h

abbrev pub held_row : Str → Option HeldOriginal → M Str
held_row path none = raise held_mismatch
held_row path (some h) =
    if standing h path then (refuse_symlink path >>= λ _. pure path) else raise held_mismatch

-- heldFor
unfoldable pub held_for : ℕ → Str → M Str
held_for v path = get_held_original v >>= held_row (held_path path)

abbrev pub after_restore : ℕ → Reply (Unit {0}) → M (Unit {0})
after_restore v (good _) = delete_held_original v
after_restore v (bad e) = try (set_held_state v held) >>= λ _. raise e

-- Swapper.Restore
unfoldable pub restore : ℕ → Str → M (Unit {0})
restore v path = do
  original ← held_for v path
  set_held_state v restoring
  moved ← try (rename original path)
  after_restore v moved

abbrev pub after_discard : ℕ → Reply (Unit {0}) → M (Unit {0})
after_discard v (good _) = delete_held_original v
after_discard v (bad not_exist) = delete_held_original v
after_discard v (bad e) = try (set_held_state v held) >>= λ _. raise e

-- Swapper.Discard
unfoldable pub discard : ℕ → Str → M (Unit {0})
discard v path = do
  original ← held_for v path
  set_held_state v discarding
  gone ← try (remove original)
  after_discard v gone

-- Recovery.

-- strings.TrimSuffix behind strings.HasSuffix: the text before the suffix, if it ends in it
unfoldable pub cut_suffix : Str → Str → Option Str
cut_suffix suffix [] = if [] =s suffix then some [] else none
cut_suffix suffix (c ∷ s) =
    let rest = cut_suffix suffix s in
    if (c ∷ s) =s suffix then some [] else elim rest [ none ↦ none | some t ↦ some (c ∷ t) ]

abbrev pub recover_discard : ℕ → Reply (Unit {0}) → M (Unit {0})
recover_discard v (good _) = delete_held_original v
recover_discard v (bad not_exist) = delete_held_original v
recover_discard v (bad e) = raise e

-- The switch of recoverOne: the journal's state, then which of the path, the held original and the
-- candidate exist.
abbrev pub settle : HeldState → ℕ → Str → Bool → Bool → Bool → M (Unit {0})
settle swapping v path true false has_new = delete_held_original v
settle swapping v path true true has_new = set_held_state v held
settle swapping v path false true true = do rename (new_path path) path; set_held_state v held
settle swapping v path false true false = do rename (held_path path) path; delete_held_original v
settle swapping v path false false has_new = raise missing
settle restoring v path has_path true has_new = do
  rename (held_path path) path
  delete_held_original v
settle restoring v path has_path false has_new = delete_held_original v
settle discarding v path has_path has_held has_new =
    try (remove (held_path path)) >>= recover_discard v
settle held v path has_path has_held has_new = pure tt

abbrev pub joined : HeldOriginal → Str → Reply Bool → Reply Bool → Reply Bool → M (Unit {0})
joined h path (good a) (good b) (good c) = settle h.state h.video_id path a b c
joined h path (bad e) _ _ = raise e
joined h path _ (bad e) _ = raise e
joined h path _ _ (bad e) = raise e

abbrev pub recover_at : HeldOriginal → Option Str → M (Unit {0})
recover_at h none = raise held_mismatch
recover_at h (some path) = do
  refuse_symlink h.held_path
  refuse_symlink (new_path path)
  has_path ← try (exists path)
  has_held ← try (exists h.held_path)
  has_new ← try (exists (new_path path))
  joined h path has_path has_held has_new

-- recoverOne
unfoldable pub recover_one : HeldOriginal → M (Unit {0})
unfolding cut_suffix
recover_one h = recover_at h (cut_suffix held_path_suffix h.held_path)

-- The settled rows and the number of errors joined so far.
abbrev pub Tally : Type 0
Tally = ℕ × ℕ

abbrev pub tally : Tally → Reply (Unit {0}) → Tally
tally (settled, errors) (good _) = (suc settled, errors)
tally (settled, errors) (bad _) = (settled, suc errors)

unfoldable pub recover_rows : List HeldOriginal → Tally → M Tally
recover_rows [] n = pure n
recover_rows (h ∷ t) n = try (recover_one h) >>= λ r. recover_rows t (tally n r)

-- RecoverSwaps: a failed listing ends it, a failed row does not.
unfoldable pub recover_swaps : M Tally
unfolding recover_rows
recover_swaps = do
  a ← list_held_originals swapping
  n ← recover_rows a (0, 0)
  b ← list_held_originals restoring
  m ← recover_rows b n
  c ← list_held_originals discarding
  recover_rows c m
