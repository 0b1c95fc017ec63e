-- ===== src/Maintenance/Recovery.antt =====
-- Boot recovery keeps the invariant of a swap, and a recovery that returns has settled the file.
use holodex.Prelude.{ℕ, Str, ◌≡◌, refl, Bool, true, false, none, some}
use holodex.Maintenance.Disk.{
  World, Node, absent, file, HeldState, swapping, held, restoring, discarding, state_eq,
  HeldOriginal, Disk, M, ◌>>◌, try, Reply, good, bad, find_row, set_held_state,
  delete_held_original,
}
use holodex.Maintenance.Swap.{held_path, new_path, rename, exists, joined, settle, recover_one}
use holodex.Maintenance.Hoare.{
  Assert, Ends, Triple, Triple-bind, Triple-tried, Triple-guarded, Triple-raise, Triple-pure,
  Triple-weaken, Triple-given, Triple-widen, on_reply,
}
use holodex.Maintenance.Journal.{RowOf}
use holodex.Maintenance.Paths.{cut_suffix-held_path}
use holodex.Maintenance.Steps.{
  At, Triple-Taken, is_present, move_back, place, set_state, drop_journal,
}
use holodex.Maintenance.Reads.{refuse_symlink-Steps, exists-Steps}
use holodex.Maintenance.Guard.{Guarded, idle, unmoved, aside, both, restored, row_is}

-- Recovery returned: the video has no journal row and its file is as it was before maintenance, or
-- the hold stands.
pub data Settled (v : ℕ) (p : Str) (o : ℕ) (d : Disk) : Type 0 where
  original : At v p (file o) absent none d → Settled v p o d
  holding : (n : Node) → is_present n ≡ true → At v p n (file o) (some held) d → Settled v p o d

abbrev pub Settles : {A : Type 0} → ℕ → Str → ℕ → Assert → M A → Type 0
Settles v p o P m = Triple P m (λ _. Settled v p o) (λ _. Guarded v p o) (Guarded v p o)

-- An existence test that came back with an answer came back with the right one.
abbrev Tells : Node → Reply Bool → Type 0
Tells n (good b) = is_present n ≡ b
Tells n (bad e) = Unit

abbrev Told : Assert → Str → Reply Bool → Assert
Told P q r d = P d × Tells (d.files q) r

module _ (v : ℕ) (p : Str) (o : ℕ) where
  ask :
      (P : Assert) (q : Str)
      → ((d : Disk) → P d → Guarded v p o d)
      → Triple P (try (exists q)) (Told P q) (λ _. Guarded v p o) (Guarded v p o)
  ask P q keep =
      Triple-widen {Q = on_reply (λ b d. P d × (is_present (d.files q) ≡ b)) P} _ told (λ _ _ h. h)
        (λ _ h. h) (Triple-tried _ keep (exists-Steps q))
    where
      told :
          (r : Reply Bool) (d : Disk)
          → on_reply (λ b e. P e × (is_present (e.files q) ≡ b)) P r d
          → Told P q r d
      told (good b) d h = h
      told (bad e) d h = (h, tt)

  -- The moves that settle: each from what the tests showed.
  settle_undo :
      (a b : Node) (s : HeldState)
      → ((d : Disk) → At v p a b (some s) d → Guarded v p o d)
      → a ≡ file o
      → b ≡ absent
      → Settles v p o (At v p a b (some s)) (delete_held_original v)
  settle_undo a b s keep e f =
      Triple-widen _ (λ _ _ h. original (rw (← e, ← f) h)) (λ _. keep) keep
        (drop_journal v p a b (some s))

  settle_back :
      (a : Node) (s : HeldState)
      → ((d : Disk) → At v p a (file o) (some s) d → Guarded v p o d)
      → ((d : Disk) → At v p (file o) absent (some s) d → Guarded v p o d)
      → Settles v p o
          (At v p a (file o) (some s))
          (do rename (held_path p) p; delete_held_original v)
  settle_back a s keep after =
      Triple-bind _ _ (Triple-guarded _ keep (move_back v p a o (some s)))
        λ _. settle_undo (file o) absent s after refl refl

  settle_forward :
      (n : Node) (s : HeldState)
      → is_present n ≡ true
      → state_eq s discarding ≡ false
      → Settles v p o (At v p n (file o) (some s)) (set_held_state v held)
  settle_forward n s here other =
      Triple-widen _ (λ _ _ h. holding n here h) (λ _ _ h. both n s here other h)
        (λ _ h. both n s here other h) (set_state v p n (file o) s held)

  settle_finish :
      Settles v p o
        (At v p absent (file o) (some swapping))
        (do rename (new_path p) p; set_held_state v held)
  settle_finish =
      Triple-bind _ _
        (Triple-guarded _ (λ _ h. aside h) (place v p absent (file o) (some swapping)))
        λ _. Triple-Taken _ (λ n here. settle_forward n swapping here refl)

  -- What recoverOne does once it has read which files exist.
  recover_known :
      (a b : Node) (s : HeldState) (h : HeldOriginal)
      → ((d : Disk) → At v p a b (some s) d → Guarded v p o d)
      → RowOf v p s h
      → ((x y z : Bool)
          → is_present a ≡ x
          → is_present b ≡ y
          → Settles v p o (At v p a b (some s)) (settle s v p x y z))
      → Settles v p o (At v p a b (some s)) (recover_one h)
  unfolding recover_one
  recover_known a b s h keep r moves =
      rw (r.holds, cut_suffix-held_path p)
        (Triple-bind _ _ (Triple-guarded _ keep (refuse_symlink-Steps (held_path p))) λ _.
          Triple-bind _ _ (Triple-guarded _ keep (refuse_symlink-Steps (new_path p))) λ _.
            Triple-bind _ _ (ask asked p keep) λ x.
              Triple-bind _ _ (ask (Told asked p x) (held_path p) (λ d t. keep d t.0)) λ y.
                Triple-bind _ _
                  (ask (Told (Told asked p x) (held_path p) y) (new_path p) (λ d t. keep d t.0.0))
                  (λ z. answer x y z))
    where
      asked : Assert
      asked = At v p a b (some s)

      answer :
          (x y z : Reply Bool)
          → Settles v p o
              (Told (Told (Told asked p x) (held_path p) y) (new_path p) z)
              (joined h p x y z)
      answer (good x) (good y) (good z) =
          Triple-given {X = (is_present a ≡ x) × (is_present b ≡ y)} _
            (λ d t. (cc (t.0.0.0.path, t.0.0.1), cc (t.0.0.0.original, t.0.1)))
            λ (e, f).
              rw (r.in_state, r.of_video) (Triple-weaken _ (λ d t. t.0.0.0) (moves x y z e f))
      answer (bad e) y z = Triple-raise _ (λ d t. keep d t.0.0.0)
      answer (good x) (bad e) z = Triple-raise _ (λ d t. keep d t.0.0.0)
      answer (good x) (good y) (bad e) = Triple-raise _ (λ d t. keep d t.0.0.0)

  from_unmoved :
      (x y z : Bool)
      → is_present (file o) ≡ x
      → is_present absent ≡ y
      → Settles v p o (At v p (file o) absent (some swapping)) (settle swapping v p x y z)
  from_unmoved true false z e f = settle_undo (file o) absent swapping (λ _ h. unmoved h) refl refl
  from_unmoved true true z e f = cc
  from_unmoved false y z e f = cc

  from_aside :
      (x y z : Bool)
      → is_present absent ≡ x
      → is_present (file o) ≡ y
      → Settles v p o (At v p absent (file o) (some swapping)) (settle swapping v p x y z)
  from_aside false true true e f = settle_finish
  from_aside false true false e f = settle_back absent swapping (λ _ h. aside h) (λ _ h. unmoved h)
  from_aside false false z e f = cc
  from_aside true y z e f = cc

  from_both :
      (n : Node) (s : HeldState)
      → is_present n ≡ true
      → state_eq s discarding ≡ false
      → (x y z : Bool) → is_present n ≡ x
      → is_present (file o) ≡ y
      → Settles v p o (At v p n (file o) (some s)) (settle s v p x y z)
  from_both n swapping here other true true z e f = settle_forward n swapping here other
  from_both n restoring here other x true z e f =
      settle_back n restoring (λ _ h. both n restoring here other h) (λ _ h. restored h)
  from_both n held here other x true z e f = Triple-pure _ (λ _ h. holding n here h)
  from_both n discarding here other x y z e f = cc
  from_both n swapping here other false y z e f = cc
  from_both n s here other x false z e f = cc

  from_restored :
      (x y z : Bool)
      → is_present (file o) ≡ x
      → is_present absent ≡ y
      → Settles v p o (At v p (file o) absent (some restoring)) (settle restoring v p x y z)
  from_restored x false z e f = settle_undo (file o) absent restoring (λ _ h. restored h) refl refl
  from_restored x true z e f = cc

  pub recover-Ends :
      (h : HeldOriginal) (w : World)
      → Guarded v p o w.disk
      → find_row v w.disk.journal ≡ some h
      → Ends
          (λ _. Settled v p o)
          (λ _. Guarded v p o)
          (Guarded v p o)
          (recover_one h w).0
          (recover_one h w).1.disk
  recover-Ends h w (idle t) e = cc (t.journaled, e)
  recover-Ends h w (unmoved t) e =
      (recover_known _ _ swapping h (λ _ x. unmoved x) (row_is v p _ _ _ h _ t e) from_unmoved).run
        w t
  recover-Ends h w (aside t) e =
      (recover_known _ _ swapping h (λ _ x. aside x) (row_is v p _ _ _ h _ t e) from_aside).run w t
  recover-Ends h w (both n s here other t) e =
      (recover_known _ _ s h (λ _ x. both n s here other x) (row_is v p _ _ _ h _ t e)
          (from_both n s here other)).run
        w t
  recover-Ends h w (restored t) e =
      (recover_known _ _ restoring h (λ _ x. restored x) (row_is v p _ _ _ h _ t e)
          from_restored).run
        w t
