-- ===== src/Maintenance/Guard.antt =====
-- The invariant of a swap: the file as it was before maintenance is on the disk, and the journal
-- says where. Every operation keeps it, whatever fails and wherever the process dies.
use holodex.Prelude.{ℕ, Str, =s_refl, ◌≡◌, refl, subst, Bool, true, false, ◌&&◌, Option, none, some}
use holodex.Maintenance.Disk.{
  Node, absent, file, HeldState, swapping, held, restoring, discarding, state_eq, HeldOriginal,
  Disk, Error, M, ◌>>=◌, ◌>>◌, try, Reply, good, bad, find_row, get_held_original,
  delete_held_original, raise,
}
use holodex.Maintenance.Swap.{
  held_path, new_path, standing, refuse_symlink, rolled_back, placed, set_aside, first_swap,
  swap_row, swap,
}
use holodex.Maintenance.Hoare.{
  Assert, Triple, Triple-bind, Triple-tried, Triple-guarded, Triple-last, Triple-raise,
  Triple-weaken, Triple-given, Triple-widen, on_reply,
}
use holodex.Maintenance.Journal.{RowOf}
use holodex.Maintenance.Steps.{
  At, Taken, Triple-Taken, is_present, move_aside, move_back, place, set_state, drop_journal, begin,
}
use holodex.Maintenance.Reads.{refuse_symlink-Steps, exists-Steps, get_held-Steps}

-- `o` is the content before maintenance began.
pub data Guarded (v : ℕ) (p : Str) (o : ℕ) (d : Disk) : Type 0 where
  idle : At v p (file o) absent none d → Guarded v p o d
  unmoved : At v p (file o) absent (some swapping) d → Guarded v p o d
  aside : At v p absent (file o) (some swapping) d → Guarded v p o d
  both :
      (n : Node) (s : HeldState)
      → is_present n ≡ true
      → state_eq s discarding ≡ false
      → At v p n (file o) (some s) d
      → Guarded v p o d
  restored : At v p (file o) absent (some restoring) d → Guarded v p o d

-- An operation that keeps the invariant.
abbrev pub Guards : {A : Type 0} → ℕ → Str → ℕ → Assert → M A → Type 0
Guards v p o P m = Triple P m (λ _. Guarded v p o) (λ _. Guarded v p o) (Guarded v p o)

pub standing-RowOf :
    (v : ℕ) (p : Str) (s : HeldState) (h : HeldOriginal)
    → RowOf v p s h
    → standing h (held_path p) ≡ state_eq s held
standing-RowOf v p s h r = rw (r.in_state, r.holds, =s_refl) (and_true (state_eq s held))
  where
    and_true : (b : Bool) → (b && true) ≡ b
    and_true true = refl
    and_true false = refl

module _ (v : ℕ) (p : Str) (o : ℕ) where
  forget_row :
      (a b : Node) (e : Error)
      → ((d : Disk) → At v p a b (some swapping) d → Guarded v p o d)
      → ((d : Disk) → At v p a b none d → Guarded v p o d)
      → Guards v p o
          (At v p a b (some swapping))
          (try (delete_held_original v) >>= λ _. raise {A = Unit {0}} e)
  forget_row a b e kept gone =
      Triple-bind _ _ (Triple-tried _ kept (drop_journal v p a b (some swapping))) reply
    where
      reply :
          (r : Reply (Unit {0}))
          → Guards v p o
              (on_reply (λ _. At v p a b none) (At v p a b (some swapping)) r)
              (raise {A = Unit {0}} e)
      reply (good _) = Triple-raise _ gone
      reply (bad _) = Triple-raise _ kept

  rolled_back-Guards :
      (e : Error) (r : Reply (Unit {0}))
      → Guards v p o
          (on_reply
            (λ _. At v p (file o) absent (some swapping))
            (At v p absent (file o) (some swapping))
            r)
          (rolled_back v e r)
  rolled_back-Guards e (good _) = forget_row (file o) absent e (λ _ h. unmoved h) (λ _ h. idle h)
  rolled_back-Guards e (bad _) = Triple-raise _ (λ _ h. aside h)

  placed-Guards :
      (r : Reply (Unit {0}))
      → Guards v p o
          (on_reply
            (λ _. Taken v p (file o) (some swapping))
            (At v p absent (file o) (some swapping))
            r)
          (placed v p r)
  placed-Guards (good _) = Triple-Taken _ λ m here.
      Triple-last _ (λ _ h. both m swapping here refl h) (λ _ _ h. both m held here refl h)
        (set_state v p m (file o) swapping held)
  placed-Guards (bad e) =
      Triple-bind _ _ (Triple-tried _ (λ _ h. aside h) (move_back v p absent o (some swapping)))
        (rolled_back-Guards e)

  set_aside-Guards :
      (r : Reply (Unit {0}))
      → Guards v p o
          (on_reply
            (λ _. At v p absent (file o) (some swapping))
            (At v p (file o) absent (some swapping))
            r)
          (set_aside v p r)
  set_aside-Guards (good _) =
      Triple-bind _ _ (Triple-tried _ (λ _ h. aside h) (place v p absent (file o) (some swapping)))
        placed-Guards
  set_aside-Guards (bad e) = forget_row (file o) absent e (λ _ h. unmoved h) (λ _ h. idle h)

  first_swap-Guards :
      (op : Str) (now hold : ℕ) (r : Reply Bool)
      → Guards v p o
          (on_reply (λ _. At v p (file o) absent none) (At v p (file o) absent none) r)
          (first_swap v p op now hold r)
  first_swap-Guards op now hold (bad e) = Triple-raise _ (λ _ h. idle h)
  first_swap-Guards op now hold (good true) = Triple-raise _ (λ _ h. idle h)
  first_swap-Guards op now hold (good false) =
      Triple-bind _ _ (Triple-guarded _ (λ _ h. idle h) (begin v p (file o) absent op now _)) λ _.
        Triple-bind _ _
          (Triple-tried _ (λ _ h. unmoved h) (move_aside v p o absent (some swapping)))
          set_aside-Guards

  -- A video with a row: the swap goes on only over a standing hold.
  second_swap-Guards :
      (a b : Node) (s : HeldState) (h : HeldOriginal) (op : Str) (now hold : ℕ)
      → ((d : Disk) → At v p a b (some s) d → Guarded v p o d)
      → (s ≡ held → b ≡ file o)
      → RowOf v p s h
      → Guards v p o (At v p a b (some s)) (swap_row v p op now hold (some h))
  second_swap-Guards a b held h op now hold keep stands r =
      rw (standing-RowOf v p held h r, stands refl)
        (Triple-last _ (rw (stands refl) at keep) (λ _ _ t. both t.node held t.here refl t.now)
          (place v p a (file o) (some held)))
  second_swap-Guards a b s h op now hold keep stands r =
      rw (standing-RowOf v p s h r) (Triple-raise _ keep)

pub row_read :
    (v : ℕ) (p : Str) (a b : Node) (s : HeldState) (o : Option HeldOriginal) (d : Disk)
    → At v p a b (some s) d × (find_row v d.journal ≡ o)
    → (h : HeldOriginal) × (o ≡ some h) × RowOf v p s h
row_read v p a b s o d (h, e) = let (k, f, r) = h.journaled in (k, cc, r)

pub row_is :
    (v : ℕ) (p : Str) (a b : Node) (s : HeldState) (h : HeldOriginal) (d : Disk)
    → At v p a b (some s) d
    → find_row v d.journal ≡ some h
    → RowOf v p s h
row_is v p a b s h d t e =
    let (k, f, r) = t.journaled in let same : k ≡ h = cc (f, e) in subst (RowOf v p s) same r

pub no_row_read :
    (v : ℕ) (p : Str) (a b : Node) (o : Option HeldOriginal) (d : Disk)
    → At v p a b none d × (find_row v d.journal ≡ o)
    → o ≡ none
no_row_read v p a b o d (h, e) = cc (h.journaled, e)

module _ (v : ℕ) (p : Str) (o : ℕ) where
  -- The two refusals, the read of the row, then `next`.
  checked-Guards :
      (P : Assert) (next : Option HeldOriginal → M (Unit {0}))
      → ((d : Disk) → P d → Guarded v p o d)
      → ((r : Option HeldOriginal) → Guards v p o (λ d. P d × (find_row v d.journal ≡ r)) (next r))
      → Guards v p o P (do
        refuse_symlink (held_path p)
        refuse_symlink (new_path p)
        r ← get_held_original v
        next r)
  checked-Guards P next keep rest =
      Triple-bind _ _ (Triple-guarded _ keep (refuse_symlink-Steps (held_path p))) λ _.
        Triple-bind _ _ (Triple-guarded _ keep (refuse_symlink-Steps (new_path p)))
          λ _. Triple-bind _ _ (Triple-guarded _ keep (get_held-Steps v)) rest

  pub swap-idle :
      (op : Str) (now hold : ℕ) → Guards v p o (At v p (file o) absent none) (swap v p op now hold)
  unfolding swap
  swap-idle op now hold =
      checked-Guards _ _ (λ _ h. idle h)
        λ r. Triple-given _ (no_row_read v p (file o) absent r) λ e. rw e (
          Triple-weaken _ (λ _ h. h.0)
            (Triple-bind _ _
              (Triple-widen
                {Q = on_reply
                  (λ b d. At v p (file o) absent none d × (is_present (d.files (held_path p)) ≡ b))
                  (At v p (file o) absent none)}
                _ drop_answer (λ _ _ h. h) (λ _ h. h)
                (Triple-tried _ (λ _ h. idle h) (exists-Steps (held_path p))))
              (first_swap-Guards v p o op now hold)))
    where
      drop_answer :
          (r : Reply Bool) (d : Disk)
          → on_reply
              (λ b e. At v p (file o) absent none e × (is_present (e.files (held_path p)) ≡ b))
              (At v p (file o) absent none)
              r
              d
          → on_reply (λ _. At v p (file o) absent none) (At v p (file o) absent none) r d
      drop_answer (good b) d h = h.0
      drop_answer (bad e) d h = h

  pub swap-busy :
      (a b : Node) (s : HeldState) (op : Str) (now hold : ℕ)
      → ((d : Disk) → At v p a b (some s) d → Guarded v p o d)
      → (s ≡ held → b ≡ file o)
      → Guards v p o (At v p a b (some s)) (swap v p op now hold)
  unfolding swap
  swap-busy a b s op now hold keep stands = checked-Guards _ _ keep λ r.
      Triple-given _ (row_read v p a b s r) λ (h, e, of_row). rw e (
        Triple-weaken _ (λ _ x. x.0)
          (second_swap-Guards v p o a b s h op now hold keep stands of_row))
