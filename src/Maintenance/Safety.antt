-- ===== src/Maintenance/Safety.antt =====
-- What a video's file goes through under maintenance: swaps, restores, boot recoveries and
-- candidates, each cut off anywhere, in any order.
use holodex.Prelude.{ℕ, Str, =s_refl, ◌≡◌, refl, ◌⊎◌, inl, inr, false, none, some, List, Option}
use holodex.Maintenance.Disk.{
  Node, absent, file, HeldState, swapping, held, restoring, HeldOriginal, Disk, Fault, World,
  Outcome, done, put, find_row,
}
use holodex.Maintenance.Swap.{held_path, new_path, swap, restore, recover_one}
use holodex.Maintenance.Hoare.{Ends}
use holodex.Maintenance.Paths.{new_ne_path, new_ne_held}
use holodex.Maintenance.Steps.{At, is_link}
use holodex.Maintenance.Guard.{Guarded, idle, unmoved, aside, both, restored, swap-idle, swap-busy}
use holodex.Maintenance.Restoring.{restore-idle, restore-busy, restore-standing}
use holodex.Maintenance.Recovery.{Settled, original, holding, recover-Ends}
use holodex.Maintenance.Clean.{calm, recover-calm}

abbrev pub under : Disk → List Fault → World
under d faults = record { disk = d; script = faults }

-- One operation on the video's file, with any faults; or a candidate that comes or goes.
pub data Step (v : ℕ) (p : Str) : Disk → Disk → Type 0 where
  swaps :
      (d : Disk) (op : Str) (now hold : ℕ) (faults : List Fault)
      → Step v p d (swap v p op now hold (under d faults)).1.disk
  restores : (d : Disk) (faults : List Fault) → Step v p d (restore v p (under d faults)).1.disk
  recovers :
      (d : Disk) (h : HeldOriginal) (faults : List Fault)
      → find_row v d.journal ≡ some h
      → Step v p d (recover_one h (under d faults)).1.disk
  stages : (d : Disk) (c : ℕ) → Step v p d (record d { files = put d.files (new_path p) (file c) })
  sweeps : (d : Disk) → Step v p d (record d { files = put d.files (new_path p) absent })

pub data Reach (v : ℕ) (p : Str) (d : Disk) : Disk → Type 0 where
  here : Reach v p d d
  next : {e f : Disk} → Reach v p d e → Step v p e f → Reach v p d f

module _ (v : ℕ) (p : Str) (o : ℕ) where
  Ends-Guarded :
      {A : Type 0} (r : Outcome A) (d : Disk)
      → Ends (λ _. Guarded v p o) (λ _. Guarded v p o) (Guarded v p o) r d
      → Guarded v p o d
  Ends-Guarded (done a) d h = h
  Ends-Guarded (Outcome.err e) d h = h
  Ends-Guarded Outcome.crashed d h = h

  Settled-Guarded : (d : Disk) → Settled v p o d → Guarded v p o d
  Settled-Guarded d (original h) = idle h
  Settled-Guarded d (holding n there h) = both n held there refl h

  Ends-Settled :
      {A : Type 0} (r : Outcome A) (d : Disk)
      → Ends (λ _. Settled v p o) (λ _. Guarded v p o) (Guarded v p o) r d
      → Guarded v p o d
  Ends-Settled (done a) d h = Settled-Guarded d h
  Ends-Settled (Outcome.err e) d h = h
  Ends-Settled Outcome.crashed d h = h

  swap-Guarded :
      (w : World) (op : Str) (now hold : ℕ)
      → Guarded v p o w.disk
      → Guarded v p o (swap v p op now hold w).1.disk
  swap-Guarded w op now hold (idle h) = Ends-Guarded _ _ ((swap-idle v p o op now hold).run w h)
  swap-Guarded w op now hold (unmoved h) =
      Ends-Guarded _ _
        ((swap-busy v p o _ _ swapping op now hold (λ _ x. unmoved x) (λ e. cc)).run w h)
  swap-Guarded w op now hold (aside h) =
      Ends-Guarded _ _
        ((swap-busy v p o _ _ swapping op now hold (λ _ x. aside x) (λ e. cc)).run w h)
  swap-Guarded w op now hold (both n s there other h) =
      Ends-Guarded _ _
        ((swap-busy v p o _ _ s op now hold (λ _ x. both n s there other x) (λ e. refl)).run w h)
  swap-Guarded w op now hold (restored h) =
      Ends-Guarded _ _
        ((swap-busy v p o _ _ restoring op now hold (λ _ x. restored x) (λ e. cc)).run w h)

  restore-Guarded : (w : World) → Guarded v p o w.disk → Guarded v p o (restore v p w).1.disk
  restore-Guarded w (idle h) = Ends-Guarded _ _ ((restore-idle v p o).run w h)
  restore-Guarded w (unmoved h) =
      Ends-Guarded _ _ ((restore-busy v p o _ _ swapping (λ _ x. unmoved x) refl).run w h)
  restore-Guarded w (aside h) =
      Ends-Guarded _ _ ((restore-busy v p o _ _ swapping (λ _ x. aside x) refl).run w h)
  restore-Guarded w (both n held there other h) =
      Ends-Guarded _ _ ((restore-standing v p o n there).run w h)
  restore-Guarded w (both n s there other h) =
      Ends-Guarded _ _ ((restore-busy v p o _ _ s (λ _ x. both n s there other x) refl).run w h)
  restore-Guarded w (restored h) =
      Ends-Guarded _ _ ((restore-busy v p o _ _ restoring (λ _ x. restored x) refl).run w h)

  -- A candidate that comes or goes touches neither the file nor the held original.
  At-candidate :
      (a b n : Node) (r : Option HeldState) (d : Disk)
      → is_link n ≡ false
      → At v p a b r d
      → At v p a b r (record d { files = put d.files (new_path p) n })
  unfolding put
  At-candidate a b n r d plain h = record {
    path = rw (new_ne_path p) h.path;
    original = rw (new_ne_held p) h.original;
    candidate = rw =s_refl plain;
    journaled = h.journaled;
  }

  Guarded-candidate :
      (n : Node) (d : Disk)
      → is_link n ≡ false
      → Guarded v p o d
      → Guarded v p o (record d { files = put d.files (new_path p) n })
  Guarded-candidate n d plain (idle h) = idle (At-candidate _ _ n _ d plain h)
  Guarded-candidate n d plain (unmoved h) = unmoved (At-candidate _ _ n _ d plain h)
  Guarded-candidate n d plain (aside h) = aside (At-candidate _ _ n _ d plain h)
  Guarded-candidate n d plain (both m s there other h) =
      both m s there other (At-candidate _ _ n _ d plain h)
  Guarded-candidate n d plain (restored h) = restored (At-candidate _ _ n _ d plain h)

  Step-Guarded : {d e : Disk} → Step v p d e → Guarded v p o d → Guarded v p o e
  Step-Guarded (swaps d op now hold faults) g = swap-Guarded (under d faults) op now hold g
  Step-Guarded (restores d faults) g = restore-Guarded (under d faults) g
  Step-Guarded (recovers d h faults e) g =
      Ends-Settled _ _ (recover-Ends v p o h (under d faults) g e)
  Step-Guarded (stages d c) g = Guarded-candidate (file c) d refl g
  Step-Guarded (sweeps d) g = Guarded-candidate absent d refl g

  pub Reach-Guarded : {d e : Disk} → Guarded v p o d → Reach v p d e → Guarded v p o e
  Reach-Guarded g here = g
  Reach-Guarded g (next r s) = Step-Guarded s (Reach-Guarded g r)

abbrev pub IsFresh : ℕ → Str → ℕ → Disk → Type 0
IsFresh v p o d = At v p (file o) absent none d

-- The file holds `o`, nothing stands at its held path, no symbolic link at its candidate's, and the
-- video has no journal row. Whatever swaps, restores, boot recoveries and candidates follow, with
-- whatever failures and wherever the process died in each, `o` is still on the disk: at the file's
-- path or at its held path.
pub Reach-keeps_original :
    (v : ℕ) (p : Str) (o : ℕ) {d e : Disk}
    → IsFresh v p o d
    → Reach v p d e
    → (e.files p ≡ file o) ⊎ (e.files (held_path p) ≡ file o)
Reach-keeps_original v p o fresh r = found (Reach-Guarded v p o (idle fresh) r)
  where
    found : {e : Disk} → Guarded v p o e → (e.files p ≡ file o) ⊎ (e.files (held_path p) ≡ file o)
    found (idle h) = inl h.path
    found (unmoved h) = inl h.path
    found (aside h) = inr h.original
    found (both n s there other h) = inr h.original
    found (restored h) = inl h.path

-- From such a start, after any such history, a boot recovery of the video's journal row in which no
-- call fails returns with no error and settles the file: either the original is at the path, nothing
-- is held and the row is gone, or the original is held, the path has a file, and the row is `held`.
pub recover_one-Settled :
    (v : ℕ) (p : Str) (o : ℕ) {d e : Disk} (h : HeldOriginal)
    → IsFresh v p o d
    → Reach v p d e
    → find_row v e.journal ≡ some h
    → ((recover_one h (calm e)).0 ≡ done tt) × Settled v p o (recover_one h (calm e)).1.disk
recover_one-Settled v p o {e = e} h fresh r row =
    let g = Reach-Guarded v p o (idle fresh) r in
    let returned = recover-calm v p o h e g row in
    (returned, settled _ _ returned (recover-Ends v p o h (calm e) g row))
  where
    settled :
        (x : Outcome (Unit {0})) (f : Disk)
        → x ≡ done tt
        → Ends (λ _. Settled v p o) (λ _. Guarded v p o) (Guarded v p o) x f
        → Settled v p o f
    settled (done _) f e h = h
    settled (Outcome.err x) f e h = cc
    settled Outcome.crashed f e h = cc
