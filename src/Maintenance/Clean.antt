-- ===== src/Maintenance/Clean.antt =====
-- Runs in which no call fails: what recovery, a first swap and a restore then return.
use holodex.Prelude.{
  ℕ, Str, ◌≡◌, refl, ap, sym, ◌∙◌, ◌⊎◌, inl, inr, Bool, true, false, some, [], arith,
}
use holodex.Maintenance.Disk.{
  Node, absent, HeldState, swapping, held, restoring, discarding, state_eq, HeldOriginal, Disk,
  World, held_path_suffix, done, ◌>>=◌, try, effect, put, lstat_act, find_row, set_act,
  set_held_state, delete_held_original, raise, pure,
}
use holodex.Maintenance.Swap.{
  held_path, new_path, cut_suffix, rename, lstat, exists, refuse_symlink, recover_at, settle,
  recover_one, cut_suffix,
}
use holodex.Maintenance.Journal.{RowOf}
use holodex.Maintenance.Paths.{cut_suffix-held_path}
use holodex.Maintenance.Steps.{At, is_link, is_present, move_act-present}
use holodex.Maintenance.Guard.{Guarded, idle, unmoved, aside, both, restored, row_is}

abbrev pub calm : Disk → World
calm d = record { disk = d; script = [] }

pub refuse_symlink-calm :
    (q : Str) (d : Disk)
    → is_link (d.files q) ≡ false
    → refuse_symlink q (calm d) ≡ (done tt, calm d)
unfolding refuse_symlink lstat lstat_act ◌>>=◌ try effect pure raise
refuse_symlink-calm q d h = ground arith

pub exists-calm : (q : Str) (d : Disk) → exists q (calm d) ≡ (done (is_present (d.files q)), calm d)
unfolding exists lstat lstat_act ◌>>=◌ try effect pure raise
exists-calm q d = ground arith

recover_at-calm :
    (h : HeldOriginal) (p : Str) (d : Disk)
    → is_link (d.files h.held_path) ≡ false
    → is_link (d.files (new_path p)) ≡ false
    → recover_at h (some p) (calm d)
      ≡ settle h.state h.video_id p
          (is_present (d.files p))
          (is_present (d.files h.held_path))
          (is_present (d.files (new_path p)))
          (calm d)
unfolding ◌>>=◌ try
recover_at-calm h p d a b = rw (
  refuse_symlink-calm h.held_path d a,
  refuse_symlink-calm (new_path p) d b,
  exists-calm p d,
  exists-calm h.held_path d,
  exists-calm (new_path p) d,
)

pub rename-calm :
    (old new : Str) (n : Node) (d : Disk)
    → d.files old ≡ n
    → is_present n ≡ true
    → rename old new (calm d)
      ≡ (done tt, calm (record d { files = put (put d.files old absent) new n }))
unfolding rename effect
rename-calm old new n d e h = rw (move_act-present old new n d e h)

set_held_state-calm :
    (v : ℕ) (s : HeldState) (h : HeldOriginal) (d : Disk)
    → find_row v d.journal ≡ some h
    → (set_held_state v s (calm d)).0 ≡ done tt
unfolding set_held_state set_act effect
set_held_state-calm v s h d e = rw e

module _ (v : ℕ) (p : Str) (h : HeldOriginal) (d : Disk) (row : find_row v d.journal ≡ some h) where
  finish-calm :
      (n : Node)
      → d.files (new_path p) ≡ n
      → is_present n ≡ true
      → ((rename (new_path p) p >>= λ _. set_held_state v held) (calm d)).0 ≡ done tt
  unfolding ◌>>=◌
  finish-calm n e here =
      rw (rename-calm (new_path p) p n d e here) (set_held_state-calm v held h _ row)

  back-calm :
      (n : Node)
      → d.files (held_path p) ≡ n
      → is_present n ≡ true
      → ((rename (held_path p) p >>= λ _. delete_held_original v) (calm d)).0 ≡ done tt
  unfolding ◌>>=◌ delete_held_original effect
  back-calm n e here = rw (rename-calm (held_path p) p n d e here)

  settle-calm :
      (s : HeldState) (x y z : Bool)
      → is_present (d.files p) ≡ x
      → is_present (d.files (held_path p)) ≡ y
      → is_present (d.files (new_path p)) ≡ z
      → state_eq s discarding ≡ false
      → (s ≡ swapping → (x ≡ true) ⊎ (y ≡ true))
      → (settle s v p x y z (calm d)).0 ≡ done tt
  unfolding delete_held_original effect pure
  settle-calm swapping true false z e f g other some_file = refl
  settle-calm swapping true true z e f g other some_file = set_held_state-calm v held h d row
  settle-calm swapping false true true e f g other some_file = finish-calm _ refl g
  settle-calm swapping false true false e f g other some_file = back-calm _ refl f
  settle-calm swapping false false z e f g other some_file = ground (arith, some_file refl)
  settle-calm restoring x true z e f g other some_file = back-calm _ refl f
  settle-calm restoring x false z e f g other some_file = refl
  settle-calm held x y z e f g other some_file = refl
  settle-calm discarding x y z e f g other some_file = cc

  recover-calm-At :
      (a b : Node) (s : HeldState)
      → At v p a b (some s) d
      → RowOf v p s h
      → is_link b ≡ false
      → state_eq s discarding ≡ false
      → (s ≡ swapping → (is_present a ≡ true) ⊎ (is_present b ≡ true))
      → (recover_one h (calm d)).0 ≡ done tt
  unfolding recover_one
  recover-calm-At a b s t r plain other some_file =
      let cut : cut_suffix held_path_suffix h.held_path ≡ some p =
        ap (cut_suffix held_path_suffix) r.holds ∙ cut_suffix-held_path p in
      let at_held : d.files h.held_path ≡ b = ap d.files r.holds ∙ t.original in
      rw (cut, recover_at-calm h p d (rw at_held plain) t.candidate)
        (simp (r.in_state, r.of_video)
          (settle-calm s _ _ _ refl (ap (λ (q : Str). is_present (d.files q)) (sym r.holds)) refl
            other (rw (t.path, at_held) some_file)))

-- With no fault, boot recovery of the video's row returns without an error.
pub recover-calm :
    (v : ℕ) (p : Str) (o : ℕ) (h : HeldOriginal) (d : Disk)
    → Guarded v p o d
    → find_row v d.journal ≡ some h
    → (recover_one h (calm d)).0 ≡ done tt
recover-calm v p o h d (idle t) e = cc (t.journaled, e)
recover-calm v p o h d (unmoved t) e =
    recover-calm-At v p h d e _ _ swapping t (row_is v p _ _ swapping h d t e) refl refl
      (λ _. inl refl)
recover-calm v p o h d (aside t) e =
    recover-calm-At v p h d e _ _ swapping t (row_is v p _ _ swapping h d t e) refl refl
      (λ _. inr refl)
recover-calm v p o h d (both n s here other t) e =
    recover-calm-At v p h d e _ _ s t (row_is v p _ _ s h d t e) refl other (λ _. inr refl)
recover-calm v p o h d (restored t) e =
    recover-calm-At v p h d e _ _ restoring t (row_is v p _ _ restoring h d t e) refl refl
      (λ _. inl refl)
