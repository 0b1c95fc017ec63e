-- ===== src/Maintenance/Journal.antt =====
-- The journal row of one video, under the statements of internal/repo/held_originals.go.
use holodex.Prelude.{
  ℕ, Str, ◌≡◌, refl, Option, none, some, List, [], ◌∷◌, ◌++◌, arith, ◌==◌, Bool-cases, inl, inr,
}
use holodex.Maintenance.Disk.{HeldState, HeldOriginal, find_row, put_state, drop_row}
use holodex.Maintenance.Swap.{held_path}

-- A journal row of the video, for the file at `p`, in state `s`.
pub record RowOf (v : ℕ) (p : Str) (s : HeldState) (h : HeldOriginal) : Type 0 where
  pub in_state : h.state ≡ s
  pub holds : h.held_path ≡ held_path p
  pub of_video : h.video_id ≡ v

abbrev pub RowIs : ℕ → Str → Option HeldState → List HeldOriginal → Type 0
RowIs v p none j = find_row v j ≡ none
RowIs v p (some s) j = (h : HeldOriginal) × (find_row v j ≡ some h) × RowOf v p s h

pub find_row-drop_row : (v : ℕ) (j : List HeldOriginal) → find_row v (drop_row v j) ≡ none
unfolding find_row drop_row
find_row-drop_row v [] = refl
find_row-drop_row v (h ∷ t) = ground (arith, find_row-drop_row v t)

pub find_row-begin :
    (v : ℕ) (h : HeldOriginal) (j : List HeldOriginal)
    → find_row v j ≡ none
    → h.video_id ≡ v
    → find_row v (j ++ h ∷ []) ≡ some h
unfolding find_row
find_row-begin v h [] e a = ground arith
find_row-begin v h (g ∷ t) e a = ground (arith, find_row-begin v h t)

pub find_row-put_state :
    (v : ℕ) (s : HeldState) (h : HeldOriginal) (j : List HeldOriginal)
    → find_row v j ≡ some h
    → find_row v (put_state v s j) ≡ some (record h { state = s })
unfolding find_row put_state
find_row-put_state v s h [] e = cc
find_row-put_state v s h (g ∷ t) e = elim (Bool-cases (g.video_id == v)) [
  | inl same ↦ ground (arith)
  | inr other ↦ ground (arith, find_row-put_state v s h t)
]
