-- ===== src/Rename/Free.antt =====
-- What the plan of a folder promises about the names that were there before it.
use holodex.Prelude.{
  ℕ, ◌≡◌, refl, arith, Str, ◌=s◌, Bool, true, false, not, ◌&&◌, ◌||◌, Option, none, some, List, [],
  ◌∷◌, ◌==◌, ap, All, if◌then◌else◌,
}
use holodex.Rename.Name.{Names, NameError, clash}
use holodex.Rename.Collide.{
  first_holder, Want, Outcome, Folder, FolderNames, key_of, holder, place, plan_pass, no_claims,
  second_name, checked_name, plan_folder, sorted, is_untracked, wants_id, accepted, refused,
}
use holodex.Rename.Settle.{Moves, plan_loop-enough}

module _ (n : Names) where
  -- The want is refused, or keeps its name but for its case, or gets a name that no untracked file has
  -- and no other video but those counted on to leave.
  abbrev pub Free : Folder → Want × Outcome → Type 0
  Free f (w, o) =
      o.error ≡ none
      → (key_of n o.name =s key_of n w.current) ≡ false
      → (f.untracked (key_of n o.name) ≡ false) × (holder f (key_of n o.name) w.video_id ≡ 0)

  checked_name-Free :
      (f : Folder) (w : Want) (h : ℕ) (name : Str) (c : Option NameError)
      → Free f (w, checked_name n f w h name c)
  unfolding checked_name
  checked_name-Free f w h name (some x) e k = cc
  checked_name-Free f w h name none e k =
      by_test (f.untracked key || not (holder f key w.video_id == 0)) refl e k
    where
      key : Str
      key = key_of n name

      by_test :
          (b : Bool)
          → (f.untracked key || not (holder f key w.video_id == 0)) ≡ b
          → Free f
              (w, if not (key =s key_of n w.current) && b then refused clash else accepted name h)
      by_test true q e k = ground arith
      by_test false q e k = ground arith

  Free-if :
      (f : Folder) (w : Want) (b : Bool) (x y : Outcome × (Str → ℕ))
      → (b ≡ true → Free f (w, x.0))
      → (b ≡ false → Free f (w, y.0))
      → Free f (w, (if b then x else y).0)
  Free-if f w true x y h k = h refl
  Free-if f w false x y h k = k refl

  -- A holder that is 0 leaves none.
  first_holder-zero : (h c : ℕ) → (first_holder h c == 0) ≡ true → h ≡ 0
  first_holder-zero h c e = ground arith

  place-Free : (f : Folder) (c : Str → ℕ) (w : Want) → Free f (w, (place n f c w).0)
  unfolding place second_name
  place-Free f c w =
      Free-if f w (key =s key_of n w.current) _ _ (λ q e k. absurd (ground arith))
        (λ q.
          Free-if f w (f.untracked key) _ _ (λ u e k. absurd (ground arith))
            (λ u.
              Free-if f w (first_holder (holder f key w.video_id) (c key) == 0) _ _
                (λ z e k. (u, first_holder-zero (holder f key w.video_id) (c key) z))
                (λ z. checked_name-Free f w _ _ _)))
    where
      key : Str
      key = key_of n w.desired

  pub plan_pass-Free :
      (f : Folder) (c : Str → ℕ) (ws : List Want) → All (Free f) (plan_pass n f c ws)
  unfolding plan_pass
  plan_pass-Free f c [] = tt
  plan_pass-Free f c (w ∷ ws) = (place-Free f c w, plan_pass-Free f (place n f c w).1 ws)

  abbrev pub wants_of : List (Want × Outcome) → List Want
  wants_of [] = []
  wants_of ((w, o) ∷ rest) = w ∷ wants_of rest

  plan_pass-wants : (f : Folder) (c : Str → ℕ) (ws : List Want) → wants_of (plan_pass n f c ws) ≡ ws
  unfolding plan_pass
  plan_pass-wants f c [] = refl
  plan_pass-wants f c (w ∷ ws) = ap (λ r. w ∷ r) (plan_pass-wants f (place n f c w).1 ws)

  abbrev pub settled_folder : FolderNames → (ℕ → Bool) → Folder
  settled_folder f m = record {
    moving = m;
    tracked = f.tracked;
    untracked = is_untracked n f.listing f.tracked;
  }

  -- The settled plan of a folder.
  pub record Settled (f : FolderNames) (wants : List Want) (r : Option (List (Want × Outcome)))
      : Type 0 where
    pub moving : ℕ → Bool
    pub plan : List (Want × Outcome)
    pub planned : r ≡ some plan
    pub answers : wants_of plan ≡ sorted n wants
    pub among : (i : ℕ) → moving i ≡ true → wants_id n (sorted n wants) i ≡ true
    pub moves : All (Moves n moving) plan
    pub free : All (Free (settled_folder f moving)) plan

  -- For every folder and wants, PlanFolder returns a plan with an outcome for each want. The videos that
  -- it counts on to leave their names are among the wants, and each of them gets no error and a name of
  -- another spelling; a change of case alone counts as leaving. A name that a video gets, unless it is
  -- its own up to case, is had by no file without a video, and by no other video of the folder but
  -- those counted on to leave. The names of one plan are not compared with each other here.
  pub plan_folder-Settled :
      (f : FolderNames) (wants : List Want) → Settled f wants (plan_folder n f wants)
  unfolding plan_folder
  plan_folder-Settled f wants =
      let p =
        plan_loop-enough n f.tracked (is_untracked n f.listing f.tracked) (sorted n wants)
          (wants_id n (sorted n wants)) in
      record {
        moving = p.moving;
        plan = plan_pass n (settled_folder f p.moving) (no_claims n) (sorted n wants);
        planned = p.planned;
        answers = plan_pass-wants (settled_folder f p.moving) (no_claims n) (sorted n wants);
        among = p.among;
        moves = p.fixed;
        free = plan_pass-Free (settled_folder f p.moving) (no_claims n) (sorted n wants);
      }
