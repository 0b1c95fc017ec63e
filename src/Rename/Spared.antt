-- ===== src/Rename/Spared.antt =====
-- The names of the videos that stay are given to no other video.
use holodex.Prelude.{
  ℕ, ◌≡◌, ◌≢◌, refl, arith, Str, ◌=s◌, eq_of_=s, subst, sym, ap, ◌∙◌, Bool, true, false, not, ◌&&◌,
  ◌||◌, Option, none, some, List, [], ◌∷◌, ◌==◌, All, if◌then◌else◌,
}
use holodex.Rename.Name.{Names, NameError}
use holodex.Rename.Collide.{
  Want, Outcome, Folder, FolderNames, key_of, holder, plan_folder, plan_pass, place, no_claims,
  sorted, is_untracked, wants_id, is_error, stays,
}
use holodex.Rename.Free.{Free, settled_folder, plan_pass-Free}
use holodex.Rename.Apart.{sorted-All}
use holodex.Rename.Settle.{Moves, plan_loop-enough}

module _ (n : Names) where
  -- The want gets a name, which is not its own up to case.
  abbrev pub is_renamed : Want → Outcome → Bool
  is_renamed w o = not (is_error n o.error) && not (key_of n o.name =s key_of n w.current)

  -- The first want is not given the name, up to case, of the second one, if that is another video's and
  -- stays: it is refused, or gets the name it has.
  abbrev pub Spared : Want × Outcome → Want × Outcome → Type 0
  Spared (w, o) (v, p) =
      (is_renamed w o
        && (stays n v p
            && (not (v.video_id == w.video_id) && (key_of n o.name =s key_of n v.current))))
      ≡ false

  -- The folder knows the want's video by its current name.
  pub record IsKnown (f : FolderNames) (w : Want) : Type 0 where
    pub has_id : w.video_id ≢ 0
    pub known : f.tracked (key_of n w.current) ≡ w.video_id

  no_error : (e : Option NameError) → is_error n e ≡ false → e ≡ none
  no_error none h = refl
  no_error (some x) h = absurd (cc)

  -- A video that has the key and stays is its holder.
  holder-stays :
      (f : Folder) (key : Str) (id self : ℕ)
      → f.tracked key ≡ id
      → id ≢ 0
      → (id == self) ≡ false
      → f.moving id ≡ false
      → holder f key self ≢ 0
  unfolding holder
  holder-stays f key id self e i d m = by_id (f.tracked key) e
    where
      by_id : (t : ℕ) → t ≡ id → (if t == 0 || t == self || f.moving t then 0 else t) ≡ 0 → ⊥
      by_id t same z =
          let k = subst (λ (x : ℕ). (x == self) ≡ false) (sym same) d in
          let l = subst (λ (x : ℕ). f.moving x ≡ false) (sym same) m in i (sym same ∙ ground arith)

  Spared-pair :
      (f : Folder) (w : Want) (o : Outcome) (v : Want) (p : Outcome)
      → Free n f (w, o)
      → Moves n f.moving (v, p)
      → v.video_id ≢ 0
      → f.tracked (key_of n v.current) ≡ v.video_id
      → Spared (w, o) (v, p)
  Spared-pair f w o v p free moves i known =
      by_test
        (is_renamed w o
          && (stays n v p
              && (not (v.video_id == w.video_id) && (key_of n o.name =s key_of n v.current))))
        refl
    where
      key : Str
      key = key_of n o.name

      clash :
          is_error n o.error ≡ false
          → (key =s key_of n w.current) ≡ false
          → stays n v p ≡ true
          → (v.video_id == w.video_id) ≡ false
          → (key =s key_of n v.current) ≡ true
          → ⊥
      clash e own s d same =
          holder-stays f key v.video_id w.video_id
            (ap f.tracked (eq_of_=s key (key_of n v.current) same) ∙ known) i d (ground arith)
            (free (no_error o.error e) own).1

      by_test :
          (b : Bool)
          → (is_renamed w o
              && (stays n v p && (not (v.video_id == w.video_id) && (key =s key_of n v.current))))
            ≡ b
          → b ≡ false
      by_test false e = refl
      by_test true e =
          absurd (clash (ground arith) (ground arith) (ground arith) (ground arith) (ground arith))

  abbrev Stands : FolderNames → (ℕ → Bool) → Want × Outcome → Type 0
  Stands f m e = Moves n m e × IsKnown f e.0

  plan_pass-Stands :
      (f : FolderNames) (g : Folder) (m : ℕ → Bool) (c : Str → ℕ) (ws : List Want)
      → All (IsKnown f) ws
      → All (Moves n m) (plan_pass n g c ws)
      → All (Stands f m) (plan_pass n g c ws)
  unfolding plan_pass
  plan_pass-Stands f g m c [] h k = tt
  plan_pass-Stands f g m c (w ∷ ws) (i, h) (k, l) =
      ((k, i), plan_pass-Stands f g m (place n g c w).1 ws h l)

  abbrev pub AllSpared : List (Want × Outcome) → Type 0
  AllSpared plan = All (λ x. All (Spared x) plan) plan

  Spared-from_want :
      (f : FolderNames) (m : ℕ → Bool) (w : Want) (o : Outcome) (es : List (Want × Outcome))
      → Free n (settled_folder n f m) (w, o)
      → All (Stands f m) es
      → All (Spared (w, o)) es
  Spared-from_want f m w o [] h k = tt
  Spared-from_want f m w o ((v, p) ∷ es) h ((moves, i), k) = (
    Spared-pair (settled_folder n f m) w o v p h moves i.has_id i.known,
    Spared-from_want f m w o es h k,
  )

  Spared-from_plan :
      (f : FolderNames) (m : ℕ → Bool) (xs es : List (Want × Outcome))
      → All (Free n (settled_folder n f m)) xs
      → All (Stands f m) es
      → All (λ x. All (Spared x) es) xs
  Spared-from_plan f m [] es h k = tt
  Spared-from_plan f m ((w, o) ∷ xs) es (i, h) k =
      (Spared-from_want f m w o es i k, Spared-from_plan f m xs es h k)

  -- For wants with ids other than 0, whose videos the folder has under their current names: the plan that
  -- PlanFolder returns gives no video, by more than a change of its own name's case, the name, up to
  -- case, that another of these videos has and keeps, because it is refused or gets the name it has.
  pub plan_folder-Spared :
      (f : FolderNames) (wants : List Want)
      → All (IsKnown f) wants
      → (out : List (Want × Outcome)) × (plan_folder n f wants ≡ some out) × AllSpared out
  unfolding plan_folder
  plan_folder-Spared f wants h =
      let p =
        plan_loop-enough n f.tracked (is_untracked n f.listing f.tracked) (sorted n wants)
          (wants_id n (sorted n wants)) in
      let settled = settled_folder n f p.moving in
      let out = plan_pass n settled (no_claims n) (sorted n wants) in
      (
        out,
        p.planned,
        Spared-from_plan f p.moving out out
            (plan_pass-Free n settled (no_claims n) (sorted n wants))
            (plan_pass-Stands f settled p.moving (no_claims n) (sorted n wants)
              (sorted-All n (IsKnown f) wants h) p.fixed),
      )
