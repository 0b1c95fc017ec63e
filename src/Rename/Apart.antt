-- ===== src/Rename/Apart.antt =====
-- The plain names that the videos of a folder move to are different from each other.
use holodex.Prelude.{
  ℕ, ◌≡◌, ◌≢◌, refl, arith, Str, ◌=s◌, =s_refl, eq_of_=s, subst, sym, ◌∙◌, Bool, true, false, not,
  ◌&&◌, ◌||◌, Option, none, some, List, [], ◌∷◌, ◌==◌, leb, All, inl, inr, Bool-cases,
  if◌then◌else◌,
}
use holodex.Rename.Name.{Names, NameError, clash}
use holodex.Rename.Collide.{
  Want, Outcome, Folder, key_of, holder, place, plan_folder, sorted, insert_want, is_untracked,
  wants_id, FolderNames, plan_pass, no_claims, second_name, checked_name, accepted, refused,
  first_holder, claim,
}
use holodex.Rename.Free.{settled_folder}
use holodex.Rename.Settle.{plan_loop-enough}

module _ (n : Names) where
  -- The want gets the name it asked for, which is not its own up to case (a case-only change).
  pub record IsPlain (w : Want) (o : Outcome) : Type 0 where
    pub allowed : o.error ≡ none
    pub unheld : o.holder_id ≡ 0
    pub renamed : (key_of n o.name =s key_of n w.current) ≡ false

  checked_name-IsPlain :
      (f : Folder) (w : Want) (h : ℕ) (name : Str) (c : Option NameError)
      → h ≢ 0
      → ¬ IsPlain w (checked_name n f w h name c)
  unfolding checked_name
  checked_name-IsPlain f w h name (some x) e p = absurd (none_some p.allowed)
    where
      none_some : some x ≡ none → ⊥
      none_some e = cc
  checked_name-IsPlain f w h name none e p =
      by_test
        (not (key_of n name =s key_of n w.current)
          && (f.untracked (key_of n name) || not (holder f (key_of n name) w.video_id == 0)))
        p
    where
      by_test : (b : Bool) → IsPlain w (if b then refused clash else accepted name h) → ⊥
      by_test true p = some_none p.allowed
        where
          some_none : some clash ≡ none → ⊥
          some_none e = cc
      by_test false p = e p.unheld

  -- The four ways to place a want.
  place-cases :
      (P : Outcome × (Str → ℕ) → Type 0) (f : Folder) (c : Str → ℕ) (w : Want)
      → ((key_of n w.desired =s key_of n w.current) ≡ true → P (accepted w.desired 0, c))
      → P (refused clash, c)
      → (c (key_of n w.desired) ≡ 0
          → P (accepted w.desired 0, claim (key_of n w.desired) w.video_id c))
      → ((h : ℕ) → h ≢ 0 → P (second_name n f w h, c))
      → P (place n f c w)
  unfolding place
  place-cases P f c w own untracked free held = by_own (key =s key_of n w.current) refl
    where
      key : Str
      key = key_of n w.desired

      h : ℕ
      h = first_holder (holder f key w.video_id) (c key)

      by_held :
          (b : Bool)
          → (h == 0) ≡ b
          → P (
              if b
              then (accepted w.desired 0, claim key w.video_id c)
              else (second_name n f w h, c))
      by_held true e = free (ground arith)
      by_held false e = held h (ground arith)

      by_untracked :
          (b : Bool)
          → P (
              if b
              then (refused clash, c)
              else if h == 0
              then (accepted w.desired 0, claim key w.video_id c)
              else (second_name n f w h, c))
      by_untracked true = untracked
      by_untracked false = by_held (h == 0) refl

      by_own :
          (b : Bool)
          → (key =s key_of n w.current) ≡ b
          → P (
              if b
              then (accepted w.desired 0, c)
              else if f.untracked key
              then (refused clash, c)
              else if h == 0
              then (accepted w.desired 0, claim key w.video_id c)
              else (second_name n f w h, c))
      by_own true e = own e
      by_own false e = by_untracked (f.untracked key)

  -- A plain name was free of claims, and is claimed now.
  place-claims :
      (f : Folder) (c : Str → ℕ) (w : Want)
      → IsPlain w (place n f c w).0
      → (c (key_of n (place n f c w).0.name) ≡ 0)
        × ((place n f c w).1 (key_of n (place n f c w).0.name) ≡ w.video_id)
  unfolding second_name
  place-claims f c w =
      place-cases
        (λ r.
          IsPlain w r.0 → (c (key_of n (r.0).name) ≡ 0) × (r.1 (key_of n (r.0).name) ≡ w.video_id))
        f c w (λ e p. absurd (ground (arith, p.renamed))) (λ p. absurd (ground (arith, p.allowed)))
        (λ z p. (z, rw (=s_refl (key_of n w.desired)) refl))
        (λ h e p. absurd (checked_name-IsPlain f w h _ _ e p))

  -- A claim stays.
  place-keeps :
      (f : Folder) (c : Str → ℕ) (w : Want) (k : Str)
      → w.video_id ≢ 0
      → c k ≢ 0
      → (place n f c w).1 k ≢ 0
  place-keeps f c w k i z =
      place-cases (λ r. r.1 k ≢ 0) f c w (λ e. z) z (λ e. claimed (key_of n w.desired =s k))
        (λ h e. z)
    where
      claimed : (b : Bool) → (if b then w.video_id else c k) ≢ 0
      claimed true = i
      claimed false = z

  -- None of the plain names has the key.
  abbrev pub Avoids : Str → Want × Outcome → Type 0
  Avoids k (w, o) = IsPlain w o → (key_of n o.name =s k) ≡ false

  plan_pass-Avoids :
      (f : Folder) (c : Str → ℕ) (ws : List Want) (k : Str)
      → All (λ w. w.video_id ≢ 0) ws
      → c k ≢ 0
      → All (Avoids k) (plan_pass n f c ws)
  unfolding plan_pass
  plan_pass-Avoids f c [] k h z = tt
  plan_pass-Avoids f c (w ∷ ws) k (i, h) z = (
    λ p. differs (key_of n (place n f c w).0.name) (place-claims f c w p).0,
    plan_pass-Avoids f (place n f c w).1 ws k h (place-keeps f c w k i z),
  )
    where
      differs : (key : Str) → c key ≡ 0 → (key =s k) ≡ false
      differs key e = elim (Bool-cases (key =s k)) [
        | inl q ↦ absurd (z (subst (λ (s : Str). c s ≡ 0) (eq_of_=s key k q) e))
        | inr q ↦ q
      ]

  -- Each plain name of the plan has another key than those after it.
  abbrev pub Apart : List (Want × Outcome) → Type 0
  Apart [] = Unit
  Apart ((w, o) ∷ rest) = (IsPlain w o → All (Avoids (key_of n o.name)) rest) × Apart rest

  plan_pass-Apart :
      (f : Folder) (c : Str → ℕ) (ws : List Want)
      → All (λ w. w.video_id ≢ 0) ws
      → Apart (plan_pass n f c ws)
  unfolding plan_pass
  plan_pass-Apart f c [] h = tt
  plan_pass-Apart f c (w ∷ ws) (i, h) = (
    λ p. plan_pass-Avoids f (place n f c w).1 ws _ h (λ z. i (sym (place-claims f c w p).1 ∙ z)),
    plan_pass-Apart f (place n f c w).1 ws h,
  )

  abbrev pub HasId : Want → Type 0
  HasId w = w.video_id ≢ 0

  insert_want-All :
      (P : Want → Type 0) (w : Want) (ws : List Want) → P w → All P ws → All P (insert_want n w ws)
  unfolding insert_want
  insert_want-All P w [] h k = (h, tt)
  insert_want-All P w (v ∷ vs) h (i, k) =
      by_order (insert_want-All P w vs h k) (leb w.video_id v.video_id)
    where
      by_order :
          All P (insert_want n w vs)
          → (b : Bool) → All P (if b then w ∷ v ∷ vs else v ∷ insert_want n w vs)
      by_order rest true = (h, (i, k))
      by_order rest false = (i, rest)

  pub sorted-All : (P : Want → Type 0) (ws : List Want) → All P ws → All P (sorted n ws)
  unfolding sorted
  sorted-All P [] h = tt
  sorted-All P (w ∷ ws) (i, h) = insert_want-All P w (sorted n ws) i (sorted-All P ws h)

  -- For wants whose ids are not 0, PlanFolder returns a plan in which any two wants that get the names
  -- they ask for, and whose names change by more than their case, get names with different fold keys.
  -- A want that changes only the case of its name is not compared.
  pub plan_folder-Apart :
      (f : FolderNames) (wants : List Want)
      → All HasId wants
      → (out : List (Want × Outcome)) × (plan_folder n f wants ≡ some out) × Apart out
  unfolding plan_folder
  plan_folder-Apart f wants h =
      let p =
        plan_loop-enough n f.tracked (is_untracked n f.listing f.tracked) (sorted n wants)
          (wants_id n (sorted n wants)) in
      let settled = settled_folder n f p.moving in
      (
        plan_pass n settled (no_claims n) (sorted n wants),
        p.planned,
        plan_pass-Apart settled (no_claims n) (sorted n wants) (sorted-All HasId wants h),
      )
