-- ===== src/Rename/Settle.antt =====
-- PlanFolder ends: every round but the last takes at least one want out of those that move.
use holodex.Prelude.{
  ℕ, zero, suc, ◌+◌, ◌≤◌, ◌<◌, ◌≡◌, refl, arith, Str, Bool, true, false, ◌&&◌, Option, some, List,
  [], ◌∷◌, length, All, In, inl, inr, Bool-cases, subst, sym, ap, ◌∙◌,
}
use holodex.Rename.Name.{Names}
use holodex.Rename.Collide.{
  Want, Outcome, Folder, plan_pass, place, no_claims, stays, settle, plan_loop, unset,
}

abbrev one_if : Bool → ℕ
one_if true = 1
one_if false = 0

-- How many of the ids move.
abbrev live : List ℕ → (ℕ → Bool) → ℕ
live [] m = 0
live (i ∷ is) m = one_if (m i) + live is m

module _ (n : Names) where
  live-unset_le : (is : List ℕ) (id : ℕ) (m : ℕ → Bool) → live is (unset n id m) ≤ live is m
  live-unset_le [] id m = omega arith
  live-unset_le (i ∷ is) id m = ground (arith, live-unset_le is id m)

  live-unset :
      (is : List ℕ) (id : ℕ) (m : ℕ → Bool)
      → In id is
      → m id ≡ true
      → suc (live is (unset n id m)) ≤ live is m
  live-unset [] id m h e = absurd h
  live-unset (i ∷ is) id m (inl h) e = ground (arith, live-unset_le is id m)
  live-unset (i ∷ is) id m (inr h) e = ground (arith, live-unset is id m h e)

  settle-stopped :
      (w : Want) (o : Outcome) (rest : List (Want × Outcome)) (m : ℕ → Bool)
      → (m w.video_id && stays n w o) ≡ true
      → settle n ((w, o) ∷ rest) m ≡ ((settle n rest (unset n w.video_id m)).0, true)
  unfolding settle
  settle-stopped w o rest m e = cc

  settle-moved :
      (w : Want) (o : Outcome) (rest : List (Want × Outcome)) (m : ℕ → Bool)
      → (m w.video_id && stays n w o) ≡ false
      → settle n ((w, o) ∷ rest) m ≡ settle n rest m
  unfolding settle
  settle-moved w o rest m e = cc

  abbrev Shrinks : List ℕ → (ℕ → Bool) → (ℕ → Bool) × Bool → Type 0
  Shrinks is m r = live is r.0 + one_if r.1 ≤ live is m

  -- A round that stops a want leaves fewer that move.
  settle-live :
      (is : List ℕ) (out : List (Want × Outcome)) (m : ℕ → Bool)
      → All (λ p. In (p.0).video_id is) out
      → Shrinks is m (settle n out m)
  unfolding settle
  settle-live is [] m h = omega arith
  settle-live is ((w, o) ∷ rest) m (h, k) = elim (Bool-cases (m w.video_id && stays n w o)) [
    | inl e ↦ subst (Shrinks is m) (sym (settle-stopped w o rest m e)) (
        omega (
          arith,
          live-unset is w.video_id m h (ground arith),
          settle-live is rest (unset n w.video_id m) k,
        ))
    | inr e ↦ subst (Shrinks is m) (sym (settle-moved w o rest m e)) (settle-live is rest m k)
  ]

  -- The want gets a new name if it is expected to move.
  abbrev pub Moves : (ℕ → Bool) → Want × Outcome → Type 0
  Moves m p = (m (p.0).video_id && stays n p.0 p.1) ≡ false

  -- A round that stops no want finds that all of those that move do, and changes nothing.
  settle-Moves :
      (out : List (Want × Outcome)) (m : ℕ → Bool) → (settle n out m).1 ≡ false → All (Moves m) out
  unfolding settle
  settle-Moves [] m h = tt
  settle-Moves ((w, o) ∷ rest) m h = elim (Bool-cases (m w.video_id && stays n w o)) [
    | inl e ↦ absurd (stopped (ap (λ (r : (ℕ → Bool) × Bool). r.1) (settle-stopped w o rest m e)))
    | inr e ↦ (
      e,
      settle-Moves rest m
          (sym (ap (λ (r : (ℕ → Bool) × Bool). r.1) (settle-moved w o rest m e)) ∙ h),
    )
  ]
    where
      stopped : (settle n ((w, o) ∷ rest) m).1 ≡ true → ⊥
      stopped e = cc

  abbrev Narrows : (ℕ → Bool) → (ℕ → Bool) × Bool → Type 0
  Narrows m r = (i : ℕ) → r.0 i ≡ true → m i ≡ true

  -- A round makes nobody move.
  settle-Narrows : (out : List (Want × Outcome)) (m : ℕ → Bool) → Narrows m (settle n out m)
  unfolding settle
  settle-Narrows [] m = λ i h. h
  settle-Narrows ((w, o) ∷ rest) m = elim (Bool-cases (m w.video_id && stays n w o)) [
    | inl e ↦
        subst (Narrows m) (sym (settle-stopped w o rest m e))
          (λ i h. was_set i (settle-Narrows rest (unset n w.video_id m) i h))
    | inr e ↦ subst (Narrows m) (sym (settle-moved w o rest m e)) (settle-Narrows rest m)
  ]
    where
      was_set : (i : ℕ) → unset n w.video_id m i ≡ true → m i ≡ true
      was_set i h = ground arith

  abbrev ids : List Want → List ℕ
  ids [] = []
  ids (w ∷ ws) = w.video_id ∷ ids ws

  module _ (tracked : Str → ℕ) (untracked : Str → Bool) where
    abbrev folder : (ℕ → Bool) → Folder
    folder m = record { moving = m; tracked = tracked; untracked = untracked }

    ids-In :
        (is : List ℕ) (ws : List Want)
        → ((i : ℕ) → In i (ids ws) → In i is)
        → All (λ w. In w.video_id is) ws
    ids-In is [] h = tt
    ids-In is (w ∷ ws) h = (h w.video_id (inl refl), ids-In is ws (λ i k. h i (inr k)))

    plan_pass-In :
        (is : List ℕ) (f : Folder) (c : Str → ℕ) (ws : List Want)
        → All (λ w. In w.video_id is) ws
        → All (λ p. In (p.0).video_id is) (plan_pass n f c ws)
    unfolding plan_pass
    plan_pass-In is f c [] h = tt
    plan_pass-In is f c (w ∷ ws) (h, k) = (h, plan_pass-In is f (place n f c w).1 ws k)

    live-length : (ws : List Want) (m : ℕ → Bool) → live (ids ws) m ≤ length ws
    live-length [] m = omega arith
    live-length (w ∷ ws) m = ground (arith, live-length ws m)

    -- The plan that the loop returns: one more pass over the wants finds that all that are expected to
    -- move do.
    pub record Planned (ws : List Want) (m : ℕ → Bool) (r : Option (List (Want × Outcome)))
        : Type 0 where
      pub moving : ℕ → Bool
      pub among : (i : ℕ) → moving i ≡ true → m i ≡ true
      pub planned : r ≡ some (plan_pass n (folder moving) (no_claims n) ws)
      pub fixed : All (Moves moving) (plan_pass n (folder moving) (no_claims n) ws)

    plan_loop-Planned :
        (fuel : ℕ) (ws : List Want) (m : ℕ → Bool)
        → live (ids ws) m < fuel
        → Planned ws m (plan_loop n fuel tracked untracked ws m)
    unfolding plan_loop
    plan_loop-Planned zero ws m h = absurd (omega (arith, h))
    plan_loop-Planned (suc fuel) ws m h = by_round (settle n out m).1 refl (λ e.
        plan_loop-Planned fuel ws (settle n out m).0 (
          omega (
            arith,
            h,
            ap one_if e,
            settle-live (ids ws) out m
                (plan_pass-In (ids ws) (folder m) (no_claims n) ws (ids-In (ids ws) ws (λ i k. k))),
          )))
      where
        out : List (Want × Outcome)
        out = plan_pass n (folder m) (no_claims n) ws

        by_round :
            (b : Bool)
            → (settle n out m).1 ≡ b
            → (b ≡ true
                → Planned ws
                    (settle n out m).0
                    (plan_loop n fuel tracked untracked ws (settle n out m).0))
            → Planned ws m (elim b [
              | true ↦ plan_loop n fuel tracked untracked ws (settle n out m).0
              | false ↦ some out
            ])
        by_round true e k =
            let p = k refl in
            record {
              moving = p.moving;
              among = λ i h. settle-Narrows out m i (p.among i h);
              planned = p.planned;
              fixed = p.fixed;
            }
        by_round false e k = record {
          moving = m;
          among = λ i h. h;
          planned = refl;
          fixed = settle-Moves out m e;
        }

    -- One round more than wants is enough.
    pub plan_loop-enough :
        (ws : List Want) (m : ℕ → Bool)
        → Planned ws m (plan_loop n (suc (length ws)) tracked untracked ws m)
    plan_loop-enough ws m =
        plan_loop-Planned (suc (length ws)) ws m (omega (arith, live-length ws m))
