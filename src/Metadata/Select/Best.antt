-- ===== src/Metadata/Select/Best.antt =====
-- The level that selectMatroskaTags takes the value of a key from.
use holodex.Prelude.{
  ap, ◌++◌, All, ℕ, ◌≡◌, ◌⊎◌, refl, Str, Bool, true, false, List, [], ◌∷◌, if◌then◌else◌, inl, inr,
}
use holodex.Metadata.Tags.{SimpleTag, level_movie, level_season, level_collection}
use holodex.Metadata.Select.{Naming, shown, counts_at, values_at, first_or, chosen}

module _ {V : Type 0} (n : Naming) (text : Str → V) where
  -- None of the tags has the key at the level, unbound.
  abbrev pub Lacks : Str → ℕ → List SimpleTag → Type 0
  Lacks nk level ts = All (λ t. counts_at n text nk level t ≡ false) ts

  -- The value is that of the first unbound tag of the key at the level, in the order of the file.
  pub record Gives (nk : Str) (level : ℕ) (ts : List SimpleTag) (v : Str) : Type 0 where
    pub before : List SimpleTag
    pub tag : SimpleTag
    pub after : List SimpleTag
    pub split : ts ≡ before ++ (tag ∷ after)
    pub first_one : Lacks nk level before
    pub counted : counts_at n text nk level tag ≡ true
    pub value : v ≡ shown n text tag

  abbrev FirstGiven : Str → ℕ → List SimpleTag → List Str → Type 0
  FirstGiven nk level ts [] = Lacks nk level ts
  FirstGiven nk level ts (v ∷ vs) = Gives nk level ts v

  values_at-FirstGiven :
      (nk : Str) (level : ℕ) (ts : List SimpleTag)
      → FirstGiven nk level ts (values_at n text nk level ts)
  unfolding values_at
  values_at-FirstGiven nk level [] = tt
  values_at-FirstGiven nk level (t ∷ ts) =
      by_test (counts_at n text nk level t) refl (values_at n text nk level ts)
        (values_at-FirstGiven nk level ts)
    where
      later :
          (vs : List Str)
          → counts_at n text nk level t ≡ false
          → FirstGiven nk level ts vs
          → FirstGiven nk level (t ∷ ts) vs
      later [] e h = (e, h)
      later (v ∷ vs) e g = record {
        before = t ∷ g.before;
        tag = g.tag;
        after = g.after;
        split = ap (λ l. t ∷ l) g.split;
        first_one = (e, g.first_one);
        counted = g.counted;
        value = g.value;
      }

      by_test :
          (b : Bool)
          → counts_at n text nk level t ≡ b
          → (vs : List Str) → FirstGiven nk level ts vs
          → FirstGiven nk level (t ∷ ts) (if b then shown n text t ∷ vs else vs)
      by_test true e vs h = record {
        before = [];
        tag = t;
        after = ts;
        split = refl;
        first_one = tt;
        counted = e;
        value = refl;
      }
      by_test false e vs h = later vs e h

  -- What a key with one value takes: that of the first unbound tag of level 50 (the video itself), or
  -- of level 60 (its season) when there is none, or of level 70 (its collection) when there is neither;
  -- or the empty text. Tags of other levels are not looked at.
  abbrev pub Best : Str → List SimpleTag → Str → Type 0
  Best nk ts v =
      Gives nk level_movie ts v
      ⊎ (Lacks nk level_movie ts
          × (Gives nk level_season ts v
              ⊎ (Lacks nk level_season ts
                  × (Gives nk level_collection ts v ⊎ (Lacks nk level_collection ts × (v ≡ []))))))

  -- For every list of tags, a key that has one value takes that of the first unbound tag of the key at
  -- level 50, in the order of the file; with none there, of the first one at level 60; with none there
  -- either, of the first one at level 70; and with none at these three levels the empty text.
  pub chosen-Best :
      (nk : Str) (ts : List SimpleTag) → n.is_multi nk ≡ false → Best nk ts (chosen n text nk ts)
  unfolding chosen
  chosen-Best nk ts single =
      rw (single)
        (at_movie (values_at n text nk level_movie ts) (values_at-FirstGiven nk level_movie ts))
    where
      season : Str → Type 0
      season v =
          Gives nk level_season ts v
          ⊎ (Lacks nk level_season ts
              × (Gives nk level_collection ts v ⊎ (Lacks nk level_collection ts × (v ≡ []))))

      collection : Str → Type 0
      collection v = Gives nk level_collection ts v ⊎ (Lacks nk level_collection ts × (v ≡ []))

      at_collection :
          (vs : List Str)
          → FirstGiven nk level_collection ts vs
          → collection (first_or n text [] vs)
      at_collection [] h = inr (h, refl)
      at_collection (v ∷ vs) h = inl h

      at_season :
          (vs : List Str) (other : Str)
          → FirstGiven nk level_season ts vs
          → collection other
          → season (first_or n text other vs)
      at_season [] other h k = inr (h, k)
      at_season (v ∷ vs) other h k = inl h

      others : Str
      others =
          first_or n text (first_or n text [] (values_at n text nk level_collection ts))
            (values_at n text nk level_season ts)

      others_season : season others
      others_season =
          at_season (values_at n text nk level_season ts) _
            (values_at-FirstGiven nk level_season ts)
            (at_collection (values_at n text nk level_collection ts)
              (values_at-FirstGiven nk level_collection ts))

      at_movie :
          (vs : List Str) → FirstGiven nk level_movie ts vs → Best nk ts (first_or n text others vs)
      at_movie [] h = inr (h, others_season)
      at_movie (v ∷ vs) h = inl h
