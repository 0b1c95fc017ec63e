-- ===== src/Extract/Gate.antt =====
-- When a candidate is applied without review.
use holodex.Prelude.{
  ℕ, ◌≤◌, ◌≡◌, arith, ◌↔◌, Str, Bool, true, false, some, some-injective, Bool-cases, Option-cases,
  inl, inr, ap, ◌∙◌, sym,
}
use holodex.Extract.Confidence.{
  conflict, Specificity, EntityMatch, high, threshold_of, field_tier, auto_apply_threshold,
  is_entity_field, score_entity, score_non_entity, score_agreement, score_specificity,
  score_entity_match,
}
use holodex.Extract.Routing.{route, decide, is_exact, candidate_score, candidate_match}

-- What an applied candidate has: no hand edit on the field, an exact match where the field is an
-- entity, and a score at the threshold of the field's tier.
pub record Cleared (field : Str) (entity : Bool) (m : EntityMatch) (score : ℕ) (manual : Bool)
    : Type 0 where
  pub unedited : manual ≡ false
  pub threshold : ℕ
  pub known : auto_apply_threshold field ≡ some threshold
  pub reached : threshold ≤ score
  pub matched : entity ≡ true → is_exact m ≡ true

-- Route applies a candidate exactly when all of its gates are passed.
pub route-Cleared :
    (field : Str) (entity : Bool) (m : EntityMatch) (score : ℕ) (manual : Bool)
    → ((route field entity m score manual).auto_apply ≡ true) ↔ Cleared field entity m score manual
unfolding route
route-Cleared field entity m score manual = (there, back)
  where
    there :
        (route field entity m score manual).auto_apply ≡ true → Cleared field entity m score manual
    there h = elim (Option-cases (auto_apply_threshold field)) [
      | inl e ↦ absurd (ground arith)
      | inr (t, e) ↦ record {
        unedited = ground arith;
        threshold = t;
        known = e;
        reached = ground arith;
        matched = ground arith;
      }
    ]

    back :
        Cleared field entity m score manual → (route field entity m score manual).auto_apply ≡ true
    back c = ground (arith, c.unedited, c.known, c.reached, c.matched)

-- A conflict leaves out the 30 points of agreement at least.
conflict-score :
    (entity : Bool) (s : Specificity) (m : EntityMatch) → candidate_score entity conflict s m ≤ 70
unfolding candidate_score score_entity score_non_entity score_agreement score_specificity
    score_entity_match
conflict-score true s m = ground arith
conflict-score false s m = ground arith

high-threshold : (field : Str) → field_tier field ≡ some high → auto_apply_threshold field ≡ some 80
unfolding auto_apply_threshold
high-threshold field h = ap threshold_of h

conflict-not_Cleared :
    (field : Str) (entity : Bool) (s : Specificity) (m m' : EntityMatch) (manual : Bool)
    → field_tier field ≡ some high
    → ¬ Cleared field entity m' (candidate_score entity conflict s m) manual
conflict-not_Cleared field entity s m m' manual h c = omega (
  arith,
  c.reached,
  conflict-score entity s m,
  some-injective _ _ (sym c.known ∙ high-threshold field h),
)

-- On a field of the high tier, a candidate that conflicts with the file's tag is never applied
-- without review, whatever it looks like and matches.
pub decide-conflict :
    (field : Str) (s : Specificity) (m : EntityMatch) (manual : Bool)
    → field_tier field ≡ some high
    → (decide field conflict s m manual).auto_apply ≡ false
unfolding decide
decide-conflict field s m manual h =
    elim (Bool-cases (decide field conflict s m manual).auto_apply) [
      | inl e ↦ absurd (
          conflict-not_Cleared field (is_entity_field field) s m
            (candidate_match (is_entity_field field) m) manual h
            ((route-Cleared field _ _ _ manual).0 e))
      | inr e ↦ e
    ]
