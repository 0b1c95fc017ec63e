-- ===== src/Extract/Confidence.antt =====
-- internal/extract/confidence.go. The scores and thresholds are multiples of 0.01, which the program
-- keeps as 64-bit floats: here they are hundredths. On every sum that the rubrics can make, the
-- comparison of floats and the comparison of hundredths agree.
use holodex.Prelude.{
  ℕ, ◌+◌, Str, codes, ◌=s◌, Bool, true, Option, none, some, List, [], ◌∷◌, if◌then◌else◌,
}

pub data Agreement : Type 0 where
  conflict fuzzy single_source exact : Agreement

pub data Specificity : Type 0 where
  garbled partial full : Specificity

pub data EntityMatch : Type 0 where
  match_none match_fuzzy match_exact : EntityMatch

pub data Tier : Type 0 where
  high medium low : Tier

-- tierThresholds
abbrev pub tier_threshold : Tier → ℕ
tier_threshold high = 80
tier_threshold medium = 70
tier_threshold low = 40

abbrev field_tiers : List (Str × Tier)
field_tiers =
    (codes "people", high)
    ∷ (codes "studio", high)
    ∷ (codes "movie", high)
    ∷ (codes "edition", high)
    ∷ (codes "part", high)
    ∷ (codes "title", medium)
    ∷ (codes "release_date", medium)
    ∷ (codes "comment", low)
    ∷ (codes "genre", low)
    ∷ (codes "tags", low)
    ∷ (codes "scene_number", low)
    ∷ []

unfoldable pub find_tier : List (Str × Tier) → Str → Option Tier
find_tier [] f = none
find_tier ((g, t) ∷ rest) f = let r = find_tier rest f in if f =s g then some t else r

-- fieldTiers
unfoldable pub field_tier : Str → Option Tier
unfolding find_tier
field_tier = find_tier field_tiers

-- IsEntityField
unfoldable pub is_entity_field : Str → Bool
is_entity_field f = if f =s codes "people" then true else f =s codes "studio"

-- IsMultiValueField
unfoldable pub is_multi_value_field : Str → Bool
is_multi_value_field f = f =s codes "people"

abbrev pub threshold_of : Option Tier → Option ℕ
threshold_of none = none
threshold_of (some t) = some (tier_threshold t)

-- AutoApplyThreshold
unfoldable pub auto_apply_threshold : Str → Option ℕ
unfolding field_tier
auto_apply_threshold f = threshold_of (field_tier f)

unfoldable pub score_agreement : Agreement → ℕ → ℕ → ℕ → ℕ
score_agreement exact e s f = e
score_agreement single_source e s f = s
score_agreement fuzzy e s f = f
score_agreement conflict e s f = 0

unfoldable pub score_specificity : Specificity → ℕ → ℕ → ℕ
score_specificity full f p = f
score_specificity partial f p = p
score_specificity garbled f p = 0

unfoldable pub score_entity_match : EntityMatch → ℕ
score_entity_match match_exact = 50
score_entity_match match_fuzzy = 20
score_entity_match match_none = 5

-- ScoreEntity
unfoldable pub score_entity : Agreement → Specificity → EntityMatch → ℕ
unfolding score_agreement score_specificity score_entity_match
score_entity a s m = score_agreement a 30 20 10 + score_specificity s 20 7 + score_entity_match m

-- ScoreNonEntity
unfoldable pub score_non_entity : Agreement → Specificity → ℕ
unfolding score_agreement score_specificity
score_non_entity a s = score_agreement a 50 30 20 + score_specificity s 50 25
