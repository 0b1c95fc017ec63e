-- ===== src/Extract/Tests.antt =====
-- Candidates scored and routed.
use holodex.Prelude.{◌≡◌, refl, ◌↔◌, codes, ◌=s◌, true, false}
use holodex.Extract.Confidence.{
  single_source, conflict, full, match_exact, is_entity_field, auto_apply_threshold, score_entity,
}
use holodex.Extract.Routing.{route, decide}
use holodex.Extract.Gate.{Cleared, route-Cleared, decide-conflict}

-- A full name that the tag lacks, matched exactly, is applied.
decide_people : (decide (codes "people") single_source full match_exact false).auto_apply ≡ true
unfolding decide ◌=s◌
decide_people = refl

route-Cleared_example :
    ((route (codes "people") true match_exact 90 false).auto_apply ≡ true)
    ↔ Cleared (codes "people") true match_exact 90 false
route-Cleared_example = route-Cleared (codes "people") true match_exact 90 false

decide-conflict_example :
    (decide (codes "edition") conflict full match_exact false).auto_apply ≡ false
unfolding holodex.Extract.Confidence.field_tier ◌=s◌
decide-conflict_example = decide-conflict (codes "edition") full match_exact false refl
