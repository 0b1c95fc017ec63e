-- ===== src/Extract/Routing.antt =====
-- internal/extract/routing.go, and the part of Process that scores a candidate and routes it.
use holodex.Prelude.{ℕ, Str, Bool, true, false, not, ◌&&◌, Option, none, some, leb, if◌then◌else◌}
use holodex.Extract.Confidence.{
  Agreement, Specificity, EntityMatch, match_none, match_exact, auto_apply_threshold,
  is_entity_field, score_entity, score_non_entity,
}

pub data Reason : Type 0 where
  auto_applied below_threshold fuzzy_gate manual_override unknown_field : Reason

pub record Decision : Type 0 where
  pub auto_apply : Bool
  pub reason : Reason

abbrev pub is_exact : EntityMatch → Bool
is_exact match_exact = true
is_exact _ = false

abbrev review : Reason → Decision
review r = record { auto_apply = false; reason = r }

abbrev pub route_known : Bool → EntityMatch → ℕ → Option ℕ → Decision
route_known entity m score none = review unknown_field
route_known entity m score (some threshold) =
    if entity && not (is_exact m)
    then (if leb threshold score then review fuzzy_gate else review below_threshold)
    else if leb threshold score
    then record { auto_apply = true; reason = auto_applied }
    else review below_threshold

-- Route
unfoldable pub route : Str → Bool → EntityMatch → ℕ → Bool → Decision
unfolding auto_apply_threshold
route field entity m score manual =
    if manual
    then review manual_override
    else route_known entity m score (auto_apply_threshold field)

-- The score of a candidate in Process; a field that is no entity has no match.
unfoldable pub candidate_score : Bool → Agreement → Specificity → EntityMatch → ℕ
unfolding score_entity score_non_entity
candidate_score true a s m = score_entity a s m
candidate_score false a s m = score_non_entity a s

abbrev pub candidate_match : Bool → EntityMatch → EntityMatch
candidate_match true m = m
candidate_match false m = match_none

-- Process, from the classified candidate to the decision
unfoldable pub decide : Str → Agreement → Specificity → EntityMatch → Bool → Decision
unfolding is_entity_field route candidate_score
decide field a s m manual =
    let e = is_entity_field field in
    route field e (candidate_match e m) (candidate_score e a s m) manual
