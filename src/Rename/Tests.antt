-- ===== src/Rename/Tests.antt =====
-- Plans of small folders, over names in ASCII.
use holodex.Prelude.{
  arith, ℕ, Str, codes, ◌=s◌, ◌≡◌, refl, true, false, some, List, [], ◌∷◌, if◌then◌else◌,
}
use holodex.Go.Unicode.{ascii}
use holodex.Rename.Name.{Names}
use holodex.Rename.Collide.{Want, Outcome, FolderNames, plan_folder, accepted}
use holodex.Rename.Apart.{Apart, plan_folder-Apart}
use holodex.Rename.Spared.{AllSpared, plan_folder-Spared}
use holodex.Rename.Free.{Settled, plan_folder-Settled}

abbrev plain_names : Names
plain_names = record {
  is_text = λ s. true;
  has_format = λ s. false;
  to_upper = ascii.to_upper;
  is_local = λ s. true;
  nfc = λ s. s;
  fold = ascii.to_lower;
}

unfoldable tracked_as : List (Str × ℕ) → Str → ℕ
tracked_as [] k = 0
tracked_as ((s, id) ∷ rest) k = let r = tracked_as rest k in if s =s k then id else r

abbrev two_videos : FolderNames
two_videos = record {
  listing = codes "a" ∷ codes "b" ∷ codes "x" ∷ [];
  tracked = tracked_as ((codes "a", 1) ∷ (codes "b", 2) ∷ []);
}

abbrev want : ℕ → Str → Str → Want
want id old new = record { video_id = id; current = old; desired = new }

abbrev swapped : List Want
swapped = want 2 (codes "b") (codes "a") ∷ want 1 (codes "a") (codes "b") ∷ []

abbrev recased : List Want
recased = want 1 (codes "a") (codes "A") ∷ want 2 (codes "b") (codes "a") ∷ []

-- Two videos may swap their names.
swap_names :
    plan_folder plain_names two_videos swapped
    ≡ some (
        (want 1 (codes "a") (codes "b"), accepted (codes "b") 0)
        ∷ (want 2 (codes "b") (codes "a"), accepted (codes "a") 0)
        ∷ [])
unfolding plan_folder tracked_as ◌=s◌
swap_names = refl

-- A video that changes only the case of its name counts as leaving it: another video gets that name.
recased_name :
    plan_folder plain_names two_videos recased
    ≡ some (
        (want 1 (codes "a") (codes "A"), accepted (codes "A") 0)
        ∷ (want 2 (codes "b") (codes "a"), accepted (codes "a") 0)
        ∷ [])
unfolding plan_folder tracked_as ◌=s◌
recased_name = refl

plan_folder-Settled_example :
    Settled plain_names two_videos swapped (plan_folder plain_names two_videos swapped)
plan_folder-Settled_example = plan_folder-Settled plain_names two_videos swapped

plan_folder-Apart_example :
    (out : List (Want × Outcome)) × (plan_folder plain_names two_videos swapped ≡ some out)
    × Apart plain_names out
plan_folder-Apart_example =
    plan_folder-Apart plain_names two_videos swapped (omega arith, (omega arith, tt))

plan_folder-Spared_example :
    (out : List (Want × Outcome)) × (plan_folder plain_names two_videos swapped ≡ some out)
    × AllSpared plain_names out
unfolding tracked_as ◌=s◌
plan_folder-Spared_example = plan_folder-Spared plain_names two_videos swapped (
  record { has_id = omega arith; known = refl },
  (record { has_id = omega arith; known = refl }, tt),
)
