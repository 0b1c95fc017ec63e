-- ===== src/Writeback/Snapshot/Tests.antt =====
-- A job that is cut short and run again.
use holodex.Prelude.{Str, ◌=s◌, ◌≡◌, refl, codes, true, false, List, [], ◌∷◌}
use holodex.Writeback.Snapshot.{
  JobKey, works, dies, Attempt, World, Stepped, went_on, snapshot_before_write, attempts,
}
use holodex.Writeback.Snapshot.Kept.{Captured, attempts-Kept}

-- A file is its values, and the job writes one title.
abbrev retagged : (Str → Str) → Str → Str
retagged f k = codes "new"

abbrev old_values : Str → Str
old_values k = codes "old"

abbrev title_key : List Str
title_key = codes "title" ∷ []

abbrev job_key : JobKey
job_key = record { id = 12; video_id = 7; batch_id = [] }

-- The first attempt dies before it records, the second after it wrote, the third runs to the end.
abbrev three_tries : List Attempt
three_tries =
    (record { lookup = works; read = dies; insert = works; is_written = false })
    ∷ (record { lookup = works; read = works; insert = works; is_written = true })
    ∷ (record { lookup = works; read = works; insert = works; is_written = true })
    ∷ []

abbrev unwritten : World (λ f k. f k) retagged title_key
unwritten = record { file = old_values; snaps = [] }

three_tries_snaps :
    (attempts (λ f k. f k) retagged title_key job_key three_tries unwritten).snaps
    ≡ (record { video_id = 7; batch = codes "12"; field = codes "title"; prior = codes "old" }) ∷ []
unfolding attempts snapshot_before_write holodex.Writeback.Snapshot.snapshot_exists
    holodex.Writeback.Snapshot.snapshot_rows ◌=s◌ holodex.Go.Strconv.format_int
three_tries_snaps = refl

attempts-Kept_example :
    Captured
      (λ f k. f k)
      retagged
      title_key
      job_key
      old_values
      (attempts (λ f k. f k) retagged title_key job_key three_tries unwritten)
unfolding holodex.Writeback.Snapshot.snapshot_exists
attempts-Kept_example =
    attempts-Kept (λ f k. f k) retagged title_key job_key three_tries unwritten
      ((refl, (refl, refl)), ((refl, (refl, refl)), ((refl, (refl, refl)), tt))) refl

-- A job of images alone has no value to read: nothing is recorded, and its batch is returned.
image_only :
    snapshot_before_write
      (λ (f : Str → Str) k. f k)
      retagged
      []
      (record { lookup = works; read = works; insert = works; is_written = true })
      job_key
      (record { file = old_values; snaps = [] })
    ≡ went_on (codes "12") (record { file = old_values; snaps = [] })
unfolding snapshot_before_write holodex.Writeback.Snapshot.snapshot_exists
    holodex.Writeback.Snapshot.snapshot_rows holodex.Go.Strconv.format_int
image_only = refl
