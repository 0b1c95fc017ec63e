-- ===== src/Writeback/Table.antt =====
-- The table writeback_queue, with the SQL statements that internal/repo runs on it. Times are whole
-- seconds, which RFC 3339 texts in UTC are ordered like.
use holodex.Prelude.{
  ℕ, ◌+◌, Str, Bool, true, false, ◌&&◌, ◌||◌, Option, none, some, List, [], ◌∷◌, ◌==◌, ltb,
  if◌then◌else◌,
}

-- WritebackKindWrite, WritebackKindMaintenance, WritebackKindRename
pub data Kind : Type 0 where
  write maintenance rename : Kind

-- WritebackPending, WritebackRunning, WritebackFailed
pub data Status : Type 0 where
  pending running failed : Status

infix 50 ◌=k◌
abbrev pub ◌=k◌ : Kind → Kind → Bool
write =k write = true
write =k maintenance = false
write =k rename = false
maintenance =k write = false
maintenance =k maintenance = true
maintenance =k rename = false
rename =k write = false
rename =k maintenance = false
rename =k rename = true

abbrev pub is_pending : Status → Bool
is_pending pending = true
is_pending running = false
is_pending failed = false

abbrev pub is_running : Status → Bool
is_running pending = false
is_running running = true
is_running failed = false

abbrev pub is_failed : Status → Bool
is_failed pending = false
is_failed running = false
is_failed failed = true

-- status IN ('pending','running')
abbrev pub is_active : Status → Bool
is_active s = is_pending s || is_running s

-- A row, with the columns of WritebackJob
pub record Row : Type 0 where
  pub id : ℕ
  pub video_id : ℕ
  pub kind : Kind
  pub payload : Str
  pub status : Status
  pub attempts : ℕ
  pub error : Str
  pub batch_id : Str
  pub enqueued_at : ℕ
  pub updated_at : ℕ

-- The rows, and the id that AUTOINCREMENT gives next.
pub record Table : Type 0 where
  pub rows : List Row
  pub next_id : ℕ

-- SELECT COUNT(*) ... WHERE
unfoldable pub count : (Row → Bool) → List Row → ℕ
count p [] = 0
count p (r ∷ rs) = (if p r then 1 else 0) + count p rs

-- SELECT EXISTS(...)
unfoldable pub has : (Row → Bool) → List Row → Bool
has p [] = false
has p (r ∷ rs) = p r || has p rs

-- SELECT ... WHERE
unfoldable pub select : (Row → Bool) → List Row → List Row
select p [] = []
select p (r ∷ rs) = let rest = select p rs in if p r then r ∷ rest else rest

-- DELETE ... WHERE
unfoldable pub delete_where : (Row → Bool) → List Row → List Row
delete_where p [] = []
delete_where p (r ∷ rs) = let rest = delete_where p rs in if p r then rest else r ∷ rest

-- UPDATE ... WHERE
unfoldable pub update_where : (Row → Bool) → (Row → Row) → List Row → List Row
update_where p f [] = []
update_where p f (r ∷ rs) = (if p r then f r else r) ∷ update_where p f rs

-- ORDER BY enqueued_at, id
abbrev pub comes_before : Row → Row → Bool
comes_before r s =
    ltb r.enqueued_at s.enqueued_at || (r.enqueued_at == s.enqueued_at && ltb r.id s.id)

abbrev pub earlier : Row → Option Row → Row
earlier r none = r
earlier r (some s) = if comes_before s r then s else r

-- ... ORDER BY enqueued_at, id LIMIT 1
unfoldable pub oldest : List Row → Option Row
oldest [] = none
oldest (r ∷ rs) = some (earlier r (oldest rs))

-- The first row of a SELECT
abbrev pub first : List Row → Option Row
first [] = none
first (r ∷ rs) = some r

abbrev pub has_id : ℕ → Row → Bool
has_id id r = r.id == id

abbrev pub has_video : ℕ → Row → Bool
has_video v r = r.video_id == v

abbrev pub of_lane : ℕ → Kind → Row → Bool
of_lane v k r = r.video_id == v && r.kind =k k
