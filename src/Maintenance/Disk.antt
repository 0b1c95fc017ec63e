-- ===== src/Maintenance/Disk.antt =====
-- The file system and the held_originals table as one state, and actions on it that a fault
-- script can make fail or cut off. The table is that of internal/repo/held_originals.go; the
-- file operations are os.Rename, os.Remove and os.Lstat.
use holodex.Prelude.{
  ℕ, Str, codes, ◌=s◌, Bool, true, false, Option, none, some, List, [], ◌∷◌, ◌++◌, ◌==◌, ltb,
  if◌then◌else◌,
}

-- What Lstat finds at a path. A file's content is told apart by a number.
pub data Node : Type 0 where
  absent : Node
  file : ℕ → Node
  link : Node

pub data HeldState : Type 0 where
  swapping held restoring discarding : HeldState

abbrev pub state_eq : HeldState → HeldState → Bool
state_eq swapping swapping = true
state_eq held held = true
state_eq restoring restoring = true
state_eq discarding discarding = true
state_eq _ _ = false

abbrev pub held_path_suffix : Str
held_path_suffix = codes ".holodex-orig"

pub record HeldOriginal : Type 0 where
  pub video_id : ℕ
  pub held_path : Str
  pub op : Str
  pub state : HeldState
  pub created_at : ℕ
  pub expires_at : ℕ

pub record Disk : Type 0 where
  pub files : Str → Node
  pub journal : List HeldOriginal

-- How the next call to the system or the database ends: it works, it returns an error and changes
-- nothing, or the process dies before it.
pub data Fault : Type 0 where
  works fails dies : Fault

pub record World : Type 0 where
  pub disk : Disk
  pub script : List Fault

pub data Error : Type 0 where
  io not_exist symlinked_sibling held_mismatch row_conflict no_row missing : Error

pub data Outcome (A : Type 0) : Type 0 where
  done : A → Outcome A
  err : Error → Outcome A
  crashed : Outcome A

abbrev pub M : Type 0 → Type 0
M A = World → Outcome A × World

abbrev pub then_run : {A B : Type 0} → Outcome A → (A → M B) → M B
then_run (done a) f w = f a w
then_run (err e) f w = (err e, w)
then_run crashed f w = (crashed, w)

infixl 5 ◌>>=◌ ◌>>◌
unfoldable pub ◌>>=◌ : {A B : Type 0} → M A → (A → M B) → M B
◌>>=◌ m f w = let (o, w') = m w in then_run o f w'

abbrev pub ◌>>◌ : {A B : Type 0} → M A → M B → M B
m >> n = m >>= λ _. n

unfoldable pub pure : {A : Type 0} → A → M A
pure a w = (done a, w)

unfoldable pub raise : {A : Type 0} → Error → M A
raise e w = (err e, w)

-- A step that may fail or be cut off: it takes one entry of the script, and works past its end.
unfoldable pub strike :
    {A : Type 0} → List Fault → (Disk → Outcome A × Disk) → Disk → Outcome A × World
strike [] act d = let (o, d') = act d in (o, record { disk = d'; script = [] })
strike (works ∷ s) act d = let (o, d') = act d in (o, record { disk = d'; script = s })
strike (fails ∷ s) act d = (err io, record { disk = d; script = s })
strike (dies ∷ s) act d = (crashed, record { disk = d; script = s })

unfoldable pub effect : {A : Type 0} → (Disk → Outcome A × Disk) → M A
unfolding strike
effect act w = strike w.script act w.disk

-- The result of a call whose error the caller looks at.
pub data Reply (A : Type 0) : Type 0 where
  good : A → Reply A
  bad : Error → Reply A

abbrev pub catch : {A : Type 0} → Outcome A → World → Outcome (Reply A) × World
catch (done a) w = (done (good a), w)
catch (err e) w = (done (bad e), w)
catch crashed w = (crashed, w)

unfoldable pub try : {A : Type 0} → M A → M (Reply A)
try m w = let (o, w') = m w in catch o w'

-- The file system.

unfoldable pub put : (Str → Node) → Str → Node → Str → Node
put fs p n q = if p =s q then n else fs q

abbrev move_node : Node → Str → Str → Disk → Outcome (Unit {0}) × Disk
move_node absent old new d = (err not_exist, d)
move_node n old new d = (done tt, record d { files = put (put d.files old absent) new n })

unfoldable pub move_act : Str → Str → Disk → Outcome (Unit {0}) × Disk
move_act old new d = move_node (d.files old) old new d

abbrev drop_node : Node → Str → Disk → Outcome (Unit {0}) × Disk
drop_node absent p d = (err not_exist, d)
drop_node n p d = (done tt, record d { files = put d.files p absent })

unfoldable pub remove_act : Str → Disk → Outcome (Unit {0}) × Disk
remove_act p d = drop_node (d.files p) p d

abbrev pub stat_node : Node → Outcome Node
stat_node absent = err not_exist
stat_node n = done n

unfoldable pub lstat_act : Str → Disk → Outcome Node × Disk
lstat_act p d = (stat_node (d.files p), d)

-- The journal.

unfoldable pub find_row : ℕ → List HeldOriginal → Option HeldOriginal
find_row v [] = none
find_row v (h ∷ t) = if h.video_id == v then some h else find_row v t

unfoldable pub put_state : ℕ → HeldState → List HeldOriginal → List HeldOriginal
put_state v s [] = []
put_state v s (h ∷ t) = (if h.video_id == v then record h { state = s } else h) ∷ put_state v s t

unfoldable pub drop_row : ℕ → List HeldOriginal → List HeldOriginal
drop_row v [] = []
drop_row v (h ∷ t) = let rest = drop_row v t in if h.video_id == v then rest else h ∷ rest

-- GetHeldOriginal
unfoldable pub get_held_original : ℕ → M (Option HeldOriginal)
get_held_original v = effect (λ d. (done (find_row v d.journal), d))

abbrev begin_at : Option HeldOriginal → HeldOriginal → Disk → Outcome (Unit {0}) × Disk
begin_at none h d = (done tt, record d { journal = d.journal ++ h ∷ [] })
begin_at (some _) h d = (err row_conflict, d)

unfoldable pub begin_act : HeldOriginal → Disk → Outcome (Unit {0}) × Disk
begin_act h d = begin_at (find_row h.video_id d.journal) h d

-- BeginSwap: the INSERT fails on a second row for the video, its primary key.
unfoldable pub begin_swap : ℕ → Str → Str → ℕ → ℕ → M (Unit {0})
begin_swap v path op now expires = effect (
    begin_act (record {
      video_id = v;
      held_path = path;
      op = op;
      state = swapping;
      created_at = now;
      expires_at = expires;
    }))

abbrev set_at : Option HeldOriginal → ℕ → HeldState → Disk → Outcome (Unit {0}) × Disk
set_at none v s d = (err no_row, d)
set_at (some _) v s d = (done tt, record d { journal = put_state v s d.journal })

unfoldable pub set_act : ℕ → HeldState → Disk → Outcome (Unit {0}) × Disk
set_act v s d = set_at (find_row v d.journal) v s d

-- SetHeldState
unfoldable pub set_held_state : ℕ → HeldState → M (Unit {0})
set_held_state v s = effect (set_act v s)

-- DeleteHeldOriginal
unfoldable pub delete_held_original : ℕ → M (Unit {0})
delete_held_original v = effect (λ d. (done tt, record d { journal = drop_row v d.journal }))

-- ORDER BY created_at, video_id
unfoldable pub older : HeldOriginal → HeldOriginal → Bool
older a b =
    if a.created_at == b.created_at
    then ltb a.video_id b.video_id
    else ltb a.created_at b.created_at

unfoldable pub insert_row : HeldOriginal → List HeldOriginal → List HeldOriginal
unfolding older
insert_row h [] = h ∷ []
insert_row h (g ∷ t) = if older h g then h ∷ g ∷ t else g ∷ insert_row h t

unfoldable pub rows_in : HeldState → List HeldOriginal → List HeldOriginal
unfolding insert_row
rows_in s [] = []
rows_in s (h ∷ t) = let rest = rows_in s t in if state_eq h.state s then insert_row h rest else rest

-- ListHeldOriginals
unfoldable pub list_held_originals : HeldState → M (List HeldOriginal)
list_held_originals s = effect (λ d. (done (rows_in s d.journal), d))
