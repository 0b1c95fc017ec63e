-- ===== src/Rename/Collide.antt =====
-- internal/rename/collide.go. A map from names to videos is a function that gives 0 where the name is
-- missing, and the outcomes stand beside their wants in place of a map by the video's id. The two are
-- the same for wants with different ids, as the planner gives them: one want for each video of a folder.
use holodex.Prelude.{
  ℕ, zero, suc, ◌-◌, Str, codes, ◌=s◌, Bool, true, false, not, ◌&&◌, ◌||◌, Option, none, some, List,
  [], ◌∷◌, ◌++◌, ◌==◌, leb, length, take, if◌then◌else◌,
}
use holodex.Go.Strings.{has}
use holodex.Go.Strconv.{format_int}
use holodex.Rename.Name.{Names, NameError, clash, check_name, fold_key}

pub record Want : Type 0 where
  pub video_id : ℕ
  pub current : Str
  pub desired : Str

pub record FolderNames : Type 0 where
  pub listing : List Str
  pub tracked : Str → ℕ

pub record Outcome : Type 0 where
  pub name : Str
  pub holder_id : ℕ
  pub error : Option NameError

-- filepath.Ext: the text from the last dot on, with no slash behind it; none is the empty text.
unfoldable pub ext_of : Str → Option Str
unfolding has
ext_of [] = none
ext_of (c ∷ s) = elim (ext_of s) [
  | some e ↦ some e
  | none ↦ if c == b'.' && not (has (λ d. d == b'/') s) then some (c ∷ s) else none
]

abbrev or_empty : Option Str → Str
or_empty none = []
or_empty (some e) = e

-- Disambiguate
unfoldable pub disambiguate : Str → ℕ → Str
unfolding ext_of format_int
disambiguate name id =
    let ext = or_empty (ext_of name) in
    take (length name - length ext) name ++ (codes " {hx-" ++ (format_int id ++ (codes "}" ++ ext)))

-- What PlanFolder knows while it runs: who is expected to move, who has which name, and which names
-- are on the disk without a video.
pub record Folder : Type 0 where
  pub moving : ℕ → Bool
  pub tracked : Str → ℕ
  pub untracked : Str → Bool

-- holder
unfoldable pub holder : Folder → Str → ℕ → ℕ
holder f key self = let id = f.tracked key in if id == 0 || id == self || f.moving id then 0 else id

abbrev pub accepted : Str → ℕ → Outcome
accepted name h = record { name = name; holder_id = h; error = none }

abbrev pub refused : NameError → Outcome
refused e = record { name = []; holder_id = 0; error = some e }

abbrev pub first_holder : ℕ → ℕ → ℕ
first_holder h c = if h == 0 then c else h

abbrev pub claim : Str → ℕ → (Str → ℕ) → Str → ℕ
claim key id claimed k = if key =s k then id else claimed k

module _ (n : Names) where
  abbrev pub key_of : Str → Str
  key_of = fold_key n

  -- The name with the video's id in it, where another video has the plain one.
  unfoldable pub checked_name : Folder → Want → ℕ → Str → Option NameError → Outcome
  unfolding holder
  checked_name f w h name (some e) = refused e
  checked_name f w h name none =
      if not (key_of name =s key_of w.current)
        && (f.untracked (key_of name) || not (holder f (key_of name) w.video_id == 0))
      then refused clash
      else accepted name h

  unfoldable pub second_name : Folder → Want → ℕ → Outcome
  unfolding disambiguate check_name checked_name
  second_name f w h =
      let name = disambiguate w.desired w.video_id in checked_name f w h name (check_name n name)

  -- One want of planPass, after the wants that made these claims
  unfoldable pub place : Folder → (Str → ℕ) → Want → Outcome × (Str → ℕ)
  unfolding holder checked_name second_name
  place f claimed w =
      let key = key_of w.desired in
      let h = first_holder (holder f key w.video_id) (claimed key) in
      if key =s key_of w.current
      then (accepted w.desired 0, claimed)
      else if f.untracked key
      then (refused clash, claimed)
      else if h == 0
      then (accepted w.desired 0, claim key w.video_id claimed)
      else (second_name f w h, claimed)

  -- planPass
  unfoldable pub plan_pass : Folder → (Str → ℕ) → List Want → List (Want × Outcome)
  unfolding place
  plan_pass f claimed [] = []
  plan_pass f claimed (w ∷ ws) = (w, (place f claimed w).0) ∷ plan_pass f (place f claimed w).1 ws

  abbrev pub no_claims : Str → ℕ
  no_claims k = 0

  abbrev pub is_error : Option NameError → Bool
  is_error none = false
  is_error (some e) = true

  abbrev pub stays : Want → Outcome → Bool
  stays w o = is_error o.error || o.name =s w.current

  abbrev pub unset : ℕ → (ℕ → Bool) → ℕ → Bool
  unset id m i = not (id == i) && m i

  -- The inner loop of PlanFolder: the wants that stay no longer move, and whether there was one
  unfoldable pub settle : List (Want × Outcome) → (ℕ → Bool) → (ℕ → Bool) × Bool
  settle [] m = (m, false)
  settle ((w, o) ∷ rest) m = elim (m w.video_id && stays w o) [
    | true ↦ ((settle rest (unset w.video_id m)).0, true)
    | false ↦ settle rest m
  ]

  -- The outer loop of PlanFolder
  unfoldable pub plan_loop :
      ℕ → (Str → ℕ) → (Str → Bool) → List Want → (ℕ → Bool) → Option (List (Want × Outcome))
  unfolding plan_pass settle
  plan_loop zero tracked untracked ws m = none
  plan_loop (suc fuel) tracked untracked ws m =
      let out =
        plan_pass (record { moving = m; tracked = tracked; untracked = untracked }) no_claims ws in
      elim (settle out m).1 [
        | true ↦ plan_loop fuel tracked untracked ws (settle out m).0
        | false ↦ some out
      ]

  unfoldable pub insert_want : Want → List Want → List Want
  insert_want w [] = w ∷ []
  insert_want w (v ∷ vs) =
      let rest = insert_want w vs in if leb w.video_id v.video_id then w ∷ v ∷ vs else v ∷ rest

  -- sort.Slice by the video's id, which no two wants share
  unfoldable pub sorted : List Want → List Want
  unfolding insert_want
  sorted [] = []
  sorted (w ∷ ws) = insert_want w (sorted ws)

  unfoldable pub is_untracked : List Str → (Str → ℕ) → Str → Bool
  is_untracked [] tracked k = false
  is_untracked (name ∷ names) tracked k =
      (key_of name =s k && tracked k == 0) || is_untracked names tracked k

  unfoldable pub wants_id : List Want → ℕ → Bool
  wants_id [] id = false
  wants_id (w ∷ ws) id = w.video_id == id || wants_id ws id

  -- PlanFolder: each round but the last stops a want, so there are at most one more than wants.
  unfoldable pub plan_folder : FolderNames → List Want → Option (List (Want × Outcome))
  unfolding plan_loop sorted is_untracked wants_id
  plan_folder f wants =
      let ws = sorted wants in
      plan_loop (suc (length ws)) f.tracked (is_untracked f.listing f.tracked) ws (wants_id ws)
