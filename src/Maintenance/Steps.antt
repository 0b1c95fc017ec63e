-- ===== src/Maintenance/Steps.antt =====
-- What each step of a swap does to one video's file, held original and journal row.
use holodex.Prelude.{ℕ, Str, =s_refl, ◌≡◌, refl, Bool, true, false, Option, none, some, arith}
use holodex.Maintenance.Disk.{
  Error, Node, absent, file, link, HeldState, swapping, Disk, not_exist, done, err, M, put,
  move_act, remove_act, begin_act, begin_swap, set_act, set_held_state, delete_held_original,
}
use holodex.Maintenance.Swap.{held_path, new_path, rename, remove}
use holodex.Maintenance.Paths.{path_ne_held, held_ne_path, path_ne_new, held_ne_new, new_ne_held}
use holodex.Maintenance.Journal.{RowIs, find_row-drop_row, find_row-begin, find_row-put_state}
use holodex.Maintenance.Hoare.{Assert, Ends, Triple, Triple-effect}

abbrev pub is_link : Node → Bool
is_link link = true
is_link _ = false

abbrev pub is_present : Node → Bool
is_present absent = false
is_present _ = true

-- What stands at the file's path and at its held path, and the row's state. The candidate is no
-- symbolic link.
pub record At (v : ℕ) (p : Str) (here there : Node) (row : Option HeldState) (d : Disk)
    : Type 0 where
  pub path : d.files p ≡ here
  pub original : d.files (held_path p) ≡ there
  pub candidate : is_link (d.files (new_path p)) ≡ false
  pub journaled : RowIs v p row d.journal

-- Something stands at the file's path.
pub record Taken (v : ℕ) (p : Str) (there : Node) (row : Option HeldState) (d : Disk) : Type 0 where
  pub node : Node
  pub here : is_present node ≡ true
  pub now : At v p node there row d

-- A step that fails leaves the disk as it was.
abbrev pub Steps : {A : Type 0} → Assert → M A → (A → Assert) → Type 0
Steps P m Q = Triple P m Q (λ _. P) P

pub move_act-present :
    (old new : Str) (n : Node) (d : Disk)
    → d.files old ≡ n
    → is_present n ≡ true
    → move_act old new d ≡ (done tt, record d { files = put (put d.files old absent) new n })
unfolding move_act
move_act-present old new n d e h = ground arith

move_act-absent :
    (old new : Str) (d : Disk) → d.files old ≡ absent → move_act old new d ≡ (err not_exist, d)
unfolding move_act
move_act-absent old new d e = ground arith

remove_act-present :
    (q : Str) (n : Node) (d : Disk)
    → d.files q ≡ n
    → is_present n ≡ true
    → remove_act q d ≡ (done tt, record d { files = put d.files q absent })
unfolding remove_act
remove_act-present q n d e h = ground arith

remove_act-absent : (q : Str) (d : Disk) → d.files q ≡ absent → remove_act q d ≡ (err not_exist, d)
unfolding remove_act
remove_act-absent q d e = ground arith

module _ (v : ℕ) (p : Str) where
  -- rename(path, held)
  pub move_aside :
      (o : ℕ) (b : Node) (r : Option HeldState)
      → Steps (At v p (file o) b r) (rename p (held_path p)) (λ _. At v p absent (file o) r)
  unfolding rename put
  move_aside o b r =
      Triple-effect _
        (λ d h. rw (move_act-present p (held_path p) (file o) d h.path refl) (record {
          path = rw (held_ne_path p, =s_refl);
          original = rw =s_refl;
          candidate = rw (held_ne_new p, path_ne_new p) h.candidate;
          journaled = h.journaled;
        }))
        (λ _ h. h) (λ _ h. h)

  -- rename(held, path)
  pub move_back :
      (a : Node) (o : ℕ) (r : Option HeldState)
      → Steps (At v p a (file o) r) (rename (held_path p) p) (λ _. At v p (file o) absent r)
  unfolding rename put
  move_back a o r =
      Triple-effect _
        (λ d h. rw (move_act-present (held_path p) p (file o) d h.original refl) (record {
          path = rw =s_refl;
          original = rw (path_ne_held p, =s_refl);
          candidate = rw (path_ne_new p, held_ne_new p) h.candidate;
          journaled = h.journaled;
        }))
        (λ _ h. h) (λ _ h. h)

  placed_act :
      (a b : Node) (r : Option HeldState) (d : Disk) (n : Node)
      → d.files (new_path p) ≡ n
      → At v p a b r d
      → Ends
          (λ _. Taken v p b r)
          (λ _. At v p a b r)
          (At v p a b r)
          (move_act (new_path p) p d).0
          (move_act (new_path p) p d).1
  placed_act a b r d absent e h = rw (move_act-absent (new_path p) p d e) h
  placed_act a b r d link e h = cc (h.candidate, e)
  placed_act a b r d (file c) e h = rw (move_act-present (new_path p) p (file c) d e refl) (record {
    node = file c;
    here = refl;
    now =
        unfold put in
        record {
          path = rw =s_refl;
          original = rw (path_ne_held p, new_ne_held p) h.original;
          candidate = rw (path_ne_new p, =s_refl);
          journaled = h.journaled;
        };
  })

  -- rename(new, path): the candidate, if it is there, comes to the path.
  pub place :
      (a b : Node) (r : Option HeldState)
      → Steps (At v p a b r) (rename (new_path p) p) (λ _. Taken v p b r)
  unfolding rename
  place a b r = Triple-effect _ (λ d h. placed_act a b r d _ refl h) (λ _ h. h) (λ _ h. h)

  -- remove(held): the error says whether the held original is missing.
  pub remove_held :
      (a b : Node) (r : Option HeldState)
      → Triple
          (At v p a b r)
          (remove (held_path p))
          (λ _. At v p a absent r)
          (λ e d. At v p a b r d × (e ≡ not_exist → b ≡ absent))
          (At v p a b r)
  unfolding remove
  remove_held a b r =
      Triple-effect _ (λ d h. removed d b h.original h) (λ _ h. (h, λ e. cc)) (λ _ h. h)
    where
      removed :
          (d : Disk) (n : Node)
          → d.files (held_path p) ≡ n
          → At v p a b r d
          → Ends
              (λ _. At v p a absent r)
              (λ e x. At v p a b r x × (e ≡ not_exist → b ≡ absent))
              (At v p a b r)
              (remove_act (held_path p) d).0
              (remove_act (held_path p) d).1
      removed d absent e h = rw (remove_act-absent (held_path p) d e) (h, λ _. cc (h.original, e))
      removed d n e h = rw (remove_act-present (held_path p) n d e refl) (
          unfold put in
          record {
            path = rw (held_ne_path p) h.path;
            original = rw =s_refl;
            candidate = rw (held_ne_new p) h.candidate;
            journaled = h.journaled;
          })

  -- SetHeldState on a standing row
  pub set_state :
      (a b : Node) (s s' : HeldState)
      → Steps (At v p a b (some s)) (set_held_state v s') (λ _. At v p a b (some s'))
  unfolding set_held_state set_act
  set_state a b s s' =
      Triple-effect _
        (λ d h.
          let (k, f, r) = h.journaled in
          rw f (record {
            path = h.path;
            original = h.original;
            candidate = h.candidate;
            journaled = (
              record k { state = s' },
              find_row-put_state v s' k d.journal f,
              record { in_state = refl; holds = r.holds; of_video = r.of_video },
            );
          }))
        (λ _ h. h) (λ _ h. h)

  -- DeleteHeldOriginal
  pub drop_journal :
      (a b : Node) (r : Option HeldState)
      → Steps (At v p a b r) (delete_held_original v) (λ _. At v p a b none)
  unfolding delete_held_original
  drop_journal a b r =
      Triple-effect _
        (λ d h. record {
          path = h.path;
          original = h.original;
          candidate = h.candidate;
          journaled = find_row-drop_row v d.journal;
        })
        (λ _ h. h) (λ _ h. h)

  -- BeginSwap, where the video has no row
  pub begin :
      (a b : Node) (op : Str) (now expires : ℕ)
      → Steps
          (At v p a b none)
          (begin_swap v (held_path p) op now expires)
          (λ _. At v p a b (some swapping))
  unfolding begin_swap begin_act
  begin a b op now expires =
      Triple-effect _
        (λ d h. rw h.journaled (record {
          path = h.path;
          original = h.original;
          candidate = h.candidate;
          journaled = (
            _,
            find_row-begin v _ d.journal h.journaled refl,
            record { in_state = refl; holds = refl; of_video = refl },
          );
        }))
        (λ _ h. h) (λ _ h. h)

pub Triple-Taken :
    {A : Type 0} {v : ℕ} {p : Str} {b : Node} {r : Option HeldState} {Q : A → Assert}
    {E : Error → Assert} {C : Assert} (m : M A)
    → ((n : Node) → is_present n ≡ true → Triple (At v p n b r) m Q E C)
    → Triple (Taken v p b r) m Q E C
Triple-Taken m t = record { run = λ w h. (t h.node h.here).run w h.now }
