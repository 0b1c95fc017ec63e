-- ===== src/Maintenance/Reads.antt =====
-- The reads of a swap change nothing, and what they return is so.
use holodex.Prelude.{ℕ, Str, ◌≡◌, refl, true}
use holodex.Maintenance.Disk.{
  Node, absent, link, Disk, not_exist, stat_node, lstat_act, find_row, get_held_original, Reply,
  good, bad,
}
use holodex.Maintenance.Swap.{lstat, refuse_symlink, symlink_reply, exists, exists_reply}
use holodex.Maintenance.Hoare.{
  Assert, Ends, Triple, Triple-effect, Triple-bind, Triple-try, Triple-widen, Triple-pure,
  Triple-raise,
}
use holodex.Maintenance.Steps.{Steps, is_present}

module _ {P : Assert} where
  -- What Lstat reports: an error other than its own "not exist" says nothing.
  lstat-Steps :
      (q : Str)
      → Triple P
          (lstat q)
          (λ n d. P d × (is_present (d.files q) ≡ true))
          (λ e d. P d × (e ≡ not_exist → d.files q ≡ absent))
          P
  unfolding lstat lstat_act
  lstat-Steps q = Triple-effect _ (λ d h. found d _ refl h) (λ _ h. (h, λ e. cc)) (λ _ h. h)
    where
      found :
          (d : Disk) (n : Node)
          → d.files q ≡ n
          → P d
          → Ends
              (λ m x. P x × (is_present (x.files q) ≡ true))
              (λ e x. P x × (e ≡ not_exist → x.files q ≡ absent))
              P
              (stat_node (d.files q))
              d
      found d absent e h = rw e (h, λ _. e)
      found d n e h = rw e (h, rw e)

  pub get_held-Steps :
      (v : ℕ) → Steps P (get_held_original v) (λ o d. P d × (find_row v d.journal ≡ o))
  unfolding get_held_original
  get_held-Steps v = Triple-effect _ (λ d h. (h, refl)) (λ _ h. h) (λ _ h. h)

  -- refuseSymlink
  pub refuse_symlink-Steps : (q : Str) → Steps P (refuse_symlink q) (λ _. P)
  unfolding refuse_symlink
  refuse_symlink-Steps q =
      Triple-bind _ _
        (Triple-try {Q = λ _. P} _
          (Triple-widen _ (λ _ _ h. h.0) (λ _ _ h. h.0) (λ _ h. h) (lstat-Steps q)))
        reply
    where
      reply : (r : Reply Node) → Triple P (symlink_reply r) (λ _. P) (λ _. P) P
      reply (good link) = Triple-raise _ (λ _ h. h)
      reply _ = Triple-pure _ (λ _ h. h)

  -- exists
  pub exists-Steps : (q : Str) → Steps P (exists q) (λ b d. P d × (is_present (d.files q) ≡ b))
  unfolding exists
  exists-Steps q =
      Triple-bind {Q = reported} _ _
        (Triple-try {Q = reported} _
          (Triple-widen _ (λ n d h. h) (λ _ _ h. h) (λ _ h. h) (lstat-Steps q)))
        reply
    where
      reported : Reply Node → Assert
      reported (good n) d = P d × (is_present (d.files q) ≡ true)
      reported (bad e) d = P d × (e ≡ not_exist → d.files q ≡ absent)

      reply :
          (r : Reply Node)
          → Triple
              (reported r)
              (exists_reply r)
              (λ b d. P d × (is_present (d.files q) ≡ b))
              (λ _. P)
              P
      reply (good n) = Triple-pure _ (λ _ h. h)
      reply (bad not_exist) = Triple-pure _ (λ d h. (h.0, rw (h.1 refl)))
      reply (bad e) = Triple-raise _ (λ _ h. h.0)
