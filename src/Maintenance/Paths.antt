-- ===== src/Maintenance/Paths.antt =====
-- The three paths of a swap are three, and a held path gives its file's path back.
use holodex.Prelude.{
  Str, ◌=s◌, =s_refl, ◌≡◌, refl, false, some, [], ◌∷◌, ◌++◌, arith, append_ne_left, append_ne_right,
  =s-append, longer_ne_suffix,
}
use holodex.Maintenance.Disk.{held_path_suffix}
use holodex.Maintenance.Swap.{held_path, new_path, cut_suffix}

module _ (p : Str) where
  pub path_ne_held : (p =s held_path p) ≡ false
  unfolding held_path
  path_ne_held = append_ne_right p _ _

  pub held_ne_path : (held_path p =s p) ≡ false
  unfolding held_path
  held_ne_path = append_ne_left p _ _

  pub path_ne_new : (p =s new_path p) ≡ false
  unfolding new_path
  path_ne_new = append_ne_right p _ _

  pub new_ne_path : (new_path p =s p) ≡ false
  unfolding new_path
  new_ne_path = append_ne_left p _ _

  pub held_ne_new : (held_path p =s new_path p) ≡ false
  unfolding held_path new_path ◌=s◌
  held_ne_new = =s-append p _ _

  pub new_ne_held : (new_path p =s held_path p) ≡ false
  unfolding held_path new_path ◌=s◌
  new_ne_held = =s-append p _ _

cut_suffix_self : (suffix : Str) → cut_suffix suffix suffix ≡ some []
unfolding cut_suffix ◌=s◌
cut_suffix_self [] = refl
cut_suffix_self (c ∷ s) = ground (arith, =s_refl (c ∷ s))

cut_suffix-append : (suffix p : Str) → cut_suffix suffix (p ++ suffix) ≡ some p
unfolding cut_suffix
cut_suffix-append suffix [] = cut_suffix_self suffix
cut_suffix-append suffix (c ∷ p) =
    ground (arith, longer_ne_suffix c p suffix, cut_suffix-append suffix p)

-- TrimSuffix undoes HeldPath.
pub cut_suffix-held_path : (p : Str) → cut_suffix held_path_suffix (held_path p) ≡ some p
unfolding held_path
cut_suffix-held_path p = cut_suffix-append held_path_suffix p
