-- ===== src/Metadata/Select/Honest.antt =====
-- Where the values of selectMatroskaTags come from.
use holodex.Prelude.{
  ◌≡◌, ◌≢◌, ◌⊎◌, refl, sym, subst, ap, arith, Str, Bool, true, false, not, ◌||◌, Option, none, some,
  List, [], ◌∷◌, ◌=s◌, eq_of_=s, if◌then◌else◌, if_both, In, All, inl, inr,
}
use holodex.Metadata.Tags.{SimpleTag}
use holodex.Metadata.Walk.{MkvTags}
use holodex.Metadata.Select.{
  Naming, normalize_tag_key, is_known, chosen, kept, least, lookup, names_of, without_key, ◌<s◌,
  chosen_entries, select_matroska_tags,
}

module _ {V : Type 0} (n : Naming) (text : Str → V) where
  -- An entry of exiftool's output as it was, or the text chosen for the key of its name, not empty.
  abbrev pub IsHonest : List (Str × V) → MkvTags → Str × V → Type 0
  IsHonest raw mt e =
      In e raw
      ⊎ ((mt.info_keys e.0 ≡ false)
          × ((e.1 ≡ text (chosen n text (normalize_tag_key n text e.0) mt.tags))
              × (chosen n text (normalize_tag_key n text e.0) mt.tags ≢ [])))

  -- A name under its normalized key
  abbrev IsKeyed : Str × Str → Type 0
  IsKeyed p = p.0 ≡ normalize_tag_key n text p.1

  abbrev OptKeyed : Str → Option Str → Type 0
  OptKeyed nk none = Unit
  OptKeyed nk (some name) = nk ≡ normalize_tag_key n text name

  lookup-Keyed :
      (nk : Str) (names : List (Str × Str)) → All IsKeyed names → OptKeyed nk (lookup nk names)
  unfolding lookup
  lookup-Keyed nk [] h = tt
  lookup-Keyed nk (p ∷ names) (a, h) = by_test (p.0 =s nk) refl (lookup-Keyed nk names h)
    where
      by_test :
          (b : Bool)
          → (p.0 =s nk) ≡ b
          → OptKeyed nk (lookup nk names)
          → OptKeyed nk (if b then some p.1 else lookup nk names)
      by_test true e k = subst (λ (x : Str). x ≡ normalize_tag_key n text p.1) (eq_of_=s p.0 nk e) a
      by_test false e k = k

  without_key-Keyed :
      (nk : Str) (names : List (Str × Str))
      → All IsKeyed names
      → All IsKeyed (without_key n text nk names)
  unfolding without_key
  without_key-Keyed nk [] h = tt
  without_key-Keyed nk (p ∷ names) (a, h) =
      let rest = without_key-Keyed nk names h in if_both (All IsKeyed) (p.0 =s nk) rest (a, rest)

  least-Keyed :
      (ck : Str) (o : Option Str)
      → OptKeyed (normalize_tag_key n text ck) o
      → normalize_tag_key n text ck ≡ normalize_tag_key n text (least n text ck o)
  least-Keyed ck none h = refl
  least-Keyed ck (some prev) h =
      if_both (λ (x : Str). normalize_tag_key n text ck ≡ normalize_tag_key n text x) (ck <s prev)
        refl h

  names_of-Keyed :
      (mt : MkvTags) (es : List (Str × V)) (names : List (Str × Str))
      → All IsKeyed names
      → All IsKeyed (names_of n text mt es names)
  unfolding names_of
  names_of-Keyed mt [] names h = h
  names_of-Keyed mt (e ∷ es) names h = names_of-Keyed mt es _ (
      if_both (All IsKeyed) (is_known n text nk mt.tags)
        (least-Keyed ck (lookup nk names) (lookup-Keyed nk names h), without_key-Keyed nk names h)
        h)
    where
      ck : Str
      ck = n.canonical_key e.0

      nk : Str
      nk = normalize_tag_key n text ck

  kept-Honest :
      (mt : MkvTags) (raw es : List (Str × V))
      → ((e : Str × V) → In e es → In e raw)
      → All (IsHonest raw mt) (kept n text mt es)
  unfolding kept
  kept-Honest mt raw [] h = tt
  kept-Honest mt raw (e ∷ es) h =
      if_both (All (IsHonest raw mt))
        (not (is_known n text (normalize_tag_key n text (n.canonical_key e.0)) mt.tags)
          || mt.info_keys e.0)
        (inl (h e (inl refl)), kept-Honest mt raw es (λ x i. h x (inr i)))
        (kept-Honest mt raw es (λ x i. h x (inr i)))

  not_empty : (s : Str) → (s =s []) ≡ false → s ≢ []
  unfolding ◌=s◌
  not_empty [] h = absurd (cc)
  not_empty (c ∷ s) h = λ e. absurd (cc)

  chosen_entries-Honest :
      (mt : MkvTags) (raw : List (Str × V)) (names : List (Str × Str)) (out : List (Str × V))
      → All IsKeyed names
      → All (IsHonest raw mt) out
      → All (IsHonest raw mt) (chosen_entries n text mt names out)
  unfolding chosen_entries
  chosen_entries-Honest mt raw [] out keyed h = h
  chosen_entries-Honest mt raw (p ∷ names) out (a, keyed) h =
      by_test (mt.info_keys p.1 || (value =s [])) refl
        (chosen_entries-Honest mt raw names out keyed h)
    where
      value : Str
      value = chosen n text p.0 mt.tags

      by_test :
          (b : Bool)
          → (mt.info_keys p.1 || (value =s [])) ≡ b
          → All (IsHonest raw mt) (chosen_entries n text mt names out)
          → All (IsHonest raw mt) (
              if b
              then chosen_entries n text mt names out
              else (p.1, text value) ∷ chosen_entries n text mt names out)
      by_test true e k = k
      by_test false e k = (
        inr (
          ground arith,
          (
            ap (λ (x : Str). text (chosen n text x mt.tags)) a,
            λ none_chosen.
                not_empty value (ground arith)
                  (subst (λ (x : Str). chosen n text x mt.tags ≡ []) (sym a) none_chosen),
          ),
        ),
        k,
      )

  -- Every entry of the result is one that exiftool gave, or its value is the text chosen from the tags
  -- with its key, which is not empty, and no Info element has its name.
  pub select_matroska_tags-Honest :
      (raw : List (Str × V)) (mt : MkvTags)
      → All (IsHonest raw mt) (select_matroska_tags n text raw mt)
  unfolding select_matroska_tags
  select_matroska_tags-Honest raw mt = by_tags mt.tags
    where
      by_tags :
          (ts : List SimpleTag)
          → All (IsHonest raw mt) (elim ts [
            | [] ↦ raw
            | t ∷ later ↦ chosen_entries n text mt (names_of n text mt raw []) (kept n text mt raw)
          ])
      by_tags [] = raw-Honest raw (λ e i. i)
        where
          raw-Honest :
              (es : List (Str × V))
              → ((e : Str × V) → In e es → In e raw)
              → All (IsHonest raw mt) es
          raw-Honest [] h = tt
          raw-Honest (e ∷ es) h = (inl (h e (inl refl)), raw-Honest es (λ x i. h x (inr i)))
      by_tags (t ∷ later) =
          chosen_entries-Honest mt raw (names_of n text mt raw []) (kept n text mt raw)
            (names_of-Keyed mt raw [] tt) (kept-Honest mt raw raw (λ e i. i))
