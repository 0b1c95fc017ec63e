-- ===== src/Metadata/Tests.antt =====
-- A small Matroska file, read.
use holodex.Prelude.{
  Bool, ◌=s◌, ℕ, ◌≡◌, refl, arith, Str, codes, true, false, List, [], ◌∷◌, ◌++◌, map, none, some,
  Option, All,
}
use holodex.Go.Unicode.{ascii}
use holodex.Metadata.Select.{Naming, chosen, select_matroska_tags}
use holodex.Metadata.Select.Best.{Best, chosen-Best}
use holodex.Metadata.Select.Honest.{IsHonest, select_matroska_tags-Honest}
use holodex.Metadata.Vint.{read_vint}
use holodex.Metadata.Vint.Bounds.{Bounded, read_vint-Bounded}
use holodex.Metadata.Vint.Encode.{Width, bytes_of, write_vint, marked, read_vint-write_vint}
use holodex.Metadata.Elements.{children, children_from}
use holodex.Metadata.Elements.Enough.{children_from-children}
use holodex.Metadata.Elements.Coding.{Written, write_all, element_of, children-write_all}
use holodex.Metadata.Tags.{SimpleTag}
use holodex.Metadata.Tags.Sizes.{TagShort}
use holodex.Metadata.Walk.{MkvTags, Walked, parse_matroska_tags, max_read_length}
use holodex.Metadata.Walk.Ends.{Returns, parse_matroska_tags-Returns}
use holodex.Metadata.Walk.Caps.{parse_matroska_tags-Short}

abbrev name_and_value : Str
name_and_value = (69 ∷ 163 ∷ 133 ∷ codes "TITLE") ++ (68 ∷ 135 ∷ 130 ∷ codes "Hi")

-- An EBML header without content, and a segment of one Tags element with one tag.
abbrev small_file : Str
small_file =
    (26 ∷ 69 ∷ 223 ∷ 163 ∷ 128 ∷ [])
    ++ (24 ∷ 83 ∷ 128 ∷ 103 ∷ 157 ∷ [])
    ++ (18 ∷ 84 ∷ 195 ∷ 103 ∷ 147 ∷ [])
    ++ (115 ∷ 115 ∷ 144 ∷ [])
    ++ (103 ∷ 200 ∷ 141 ∷ [])
    ++ name_and_value

abbrev tags_in : Option Walked → List SimpleTag
tags_in none = []
tags_in (some w) = w.0.tags

parse_small :
    tags_in (parse_matroska_tags small_file 34)
    ≡ (record { name = codes "TITLE"; value = codes "Hi"; level = 50; is_bound = false }) ∷ []
unfolding parse_matroska_tags holodex.Metadata.Walk.read_element_header read_vint
    holodex.Metadata.Vint.vint_of holodex.Metadata.Vint.vint_length holodex.Metadata.Vint.shift_all
    holodex.Metadata.Walk.walk_segment holodex.Metadata.Walk.walk holodex.Metadata.Walk.visit
    holodex.Metadata.Walk.read_payload holodex.Metadata.Tags.parse_tags
    holodex.Metadata.Tags.tags_of children holodex.Metadata.Elements.children_from
    holodex.Metadata.Elements.fitting holodex.Metadata.Elements.read_header
    holodex.Metadata.Tags.gather_all holodex.Metadata.Elements.first_child
    holodex.Metadata.Elements.find_child
parse_small = refl

parse_matroska_tags-Returns_example : Returns (parse_matroska_tags small_file 34)
parse_matroska_tags-Returns_example = parse_matroska_tags-Returns small_file 34

parse_matroska_tags-Short_example :
    (w : Walked) × ((parse_matroska_tags small_file 34 ≡ some w)
      × All (TagShort max_read_length) w.0.tags)
parse_matroska_tags-Short_example = parse_matroska_tags-Short small_file 34

abbrev two_elements : List Written
two_elements =
    (record {
      id_width = Width.w2;
      id_value = 1443;
      size_width = Width.w1;
      content = codes "TITLE";
    })
    ∷ (record { id_width = Width.w2; id_value = 1159; size_width = Width.w2; content = codes "Hi" })
    ∷ []

children-write_all_example : children (write_all two_elements) ≡ map element_of two_elements
children-write_all_example =
    children-write_all two_elements ((omega arith, omega arith), ((omega arith, omega arith), tt))

read_vint-write_vint_example :
    read_vint (write_vint Width.w2 300 ++ codes "rest") true
    ≡ some (marked true Width.w2 300, bytes_of Width.w2)
read_vint-write_vint_example = read_vint-write_vint true Width.w2 300 (codes "rest") (omega arith)

read_vint-Bounded_example : Bounded (65 ∷ 44 ∷ []) (read_vint (65 ∷ 44 ∷ []) true)
read_vint-Bounded_example = read_vint-Bounded (65 ∷ 44 ∷ []) (omega arith, (omega arith, tt))

abbrev plain_naming : Naming
plain_naming = record {
  to_lower = ascii.to_lower;
  canonical_key = λ s. s;
  is_date_name = λ s. false;
  date_form = λ s. s;
  is_multi = λ k. k =s codes "artist";
}

abbrev tag : Str → Str → ℕ → Bool → SimpleTag
tag name value level is_bound = record {
  name = name;
  value = value;
  level = level;
  is_bound = is_bound;
}

-- The season's title, a track's, the video's, and two artists
abbrev leveled_tags : List SimpleTag
leveled_tags =
    tag (codes "TITLE") (codes "Season 2") 60 false
    ∷ tag (codes "TITLE") (codes "Stereo") 50 true
    ∷ tag (codes "TITLE") (codes "Pilot") 50 false
    ∷ tag (codes "ARTIST") (codes "A") 50 false
    ∷ tag (codes "ARTIST") (codes "B") 50 false
    ∷ []

abbrev leveled : MkvTags
leveled = record { info_keys = λ k. false; tags = leveled_tags }

abbrev exif_output : List (Str × Str)
exif_output =
    (codes "Title", codes "Season 2")
    ∷ (codes "Artist", codes "A")
    ∷ (codes "Duration", codes "60")
    ∷ []

select_leveled :
    select_matroska_tags plain_naming (λ s. s) exif_output leveled
    ≡ (codes "Artist", codes "A, B")
      ∷ (codes "Title", codes "Pilot")
      ∷ (codes "Duration", codes "60")
      ∷ []
unfolding select_matroska_tags holodex.Metadata.Select.chosen_entries
    holodex.Metadata.Select.names_of holodex.Metadata.Select.is_known ◌=s◌
    holodex.Metadata.Select.key_bytes chosen holodex.Metadata.Select.join_values
    holodex.Metadata.Select.values_at holodex.Metadata.Select.lookup
    holodex.Metadata.Select.without_key holodex.Metadata.Select.kept
select_leveled = refl

select_matroska_tags-Honest_example :
    All
      (IsHonest plain_naming (λ s. s) exif_output leveled)
      (select_matroska_tags plain_naming (λ s. s) exif_output leveled)
select_matroska_tags-Honest_example =
    select_matroska_tags-Honest plain_naming (λ s. s) exif_output leveled

chosen-Best_example :
    Best plain_naming
      (λ (s : Str). s)
      (codes "title")
      leveled_tags
      (chosen plain_naming (λ (s : Str). s) (codes "title") leveled_tags)
unfolding ◌=s◌
chosen-Best_example = chosen-Best plain_naming (λ (s : Str). s) (codes "title") leveled_tags refl

children_from-children_example : children_from 40 name_and_value ≡ children name_and_value
children_from-children_example = children_from-children 40 name_and_value (omega arith)
