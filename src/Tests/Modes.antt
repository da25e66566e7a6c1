-- ===== src/Tests/Modes.antt =====
-- Witnesses for the sort modes.
use flist_walker.Prelude.{
  ℕ, ◌≡◌, refl, sym, ◌≢◌, Option, none, some, List, [], ◌∷◌, arith, length, Member, here, there,
  ◌==◌,
}
use flist_walker.Tests.{program, whole_scores, files, file}
use flist_walker.Text.{codes, to_ascii_lowercase}
use flist_walker.Paths.{FilePath, path_key}
use flist_walker.Search.Collect.Members.{Member-nil}
use flist_walker.Search.Rank.{SearchCandidateScore}
use flist_walker.Search.Modes.{
  Metadata, name_desc, size_desc, KeyedItem, keyed, compare_text, compare_names, name_order,
  metadata_order, compare_optional_sort_value, sort_value, entry_name_key, entry_path_key,
  top_name_sorted_scores, top_metadata_sorted_scores,
}
use flist_walker.Search.Modes.Unique.{
  best, top_name_sorted_scores_unique, top_metadata_sorted_scores_unique,
}
use mathlib.Core.List.{Permᴰ}
use mathlib.Core.List.Permᴰ

mode_parts : Unit {0}
unfolding program compare_text keyed compare_names name_order metadata_order
    compare_optional_sort_value sort_value entry_name_key entry_path_key to_ascii_lowercase path_key
mode_parts = tt

abbrev found : List (SearchCandidateScore whole_scores)
found =
    record { index = 0; score = 3; ordinal = 0 } ∷ record { index = 2; score = 5; ordinal = 1 } ∷ []

-- Every path with two names is a file of 12 bytes.
abbrev sizes : FilePath → Option Metadata
sizes path =
    some (record { modified = none; created = none; is_file = length (path.names) == 2; size = 12 })

pair-IsDistinct :
    (a b : KeyedItem whole_scores) (x y : KeyedItem whole_scores)
    → x.item.ordinal ≢ y.item.ordinal
    → Member a (x ∷ y ∷ [])
    → Member b (x ∷ y ∷ [])
    → a.item.ordinal ≡ b.item.ordinal
    → a ≡ b
pair-IsDistinct a b x y n (here _) (here _) e = refl
pair-IsDistinct a b x y n (here _) (there _ (here _)) e = absurd (n e)
pair-IsDistinct a b x y n (there _ (here _)) (here _) e = absurd (n (sym e))
pair-IsDistinct a b x y n (there _ (here _)) (there _ (here _)) e = refl
pair-IsDistinct a b x y n (there _ (there _ m)) k e = absurd (Member-nil m)
pair-IsDistinct a b x y n (here _) (there _ (there _ m)) e = absurd (Member-nil m)
pair-IsDistinct a b x y n (there _ (here _)) (there _ (there _ m)) e = absurd (Member-nil m)

named : (index ordinal score : ℕ) (path : FilePath) (value : Option ℕ) → KeyedItem whole_scores
named index ordinal score path value = record {
  item = record { index = index; score = score; ordinal = ordinal };
  name_key = entry_name_key path;
  path_key = entry_path_key path;
  value = value;
}

abbrev main_item : Option ℕ → KeyedItem whole_scores
main_item value = named 0 0 3 (file (codes "main.rs")) value

abbrev mail_item : Option ℕ → KeyedItem whole_scores
mail_item value = named 2 1 5 (file (codes "mail")) value

-- `main.rs` stands before `mail` in the descending order.
top_name_sorted_scores_unique_example :
    top_name_sorted_scores whole_scores files found 1 name_desc
    ≡ best whole_scores 1 (main_item none ∷ mail_item none ∷ [])
unfolding mode_parts named
top_name_sorted_scores_unique_example =
    top_name_sorted_scores_unique whole_scores files found 1 name_desc
      (main_item none ∷ mail_item none ∷ [])
      (λ a b. pair-IsDistinct a b (main_item none) (mail_item none) (ground arith))
      (Permᴰ.refl (main_item none ∷ mail_item none ∷ [])) ((refl, tt), (tt, tt))

-- For files of equal size the names decide, ascending.
top_metadata_sorted_scores_unique_example :
    top_metadata_sorted_scores whole_scores sizes files found 1 size_desc
    ≡ best whole_scores 1 (mail_item (some 12) ∷ main_item (some 12) ∷ [])
unfolding mode_parts named
top_metadata_sorted_scores_unique_example =
    top_metadata_sorted_scores_unique whole_scores sizes files found 1 size_desc
      (mail_item (some 12) ∷ main_item (some 12) ∷ [])
      (λ a b. pair-IsDistinct a b (main_item (some 12)) (mail_item (some 12)) (ground arith))
      (Permᴰ.swap refl refl) ((refl, tt), (tt, tt))
