-- ===== src/Search/Modes.antt =====
-- rust/src/search/mod.rs: the matches sorted by name or by what the file system tells of the files.
pub mod Order
pub mod Unique
use flist_walker.Prelude.{
  ℕ, Bool, true, false, Option, none, some, List, [], ◌∷◌, map, get_elem?, take, filter_map, ◌==◌,
  if◌then◌else◌,
}
use Prim.Native.Nat.{compare, Ordering}
use flist_walker.Text.{Text, to_ascii_lowercase}
use flist_walker.Paths.{FilePath, file_name, path_key}
use flist_walker.Sorting.{sort_by}
use flist_walker.Query.Score.{Scoring}
use flist_walker.Search.Rank.{SearchCandidateScore, IndexedScore, to_indexed, then_with, is_le}

pub data SearchResultSortMode : Type 0 where
  score name_asc name_desc modified_desc modified_asc created_desc created_asc size_desc size_asc :
      SearchResultSortMode

pub data SearchResultSortScope : Type 0 where
  shown_results all_matches : SearchResultSortScope

-- `std::fs::Metadata`, with the times as numbers.
pub record Metadata : Type 0 where
  pub modified : Option ℕ
  pub created : Option ℕ
  pub is_file : Bool
  pub size : ℕ

-- `str::cmp`: the bytes of UTF-8 are ordered as the code points are.
unfoldable pub compare_text : Text → Text → Ordering
compare_text [] [] = Ordering.eq
compare_text [] (c ∷ s) = Ordering.lt
compare_text (c ∷ s) [] = Ordering.gt
compare_text (c ∷ s) (d ∷ t) = then_with (compare c d) (compare_text s t)

abbrev pub reverse : Ordering → Ordering
reverse Ordering.lt = Ordering.gt
reverse Ordering.eq = Ordering.eq
reverse Ordering.gt = Ordering.lt

abbrev slash_of : ℕ → ℕ
slash_of c = if c == b'\\' then b'/' else c

unfoldable pub entry_name_key : FilePath → Text
entry_name_key path = elim (file_name path) [ none ↦ [] | some name ↦ to_ascii_lowercase name ]

unfoldable pub entry_path_key : FilePath → Text
entry_path_key path = map slash_of (path_key path)

unfoldable pub compare_optional_sort_value : Option ℕ → Option ℕ → Bool → Ordering
compare_optional_sort_value (some a) (some b) desc = if desc then compare b a else compare a b
compare_optional_sort_value (some a) none desc = Ordering.lt
compare_optional_sort_value none (some b) desc = Ordering.gt
compare_optional_sort_value none none desc = Ordering.eq

abbrev is_size_mode : SearchResultSortMode → Bool
is_size_mode size_desc = true
is_size_mode size_asc = true
is_size_mode _ = false

abbrev pub is_desc_mode : SearchResultSortMode → Bool
is_desc_mode modified_desc = true
is_desc_mode created_desc = true
is_desc_mode size_desc = true
is_desc_mode _ = false

-- The `timestamp` or the `size_bytes` by which the mode sorts.
unfoldable pub sort_value : SearchResultSortMode → Option Metadata → Option ℕ
sort_value mode none = none
sort_value modified_desc (some meta) = meta.modified
sort_value modified_asc (some meta) = meta.modified
sort_value created_desc (some meta) = meta.created
sort_value created_asc (some meta) = meta.created
sort_value size_desc (some meta) = if meta.is_file then some meta.size else none
sort_value size_asc (some meta) = if meta.is_file then some meta.size else none
sort_value _ (some meta) = none

module _ (scoring : Scoring) where
  abbrev Candidate : Type 0
  Candidate = SearchCandidateScore scoring

  -- A match with its keys; a sort by name has no value.
  pub record KeyedItem : Type 0 where
    pub item : Candidate
    pub name_key : Text
    pub path_key : Text
    pub value : Option ℕ

  unfoldable pub keyed : (FilePath → Option ℕ) → List FilePath → Candidate → Option KeyedItem
  keyed value_of entries item = elim (get_elem? entries item.index) [
    | none ↦ none
    | some path ↦ some (record {
      item = item;
      name_key = entry_name_key path;
      path_key = entry_path_key path;
      value = value_of path;
    })
  ]

  unfoldable pub compare_names : KeyedItem → KeyedItem → Ordering
  compare_names a b =
      then_with
        (then_with (compare_text a.name_key b.name_key) (compare_text a.path_key b.path_key))
        (compare a.item.ordinal b.item.ordinal)

  unfoldable pub name_order : Bool → KeyedItem → KeyedItem → Ordering
  name_order desc a b = let cmp = compare_names a b in if desc then reverse cmp else cmp

  unfoldable pub metadata_order : Bool → KeyedItem → KeyedItem → Ordering
  metadata_order desc a b =
      then_with
        (then_with
          (then_with (compare_optional_sort_value a.value b.value desc)
            (compare_text a.name_key b.name_key))
          (compare_text a.path_key b.path_key))
        (compare a.item.ordinal b.item.ordinal)

  -- `sort_unstable_by`, `take` and `map`
  abbrev pub first_sorted :
      (KeyedItem → KeyedItem → Ordering) → ℕ → List KeyedItem → List (IndexedScore scoring)
  first_sorted order limit items =
      map (λ k. to_indexed scoring k.item) (take limit (sort_by (λ a b. is_le (order a b)) items))

  unfoldable pub top_name_sorted_scores :
      List FilePath → List Candidate → ℕ → SearchResultSortMode → List (IndexedScore scoring)
  top_name_sorted_scores entries scored limit mode =
      let desc : Bool = (elim mode [ name_desc ↦ true | _ ↦ false ]) in
      first_sorted (name_order desc) limit (filter_map (keyed (λ _. none) entries) scored)

  unfoldable pub top_metadata_sorted_scores :
      (FilePath → Option Metadata)
      → List FilePath
      → List Candidate
      → ℕ
      → SearchResultSortMode
      → List (IndexedScore scoring)
  top_metadata_sorted_scores metadata entries scored limit mode =
      first_sorted (metadata_order (is_desc_mode mode)) limit
        (filter_map (keyed (λ path. sort_value mode (metadata path)) entries) scored)
