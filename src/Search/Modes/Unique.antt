-- ===== src/Search/Modes/Unique.antt =====
-- What the sorts by name and by metadata return, whatever the unstable sort does with equal items.
use flist_walker.Prelude.{
  ℕ, ◌≡◌, sym, ap, Bool, true, false, Option, none, List, [], ◌∷◌, map, arith, take, All, Member,
  filter_map, here, there,
}
use Prim.Native.Nat.{compare, Ordering}
use flist_walker.Paths.{FilePath}
use flist_walker.Sorting.{IsSorted, All-perm, sort_by, sort_by_unique}
use flist_walker.Query.Score.{Scoring}
use flist_walker.Search.Rank.{is_le, to_indexed, IndexedScore}
use flist_walker.Search.Modes.{
  compare_text, KeyedItem, compare_names, name_order, metadata_order, keyed, Metadata, sort_value,
  SearchResultSortMode, name_desc, is_desc_mode, Candidate, top_name_sorted_scores,
  top_metadata_sorted_scores,
}
use flist_walker.Search.Modes.Order.{
  IsLawful, compare-IsLawful, then-IsLawful, on-IsLawful, reverse-IsLawful, compare_text-IsLawful,
  compare_values-IsLawful, compare_values, IsLawful-IsOrder,
}
use mathlib.Core.List.{Permᴰ}
use mathlib.Core.List.Permᴰ

members_of {ℓ} :
    {A : Type ℓ} (xs ys : List A)
    → ((x : A) → Member x xs → Member x ys)
    → All (λ x. Member x ys) xs
members_of [] ys f = tt
members_of (x ∷ xs) ys f = (f x (here xs), members_of xs ys (λ y m. f y (there x m)))

module _ (scoring : Scoring) where
  abbrev Item : Type 0
  Item = KeyedItem scoring

  by_name : Item → Item → Ordering
  by_name a b = compare_text a.name_key b.name_key

  compare_names-IsLawful : IsLawful (compare_names scoring)
  unfolding compare_names
  compare_names-IsLawful =
      then-IsLawful _ _
        (then-IsLawful _ _
          (on-IsLawful (λ (k : Item). k.name_key) compare_text compare_text-IsLawful)
          (on-IsLawful (λ (k : Item). k.path_key) compare_text compare_text-IsLawful))
        (on-IsLawful (λ (k : Item). k.item.ordinal) compare compare-IsLawful)

  name_order-IsLawful : (desc : Bool) → IsLawful (name_order scoring desc)
  unfolding name_order
  name_order-IsLawful true = reverse-IsLawful (compare_names scoring) compare_names-IsLawful
  name_order-IsLawful false = compare_names-IsLawful

  metadata_order-IsLawful : (desc : Bool) → IsLawful (metadata_order scoring desc)
  unfolding metadata_order
  metadata_order-IsLawful desc =
      then-IsLawful _ _
        (then-IsLawful _ _
          (then-IsLawful _ _
            (on-IsLawful (λ (k : Item). k.value) (compare_values desc)
              (compare_values-IsLawful desc))
            (on-IsLawful (λ (k : Item). k.name_key) compare_text compare_text-IsLawful))
          (on-IsLawful (λ (k : Item). k.path_key) compare_text compare_text-IsLawful))
        (on-IsLawful (λ (k : Item). k.item.ordinal) compare compare-IsLawful)

  equal_names :
      (a b : Item) → compare_names scoring a b ≡ Ordering.eq → a.item.ordinal ≡ b.item.ordinal
  unfolding compare_names
  equal_names a b h = ground (arith, h)

  equal_in_name_order :
      (desc : Bool) (a b : Item)
      → name_order scoring desc a b ≡ Ordering.eq
      → a.item.ordinal ≡ b.item.ordinal
  unfolding name_order
  equal_in_name_order true a b h = equal_names a b (ground arith)
  equal_in_name_order false a b h = equal_names a b h

  equal_in_metadata_order :
      (desc : Bool) (a b : Item)
      → metadata_order scoring desc a b ≡ Ordering.eq
      → a.item.ordinal ≡ b.item.ordinal
  unfolding metadata_order
  equal_in_metadata_order desc a b h = ground (arith, h)

  abbrev pub le_by : (Item → Item → Ordering) → Item → Item → Bool
  le_by order a b = is_le (order a b)

  -- No two items have the same ordinal.
  abbrev pub IsDistinct : List Item → Type 0
  IsDistinct items =
      (a b : Item) → Member a items → Member b items → a.item.ordinal ≡ b.item.ordinal → a ≡ b

  sorted_arrangement :
      (order : Item → Item → Ordering) (items ys : List Item)
      → IsLawful order
      → ((a b : Item) → order a b ≡ Ordering.eq → a.item.ordinal ≡ b.item.ordinal)
      → IsDistinct items
      → Permᴰ ys items
      → IsSorted (le_by order) ys
      → ys ≡ sort_by (le_by order) items
  sorted_arrangement order items ys lawful equal distinct perm sorted =
      sort_by_unique (le_by order) (λ x. Member x items)
        (IsLawful-IsOrder order (λ x. Member x items) lawful
          (λ a b ma mb e. distinct a b ma mb (equal a b e)))
        perm (All-perm (λ x. Member x items) (Permᴰ.symm perm) (members_of items items (λ x m. m)))
        sorted

  abbrev pub is_name_desc : SearchResultSortMode → Bool
  is_name_desc name_desc = true
  is_name_desc _ = false

  abbrev pub name_items : List FilePath → List (Candidate scoring) → List Item
  name_items entries scored = filter_map (keyed scoring (λ _. none) entries) scored

  abbrev pub metadata_items :
      (FilePath → Option Metadata)
      → SearchResultSortMode
      → List FilePath
      → List (Candidate scoring)
      → List Item
  metadata_items metadata mode entries scored =
      filter_map (keyed scoring (λ path. sort_value mode (metadata path)) entries) scored

  abbrev pub best : ℕ → List Item → List (IndexedScore scoring)
  best limit items = map (λ (k : Item). to_indexed scoring k.item) (take limit items)

  -- The sort by name returns the first matches, up to the limit, of any arrangement of the located
  -- matches that is sorted by the comparison of the mode, so the unstable sort has one result,
  -- where no two matches have the same ordinal.
  pub top_name_sorted_scores_unique :
      (entries : List FilePath) (scored : List (Candidate scoring)) (limit : ℕ)
      (mode : SearchResultSortMode) (ys : List Item)
      → IsDistinct (name_items entries scored)
      → Permᴰ ys (name_items entries scored)
      → IsSorted (le_by (name_order scoring (is_name_desc mode))) ys
      → top_name_sorted_scores scoring entries scored limit mode ≡ best limit ys
  unfolding top_name_sorted_scores
  top_name_sorted_scores_unique entries scored limit mode ys distinct perm sorted =
      ap (best limit) (
        sym (
          sorted_arrangement (name_order scoring (is_name_desc mode)) (name_items entries scored) ys
            (name_order-IsLawful (is_name_desc mode)) (equal_in_name_order (is_name_desc mode))
            distinct perm sorted))

  -- The sort by time or size returns the first matches, up to the limit, of any arrangement of the
  -- located matches that is sorted by the comparison of the mode, so the unstable sort has one
  -- result, where no two matches have the same ordinal.
  pub top_metadata_sorted_scores_unique :
      (metadata : FilePath → Option Metadata) (entries : List FilePath)
      (scored : List (Candidate scoring)) (limit : ℕ) (mode : SearchResultSortMode) (ys : List Item)
      → IsDistinct (metadata_items metadata mode entries scored)
      → Permᴰ ys (metadata_items metadata mode entries scored)
      → IsSorted (le_by (metadata_order scoring (is_desc_mode mode))) ys
      → top_metadata_sorted_scores scoring metadata entries scored limit mode ≡ best limit ys
  unfolding top_metadata_sorted_scores
  top_metadata_sorted_scores_unique metadata entries scored limit mode ys distinct perm sorted =
      ap (best limit) (
        sym (
          sorted_arrangement (metadata_order scoring (is_desc_mode mode))
            (metadata_items metadata mode entries scored) ys
            (metadata_order-IsLawful (is_desc_mode mode))
            (equal_in_metadata_order (is_desc_mode mode)) distinct perm sorted))
