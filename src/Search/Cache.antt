-- ===== src/Search/Cache.antt =====
-- rust/src/search/cache.rs: the cache of the indices that the prefixes of a query matched.
pub mod Plain
pub mod Prefix
pub mod Invariant
pub mod Lookup
pub mod Members
pub mod Stored
use flist_walker.Prelude.{
  ℕ, zero, suc, ◌+◌, ◌-◌, ◌*◌, Bool, true, false, ◌&&◌, ◌||◌, not, Option, none, some, List, [],
  ◌∷◌, ◌++◌, length, is_empty, any, ltb, ◌==◌, if◌then◌else◌,
}
use flist_walker.Text.{Text, len, text_eq, trim, has_char, is_whitespace, starts_with}
use flist_walker.Paths.{FilePath, path_key, normalize_windows_path}
use flist_walker.Search.Config.{saturating_add, saturating_mul}

-- `Arc<Vec<Entry>>`: the address of the allocation, and what it holds.
pub record Snapshot : Type 0 where
  pub ptr : ℕ
  pub items : List FilePath

pub record SearchEntriesSnapshotKey : Type 0 where
  pub ptr : ℕ
  pub size : ℕ

abbrev pub from_entries : Snapshot → SearchEntriesSnapshotKey
from_entries entries = record { ptr = entries.ptr; size = length entries.items }

-- `snapshot_owner`, the weak pointer, is the address that it points to.
pub record SearchPrefixCacheEntry : Type 0 where
  pub snapshot : SearchEntriesSnapshotKey
  pub snapshot_owner : ℕ
  pub root_key : Text
  pub ignore_case : Bool
  pub prefer_relative : Bool
  pub query : Text
  pub matched_indices : List ℕ
  pub approx_bytes : ℕ

pub record SearchPrefixCache : Type 0 where
  pub entries : List SearchPrefixCacheEntry
  pub total_bytes : ℕ

abbrev pub max_entries : ℕ
max_entries = 64

abbrev pub max_bytes : ℕ
max_bytes = 8 * 1024 * 1024

abbrev pub max_matched_indices : ℕ
max_matched_indices = 20000

abbrev pub min_query_len : ℕ
min_query_len = 3

abbrev pub is_operator : ℕ → Bool
is_operator c = c == b'|' || c == b'!' || c == b'\'' || c == b'^' || c == b'$'

unfoldable pub is_cacheable_query : Text → Bool
is_cacheable_query query =
    let q = trim query in
    if ltb (len q) min_query_len
    then false
    else if any is_whitespace q
    then false
    else not (any is_operator q)

unfoldable pub is_safe_prefix_extension : Text → Text → Bool
is_safe_prefix_extension prefix query =
    if not (is_cacheable_query prefix) || not (is_cacheable_query query)
    then false
    else starts_with query prefix && ltb (len prefix) (len query)

abbrev pub bool_eq : Bool → Bool → Bool
bool_eq true b = b
bool_eq false b = not b

abbrev pub same_snapshot : SearchEntriesSnapshotKey → SearchEntriesSnapshotKey → Bool
same_snapshot a b = a.ptr == b.ptr && a.size == b.size

-- What a search asks for; the parameters that the two methods of the cache share.
pub record Scope : Type 0 where
  pub entries : Snapshot
  pub root : FilePath
  pub ignore_case : Bool
  pub prefer_relative : Bool

-- The tests that let the loop of `lookup_candidates` use an entry. `alive` tells whether an
-- allocation still has an owner, as `Weak::upgrade` finds out.
unfoldable pub is_eligible : (ℕ → Bool) → Scope → Text → SearchPrefixCacheEntry → Bool
is_eligible alive scope query entry =
    same_snapshot entry.snapshot (from_entries scope.entries)
    && (entry.snapshot_owner == scope.entries.ptr
        && alive entry.snapshot_owner
        && text_eq entry.root_key (path_key (normalize_windows_path scope.root))
        && bool_eq entry.ignore_case scope.ignore_case
        && bool_eq entry.prefer_relative scope.prefer_relative)
    && is_safe_prefix_extension entry.query query

-- The loop: the best index so far, the length of its query, and the number of the round.
unfoldable pub best_from :
    (SearchPrefixCacheEntry → Bool) → ℕ → Option ℕ → ℕ → List SearchPrefixCacheEntry → Option ℕ
best_from eligible idx best_idx best_len [] = best_idx
best_from eligible idx best_idx best_len (entry ∷ entries) =
    let better = eligible entry && ltb best_len (len entry.query) in
    best_from eligible (idx + 1) (if better then some idx else best_idx)
      (if better then len entry.query else best_len) entries

-- `VecDeque::remove`
unfoldable pub remove_at {ℓ} : {A : Type ℓ} → ℕ → List A → Option (A × List A)
remove_at i [] = none
remove_at zero (x ∷ xs) = some (x, xs)
remove_at (suc i) (x ∷ xs) = elim (remove_at i xs) [ none ↦ none | some (y, ys) ↦ some (y, x ∷ ys) ]

unfoldable pub lookup_candidates :
    (ℕ → Bool) → Scope → Text → SearchPrefixCache → Option (List ℕ) × SearchPrefixCache
lookup_candidates alive scope query cache =
    if not (is_cacheable_query query)
    then (none, cache)
    else elim (best_from (is_eligible alive scope query) 0 none 0 cache.entries) [
      | none ↦ (none, cache)
      | some idx ↦ elim (remove_at idx cache.entries) [
        | none ↦ (none, cache)
        | some (entry, rest) ↦
            (some entry.matched_indices, record cache { entries = rest ++ (entry ∷ []) })
      ]
    ]

-- `evict_over_limit`: the oldest entries go while a limit is passed.
unfoldable pub evict_over_limit : List SearchPrefixCacheEntry → ℕ → SearchPrefixCache
evict_over_limit [] total_bytes = record { entries = []; total_bytes = total_bytes }
evict_over_limit (oldest ∷ entries) total_bytes =
    elim (ltb max_entries (length (oldest ∷ entries)) || ltb max_bytes total_bytes) [
      | true ↦ evict_over_limit entries (total_bytes - oldest.approx_bytes)
      | false ↦ record { entries = oldest ∷ entries; total_bytes = total_bytes }
    ]

-- The test by which `maybe_store` finds the entry that it replaces.
unfoldable pub is_same_key : Scope → Text → SearchPrefixCacheEntry → Bool
is_same_key scope query entry =
    same_snapshot entry.snapshot (from_entries scope.entries)
    && entry.snapshot_owner == scope.entries.ptr
    && text_eq entry.root_key (path_key (normalize_windows_path scope.root))
    && bool_eq entry.ignore_case scope.ignore_case
    && bool_eq entry.prefer_relative scope.prefer_relative
    && text_eq entry.query query

-- `position` and `remove` of the replaced entry.
unfoldable pub remove_first {ℓ} : {A : Type ℓ} → (A → Bool) → List A → Option (A × List A)
remove_first test [] = none
remove_first test (x ∷ xs) = elim (test x) [
  | true ↦ some (x, xs)
  | false ↦ elim (remove_first test xs) [ none ↦ none | some (y, ys) ↦ some (y, x ∷ ys) ]
]

unfoldable pub without_key : Scope → Text → SearchPrefixCache → SearchPrefixCache
without_key scope query cache = elim (remove_first (is_same_key scope query) cache.entries) [
  | none ↦ cache
  | some (old, rest) ↦ record { entries = rest; total_bytes = cache.total_bytes - old.approx_bytes }
]

unfoldable pub approx_bytes_of : Text → List ℕ → ℕ
approx_bytes_of query matched_indices =
    saturating_add (len query) (saturating_mul (length matched_indices) 8)

abbrev pub new_entry : Scope → Text → List ℕ → SearchPrefixCacheEntry
new_entry scope query matched_indices = record {
  snapshot = from_entries scope.entries;
  snapshot_owner = scope.entries.ptr;
  root_key = path_key (normalize_windows_path scope.root);
  ignore_case = scope.ignore_case;
  prefer_relative = scope.prefer_relative;
  query = query;
  matched_indices = matched_indices;
  approx_bytes = approx_bytes_of query matched_indices;
}

unfoldable pub maybe_store : Scope → Text → List ℕ → SearchPrefixCache → SearchPrefixCache
maybe_store scope query matched_indices cache =
    if not (is_cacheable_query query)
    then cache
    else if is_empty matched_indices || ltb max_matched_indices (length matched_indices)
    then cache
    else (let q = trim query in
        let approx_bytes = approx_bytes_of q matched_indices in
        if ltb max_bytes approx_bytes
        then cache
        else (let kept = without_key scope q cache in
            evict_over_limit (kept.entries ++ (new_entry scope q matched_indices ∷ []))
              (saturating_add kept.total_bytes approx_bytes)))
