-- ===== src/Search/Cache/Stored.antt =====
-- What has been stored is found: the newest entry outlives the eviction that its store brings about.
use flist_walker.Prelude.{
  ℕ, ◌-◌, ◌≤◌, ◌≡◌, refl, inl, inr, Bool, true, false, ◌||◌, some, List, [], ◌∷◌, ◌++◌, arith,
  length, is_empty, All, Member, here, there, ltb, ◌==◌, Bool-cases, Option-cases,
}
use flist_walker.Text.{Text, trim}
use flist_walker.Text.Affix.{text_eq_refl}
use flist_walker.Paths.{path_key}
use flist_walker.Search.Cache.{
  Scope, SearchPrefixCache, SearchPrefixCacheEntry, evict_over_limit, without_key, maybe_store,
  new_entry, bool_eq, is_eligible, max_entries, max_bytes, max_matched_indices, is_cacheable_query,
  is_safe_prefix_extension, lookup_candidates, approx_bytes_of,
}
use flist_walker.Search.Cache.Invariant.{IsValid, sum_bytes, without_key-IsValid, store_total}
use flist_walker.Search.Cache.Lookup.{lookup_candidates-miss}
use flist_walker.Search.Cache.Members.{Member-append_right}

abbrev Entry : Type 0
Entry = SearchPrefixCacheEntry

evict_newest :
    (es : List Entry) (new : Entry) (total : ℕ)
    → total ≡ sum_bytes (es ++ (new ∷ []))
    → new.approx_bytes ≤ max_bytes
    → Member new (evict_over_limit (es ++ (new ∷ [])) total).entries
unfolding evict_over_limit sum_bytes
evict_newest [] new total counted small =
    let fits : (ltb max_entries 1 || ltb max_bytes total) ≡ false = ground arith in
    rw (fits, evict_over_limit) (here [])
evict_newest (oldest ∷ es) new total counted small =
    elim (Bool-cases
      (ltb max_entries (length (oldest ∷ (es ++ (new ∷ [])))) || ltb max_bytes total)) [
        | inl over ↦
            rw (over, evict_over_limit)
              (evict_newest es new (total - oldest.approx_bytes) (omega (arith, counted)) small)
        | inr fits ↦ rw (fits, evict_over_limit) (Member-append_right (oldest ∷ es) (here []))
      ]

bool_eq_refl : (b : Bool) → bool_eq b b ≡ true
bool_eq_refl true = refl
bool_eq_refl false = refl

==_refl : (n : ℕ) → (n == n) ≡ true
==_refl n = ground arith

new_entry_eligible :
    (alive : ℕ → Bool) (scope : Scope) (prefix query : Text) (indices : List ℕ)
    → alive scope.entries.ptr ≡ true
    → is_safe_prefix_extension prefix query ≡ true
    → is_eligible alive scope query (new_entry scope prefix indices) ≡ true
unfolding is_eligible
new_entry_eligible alive scope prefix query indices lives safe =
    rw
      (
        lives,
        safe,
        ==_refl scope.entries.ptr,
        ==_refl (length scope.entries.items),
        text_eq_refl (path_key scope.root),
        bool_eq_refl scope.ignore_case,
        bool_eq_refl scope.prefer_relative,
      )
      refl

Member-All : (P : Entry → Type 0) {e : Entry} {es : List Entry} → Member e es → All P es → P e
Member-All P (here _) h = h.0
Member-All P (there _ m) h = Member-All P m h.1

stored_Member :
    (scope : Scope) (prefix : Text) (indices : List ℕ) (cache : SearchPrefixCache)
    → IsValid cache
    → is_cacheable_query prefix ≡ true
    → is_empty indices ≡ false
    → length indices ≤ max_matched_indices
    → approx_bytes_of (trim prefix) indices ≤ max_bytes
    → Member
        (new_entry scope (trim prefix) indices)
        (maybe_store scope prefix indices cache).entries
unfolding maybe_store
stored_Member scope prefix indices cache v cacheable some_index few small =
    let new = new_entry scope (trim prefix) indices in
    let kept = without_key scope (trim prefix) cache in
    let bound : ltb max_matched_indices (length indices) ≡ false = ground arith in
    let fits : ltb max_bytes (approx_bytes_of (trim prefix) indices) ≡ false = ground arith in
    rw (cacheable, some_index, bound, fits)
      (evict_newest kept.entries new _
        (store_total kept new (without_key-IsValid scope (trim prefix) cache v) fits) small)

-- Once the matches of a cacheable prefix are stored in a valid cache, at least one and at most
-- 20000 of them, with a query that leaves the entry within the byte limit, a search over the same
-- living snapshot with the same settings finds candidates for every safe extension of the prefix.
pub stored_prefix_found :
    (alive : ℕ → Bool) (scope : Scope) (prefix query : Text) (indices : List ℕ)
    (cache : SearchPrefixCache)
    → IsValid cache
    → alive scope.entries.ptr ≡ true
    → is_cacheable_query prefix ≡ true
    → is_safe_prefix_extension (trim prefix) query ≡ true
    → is_empty indices ≡ false
    → length indices ≤ max_matched_indices
    → approx_bytes_of (trim prefix) indices ≤ max_bytes
    → (found : List ℕ) × ((lookup_candidates alive scope query
          (maybe_store scope prefix indices cache)).0
        ≡ some found)
stored_prefix_found alive scope prefix query indices cache v lives cacheable safe some_index few
      small =
    let stored = maybe_store scope prefix indices cache in
    let r = lookup_candidates alive scope query stored in
    elim (Option-cases r.0) [
      | inr (found, e) ↦ (found, e)
      | inl missed ↦
          let (_, none_eligible) =
            lookup_candidates-miss alive scope query stored r.1 (λ i. (missed i, r.1)) in
          let not_eligible =
            Member-All (λ e. is_eligible alive scope query e ≡ false)
              (stored_Member scope prefix indices cache v cacheable some_index few small)
              none_eligible in
          absurd (
            cc
              (not_eligible, new_entry_eligible alive scope (trim prefix) query indices lives safe))
    ]
