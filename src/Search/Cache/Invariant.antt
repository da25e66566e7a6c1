-- ===== src/Search/Cache/Invariant.antt =====
-- The invariant of the prefix cache: its byte count is the sum over its entries, and both of its
-- limits hold.
use flist_walker.Prelude.{
  ℕ, suc, ◌+◌, ◌-◌, ◌≤◌, ◌≡◌, ap, ◌∙◌, inl, inr, Bool, false, ◌||◌, not, some, List, [], ◌∷◌, ◌++◌,
  arith, length, is_empty, length-append, ltb, Bool-cases, Option-cases, if_both,
}
use flist_walker.Text.{Text, trim}
use flist_walker.Search.Config.{saturating_add}
use flist_walker.Search.Cache.{
  SearchPrefixCacheEntry, SearchPrefixCache, Scope, max_entries, max_bytes, max_matched_indices,
  is_cacheable_query, approx_bytes_of, new_entry, remove_first, is_same_key, without_key,
  evict_over_limit, maybe_store, lookup_candidates,
}
use flist_walker.Search.Cache.Lookup.{lookup_candidates-IsHit, lookup_candidates-miss}

abbrev Entry : Type 0
Entry = SearchPrefixCacheEntry

unfoldable pub sum_bytes : List Entry → ℕ
sum_bytes [] = 0
sum_bytes (e ∷ es) = e.approx_bytes + sum_bytes es

sum_bytes-append : (xs ys : List Entry) → sum_bytes (xs ++ ys) ≡ sum_bytes xs + sum_bytes ys
unfolding sum_bytes
sum_bytes-append [] ys = omega arith
sum_bytes-append (x ∷ xs) ys = omega (arith, sum_bytes-append xs ys)

pub record IsValid (cache : SearchPrefixCache) : Type 0 where
  pub counted : cache.total_bytes ≡ sum_bytes cache.entries
  pub few : length cache.entries ≤ max_entries
  pub small : cache.total_bytes ≤ max_bytes

evict-IsValid :
    (es : List Entry) (total : ℕ) → total ≡ sum_bytes es → IsValid (evict_over_limit es total)
unfolding evict_over_limit sum_bytes
evict-IsValid [] total h = record { counted = h; few = omega arith; small = omega arith }
evict-IsValid (e ∷ es) total h =
    elim (Bool-cases (ltb max_entries (length (e ∷ es)) || ltb max_bytes total)) [
      | inl over ↦
          rw (over, evict_over_limit) (evict-IsValid es (total - e.approx_bytes) (omega arith))
      | inr fits ↦
          rw (fits, evict_over_limit)
            (record { counted = h; few = ground arith; small = ground arith })
    ]

-- What `remove_first` takes out, and what it leaves.
remove_first_lem :
    (test : Entry → Bool) (es : List Entry) (e : Entry) (rest : List Entry)
    → remove_first test es ≡ some (e, rest)
    → (sum_bytes es ≡ e.approx_bytes + sum_bytes rest) × (length es ≡ suc (length rest))
unfolding remove_first sum_bytes
remove_first_lem test [] e rest h = absurd (cc)
remove_first_lem test (x ∷ es) e rest h = elim (Bool-cases (test x)) [
  | inl here_it ↦ ground arith
  | inr further ↦ elim (Option-cases (remove_first test es)) [
    | inl missing ↦ absurd (ground arith)
    | inr ((y, ys), found) ↦ ground (arith, remove_first_lem test es y ys found)
  ]
]

pub without_key-IsValid :
    (scope : Scope) (q : Text) (cache : SearchPrefixCache)
    → IsValid cache
    → IsValid (without_key scope q cache)
unfolding without_key
without_key-IsValid scope q cache v =
    elim (Option-cases (remove_first (is_same_key scope q) cache.entries)) [
      | inl missing ↦ rw (missing, without_key) v
      | inr ((old, rest), found) ↦
          let (bytes, size) = remove_first_lem (is_same_key scope q) cache.entries old rest found in
          rw (found, without_key)
            (record {
              counted = omega (arith, v.counted);
              few = omega (arith, v.few);
              small = omega (arith, v.small);
            })
    ]

-- The count with the new entry, which no limit of `usize` has cut.
pub store_total :
    (kept : SearchPrefixCache) (e : Entry)
    → IsValid kept
    → ltb max_bytes e.approx_bytes ≡ false
    → saturating_add kept.total_bytes e.approx_bytes ≡ sum_bytes (kept.entries ++ (e ∷ []))
unfolding saturating_add sum_bytes
store_total kept e k fits =
    let small : e.approx_bytes ≤ max_bytes = ground arith in
    omega (arith, sum_bytes-append kept.entries (e ∷ []), k.counted, k.small)

-- A store keeps the cache valid: the byte count is the sum over the entries, and neither the
-- entries nor the bytes pass their limits.
pub maybe_store-IsValid :
    (scope : Scope) (query : Text) (indices : List ℕ) (cache : SearchPrefixCache)
    → IsValid cache
    → IsValid (maybe_store scope query indices cache)
unfolding maybe_store
maybe_store-IsValid scope query indices cache v =
    if_both IsValid (not (is_cacheable_query query)) (λ _. v)
      λ _.
        if_both IsValid (is_empty indices || ltb max_matched_indices (length indices)) (λ _. v)
          λ _.
            if_both IsValid (ltb max_bytes (approx_bytes_of (trim query) indices)) (λ _. v)
              λ fits.
                let k = without_key-IsValid scope (trim query) cache v in
                evict-IsValid _ _ (
                  store_total (without_key scope (trim query) cache)
                    (new_entry scope (trim query) indices) k fits)

moved_IsValid :
    (cache cache' : SearchPrefixCache) (e : Entry) (before after : List Entry)
    → cache.entries ≡ before ++ (e ∷ after)
    → cache'.entries ≡ (before ++ after) ++ (e ∷ [])
    → cache'.total_bytes ≡ cache.total_bytes
    → IsValid cache
    → IsValid cache'
unfolding sum_bytes
moved_IsValid cache cache' e before after split moved bytes v =
    let sum = ap sum_bytes split ∙ sum_bytes-append before (e ∷ after) in
    let sum' = ap sum_bytes moved ∙ sum_bytes-append (before ++ after) (e ∷ []) in
    let size = ap length split ∙ length-append before (e ∷ after) in
    let size' = ap length moved ∙ length-append (before ++ after) (e ∷ []) in
    record {
      counted = omega (arith, sum_bytes-append before after, v.counted);
      few = omega (arith, length-append before after, v.few);
      small = omega (arith, v.small);
    }

-- A lookup keeps the cache valid: its byte count is the sum over the entries, and neither the
-- entries nor the bytes pass their limits.
pub lookup_candidates-IsValid :
    (alive : ℕ → Bool) (scope : Scope) (query : Text) (cache : SearchPrefixCache)
    → IsValid cache
    → IsValid (lookup_candidates alive scope query cache).1
lookup_candidates-IsValid alive scope query cache v =
    let found = lookup_candidates alive scope query cache in
    elim (Option-cases found.0) [
      | inl e ↦
          rw (lookup_candidates-miss alive scope query cache found.1 (λ i. (e i, found.1))).0 v
      | inr (indices, e) ↦
          let (entry, before, after, split, moved, hit) =
            lookup_candidates-IsHit alive scope query cache found.1 indices (λ i. (e i, found.1)) in
          moved_IsValid cache found.1 entry before after split moved hit.bytes v
    ]
