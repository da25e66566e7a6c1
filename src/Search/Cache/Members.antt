-- ===== src/Search/Cache/Members.antt =====
-- Which entries the cache's operations keep: none comes in but the one that is stored.
use flist_walker.Prelude.{
  ℕ, ◌-◌, ◌≤◌, ◌≡◌, sym, ap, subst, ◌⊎◌, inl, inr, Bool, true, false, ◌||◌, not, Option, none, some,
  List, [], ◌∷◌, ◌++◌, arith, length, is_empty, Member, here, there, ltb, Bool-cases, Option-cases,
  if_both,
}
use flist_walker.Text.{Text, trim}
use flist_walker.Search.Cache.{
  Scope, SearchPrefixCache, SearchPrefixCacheEntry, evict_over_limit, remove_first, is_same_key,
  without_key, maybe_store, new_entry, max_entries, max_bytes, max_matched_indices,
  is_cacheable_query, lookup_candidates, approx_bytes_of,
}
use flist_walker.Search.Cache.Lookup.{lookup_candidates-IsHit, lookup_candidates-miss}
use flist_walker.Search.Collect.Members.{Member-cons, Member-nil}

abbrev Entry : Type 0
Entry = SearchPrefixCacheEntry

pub Member-append {ℓ} :
    {A : Type ℓ} {x : A} (xs ys : List A) → Member x (xs ++ ys) → Member x xs ⊎ Member x ys
Member-append [] ys m = inr m
Member-append {x = x} (y ∷ xs) ys m = elim (Member-cons m) [
  | inl e ↦ inl (subst (λ z. Member x (z ∷ xs)) e (here xs))
  | inr k ↦ elim (Member-append xs ys k) [ inl l ↦ inl (there y l) | inr r ↦ inr r ]
]

pub Member-append_left {ℓ} :
    {A : Type ℓ} {x : A} {xs : List A} (ys : List A) → Member x xs → Member x (xs ++ ys)
Member-append_left ys (here xs) = here (xs ++ ys)
Member-append_left ys (there y m) = there y (Member-append_left ys m)

pub Member-append_right {ℓ} :
    {A : Type ℓ} {x : A} (xs : List A) {ys : List A} → Member x ys → Member x (xs ++ ys)
Member-append_right [] m = m
Member-append_right (y ∷ xs) m = there y (Member-append_right xs m)

evict-Member :
    (es : List Entry) (total : ℕ) {e : Entry}
    → Member e (evict_over_limit es total).entries
    → Member e es
unfolding evict_over_limit
evict-Member [] total m = m
evict-Member (o ∷ es) total m =
    elim (Bool-cases (ltb max_entries (length (o ∷ es)) || ltb max_bytes total)) [
      | inl over ↦
          there o (evict-Member es (total - o.approx_bytes) (rw (over, evict_over_limit) at m))
      | inr fits ↦ rw (fits, evict_over_limit) at m
    ]

-- An element of the list that is left.
abbrev Left {ℓ} : {A : Type ℓ} → A → Option (A × List A) → Type ℓ
Left x none = Member x []
Left x (some (_, rest)) = Member x rest

remove_first-Left {ℓ} :
    {A : Type ℓ} (test : A → Bool) {x : A} (xs : List A)
    → Left x (remove_first test xs)
    → Member x xs
unfolding remove_first
remove_first-Left test [] m = m
remove_first-Left test {x} (z ∷ xs) m =
    by_test (test z) (remove_first test xs) (remove_first-Left test xs) m
  where
    by_test :
        (b : Bool) (r : Option (_ × List _))
        → (Left x r → Member x xs)
        → Left x (elim b [
          | true ↦ some (z, xs)
          | false ↦ elim r [ none ↦ none | some (y, ys) ↦ some (y, z ∷ ys) ]
        ])
        → Member x (z ∷ xs)
    by_test true r ih m = there z m
    by_test false none ih m = absurd (Member-nil m)
    by_test false (some (y, ys)) ih m = elim (Member-cons m) [
      | inl e ↦ subst (λ w. Member x (w ∷ xs)) e (here xs)
      | inr k ↦ there z (ih k)
    ]

without_key-Member :
    (scope : Scope) (query : Text) (cache : SearchPrefixCache) {e : Entry}
    → Member e (without_key scope query cache).entries
    → Member e cache.entries
unfolding without_key
without_key-Member scope query cache {e} m =
    elim (Option-cases (remove_first (is_same_key scope query) cache.entries)) [
      | inl n ↦ rw (n, without_key) at m
      | inr ((old, rest), k) ↦
          remove_first-Left (is_same_key scope query) cache.entries
            (subst (Left e) (sym k) (rw (k, without_key) at m))
    ]

-- What a store adds.
pub maybe_store-Member :
    (scope : Scope) (query : Text) (indices : List ℕ) (cache : SearchPrefixCache) {e : Entry}
    → Member e (maybe_store scope query indices cache).entries
    → Member e cache.entries
      ⊎ ((e ≡ new_entry scope (trim query) indices)
          × (length indices ≤ max_matched_indices)
          × (is_cacheable_query query ≡ true))
unfolding maybe_store
maybe_store-Member scope query indices cache {e} =
    if_both Added (not (is_cacheable_query query)) (λ _ m. inl m)
      λ cacheable.
        if_both Added (is_empty indices || ltb max_matched_indices (length indices)) (λ _ m. inl m)
          λ few.
            if_both Added (ltb max_bytes (approx_bytes_of (trim query) indices)) (λ _ m. inl m)
              λ _. stored _ (ground (arith, few)) (ground (arith, cacheable))
  where
    new : Entry
    new = new_entry scope (trim query) indices

    kept : SearchPrefixCache
    kept = without_key scope (trim query) cache

    Added : SearchPrefixCache → Type 0
    Added c =
        Member e c.entries
        → Member e cache.entries
          ⊎ ((e ≡ new_entry scope (trim query) indices)
              × (length indices ≤ max_matched_indices)
              × (is_cacheable_query query ≡ true))

    stored :
        (total : ℕ)
        → length indices ≤ max_matched_indices
        → is_cacheable_query query ≡ true
        → Added (evict_over_limit (kept.entries ++ (new ∷ [])) total)
    stored total few cacheable m =
        elim (Member-append kept.entries (new ∷ []) (evict-Member _ total m)) [
          | inl k ↦ inl (without_key-Member scope (trim query) cache k)
          | inr k ↦ elim (Member-cons k) [
            | inl same ↦ inr (same, few, cacheable)
            | inr nothing ↦ absurd (Member-nil nothing)
          ]
        ]

-- A lookup neither adds nor drops an entry.
pub lookup_candidates-Member :
    (alive : ℕ → Bool) (scope : Scope) (query : Text) (cache : SearchPrefixCache) {e : Entry}
    → Member e (lookup_candidates alive scope query cache).1.entries
    → Member e cache.entries
lookup_candidates-Member alive scope query cache {e} m =
    let found = lookup_candidates alive scope query cache in
    elim (Option-cases found.0) [
      | inl n ↦
          rw
            (ap (λ c. c.entries)
              (lookup_candidates-miss alive scope query cache found.1 (λ i. (n i, found.1))).0)
            at m
      | inr (indices, n) ↦
          let (entry, before, after, split, moved, hit) =
            lookup_candidates-IsHit alive scope query cache found.1 indices (λ i. (n i, found.1)) in
          elim (Member-append (before ++ after) (entry ∷ []) (subst (Member e) moved m)) [
            | inl k ↦ subst (Member e) (sym split) (elim (Member-append before after k) [
              | inl b ↦ Member-append_left (entry ∷ after) b
              | inr a ↦ Member-append_right before (there entry a)
            ])
            | inr k ↦ elim (Member-cons k) [
              | inl same ↦ subst (Member e) (sym split) (
                  subst (λ x. Member e (before ++ (x ∷ after))) same
                    (Member-append_right before (here after)))
              | inr nothing ↦ absurd (Member-nil nothing)
            ]
          ]
    ]
