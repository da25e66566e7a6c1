-- ===== src/Search/Cache/Lookup.antt =====
-- `lookup_candidates` takes the longest prefix that it may use, and makes it the newest entry.
use flist_walker.Prelude.{
  ℕ, zero, suc, ◌+◌, ◌≤◌, ◌<◌, ◌≡◌, refl, sym, ap, ◌∙◌, ◌⊎◌, inl, inr, Bool, true, false, ◌&&◌,
  ◌||◌, not, Option, none, some, List, [], ◌∷◌, ◌++◌, arith, get_elem?, all, All, ltb,
  if◌then◌else◌, ltb→lt, Bool-cases, &&-eq-true, some_inj,
}
use flist_walker.Text.{Text, len, trim, starts_with}
use native.Mathlib.Nat.{zero-add}
use flist_walker.Search.Cache.{
  SearchPrefixCacheEntry, SearchPrefixCache, Scope, is_cacheable_query, is_safe_prefix_extension,
  is_eligible, best_from, remove_at, lookup_candidates,
}

abbrev Entry : Type 0
Entry = SearchPrefixCacheEntry

-- No entry that passes the test has a query longer than `n` bytes.
abbrev pub NoLonger : (Entry → Bool) → ℕ → List Entry → Type 0
NoLonger eligible n = All (λ e. eligible e ≡ true → len e.query ≤ n)

NoLonger-le :
    (eligible : Entry → Bool) {m n : ℕ} (es : List Entry)
    → m ≤ n
    → NoLonger eligible m es
    → NoLonger eligible n es
NoLonger-le eligible [] h all = tt
NoLonger-le eligible {m} {n} (e ∷ es) h all =
    (λ t. first (all.0 t), NoLonger-le eligible es h all.1)
  where
    first : len e.query ≤ m → len e.query ≤ n
    first k = omega arith

-- What the loop has found when it ends.
abbrev Found : (Entry → Bool) → ℕ → Option ℕ → ℕ → List Entry → Option ℕ → Type 0
Found eligible idx best_idx best_len es r =
    ((r ≡ best_idx) × NoLonger eligible best_len es)
    ⊎ ((k : ℕ) × (e : Entry) × (r ≡ some (idx + k))
        × (get_elem? es k ≡ some e)
        × (eligible e ≡ true)
        × (best_len < len e.query)
        × NoLonger eligible (len e.query) es)

best_from-Found :
    (eligible : Entry → Bool) (idx : ℕ) (best_idx : Option ℕ) (best_len : ℕ) (es : List Entry)
    → Found eligible idx best_idx best_len es (best_from eligible idx best_idx best_len es)
unfolding best_from
best_from-Found eligible idx best_idx best_len [] = inl (refl, tt)
best_from-Found eligible idx best_idx best_len (e ∷ es) =
    elim (Bool-cases (eligible e && ltb best_len (len e.query))) [
      | inl better ↦
          let (ok_e, longer) = &&-eq-true (eligible e) _ better in
          let lt : best_len < len e.query = ltb→lt _ _ longer in
          rw (better, best_from)
            (elim (best_from-Found eligible (idx + 1) (some idx) (len e.query) es) [
              | inl (same, rest) ↦
                  inr (0, e, same ∙ ap some (omega arith), refl, ok_e, lt, (λ t. omega arith, rest))
              | inr (k, e', found, at_k, ok_e', longer', rest) ↦ inr (
                suc k,
                e',
                found ∙ ap some (omega arith),
                at_k,
                ok_e',
                omega arith,
                (λ t. omega arith, rest),
              )
            ])
      | inr worse ↦
          let first : eligible e ≡ true → len e.query ≤ best_len = λ t. not_longer t worse in
          rw (worse, best_from)
            (elim (best_from-Found eligible (idx + 1) best_idx best_len es) [
              | inl (same, rest) ↦ inl (same, (first, rest))
              | inr (k, e', found, at_k, ok_e', longer', rest) ↦ inr (
                suc k,
                e',
                found ∙ ap some (omega arith),
                at_k,
                ok_e',
                longer',
                (λ t. omega (arith, first t), rest),
              )
            ])
    ]
  where
    not_longer :
        eligible e ≡ true
        → (eligible e && ltb best_len (len e.query)) ≡ false
        → len e.query ≤ best_len
    not_longer t w = ground arith

-- An element at an index, and the list around it.
remove_at_lem {ℓ} :
    {A : Type ℓ} (i : ℕ) (xs : List A) (x : A)
    → get_elem? xs i ≡ some x
    → (before : List A) × (after : List A) × (xs ≡ before ++ (x ∷ after))
      × (remove_at i xs ≡ some (x, before ++ after))
unfolding remove_at
remove_at_lem i [] x h = absurd (cc)
remove_at_lem zero (y ∷ ys) x h = ([], ys, cc, cc)
remove_at_lem (suc i) (y ∷ ys) x h =
    let (before, after, e, r) = remove_at_lem i ys x h in
    (y ∷ before, after, ap (◌∷◌ y) e, ground (arith, r))

pub pos_of_cacheable : (t : Text) → is_cacheable_query t ≡ true → 0 < len t
unfolding is_cacheable_query len trim
pos_of_cacheable [] h = absurd (cc)
pos_of_cacheable (c ∷ t) h = ground arith

pub cacheable_of_extension :
    (prefix query : Text)
    → is_safe_prefix_extension prefix query ≡ true
    → (is_cacheable_query query ≡ true) × (0 < len prefix)
unfolding is_safe_prefix_extension
cacheable_of_extension prefix query h =
    let (p, q) =
      parts (is_cacheable_query prefix) (is_cacheable_query query)
        (starts_with query prefix && ltb (len prefix) (len query)) h in
    (q, pos_of_cacheable prefix p)
  where
    parts : (a b c : Bool) → (if not a || not b then false else c) ≡ true → (a ≡ true) × (b ≡ true)
    parts a b c h = ground arith

pub eligible_parts :
    (alive : ℕ → Bool) (scope : Scope) (query : Text) (e : Entry)
    → is_eligible alive scope query e ≡ true
    → is_safe_prefix_extension e.query query ≡ true
unfolding is_eligible
eligible_parts alive scope query e h = ground arith

lookup_found :
    (alive : ℕ → Bool) (scope : Scope) (query : Text) (cache : SearchPrefixCache) (k : ℕ)
    (e : Entry) (rest : List Entry)
    → is_cacheable_query query ≡ true
    → best_from (is_eligible alive scope query) 0 none 0 cache.entries ≡ some k
    → remove_at k cache.entries ≡ some (e, rest)
    → lookup_candidates alive scope query cache
      ≡ (some e.matched_indices, record cache { entries = rest ++ (e ∷ []) })
unfolding lookup_candidates
lookup_found alive scope query cache k e rest c b r = ground arith

lookup_nothing :
    (alive : ℕ → Bool) (scope : Scope) (query : Text) (cache : SearchPrefixCache)
    → best_from (is_eligible alive scope query) 0 none 0 cache.entries ≡ none
    → lookup_candidates alive scope query cache ≡ (none, cache)
unfolding lookup_candidates
lookup_nothing alive scope query cache b = ground arith

lookup_uncacheable :
    (alive : ℕ → Bool) (scope : Scope) (query : Text) (cache : SearchPrefixCache)
    → is_cacheable_query query ≡ false
    → lookup_candidates alive scope query cache ≡ (none, cache)
unfolding lookup_candidates
lookup_uncacheable alive scope query cache c = ground arith

none_eligible :
    (alive : ℕ → Bool) (scope : Scope) (query : Text) (es : List Entry)
    → NoLonger (is_eligible alive scope query) 0 es
    → All (λ e. is_eligible alive scope query e ≡ false) es
none_eligible alive scope query [] h = tt
none_eligible alive scope query (e ∷ es) h = (first, none_eligible alive scope query es h.1)
  where
    first : is_eligible alive scope query e ≡ false
    first = elim (Bool-cases (is_eligible alive scope query e)) [
      | inl t ↦
          let pos =
            (cacheable_of_extension e.query query (eligible_parts alive scope query e t)).1 in
          absurd (omega (arith, h.0 t))
      | inr f ↦ f
    ]

none_eligible_uncacheable :
    (alive : ℕ → Bool) (scope : Scope) (query : Text) (es : List Entry)
    → is_cacheable_query query ≡ false
    → All (λ e. is_eligible alive scope query e ≡ false) es
none_eligible_uncacheable alive scope query [] c = tt
none_eligible_uncacheable alive scope query (e ∷ es) c =
    (first, none_eligible_uncacheable alive scope query es c)
  where
    first : is_eligible alive scope query e ≡ false
    first = elim (Bool-cases (is_eligible alive scope query e)) [
      | inl t ↦
          let yes_c =
            (cacheable_of_extension e.query query (eligible_parts alive scope query e t)).0 in
          cc
      | inr f ↦ f
    ]

-- The entry that a lookup has taken.
pub record IsHit (alive : ℕ → Bool) (scope : Scope) (query : Text)
    (cache cache' : SearchPrefixCache) (indices : List ℕ) (e : Entry) : Type 0 where
  pub eligible : is_eligible alive scope query e ≡ true
  pub longest : NoLonger (is_eligible alive scope query) (len e.query) cache.entries
  pub indices_of : indices ≡ e.matched_indices
  pub bytes : cache'.total_bytes ≡ cache.total_bytes

-- A lookup that returns indices has taken them from an eligible entry, no eligible entry has a
-- longer query, and the cache differs only in that this entry has become the newest.
pub lookup_candidates-IsHit :
    (alive : ℕ → Bool) (scope : Scope) (query : Text) (cache cache' : SearchPrefixCache)
    (indices : List ℕ)
    → lookup_candidates alive scope query cache ≡ (some indices, cache')
    → (e : Entry) × (before : List Entry) × (after : List Entry) × (cache.entries
        ≡ before ++ (e ∷ after))
      × (cache'.entries ≡ (before ++ after) ++ (e ∷ []))
      × IsHit alive scope query cache cache' indices e
lookup_candidates-IsHit alive scope query cache cache' indices h =
    elim (Bool-cases (is_cacheable_query query)) [
      | inr c ↦ absurd (not_none (sym h ∙ lookup_uncacheable alive scope query cache c))
      | inl c ↦ elim (best_from-Found (is_eligible alive scope query) 0 none 0 cache.entries) [
        | inl (b, _) ↦ absurd (not_none (sym h ∙ lookup_nothing alive scope query cache b))
        | inr (k, e, b, at_k, ok_e, _, longest) ↦
            let (before, after, split, removed) = remove_at_lem k cache.entries e at_k in
            let b' = b ∙ ap some (zero-add k) in
            let same = sym h ∙ lookup_found alive scope query cache k e _ c b' removed in
            (
              e,
              before,
              after,
              split,
              ap (λ r. r.1.entries) same,
              record {
                eligible = ok_e;
                longest = longest;
                indices_of = some_inj (ap (λ r. r.0) same);
                bytes = ap (λ r. r.1.total_bytes) same;
              },
            )
      ]
    ]
  where
    not_none :
        {c d : SearchPrefixCache} {i : List ℕ}
        → ◌≡◌ {A = Option (List ℕ) × SearchPrefixCache} (some i, c) (none, d)
        → ⊥
    not_none e = cc (ap (λ r. r.0) e)

-- A lookup that returns nothing leaves the cache as it is, and no entry of it was eligible.
pub lookup_candidates-miss :
    (alive : ℕ → Bool) (scope : Scope) (query : Text) (cache cache' : SearchPrefixCache)
    → lookup_candidates alive scope query cache ≡ (none, cache')
    → (cache' ≡ cache) × All (λ e. is_eligible alive scope query e ≡ false) cache.entries
lookup_candidates-miss alive scope query cache cache' h =
    elim (Bool-cases (is_cacheable_query query)) [
      | inr c ↦ (
        ap (λ r. r.1) (sym h ∙ lookup_uncacheable alive scope query cache c),
        none_eligible_uncacheable alive scope query cache.entries c,
      )
      | inl c ↦ elim (best_from-Found (is_eligible alive scope query) 0 none 0 cache.entries) [
        | inl (b, all) ↦ (
          ap (λ r. r.1) (sym h ∙ lookup_nothing alive scope query cache b),
          none_eligible alive scope query cache.entries all,
        )
        | inr (k, e, b, at_k, ok_e, _, longest) ↦
            let (before, after, split, removed) = remove_at_lem k cache.entries e at_k in
            let b' = b ∙ ap some (zero-add k) in
            let same = sym h ∙ lookup_found alive scope query cache k e _ c b' removed in
            absurd (cc (ap (λ r. r.0) same))
      ]
    ]
