-- ===== src/Search/Cache/Prefix.antt =====
-- Why the matches of a prefix are candidates enough: what a cacheable query compiles to, and that a
-- longer query matches no more.
use flist_walker.Prelude.{
  ◌≡◌, refl, sym, ap, ◌∙◌, subst, ◌↔◌, ◌⊎◌, inl, inr, Bool, true, false, ◌&&◌, ◌||◌, not, List, [],
  ◌∷◌, ◌++◌, arith, any, filter_map, flat_map, Result, ok, ltb, if◌then◌else◌, ||-eq-true,
}
use flist_walker.Text.{Text, len, trim, starts_with, lower_char, to_ascii_lowercase}
use flist_walker.Text.Affix.{split_of_starts_with}
use flist_walker.Text.Subsequence.{Subsequence, Subsequence-append_right}
use flist_walker.Query.Parse.{include_alternatives, parse_query}
use flist_walker.Query.Regex.{RegexEngine}
use flist_walker.Query.Pattern.{normalize_text}
use flist_walker.Query.Match.{is_subsequence, matches_include_literal}
use flist_walker.Query.Match.Literal.{is_subsequence_iff, matches_include_literal_unanchored}
use flist_walker.Query.Candidate.{PreparedCandidate}
use flist_walker.Query.Compiled.{
  CompiledQuery, IncludeAlternative, compile_alternatives, alternatives, compile, compile_spec,
  literal_bonus_set, exact_bonus_pattern, build_score_query, matches_compiled_query,
  matches_include_alternative,
}
use flist_walker.Search.Cache.{is_cacheable_query, is_safe_prefix_extension}
use mathlib.Core.List.{map-append}
use flist_walker.Search.Cache.Plain.{
  IsPlain, IsPlain-of_cacheable, parse_query-plain, plain_pattern, plain_alternative,
  compile_alternatives-plain, one_term,
}

ok-injective {ℓ} : {A : Type ℓ} {x y : A} → ◌≡◌ {A = Result A Text} (ok x) (ok y) → x ≡ y
ok-injective e = cc

pub extension_parts :
    (prefix query : Text)
    → is_safe_prefix_extension prefix query ≡ true
    → (is_cacheable_query prefix ≡ true)
      × (is_cacheable_query query ≡ true)
      × (starts_with query prefix ≡ true)
extension_parts prefix query h =
    parts (is_cacheable_query prefix) (is_cacheable_query query) (starts_with query prefix)
      (ltb (len prefix) (len query)) (unfold is_safe_prefix_extension in h)
  where
    parts :
        (a b c d : Bool)
        → (if not a || not b then false else c && d) ≡ true
        → (a ≡ true) × (b ≡ true) × (c ≡ true)
    parts a b c d h = ground arith

normalize-append :
    (xs ys : Text) (ic : Bool)
    → normalize_text (xs ++ ys) ic ≡ normalize_text xs ic ++ normalize_text ys ic
unfolding normalize_text to_ascii_lowercase
normalize-append xs ys true = map-append lower_char xs ys
normalize-append xs ys false = refl

shorter :
    (prefix query rest : Text) (ic : Bool) {name full : Text}
    → query ≡ prefix ++ rest
    → Subsequence (normalize_text query ic) name ⊎ Subsequence (normalize_text query ic) full
    → Subsequence (normalize_text prefix ic) name ⊎ Subsequence (normalize_text prefix ic) full
shorter prefix query rest ic {name} {full} e d =
    let split = ap (λ q. normalize_text q ic) e ∙ normalize-append prefix rest ic in
    elim d [
      | inl s ↦ inl (Subsequence-append_right _ _ name (subst (λ n. Subsequence n name) split s))
      | inr s ↦ inr (Subsequence-append_right _ _ full (subst (λ n. Subsequence n full) split s))
    ]

module _ (engine : RegexEngine) where
  abbrev plain_query : Text → Bool → CompiledQuery engine
  plain_query q ic = record {
    exact_terms = [];
    exclude_terms = [];
    include_terms = alternatives (compile_alternatives q ic) ∷ [];
    include_literal_bonus_terms = filter_map (literal_bonus_set ic) (q ∷ []);
    include_exact_bonus_terms =
        filter_map (exact_bonus_pattern ic) (flat_map include_alternatives (q ∷ []));
    score_query = build_score_query (q ∷ []) [] ic;
    ignore_case = ic;
  }

  compile_spec-one_term :
      (q : Text) (ic : Bool)
      → compile_spec engine (one_term q) (record { use_regex = false; ignore_case = ic })
        ≡ ok (plain_query q ic)
  unfolding compile_spec
  compile_spec-one_term q ic = refl

  compile-plain :
      (q : Text) (ic : Bool)
      → IsPlain q
      → compile engine q (record { use_regex = false; ignore_case = ic }) ≡ ok (plain_query q ic)
  compile-plain q ic h =
      compile_lem
      ∙ ap (λ s. compile_spec engine s (record { use_regex = false; ignore_case = ic }))
          (parse_query-plain q h)
      ∙ compile_spec-one_term q ic
    where
      compile_lem :
          compile engine q (record { use_regex = false; ignore_case = ic })
          ≡ compile_spec engine (parse_query q) (record { use_regex = false; ignore_case = ic })
      compile_lem = unfold compile in refl

  matches-alternatives :
      (q : Text) (ic : Bool) (alts : List IncludeAlternative) (c : PreparedCandidate)
      → matches_compiled_query engine
          (record (plain_query q ic) { include_terms = alternatives alts ∷ [] })
          c
        ≡ any (λ a. matches_include_alternative a c.name c.full) alts
  unfolding matches_compiled_query
  matches-alternatives q ic alts c =
      and_true (any (λ a. matches_include_alternative a c.name c.full) alts)
    where
      and_true : (b : Bool) → (b && true) ≡ b
      and_true true = refl
      and_true false = refl

  matches-plain_alternative :
      (n name full : Text)
      → any (λ a. matches_include_alternative a name full) (plain_alternative n ∷ [])
        ≡ (is_subsequence n name || is_subsequence n full)
  matches-plain_alternative n name full =
      or_false _
      ∙ alternative_lem
      ∙ matches_include_literal_unanchored (plain_pattern n) name full refl refl refl
    where
      or_false : (b : Bool) → (b || false) ≡ b
      or_false true = refl
      or_false false = refl

      alternative_lem :
          matches_include_alternative (plain_alternative n) name full
          ≡ matches_include_literal (plain_pattern n) name full
      alternative_lem = unfold matches_include_alternative in refl

  matches-plain :
      (q : Text) (ic : Bool) (c : PreparedCandidate)
      → IsPlain q
      → matches_compiled_query engine (plain_query q ic) c ≡ (
          is_subsequence (normalize_text q ic) c.name
          || is_subsequence (normalize_text q ic) c.full)
  matches-plain q ic c h =
      matches-alternatives q ic (compile_alternatives q ic) c
      ∙ ap (any (λ a. matches_include_alternative a c.name c.full))
          (compile_alternatives-plain q ic h)
      ∙ matches-plain_alternative (normalize_text q ic) c.name c.full

  matches_iff :
      (q : Text) (ic : Bool) (c : PreparedCandidate)
      → IsPlain q
      → (matches_compiled_query engine (plain_query q ic) c ≡ true)
        ↔ (Subsequence (normalize_text q ic) c.name ⊎ Subsequence (normalize_text q ic) c.full)
  matches_iff q ic c h =
      let n = normalize_text q ic in
      let e = matches-plain q ic c h in
      (
        λ m. elim (||-eq-true (is_subsequence n c.name) (is_subsequence n c.full) (sym e ∙ m)) [
          | inl s ↦ inl ((is_subsequence_iff n c.name).0 s)
          | inr s ↦ inr ((is_subsequence_iff n c.full).0 s)
        ],
        λ d. e ∙ elim d [
          | inl s ↦ ap (λ b. b || is_subsequence n c.full) ((is_subsequence_iff n c.name).1 s)
          | inr s ↦ or_true _ _ ((is_subsequence_iff n c.full).1 s)
        ],
      )
    where
      or_true : (a b : Bool) → b ≡ true → (a || b) ≡ true
      or_true true b h = refl
      or_true false b h = h

  -- A trimmed cacheable query compiles as literal text, and matches exactly the candidates of whose
  -- name or full text it is a subsequence, up to the case where that is ignored.
  pub cacheable_query_matches :
      (q : Text) (ic : Bool)
      → trim q ≡ q
      → is_cacheable_query q ≡ true
      → (compiled : CompiledQuery engine) × (compile engine q
            (record { use_regex = false; ignore_case = ic })
          ≡ ok compiled)
        × ((c : PreparedCandidate)
            → (matches_compiled_query engine compiled c ≡ true) ↔ (
                Subsequence (normalize_text q ic) c.name
                ⊎ Subsequence (normalize_text q ic) c.full))
  cacheable_query_matches q ic t h =
      let plain = IsPlain-of_cacheable q t h in
      (plain_query q ic, compile-plain q ic plain, λ c. matches_iff q ic c plain)

  -- For trimmed queries, where one is a safe prefix extension of the other, every candidate that
  -- matches the longer query as literal text matches the prefix.
  pub safe_prefix_extension_sound :
      (prefix query : Text) (ic : Bool)
      → trim prefix ≡ prefix
      → trim query ≡ query
      → is_safe_prefix_extension prefix query ≡ true
      → (p q : CompiledQuery engine)
      → compile engine prefix (record { use_regex = false; ignore_case = ic }) ≡ ok p
      → compile engine query (record { use_regex = false; ignore_case = ic }) ≡ ok q
      → (c : PreparedCandidate) → matches_compiled_query engine q c ≡ true
      → matches_compiled_query engine p c ≡ true
  safe_prefix_extension_sound prefix query ic tp tq safe p q ep eq c m =
      let (cp, cq, front) = extension_parts prefix query safe in
      let plain_p = IsPlain-of_cacheable prefix tp cp in
      let plain_q = IsPlain-of_cacheable query tq cq in
      let same_p : p ≡ plain_query prefix ic =
        ok-injective (sym ep ∙ compile-plain prefix ic plain_p) in
      let same_q : q ≡ plain_query query ic =
        ok-injective (sym eq ∙ compile-plain query ic plain_q) in
      let (rest, e) = split_of_starts_with query prefix front in
      rw same_p (
        (matches_iff prefix ic c plain_p).1
          (shorter prefix query rest ic e ((matches_iff query ic c plain_q).0 (rw same_q at m))))
