-- ===== src/Query/Compiled/Total.antt =====
-- When a query compiles, and what the compiled query keeps of the options.
use flist_walker.Prelude.{
  ◌≡◌, refl, sym, ap, ◌∙◌, Bool, false, List, [], ◌∷◌, map, All, filter_map, flat_map, Result,
  ◌>>=◌, try_map, ok, err, if◌then◌else◌,
}
use flist_walker.Text.{Text}
use flist_walker.Query.Parse.{QuerySpec, parse_query, include_alternatives}
use flist_walker.Query.Regex.{RegexEngine}
use flist_walker.Query.Compiled.{
  QueryOptions, CompiledQuery, IncludeMatcher, alternatives, compile_alternatives,
  compile_include_matcher, compile_spec, compile, literal_bonus_set, exact_bonus_pattern,
  build_score_query,
}
use flist_walker.Query.Pattern.{compile_exact_term_matchers, compile_alternative_set}

try_map-ok {ℓ κ μ} :
    {A : Type ℓ} {B : Type κ} {E : Type μ} (f : A → Result B E) (xs : List A)
    → All (λ x. (b : B) × (f x ≡ ok b)) xs
    → (bs : List B) × (try_map f xs ≡ ok bs)
try_map-ok f [] h = ([], refl)
try_map-ok f (x ∷ xs) h =
    let (b, e) = h.0 in let (bs, es) = try_map-ok f xs h.1 in (b ∷ bs, rw (e, es) refl)

All-of {ℓ κ} : {A : Type ℓ} {P : A → Type κ} → ((x : A) → P x) → (xs : List A) → All P xs
All-of f [] = tt
All-of f (x ∷ xs) = (f x, All-of f xs)

pub ok-injective {ℓ κ} :
    {A : Type ℓ} {E : Type κ} {x y : A} → ◌≡◌ {A = Result A E} (ok x) (ok y) → x ≡ y
ok-injective e = cc

module _ (engine : RegexEngine) where
  plain_matcher :
      (ignore_case : Bool) (term : Text)
      → compile_include_matcher engine false ignore_case term
        ≡ ok (alternatives (compile_alternatives term ignore_case))
  unfolding compile_include_matcher
  plain_matcher ignore_case term = refl

  -- What `compile` returns behind the compilation of the include terms.
  abbrev compiled_with :
      QuerySpec → QueryOptions → List (IncludeMatcher engine) → CompiledQuery engine
  compiled_with spec options matchers = record {
    exact_terms = compile_exact_term_matchers spec.exact_terms options.ignore_case;
    exclude_terms =
        map (λ term. compile_alternative_set term options.ignore_case) spec.exclude_terms;
    include_terms = matchers;
    include_literal_bonus_terms =
        if options.use_regex
        then []
        else filter_map (literal_bonus_set options.ignore_case) spec.include_terms;
    include_exact_bonus_terms =
        if options.use_regex
        then []
        else filter_map (exact_bonus_pattern options.ignore_case)
            (flat_map include_alternatives spec.include_terms);
    score_query = build_score_query spec.include_terms spec.exact_terms options.ignore_case;
    ignore_case = options.ignore_case;
  }

  compile_lem :
      (query : Text) (options : QueryOptions)
      → compile engine query options ≡ (
          try_map
            (compile_include_matcher engine options.use_regex options.ignore_case)
            (parse_query query).include_terms
          >>= λ ms. ok (compiled_with (parse_query query) options ms))
  unfolding compile compile_spec
  compile_lem query options = refl

  pub compile-ignore_case :
      (query : Text) (options : QueryOptions) (c : CompiledQuery engine)
      → compile engine query options ≡ ok c
      → c.ignore_case ≡ options.ignore_case
  compile-ignore_case query options c h = by_result _ (sym (compile_lem query options) ∙ h)
    where
      by_result :
          (r : Result (List (IncludeMatcher engine)) Text)
          → (r >>= λ ms. ok (compiled_with (parse_query query) options ms)) ≡ ok c
          → c.ignore_case ≡ options.ignore_case
      by_result (ok ms) e = sym (ap (λ x. x.ignore_case) (ok-injective e))
      by_result (err error) e = absurd (cc)

  -- Without regular expressions every query compiles, and the compiled query keeps the case option.
  pub compile-literal :
      (query : Text) (ignore_case : Bool)
      → (c : CompiledQuery engine) × (compile engine query
            (record { use_regex = false; ignore_case = ignore_case })
          ≡ ok c)
        × (c.ignore_case ≡ ignore_case)
  compile-literal query ignore_case =
      let options : QueryOptions = record { use_regex = false; ignore_case = ignore_case } in
      let (ms, e) =
        try_map-ok (compile_include_matcher engine false ignore_case)
          (parse_query query).include_terms
          (All-of (λ term. (_, plain_matcher ignore_case term))
            (parse_query query).include_terms) in
      (
        compiled_with (parse_query query) options ms,
        compile_lem query options
            ∙ ap (λ r. r >>= λ ms. ok (compiled_with (parse_query query) options ms)) e,
        refl,
      )
