-- ===== src/App/IgnoreMatcher.antt =====
-- rust/src/app/cache.rs: the cache of the compiled terms whose matches are ignored.
use flist_walker.Prelude.{
  ◌≡◌, refl, sym, ap, ap₂, ◌∙◌, Bool, true, false, ◌&&◌, ◌||◌, not, Option, none, some, List, [],
  ◌∷◌, arith, if◌then◌else◌, &&-eq-true, some_inj, if_both,
}
use flist_walker.Text.{Text, text_eq}
use flist_walker.Text.Affix.{eq_of_text_eq}
use flist_walker.Query.Candidate.{CompiledIgnoreTerms, compile_ignore_terms}

pub record IgnoreMatcherCacheState : Type 0 where
  pub scope_terms : List Text
  pub scope_ignore_case : Bool
  pub compiled : Option CompiledIgnoreTerms

abbrev pub default_state : IgnoreMatcherCacheState
default_state = record { scope_terms = []; scope_ignore_case = false; compiled = none }

unfoldable pub same_terms : List Text → List Text → Bool
unfolding text_eq
same_terms [] [] = true
same_terms [] (t ∷ ts) = false
same_terms (s ∷ ss) [] = false
same_terms (s ∷ ss) (t ∷ ts) = text_eq s t && same_terms ss ts

abbrev same_case : Bool → Bool → Bool
same_case true b = b
same_case false b = not b

abbrev is_none {ℓ} : {A : Type ℓ} → Option A → Bool
is_none none = true
is_none (some a) = false

abbrev recompiled : List Text → Bool → IgnoreMatcherCacheState
recompiled terms ignore_case = record {
  scope_terms = terms;
  scope_ignore_case = ignore_case;
  compiled = some (compile_ignore_terms terms ignore_case);
}

-- `IgnoreMatcherCacheState::compiled`; the result is none where the `expect` would panic.
unfoldable pub compiled_for :
    IgnoreMatcherCacheState
    → List Text
    → Bool
    → Option CompiledIgnoreTerms × IgnoreMatcherCacheState
compiled_for state terms ignore_case =
    let state' =
      if is_none state.compiled
        || not (same_case state.scope_ignore_case ignore_case)
        || not (same_terms state.scope_terms terms)
      then recompiled terms ignore_case
      else state in
    (state'.compiled, state')

-- What is cached was compiled from the terms and the case setting of the scope.
abbrev pub IsCurrent : IgnoreMatcherCacheState → Type 0
IsCurrent state =
    (c : CompiledIgnoreTerms)
    → state.compiled ≡ some c
    → c ≡ compile_ignore_terms state.scope_terms state.scope_ignore_case

terms_of_same : (ss ts : List Text) → same_terms ss ts ≡ true → ss ≡ ts
unfolding same_terms
terms_of_same [] [] h = refl
terms_of_same [] (t ∷ ts) h = absurd (cc)
terms_of_same (s ∷ ss) [] h = absurd (cc)
terms_of_same (s ∷ ss) (t ∷ ts) h =
    let (first, rest) = &&-eq-true (text_eq s t) (same_terms ss ts) h in
    ap₂ ◌∷◌ (eq_of_text_eq s t first) (terms_of_same ss ts rest)

case_of_same : (a b : Bool) → same_case a b ≡ true → a ≡ b
case_of_same true b h = sym h
case_of_same false true h = absurd (cc)
case_of_same false false h = refl

-- The cached ignore matcher always serves what compiling the asked terms with the asked case
-- setting gives, so its expect does not fail, and it stays current, where it was current before.
pub compiled_for_lem :
    (state : IgnoreMatcherCacheState) (terms : List Text) (ignore_case : Bool)
    → IsCurrent state
    → ((compiled_for state terms ignore_case).0 ≡ some (compile_ignore_terms terms ignore_case))
      × IsCurrent (compiled_for state terms ignore_case).1
unfolding compiled_for
compiled_for_lem state terms ignore_case current =
    if_both Serves
      (is_none state.compiled
        || not (same_case state.scope_ignore_case ignore_case)
        || not (same_terms state.scope_terms terms))
      (λ _. (refl, λ c e. sym (some_inj e)))
      (λ kept. (cached state.compiled refl (ground arith) (ground arith) (ground arith), current))
  where
    Serves : IgnoreMatcherCacheState → Type 0
    Serves s = (s.compiled ≡ some (compile_ignore_terms terms ignore_case)) × IsCurrent s

    cached :
        (c : Option CompiledIgnoreTerms)
        → state.compiled ≡ c
        → is_none c ≡ false
        → same_case state.scope_ignore_case ignore_case ≡ true
        → same_terms state.scope_terms terms ≡ true
        → state.compiled ≡ some (compile_ignore_terms terms ignore_case)
    cached none e h case_same terms_same = absurd (cc)
    cached (some c) e h case_same terms_same =
        e
        ∙ ap some (
            current c e
            ∙ ap₂ compile_ignore_terms (terms_of_same state.scope_terms terms terms_same)
                (case_of_same state.scope_ignore_case ignore_case case_same))
