-- ===== src/Query/Score.antt =====
-- rust/src/query/compiled.rs: the score of a candidate, and `CompiledQuery::evaluate`.
use flist_walker.Prelude.{
  ℕ, min, ◌≡◌, refl, ap, ◌∙◌, Bool, true, false, ◌&&◌, ◌||◌, not, Option, none, some, List, [], ◌∷◌,
  is_empty, any, if◌then◌else◌,
}
use Prim.Native.Nat.{Ordering}
use flist_walker.Text.{Text, text_eq, starts_with, contains, len}
use flist_walker.Query.Regex.{RegexEngine}
use flist_walker.Query.Pattern.{LiteralPattern, AlternativeSet}
use flist_walker.Query.Match.{matches_anchored_literal, matches_exact_term}
use flist_walker.Query.Candidate.{PreparedCandidate}
use flist_walker.Query.Compiled.{CompiledQuery, matches_compiled_query}
use flist_walker.Query.Spans.{collect_spans}

-- `f64` and the fuzzy matcher (`SkimMatcherV2::fuzzy_match` with its `i64` cast to `f64`), which the
-- program takes from the language and from a crate.
pub record Scoring : Type 1 where
  pub Score : Type 0
  pub of_nat : ℕ → Score
  pub add : Score → Score → Score
  pub partial_cmp : Score → Score → Option Ordering
  pub fuzzy_match : Text → Text → Option Score

pub data EvidenceLevel : Type 0 where
  rank_only with_spans : EvidenceLevel

module _ (scoring : Scoring) where
  open scoring use {Score, of_nat, add, fuzzy_match}

  abbrev add_if : Bool → ℕ → Score → Score
  add_if true bonus score = add score (of_nat bonus)
  add_if false bonus score = score

  unfoldable pub fallback_score : Text → Text → Score
  unfolding contains starts_with len
  fallback_score query text =
      if is_empty query
      then of_nat 0
      else add (add_if (starts_with text query) 30 (add_if (contains text query) 25 (of_nat 0)))
          (of_nat (min (len query) (len text)))

  unfoldable pub bonus_for_alternative_set : AlternativeSet → PreparedCandidate → Score
  unfolding matches_anchored_literal text_eq
  bonus_for_alternative_set set candidate =
      add_if
        (any (λ pattern. text_eq candidate.name pattern.core || text_eq candidate.full pattern.core)
          set.alternatives)
        150
        (add_if
          (any
            (λ pattern.
              matches_anchored_literal pattern candidate.name
              || matches_anchored_literal pattern candidate.full)
            set.alternatives)
          150 (of_nat 0))

  -- One round of the last loop of `score_entry`.
  unfoldable pub add_exact_bonus : PreparedCandidate → Score → LiteralPattern → Score
  unfolding matches_anchored_literal text_eq
  add_exact_bonus candidate score pattern =
      if matches_anchored_literal pattern candidate.name
        || matches_anchored_literal pattern candidate.full
      then add_if (text_eq candidate.name pattern.core) 300 (add score (of_nat 300))
      else score

  -- `for item in items { score = step(score, item) }`
  abbrev add_all {ℓ} : {A : Type ℓ} → (Score → A → Score) → Score → List A → Score
  add_all step score [] = score
  add_all step score (x ∷ xs) = add_all step (step score x) xs

  abbrev or_fallback : Option Score → Score → Score
  or_fallback none fallback = fallback
  or_fallback (some score) fallback = score

  unfoldable pub score_entry :
      (engine : RegexEngine) → CompiledQuery engine → PreparedCandidate → Score
  unfolding fallback_score bonus_for_alternative_set add_exact_bonus matches_exact_term text_eq
  score_entry engine compiled candidate =
      let query = compiled.score_query in
      let start =
        if is_empty query
        then of_nat 0
        else or_fallback (fuzzy_match candidate.full query) (fallback_score query candidate.full) in
      let named =
        if not (is_empty query) && text_eq candidate.name query
        then add start (of_nat 1000)
        else add_if (not (is_empty query) && text_eq candidate.full query) 900 start in
      let exact =
        add_all
          (λ score term. add_if (matches_exact_term term candidate.name candidate.full) 800 score)
          named compiled.exact_terms in
      let literal =
        add_all (λ score set. add score (bonus_for_alternative_set set candidate)) exact
          compiled.include_literal_bonus_terms in
      add_all (add_exact_bonus candidate) literal compiled.include_exact_bonus_terms

  pub record QueryEvaluation : Type 0 where
    pub score : Score
    pub spans : List ℕ

  -- `CompiledQuery::evaluate_with_matcher`
  unfoldable pub evaluate :
      (engine : RegexEngine)
      → CompiledQuery engine
      → PreparedCandidate
      → EvidenceLevel
      → Option QueryEvaluation
  unfolding matches_compiled_query collect_spans score_entry
  evaluate engine compiled candidate evidence =
      if not (matches_compiled_query engine compiled candidate)
      then none
      else some (record {
        score = score_entry engine compiled candidate;
        spans = elim evidence [
          | rank_only ↦ []
          | with_spans ↦ collect_spans engine compiled candidate
        ];
      })

  abbrev pub evaluation :
      (engine : RegexEngine)
      → CompiledQuery engine
      → PreparedCandidate
      → EvidenceLevel
      → QueryEvaluation
  evaluation engine compiled candidate evidence = record {
    score = score_entry engine compiled candidate;
    spans = elim evidence [ rank_only ↦ [] | with_spans ↦ collect_spans engine compiled candidate ];
  }

  evaluate_shut :
      (engine : RegexEngine) (compiled : CompiledQuery engine) (candidate : PreparedCandidate)
      (evidence : EvidenceLevel)
      → evaluate engine compiled candidate evidence ≡ (
          if not (matches_compiled_query engine compiled candidate)
          then none
          else some (evaluation engine compiled candidate evidence))
  unfolding evaluate
  evaluate_shut engine compiled candidate evidence = refl

  pub evaluate_lem :
      (engine : RegexEngine) (compiled : CompiledQuery engine) (candidate : PreparedCandidate)
      (evidence : EvidenceLevel) (b : Bool)
      → matches_compiled_query engine compiled candidate ≡ b
      → evaluate engine compiled candidate evidence
        ≡ (if not b then none else some (evaluation engine compiled candidate evidence))
  evaluate_lem engine compiled candidate evidence b h =
      evaluate_shut engine compiled candidate evidence
      ∙ ap (λ b. if not b then none else some (evaluation engine compiled candidate evidence)) h
