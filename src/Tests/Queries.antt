-- ===== src/Tests/Queries.antt =====
-- Witnesses for the query language.
use flist_walker.Prelude.{
  ◌≤◌, ◌<◌, ◌≡◌, refl, sym, ap, ◌↔◌, true, false, ◌||◌, some, [], ◌∷◌, ◌++◌, arith, length,
  is_empty, ◌>>=◌, ok, some_inj,
}
use flist_walker.Tests.{program, literal_engine, root, file}
use flist_walker.Text.{after_find, Text, codes, split_whitespace}
use flist_walker.Text.Subsequence.{Subsequence}
use flist_walker.Query.Parse.{QuerySpec, parse_query}
use flist_walker.Query.Parse.Buckets.{
  parse_query-buckets, bucket_terms, included, exacted, excluded,
}
use flist_walker.Query.Parse.RoundTrip.{print, IsPrintable, parse_query-print}
use flist_walker.Query.Pattern.{LiteralPattern}
use flist_walker.Query.Match.{
  matches_anchored_literal, literal_occurrence_count, is_subsequence, matches_include_literal,
}
use flist_walker.Query.Match.Loop.{count_behind, literal_occurrence_count_ends}
use flist_walker.Query.Match.Literal.{
  matches_anchored_literal_iff, literal_occurrence_count_iff, is_subsequence_iff,
  matches_include_literal_unanchored,
}
use flist_walker.Text.Occurrences.{Occurs}
use flist_walker.Query.Candidate.{PreparedCandidate}
use flist_walker.Query.Compiled.{CompiledQuery, compile, prepare_candidate}
use flist_walker.Query.Spans.{collect_spans}
use flist_walker.Query.Spans.Bounds.{IsSpanSet}
use flist_walker.Query.Spans.Visible.{IsBelow, spans_in_visible}
use flist_walker.Paths.{FilePath}
use flist_walker.Query.Compiled.Total.{compile-literal}

abbrev mixed : QuerySpec
mixed = record {
  include_terms = codes "abc" ∷ codes "x" ∷ [];
  exact_terms = codes "lib" ∷ [];
  exclude_terms = codes "tmp" ∷ [];
}

mixed-IsPrintable : IsPrintable mixed
unfolding program
mixed-IsPrintable = record {
  include_terms = (
    record {
      word = record { some_char = omega arith; no_space = refl };
      positive = refl;
      plain = refl;
    },
    (
      record {
        word = record { some_char = omega arith; no_space = refl };
        positive = refl;
        plain = refl;
      },
      tt,
    ),
  );
  exact_terms =
      (record { word = record { some_char = omega arith; no_space = refl }; one = refl }, tt);
  exclude_terms = (record { some_char = omega arith; no_space = refl }, tt);
}

parse_query-print_example : parse_query (print mixed) ≡ mixed
parse_query-print_example = parse_query-print mixed mixed-IsPrintable

parse_query-buckets_example :
    (let words = split_whitespace (codes "abc 'lib !tmp x|y") in
      ((parse_query (codes "abc 'lib !tmp x|y")).include_terms ≡ bucket_terms included words)
      × ((parse_query (codes "abc 'lib !tmp x|y")).exact_terms ≡ bucket_terms exacted words)
      × ((parse_query (codes "abc 'lib !tmp x|y")).exclude_terms ≡ bucket_terms excluded words))
parse_query-buckets_example = parse_query-buckets (codes "abc 'lib !tmp x|y")

is_subsequence_iff_example :
    (is_subsequence (codes "mrs") (codes "main.rs") ≡ true)
    ↔ Subsequence (codes "mrs") (codes "main.rs")
is_subsequence_iff_example = is_subsequence_iff (codes "mrs") (codes "main.rs")

-- `^main`
abbrev anchored : LiteralPattern
anchored = record {
  anchored_start = true;
  anchored_end = false;
  core = codes "main";
  core_chars = codes "main";
  first_char = some b'm';
  last_char = some b'n';
}

abbrev unanchored : LiteralPattern
unanchored = record anchored { anchored_start = false }

matches_anchored_literal_iff_example :
    (matches_anchored_literal anchored (codes "main.rs") ≡ true)
    ↔ ((rest : Text) × (codes "main.rs" ≡ codes "main" ++ rest))
matches_anchored_literal_iff_example = matches_anchored_literal_iff anchored (codes "main.rs")

literal_occurrence_count_iff_example :
    (2 ≤ literal_occurrence_count (codes "banana") (codes "an"))
    ↔ Occurs (codes "an") 2 (codes "banana")
literal_occurrence_count_iff_example =
    literal_occurrence_count_iff 2 (codes "banana") (codes "an") (omega arith)

matches_include_literal_unanchored_example :
    matches_include_literal unanchored (codes "main.rs") (codes "src/main.rs") ≡ (
      is_subsequence (codes "main") (codes "main.rs")
      || is_subsequence (codes "main") (codes "src/main.rs"))
matches_include_literal_unanchored_example =
    matches_include_literal_unanchored unanchored (codes "main.rs") (codes "src/main.rs") refl refl
      refl

compile-literal_example :
    (c : CompiledQuery literal_engine) × (compile literal_engine
        (codes "a.c !b")
        (record { use_regex = false; ignore_case = true })
      ≡ ok c)
    × (c.ignore_case ≡ true)
compile-literal_example = compile-literal literal_engine (codes "a.c !b") true

abbrev shown : PreparedCandidate
shown = record {
  name = codes "main.rs";
  full = codes "/r/main.rs";
  visible = codes "main.rs";
  filename = codes "main.rs";
  filename_start = 0;
}

abbrev compiled_query : CompiledQuery literal_engine
compiled_query = (compile-literal literal_engine (codes "mn") true).0

-- The letters of `mn` in `main.rs`
spans_of_mn :
    (do
      c ← compile literal_engine (codes "mn") (record { use_regex = false; ignore_case = true })
      ok (collect_spans literal_engine c shown))
    ≡ ok (0 ∷ 3 ∷ [])
unfolding program
spans_of_mn = refl

IsBelow-root : IsBelow (file (codes "main.rs")) root
unfolding program
IsBelow-root rest e = ap (λ (p : FilePath). is_empty p.names) (sym (some_inj e))

spans_in_visible_example :
    (let candidate =
        prepare_candidate literal_engine compiled_query (file (codes "main.rs")) (some root) true in
      IsSpanSet (length candidate.visible) (collect_spans literal_engine compiled_query candidate))
spans_in_visible_example =
    spans_in_visible literal_engine compiled_query (file (codes "main.rs")) (some root) true
      IsBelow-root

literal_occurrence_count_ends_example :
    (literal_occurrence_count (codes "ababa") (codes "aba")
      ≡ count_behind (codes "aba") (after_find (codes "ababa") (codes "aba")))
    × ((rest : Text)
        → after_find (codes "ababa") (codes "aba") ≡ some rest
        → length rest < length (codes "ababa"))
literal_occurrence_count_ends_example =
    literal_occurrence_count_ends (codes "ababa") (codes "aba") (omega arith)
