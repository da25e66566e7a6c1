-- ===== src/Tests/Ignored.antt =====
-- Witnesses for the cache of the ignored terms.
use flist_walker.Prelude.{◌≡◌, true, false, some, List, [], ◌∷◌}
use flist_walker.Text.{Text, codes}
use flist_walker.Query.Candidate.{compile_ignore_terms}
use flist_walker.App.IgnoreMatcher.{
  IgnoreMatcherCacheState, default_state, compiled_for, IsCurrent, compiled_for_lem,
}

abbrev terms : List Text
terms = codes "target" ∷ codes "node_modules" ∷ []

default_state-IsCurrent : IsCurrent default_state
default_state-IsCurrent c e = absurd (cc)

-- The cache after a first use, asked for the same terms with the case respected.
abbrev used : IgnoreMatcherCacheState
used = (compiled_for default_state terms true).1

used-IsCurrent : IsCurrent used
used-IsCurrent = (compiled_for_lem default_state terms true default_state-IsCurrent).1

compiled_for_lem_example :
    ((compiled_for used terms false).0 ≡ some (compile_ignore_terms terms false))
    × IsCurrent (compiled_for used terms false).1
compiled_for_lem_example = compiled_for_lem used terms false used-IsCurrent
