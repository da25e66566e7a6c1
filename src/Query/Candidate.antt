-- ===== src/Query/Candidate.antt =====
-- rust/src/query/compiled.rs: the candidates that a query is matched against, and the terms whose
-- candidates are ignored; and `path_matches_ignore_terms` of rust/src/query.rs.
use flist_walker.Prelude.{
  ℕ, ◌-◌, Bool, true, false, ◌&&◌, Option, none, some, List, [], map, length, is_empty, any,
  if◌then◌else◌,
}
use flist_walker.Text.{Text}
use flist_walker.Paths.{FilePath, file_name, normalize_windows_path, display_path_with_mode}
use flist_walker.Query.Pattern.{AlternativeSet, normalize_text, compile_raw_alternative_set}
use flist_walker.Query.Match.{matches_alternative_set}

pub record QueryScope : Type 0 where
  pub root : Option FilePath
  pub prefer_relative : Bool
  pub ignore_case : Bool

pub record PreparedCandidate : Type 0 where
  pub name : Text
  pub full : Text
  pub visible : Text
  pub filename : Text
  pub filename_start : ℕ

abbrev pub or_default : Option Text → Text
or_default none = []
or_default (some t) = t

abbrev pub root_or_empty : Option FilePath → FilePath
root_or_empty none = record { absolute = false; names = [] }
root_or_empty (some root) = root

abbrev pub is_some {ℓ} : {A : Type ℓ} → Option A → Bool
is_some none = false
is_some (some a) = true

-- `PreparedCandidate::from_path`
unfoldable pub from_path : FilePath → QueryScope → PreparedCandidate
unfolding file_name display_path_with_mode normalize_text
from_path path scope =
    let normalized_path = normalize_windows_path path in
    let filename = or_default (file_name normalized_path) in
    let visible =
      display_path_with_mode normalized_path (root_or_empty scope.root)
        (scope.prefer_relative && is_some scope.root) in
    record {
      name = normalize_text filename scope.ignore_case;
      full = normalize_text visible scope.ignore_case;
      visible = visible;
      filename = filename;
      filename_start = length visible - length filename;
    }

pub record CompiledIgnoreTerms : Type 0 where
  pub terms : List AlternativeSet

-- `CompiledIgnoreTerms::compile`
unfoldable pub compile_ignore_terms : List Text → Bool → CompiledIgnoreTerms
unfolding compile_raw_alternative_set
compile_ignore_terms terms ignore_case = record {
  terms = map (λ term. compile_raw_alternative_set term ignore_case) terms;
}

-- `CompiledIgnoreTerms::matches`
unfoldable pub ignore_terms_match : CompiledIgnoreTerms → PreparedCandidate → Bool
unfolding matches_alternative_set
ignore_terms_match compiled candidate =
    any (λ term. matches_alternative_set term candidate.name candidate.full) compiled.terms

-- `CompiledIgnoreTerms::matches_path`, and `path_matches_ignore_terms` of query.rs
unfoldable pub matches_path : CompiledIgnoreTerms → FilePath → QueryScope → Bool
unfolding ignore_terms_match from_path
matches_path compiled path scope = ignore_terms_match compiled (from_path path scope)

unfoldable pub path_matches_ignore_terms : FilePath → FilePath → List Text → Bool → Bool → Bool
unfolding compile_ignore_terms matches_path
path_matches_ignore_terms path root ignore_terms prefer_relative ignore_case =
    if is_empty ignore_terms
    then false
    else matches_path (compile_ignore_terms ignore_terms ignore_case) path
        (record { root = some root; prefer_relative = prefer_relative; ignore_case = ignore_case })
