-- ===== src/Query/Regex.antt =====
-- The `regex` crate as the query code uses it: a parameter of the model.
use flist_walker.Prelude.{ℕ, Bool, List, Result}
use flist_walker.Text.{Text}

pub record RegexEngine : Type 1 where
  pub Regex : Type 0
  -- `RegexBuilder::new(term).case_insensitive(ignore_case).build()`, an error as its text
  pub build : Text → Bool → Result Regex Text
  pub is_match : Regex → Text → Bool
  -- `find_iter`: the start and the end of each match, in bytes
  pub find_iter : Regex → Text → List (ℕ × ℕ)
