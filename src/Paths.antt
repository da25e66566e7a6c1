-- ===== src/Paths.antt =====
-- rust/src/path_utils.rs, for the builds that are not for Windows, over the parts of `std::path`
-- that it uses. A path is held as its components: whether it begins at the root, and the names, so
-- repeated separators and `.` do not arise; names are valid UTF-8.
use flist_walker.Prelude.{
  Bool, true, false, ◌&&◌, not, Option, none, some, List, [], ◌∷◌, is_empty, if◌then◌else◌,
}
use flist_walker.Text.{Text, text_eq, join}

pub record FilePath : Type 0 where
  pub absolute : Bool
  pub names : List Text

-- `to_string_lossy`
unfoldable pub to_text : FilePath → Text
to_text p = if p.absolute then b'/' ∷ join b'/' p.names else join b'/' p.names

abbrev pub last_name : List Text → Option Text
last_name [] = none
last_name (w ∷ []) = some w
last_name (w ∷ w' ∷ ws) = last_name (w' ∷ ws)

-- `Path::file_name`: none at the root and behind `..`.
unfoldable pub file_name : FilePath → Option Text
unfolding text_eq
file_name p = elim (last_name p.names) [
  | none ↦ none
  | some w ↦ if text_eq w (b'.' ∷ b'.' ∷ []) then none else some w
]

unfoldable pub names_after : List Text → List Text → Option (List Text)
names_after names [] = some names
names_after [] (b ∷ base) = none
names_after (w ∷ names) (b ∷ base) = elim (text_eq w b) [
  | true ↦ names_after names base
  | false ↦ none
]

-- `Path::strip_prefix`
unfoldable pub strip_path_prefix : FilePath → FilePath → Option FilePath
unfolding names_after text_eq
strip_path_prefix p base =
    if not base.absolute && is_empty base.names then some p else elim (p.absolute) [
      | true ↦ elim (base.absolute) [
        | true ↦ elim (names_after p.names base.names) [
          | none ↦ none
          | some rest ↦ some (record { absolute = false; names = rest })
        ]
        | false ↦ none
      ]
      | false ↦ elim (base.absolute) [
        | true ↦ none
        | false ↦ elim (names_after p.names base.names) [
          | none ↦ none
          | some rest ↦ some (record { absolute = false; names = rest })
        ]
      ]
    ]

unfoldable pub path_key : FilePath → Text
unfolding to_text
path_key path = to_text path

abbrev pub normalize_windows_path : FilePath → FilePath
normalize_windows_path path = path

abbrev pub strip_windows_extended_prefix : Text → Text
strip_windows_extended_prefix text = text

unfoldable pub display_path_with_mode : FilePath → FilePath → Bool → Text
unfolding to_text strip_path_prefix
display_path_with_mode path root prefer_relative =
    let normalized_path = normalize_windows_path path in
    let normalized_root = normalize_windows_path root in
    let raw : Text =
      (if prefer_relative
        then elim (strip_path_prefix normalized_path normalized_root) [
          | some p ↦ to_text p
          | none ↦ to_text normalized_path
        ]
        else to_text normalized_path) in
    strip_windows_extended_prefix raw
