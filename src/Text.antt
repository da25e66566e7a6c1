-- ===== src/Text.antt =====
-- The text operations of Rust's `str` that the program uses. A text is the list of its characters,
-- each the number of its code point; `len` is the length in bytes of the UTF-8 encoding.
pub mod Affix
pub mod Words
pub mod Trim
pub mod Occurrences
pub mod Subsequence
use flist_walker.Prelude.{
  ℕ, ◌+◌, Bool, true, false, ◌&&◌, ◌||◌, Option, none, some, List, [], ◌∷◌, ◌++◌, map, length, drop,
  is_empty, any, ltb, leb, ◌==◌, if◌then◌else◌,
}
use mathlib.Core.List.{reverse}
use Prim.Native.Char.{code}
use Prim.Native.String.{String}

abbrev pub Text : Type 0
Text = List ℕ

-- A literal of the source as a text.
abbrev pub codes : String → Text
codes String.[] = []
codes (String.◌∷◌ c s) = code c ∷ codes s

-- The bytes of one character in UTF-8.
unfoldable pub len_utf8 : ℕ → ℕ
len_utf8 c = if ltb c 0x80 then 1 else if ltb c 0x800 then 2 else if ltb c 0x10000 then 3 else 4

-- `str::len`
unfoldable pub len : Text → ℕ
unfolding len_utf8
len [] = 0
len (c ∷ t) = len_utf8 c + len t

-- Equality of texts.
unfoldable pub text_eq : Text → Text → Bool
text_eq [] [] = true
text_eq [] (d ∷ u) = false
text_eq (c ∷ t) [] = false
text_eq (c ∷ t) (d ∷ u) = c == d && text_eq t u

-- `Ord for str`: by bytes, which for UTF-8 is by code points.
unfoldable pub text_ltb : Text → Text → Bool
text_ltb [] [] = false
text_ltb [] (d ∷ u) = true
text_ltb (c ∷ t) [] = false
text_ltb (c ∷ t) (d ∷ u) = ltb c d || (c == d && text_ltb t u)

-- `str::starts_with`
unfoldable pub starts_with : Text → Text → Bool
starts_with t [] = true
starts_with [] (d ∷ p) = false
starts_with (c ∷ t) (d ∷ p) = c == d && starts_with t p

-- `str::ends_with`
unfoldable pub ends_with : Text → Text → Bool
unfolding text_eq
ends_with [] p = is_empty p
ends_with (c ∷ t) p = text_eq (c ∷ t) p || ends_with t p

-- `str::contains` of a text
unfoldable pub contains : Text → Text → Bool
unfolding starts_with
contains [] p = is_empty p
contains (c ∷ t) p = starts_with (c ∷ t) p || contains t p

-- `str::contains` of a character
abbrev pub has_char : ℕ → Text → Bool
has_char d = any (λ c. c == d)

-- `str::strip_prefix`
unfoldable pub strip_prefix : Text → Text → Option Text
strip_prefix t [] = some t
strip_prefix [] (d ∷ p) = none
strip_prefix (c ∷ t) (d ∷ p) = elim (c == d) [ true ↦ strip_prefix t p | false ↦ none ]

-- `str::strip_suffix` of a character
unfoldable pub strip_last : Text → ℕ → Option Text
strip_last [] d = none
strip_last (c ∷ []) d = if c == d then some [] else none
strip_last (c ∷ c' ∷ t) d = elim (strip_last (c' ∷ t) d) [ none ↦ none | some u ↦ some (c ∷ u) ]

-- `char::is_whitespace`: the Unicode property White_Space.
unfoldable pub is_whitespace : ℕ → Bool
is_whitespace c =
    (leb 0x9 c && leb c 0xd)
    || c == 0x20
    || c == 0x85
    || c == 0xa0
    || c == 0x1680
    || (leb 0x2000 c && leb c 0x200a)
    || c == 0x2028
    || c == 0x2029
    || c == 0x202f
    || c == 0x205f
    || c == 0x3000

-- `str::split_whitespace`: the word under way is kept in reverse.
abbrev pub flush : Text → List Text
flush [] = []
flush (c ∷ w) = reverse (c ∷ w) ∷ []

unfoldable pub words_from : Text → Text → List Text
unfolding is_whitespace
words_from word [] = flush word
words_from word (c ∷ t) = elim (is_whitespace c) [
  | true ↦ flush word ++ words_from [] t
  | false ↦ words_from (c ∷ word) t
]

abbrev pub split_whitespace : Text → List Text
split_whitespace = words_from []

-- `str::trim`
unfoldable pub trim_start : Text → Text
unfolding is_whitespace
trim_start [] = []
trim_start (c ∷ t) = elim (is_whitespace c) [ true ↦ trim_start t | false ↦ c ∷ t ]

unfoldable pub trim : Text → Text
unfolding trim_start
trim t = reverse (trim_start (reverse (trim_start t)))

-- `str::split` at a character, empty parts included.
abbrev pub prepend_part : ℕ → List Text → List Text
prepend_part c [] = (c ∷ []) ∷ []
prepend_part c (w ∷ ws) = (c ∷ w) ∷ ws

unfoldable pub split : ℕ → Text → List Text
split d [] = [] ∷ []
split d (c ∷ t) = elim (c == d) [ true ↦ [] ∷ split d t | false ↦ prepend_part c (split d t) ]

-- `join` of a slice of texts, the separator one character.
abbrev pub join : ℕ → List Text → Text
join sep [] = []
join sep (w ∷ []) = w
join sep (w ∷ w' ∷ ws) = w ++ (sep ∷ join sep (w' ∷ ws))

-- `to_ascii_lowercase`
unfoldable pub lower_char : ℕ → ℕ
lower_char c = if leb b'A' c && leb c b'Z' then c + 32 else c

unfoldable pub to_ascii_lowercase : Text → Text
unfolding lower_char
to_ascii_lowercase = map lower_char

-- `str::find` and the text behind the match, which is where the next search starts.
unfoldable pub after_find : Text → Text → Option Text
unfolding starts_with
after_find [] p = if is_empty p then some [] else none
after_find (c ∷ t) p = elim (starts_with (c ∷ t) p) [
  | true ↦ some (drop (length p) (c ∷ t))
  | false ↦ after_find t p
]

-- `chars().last()`
abbrev pub last : Text → Option ℕ
last [] = none
last (c ∷ []) = some c
last (c ∷ c' ∷ t) = last (c' ∷ t)

-- `chars().next()`
abbrev pub first : Text → Option ℕ
first [] = none
first (c ∷ t) = some c
