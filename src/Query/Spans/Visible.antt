-- ===== src/Query/Spans/Visible.antt =====
-- The file name of a prepared candidate fits into its visible text, so the spans lie in that text.
use flist_walker.Prelude.{
  ℕ, ◌+◌, ◌-◌, ◌≤◌, ◌≡◌, refl, ap, ◌∙◌, inl, inr, Bool, true, false, ◌&&◌, not, Option, none, some,
  List, [], ◌∷◌, arith, length, is_empty, length-append, if◌then◌else◌, Bool-cases, Option-cases,
  some_inj, if_both,
}
use flist_walker.Text.{Text, text_eq, join}
use flist_walker.Paths.{
  FilePath, to_text, last_name, file_name, names_after, strip_path_prefix, display_path_with_mode,
}
use flist_walker.Query.Regex.{RegexEngine}
use flist_walker.Query.Candidate.{from_path, root_or_empty, or_default, is_some}
use flist_walker.Query.Compiled.{CompiledQuery, prepare_candidate}
use flist_walker.Query.Spans.{collect_spans}
use flist_walker.Query.Spans.Bounds.{NameFits, IsSpanSet, collect_spans-IsSpanSet}

last_name-le_join :
    (names : List Text) → length (or_default (last_name names)) ≤ length (join b'/' names)
last_name-le_join [] = omega arith
last_name-le_join (w ∷ []) = omega arith
last_name-le_join (w ∷ w' ∷ ws) =
    let ih = last_name-le_join (w' ∷ ws) in
    omega (arith, ih, length-append w (b'/' ∷ join b'/' (w' ∷ ws)))

join-le_to_text : (p : FilePath) → length (join b'/' p.names) ≤ length (to_text p)
unfolding to_text
join-le_to_text p =
    if_both (λ (t : Text). length (join b'/' p.names) ≤ length t) p.absolute (λ _. omega arith)
      (λ _. omega arith)

file_name-le_last :
    (p : FilePath) → length (or_default (file_name p)) ≤ length (or_default (last_name p.names))
unfolding file_name
file_name-le_last p = by_last (last_name p.names)
  where
    by_last :
        (r : Option Text)
        → length (
            or_default (elim r [
              | none ↦ none
              | some w ↦ if text_eq w (b'.' ∷ b'.' ∷ []) then none else some w
            ]))
          ≤ length (or_default r)
    by_last none = omega arith
    by_last (some w) =
        if_both (λ (o : Option Text). length (or_default o) ≤ length w)
          (text_eq w (b'.' ∷ b'.' ∷ [])) (λ _. omega arith) (λ _. omega arith)

name-le_text : (p : FilePath) → length (or_default (file_name p)) ≤ length (to_text p)
name-le_text p = omega (arith, file_name-le_last p, last_name-le_join p.names, join-le_to_text p)

-- What is left behind a prefix ends in the same name.
names_after_last :
    (names base rest : List Text)
    → names_after names base ≡ some rest
    → is_empty rest ≡ false
    → (is_empty names ≡ false) × (last_name names ≡ last_name rest)
unfolding names_after
names_after_last names [] rest e h = rw (some_inj e) (h, refl)
names_after_last [] (b ∷ base) rest e h = absurd (cc)
names_after_last (w ∷ names) (b ∷ base) rest e h = elim (Bool-cases (text_eq w b)) [
  | inl same ↦
      let (more, ih) = names_after_last names base rest (rw (same, names_after) at e) h in
      (refl, last_behind w names more ∙ ih)
  | inr other ↦ absurd (cc (rw (other, names_after) at e))
]
  where
    last_behind :
        (w : Text) (names : List Text)
        → is_empty names ≡ false
        → last_name (w ∷ names) ≡ last_name names
    last_behind w [] h = absurd (cc)
    last_behind w (x ∷ xs) h = refl

strip_path_prefix_last :
    (p base q : FilePath)
    → strip_path_prefix p base ≡ some q
    → is_empty q.names ≡ false
    → last_name p.names ≡ last_name q.names
unfolding strip_path_prefix
strip_path_prefix_last p base q e h = elim (Bool-cases (not base.absolute && is_empty base.names)) [
  | inl whole ↦ ap (λ x. last_name x.names) (some_inj (rw (whole, strip_path_prefix) at e))
  | inr part ↦
      (names_after_last p.names base.names q.names
        (rest_of p.absolute base.absolute (names_after p.names base.names)
          (rw (part, strip_path_prefix) at e))
        h).1
]
  where
    rest_of :
        (pa ba : Bool) (r : Option (List Text))
        → ◌≡◌ {A = Option FilePath}
            (elim pa [
              | true ↦ elim ba [
                | true ↦ elim r [
                  | none ↦ none
                  | some rest ↦ some (record { absolute = false; names = rest })
                ]
                | false ↦ none
              ]
              | false ↦ elim ba [
                | true ↦ none
                | false ↦ elim r [
                  | none ↦ none
                  | some rest ↦ some (record { absolute = false; names = rest })
                ]
              ]
            ])
            (some q)
        → r ≡ some q.names
    rest_of true true none e = absurd (cc)
    rest_of true true (some rest) e = ap (λ (x : FilePath). some x.names) (some_inj e)
    rest_of true false r e = absurd (cc)
    rest_of false true r e = absurd (cc)
    rest_of false false none e = absurd (cc)
    rest_of false false (some rest) e = ap (λ (x : FilePath). some x.names) (some_inj e)

-- The root is not the path itself.
abbrev pub IsBelow : FilePath → FilePath → Type 0
IsBelow path root =
    (rest : FilePath) → strip_path_prefix path root ≡ some rest → is_empty rest.names ≡ false

name-le_display :
    (path root : FilePath) (prefer_relative : Bool)
    → IsBelow path root
    → length (or_default (file_name path))
      ≤ length (display_path_with_mode path root prefer_relative)
unfolding display_path_with_mode
name-le_display path root false below = name-le_text path
name-le_display path root true below = elim (Option-cases (strip_path_prefix path root)) [
  | inl outside ↦ rw outside (name-le_text path)
  | inr (rest, inside) ↦
      let same = strip_path_prefix_last path root rest inside (below rest inside) in
      rw inside (
        omega (
          arith,
          file_name-le_last path,
          ap (λ o. length (or_default o)) same,
          last_name-le_join rest.names,
          join-le_to_text rest,
        ))
]

start_fits : (n v : ℕ) → n ≤ v → v - n + n ≤ v
start_fits n v h = omega arith

module _ (engine : RegexEngine) where
  prepared-NameFits :
      (compiled : CompiledQuery engine) (path : FilePath) (root : Option FilePath)
      (prefer_relative : Bool)
      → IsBelow path (root_or_empty root)
      → NameFits (prepare_candidate engine compiled path root prefer_relative)
  unfolding prepare_candidate from_path
  prepared-NameFits compiled path root prefer_relative below =
      start_fits _ _
        (name-le_display path (root_or_empty root) (prefer_relative && is_some root) below)

  -- For every query and every path other than the root, the spans are strictly increasing and each
  -- is the position of a character of the visible text, however the path is shown.
  pub spans_in_visible :
      (compiled : CompiledQuery engine) (path : FilePath) (root : Option FilePath)
      (prefer_relative : Bool)
      → IsBelow path (root_or_empty root)
      → (let candidate = prepare_candidate engine compiled path root prefer_relative in
          IsSpanSet (length candidate.visible) (collect_spans engine compiled candidate))
  spans_in_visible compiled path root prefer_relative below =
      collect_spans-IsSpanSet (prepare_candidate engine compiled path root prefer_relative)
        (prepared-NameFits compiled path root prefer_relative below) engine compiled
