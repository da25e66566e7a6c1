-- ===== src/Text/Trim.antt =====
-- `str::trim` is idempotent.
use flist_walker.Prelude.{
  ◌≡◌, refl, sym, ap, ◌∙◌, subst, inl, inr, false, [], ◌∷◌, ◌++◌, Bool-cases,
}
use flist_walker.Text.{Text, is_whitespace, trim_start, trim}
use mathlib.Core.List.{reverse, reverse-append, reverse-reverse}

-- No whitespace in front.
abbrev Started : Text → Type 0
Started [] = Unit
Started (c ∷ t) = is_whitespace c ≡ false

trim_start-Started : (t : Text) → Started (trim_start t)
unfolding trim_start
trim_start-Started [] = tt
trim_start-Started (c ∷ t) = elim (Bool-cases (is_whitespace c)) [
  | inl w ↦ rw (w, trim_start) (trim_start-Started t)
  | inr w ↦ rw (w, trim_start) w
]

trim_start_of_Started : (t : Text) → Started t → trim_start t ≡ t
unfolding trim_start
trim_start_of_Started [] h = refl
trim_start_of_Started (c ∷ t) h = rw (h, trim_start) refl

trim_start-split : (t : Text) → (ws : Text) × (t ≡ ws ++ trim_start t)
unfolding trim_start
trim_start-split [] = ([], refl)
trim_start-split (c ∷ t) = elim (Bool-cases (is_whitespace c)) [
  | inl w ↦ let (ws, e) = trim_start-split t in (c ∷ ws, rw (w, trim_start) (ap (◌∷◌ c) e))
  | inr w ↦ ([], rw (w, trim_start) refl)
]

Started-of_append : (a b : Text) → Started (a ++ b) → Started a
Started-of_append [] b h = tt
Started-of_append (c ∷ a) b h = h

-- The text before a prefix that is dropped, read backwards.
trimmed_Started : (t : Text) → Started (trim t)
unfolding trim
trimmed_Started t =
    let u = trim_start t in
    let (ws, e) = trim_start-split (reverse u) in
    let back : u ≡ trim t ++ reverse ws =
      sym (reverse-reverse u) ∙ ap reverse e ∙ reverse-append ws (trim_start (reverse u)) in
    Started-of_append (trim t) (reverse ws) (subst Started back (trim_start-Started t))

pub trim-trim : (t : Text) → trim (trim t) ≡ trim t
unfolding trim
trim-trim t =
    let v = trim_start (reverse (trim_start t)) in
    ap (λ x. reverse (trim_start (reverse x))) (trim_start_of_Started (trim t) (trimmed_Started t))
    ∙ ap (λ x. reverse (trim_start x)) (reverse-reverse v)
    ∙ ap reverse (trim_start_of_Started v (trim_start-Started (reverse (trim_start t))))
