-- ===== src/Text/Words.antt =====
-- `split_whitespace` undoes `join` by a space.
use flist_walker.Prelude.{
  ◌<◌, ◌≡◌, refl, sym, ap, ◌∙◌, false, List, [], ◌∷◌, ◌++◌, append_assoc, append-nil, arith, length,
  any, All,
}
use flist_walker.Text.{Text, is_whitespace, words_from, split_whitespace, join, flush}
use mathlib.Core.List.{reverse, reverse-append, reverse-reverse}

-- A text that `split_whitespace` keeps whole.
pub record IsWord (w : Text) : Type 0 where
  pub some_char : 0 < length w
  pub no_space : any is_whitespace w ≡ false

words_from-append :
    (w word rest : Text)
    → any is_whitespace w ≡ false
    → words_from word (w ++ rest) ≡ words_from (reverse w ++ word) rest
unfolding words_from
words_from-append [] word rest h = refl
words_from-append (c ∷ w) word rest h =
    let plain : is_whitespace c ≡ false = ground arith in
    let later : any is_whitespace w ≡ false = ground arith in
    ground (
      arith,
      words_from-append w (c ∷ word) rest later,
      reverse-append (c ∷ []) w,
      append_assoc (reverse w) (c ∷ []) word,
    )

flush_pos : (u : Text) → 0 < length u → flush u ≡ reverse u ∷ []
flush_pos [] h = absurd (omega arith)
flush_pos (c ∷ u) h = refl

pos_of_reverse : (u w : Text) → reverse u ≡ w → 0 < length w → 0 < length u
pos_of_reverse [] w e h = absurd (omega (arith, ap length e))
pos_of_reverse (c ∷ u) w e h = omega arith

-- The word under way, when a separator or the end comes.
flush_word : (w : Text) → 0 < length w → flush (reverse w ++ []) ≡ w ∷ []
flush_word w h =
    let back = reverse-reverse w in
    rw append-nil
      (flush_pos (reverse w) (pos_of_reverse (reverse w) w back h) ∙ ap (λ u. u ∷ []) back)

words_from_word :
    (w rest : Text) → IsWord w → words_from [] (w ++ (b' ' ∷ rest)) ≡ w ∷ words_from [] rest
unfolding words_from
words_from_word w rest h =
    words_from-append w [] (b' ' ∷ rest) h.no_space
    ∙ ap (λ u. u ++ words_from [] rest) (flush_word w h.some_char)

words_from_last : (w : Text) → IsWord w → words_from [] w ≡ w ∷ []
unfolding words_from
words_from_last w h =
    ap (words_from []) (sym (append-nil w))
    ∙ words_from-append w [] [] h.no_space
    ∙ flush_word w h.some_char

pub split_whitespace-join : (ws : List Text) → All IsWord ws → split_whitespace (join b' ' ws) ≡ ws
unfolding words_from
split_whitespace-join [] h = refl
split_whitespace-join (w ∷ []) h = words_from_last w h.0
split_whitespace-join (w ∷ w' ∷ ws) h =
    words_from_word w (join b' ' (w' ∷ ws)) h.0 ∙ ap (◌∷◌ w) (split_whitespace-join (w' ∷ ws) h.1)
