-- ===== src/Protocol/Commands/Words.antt =====
-- The words of a line, as lib/client.h reads them.
use blink_db.Base.{
  ℕ, ◌<◌, List, [], ◌∷◌, ◌++◌, Bool, true, false, ◌&&◌, not, ◌≡◌, refl, ap, arith, Text, codes,
  ◌==◌, all, length,
}
use blink_db.Protocol.Strings.{is_space, push_word, split_words, words, c_str}

-- A byte that is neither a space nor the end of a C string.
abbrev pub is_solid : ℕ → Bool
is_solid c = not (is_space c) && not (c == 0)

-- A text that is a word of a line, and the same as a C string.
abbrev pub IsWord : Text → Type 0
IsWord s = (all is_solid s ≡ true) × (0 < length s)

split-word : (w s : Text) → all is_solid w ≡ true → split_words (w ++ (32 ∷ s)) ≡ (w, words s)
unfolding split_words words
split-word [] s h = refl
split-word (c ∷ w) s h =
    let solid : is_space c ≡ false = ground (arith, h) in
    let rest : all is_solid w ≡ true = ground (arith, h) in
    rw (split_words, solid, split-word w s rest) refl

split-last : (w : Text) → all is_solid w ≡ true → split_words w ≡ (w, [])
unfolding split_words
split-last [] h = refl
split-last (c ∷ w) h =
    let solid : is_space c ≡ false = ground (arith, h) in
    let rest : all is_solid w ≡ true = ground (arith, h) in
    rw (split_words, solid, split-last w rest) refl

push_word-IsWord : (w : Text) (others : List Text) → IsWord w → push_word w others ≡ w ∷ others
push_word-IsWord [] others h = absurd (omega (arith, h.1))
push_word-IsWord (c ∷ w) others h = refl

pub words-word : (w s : Text) → IsWord w → words (w ++ (codes " " ++ s)) ≡ w ∷ words s
unfolding words
words-word w s h = rw (split-word w s h.0) (push_word-IsWord w (words s) h)

pub words_last : (w : Text) → IsWord w → words w ≡ w ∷ []
unfolding words
words_last w h = rw (split-last w h.0) (push_word-IsWord w [] h)

pub c_str-solid : (w : Text) → all is_solid w ≡ true → c_str w ≡ w
unfolding c_str
c_str-solid [] h = refl
c_str-solid (c ∷ w) h =
    let some_char : (c == 0) ≡ false = ground (arith, h) in
    rw some_char (ap (λ s. c ∷ s) (c_str-solid w (ground (arith, h))))
