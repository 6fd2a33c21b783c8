-- ===== src/Protocol/Strings/Parts.antt =====
-- Parts of a text at a position, which lib/server.h reads.
use blink_db.Base.{
  ℕ, ◌+◌, ◌<◌, ◌^◌, List, [], ◌∷◌, ◌++◌, some, false, ◌≡◌, refl, sym, ap, ◌∙◌, arith, Text, ltb,
  length, length-append, take, drop, drop-append, append_assoc,
}
use blink_db.Protocol.Strings.{crlf_at, find_crlf, substr, char_at, wrap}

pub wrap_small : (n : ℕ) → n < 2 ^ 64 → wrap n ≡ n
wrap_small n h = omega (arith, h)

module _ {A : Type 0} where
  pub take-append : (xs ys : List A) → take (length xs) (xs ++ ys) ≡ xs
  take-append [] ys = refl
  take-append (x ∷ xs) ys = ap (λ zs. x ∷ zs) (take-append xs ys)

  -- What stands behind a position.
  abbrev pub At : List A → ℕ → List A → Type 0
  At xs p ys = (before : List A) × (xs ≡ before ++ ys) × (length before ≡ p)

  pub behind :
      (xs : List A) (p : ℕ) (word ys : List A) → At xs p (word ++ ys) → At xs (p + length word) ys
  behind xs p word ys (before, same, at) = (
    before ++ word,
    same ∙ sym (append_assoc before word ys),
    length-append before word ∙ ap (λ n. n + length word) at,
  )

  pub drop-At : (xs : List A) (p : ℕ) (ys : List A) → At xs p ys → drop p xs ≡ ys
  drop-At xs p ys (before, same, at) = rw (same, ← at) (drop-append before ys)

  pub At-le : (xs : List A) (p : ℕ) (ys : List A) → At xs p ys → p + length ys ≡ length xs
  At-le xs p ys (before, same, at) = omega (arith, ap length same, length-append before ys, at)

pub char_at-At : (s : Text) (p c : ℕ) (r : Text) → At s p (c ∷ r) → char_at s p ≡ c
unfolding char_at
char_at-At s p c r at = rw (char_at, drop-At s p (c ∷ r) at) refl

pub find_crlf-At :
    (s : Text) (p n : ℕ) (r : Text) → At s p r → crlf_at r ≡ some n → find_crlf s p ≡ p + n
unfolding find_crlf
find_crlf-At s p n r at there = rw (find_crlf, drop-At s p r at, there) refl

pub substr-At :
    (s : Text) (p : ℕ) (word r : Text) → At s p (word ++ r) → substr s p (length word) ≡ some word
unfolding substr
substr-At s p word r at =
    let inside : ltb (length s) p ≡ false = ground (arith, At-le s p (word ++ r) at) in
    rw (inside, drop-At s p (word ++ r) at, take-append word r) refl
