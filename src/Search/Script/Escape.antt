-- ===== src/Search/Script/Escape.antt =====
-- `escape` and `unescape`, unit by unit.
use blink_db.Base.{
  ℕ, zero, suc, ◌+◌, ◌*◌, ◌/◌, ◌%◌, ◌≤◌, ◌<◌, [], ◌∷◌, ◌++◌, some, ◌≡◌, refl, arith, Text, ◌==◌,
  ltb, ltb→lt, Bool-cases, inl, inr, All, length, true, false, none,
}
use blink_db.Search.Ids.Codes.{IsUnit}
use blink_db.Search.Script.{
  is_kept, upper_digit, escape_unit, escape, digit_value, two_digits, long_escape, short_escape,
  unescape_unit, unescape_rounds, unescape,
}

digit_value-upper_digit : (n : ℕ) → n < 16 → digit_value (upper_digit n) ≡ some n
unfolding digit_value upper_digit
digit_value-upper_digit n h = ground arith

two_digits-upper :
    (a b : ℕ) → a < 16 → b < 16 → two_digits (upper_digit a) (upper_digit b) ≡ some (a * 16 + b)
unfolding two_digits
two_digits-upper a b ha hb =
    rw (digit_value-upper_digit a ha, digit_value-upper_digit b hb, two_digits)

upper_digit-ne-u : (n : ℕ) → n < 16 → (upper_digit n == b'u') ≡ false
unfolding upper_digit
upper_digit-ne-u n h = ground arith

is_kept-percent : (c : ℕ) → is_kept c ≡ true → (c == b'%') ≡ false
unfolding is_kept
is_kept-percent c h = ground arith

long_escape-eq-none : (u : ℕ) (s : Text) → (u == b'u') ≡ false → long_escape (u ∷ s) ≡ none
unfolding long_escape
long_escape-eq-none u [] h = refl
long_escape-eq-none u (a ∷ []) h = refl
long_escape-eq-none u (a ∷ b ∷ []) h = refl
long_escape-eq-none u (a ∷ b ∷ c ∷ []) h = refl
long_escape-eq-none u (a ∷ b ∷ c ∷ d ∷ s) h = rw h

-- Both forms of an escape are read back, whatever follows.
read_short :
    (c : ℕ) (rest : Text)
    → c < 256
    → unescape_unit b'%' (upper_digit (c / 16) ∷ upper_digit (c % 16) ∷ rest) ≡ (c, rest)
unfolding unescape_unit short_escape
read_short c rest h =
    let q : c / 16 < 16 = omega arith in
    let v : c / 16 * 16 + c % 16 ≡ c = omega arith in
    rw (
      long_escape-eq-none _ (upper_digit (c % 16) ∷ rest) (upper_digit-ne-u (c / 16) q),
      two_digits-upper (c / 16) (c % 16) q (omega arith),
      v,
      unescape_unit,
    )

read_long :
    (c : ℕ) (rest : Text)
    → IsUnit c
    → unescape_unit b'%' (
        b'u'
        ∷ upper_digit (c / 4096)
        ∷ upper_digit (c / 256 % 16)
        ∷ upper_digit (c / 16 % 16)
        ∷ upper_digit (c % 16)
        ∷ rest)
      ≡ (c, rest)
unfolding unescape_unit long_escape
read_long c rest h =
    let v : (c / 4096 * 16 + c / 256 % 16) * 256 + (c / 16 % 16 * 16 + c % 16) ≡ c = omega arith in
    rw (
      two_digits-upper (c / 4096) (c / 256 % 16) (omega arith) (omega arith),
      two_digits-upper (c / 16 % 16) (c % 16) (omega arith) (omega arith),
      v,
      unescape_unit,
    )

-- The first unit of an escaped text is read back, whatever follows.
unescape_unit-escape_unit :
    (c : ℕ) (rest : Text)
    → IsUnit c
    → (d : ℕ) × (s : Text) × (escape_unit c ++ rest ≡ d ∷ s) × (unescape_unit d s ≡ (c, rest))
unfolding escape_unit
unescape_unit-escape_unit c rest h = elim (Bool-cases (is_kept c)) [
  | inl k ↦ (c, rest, rw k, unfold unescape_unit in rw (is_kept-percent c k))
  | inr k ↦ elim (Bool-cases (ltb c 256)) [
    | inl low ↦ (b'%', _, rw (k, low), read_short c rest (ltb→lt c 256 low))
    | inr wide ↦ (b'%', _, rw (k, wide), read_long c rest h)
  ]
]

rounds-escape : (s : Text) (n : ℕ) → All IsUnit s → length s ≤ n → unescape_rounds n (escape s) ≡ s
unfolding escape unescape_rounds
rounds-escape [] zero hs h = refl
rounds-escape [] (suc n) hs h = refl
rounds-escape (c ∷ s) zero hs h = absurd (omega arith)
rounds-escape (c ∷ s) (suc n) hs h =
    let (d, r, e, u) = unescape_unit-escape_unit c (escape s) hs.0 in
    rw (e, u, rounds-escape s n hs.1 (omega arith))

le-length-escape : (s : Text) → length s ≤ length (escape s)
unfolding escape escape_unit
le-length-escape [] = omega arith
le-length-escape (c ∷ s) = grind (arith, le-length-escape s)

-- What `escape` wrote, `unescape` reads back, for every string of 16-bit units.
pub unescape-escape : (s : Text) → All IsUnit s → unescape (escape s) ≡ s
unfolding unescape
unescape-escape s h = rounds-escape s (length (escape s)) h (le-length-escape s)
