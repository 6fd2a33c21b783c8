-- ===== src/Protocol/Strings/Numbers.antt =====
-- Numbers in decimal, which lib/client.h writes and lib/server.h reads.
use blink_db.Base.{
  ℕ, zero, suc, ◌+◌, ◌-◌, ◌*◌, ◌/◌, ◌%◌, ◌^◌, ◌≤◌, ◌<◌, [], ◌∷◌, ◌++◌, some, Bool, true, false, ◌≡◌,
  refl, ap, ◌∙◌, arith, Text, ltb, ◌==◌, ==_iff, if◌then◌else◌, all, length, pos, Bool-cases, inl,
  inr,
}
use native.Mathlib.Numerals.{unary_clauses}
use blink_db.Protocol.Strings.{
  crlf, crlf_at, is_digit, is_space, digits, to_string, read_digits, read_number, stoi,
}

if_same : (b : Bool) (s : Text) → (if b then s else s) ≡ s
if_same true s = refl
if_same false s = refl

ten : (k : ℕ) → 10 ^ suc k ≡ 10 ^ k * 10
ten k = simp unary_clauses refl

read_digits-digit :
    (a n : ℕ) (s : Text) → read_digits a ((b'0' + n % 10) ∷ s) ≡ read_digits (a * 10 + n % 10) s
unfolding read_digits
read_digits-digit a n s =
    let digit : is_digit (b'0' + n % 10) ≡ true = ground arith in
    let value : b'0' + n % 10 - b'0' ≡ n % 10 = omega arith in rw (digit, value) refl

-- The text is read behind the digits of n as it is behind n.
read-digits :
    (more n : ℕ) (s : Text)
    → n < 10 ^ suc more
    → read_digits 0 (digits (suc more) n s) ≡ read_digits n s
unfolding digits
read-digits zero n s h =
    let same : 0 * 10 + n % 10 ≡ n = omega (arith, h, ten 0) in
    ap (read_digits 0) (if_same (n / 10 == 0) ((b'0' + n % 10) ∷ s))
    ∙ read_digits-digit 0 n s
    ∙ ap (λ x. read_digits x s) same
read-digits (suc more) n s h = elim (Bool-cases (n / 10 == 0)) [
  | inl last ↦
      let same : 0 * 10 + n % 10 ≡ n = ground (arith, ==_iff (n / 10) 0) in
      rw last (read_digits-digit 0 n s ∙ ap (λ x. read_digits x s) same)
  | inr some_more ↦
      let less : n / 10 < 10 ^ suc more = omega (arith, h, ten (suc more)) in
      let same : (n / 10) * 10 + n % 10 ≡ n = omega arith in
      rw some_more (
        read-digits more (n / 10) ((b'0' + n % 10) ∷ s) less
        ∙ read_digits-digit (n / 10) n s
        ∙ ap (λ x. read_digits x s) same)
]

-- Digits, and at least one.
abbrev Digits : Text → Type 0
Digits s = (all is_digit s ≡ true) × (0 < length s)

digits-Digits : (more n : ℕ) (s : Text) → all is_digit s ≡ true → Digits (digits (suc more) n s)
unfolding digits
digits-Digits zero n s h =
    let digit : is_digit (b'0' + n % 10) ≡ true = ground arith in
    rw (if_same (n / 10 == 0) ((b'0' + n % 10) ∷ s)) (rw digit h, omega arith)
digits-Digits (suc more) n s h =
    let digit : is_digit (b'0' + n % 10) ≡ true = ground arith in
    let here : all is_digit ((b'0' + n % 10) ∷ s) ≡ true = rw digit h in
    elim (Bool-cases (n / 10 == 0)) [
      | inl last ↦ rw last (here, omega arith)
      | inr some_more ↦ rw some_more (digits-Digits more (n / 10) ((b'0' + n % 10) ∷ s) here)
    ]

to_string-Digits : (n : ℕ) → Digits (to_string n)
unfolding to_string
to_string-Digits n = digits-Digits 19 n [] refl

read_digits-to_string : (n : ℕ) → n < 2 ^ 31 → read_digits 0 (to_string n) ≡ n
unfolding to_string
read_digits-to_string n h = read-digits 19 n [] (omega (arith, h)) ∙ (unfold read_digits in refl)

stoi-Digits :
    (s : Text) → Digits s → read_digits 0 s < 2 ^ 31 → stoi s ≡ some (pos (read_digits 0 s))
unfolding stoi read_number
stoi-Digits [] d h = absurd (omega (arith, d.1))
stoi-Digits (c ∷ s) d h =
    let digit : is_digit c ≡ true = ground (arith, d.0) in
    let no_space : is_space c ≡ false = ground arith in
    let no_minus : (c == b'-') ≡ false = ground arith in
    let no_plus : (c == b'+') ≡ false = ground arith in
    let small : ltb (read_digits 0 (c ∷ s)) (2 ^ 31) ≡ true = ground arith in
    rw (no_space, no_minus, no_plus, digit, small) refl

-- The server reads the number that the client wrote.
pub stoi-to_string : (n : ℕ) → n < 2 ^ 31 → stoi (to_string n) ≡ some (pos n)
stoi-to_string n h =
    stoi-Digits (to_string n) (to_string-Digits n) (rw (read_digits-to_string n h) h)
    ∙ ap (λ x. some (pos x)) (read_digits-to_string n h)

-- The first "\r\n" behind a number is the one that is written there.
crlf_at_other :
    (c : ℕ) (s : Text) (n : ℕ)
    → (c == 13) ≡ false
    → crlf_at s ≡ some n
    → crlf_at (c ∷ s) ≡ some (suc n)
unfolding crlf_at
crlf_at_other c [] n h e = cc e
crlf_at_other c (d ∷ s) n h e = rw (h, e) refl

crlf_at-Digits : (s r : Text) → all is_digit s ≡ true → crlf_at (s ++ (crlf ++ r)) ≡ some (length s)
unfolding crlf_at
crlf_at-Digits [] r h = refl
crlf_at-Digits (c ∷ s) r h =
    let other : (c == 13) ≡ false = ground (arith, h) in
    crlf_at_other c (s ++ (crlf ++ r)) (length s) other (crlf_at-Digits s r (ground (arith, h)))

pub crlf_at-to_string :
    (n : ℕ) (r : Text) → crlf_at (to_string n ++ (crlf ++ r)) ≡ some (length (to_string n))
crlf_at-to_string n r = crlf_at-Digits (to_string n) r (to_string-Digits n).0

length-digits : (more n : ℕ) (s : Text) → length (digits more n s) ≤ more + length s
unfolding digits
length-digits zero n s = omega arith
length-digits (suc more) n s = ground (arith, length-digits more (n / 10) ((b'0' + n % 10) ∷ s))

pub length-to_string : (n : ℕ) → length (to_string n) ≤ 20
unfolding to_string
length-to_string n = omega (arith, length-digits 20 n [])
