-- ===== src/Protocol/Strings.antt =====
-- The functions on texts of the language that lib/client.h and lib/server.h call. An exception is `none`.
pub mod Numbers
pub mod Parts
pub mod Lines
use blink_db.Base.{
  ℕ, zero, suc, ◌+◌, ◌-◌, ◌*◌, ◌/◌, ◌%◌, ◌^◌, List, [], ◌∷◌, ◌++◌, map, Option, none, some, Bool,
  true, false, ◌&&◌, ◌||◌, ◌≡◌, refl, Text, codes, ltb, leb, ◌==◌, if◌then◌else◌, length, take,
  drop, ℤ, pos, negsuc, ◌>>=◌,
}

abbrev pub crlf : Text
crlf = 13 ∷ 10 ∷ []

-- `std::string::npos`, a `size_t` as the positions of a text are.
abbrev pub npos : ℕ
npos = 2 ^ 64 - 1

abbrev pub wrap : ℕ → ℕ
wrap n = n % 2 ^ 64

-- An `int` as a `size_t`.
abbrev pub to_size : ℤ → ℕ
to_size (pos n) = n
to_size (negsuc n) = 2 ^ 64 - suc n

-- How far the first "\r\n" is.
unfoldable pub crlf_at : Text → Option ℕ
crlf_at [] = none
crlf_at (c ∷ s) =
    let rest : Option ℕ = elim (crlf_at s) [ none ↦ none | some n ↦ some (suc n) ] in
    elim s [ [] ↦ none | d ∷ r ↦ if (c == 13) && (d == 10) then some 0 else rest ]

-- `s.find("\r\n", pos)`
unfoldable pub find_crlf : Text → ℕ → ℕ
find_crlf s p = elim (crlf_at (drop p s)) [ none ↦ npos | some n ↦ p + n ]

-- `s.substr(pos, n)`
unfoldable pub substr : Text → ℕ → ℕ → Option Text
substr s p n = if ltb (length s) p then none else some (take n (drop p s))

-- `s[pos]`, which is 0 at the end of the text.
unfoldable pub char_at : Text → ℕ → ℕ
char_at s p = elim (drop p s) [ [] ↦ 0 | c ∷ r ↦ c ]

abbrev pub is_digit : ℕ → Bool
is_digit c = leb b'0' c && leb c b'9'

-- `isspace`
abbrev pub is_space : ℕ → Bool
is_space c = (c == 32) || (leb 9 c && leb c 13)

-- A number in decimal, of a `size_t` or an `int` that is not below 0: 20 digits are enough.
unfoldable pub digits : ℕ → ℕ → Text → Text
digits zero n s = s
digits (suc more) n s =
    let rest = digits more (n / 10) ((b'0' + n % 10) ∷ s) in
    if n / 10 == 0 then (b'0' + n % 10) ∷ s else rest

unfoldable pub to_string : ℕ → Text
to_string n = digits 20 n []

unfoldable pub read_digits : ℕ → Text → ℕ
read_digits n [] = n
read_digits n (c ∷ s) =
    let rest = read_digits (n * 10 + (c - b'0')) s in if is_digit c then rest else n

-- The digits of a number behind its sign; there is an exception for no digit and for what is no `int`.
unfoldable pub read_number : Bool → Text → Option ℤ
read_number negative [] = none
read_number negative (c ∷ s) = if is_digit c then signed negative (read_digits 0 (c ∷ s)) else none
  where
    signed : Bool → ℕ → Option ℤ
    signed false n = if ltb n (2 ^ 31) then some (pos n) else none
    signed true zero = some (pos 0)
    signed true (suc n) = if ltb n (2 ^ 31) then some (negsuc n) else none

-- `std::stoi(s)`: what is behind the digits is passed over.
unfoldable pub stoi : Text → Option ℤ
stoi [] = none
stoi (c ∷ s) =
    let rest = stoi s in
    if is_space c
    then rest
    else if c == b'-'
    then read_number true s
    else if c == b'+'
    then read_number false s
    else read_number false (c ∷ s)

-- `toupper` and `tolower` of each byte.
abbrev pub to_upper : Text → Text
to_upper = map (λ c. if leb b'a' c && leb c b'z' then c - 32 else c)

abbrev pub to_lower : Text → Text
to_lower = map (λ c. if leb b'A' c && leb c b'Z' then c + 32 else c)

-- The word before the first space, and the words behind it.
abbrev pub push_word : Text → List Text → List Text
push_word [] others = others
push_word (c ∷ word) others = (c ∷ word) ∷ others

unfoldable pub split_words : Text → Text × List Text
split_words [] = ([], [])
split_words (c ∷ s) =
    let (word, others) = split_words s in
    if is_space c then ([], push_word word others) else (c ∷ word, others)

-- `stream >> token` while there is one.
unfoldable pub words : Text → List Text
words s = let (word, others) = split_words s in push_word word others

-- What is read of a text as a C string.
unfoldable pub c_str : Text → Text
c_str [] = []
c_str (c ∷ s) = if c == 0 then [] else c ∷ c_str s

stoi_runs : stoi (codes " -12\r") ≡ some (negsuc 11)
unfolding stoi read_number read_digits
stoi_runs = refl

words_runs : words (codes " SET  a b") ≡ codes "SET" ∷ codes "a" ∷ codes "b" ∷ []
unfolding words split_words
words_runs = refl
