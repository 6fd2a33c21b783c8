-- ===== src/Search/Script.antt =====
-- The built-in functions of the script language that docs/html/search/search.js calls, over code
-- units. Letters beyond ASCII have a case in the language and none here.
pub mod Escape
use blink_db.Base.{
  ℕ, zero, suc, ◌+◌, ◌-◌, ◌*◌, ◌/◌, ◌%◌, [], ◌∷◌, ◌++◌, map, Option, none, some, Bool, true, false,
  ◌&&◌, ◌||◌, ◌≡◌, refl, Text, codes, ltb, leb, ◌==◌, if◌then◌else◌, length, starts_with,
}

abbrev pub is_digit : ℕ → Bool
is_digit c = leb b'0' c && leb c b'9'

unfoldable pub lower_unit : ℕ → ℕ
lower_unit c = if leb b'A' c && leb c b'Z' then c + 32 else c

-- `s.toLowerCase()`, exact on ASCII texts.
abbrev pub to_lower_case : Text → Text
to_lower_case = map lower_unit

-- `s.replace(/^ +/, "")`
unfoldable pub strip_leading : Text → Text
strip_leading [] = []
strip_leading (c ∷ s) = if c == b' ' then strip_leading s else c ∷ s

-- `s.replace(/ +$/, "")`: a space goes if nothing but spaces follows.
unfoldable pub strip_trailing : Text → Text
strip_trailing [] = []
strip_trailing (c ∷ s) = elim (strip_trailing s) [
  | [] ↦ if c == b' ' then [] else c ∷ []
  | d ∷ r ↦ c ∷ d ∷ r
]

-- `s.replace(/ +/g, "")`
unfoldable pub strip_all : Text → Text
strip_all [] = []
strip_all (c ∷ s) = if c == b' ' then strip_all s else c ∷ strip_all s

-- `hay.indexOf(needle)`: `none` for -1.
unfoldable pub index_of : Text → Text → Option ℕ
index_of needle [] = elim needle [ [] ↦ some 0 | c ∷ s ↦ none ]
index_of needle (c ∷ hay) =
    if starts_with needle (c ∷ hay)
    then some 0
    else elim (index_of needle hay) [ none ↦ none | some i ↦ some (suc i) ]

-- The units that `escape` keeps: letters, digits and `@*_+-./`.
unfoldable pub is_kept : ℕ → Bool
is_kept c =
    (leb b'A' c && leb c b'Z')
    || (leb b'a' c && leb c b'z')
    || is_digit c
    || (c == b'@')
    || (c == b'*')
    || (c == b'_')
    || (c == b'+')
    || (c == b'-')
    || (c == b'.')
    || (c == b'/')

unfoldable pub upper_digit : ℕ → ℕ
upper_digit n = if ltb n 10 then b'0' + n else b'A' + n - 10

unfoldable pub escape_unit : ℕ → Text
escape_unit c =
    if is_kept c
    then c ∷ []
    else if ltb c 256
    then b'%' ∷ upper_digit (c / 16) ∷ upper_digit (c % 16) ∷ []
    else b'%'
      ∷ b'u'
      ∷ upper_digit (c / 4096)
      ∷ upper_digit (c / 256 % 16)
      ∷ upper_digit (c / 16 % 16)
      ∷ upper_digit (c % 16)
      ∷ []

-- `escape(s)`
unfoldable pub escape : Text → Text
escape [] = []
escape (c ∷ s) = escape_unit c ++ escape s

-- The value of a digit, in either case.
unfoldable pub digit_value : ℕ → Option ℕ
digit_value c =
    if is_digit c
    then some (c - b'0')
    else if leb b'a' c && leb c b'f'
    then some (c - b'a' + 10)
    else if leb b'A' c && leb c b'F'
    then some (c - b'A' + 10)
    else none

-- The number that two digits spell.
unfoldable pub two_digits : ℕ → ℕ → Option ℕ
two_digits a b = elim (digit_value a) [
  | none ↦ none
  | some x ↦ elim (digit_value b) [ none ↦ none | some y ↦ some (x * 16 + y) ]
]

-- `uXXXX` behind a `%`, and what follows it.
unfoldable pub long_escape : Text → Option (ℕ × Text)
long_escape (u ∷ a ∷ b ∷ c ∷ d ∷ rest) =
    if u == b'u'
    then elim (two_digits a b) [
      | none ↦ none
      | some x ↦ elim (two_digits c d) [ none ↦ none | some y ↦ some (x * 256 + y, rest) ]
    ]
    else none
long_escape _ = none

-- `XX` behind a `%`, and what follows it.
unfoldable pub short_escape : Text → Option (ℕ × Text)
short_escape (a ∷ b ∷ rest) = elim (two_digits a b) [ none ↦ none | some x ↦ some (x, rest) ]
short_escape _ = none

-- The unit that the text `c ∷ s` spells first, and what follows it.
unfoldable pub unescape_unit : ℕ → Text → ℕ × Text
unescape_unit c s =
    if c == b'%'
    then elim (long_escape s) [
      | some r ↦ r
      | none ↦ elim (short_escape s) [ some r ↦ r | none ↦ (c, s) ]
    ]
    else (c, s)

-- A round for each unit of the result, at most as many as there are units in the text.
unfoldable pub unescape_rounds : ℕ → Text → Text
unescape_rounds zero s = []
unescape_rounds (suc n) [] = []
unescape_rounds (suc n) (c ∷ s) = let r = unescape_unit c s in r.0 ∷ unescape_rounds n r.1

-- `unescape(s)`
unfoldable pub unescape : Text → Text
unescape s = unescape_rounds (length s) s

-- What a test of `escape` and `unescape` computes with.
unfoldable pub escapes : Unit {0}
unfolding is_kept upper_digit escape_unit escape digit_value two_digits long_escape short_escape
    unescape_unit unescape_rounds unescape
escapes = tt

unescape_runs : unescape (codes "a%20b%u0041%4%zz") ≡ codes "a bA%4%zz"
unfolding escapes
unescape_runs = refl

escape_runs : escape (codes "a b%") ≡ codes "a%20b%25"
unfolding escapes
escape_runs = refl

strip_runs : strip_leading (strip_trailing (codes "  a b  ")) ≡ codes "a b"
unfolding strip_leading strip_trailing
strip_runs = refl
