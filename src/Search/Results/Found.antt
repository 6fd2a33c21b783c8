-- ===== src/Search/Results/Found.antt =====
-- Which rows `Search` shows.
use mathlib.Core.List.{map-append}
use blink_db.Base.{
  ℕ, ◌+◌, ◌/◌, ◌%◌, ◌≤◌, ◌<◌, List, [], ◌∷◌, ◌++◌, map, ◌≡◌, refl, ◌∙◌, inl, inr, true, ◌&&◌, arith,
  Text, codes, leb, ◌==◌, if◌then◌else◌, text_eq, length, take, All, all, starts_with, length-map,
  Bool-cases, ◌↔◌, get_elem?, get_elem?-map, some,
}
use blink_db.Search.Script.{
  lower_unit, to_lower_case, strip_leading, strip_trailing, escape, is_digit,
}
use blink_db.Search.Script.Escape.{unescape-escape}
use blink_db.Search.Ids.{id_of_unit, hex_digit, convert_to_id}
use blink_db.Search.Ids.Codes.{IsUnit, ids, id_shape, convert_to_id-ids, ids-prefix_behind}
use blink_db.Search.Results.{
  Row, Results, block, hidden, is_block, strip_sr, row_match_name, matches_row, show_row,
  counts_row, count_matches, search_id, search,
}

take-eq_starts_with :
    (s t : Text) → (leb (length s) (length t) && text_eq (take (length s) t) s) ≡ starts_with s t
take-eq_starts_with [] t = ground arith
take-eq_starts_with (x ∷ s) [] = ground arith
take-eq_starts_with (x ∷ s) (y ∷ t) = ground (arith, take-eq_starts_with s t)

-- The test of the loop asks for a prefix.
pub matches_row-starts_with :
    (s : Text) (r : Row) → matches_row s r ≡ starts_with s (row_match_name r)
unfolding matches_row
matches_row-starts_with s r = take-eq_starts_with s (row_match_name r)

-- A code unit of an ASCII text.
abbrev pub IsAscii : ℕ → Type 0
IsAscii c = c < 128

IsAscii-IsUnit : (s : Text) → All IsAscii s → All IsUnit s
IsAscii-IsUnit [] h = tt
IsAscii-IsUnit (c ∷ s) h = (omega arith, IsAscii-IsUnit s h.1)

lower_unit_idem : (c : ℕ) → lower_unit (lower_unit c) ≡ lower_unit c
unfolding lower_unit
lower_unit_idem c = ground arith

pub lower_unit-IsAscii : (c : ℕ) → IsAscii c → IsAscii (lower_unit c)
unfolding lower_unit
lower_unit-IsAscii c h = ground arith

pub to_lower_case-IsAscii : (s : Text) → All IsAscii s → All IsAscii (to_lower_case s)
to_lower_case-IsAscii [] h = tt
to_lower_case-IsAscii (c ∷ s) h = (lower_unit-IsAscii c h.0, to_lower_case-IsAscii s h.1)

lower_unit-hex_digit : (n : ℕ) → n < 16 → lower_unit (hex_digit n) ≡ hex_digit n
unfolding lower_unit hex_digit
lower_unit-hex_digit n h = ground arith

lower_unit-underscore : lower_unit b'_' ≡ b'_'
unfolding lower_unit
lower_unit-underscore = refl

-- The id of a unit in lower case is in lower case.
lower-id_of_unit :
    (c : ℕ) → IsAscii c → lower_unit c ≡ c → to_lower_case (id_of_unit c) ≡ id_of_unit c
lower-id_of_unit c h e = elim (id_shape c (omega arith)) [
  | inl (f, _) ↦ rw (f, e)
  | inr (f, _, _) ↦ rw (
    f,
    lower_unit-underscore,
    lower_unit-hex_digit (c / 16) (omega arith),
    lower_unit-hex_digit (c % 16) (omega arith),
  )
]

lower-ids :
    (s : Text) → All IsAscii s → to_lower_case (ids (to_lower_case s)) ≡ ids (to_lower_case s)
lower-ids [] h = refl
lower-ids (c ∷ s) h = rw (
  map-append,
  lower-id_of_unit (lower_unit c) (lower_unit-IsAscii c h.0) (lower_unit_idem c),
  lower-ids s h.1,
)

lower-digits : (n : Text) → all is_digit n ≡ true → to_lower_case n ≡ n
unfolding lower_unit
lower-digits [] h = refl
lower-digits (c ∷ n) h = ground (arith, lower-digits n)

-- The id that the generated index gives to the entry with this name and number.
abbrev pub entry_id : Text → Text → Text
entry_id name number = convert_to_id (to_lower_case name) ++ b'_' ∷ number

-- The row that `createResults` makes for that entry.
pub record IsRowOf (name number : Text) (r : Row) : Type 0 where
  pub class_name : r.class_name ≡ codes "SRResult"
  pub id : r.id ≡ codes "SR_" ++ entry_id name number
  pub ascii : All IsAscii name
  pub digits : all is_digit number ≡ true

strip_sr-lower : (x : Text) → strip_sr (to_lower_case (codes "SR_" ++ x)) ≡ to_lower_case x
unfolding strip_sr lower_unit
strip_sr-lower x = refl

row_match_name-entry :
    (name number : Text) (r : Row)
    → IsRowOf name number r
    → row_match_name r ≡ ids (to_lower_case name) ++ b'_' ∷ number
unfolding row_match_name
row_match_name-entry name number r h = rw (
  h.id,
  strip_sr-lower,
  convert_to_id-ids,
  map-append,
  lower-ids name h.ascii,
  lower_unit-underscore,
  lower-digits number h.digits,
)

-- What the user typed, as the loop looks for it.
abbrev pub wanted : Text → Text
wanted v = to_lower_case (strip_trailing (strip_leading v))

strip_leading-IsAscii : (s : Text) → All IsAscii s → All IsAscii (strip_leading s)
unfolding strip_leading
strip_leading-IsAscii [] h = tt
strip_leading-IsAscii (c ∷ s) h = elim (Bool-cases (c == b' ')) [
  | inl e ↦ rw e (strip_leading-IsAscii s h.1)
  | inr e ↦ rw e h
]

strip_trailing-IsAscii : (s : Text) → All IsAscii s → All IsAscii (strip_trailing s)
unfolding strip_trailing
strip_trailing-IsAscii [] h = tt
strip_trailing-IsAscii (c ∷ s) h = keep (strip_trailing s) (strip_trailing-IsAscii s h.1)
  where
    keep :
        (r : Text)
        → All IsAscii r
        → All IsAscii (elim r [ [] ↦ if c == b' ' then [] else c ∷ [] | d ∷ r ↦ c ∷ d ∷ r ])
    keep [] k = elim (Bool-cases (c == b' ')) [ inl e ↦ rw e tt | inr e ↦ rw e (h.0, tt) ]
    keep (d ∷ r) k = (h.0, k)

pub wanted-IsAscii : (v : Text) → All IsAscii v → All IsAscii (wanted v)
wanted-IsAscii v h = to_lower_case-IsAscii _ (strip_trailing-IsAscii _ (strip_leading-IsAscii v h))

-- For an ASCII text `v`, a page that is loaded with `?` and the escaped `v` behind its address looks for
-- the id of `v` without the spaces around it and in lower case.
pub search_id-escape :
    (v : Text) → All IsAscii v → search_id [] (b'?' ∷ escape v) ≡ convert_to_id (wanted v)
unfolding search_id
search_id-escape v h = rw (unescape-escape v (IsAscii-IsUnit v h))

matches_row-entry :
    (p name number : Text) (r : Row)
    → All IsAscii p
    → IsRowOf name number r
    → length p ≤ length name
    → matches_row (convert_to_id p) r ≡ starts_with p (to_lower_case name)
matches_row-entry p name number r hp h le = rw (
  matches_row-starts_with,
  convert_to_id-ids,
  row_match_name-entry name number r h,
  ids-prefix_behind p (to_lower_case name) (b'_' ∷ number) (IsAscii-IsUnit p hp)
      (IsAscii-IsUnit _ (to_lower_case-IsAscii name h.ascii)) (rw (length-map) le),
)

-- A page that is loaded for the ASCII text `v` shows the row of an index entry exactly if `v`,
-- without the spaces around it and in lower case, is a prefix of the entry's name in lower case,
-- and hides it otherwise. The text is at most as long as the name.
pub search-get_elem? :
    (v name number : Text) (s : Results) (i : ℕ) (r : Row)
    → All IsAscii v
    → get_elem? s.rows i ≡ some r
    → IsRowOf name number r
    → length (wanted v) ≤ length name
    → get_elem? (search [] (b'?' ∷ escape v) s).rows i
      ≡ some (record r {
        display = if starts_with (wanted v) (to_lower_case name) then block else hidden;
      })
unfolding search show_row
search-get_elem? v name number s i r hv at h le =
    get_elem?-map _ s.rows i at
    ∙ rw (
      search_id-escape v hv,
      matches_row-entry (wanted v) name number r (wanted-IsAscii v hv) h le,
      h.class_name,
    )

-- The rows of the list that are on display.
pub shown : List Row → ℕ
shown [] = 0
shown (r ∷ rows) =
    (if text_eq r.class_name (codes "SRResult") && is_block r.display then 1 else 0) + shown rows

shown-show_row :
    (id : Text) (rows : List Row) → shown (map (show_row id) rows) ≡ count_matches id rows
unfolding shown show_row count_matches counts_row
shown-show_row id [] = refl
shown-show_row id (r ∷ rows) = rw (shown-show_row id rows) (ground arith)

-- Whatever is looked for, `lastMatchCount` is the number of rows on display, the note `NoMatches` is
-- shown exactly if there is none, and the note `Searching` is gone.
pub search_counts :
    (text location : Text) (s : Results)
    → let t = search text location s in
      (t.last_match_count ≡ shown t.rows)
      × ((t.no_matches ≡ block) ↔ (shown t.rows ≡ 0))
      × (t.searching ≡ hidden)
unfolding search
search_counts text location s =
    let id = search_id text location in rw (shown-show_row id s.rows) (refl, ground arith, refl)
