-- ===== src/Index/Found.antt =====
-- From the text in the search box to the row of an entry on the page that is loaded: the two scripts of
-- docs/html/search/search.js over the tables of docs/html/search.
use blink_db.Base.{starts_with_sound, append_assoc, Bool-cases, inl, inr, length-map, get_elem?-map}
use blink_db.Base.{
  drop-append, ℕ, ◌≤◌, ◌<◌, List, [], ◌∷◌, ◌++◌, some, true, false, ◌≡◌, ◌≢◌, refl, sym, ap, ◌∙◌,
  arith, Text, codes, length, get_elem?, All, all, drop, starts_with, ◌==◌, ltb, if◌then◌else◌,
}
use blink_db.Search.Script.{lower_unit, to_lower_case, strip_leading, strip_trailing, escape}
use blink_db.Search.Ids.{convert_to_id}
use blink_db.Search.Box.Page.{search-IsSearched}
use blink_db.Search.Box
use blink_db.Search.Box.{
  done, page_name, page_with_search, Config, Box, is_high_surrogate, index_char,
}
use blink_db.Search.Build.{Entry, create_results}
use blink_db.Search.Build.Rows.{entry_row, rows_of, rows_of-create_results}
use blink_db.Search.Results.{Results, new_results, search, block}
use blink_db.Search.Results.Found.{
  IsRowOf, IsAscii, lower_unit-IsAscii, entry_id, wanted, search-get_elem?,
}
use blink_db.Index.Tables.{index_sections_with_content, index_pages}
use blink_db.Index.Checked.{is_indexed, all-get_elem?, pages_lookup, sections_lookup, index_ok}

all-IsAscii : (s : Text) → all (λ u. ltb u 128) s ≡ true → All IsAscii s
all-IsAscii [] h = tt
all-IsAscii (c ∷ s) h = (ground arith, all-IsAscii s (ground arith))

-- The number in the id of an entry.
number_of : Entry → Text
number_of d = drop (length (convert_to_id (to_lower_case d.name) ++ b'_' ∷ [])) d.id

is_indexed-IsRowOf :
    (c : ℕ) (d : Entry)
    → is_indexed c d ≡ true
    → IsRowOf d.name (number_of d) (entry_row d)
      × (starts_with (c ∷ []) (to_lower_case d.name) ≡ true)
unfolding is_indexed number_of
is_indexed-IsRowOf c d h =
    let start = convert_to_id (to_lower_case d.name) ++ b'_' ∷ [] in
    let (r, e) = starts_with_sound start d.id (ground arith) in
    let tail : drop (length start) d.id ≡ r = rw e (drop-append start r) in
    (
      record {
        class_name = refl;
        id =
            ap (λ (x : Text). codes "SR_" ++ x)
              (e
                ∙ (append_assoc (convert_to_id (to_lower_case d.name)) (b'_' ∷ []) r
                    ∙ ap (entry_id d.name) (sym tail)));
        ascii = all-IsAscii d.name (ground arith);
        digits = ground arith;
      },
      ground arith,
    )

lower_low : (c : ℕ) → c < 128 → is_high_surrogate c ≡ false
unfolding is_high_surrogate
lower_low c h = ground arith

index_char-cons : (x : ℕ) (w : Text) → IsAscii x → index_char (x ∷ w) ≡ lower_unit x ∷ []
unfolding index_char
index_char-cons x w h = rw (lower_low (lower_unit x) (lower_unit-IsAscii x h))

strip_leading_idem : (s : Text) → strip_leading (strip_leading s) ≡ strip_leading s
unfolding strip_leading
strip_leading_idem [] = refl
strip_leading_idem (c ∷ s) = elim (Bool-cases (c == b' ')) [
  | inl e ↦ rw e (strip_leading_idem s)
  | inr e ↦ rw (e, e)
]

same_head :
    (a c : ℕ) (s low : Text)
    → starts_with (a ∷ s) low ≡ true
    → starts_with (c ∷ []) low ≡ true
    → a ≡ c
same_head a c s [] h k = cc
same_head a c s (y ∷ low) h k = ground arith

-- The first unit of what is looked for is that of the stripped text.
wanted_head :
    (x : ℕ) (w : Text) (c : ℕ) (low : Text)
    → to_lower_case (strip_trailing (x ∷ w)) ≢ []
    → starts_with (to_lower_case (strip_trailing (x ∷ w))) low ≡ true
    → starts_with (c ∷ []) low ≡ true
    → lower_unit x ≡ c
unfolding strip_trailing
wanted_head x w c low h p q = head (strip_trailing w) h p
  where
    cut : Text → Text
    cut r = elim r [ [] ↦ if x == b' ' then [] else x ∷ [] | d ∷ t ↦ x ∷ d ∷ t ]

    head :
        (r : Text)
        → to_lower_case (cut r) ≢ []
        → starts_with (to_lower_case (cut r)) low ≡ true
        → lower_unit x ≡ c
    head [] n m = elim (Bool-cases (x == b' ')) [
      | inl e ↦ absurd ((rw e at n) refl)
      | inr e ↦ same_head (lower_unit x) c [] low (rw e at m) q
    ]
    head (d ∷ t) n m = same_head (lower_unit x) c (to_lower_case (d ∷ t)) low m q

-- The character of the page is the one that the search box looks up.
index_char-wanted :
    (v : Text) (c : ℕ) (low : Text)
    → All IsAscii v
    → to_lower_case (strip_trailing v) ≢ []
    → starts_with (to_lower_case (strip_trailing v)) low ≡ true
    → starts_with (c ∷ []) low ≡ true
    → index_char v ≡ c ∷ []
index_char-wanted [] c low a h p q = absurd (h (unfold strip_trailing in refl))
index_char-wanted (x ∷ w) c low a h p q =
    index_char-cons x w a.0 ∙ ap (λ u. u ∷ []) (wanted_head x w c low h p q)

prefix-length : (s t : Text) → starts_with s t ≡ true → length s ≤ length t
prefix-length [] t h = omega arith
prefix-length (x ∷ s) [] h = cc
prefix-length (x ∷ s) (y ∷ t) h = omega (arith, prefix-length s t (ground arith))

strip_leading-IsAscii : (s : Text) → All IsAscii s → All IsAscii (strip_leading s)
unfolding strip_leading
strip_leading-IsAscii [] h = tt
strip_leading-IsAscii (c ∷ s) h = elim (Bool-cases (c == b' ')) [
  | inl e ↦ rw e (strip_leading-IsAscii s h.1)
  | inr e ↦ rw e h
]

-- The page that shows the list `p`, loaded for the text `v`.
abbrev pub loaded : List Entry → Text → Results
loaded p v = search [] (b'?' ∷ escape v) (new_results (rows_of (create_results p)))

-- Every entry of the generated index is found. Take the entry at place e of the page for the character
-- at place j of section i, and type an ASCII text that, without the spaces around it and in lower case,
-- is not empty and a prefix of the entry's name in lower case. With that section selected, `Search` of
-- the search box ends and loads the j-th page of the section with the text behind its address, and
-- `Search` of that page puts the row of the entry on display.
pub entry_found :
    (cfg : Config) (s : Box) (i j e : ℕ) (content : Text) (pages : List (List Entry)) (c : ℕ)
    (p : List Entry) (d : Entry)
    → cfg.contents ≡ index_sections_with_content
    → s.search_index ≡ i
    → get_elem? index_sections_with_content i ≡ some content
    → get_elem? index_pages i ≡ some pages
    → get_elem? content j ≡ some c
    → get_elem? pages j ≡ some p
    → get_elem? p e ≡ some d
    → All IsAscii s.field_value
    → wanted s.field_value ≢ []
    → starts_with (wanted s.field_value) (to_lower_case d.name) ≡ true
    → (t : Box) × (Box.search cfg s ≡ done t)
      × (t.frame_location ≡ page_name cfg i (some j) ++ b'?' ∷ escape (strip_leading s.field_value))
      × (get_elem? (loaded p (strip_leading s.field_value)).rows e
          ≡ some (record (entry_row d) { display = block }))
entry_found cfg s i j e content pages c p d tables index at_content at_pages at_c at_p at_d ascii
      some_text prefix =
    let v = strip_leading s.field_value in
    let (found, small, fine) =
      pages_lookup content content pages 0 j j c p
        (sections_lookup _ _ i content pages index_ok at_content at_pages) (omega arith) at_c
        at_p in
    let (made, head) = is_indexed-IsRowOf c d (all-get_elem? (is_indexed c) p e fine at_d) in
    let char =
      index_char-wanted v c (to_lower_case d.name) (strip_leading-IsAscii _ ascii) some_text prefix
        head in
    let (t, ends, searched) = search-IsSearched cfg s content (rw (tables, index) at_content) in
    let again : wanted v ≡ wanted s.field_value =
      ap (λ (x : Text). to_lower_case (strip_trailing x)) (strip_leading_idem s.field_value) in
    let short : length (wanted s.field_value) ≤ length d.name =
      rw (length-map lower_unit d.name) at
        (prefix-length (wanted s.field_value) (to_lower_case d.name) prefix) in
    let at_row : get_elem? (rows_of (create_results p)) e ≡ some (entry_row d) =
      rw (rows_of-create_results p) (get_elem?-map entry_row p e at_d) in
    (
      t,
      ends,
      searched.frame ∙ rw (index, char, found) (unfold page_with_search in refl),
      search-get_elem? v d.name (number_of d) (new_results (rows_of (create_results p))) e
            (entry_row d) (strip_leading-IsAscii _ ascii) at_row made (rw again short)
          ∙ rw (again, prefix),
    )
