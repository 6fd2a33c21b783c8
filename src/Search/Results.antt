-- ===== src/Search/Results.antt =====
-- The object `SearchResults` of docs/html/search/search.js: its state, the rows of the page that
-- it works on, `Toggle` and `Search`. The rows are those that `createResults` makes.
pub mod Found
use blink_db.Base.{
  ℕ, zero, suc, ◌+◌, List, [], ◌∷◌, ◌++◌, map, Option, none, some, Bool, true, false, ◌&&◌, ◌≡◌,
  refl, Text, codes, leb, ◌==◌, if◌then◌else◌, text_eq, length, take, drop, starts_with,
}
use blink_db.Search.Script.{
  is_digit, to_lower_case, strip_leading, strip_trailing, unescape, escapes,
}
use blink_db.Search.Ids.{convert_to_id}

-- The values of `style.display` that the scripts write; `unset` where none has been written.
pub data Display : Type 0 where
  unset block inline_block hidden : Display

abbrev pub is_block : Display → Bool
is_block block = true
is_block _ = false

-- The `SRChildren` div of a row with several targets, with the number of its links.
pub record Children : Type 0 where
  pub display : Display
  pub links : ℕ

-- A div of the result list. A row with a single target has no children.
pub record Row : Type 0 where
  pub class_name : Text
  pub id : Text
  pub display : Display
  pub children : Option Children

-- Where the keyboard focus stands: the link of a row, a link among its children, or the search
-- field of the parent page.
pub data Focus : Type 0 where
  row : ℕ → Focus
  child : ℕ → ℕ → Focus
  search_field : Focus

pub record Results : Type 0 where
  pub last_match_count : ℕ
  pub last_key : ℕ
  pub repeat_on : Bool
  pub rows : List Row
  -- the divs `Searching` and `NoMatches`
  pub searching : Display
  pub no_matches : Display
  pub focus : Focus
  -- whether `parent.searchBox.CloseResultsWindow()` was called
  pub close_called : Bool

-- `new SearchResults("…")` on a page with these rows.
abbrev pub new_results : List Row → Results
new_results rows = record {
  last_match_count = 0;
  last_key = 0;
  repeat_on = false;
  rows = rows;
  searching = unset;
  no_matches = unset;
  focus = search_field;
  close_called = false;
}

drop_digits : Text → Text
drop_digits [] = []
drop_digits (c ∷ s) = if is_digit c then drop_digits s else c ∷ s

-- `s.replace(/^sr\d*_/, '')`
unfoldable pub strip_sr : Text → Text
unfolding drop_digits
strip_sr s =
    if starts_with (codes "sr") s
    then elim (drop_digits (drop 2 s)) [ [] ↦ s | c ∷ rest ↦ if c == b'_' then rest else s ]
    else s

unfoldable pub row_match_name : Row → Text
row_match_name r = strip_sr (to_lower_case r.id)

-- The test of the loop: `substr(0, n)` is `take n`.
unfoldable pub matches_row : Text → Row → Bool
matches_row search r =
    let name = row_match_name r in
    leb (length search) (length name) && text_eq (take (length search) name) search

-- One round of the loop: the row, and what it adds to `matches`.
unfoldable pub show_row : Text → Row → Row
show_row search r =
    if text_eq r.class_name (codes "SRResult")
    then record r { display = if matches_row search r then block else hidden }
    else r

unfoldable pub counts_row : Text → Row → ℕ
counts_row search r =
    if text_eq r.class_name (codes "SRResult") && matches_row search r then 1 else 0

unfoldable pub count_matches : Text → List Row → ℕ
count_matches search [] = 0
count_matches search (r ∷ rows) = counts_row search r + count_matches search rows

-- The text that is looked for: `location` is `window.location.search`, which is read where there is
-- no parameter.
unfoldable pub search_id : Text → Text → Text
search_id search location =
    let text : Text = elim search [ [] ↦ unescape (drop 1 location) | c ∷ s ↦ c ∷ s ] in
    convert_to_id (to_lower_case (strip_trailing (strip_leading text)))

-- `Search`, which returns true.
unfoldable pub search : Text → Text → Results → Results
search text location s =
    let id = search_id text location in
    let matches = count_matches id s.rows in
    record s {
      rows = map (show_row id) s.rows;
      searching = hidden;
      no_matches = if matches == 0 then block else hidden;
      last_match_count = matches;
    }
