-- ===== src/Tests/Results.antt =====
-- The theorems about ids, texts, the list of results and its keys, at concrete inputs.
use blink_db.Base.{
  ℕ, ◌≤◌, ◌<◌, [], ◌∷◌, map, some, none, true, false, ◌≡◌, ◌↔◌, refl, arith, codes, ◌==◌,
  if◌then◌else◌, length, starts_with, IsPrefix, get_elem?,
}
use blink_db.Search.Script.{lower_unit, strip_leading, strip_trailing, to_lower_case, escape}
use blink_db.Search.Ids.{convert_to_id}
use blink_db.Search.Ids.Codes.{convert_to_id_prefix}
use blink_db.Search.Results.{
  unset, block, hidden, Row, Results, new_results, search_id, search, row,
}
use blink_db.Search.Results.Found.{
  IsRowOf, wanted, shown, search_id-escape, search-get_elem?, search_counts,
}
use blink_db.Search.Nav.{
  row_display, nav_next, nav_next_rounds, nav_prev, is_open, children_of, child_links, nav, nav_up,
  focus_on, key_down,
}
use blink_db.Search.Nav.Walk.{visible, IsNext, IsPrev, nav_next_lem, nav_prev_lem}
use blink_db.Search.Nav.Keys.{held, handled, handled-held, down_up, nav_up_hidden}
use blink_db.Search.Tree.{Tag, element, nil, cons, find_child_element}
use blink_db.Search.Tree.Walk.{firsts, find_child_element-firsts}
use blink_db.Search.Build.{Entry, create_results, create_element}
use blink_db.Search.Build.Rows.{rows_of, entry_row, rows_of-create_results}

convert_to_id_prefix_example :
    IsPrefix (convert_to_id (codes "set_")) (convert_to_id (codes "set_ip"))
    ↔ IsPrefix (codes "set_") (codes "set_ip")
convert_to_id_prefix_example =
    convert_to_id_prefix (codes "set_") (codes "set_ip") (omega arith) (omega arith)

search_id-escape_example :
    search_id [] (b'?' ∷ escape (codes " Set_ ")) ≡ convert_to_id (wanted (codes " Set_ "))
search_id-escape_example = search_id-escape (codes " Set_ ") (omega arith)

abbrev add_row : Row
add_row = record {
  class_name = codes "SRResult";
  id = codes "SR_add_12";
  display = unset;
  children = none;
}

add_row-IsRowOf : IsRowOf (codes "Add") (codes "12") add_row
unfolding convert_to_id lower_unit
add_row-IsRowOf = record { class_name = refl; id = refl; ascii = omega arith; digits = refl }

wanted_short : length (wanted (codes " AD ")) ≤ 3
unfolding lower_unit strip_leading strip_trailing
wanted_short = omega arith

search-get_elem?_example :
    get_elem? (search [] (b'?' ∷ escape (codes " AD ")) (new_results (add_row ∷ []))).rows 0
    ≡ some (record add_row {
      display =
          if starts_with (wanted (codes " AD ")) (to_lower_case (codes "Add"))
          then block
          else hidden;
    })
search-get_elem?_example =
    search-get_elem? (codes " AD ") (codes "Add") (codes "12") (new_results (add_row ∷ [])) 0
      add_row (omega arith) refl add_row-IsRowOf wanted_short

search_counts_example :
    let t = search (codes "x") [] (new_results (add_row ∷ [])) in
    (t.last_match_count ≡ shown t.rows)
    × ((t.no_matches ≡ block) ↔ (shown t.rows ≡ 0))
    × (t.searching ≡ hidden)
search_counts_example = search_counts (codes "x") [] (new_results (add_row ∷ []))

-- A hidden row with two links between two rows on display, the first with its children unfolded.
abbrev shown_row : Row
shown_row = record add_row { display = block }

abbrev open_row : Row
open_row = record add_row {
  display = block;
  children = some (record { display = block; links = 2 });
}

abbrev hidden_row : Row
hidden_row = record add_row {
  display = hidden;
  children = some (record { display = unset; links = 3 });
}

abbrev page : Results
page = new_results (open_row ∷ hidden_row ∷ shown_row ∷ [])

nav_next_lem_example :
    ((j : ℕ) → nav_next page.rows 1 ≡ some j → IsNext page.rows 1 j)
    × (nav_next page.rows 1 ≡ none → (k : ℕ) → 1 ≤ k → visible page.rows k ≡ false)
nav_next_lem_example = nav_next_lem page.rows 1

nav_prev_lem_example :
    ((j : ℕ) → nav_prev page.rows 2 ≡ some j → IsPrev page.rows 2 j)
    × (nav_prev page.rows 2 ≡ none → (k : ℕ) → k < 2 → visible page.rows k ≡ false)
nav_prev_lem_example = nav_prev_lem page.rows 2 (omega arith)

handled-held_example :
    handled (key_down 40 ∷ held 40 3) page
    ≡ ((if 3 == 0 then 1 else 3), record page { last_key = 0; repeat_on = false })
handled-held_example = handled-held 40 3 page (omega arith)

abbrev plain : Results
plain = new_results (shown_row ∷ hidden_row ∷ shown_row ∷ [])

plain_next : nav_next plain.rows 1 ≡ some 2
unfolding nav_next nav_next_rounds row_display
plain_next = refl

plain_visible : (visible plain.rows 0 ≡ true) × (is_open plain.rows 0 ≡ false)
unfolding visible row_display is_open children_of
plain_visible = (refl, refl)

down_up_example :
    let t = (nav (key_down 40) 0 plain).0 in
    (t.focus ≡ row 2) × ((nav (key_down 38) 2 t).0.focus ≡ row 0)
down_up_example = down_up 0 2 plain plain_visible.0 plain_visible.1 plain_next

page_prev :
    (nav_prev page.rows 2 ≡ some 0) × (is_open page.rows 0 ≡ true) × (child_links page.rows 1 ≡ 3)
unfolding nav_prev row_display is_open children_of child_links
page_prev = (refl, refl, refl)

hidden_there : row_display page.rows 1 ≡ some hidden
unfolding row_display
hidden_there = refl

nav_up_hidden_example :
    (nav_up 2 page ≡ page) × (0 < 1) × (focus_on (row 0) page ≡ record page { focus = row 0 })
nav_up_hidden_example =
    nav_up_hidden 1 0 page (omega arith) hidden_there page_prev.0 page_prev.1
      (omega (arith, page_prev.2))

abbrev div_tag : Tag
div_tag = record (create_element (codes "div")) { class_name = codes "SRChildren" }

find_child_element-firsts_example :
    find_child_element (element div_tag (cons (element div_tag nil) nil))
    ≡ firsts (cons (element div_tag nil) nil)
find_child_element-firsts_example =
    find_child_element-firsts div_tag (cons (element div_tag nil) nil)

abbrev two_targets : Entry
two_targets = record {
  id = codes "set_1";
  name = codes "set";
  target = record { url = codes "a.html"; in_parent = true; scope = codes "A" };
  more = record { url = codes "b.html"; in_parent = false; scope = codes "B" } ∷ [];
}

rows_of-create_results_example :
    rows_of (create_results (two_targets ∷ [])) ≡ map entry_row (two_targets ∷ [])
rows_of-create_results_example = rows_of-create_results (two_targets ∷ [])
