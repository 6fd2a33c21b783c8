-- ===== src/Search/Nav.antt =====
-- The keyboard in the list of results, docs/html/search/search.js: `Toggle`, `NavNext`, `NavPrev`,
-- `ProcessKeys`, `Nav` and `NavChild` of `SearchResults`. The link `Item<i>` is that of row i, and
-- `Item<i>_c<j>` is link j among the children of row i.
pub mod Walk
pub mod Keys
use blink_db.Base.{
  ℕ, zero, suc, ◌+◌, ◌-◌, List, [], ◌∷◌, Option, none, some, Bool, true, false, ◌&&◌, not, ltb,
  ◌==◌, if◌then◌else◌, get_elem?, length,
}
use blink_db.Search.Results.{
  Display, unset, block, inline_block, hidden, is_block, Children, Row, Focus, row, child,
  search_field, Results,
}

-- `document.getElementById('Item'+index)` and the display of the row that holds it.
unfoldable pub row_display : List Row → ℕ → Option Display
row_display rows i = elim (get_elem? rows i) [ none ↦ none | some r ↦ some r.display ]

-- The loop of `NavNext(index)`, which ends at the last row at the latest.
unfoldable pub nav_next_rounds : ℕ → List Row → ℕ → Option ℕ
nav_next_rounds zero rows index = none
nav_next_rounds (suc n) rows index =
    let rest = nav_next_rounds n rows (suc index) in
    elim (row_display rows index) [ none ↦ none | some d ↦ if is_block d then some index else rest ]

unfoldable pub nav_next : List Row → ℕ → Option ℕ
nav_next rows index = nav_next_rounds (suc (length rows)) rows index

-- `NavPrev(n - 1)`: the index runs down and -1 has no link.
unfoldable pub nav_prev : List Row → ℕ → Option ℕ
nav_prev rows zero = none
nav_prev rows (suc i) =
    let rest = nav_prev rows i in
    elim (row_display rows i) [ none ↦ none | some d ↦ if is_block d then some i else rest ]

-- `FindChildElement(id)` for the row of an item.
unfoldable pub children_of : List Row → ℕ → Option Children
children_of rows i = elim (get_elem? rows i) [ none ↦ none | some r ↦ r.children ]

-- The number of links `Item<i>_c<j>`.
unfoldable pub child_links : List Row → ℕ → ℕ
child_links rows i = elim (children_of rows i) [ none ↦ 0 | some c ↦ c.links ]

-- `child && child.style.display == 'block'`
unfoldable pub is_open : List Row → ℕ → Bool
is_open rows i = elim (children_of rows i) [ none ↦ false | some c ↦ is_block c.display ]

set_children : Display → Row → Row
set_children d r = elim r.children [
  | none ↦ r
  | some c ↦ record r { children = some (record c { display = d }) }
]

-- `elem.style.display = d` where row i has children.
unfoldable pub show_children : Display → List Row → ℕ → List Row
unfolding set_children
show_children d [] i = []
show_children d (r ∷ rows) zero = set_children d r ∷ rows
show_children d (r ∷ rows) (suc i) = r ∷ show_children d rows i

-- `Toggle(id)` for the id of row i.
unfoldable pub toggle : ℕ → Results → Results
toggle i s = record s { rows = show_children (if is_open s.rows i then hidden else block) s.rows i }

-- Whether an element is on the page: the style sheet hides a row and its children where no display is set.
unfoldable pub is_rendered : Display → Bool
is_rendered unset = false
is_rendered block = true
is_rendered inline_block = true
is_rendered hidden = false

-- Whether `focus()` on the element moves the focus: it does nothing on a link that is not on the page.
unfoldable pub can_focus : List Row → Focus → Bool
can_focus rows search_field = true
can_focus rows (row i) = elim (row_display rows i) [ none ↦ false | some d ↦ is_rendered d ]
can_focus rows (child i c) =
    elim (row_display rows i) [ none ↦ false | some d ↦ is_rendered d ]
    && elim (children_of rows i) [ none ↦ false | some cs ↦ is_rendered cs.display ]

-- `elem.focus()`
unfoldable pub focus_on : Focus → Results → Results
focus_on f s = if can_focus s.rows f then record s { focus = f } else s

pub data KeyEvent : Type 0 where
  key_down : ℕ → KeyEvent
  key_press : ℕ → KeyEvent
  key_up : ℕ → KeyEvent

abbrev pub key_code : KeyEvent → ℕ
key_code (key_down k) = k
key_code (key_press k) = k
key_code (key_up k) = k

-- `ProcessKeys(e)`: the new state, and whether a key is to be handled.
unfoldable pub process_keys : KeyEvent → Results → Results × Bool
process_keys (key_down k) s = (record s { repeat_on = false; last_key = k }, not (k == 0))
process_keys (key_press k) s =
    if not s.repeat_on
    then (record s { repeat_on = if s.last_key == 0 then s.repeat_on else true }, false)
    else (s, not (s.last_key == 0))
process_keys (key_up k) s = (record s { last_key = 0; repeat_on = false }, false)

-- The loop `while (1)` of the Up key: the last link of the children of row `newIndex`, if any.
unfoldable pub last_child : List Row → ℕ → Focus → Focus
last_child rows new_index f =
    let n = child_links rows new_index in if n == 0 then f else child new_index (n - 1)

-- The Up key on row i. The code looks for the children of `itemIndex-1`.
unfoldable pub nav_up : ℕ → Results → Results
nav_up i s = elim (nav_prev s.rows i) [
  | none ↦ focus_on search_field s
  | some j ↦ focus_on (if is_open s.rows j then last_child s.rows (i - 1) (row j) else row j) s
]

-- The Down key on row i.
unfoldable pub nav_down : ℕ → Results → Results
nav_down i s =
    if is_open s.rows i && ltb 0 (child_links s.rows i)
    then focus_on (child i 0) s
    else elim (nav_next s.rows (suc i)) [ none ↦ s | some j ↦ focus_on (row j) s ]

unfoldable pub close_results : Results → Results
close_results s = focus_on search_field (record s { close_called = true })

-- `Nav(evt, itemIndex)`: the new state and what the handler returns.
unfoldable pub nav : KeyEvent → ℕ → Results → Results × Bool
nav e i s =
    if key_code e == 13
    then (s, true)
    else let (t, go) = process_keys e s in
      if not go
      then (t, false)
      else if t.last_key == 38
      then (nav_up i t, false)
      else if t.last_key == 40
      then (nav_down i t, false)
      else if t.last_key == 39
      then (record t { rows = show_children block t.rows i }, false)
      else if t.last_key == 37
      then (record t { rows = show_children hidden t.rows i }, false)
      else if t.last_key == 27
      then (close_results t, false)
      else (t, t.last_key == 13)

-- `NavChild(evt, itemIndex, childIndex)`
unfoldable pub nav_child : KeyEvent → ℕ → ℕ → Results → Results × Bool
nav_child e i c s =
    if key_code e == 13
    then (s, true)
    else let (t, go) = process_keys e s in
      if not go
      then (t, false)
      else if t.last_key == 38
      then (focus_on (if ltb 0 c then child i (c - 1) else row i) t, false)
      else if t.last_key == 40
      then (
        if ltb (suc c) (child_links t.rows i)
            then focus_on (child i (suc c)) t
            else elim (nav_next t.rows (suc i)) [ none ↦ t | some j ↦ focus_on (row j) t ],
        false,
      )
      else if t.last_key == 27
      then (close_results t, false)
      else (t, t.last_key == 13)
