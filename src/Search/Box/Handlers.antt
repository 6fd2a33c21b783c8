-- ===== src/Search/Box/Handlers.antt =====
-- The handlers of `SearchBox` in docs/html/search/search.js.
use blink_db.Base.{
  ℕ, suc, ◌-◌, List, [], ◌∷◌, Option, none, some, Bool, true, false, ◌&&◌, ◌||◌, not, ltb, ◌==◌,
  if◌then◌else◌, text_eq, length,
}
use blink_db.Search.Script.{strip_all}
use blink_db.Search.Results.{block, hidden}
use blink_db.Search.Box.{
  Task, run_search, close_selection, Config, Box, Run, done, ◌>>=◌, set_timeout, clear_timeout,
  activate, search,
}
use blink_db.Search.Box.Position.{select_left, select_top}

unfoldable pub mark_from : ℕ → ℕ → List Bool → List Bool
mark_from id j [] = []
mark_from id j (m ∷ ms) = (j == id) ∷ mark_from id (suc j) ms

-- `SelectItemSet(id)`
unfoldable pub select_item_set : ℕ → Box → Box
select_item_set id s = record s { marks = mark_from id 0 s.marks }

unfoldable pub find_timer : ℕ → List (ℕ × Task) → Option Task
find_timer id [] = none
find_timer id (t ∷ ts) = if t.0 == id then some t.1 else find_timer id ts

-- `CloseSelectionWindow()`
unfoldable pub close_selection_window : Box → Box
close_selection_window s = record s { select_window = hidden }

-- `OnSearchSelectHide()`
unfoldable pub on_search_select_hide : Box → Box
on_search_select_hide s = record (set_timeout close_selection s) { hide_timeout = s.next_timer }

-- The end of `OnSearchFieldChange`, where the value may have changed.
unfoldable pub value_changed : Box → Box
value_changed s =
    let v = strip_all s.field_value in
    if text_eq v s.last_search_value
    then s
    else if text_eq v []
    then record s { popup = hidden; close_button = hidden; last_search_value = [] }
    else record (set_timeout run_search s) { key_timeout = s.next_timer }

-- Its start, which stops a timer that is running.
unfoldable pub stop_key_timer : Box → Box
stop_key_timer s =
    if s.key_timeout == 0 then s else record (clear_timeout s.key_timeout s) { key_timeout = 0 }

module _ (cfg : Config) where
  -- `DOMSearchField().focus()` and `.blur()`: the browser calls the field's own handler, which is
  -- `OnSearchFieldFocus`.
  unfoldable pub focus_field : Box → Box
  focus_field s =
      if s.field_focused then s else activate cfg true (record s { field_focused = true })

  unfoldable pub blur_field : Box → Box
  blur_field s =
      if s.field_focused then activate cfg false (record s { field_focused = false }) else s

  -- `OnSearchSelectShow()`
  unfoldable pub on_search_select_show : Box → Box
  on_search_select_show s =
      let t = record s {
        select_window = block;
        select_place = (
          select_left cfg.inside_frame cfg.select_offsets cfg.select_offset_width,
          select_top cfg.select_offsets,
        );
      } in
      if t.hide_timeout == 0
      then t
      else record (clear_timeout t.hide_timeout t) { hide_timeout = 0 }

  -- `CloseResultsWindow()`
  unfoldable pub close_results_window : Box → Box
  close_results_window s = activate cfg false (record s { popup = hidden; close_button = hidden })

  -- The Escape key in the search field.
  unfoldable pub escape_field : Box → Box
  escape_field s =
      activate cfg false
        (record (blur_field s) { popup = hidden; close_button = hidden; last_search_value = [] })

  -- The loop that gives the first item of the selection the focus, which the field loses.
  unfoldable pub focus_first_item : Box → Box
  focus_first_item s =
      if length s.marks == 0 then s else record (blur_field s) { first_item_focused = true }

  -- `OnSearchFieldChange(evt)` at a key code, with or without Shift.
  unfoldable pub on_search_field_change : ℕ → Bool → Box → Box
  on_search_field_change key shift s =
      let t = stop_key_timer s in
      if (key == 40) || (key == 13)
      then (if shift
          then focus_first_item (on_search_select_show t)
          else value_changed (record t { messages = suc t.messages }))
      else if key == 27
      then escape_field t
      else value_changed t

  -- `OnSelectItem(id)`
  unfoldable pub on_select_item : ℕ → Box → Run
  on_select_item id s =
      let t = select_item_set id (record s { search_index = id }) in
      if not (text_eq (strip_all t.field_value) []) && t.search_active then search cfg t else done t

  -- Enter or Escape in the selection.
  unfoldable pub leave_selection : Box → Run
  leave_selection s =
      on_select_item s.search_index s >>= λ t. done (focus_field (close_selection_window t))

  -- `OnSearchSelectKey(evt)` at a key code.
  unfoldable pub on_search_select_key : ℕ → Box → Run
  on_search_select_key key s =
      if (key == 40) && ltb s.search_index (length s.marks)
      then on_select_item (suc s.search_index) s
      else if (key == 38) && ltb 0 s.search_index
      then on_select_item (s.search_index - 1) s
      else if (key == 13) || (key == 27)
      then leave_selection s
      else done s

  unfoldable pub run_task : Task → Box → Run
  run_task run_search s = search cfg s
  run_task close_selection s = done (close_selection_window s)

  -- The window runs the timer with this number, if it is pending.
  unfoldable pub fire : ℕ → Box → Run
  fire id s = elim (find_timer id s.timers) [
    | none ↦ done s
    | some task ↦ run_task task (clear_timeout id s)
  ]
