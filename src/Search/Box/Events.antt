-- ===== src/Search/Box/Events.antt =====
-- What happens to the panel of `SearchBox`, in any order, and the invariant of its state.
use blink_db.Base.{
  ℕ, ◌≤◌, ◌<◌, List, [], ◌∷◌, some, Bool, true, ◌≡◌, ◌≢◌, Text, length, ◌⊎◌, if◌then◌else◌, ltb,
}
use blink_db.Search.Box.{run_search, Config, Box, Run, done, type_error}
use blink_db.Search.Box.Handlers.{
  find_timer, on_search_select_hide, focus_field, blur_field, on_search_select_show,
  close_results_window, on_search_field_change, on_select_item, on_search_select_key, fire,
}

-- What the user and the window do: the focus comes to the search field or leaves it, the pointer comes
-- to the selection or leaves it, the text of the field is edited, a key goes up in the field, an item
-- is clicked, a key goes down in the selection, the close button is clicked, a timer runs out.
pub data Event : Type 0 where
  focus blur point leave close : Event
  edit : Text → Event
  key : ℕ → Bool → Event
  item : ℕ → Event
  select_key : ℕ → Event
  timeout : ℕ → Event

unfoldable pub handle : Config → Event → Box → Run
handle cfg focus s = done (focus_field cfg s)
handle cfg blur s = done (blur_field cfg s)
handle cfg point s = done (on_search_select_show cfg s)
handle cfg leave s = done (on_search_select_hide s)
handle cfg close s = done (close_results_window cfg s)
handle cfg (edit text) s = done (record s { field_value = text })
handle cfg (key code shift) s = done (on_search_field_change cfg code shift s)
handle cfg (item id) s = if ltb id (length s.marks) then on_select_item cfg id s else done s
handle cfg (select_key code) s = on_search_select_key cfg code s
handle cfg (timeout id) s = fire cfg id s

-- The state in which a handler leaves the panel, whether or not it ended.
abbrev pub after : Run → Box
after (done s) = s
after (type_error s) = s

unfoldable pub run : Config → List Event → Box → Box
run cfg [] s = s
run cfg (e ∷ es) s = run cfg es (after (handle cfg e s))

-- The key timer that is remembered is pending and runs a search; only its number is remembered; the
-- selected section is an item or the place behind the last; a search is active only while the box is.
pub record IsValid (s : Box) : Type 0 where
  pub pending : (s.key_timeout ≡ 0) ⊎ (find_timer s.key_timeout s.timers ≡ some run_search)
  pub key_old : s.key_timeout < s.next_timer
  pub hide_old : s.hide_timeout < s.next_timer
  pub apart : (s.key_timeout ≡ 0) ⊎ (s.hide_timeout ≢ s.key_timeout)
  pub index : s.search_index ≤ length s.marks
  pub active : s.search_active ≡ true → s.box_active ≡ true
