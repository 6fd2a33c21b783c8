-- ===== src/Search/Box/Leak.antt =====
-- The key timer in `OnSelectItem` and `Search` of docs/html/search/search.js.
use blink_db.Base.{
  ℕ, [], some, Bool, true, false, ◌≡◌, ◌∙◌, arith, Text, ◌==◌, get_elem?, if◌then◌else◌, ◌&&◌, not,
  text_eq,
}
use blink_db.Search.Script.{strip_all}
use blink_db.Search.Box.{run_search, Config, Box, Run, done}
use blink_db.Search.Box.Page.{search-IsSearched}
use blink_db.Search.Box.Handlers.{select_item_set, find_timer, stop_key_timer, on_select_item}

if_true : {b : Bool} {x : Run} (y : Run) → b ≡ true → (if b then x else y) ≡ x
if_true y e = rw e

stop_key_timer_none : (t : Box) → t.key_timeout ≡ 0 → stop_key_timer t ≡ t
unfolding stop_key_timer
stop_key_timer_none t e = let off : (t.key_timeout == 0) ≡ true = ground arith in rw off

-- A click on an item of the selection while a search waits for the key timer, with an active search, a
-- field that is not blank and a section for the item: the search is made at once, and the timer is
-- forgotten but still pending, so that the next key in the field does not stop it.
pub select_item_leaks :
    (cfg : Config) (id : ℕ) (s : Box) (content : Text)
    → get_elem? cfg.contents id ≡ some content
    → text_eq (strip_all s.field_value) [] ≡ false
    → s.search_active ≡ true
    → find_timer s.key_timeout s.timers ≡ some run_search
    → (t : Box) × (on_select_item cfg id s ≡ done t)
      × (find_timer s.key_timeout t.timers ≡ some run_search)
      × (stop_key_timer t ≡ t)
unfolding on_select_item select_item_set
select_item_leaks cfg id s content at text active waits =
    let started = select_item_set id (record s { search_index = id }) in
    let (t, ends, searched) = search-IsSearched cfg started content at in
    let asked : not (text_eq (strip_all s.field_value) []) && s.search_active ≡ true =
      ground arith in
    (
      t,
      if_true (done started) asked ∙ ends,
      rw searched.kept.2 waits,
      stop_key_timer_none t searched.timer,
    )
