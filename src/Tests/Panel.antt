-- ===== src/Tests/Panel.antt =====
-- The theorems about the search panel, at concrete states.
use blink_db.Base.{
  pos, ℕ, [], ◌∷◌, some, none, true, false, ◌≡◌, ◌≢◌, refl, arith, Text, codes, All, length, inr,
}
use blink_db.Search.Script.{strip_all, index_of}
use blink_db.Search.Results.{unset}
use blink_db.Search.Box.{run_search, Config, Box, done, type_error, unplaced}
use blink_db.Search.Box.Handlers.{
  find_timer, on_search_field_change, on_search_select_key, on_select_item, stop_key_timer,
}
use blink_db.Search.Box.Reset.{IsReset, escape-IsReset, down_past_end}
use blink_db.Search.Box.Page.{page_name-injective}
use blink_db.Search.Box.Events.{edit, key, item, timeout, run, IsValid}
use blink_db.Search.Box.Timers.{run-IsValid}
use blink_db.Search.Box.Leak.{select_item_leaks}
use blink_db.Index.Tables.{index_sections_with_content, index_section_names}

-- The panel of the pages of the documentation.
abbrev pub panel_config : Config
panel_config = record {
  results_path = codes "search";
  inside_frame = false;
  label = codes "Search";
  extension = codes ".html";
  contents = index_sections_with_content;
  section_names = index_section_names;
  field_offsets = [];
  select_offsets = [];
  box_offsets = [];
  popup_offset_width = 300;
  select_offset_width = 100;
  client_width = 800;
}

-- The panel with an active search for a text that was typed, waiting for timer 1.
abbrev pub typed : Text → Box
typed text = record {
  key_timeout = 1;
  hide_timeout = 0;
  last_search_value = [];
  last_results_page = [];
  search_index = 0;
  search_active = true;
  field_value = text;
  field_focused = true;
  box_active = true;
  popup = unset;
  popup_place = unplaced;
  close_button = unset;
  select_window = unset;
  select_place = (pos 0, 0);
  marks = true ∷ false ∷ false ∷ false ∷ false ∷ false ∷ [];
  frame_location = [];
  messages = 0;
  first_item_focused = false;
  next_timer = 2;
  timers = (1, run_search) ∷ [];
}

timer_1 : find_timer 1 (typed (codes "set")).timers ≡ some run_search
unfolding find_timer
timer_1 = refl

escape-IsReset_example :
    let t = on_search_field_change panel_config 27 false (typed (codes "set")) in
    IsReset panel_config t × (t.key_timeout ≡ 0) × (◌≢◌ {A = ℕ} 1 0 → find_timer 1 t.timers ≡ none)
escape-IsReset_example = escape-IsReset panel_config (typed (codes "set")) false

-- The last of the six sections is selected.
abbrev at_macros : Box
at_macros = record (typed (codes "set")) { search_index = 5 }

set_text : strip_all at_macros.field_value ≡ codes "set"
unfolding strip_all
set_text = refl

down_past_end_example :
    (t : Box) × (on_search_select_key panel_config 40 at_macros ≡ type_error t)
    × (t.search_index ≡ length t.marks)
    × All (λ m. m ≡ false) t.marks
down_past_end_example =
    down_past_end panel_config at_macros (omega arith) (omega arith) (λ e. cc (set_text, e)) refl

b_at : (index_of (b'b' ∷ []) (codes "bcdlnpst") ≡ some 0)
unfolding index_of
b_at = refl

page_name-injective_example : ◌≡◌ {A = ℕ} b'b' b'b'
page_name-injective_example =
    page_name-injective panel_config 1 (codes "bcdlnpst") b'b' b'b' 0 0 (omega arith) b_at b_at refl

typed-IsValid : IsValid (typed (codes "set"))
typed-IsValid = record {
  pending = inr timer_1;
  key_old = omega arith;
  hide_old = omega arith;
  apart = inr (omega arith);
  index = omega arith;
  active = λ e. refl;
}

run-IsValid_example : IsValid (
    run panel_config
      (edit (codes "se") ∷ key 8 false ∷ item 3 ∷ timeout 2 ∷ [])
      (typed (codes "set")))
run-IsValid_example =
    run-IsValid panel_config (edit (codes "se") ∷ key 8 false ∷ item 3 ∷ timeout 2 ∷ [])
      (typed (codes "set")) typed-IsValid

filled : codes "set" ≡ strip_all (codes "set")
unfolding strip_all
filled = refl

select_item_leaks_example :
    (t : Box) × (on_select_item panel_config 1 (typed (codes "set")) ≡ done t)
    × (find_timer 1 t.timers ≡ some run_search)
    × (stop_key_timer t ≡ t)
select_item_leaks_example =
    select_item_leaks panel_config 1 (typed (codes "set")) (codes "bcdlnpst") refl
      (unfold strip_all in refl) refl timer_1
