-- ===== src/Search/Box/Reset.antt =====
-- Escape in the search field, the close button, and the keys of the selection.
use blink_db.Base.{
  ℕ, zero, suc, sym, ◌∙◌, ◌≤◌, ◌+◌, List, [], ◌∷◌, none, Bool, true, false, ◌≡◌, refl, arith, Text,
  ◌==◌, lt→ltb, length, Bool-cases, inl, inr, get_elem?, text_eq, ◌≢◌, ap, All,
}
use blink_db.Search.Script.{strip_all}
use blink_db.Search.Results.{hidden}
use blink_db.Search.Box.{
  Config, Box, type_error, activate, Task, remove_timer, clear_timeout, search,
}
use blink_db.Search.Box.Handlers.{
  blur_field, stop_key_timer, escape_field, on_search_field_change, close_results_window,
  on_select_item, on_search_select_key, select_item_set, mark_from, find_timer,
}

-- The panel as it is before anything is typed.
pub record IsReset (cfg : Config) (s : Box) : Type 0 where
  pub popup : s.popup ≡ hidden
  pub close_button : s.close_button ≡ hidden
  pub inactive : s.box_active ≡ false
  pub label : s.field_value ≡ cfg.label
  pub no_search : s.search_active ≡ false
  pub no_value : s.last_search_value ≡ []
  pub no_page : s.last_results_page ≡ []

-- The close button puts the panel back.
close_results_window-IsReset : (cfg : Config) (s : Box) → IsReset cfg (close_results_window cfg s)
unfolding close_results_window activate
close_results_window-IsReset cfg s = ground arith

escape_field-IsReset : (cfg : Config) (s : Box) → IsReset cfg (escape_field cfg s)
unfolding escape_field activate
escape_field-IsReset cfg s = ground arith

escape_field-timers :
    (cfg : Config) (s : Box)
    → ((escape_field cfg s).key_timeout ≡ s.key_timeout) × ((escape_field cfg s).timers ≡ s.timers)
unfolding escape_field blur_field activate
escape_field-timers cfg s = ground arith

find_timer-remove_timer :
    (id : ℕ) (ts : List (ℕ × Task)) → find_timer id (remove_timer id ts) ≡ none
unfolding find_timer remove_timer
find_timer-remove_timer id [] = refl
find_timer-remove_timer id (t ∷ ts) = elim (Bool-cases (t.0 == id)) [
  | inl e ↦ rw e (find_timer-remove_timer id ts)
  | inr e ↦ rw (e, e) (find_timer-remove_timer id ts)
]

stop_key_timer_lem :
    (s : Box)
    → ((stop_key_timer s).key_timeout ≡ 0)
      × (s.key_timeout ≢ 0 → find_timer s.key_timeout (stop_key_timer s).timers ≡ none)
unfolding stop_key_timer clear_timeout
stop_key_timer_lem s = elim (Bool-cases (s.key_timeout == 0)) [
  | inl e ↦ rw e (ground arith, λ h. absurd (ground arith))
  | inr e ↦ rw e (refl, λ h. find_timer-remove_timer s.key_timeout s.timers)
]

-- Escape in the search field puts the panel back, from any state and with or without Shift, and a
-- search that waited for the key timer does not wait any more.
pub escape-IsReset :
    (cfg : Config) (s : Box) (shift : Bool)
    → let t = on_search_field_change cfg 27 shift s in
      IsReset cfg t
      × (t.key_timeout ≡ 0)
      × (s.key_timeout ≢ 0 → find_timer s.key_timeout t.timers ≡ none)
unfolding on_search_field_change
escape-IsReset cfg s shift =
    let (kept, timers) = escape_field-timers cfg (stop_key_timer s) in
    let (none_left, gone) = stop_key_timer_lem s in
    (escape_field-IsReset cfg (stop_key_timer s), kept ∙ none_left, λ h. rw timers (gone h))

no_mark :
    (ms : List Bool) (id j : ℕ) → id ≡ j + length ms → All (λ m. m ≡ false) (mark_from id j ms)
unfolding mark_from
no_mark [] id j h = tt
no_mark (m ∷ ms) id j h = (ground arith, no_mark ms id (suc j) (omega arith))

length-mark_from : (ms : List Bool) (id j : ℕ) → length (mark_from id j ms) ≡ length ms
unfolding mark_from
length-mark_from [] id j = refl
length-mark_from (m ∷ ms) id j = ap suc (length-mark_from ms id (suc j))

get_elem?_end : (xs : List Text) (i : ℕ) → length xs ≤ i → get_elem? xs i ≡ none
get_elem?_end [] i h = refl
get_elem?_end (x ∷ xs) zero h = absurd (omega arith)
get_elem?_end (x ∷ xs) (suc i) h = get_elem?_end xs i (omega arith)

text_eq-nil : (t : Text) → t ≢ [] → text_eq t [] ≡ false
text_eq-nil [] h = absurd (h refl)
text_eq-nil (c ∷ t) h = refl

-- Down on the last item of the selection leads past the end: no item has the mark any more, and if
-- the search is active and the field is not blank, the handler stops at a `TypeError`, as there is
-- no section of that number.
pub down_past_end :
    (cfg : Config) (s : Box)
    → suc s.search_index ≡ length s.marks
    → length cfg.contents ≡ length s.marks
    → strip_all s.field_value ≢ []
    → s.search_active ≡ true
    → (t : Box) × (on_search_select_key cfg 40 s ≡ type_error t)
      × (t.search_index ≡ length t.marks)
      × All (λ m. m ≡ false) t.marks
unfolding on_search_select_key on_select_item select_item_set search
down_past_end cfg s last sections text active =
    let here = lt→ltb s.search_index (length s.marks) (omega arith) in
    let out = get_elem?_end cfg.contents (suc s.search_index) (omega arith) in
    let filled : text_eq (strip_all s.field_value) [] ≡ false = text_eq-nil _ text in
    (
      record s {
        key_timeout = 0;
        search_index = suc s.search_index;
        marks = mark_from (suc s.search_index) 0 s.marks;
      },
      rw (here, filled, active, search, out) (rw active),
      last ∙ sym (length-mark_from s.marks (suc s.search_index) 0),
      no_mark s.marks (suc s.search_index) 0 (omega arith),
    )
