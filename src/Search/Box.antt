-- ===== src/Search/Box.antt =====
-- The object `SearchBox` of docs/html/search/search.js with the elements of the page that it writes
-- and the timers of the window.
pub mod Position
pub mod Handlers
pub mod Reset
pub mod Page
pub mod Events
pub mod Timers
pub mod Leak
use blink_db.Base.{
  ℤ, ℕ, zero, suc, ◌+◌, List, [], ◌∷◌, ◌++◌, Option, none, some, Bool, true, false, ◌&&◌, ◌||◌, not,
  leb, ltb, ◌==◌, if◌then◌else◌, Text, codes, text_eq, length, get_elem?, take,
}
use blink_db.Search.Script.{to_lower_case, strip_leading, index_of, escape, is_digit}
use blink_db.Search.Ids.{to_hex}
use blink_db.Search.Results.{Display, unset, block, inline_block, hidden, is_block}
use Position.{Offset, popup_left, popup_top, popup_width, select_left, select_top}

-- What `setTimeout` is asked to run later.
pub data Task : Type 0 where
  run_search : Task
  close_selection : Task

-- The arguments of `SearchBox`, the three tables of docs/html/search/searchdata.js, and the layout of
-- the page, which the browser computes.
pub record Config : Type 0 where
  pub results_path : Text
  pub inside_frame : Bool
  pub label : Text
  pub extension : Text
  pub contents : List Text
  pub section_names : List Text
  pub field_offsets : List Offset
  pub select_offsets : List Offset
  pub box_offsets : List Offset
  pub popup_offset_width : ℕ
  pub select_offset_width : ℕ
  pub client_width : ℕ

-- `SearchBox(name, resultsPath, inFrame, label, extension)`: the extension is `.html` if none is
-- given.
unfoldable pub default_extension : Text → Text
default_extension extension = elim extension [ [] ↦ codes ".html" | c ∷ s ↦ c ∷ s ]

-- The place of the popup, which `Search` sets when it opens it.
pub data Place : Type 0 where
  unplaced : Place
  relative : ℤ → Place
  absolute : ℤ → ℤ → Place

-- A timeout of 0 is none. `marks` tells for each item of the selection whether its mark is the dot.
pub record Box : Type 0 where
  pub key_timeout : ℕ
  pub hide_timeout : ℕ
  pub last_search_value : Text
  pub last_results_page : Text
  pub search_index : ℕ
  pub search_active : Bool
  pub field_value : Text
  pub field_focused : Bool
  pub box_active : Bool
  pub popup : Display
  pub popup_place : Place
  pub close_button : Display
  pub select_window : Display
  pub select_place : ℤ × ℕ
  pub marks : List Bool
  pub frame_location : Text
  pub messages : ℕ
  pub first_item_focused : Bool
  pub next_timer : ℕ
  pub timers : List (ℕ × Task)

-- A handler ends, or it stops at a `TypeError`; what it wrote before stays.
pub data Run : Type 0 where
  done : Box → Run
  type_error : Box → Run

infixl 5 ◌>>=◌
abbrev pub ◌>>=◌ : Run → (Box → Run) → Run
done s >>= f = f s
type_error s >>= f = type_error s

-- `setTimeout(task, …)`: the new timer's number is `next_timer`, and numbers begin at 1.
unfoldable pub set_timeout : Task → Box → Box
set_timeout task s = record s {
  next_timer = suc s.next_timer;
  timers = (s.next_timer, task) ∷ s.timers;
}

unfoldable pub remove_timer : ℕ → List (ℕ × Task) → List (ℕ × Task)
remove_timer id [] = []
remove_timer id (t ∷ ts) = if t.0 == id then remove_timer id ts else t ∷ remove_timer id ts

-- `clearTimeout(id)`
unfoldable pub clear_timeout : ℕ → Box → Box
clear_timeout id s = record s { timers = remove_timer id s.timers }

-- `Activate(isActive)`
unfoldable pub activate : Config → Bool → Box → Box
activate cfg is_active s =
    if is_active || is_block s.popup
    then (let t = record s { box_active = true } in
        if text_eq s.field_value cfg.label
        then record t { field_value = []; search_active = true }
        else t)
    else record s {
      box_active = false;
      field_value = cfg.label;
      search_active = false;
      last_search_value = [];
      last_results_page = [];
    }

-- The high surrogates, 0xD800 up to 0xDBFF.
unfoldable pub is_high_surrogate : ℕ → Bool
is_high_surrogate c = leb 0xd800 c && leb c 0xdbff

-- `searchValue > 1` makes a number of the text, which is no number if it begins with a surrogate; the
-- code asks only then.
unfoldable pub number_gt_one : Text → Bool
number_gt_one [] = false
number_gt_one (c ∷ s) =
    is_digit c && not (text_eq (c ∷ s) (codes "0") || text_eq (c ∷ s) (codes "1"))

-- `idxChar`
unfoldable pub index_char : Text → Text
index_char search_value = elim (to_lower_case search_value) [
  | [] ↦ []
  | code ∷ _ ↦
      if is_high_surrogate code && number_gt_one search_value
      then take 2 search_value
      else to_lower_case (take 1 search_value)
]

-- `indexSectionNames[i]` in a string.
unfoldable pub section_name : Config → ℕ → Text
section_name cfg i = elim (get_elem? cfg.section_names i) [ none ↦ codes "undefined" | some n ↦ n ]

-- The name of the page for the index `idx` in section i, and of the page that says so if there is none.
unfoldable pub page_name : Config → ℕ → Option ℕ → Text
page_name cfg i none = cfg.results_path ++ (codes "/nomatches" ++ cfg.extension)
page_name cfg i (some idx) =
    cfg.results_path
    ++ (codes "/" ++ (section_name cfg i ++ (codes "_" ++ (to_hex idx ++ cfg.extension))))

unfoldable pub page_with_search : Config → ℕ → Option ℕ → Text → Text
page_with_search cfg i none v = page_name cfg i none
page_with_search cfg i (some idx) v = page_name cfg i (some idx) ++ b'?' ∷ escape v

-- The part of `Search` that opens the popup.
unfoldable pub open_popup : Config → Box → Box
open_popup cfg s = if is_block s.popup then s else record s {
  close_button = inline_block;
  popup = block;
  popup_place =
      if cfg.inside_frame
      then relative (popup_width cfg.client_width)
      else absolute (popup_left cfg.box_offsets cfg.popup_offset_width) (popup_top cfg.box_offsets);
}

-- `Search()`: without a section at `searchIndex`, `indexOf` is asked of `undefined`.
unfoldable pub search : Config → Box → Run
search cfg s =
    let v = strip_leading s.field_value in
    elim (get_elem? cfg.contents s.search_index) [
      | none ↦ type_error (record s { key_timeout = 0 })
      | some content ↦
          let idx = index_of (index_char v) content in
          done (record (open_popup cfg s) {
            key_timeout = 0;
            frame_location = page_with_search cfg s.search_index idx v;
            last_search_value = v;
            last_results_page = page_name cfg s.search_index idx;
          })
    ]
