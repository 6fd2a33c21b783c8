-- ===== src/Search/Box/Page.antt =====
-- Which page `Search` of `SearchBox` loads.
use mathlib.Core.List.{append_cancel_left, append_cancel_right}
use blink_db.Base.{
  ℕ, suc, ◌/◌, ◌%◌, ◌<◌, ◌≤◌, [], ◌∷◌, some, ◌≡◌, refl, ap, arith, Text, codes, length, Bool-cases,
  Option-cases, inl, inr, get_elem?, starts_with,
}
use blink_db.Search.Script.{strip_leading, index_of}
use blink_db.Search.Ids.{to_hex}
use blink_db.Search.Ids.Codes.{to_hex_small, to_hex_two, hex_digit-inj}
use blink_db.Search.Results.{block}
use blink_db.Search.Box.{
  Config, Box, done, index_char, section_name, page_name, page_with_search, open_popup, search,
}

-- What a search leaves when it ends.
pub record IsSearched (cfg : Config) (s t : Box) (content : Text) : Type 0 where
  pub popup : t.popup ≡ block
  pub timer : t.key_timeout ≡ 0
  pub value : t.last_search_value ≡ strip_leading s.field_value
  pub page :
      t.last_results_page
      ≡ page_name cfg s.search_index (index_of (index_char (strip_leading s.field_value)) content)
  pub frame :
      t.frame_location
      ≡ page_with_search cfg s.search_index
          (index_of (index_char (strip_leading s.field_value)) content)
          (strip_leading s.field_value)
  pub kept :
      (t.field_value ≡ s.field_value) × (t.search_index ≡ s.search_index) × (t.timers ≡ s.timers)

open_popup_block : (cfg : Config) (s : Box) → (open_popup cfg s).popup ≡ block
unfolding open_popup
open_popup_block cfg s = ground arith

open_popup_kept :
    (cfg : Config) (s : Box)
    → let t = open_popup cfg s in
      (t.field_value ≡ s.field_value) × (t.search_index ≡ s.search_index) × (t.timers ≡ s.timers)
unfolding open_popup
open_popup_kept cfg s = ground arith

-- With a section for the index, a search ends with the popup open.
pub search-IsSearched :
    (cfg : Config) (s : Box) (content : Text)
    → get_elem? cfg.contents s.search_index ≡ some content
    → (t : Box) × (search cfg s ≡ done t) × IsSearched cfg s t content
unfolding search
search-IsSearched cfg s content at = (
  record (open_popup cfg s) {
    key_timeout = 0;
    frame_location =
        page_with_search cfg s.search_index
          (index_of (index_char (strip_leading s.field_value)) content)
          (strip_leading s.field_value);
    last_search_value = strip_leading s.field_value;
    last_results_page =
        page_name cfg s.search_index (index_of (index_char (strip_leading s.field_value)) content);
  },
  rw (at, search),
  record {
    popup = open_popup_block cfg s;
    timer = refl;
    value = refl;
    page = refl;
    frame = refl;
    kept = open_popup_kept cfg s;
  },
)

-- The number of a unit in a text is below the text's length, and it stands there.
index_of_unit :
    (c : ℕ) (content : Text) (i : ℕ)
    → index_of (c ∷ []) content ≡ some i
    → (get_elem? content i ≡ some c) × (i < length content)
unfolding index_of
index_of_unit c [] i h = cc
index_of_unit c (d ∷ content) i h = elim (Bool-cases (starts_with (c ∷ []) (d ∷ content))) [
  | inl e ↦
      let z : 0 ≡ i = ground arith in
      let same : d ≡ c = ground arith in rw (← z) (ap some same, omega arith)
  | inr e ↦ elim (Option-cases (index_of (c ∷ []) content)) [
    | inl f ↦ cc (rw (e, f, index_of) at h)
    | inr (k, f) ↦
        let n : suc k ≡ i = ground arith in
        let (at, lt) = index_of_unit c content k f in rw (← n) (at, omega arith)
  ]
]

to_hex_injective : (a b : ℕ) → a < 256 → b < 256 → to_hex a ≡ to_hex b → a ≡ b
to_hex_injective a b ha hb e = ground (
  arith,
  to_hex_small a,
  to_hex_small b,
  to_hex_two a,
  to_hex_two b,
  hex_digit-inj a b,
  hex_digit-inj (a / 16) (b / 16),
  hex_digit-inj (a % 16) (b % 16),
)

-- Within a section, two characters for which there is a page have the same page only if they are the
-- same character. A section lists 256 characters at most.
pub page_name-injective :
    (cfg : Config) (section : ℕ) (content : Text) (c d i j : ℕ)
    → length content ≤ 256
    → index_of (c ∷ []) content ≡ some i
    → index_of (d ∷ []) content ≡ some j
    → page_name cfg section (some i) ≡ page_name cfg section (some j)
    → c ≡ d
unfolding page_name
page_name-injective cfg section content c d i j small hi hj e =
    let (at_i, lt_i) = index_of_unit c content i hi in
    let (at_j, lt_j) = index_of_unit d content j hj in
    let name = section_name cfg section in
    let behind_path = append_cancel_left (cfg.results_path) _ _ e in
    let behind_name =
      append_cancel_left name _ _ (append_cancel_left (codes "/") _ _ behind_path) in
    let behind_line = append_cancel_left (codes "_") _ _ behind_name in
    let digits = append_cancel_right _ _ cfg.extension behind_line in
    let same = to_hex_injective i j (omega arith) (omega arith) digits in
    let at : get_elem? content j ≡ some c = rw (← same) at_i in cc
