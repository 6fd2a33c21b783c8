-- ===== src/Sections.antt =====
-- The parts of a documentation page that fold, docs/html/dynsections.js: sections, inherited members,
-- and the table of files.
pub mod Fold
pub mod Table
pub mod Folders
use blink_db.Base.{
  ℕ, zero, suc, ◌+◌, ◌-◌, List, [], ◌∷◌, ◌++◌, map, Option, none, some, Bool, true, false, ◌&&◌,
  not, ◌==◌, ltb, if◌then◌else◌, Text, codes, text_eq, length, take, drop, starts_with,
}
use blink_db.Search.Script.{is_digit, to_lower_case}

-- `src.substring(0, src.length - n) + name`; `substring` takes a number below 0 for 0.
unfoldable pub with_image : ℕ → Text → Text → Text
with_image n name src = take (length src - n) src ++ name

-- A section: what of it is displayed, the classes of its header, and the image of its trigger.
pub record Section : Type 0 where
  pub content_visible : Bool
  pub summary_visible : Bool
  pub opened : Bool
  pub closed : Bool
  pub src : Text

-- `toggleVisibility(linkObj)`, which returns false.
unfoldable pub toggle_visibility : Section → Section
toggle_visibility s =
    if s.content_visible
    then record {
      content_visible = false;
      summary_visible = true;
      opened = false;
      closed = true;
      src = with_image 8 (codes "closed.png") s.src;
    }
    else record {
      content_visible = true;
      summary_visible = false;
      opened = true;
      closed = false;
      src = with_image 10 (codes "open.png") s.src;
    }

-- The inherited members of a class: which of their rows are displayed, and the image of their header.
pub record Inherit : Type 0 where
  pub rows : List Bool
  pub src : Text

-- `rows.filter(':first').is(':visible')`
unfoldable pub first_visible : List Bool → Bool
first_visible [] = false
first_visible (v ∷ vs) = v

-- `toggleInherit(id)` for the members and the header of one id.
unfoldable pub toggle_inherit : Inherit → Inherit
toggle_inherit s =
    if first_visible s.rows
    then record { rows = map (λ v. false) s.rows; src = with_image 8 (codes "closed.png") s.src }
    else record { rows = map (λ v. true) s.rows; src = with_image 10 (codes "open.png") s.src }

-- The icon and the arrow of the row of a folder.
pub record Folder : Type 0 where
  pub icon_open : Bool
  pub arrow_down : Bool

-- A row of the table of files; a file has no icon that opens and no arrow.
pub record TableRow : Type 0 where
  pub id : Text
  pub visible : Bool
  pub even : Bool
  pub folder : Option Folder

-- The loop of `updateStripes()`: `even` is whether the next row on display is at an even place among
-- those on display, counted from 0.
unfoldable pub stripes_from : Bool → List TableRow → List TableRow
stripes_from even [] = []
stripes_from even (r ∷ rows) =
    record r { even = r.visible && even } ∷ stripes_from (if r.visible then not even else even) rows

unfoldable pub update_stripes : List TableRow → List TableRow
update_stripes rows = stripes_from true rows

-- `this.id.split('_').length - 1`, the number of marks.
unfoldable pub level_of : Text → ℕ
level_of [] = 0
level_of (c ∷ s) = if c == b'_' then suc (level_of s) else level_of s

-- The icon and the arrow both set, where the row has them.
unfoldable pub set_folder : Bool → TableRow → TableRow
set_folder o r = elim r.folder [
  | none ↦ r
  | some f ↦ record r { folder = some (record { icon_open = o; arrow_down = o }) }
]

-- One round of `toggleLevel(level)`.
unfoldable pub level_row : ℕ → TableRow → TableRow
level_row level r =
    let l = level_of r.id in
    if ltb l (level + 1)
    then record (set_folder true r) { visible = true }
    else if l == level + 1
    then record (set_folder false r) { visible = true }
    else record r { visible = false }

unfoldable pub toggle_level : ℕ → List TableRow → List TableRow
toggle_level level rows = update_stripes (map (level_row level) rows)

all_digits_mark : Text → Bool
all_digits_mark [] = false
all_digits_mark (c ∷ []) = c == b'_'
all_digits_mark (c ∷ d ∷ s) = is_digit c && all_digits_mark (d ∷ s)

-- `this.id.match(re)` for the rows one level below the folder: its id, a digit or more, and a mark. The
-- id of a folder has digits and marks only.
unfoldable pub is_child : Text → TableRow → Bool
unfolding all_digits_mark
is_child id r =
    let low = to_lower_case r.id in
    let start = codes "row_" ++ to_lower_case id in
    starts_with start low
    && (ltb 1 (length (drop (length start) low)) && all_digits_mark (drop (length start) low))

-- `[id^=row_<id>]`
unfoldable pub is_below : Text → TableRow → Bool
is_below id r = starts_with (codes "row_" ++ id) r.id

-- Whether the first child of the folder among the rows is displayed.
unfoldable pub first_child_visible : Text → List TableRow → Bool
first_child_visible id [] = false
first_child_visible id (r ∷ rows) = if is_child id r then r.visible else first_child_visible id rows

unfoldable pub hide_below : Text → TableRow → TableRow
hide_below id r = if is_below id r then record r { visible = false } else r

unfoldable pub show_child : Text → TableRow → TableRow
show_child id r = if is_child id r then record (set_folder false r) { visible = true } else r

-- The row of the folder and those after it.
unfoldable pub fold_rows : Text → List TableRow → List TableRow
fold_rows id [] = []
fold_rows id (r ∷ rows) =
    let rest = fold_rows id rows in
    if text_eq r.id (codes "row_" ++ id)
    then (if first_child_visible id rows
        then set_folder false r ∷ map (hide_below id) rows
        else set_folder true r ∷ map (show_child id) rows)
    else r ∷ rest

-- `toggleFolder(id)`
unfoldable pub toggle_folder : Text → List TableRow → List TableRow
toggle_folder id rows = update_stripes (fold_rows id rows)
