-- ===== src/Search/Box/Position.antt =====
-- `getXPos` and `getYPos` of docs/html/search/search.js, and the places computed from them.
use blink_db.Base.{ℤ, pos, sub_ℕ, Bool, ℕ, ◌+◌, List, [], ◌∷◌, ◌==◌, if◌then◌else◌}

-- An element's offsets. A list of them is an element with its chain of `offsetParent`, up to the body
-- and without it.
pub record Offset : Type 0 where
  pub left : ℕ
  pub top : ℕ
  pub width : ℕ
  pub height : ℕ

-- The loop of `getXPos`, with the variable `x`.
x_loop : List Offset → ℕ → ℕ
x_loop [] x = x
x_loop (o ∷ os) x = x_loop os (x + o.left)

unfoldable pub get_x_pos : List Offset → ℕ
unfolding x_loop
get_x_pos [] = 0
get_x_pos (o ∷ os) = if o.width == 0 then 0 else x_loop (o ∷ os) 0

-- The loop of `getYPos`, with the variable `y`.
y_loop : List Offset → ℕ → ℕ
y_loop [] y = y
y_loop (o ∷ os) y = y_loop os (y + o.top)

unfoldable pub get_y_pos : List Offset → ℕ
unfolding y_loop
get_y_pos [] = 0
get_y_pos (o ∷ os) = if o.width == 0 then 0 else y_loop (o ∷ os) 0

own_width : List Offset → ℕ
own_width [] = 0
own_width (o ∷ os) = o.width

own_height : List Offset → ℕ
own_height [] = 0
own_height (o ∷ os) = o.height

-- Where `OnSearchSelectShow` puts the selection window, inside a frame or not.
unfoldable pub select_left : Bool → List Offset → ℕ → ℤ
unfolding own_width
select_left inside_frame field select_offset_width =
    if inside_frame
    then sub_ℕ (get_x_pos field + (own_width field + 6)) select_offset_width
    else pos (get_x_pos field)

unfoldable pub select_top : List Offset → ℕ
unfolding own_height
select_top field = get_y_pos field + own_height field

-- Where `Search` puts the popup: beside the search box, or in a frame as wide as the page allows.
unfoldable pub popup_left : List Offset → ℕ → ℤ
popup_left box popup_offset_width = sub_ℕ (get_x_pos box + 150) popup_offset_width

unfoldable pub popup_top : List Offset → ℤ
popup_top box = pos (get_y_pos box + 20)

unfoldable pub popup_width : ℕ → ℤ
popup_width client_width = sub_ℕ client_width 8
