-- ===== src/Tests/Folds.antt =====
-- The theorems about what folds on a page, at concrete inputs.
use blink_db.Base.{[], ◌∷◌, some, none, true, false, ◌≡◌, refl, codes, List}
use blink_db.Sections.{TableRow, update_stripes, set_folder}
use blink_db.Search.Script.{lower_unit}
use blink_db.Sections.{toggle_folder, is_below, is_child}
use blink_db.Sections.Folders.{IsFolded, has_child, toggle_folder-toggle_folder}

abbrev top : TableRow
top = record {
  id = codes "row_0_";
  visible = true;
  even = true;
  folder = some (record { icon_open = true; arrow_down = true });
}

abbrev inner : TableRow
inner = record { id = codes "row_0_0_"; visible = true; even = false; folder = none }

abbrev files : List TableRow
files = top ∷ inner ∷ record inner { id = codes "row_0_1_" } ∷ []

-- The folder 0_ closed.
abbrev closed_top : TableRow
closed_top = record top { folder = some (record { icon_open = false; arrow_down = false }) }

abbrev hidden_inner : TableRow
hidden_inner = record inner { visible = false }

hidden_inner-IsFolded : IsFolded (codes "0_") hidden_inner
hidden_inner-IsFolded = record {
  hidden = λ h. refl;
  below = λ h. unfold is_below in refl;
  shut = λ h. unfold set_folder in refl;
}

inner-is_child : has_child (codes "0_") (hidden_inner ∷ []) ≡ true
unfolding has_child is_child lower_unit
inner-is_child = refl

closed_shut : set_folder false closed_top ≡ closed_top
unfolding set_folder
closed_shut = refl

toggle_folder-toggle_folder_example :
    toggle_folder (codes "0_") (toggle_folder (codes "0_") (closed_top ∷ hidden_inner ∷ []))
    ≡ update_stripes (closed_top ∷ hidden_inner ∷ [])
toggle_folder-toggle_folder_example =
    toggle_folder-toggle_folder (codes "0_") [] (hidden_inner ∷ []) closed_top tt refl closed_shut
      (hidden_inner-IsFolded, tt) inner-is_child
