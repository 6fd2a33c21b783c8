-- ===== src/Sections/Table.antt =====
-- The table of files after `updateStripes` and `toggleLevel`, docs/html/dynsections.js.
use blink_db.Base.{
  ℕ, zero, suc, List, [], ◌∷◌, map, some, Bool, true, false, ◌&&◌, not, ltb, leb, if◌then◌else◌,
  ◌≡◌, refl, arith, get_elem?, get_elem?-map, take, Bool-cases, inl, inr,
}
use blink_db.Sections.{
  TableRow, stripes_from, update_stripes, level_of, level_row, set_folder, toggle_level,
}

-- How many rows are displayed, and whether a number is even.
unfoldable pub count_visible : List TableRow → ℕ
count_visible [] = 0
count_visible (r ∷ rows) = if r.visible then suc (count_visible rows) else count_visible rows

unfoldable pub is_even : ℕ → Bool
is_even zero = true
is_even (suc n) = not (is_even n)

shift : Bool → ℕ → Bool
shift true n = is_even n
shift false n = not (is_even n)

shift-suc : (e : Bool) (n : ℕ) → shift e (suc n) ≡ shift (not e) n
unfolding shift is_even
shift-suc true n = refl
shift-suc false n = elim (Bool-cases (is_even n)) [ inl h ↦ rw h refl | inr h ↦ rw h refl ]

shift_zero : (e : Bool) → shift e 0 ≡ e
unfolding shift is_even
shift_zero true = refl
shift_zero false = refl

stripes_from-get_elem? :
    (e : Bool) (rows : List TableRow) (i : ℕ) (r : TableRow)
    → get_elem? rows i ≡ some r
    → get_elem? (stripes_from e rows) i
      ≡ some (record r { even = r.visible && shift e (count_visible (take i rows)) })
unfolding stripes_from count_visible
stripes_from-get_elem? e [] i r at = cc
stripes_from-get_elem? e (q ∷ rows) zero r at =
    let same : q ≡ r = cc in rw (same, shift_zero e) refl
stripes_from-get_elem? e (q ∷ rows) (suc i) r at = elim (Bool-cases q.visible) [
  | inl v ↦ rw (v, shift-suc e) (stripes_from-get_elem? (not e) rows i r at)
  | inr v ↦ rw v (stripes_from-get_elem? e rows i r at)
]

-- `updateStripes` gives a row the class `even` exactly if it is displayed and the number of rows
-- displayed before it is even, and leaves the rest of the row alone.
pub update_stripes-get_elem? :
    (rows : List TableRow) (i : ℕ) (r : TableRow)
    → get_elem? rows i ≡ some r
    → get_elem? (update_stripes rows) i
      ≡ some (record r { even = r.visible && is_even (count_visible (take i rows)) })
unfolding update_stripes shift
update_stripes-get_elem? rows i r at = stripes_from-get_elem? true rows i r at

pub set_folder-id : (o : Bool) (r : TableRow) → (set_folder o r).id ≡ r.id
unfolding set_folder
set_folder-id o r = ground arith

level_row_lem :
    (level : ℕ) (r : TableRow)
    → ((level_row level r).id ≡ r.id)
      × ((level_row level r).visible ≡ leb (level_of r.id) (suc level))
      × ((level_row level r).folder ≡ (
          if leb (level_of r.id) (suc level)
          then (set_folder (ltb (level_of r.id) (suc level)) r).folder
          else r.folder))
unfolding level_row
level_row_lem level r = grind (arith, set_folder-id)

-- `toggleLevel(level)` displays the rows up to one level below `level` and no others. Of the folders it
-- displays, those up to `level` are open and those one level below are closed, icon and arrow alike;
-- the icon and the arrow of a row that is not displayed stay.
pub toggle_level-get_elem? :
    (level : ℕ) (rows : List TableRow) (i : ℕ) (r : TableRow)
    → get_elem? rows i ≡ some r
    → (t : TableRow) × (get_elem? (toggle_level level rows) i ≡ some t)
      × (t.id ≡ r.id)
      × (t.visible ≡ leb (level_of r.id) (suc level))
      × (t.folder ≡ (
          if leb (level_of r.id) (suc level)
          then (set_folder (ltb (level_of r.id) (suc level)) r).folder
          else r.folder))
unfolding toggle_level
toggle_level-get_elem? level rows i r at =
    let here = get_elem?-map (level_row level) rows i at in
    let (ids, seen, folders) = level_row_lem level r in
    (
      _,
      update_stripes-get_elem? (map (level_row level) rows) i (level_row level r) here,
      ids,
      seen,
      folders,
    )
