-- ===== src/Sections/Folders.antt =====
-- A folder of the table of files unfolded and folded, `toggleFolder` of docs/html/dynsections.js.
use blink_db.Base.{
  List, [], ◌∷◌, ◌++◌, map, Bool, ◌||◌, true, false, ◌≡◌, refl, sym, ap, ap₂, ◌∙◌, arith,
  Bool-cases, inl, inr, Text, codes, text_eq, All, if◌then◌else◌, not,
}
use blink_db.Sections.{
  TableRow, stripes_from, update_stripes, set_folder, is_child, is_below, first_child_visible,
  hide_below, show_child, fold_rows, toggle_folder,
}
use blink_db.Sections.Table.{set_folder-id}

-- A row without its stripe.
abbrev bare : TableRow → TableRow
bare r = record r { even = false }

stripes_from-bare :
    (e : Bool) (rows : List TableRow) → stripes_from e (map bare rows) ≡ stripes_from e rows
unfolding stripes_from
stripes_from-bare e [] = refl
stripes_from-bare e (r ∷ rows) = rw (stripes_from-bare (if r.visible then not e else e) rows) refl

bare-stripes_from :
    (e : Bool) (rows : List TableRow) → map bare (stripes_from e rows) ≡ map bare rows
unfolding stripes_from
bare-stripes_from e [] = refl
bare-stripes_from e (r ∷ rows) = rw (bare-stripes_from (if r.visible then not e else e) rows) refl

set_folder-bare : (o : Bool) (r : TableRow) → set_folder o (bare r) ≡ bare (set_folder o r)
unfolding set_folder
set_folder-bare o r = ground arith

hide_below-bare :
    (id : Text) (rows : List TableRow)
    → map (hide_below id) (map bare rows) ≡ map bare (map (hide_below id) rows)
unfolding hide_below is_below
hide_below-bare id [] = refl
hide_below-bare id (r ∷ rows) = ap₂ ◌∷◌ (ground arith) (hide_below-bare id rows)

show_child-bare :
    (id : Text) (rows : List TableRow)
    → map (show_child id) (map bare rows) ≡ map bare (map (show_child id) rows)
unfolding show_child is_child
show_child-bare id [] = refl
show_child-bare id (r ∷ rows) = ap₂ ◌∷◌ (grind (arith, set_folder-bare)) (show_child-bare id rows)

first_child-bare :
    (id : Text) (rows : List TableRow)
    → first_child_visible id (map bare rows) ≡ first_child_visible id rows
unfolding first_child_visible is_child
first_child-bare id [] = refl
first_child-bare id (r ∷ rows) = rw (first_child-bare id rows) refl

fold_rows-bare :
    (id : Text) (rows : List TableRow) → fold_rows id (map bare rows) ≡ map bare (fold_rows id rows)
unfolding fold_rows
fold_rows-bare id [] = refl
fold_rows-bare id (r ∷ rows) = elim (Bool-cases (text_eq r.id (codes "row_" ++ id))) [
  | inl h ↦ elim (Bool-cases (first_child_visible id rows)) [
    | inl v ↦
        rw (h, first_child-bare id rows, v)
          (ap₂ ◌∷◌ (set_folder-bare false r) (hide_below-bare id rows))
    | inr v ↦
        rw (h, first_child-bare id rows, v)
          (ap₂ ◌∷◌ (set_folder-bare true r) (show_child-bare id rows))
  ]
  | inr h ↦ rw h (ap (◌∷◌ (bare r)) (fold_rows-bare id rows))
]

-- The stripes do not matter to the folding.
toggle_folder_folds :
    (id : Text) (rows : List TableRow)
    → toggle_folder id (toggle_folder id rows) ≡ update_stripes (fold_rows id (fold_rows id rows))
unfolding toggle_folder update_stripes
toggle_folder_folds id rows =
    let inner = fold_rows id rows in
    sym (stripes_from-bare true (fold_rows id (stripes_from true inner)))
    ∙ ap (stripes_from true) (
        sym (fold_rows-bare id (stripes_from true inner))
        ∙ ap (fold_rows id) (bare-stripes_from true inner)
        ∙ fold_rows-bare id inner)
    ∙ stripes_from-bare true (fold_rows id inner)

-- A row behind that of a closed folder: if it is below the folder it is hidden, and if it is one level
-- below it is not unfolded itself.
pub record IsFolded (id : Text) (q : TableRow) : Type 0 where
  pub hidden : is_below id q ≡ true → q.visible ≡ false
  pub below : is_child id q ≡ true → is_below id q ≡ true
  pub shut : is_child id q ≡ true → set_folder false q ≡ q

-- Whether the folder has a row one level below.
unfoldable pub has_child : Text → List TableRow → Bool
has_child id [] = false
has_child id (r ∷ rows) = is_child id r || has_child id rows

first_child_folded :
    (id : Text) (rows : List TableRow)
    → All (IsFolded id) rows
    → first_child_visible id rows ≡ false
unfolding first_child_visible
first_child_folded id [] h = refl
first_child_folded id (r ∷ rows) h = elim (Bool-cases (is_child id r)) [
  | inl c ↦ rw c (h.0.hidden (h.0.below c))
  | inr c ↦ rw c (first_child_folded id rows h.1)
]

is_child-set_folder :
    (id : Text) (o v : Bool) (r : TableRow)
    → is_child id (record (set_folder o r) { visible = v }) ≡ is_child id r
unfolding is_child
is_child-set_folder id o v r = rw (set_folder-id o r) refl

first_child_shown :
    (id : Text) (rows : List TableRow)
    → has_child id rows ≡ true
    → first_child_visible id (map (show_child id) rows) ≡ true
unfolding first_child_visible has_child show_child
first_child_shown id [] h = cc
first_child_shown id (r ∷ rows) h = elim (Bool-cases (is_child id r)) [
  | inl c ↦ rw (c, is_child-set_folder id false true r, c) refl
  | inr c ↦
      let more : has_child id rows ≡ true = ground (arith, c, h) in
      rw (c, c) (first_child_shown id rows more)
]

kept : (v : Bool) (q : TableRow) → q.visible ≡ v → record q { visible = v } ≡ q
kept v q h = rw (← h) refl

hide_below-show_child :
    (id : Text) (q : TableRow) → IsFolded id q → hide_below id (show_child id q) ≡ q
unfolding hide_below show_child is_below
hide_below-show_child id q h = elim (Bool-cases (is_child id q)) [
  | inl c ↦ rw (c, h.shut c, h.below c) (kept false q (h.hidden (h.below c)))
  | inr c ↦ elim (Bool-cases (is_below id q)) [
    | inl b ↦ rw (c, b) (kept false q (h.hidden b))
    | inr b ↦ rw (c, b) refl
  ]
]

hide-show :
    (id : Text) (rows : List TableRow)
    → All (IsFolded id) rows
    → map (hide_below id) (map (show_child id) rows) ≡ rows
hide-show id [] h = refl
hide-show id (q ∷ rows) h = ap₂ ◌∷◌ (hide_below-show_child id q h.0) (hide-show id rows h.1)

set_folder-set_folder : (r : TableRow) → set_folder false (set_folder true r) ≡ set_folder false r
unfolding set_folder
set_folder-set_folder r = ground arith

-- Whether it is the row of the folder.
abbrev pub is_row : Text → TableRow → Bool
is_row id r = text_eq r.id (codes "row_" ++ id)

fold_rows-append :
    (id : Text) (before rows : List TableRow)
    → All (λ q. is_row id q ≡ false) before
    → fold_rows id (before ++ rows) ≡ before ++ fold_rows id rows
unfolding fold_rows
fold_rows-append id [] rows h = refl
fold_rows-append id (q ∷ before) rows h = rw (h.0, fold_rows-append id before rows h.1) refl

fold_rows_twice :
    (id : Text) (r : TableRow) (after : List TableRow)
    → is_row id r ≡ true
    → set_folder false r ≡ r
    → All (IsFolded id) after
    → has_child id after ≡ true
    → fold_rows id (fold_rows id (r ∷ after)) ≡ r ∷ after
unfolding fold_rows set_folder
fold_rows_twice id r after here shut folded some_child =
    rw
      (
        here,
        first_child_folded id after folded,
        set_folder-id true r,
        here,
        first_child_shown id after some_child,
        set_folder-set_folder r,
        shut,
        hide-show id after folded,
      )
      refl

-- `toggleFolder` twice, on a closed folder, leads back to the table, with its stripes brought up to
-- date. The folder is the first row with its id and has a row one level below; the rows after it that are
-- below it are hidden, and those one level below are not unfolded.
pub toggle_folder-toggle_folder :
    (id : Text) (before after : List TableRow) (r : TableRow)
    → All (λ q. is_row id q ≡ false) before
    → is_row id r ≡ true
    → set_folder false r ≡ r
    → All (IsFolded id) after
    → has_child id after ≡ true
    → toggle_folder id (toggle_folder id (before ++ r ∷ after))
      ≡ update_stripes (before ++ r ∷ after)
toggle_folder-toggle_folder id before after r others here shut folded some_child =
    toggle_folder_folds id (before ++ r ∷ after)
    ∙ ap update_stripes (
        ap (fold_rows id) (fold_rows-append id before (r ∷ after) others)
        ∙ fold_rows-append id before (fold_rows id (r ∷ after)) others
        ∙ ap (before ++◌) (fold_rows_twice id r after here shut folded some_child))
