-- ===== src/Search/Nav/Keys.antt =====
-- The key handlers: which events act, and where the focus goes.
use blink_db.Base.{
  ℕ, zero, suc, ◌-◌, ◌≤◌, ◌<◌, List, [], ◌∷◌, some, true, false, ◌≡◌, refl, ap, arith, ◌==◌, length,
  if◌then◌else◌, ◌∙◌, Option-cases, Bool-cases, inl, inr,
}
use blink_db.Search.Results.{
  Results, Row, Display, unset, block, inline_block, hidden, is_block, row, child,
}
use blink_db.Search.Nav.{
  row_display, is_rendered, can_focus, focus_on, nav_next, nav_prev, is_open, child_links,
  last_child, nav_up, nav_down, nav, KeyEvent, key_down, key_press, key_up, process_keys,
}
use blink_db.Search.Nav.Walk.{visible, nav_prev-nav_next, nav_prev_lem, nav_next_lem}

-- The events of one key that is held down: `n` presses, then the release.
abbrev pub held : ℕ → ℕ → List KeyEvent
held k zero = key_up k ∷ []
held k (suc n) = key_press k ∷ held k n

-- The number of events that are handled, and the state after the last one.
pub handled : List KeyEvent → Results → ℕ × Results
handled [] s = (0, s)
handled (e ∷ es) s =
    let (t, go) = process_keys e s in let (n, u) = handled es t in ((if go then suc n else n), u)

press_repeating :
    (k : ℕ) (s : Results)
    → 0 < s.last_key
    → s.repeat_on ≡ true
    → process_keys (key_press k) s ≡ (s, true)
unfolding process_keys
press_repeating k s h r = ground arith

released : Results → Results
released s = record s { last_key = 0; repeat_on = false }

release : (k : ℕ) (s : Results) → process_keys (key_up k) s ≡ (released s, false)
unfolding process_keys released
release k s = refl

held_repeating :
    (k n : ℕ) (s : Results)
    → 0 < s.last_key
    → s.repeat_on ≡ true
    → handled (held k n) s ≡ (n, released s)
unfolding handled
held_repeating k zero s h r = rw (release k s)
held_repeating k (suc n) s h r = rw (press_repeating k s h r, held_repeating k n s h r)

down_step :
    (k : ℕ) (s : Results)
    → 0 < k
    → process_keys (key_down k) s ≡ (record s { repeat_on = false; last_key = k }, true)
unfolding process_keys
down_step k s h = ground arith

-- The first press behind `key_down`.
first_press :
    (k : ℕ) (s : Results)
    → 0 < k
    → process_keys (key_press k) (record s { repeat_on = false; last_key = k })
      ≡ (record s { repeat_on = true; last_key = k }, false)
unfolding process_keys
first_press k s h = ground arith

-- A key that is pressed and held acts at once and then at each repeated press but the first: `n`
-- presses make one action if there is no press or one, and `n` actions otherwise. Afterwards no key
-- is remembered.
pub handled-held :
    (k n : ℕ) (s : Results)
    → 0 < k
    → handled (key_down k ∷ held k n) s
      ≡ ((if n == 0 then 1 else n), record s { last_key = 0; repeat_on = false })
unfolding handled released
handled-held k zero s h =
    rw (down_step k s h, release k (record s { repeat_on = false; last_key = k }))
handled-held k (suc n) s h =
    let more : (suc n == 0) ≡ false = ground arith in
    rw (
      down_step k s h,
      first_press k s h,
      held_repeating k n (record s { repeat_on = true; last_key = k }) h refl,
      more,
    )

block_rendered : (d : Display) → is_block d ≡ true → is_rendered d ≡ true
unfolding is_rendered
block_rendered unset h = cc
block_rendered block h = refl
block_rendered inline_block h = refl
block_rendered hidden h = cc

can_focus-visible :
    (rows : List Row) (i : ℕ) → visible rows i ≡ true → can_focus rows (row i) ≡ true
unfolding visible can_focus
can_focus-visible rows i on = elim (Option-cases (row_display rows i)) [
  | inl e ↦ cc (rw (e, visible) at on)
  | inr (d, e) ↦ rw (can_focus, e) (block_rendered d (rw (e, visible) at on))
]

-- A row on display takes the focus.
focus_on-visible :
    (i : ℕ) (s : Results)
    → visible s.rows i ≡ true
    → focus_on (row i) s ≡ record s { focus = row i }
unfolding focus_on
focus_on-visible i s on = rw (focus_on, can_focus-visible s.rows i on) refl

nav_down_to :
    (i j : ℕ) (s : Results)
    → is_open s.rows i ≡ false
    → nav_next s.rows (suc i) ≡ some j
    → nav_down i s ≡ record s { focus = row j }
unfolding nav_down
nav_down_to i j s closed next =
    let on = ((nav_next_lem s.rows (suc i)).0 j next).on in
    rw (closed, next) (focus_on-visible j s on)

nav_up_to :
    (i j : ℕ) (s : Results)
    → visible s.rows i ≡ true
    → is_open s.rows i ≡ false
    → nav_prev s.rows j ≡ some i
    → nav_up j s ≡ record s { focus = row i }
unfolding nav_up
nav_up_to i j s on closed prev = rw (prev, nav_up, closed) (focus_on-visible i s on)

-- Down and then Up lead back to the row, if the row is on display and its children are not unfolded,
-- and if there is a next row on display.
pub down_up :
    (i j : ℕ) (s : Results)
    → visible s.rows i ≡ true
    → is_open s.rows i ≡ false
    → nav_next s.rows (suc i) ≡ some j
    → let t = (nav (key_down 40) i s).0 in
      (t.focus ≡ row j) × ((nav (key_down 38) j t).0.focus ≡ row i)
unfolding nav process_keys
down_up i j s on closed next =
    let prev = nav_prev-nav_next s.rows i j on next in
    rw (nav_down_to i j (record s { last_key = 40; repeat_on = false }) closed next)
      (refl, ap (λ (t : Results). t.focus) (nav_up_to i j _ on closed prev))

up_open :
    (i j : ℕ) (s : Results)
    → nav_prev s.rows (suc i) ≡ some j
    → is_open s.rows j ≡ true
    → 0 < child_links s.rows i
    → nav_up (suc i) s ≡ focus_on (child i (child_links s.rows i - 1)) s
unfolding nav_up last_child
up_open i j s prev open' links =
    let back : suc i - 1 ≡ i = omega arith in
    let some_links : (child_links s.rows i == 0) ≡ false = ground arith in
    rw (prev, nav_up, open', back, some_links) refl

-- A link below a hidden row does not take the focus.
focus_on-hidden :
    (i c : ℕ) (s : Results) → row_display s.rows i ≡ some hidden → focus_on (child i c) s ≡ s
unfolding focus_on can_focus is_rendered
focus_on-hidden i c s off = rw off refl

not_visible : (rows : List Row) (i : ℕ) → row_display rows i ≡ some hidden → visible rows i ≡ false
unfolding visible
not_visible rows i off = rw (visible, off) refl

-- The children that the Up key looks for are those of the row before, also where that row is hidden: if row i
-- is hidden and has child links, and the last row on display before row i + 1 is row j, with unfolded
-- children, then the Up key on row i + 1 leaves all as it is, the focus too, although row j, which is further up,
-- is on the page and takes the focus.
pub nav_up_hidden :
    (i j : ℕ) (s : Results)
    → suc i ≤ length s.rows
    → row_display s.rows i ≡ some hidden
    → nav_prev s.rows (suc i) ≡ some j
    → is_open s.rows j ≡ true
    → 0 < child_links s.rows i
    → (nav_up (suc i) s ≡ s) × (j < i) × (focus_on (row j) s ≡ record s { focus = row j })
nav_up_hidden i j s le off prev open' links =
    let found = (nav_prev_lem s.rows (suc i) le).0 j prev in
    let other : (j == i) ≡ false = elim (Bool-cases (j == i)) [
      | inl e ↦ let same : j ≡ i = ground arith in cc (not_visible s.rows i off, found.on, same)
      | inr e ↦ e
    ] in
    (
      up_open i j s prev open' links ∙ focus_on-hidden i (child_links s.rows i - 1) s off,
      ground (arith, found.before, other),
      focus_on-visible j s found.on,
    )
