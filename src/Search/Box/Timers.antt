-- ===== src/Search/Box/Timers.antt =====
-- The invariant of `SearchBox` under everything that the user and the window do.
use blink_db.Base.{
  ℕ, suc, ◌-◌, ◌≤◌, ◌<◌, List, [], ◌∷◌, some, Bool, true, false, ◌≡◌, ◌≢◌, refl, ap, arith, ◌==◌,
  length, Bool-cases, Option-cases, inl, inr, if◌then◌else◌, ltb, ◌&&◌, ◌||◌, not, text_eq,
}
use blink_db.Search.Results.{hidden}
use blink_db.Search.Script.{strip_all}
use blink_db.Search.Box.{
  Task, run_search, close_selection, Config, Box, Run, done, type_error, ◌>>=◌, set_timeout,
  remove_timer, clear_timeout, activate, open_popup, search,
}
use blink_db.Search.Box.Handlers.{
  mark_from, select_item_set, find_timer, close_selection_window, on_search_select_hide,
  value_changed, stop_key_timer, focus_field, blur_field, on_search_select_show,
  close_results_window, escape_field, focus_first_item, on_search_field_change, on_select_item,
  leave_selection, on_search_select_key, run_task, fire,
}
use blink_db.Search.Box.Events.{
  Event, focus, blur, point, leave, close, edit, key, item, select_key, timeout, handle, after, run,
  IsValid,
}

find_timer-remove_ne :
    (id k : ℕ) (ts : List (ℕ × Task)) → id ≢ k → find_timer k (remove_timer id ts) ≡ find_timer k ts
unfolding find_timer remove_timer
find_timer-remove_ne id k [] h = refl
find_timer-remove_ne id k (t ∷ ts) h = ground (arith, find_timer-remove_ne id k ts)

-- `v` for a state that differs in no field which the invariant reads.
activate-IsValid : (cfg : Config) (b : Bool) (s : Box) → IsValid s → IsValid (activate cfg b s)
unfolding activate
activate-IsValid cfg b s v = ground arith

focus_field-IsValid : (cfg : Config) (s : Box) → IsValid s → IsValid (focus_field cfg s)
unfolding focus_field
focus_field-IsValid cfg s v =
    ground (arith, activate-IsValid cfg true (record s { field_focused = true }) (keep v))
  where
    keep : IsValid s → IsValid (record s { field_focused = true })
    keep w = ground arith

blur_field-IsValid : (cfg : Config) (s : Box) → IsValid s → IsValid (blur_field cfg s)
unfolding blur_field
blur_field-IsValid cfg s v =
    ground (arith, activate-IsValid cfg false (record s { field_focused = false }) (keep v))
  where
    keep : IsValid s → IsValid (record s { field_focused = false })
    keep w = ground arith

show-IsValid : (cfg : Config) (s : Box) → IsValid s → IsValid (on_search_select_show cfg s)
unfolding on_search_select_show clear_timeout
show-IsValid cfg s v = ground (arith, find_timer-remove_ne s.hide_timeout s.key_timeout s.timers)

hide-IsValid : (s : Box) → IsValid s → IsValid (on_search_select_hide s)
unfolding on_search_select_hide set_timeout find_timer
hide-IsValid s v = ground arith

changed-IsValid : (s : Box) → IsValid s → IsValid (value_changed s)
unfolding value_changed set_timeout find_timer
changed-IsValid s v = ground arith

stop-IsValid : (s : Box) → IsValid s → IsValid (stop_key_timer s)
unfolding stop_key_timer clear_timeout
stop-IsValid s v = ground arith

first_item-IsValid : (cfg : Config) (s : Box) → IsValid s → IsValid (focus_first_item cfg s)
unfolding focus_first_item
first_item-IsValid cfg s v = ground (arith, blur_field-IsValid cfg s v)

close-IsValid : (cfg : Config) (s : Box) → IsValid s → IsValid (close_results_window cfg s)
unfolding close_results_window activate
close-IsValid cfg s v = ground arith

escape-IsValid : (cfg : Config) (s : Box) → IsValid s → IsValid (escape_field cfg s)
unfolding escape_field
escape-IsValid cfg s v = activate-IsValid cfg false _ (keep (blur_field-IsValid cfg s v))
  where
    keep :
        {t : Box}
        → IsValid t
        → IsValid (record t { popup = hidden; close_button = hidden; last_search_value = [] })
    keep w = ground arith

messages-IsValid : {s : Box} → IsValid s → IsValid (record s { messages = suc s.messages })
messages-IsValid v = ground arith

field_change-IsValid :
    (cfg : Config) (code : ℕ) (shift : Bool) (s : Box)
    → IsValid s
    → IsValid (on_search_field_change cfg code shift s)
unfolding on_search_field_change
field_change-IsValid cfg code shift s v =
    let w = stop-IsValid s v in
    ground (
      arith,
      first_item-IsValid cfg _ (show-IsValid cfg _ w),
      changed-IsValid _ (messages-IsValid w),
      changed-IsValid _ w,
      escape-IsValid cfg _ w,
    )

length-mark_from : (ms : List Bool) (id j : ℕ) → length (mark_from id j ms) ≡ length ms
unfolding mark_from
length-mark_from [] id j = refl
length-mark_from (m ∷ ms) id j = ap suc (length-mark_from ms id (suc j))

open_popup-IsValid : (cfg : Config) (s : Box) → IsValid s → IsValid (open_popup cfg s)
unfolding open_popup
open_popup-IsValid cfg s v = ground arith

-- What a search asks of the state: nothing of the key timer.
record IsSettled (s : Box) : Type 0 where
  hide_old : s.hide_timeout < s.next_timer
  index : s.search_index ≤ length s.marks
  active : s.search_active ≡ true → s.box_active ≡ true

-- A search forgets the key timer, whether or not it ends.
search-IsValid : (cfg : Config) (s : Box) → IsSettled s → IsValid (after (search cfg s))
unfolding search open_popup
search-IsValid cfg s v = ground arith

select_item_set-IsValid :
    (id : ℕ) (s : Box)
    → IsValid s
    → id ≤ length s.marks
    → IsValid (select_item_set id (record s { search_index = id }))
unfolding select_item_set
select_item_set-IsValid id s v le = ground (arith, length-mark_from s.marks id 0)

select_item-IsValid :
    (cfg : Config) (id : ℕ) (s : Box)
    → IsValid s
    → id ≤ length s.marks
    → IsValid (after (on_select_item cfg id s))
unfolding on_select_item
select_item-IsValid cfg id s v le =
    let t = select_item_set id (record s { search_index = id }) in
    let w = select_item_set-IsValid id s v le in
    split (not (text_eq (strip_all t.field_value) []) && t.search_active) w
  where
    split : {t : Box} (b : Bool) → IsValid t → IsValid (after (if b then search cfg t else done t))
    split {t} true w =
        search-IsValid cfg t (record { hide_old = w.hide_old; index = w.index; active = w.active })
    split false w = w

close_selection-IsValid : (s : Box) → IsValid s → IsValid (close_selection_window s)
unfolding close_selection_window
close_selection-IsValid s v = ground arith

leave-IsValid : (cfg : Config) (s : Box) → IsValid s → IsValid (after (leave_selection cfg s))
unfolding leave_selection
leave-IsValid cfg s v =
    go (on_select_item cfg s.search_index s) (select_item-IsValid cfg s.search_index s v v.index)
  where
    go :
        (r : Run)
        → IsValid (after r)
        → IsValid (after (r >>= λ t. done (focus_field cfg (close_selection_window t))))
    go (done t) w = focus_field-IsValid cfg _ (close_selection-IsValid t w)
    go (type_error t) w = w

select_key-IsValid :
    (cfg : Config) (code : ℕ) (s : Box)
    → IsValid s
    → IsValid (after (on_search_select_key cfg code s))
unfolding on_search_select_key
select_key-IsValid cfg code s v =
    elim (Bool-cases ((code == 40) && ltb s.search_index (length s.marks))) [
      | inl e ↦ rw e (select_item-IsValid cfg (suc s.search_index) s v (ground arith))
      | inr e ↦ elim (Bool-cases ((code == 38) && ltb 0 s.search_index)) [
        | inl f ↦
            rw (e, f) (select_item-IsValid cfg (s.search_index - 1) s v (omega (arith, v.index)))
        | inr f ↦ elim (Bool-cases ((code == 13) || (code == 27))) [
          | inl g ↦ rw (e, f, g) (leave-IsValid cfg s v)
          | inr g ↦ rw (e, f, g) v
        ]
      ]
    ]

cleared-IsSettled : (id : ℕ) (s : Box) → IsValid s → IsSettled (clear_timeout id s)
unfolding clear_timeout
cleared-IsSettled id s v = ground arith

cleared-IsValid :
    (id : ℕ) (s : Box)
    → IsValid s
    → find_timer id s.timers ≡ some close_selection
    → IsValid (clear_timeout id s)
unfolding clear_timeout
cleared-IsValid id s v e = ground (arith, find_timer-remove_ne id s.key_timeout s.timers)

fire-IsValid : (cfg : Config) (id : ℕ) (s : Box) → IsValid s → IsValid (after (fire cfg id s))
unfolding fire
fire-IsValid cfg id s v = elim (Option-cases (find_timer id s.timers)) [
  | inl e ↦ rw (e, fire) v
  | inr (run_search, e) ↦
      rw (e, fire) (unfold run_task in search-IsValid cfg _ (cleared-IsSettled id s v))
  | inr (close_selection, e) ↦
      rw (e, fire) (unfold run_task in close_selection-IsValid _ (cleared-IsValid id s v e))
]

handle-IsValid : (cfg : Config) (e : Event) (s : Box) → IsValid s → IsValid (after (handle cfg e s))
unfolding handle
handle-IsValid cfg focus s v = focus_field-IsValid cfg s v
handle-IsValid cfg blur s v = blur_field-IsValid cfg s v
handle-IsValid cfg point s v = show-IsValid cfg s v
handle-IsValid cfg leave s v = hide-IsValid s v
handle-IsValid cfg close s v = close-IsValid cfg s v
handle-IsValid cfg (edit text) s v = ground arith
handle-IsValid cfg (key code shift) s v = field_change-IsValid cfg code shift s v
handle-IsValid cfg (item id) s v = elim (Bool-cases (ltb id (length s.marks))) [
  | inl e ↦ rw e (select_item-IsValid cfg id s v (ground arith))
  | inr e ↦ rw e v
]
handle-IsValid cfg (select_key code) s v = select_key-IsValid cfg code s v
handle-IsValid cfg (timeout id) s v = fire-IsValid cfg id s v

-- The invariant holds after whatever the user and the window do, in any order, and also after a handler
-- stopped at an error, if it holds before: if a key timer is remembered it is pending and runs a search,
-- it is not the timer that hides the selection, the numbers of both are old, the selected section is an
-- item of the selection or the place behind the last one, and a search is active only while the box is.
pub run-IsValid : (cfg : Config) (es : List Event) (s : Box) → IsValid s → IsValid (run cfg es s)
unfolding run
run-IsValid cfg [] s v = v
run-IsValid cfg (e ∷ es) s v = run-IsValid cfg es _ (handle-IsValid cfg e s v)
