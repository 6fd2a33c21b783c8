-- ===== src/Lru/Order/Runs.antt =====
-- The values after a sequence of calls of lib/lru_cache_v1.h, on the order of use.
use blink_db.Base.{ℕ, List, [], ◌∷◌, Option, false, ◌≡◌, refl, ◌∙◌, ap, Text, text_eq}
use blink_db.Lru.Order.{
  Shelf, shelf_set, shelf_get, shelf_del, CacheCall, set_call, get_call, del_call, print_call,
  memory_call, limit_call, size_call, shelf_call, shelf_run,
}
use blink_db.Lru.Order.Values.{Unique, value_of, updated, value_of-set, value_of-get, value_of-del}

-- The value that was set last for the key q, where it had an old one before.
unfoldable pub last_set : Text → List CacheCall → Option Text → Option Text
last_set q [] old = old
last_set q (set_call k v ∷ calls) old = last_set q calls (updated k v q old)
last_set q (get_call k ∷ calls) old = last_set q calls old
last_set q (del_call k ∷ calls) old = last_set q calls old
last_set q (print_call ∷ calls) old = last_set q calls old
last_set q (memory_call ∷ calls) old = last_set q calls old
last_set q (limit_call ∷ calls) old = last_set q calls old
last_set q (size_call ∷ calls) old = last_set q calls old

-- No call deletes the key q.
unfoldable pub Undeleted : Text → List CacheCall → Type 0
Undeleted q [] = Unit
Undeleted q (del_call k ∷ calls) = (text_eq k q ≡ false) × Undeleted q calls
Undeleted q (set_call k v ∷ calls) = Undeleted q calls
Undeleted q (get_call k ∷ calls) = Undeleted q calls
Undeleted q (print_call ∷ calls) = Undeleted q calls
Undeleted q (memory_call ∷ calls) = Undeleted q calls
Undeleted q (limit_call ∷ calls) = Undeleted q calls
Undeleted q (size_call ∷ calls) = Undeleted q calls

pub shelf_call-Unique :
    (max : ℕ) (call : CacheCall) (s : Shelf)
    → Unique s.items
    → Unique (shelf_call max call s).0.items
unfolding shelf_call
shelf_call-Unique max (set_call k v) s once = (value_of-set max k v k s once).1
shelf_call-Unique max (get_call k) s once = (value_of-get k k s once).2
shelf_call-Unique max (del_call k) s once = (value_of-del k s once).2
shelf_call-Unique max print_call s once = once
shelf_call-Unique max memory_call s once = once
shelf_call-Unique max limit_call s once = once
shelf_call-Unique max size_call s once = once

pub shelf_run-Unique :
    (max : ℕ) (calls : List CacheCall) (s : Shelf)
    → Unique s.items
    → Unique (shelf_run max calls s).0.items
unfolding shelf_run
shelf_run-Unique max [] s once = once
shelf_run-Unique max (call ∷ calls) s once =
    shelf_run-Unique max calls (shelf_call max call s).0 (shelf_call-Unique max call s once)

-- Whatever is evicted and loaded, a key keeps the value that was set last.
pub shelf_run-last_set :
    (max : ℕ) (q : Text) (calls : List CacheCall) (s : Shelf)
    → Unique s.items
    → Undeleted q calls
    → value_of q (shelf_run max calls s).0 ≡ last_set q calls (value_of q s)
unfolding shelf_run shelf_call last_set Undeleted
shelf_run-last_set max q [] s once there = refl
shelf_run-last_set max q (set_call k v ∷ calls) s once there =
    let (same, unique) = value_of-set max k v q s once in
    shelf_run-last_set max q calls (shelf_set max k v s) unique there ∙ ap (last_set q calls) same
shelf_run-last_set max q (get_call k ∷ calls) s once there =
    let (shown, same, unique) = value_of-get k q s once in
    shelf_run-last_set max q calls (shelf_get k s).0 unique there ∙ ap (last_set q calls) same
shelf_run-last_set max q (del_call k ∷ calls) s once there =
    let (gone, same, unique) = value_of-del k s once in
    shelf_run-last_set max q calls (shelf_del k s).0 unique there.1
    ∙ ap (last_set q calls) (same q there.0)
shelf_run-last_set max q (print_call ∷ calls) s once there =
    shelf_run-last_set max q calls s once there
shelf_run-last_set max q (memory_call ∷ calls) s once there =
    shelf_run-last_set max q calls s once there
shelf_run-last_set max q (limit_call ∷ calls) s once there =
    shelf_run-last_set max q calls s once there
shelf_run-last_set max q (size_call ∷ calls) s once there =
    shelf_run-last_set max q calls s once there
