-- ===== src/Lru/Cache/Values.antt =====
-- The values that the cache of lib/lru_cache_v1.h gives after a sequence of calls.
use blink_db.Base.{ℕ, ◌<◌, List, none, some, ◌≡◌, ap, ◌∙◌, or_else, arith, Text, Bool}
use blink_db.Dict.Keys.{string_key}
use blink_db.Dict.Chains.{find_entry}
use blink_db.Dict.Chains.Laws.{count}
use blink_db.Storage.Reads.{last_value}
use blink_db.Lru.Order.{empty_shelf, CacheCall, CacheAnswer, shelf_run, shelf_del, Lines}
use blink_db.Lru.Order.Values.{Unique, text_of, value_of-get, value_of-del}
use blink_db.Lru.Order.Runs.{last_set, Undeleted, shelf_run-Unique, shelf_run-last_set}
use blink_db.Lru.Cache.{LruCache, new_cache, get, del}
use blink_db.Lru.Cache.Shelves.{del-Answers}
use blink_db.Lru.Cache.Reads.{get-Answers}
use blink_db.Lru.Cache.Calls.{cache_run, new_cache-Stands, run_from}

pub empty_shelf-Unique : Unique empty_shelf.items
empty_shelf-Unique q = unfold count in omega arith

module _ (entry_size : Text → ℕ → ℕ) (hash : Text → ℕ) where
  -- From a new cache of any limit over an empty store with a filter of n counters, n above 0, after any
  -- calls that set keys that are not empty and have no white space, to values of one line that are not empty and
  -- do not begin with white space, and that do not delete the key q: `get` of q returns the value that was set last for it, and "-1" where none was, whatever was evicted
  -- and loaded since.
  pub get-last_set :
      (can_resize : Bool) (n max : ℕ) (calls : List CacheCall) (q : Text)
      → 0 < n
      → Lines calls
      → Undeleted q calls
      → (c : LruCache) × (e : LruCache) × (f : LruCache) × (answers : List CacheAnswer) × (new_cache
            can_resize n max
          ≡ some c)
        × (cache_run entry_size hash calls c ≡ some (e, answers))
        × (get entry_size hash q e ≡ some (f, text_of (last_set q calls none)))
  unfolding last_value find_entry or_else
  get-last_set can_resize n max calls q pos lines there =
      let (c, made, st) = new_cache-Stands entry_size hash n max pos can_resize in
      let (e, run, st2) = run_from entry_size hash n max pos calls empty_shelf c lines st in
      let s = (shelf_run max calls empty_shelf).0 in
      let (f, got, st3) = get-Answers entry_size hash n max q s e pos st2 in
      let (shown, same, unique) =
        value_of-get q q s (shelf_run-Unique max calls empty_shelf empty_shelf-Unique) in
      (
        c,
        e,
        f,
        (shelf_run max calls empty_shelf).1,
        made,
        run,
        got
            ∙ ap (λ t. some (f, t))
                (shown
                  ∙ ap text_of
                      (shelf_run-last_set max q calls empty_shelf empty_shelf-Unique there)),
      )

  -- From a new cache of any limit over an empty store with a filter of n counters, n above 0, after any
  -- calls that set keys that are not empty and have no white space, to values of one line that are not empty and
  -- do not begin with white space: after `del` of a key, `get` of the key
  -- returns the value that was evicted last for it, which `del` leaves in the store, and "-1" where none was evicted.
  pub get-del :
      (can_resize : Bool) (n max : ℕ) (calls : List CacheCall) (q : Text)
      → 0 < n
      → Lines calls
      → (c : LruCache) × (e : LruCache) × (f : LruCache) × (g : LruCache) × (answers : List
          CacheAnswer)
        × (code : ℕ) × (new_cache can_resize n max ≡ some c)
        × (cache_run entry_size hash calls c ≡ some (e, answers))
        × (del entry_size q e ≡ some (f, code))
        × (get entry_size hash q f
            ≡ some (g, text_of (last_value q (shelf_run max calls empty_shelf).0.evicted)))
  get-del can_resize n max calls q pos lines =
      let (c, made, st) = new_cache-Stands entry_size hash n max pos can_resize in
      let (e, run, st2) = run_from entry_size hash n max pos calls empty_shelf c lines st in
      let s = (shelf_run max calls empty_shelf).0 in
      let (f, deleted, st3) = del-Answers entry_size hash n max q s e st2 in
      let (g, got, st4) = get-Answers entry_size hash n max q (shelf_del q s).0 f pos st3 in
      let (gone, others, unique) =
        value_of-del q s (shelf_run-Unique max calls empty_shelf empty_shelf-Unique) in
      let (shown, same, unique2) = value_of-get q q (shelf_del q s).0 unique in
      (
        c,
        e,
        f,
        g,
        (shelf_run max calls empty_shelf).1,
        (shelf_del q s).1,
        made,
        run,
        deleted,
        got ∙ ap (λ t. some (g, t)) (shown ∙ ap text_of gone),
      )
