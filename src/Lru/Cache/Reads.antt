-- ===== src/Lru/Cache/Reads.antt =====
-- `get` of lib/lru_cache_v1.h, beside the order of use.
use blink_db.Base.{ℕ, ◌<◌, ◌∷◌, none, some, ◌≡◌, refl, ap, ◌∙◌, Text, Option-cases, inl, inr, ◌>>=◌}
use blink_db.Dict.Keys.{string_key}
use blink_db.Dict.Chains.{find_entry, erase_entry}
use blink_db.Storage.{Store, new_store}
use blink_db.Storage
use blink_db.Storage.Reads.{AllReadable, last_value, get-stored}
use blink_db.Lru.Order.{Shelf, used, shelf_get}
use blink_db.Lru.Cache.{LruCache, get}
use blink_db.Lru.Cache.Standing.{forget, value_at}
use blink_db.Lru.Cache.Moves.{touch-Keeps}
use blink_db.Lru.Cache.Steps.{insert_node-Keeps}
use blink_db.Lru.Order.Readable.{
  AllReadable-erase_entry, AllReadable-cons, readable_found, readable_item,
}
use blink_db.Lru.Cache.Shelves.{Stands, Answers, found_item, kept_items, looked_up, erased_items}

module _ (entry_size : Text → ℕ → ℕ) (hash : Text → ℕ) (n max : ℕ) where
  used_readable :
      (k v : Text) (p : ℕ) (s : Shelf) (c : LruCache) (st : Stands entry_size hash n max s c)
      → find_entry k st.entries ≡ some (p, v)
      → AllReadable (used k v s.items)
  used_readable k v p s c st found =
      let (hk, hv) =
        readable_item k v s.items st.readable
          (found_item entry_size hash n max k s c st ∙ ap value_at found) in
      AllReadable-cons k v (erase_entry k s.items) hk hv
        (AllReadable-erase_entry k s.items st.readable)

  -- What is found becomes the last used, in the cache or in the store.
  pub get-Answers :
      (k : Text) (s : Shelf) (c : LruCache)
      → 0 < n
      → Stands entry_size hash n max s c
      → Answers entry_size hash n max (get entry_size hash k c) (shelf_get k s)
  unfolding get shelf_get forget
  get-Answers k s c pos st =
      let (d, run, keeps, st2) = looked_up entry_size hash n max k s c st in
      elim (Option-cases (find_entry k st.entries)) [
        | inr ((p, v), found) ↦
            let there : find_entry k s.items ≡ some v =
              found_item entry_size hash n max k s c st ∙ ap value_at found in
            let (h, touched, (m, at, value), kept) =
              touch-Keeps k v p st.entries (record c { dict = d }) keeps found in
            rw (shelf_get, there)
              (
                record c { dict = d; heap = h },
                rw (get, run, ◌>>=◌, found, touched, ◌>>=◌, at, ◌>>=◌, value) refl,
                kept_items entry_size hash n max (λ m. m) ((k, (p, v)) ∷ erase_entry k st.entries)
                    (used k v s.items) s (record c { dict = d }) (record c { dict = d; heap = h })
                    st2 (kept, refl, refl, refl)
                    (ap (λ x. (k, v) ∷ x) (erased_items entry_size hash n max k s c st))
                    (used_readable k v p s c st found),
              )
        | inl off ↦
            let none_there : find_entry k s.items ≡ none =
              found_item entry_size hash n max k s c st ∙ ap value_at off in
            let read : Storage.get hash k c.storage ≡ last_value k s.evicted =
              rw st.disk (get-stored hash n s.evicted k pos st.written) in
            elim (Option-cases (last_value k s.evicted)) [
              | inl nowhere ↦
                  rw (shelf_get, none_there, nowhere)
                    (record c { dict = d }, rw (get, run, ◌>>=◌, off, read, nowhere) refl, st2)
              | inr (v, stored_there) ↦
                  let (hk, hv) = readable_found k v s.evicted st.written stored_there in
                  let (p, e, inserted, kept) =
                    insert_node-Keeps entry_size k v st.entries (record c { dict = d }) keeps off in
                  rw (shelf_get, none_there, stored_there)
                    (
                      e,
                      rw (get, run, ◌>>=◌, off, read, stored_there, inserted, ◌>>=◌) refl,
                      kept_items entry_size hash n max (λ m. m) ((k, (p, v)) ∷ st.entries)
                          ((k, v) ∷ s.items) s (record c { dict = d }) e st2 kept
                          (ap (λ x. (k, v) ∷ x) st.items)
                          (AllReadable-cons k v s.items hk hv st.readable),
                    )
            ]
      ]
