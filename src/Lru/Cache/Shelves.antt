-- ===== src/Lru/Cache/Shelves.antt =====
-- The calls of lib/lru_cache_v1.h beside the order of use that they stand for.
use blink_db.Base.{
  ℕ, suc, Option, none, some, ◌≡◌, refl, ap, ◌∙◌, Text, Option-cases, inl, inr, ◌>>=◌,
}
use blink_db.Dict.{Chain, Dict}
use blink_db.Dict.Keys.{string_key}
use blink_db.Dict.Chains.{find_entry, erase_entry}
use blink_db.Dict.Methods.{find}
use blink_db.Storage.{new_store}
use blink_db.Storage.Reads.{AllReadable, stored}
use blink_db.Lru.Nodes.Links.{Entries}
use blink_db.Lru.Order.{Shelf, shelf_del}
use blink_db.Lru.Cache.{LruCache, del}
use blink_db.Lru.Cache.Standing.{
  forget, place, value_at, Keeps, Kept, find_entry-forget, erase_entry-forget,
}
use blink_db.Lru.Cache.Moves.{find-Keeps}
use blink_db.Lru.Cache.Steps.{drop_node-Keeps}
use blink_db.Lru.Order.Readable.{AllReadable-erase_entry}

module _ (entry_size : Text → ℕ → ℕ) (hash : Text → ℕ) (n max : ℕ) where
  -- A cache that stands for an order of use, over a store with a filter of n counters.
  pub record Stands (s : Shelf) (c : LruCache) : Type 0 where
    pub entries : Entries
    pub keeps : Keeps entries c
    pub items : s.items ≡ forget entries
    pub limit : c.max_memory_bytes ≡ max
    pub disk : c.storage ≡ stored hash s.evicted (new_store n)
    pub readable : AllReadable s.items
    pub written : AllReadable s.evicted
    pub freed : c.freed_reads ≡ s.removals

  -- A call that answers as the order of use does.
  abbrev pub Answers : {A : Type 0} → Option (LruCache × A) → Shelf × A → Type 0
  Answers run r = (e : LruCache) × (run ≡ some (e, r.1)) × Stands r.0 e

  pub found_item :
      (k : Text) (s : Shelf) (c : LruCache) (st : Stands s c)
      → find_entry k s.items ≡ value_at (find_entry k st.entries)
  found_item k s c st = rw st.items (find_entry-forget k st.entries)

  pub kept_items :
      (f : ℕ → ℕ) (ms : Entries) (items : Chain Text Text) (s : Shelf) (c e : LruCache)
      → Stands s c
      → Kept f ms c e
      → items ≡ forget ms
      → AllReadable items
      → Stands (record s { items = items; removals = f s.removals }) e
  kept_items f ms items s c e st k same readable = record {
    entries = ms;
    keeps = k.0;
    items = same;
    limit = k.1 ∙ st.limit;
    disk = k.2 ∙ st.disk;
    readable = readable;
    written = st.written;
    freed = k.3 ∙ ap f st.freed;
  }

  pub looked_up :
      (k : Text) (s : Shelf) (c : LruCache) (st : Stands s c)
      → (d : Dict Text ℕ) × (find k c.dict ≡ some (d, place k st.entries))
        × Keeps st.entries (record c { dict = d })
        × Stands s (record c { dict = d })
  looked_up k s c st =
      let (d, run, keeps) = find-Keeps k st.entries c st.keeps in
      (
        d,
        run,
        keeps,
        record {
          entries = st.entries;
          keeps = keeps;
          items = st.items;
          limit = st.limit;
          disk = st.disk;
          readable = st.readable;
          written = st.written;
          freed = st.freed;
        },
      )

  pub erased_items :
      (k : Text) (s : Shelf) (c : LruCache) (st : Stands s c)
      → erase_entry k s.items ≡ forget (erase_entry k st.entries)
  erased_items k s c st = rw st.items (erase_entry-forget k st.entries)

  pub del-Answers :
      (k : Text) (s : Shelf) (c : LruCache)
      → Stands s c
      → Answers (del entry_size k c) (shelf_del k s)
  unfolding del shelf_del
  del-Answers k s c st =
      let (d, run, keeps, st2) = looked_up k s c st in
      elim (Option-cases (find_entry k st.entries)) [
        | inl off ↦
            let none_there : find_entry k s.items ≡ none = found_item k s c st ∙ ap value_at off in
            rw (shelf_del, none_there) (record c { dict = d }, rw (del, run, ◌>>=◌, off) refl, st2)
        | inr ((p, v), found) ↦
            let there : find_entry k s.items ≡ some v = found_item k s c st ∙ ap value_at found in
            let (e, dropped, kept) =
              drop_node-Keeps entry_size k p v st.entries (record c { dict = d }) keeps found in
            rw (shelf_del, there)
              (
                e,
                rw (del, run, ◌>>=◌, found, dropped, ◌>>=◌) refl,
                kept_items suc (erase_entry k st.entries) (erase_entry k s.items) s
                    (record c { dict = d }) e st2 kept (erased_items k s c st)
                    (AllReadable-erase_entry k s.items st.readable),
              )
      ]
