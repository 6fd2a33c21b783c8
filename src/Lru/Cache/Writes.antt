-- ===== src/Lru/Cache/Writes.antt =====
-- `set` of lib/lru_cache_v1.h, with its eviction, beside the order of use.
use blink_db.Base.{
  ℕ, suc, ◌%◌, ◌^◌, ◌<◌, [], ◌∷◌, some, ◌≡◌, refl, sym, ap, ◌∙◌, subst, arith, Text, length,
  Bool-cases, Option-cases, inl, inr, ◌>>=◌, leb,
}
use blink_db.Dict.{Chain}
use blink_db.Dict.Keys.{string_key}
use blink_db.Dict.Chains.{find_entry, erase_entry}
use blink_db.Storage.{Store, new_store}
use blink_db.Storage
use blink_db.Storage.Reads.{IsKey, IsLine, AllReadable, stored}
use blink_db.Lru.Nodes.{Heap}
use blink_db.Lru.Nodes.Views.{prev_of, prev_cell}
use blink_db.Lru.Nodes.Links.{Entries, Linked}
use blink_db.Lru.Nodes.Listed.{Noded-found}
use blink_db.Lru.Order.{Shelf, weight, used, oldest, shelf_evict, shelf_set}
use blink_db.Lru.Order.Values.{find-oldest}
use blink_db.Lru.Cache.{LruCache, evict, set_value, set}
use blink_db.Lru.Cache.Standing.{forget, Keeps, erase_entry-forget, erase_entry-absent}
use blink_db.Lru.Cache.Moves.{replace_node-Keeps, node_with}
use blink_db.Lru.Cache.Steps.{insert_node-Keeps, drop_node-Keeps}
use blink_db.Lru.Order.Readable.{AllReadable-erase_entry, AllReadable-oldest, AllReadable-cons}
use blink_db.Lru.Cache.Shelves.{Stands, kept_items, looked_up, erased_items}

-- The last entry is before the tail, and its key finds it.
prev_of-tail :
    (h : Heap) (a : ℕ) (e : Text × (ℕ × Text)) (ns : Entries) (t : ℕ)
    → Linked h a (e ∷ ns) t
    → prev_of h t ≡ some (oldest e ns).1.0
unfolding oldest
prev_of-tail h a e [] t l = l.2.1
prev_of-tail h a e (f ∷ ns) t l = prev_of-tail h e.1.0 f ns t l.2

oldest-forget :
    (e : Text × (ℕ × Text)) (ns : Entries)
    → oldest (e.0, e.1.1) (forget ns) ≡ ((oldest e ns).0, (oldest e ns).1.1)
unfolding oldest forget
oldest-forget e [] = refl
oldest-forget e (f ∷ ns) = oldest-forget f ns

-- A cache with another store.
Keeps-elsewhere :
    (ns : Entries) (c : LruCache) (storage : Store)
    → Keeps ns c
    → Keeps ns (record c { storage = storage })
Keeps-elsewhere ns c storage s = record {
  listed = s.listed;
  allocated = s.allocated;
  once = s.once;
  looked = s.looked;
  counted = s.counted;
}

entries_there :
    (items : Chain Text Text) (ns : Entries) → items ≡ forget ns → 0 < length items → 0 < length ns
unfolding forget
entries_there items [] same some_there = omega (arith, ap length same, some_there)
entries_there items (e ∷ ns) same some_there = omega arith

module _ (entry_size : Text → ℕ → ℕ) (hash : Text → ℕ) (n max : ℕ) where
  -- The oldest item moves to the store.
  evict-Stands :
      (ns : Entries) (s : Shelf) (c : LruCache)
      → Keeps ns c
      → s.items ≡ forget ns
      → 0 < length ns
      → c.max_memory_bytes ≡ max
      → c.storage ≡ stored hash s.evicted (new_store n)
      → AllReadable s.items
      → AllReadable s.evicted
      → c.freed_reads ≡ s.removals
      → (e : LruCache) × (evict entry_size hash c ≡ some e)
        × Stands entry_size hash n max (shelf_evict s) e
  unfolding evict shelf_evict forget stored AllReadable
  evict-Stands [] s c keeps items some_there limit disk readable written freed =
      absurd (omega (arith, some_there))
  evict-Stands (e ∷ ns) s c keeps items some_there limit disk readable written freed =
      let last = oldest e ns in
      let found = find-oldest e ns keeps.once in
      let (t, at_t, before) =
        prev_cell (c.heap.cell c.tail) last.1.0
          (prev_of-tail c.heap c.head e ns c.tail keeps.listed.linked) in
      let (m, at, key, value, sized) =
        node_with c.heap last.1.0 last.0 last.1.1
          (Noded-found c.heap last.0 last.1.0 last.1.1 (e ∷ ns) keeps.listed.noded found).2 in
      let c2 = record c { storage = Storage.insert hash last.0 last.1.1 c.storage } in
      let (f, dropped, kept) =
        drop_node-Keeps entry_size last.0 last.1.0 last.1.1 (e ∷ ns) c2
          (Keeps-elsewhere (e ∷ ns) c (Storage.insert hash last.0 last.1.1 c.storage) keeps)
          found in
      let shelf : shelf_evict s ≡ record {
        items = erase_entry last.0 (forget (e ∷ ns));
        evicted = (last.0, last.1.1) ∷ s.evicted;
        removals = suc s.removals;
      } =
        rw (shelf_evict, items, oldest-forget e ns) refl in
      let listed_readable : AllReadable (forget (e ∷ ns)) = subst AllReadable items readable in
      rw shelf (
        f,
        rw (evict, at_t, ◌>>=◌, before, at, ◌>>=◌, key, value) dropped,
        record {
          entries = erase_entry last.0 (e ∷ ns);
          keeps = kept.0;
          items = erase_entry-forget last.0 (e ∷ ns);
          limit = kept.1 ∙ limit;
          disk = kept.2 ∙ rw disk refl;
          readable = AllReadable-erase_entry last.0 (forget (e ∷ ns)) listed_readable;
          written =
              let (hk, hv) =
                subst (λ x. IsKey x.0 × IsLine x.1) (oldest-forget e ns)
                  (AllReadable-oldest (e.0, e.1.1) (forget ns) listed_readable) in
              (hk, hv, written);
          freed = kept.3 ∙ ap suc freed;
        },
      )

  -- The value that is set becomes the last used.
  set_value-Stands :
      (k v : Text) (s : Shelf) (c : LruCache)
      → Stands entry_size hash n max s c
      → IsKey k
      → IsLine v
      → (e : LruCache) × (set_value entry_size k v c ≡ some e)
        × Stands entry_size hash n max (record s { items = used k v s.items }) e
  unfolding set_value forget
  set_value-Stands k v s c st hk hv =
      let (d, run, keeps, st2) = looked_up entry_size hash n max k s c st in
      let readable =
        AllReadable-cons k v (erase_entry k s.items) hk hv
          (AllReadable-erase_entry k s.items st.readable) in
      elim (Option-cases (find_entry k st.entries)) [
        | inl off ↦
            let (p, e, inserted, kept) =
              insert_node-Keeps entry_size k v st.entries (record c { dict = d }) keeps off in
            (
              e,
              rw (set_value, run, ◌>>=◌, off) inserted,
              kept_items entry_size hash n max (λ m. m) ((k, (p, v)) ∷ st.entries)
                  (used k v s.items) s (record c { dict = d }) e st2 kept
                  (ap (λ x. (k, v) ∷ x)
                    (erased_items entry_size hash n max k s c st
                      ∙ ap forget (erase_entry-absent k st.entries off)))
                  readable,
            )
        | inr ((p, w), found) ↦
            let (q, e, replaced, kept) =
              replace_node-Keeps k v p w st.entries (record c { dict = d }) keeps found in
            (
              e,
              rw (set_value, run, ◌>>=◌, found) replaced,
              kept_items entry_size hash n max (λ m. m) ((k, (q, v)) ∷ erase_entry k st.entries)
                  (used k v s.items) s (record c { dict = d }) e st2 kept
                  (ap (λ x. (k, v) ∷ x) (erased_items entry_size hash n max k s c st)) readable,
            )
      ]

  pub set-Stands :
      (k v : Text) (s : Shelf) (c : LruCache)
      → Stands entry_size hash n max s c
      → IsKey k
      → IsLine v
      → (e : LruCache) × (set entry_size hash k v c ≡ some e)
        × Stands entry_size hash n max (shelf_set max k v s) e
  unfolding set shelf_set
  set-Stands k v s c st hk hv =
      let (e, ran, st2) = set_value-Stands k v s c st hk hv in
      let counted : e.current_memory_usage ≡ weight (used k v s.items) % 2 ^ 64 =
        st2.keeps.counted ∙ ap (λ x. weight x % 2 ^ 64) (sym st2.items) in
      elim (Bool-cases (leb max (weight (used k v s.items) % 2 ^ 64))) [
        | inl full ↦
            let (f, evicted, st3) =
              evict-Stands st2.entries (record s { items = used k v s.items }) e st2.keeps st2.items
                (entries_there (used k v s.items) st2.entries st2.items (omega arith)) st2.limit
                st2.disk st2.readable st2.written st2.freed in
            rw (shelf_set, full) (f, rw (set, ran, ◌>>=◌, st2.limit, counted, full) evicted, st3)
        | inr room ↦
            rw (shelf_set, room) (e, rw (set, ran, ◌>>=◌, st2.limit, counted, room) refl, st2)
      ]
