-- ===== src/Lru/Cache/Steps.antt =====
-- The changes of a cache, `insert_node` and `drop_node`, for lib/lru_cache_v1.h.
use blink_db.Base.{
  ℕ, suc, ==_refl, Option-cases, ◌+◌, ◌-◌, ◌∷◌, none, some, ◌≡◌, refl, sym, ap, ◌∙◌, arith, Text,
  length, inl, inr, ◌>>=◌,
}
use blink_db.Dict.{Dict}
use blink_db.Dict.Keys.{string_key}
use blink_db.Dict.Chains.{find_entry, erase_entry}
use blink_db.Dict.Chains.Laws.{length-erase_entry}
use blink_db.Dict.Rehash.Moves.{both}
use blink_db.Dict.Methods.{add, remove}
use blink_db.Dict.Methods.Changes.{Reads, update}
use blink_db.Dict.Methods.Changes.Additions.{add_lem}
use blink_db.Dict.Methods.Changes.Removal.{remove_lem}
use blink_db.Lru.Nodes.{Heap, new_node, free_node, written}
use blink_db.Lru.Nodes.Links.{Entries}
use blink_db.Lru.Nodes.Changes.{
  Listed-new_node, remove_node-Listed, add_node-Listed, free_node-Listed,
}
use blink_db.Lru.Order.{weight}
use blink_db.Lru.Order.Values.{Unique-cons, Unique-erase_entry}
use blink_db.Lru.Cache.{
  LruCache, plus_size, minus_size, node_size, destroyed, freed_read, insert_node, drop_node,
}
use blink_db.Lru.Cache.Sizes.{plus_size_count, minus_size_count}
use blink_db.Lru.Cache.Standing.{
  forget, place, Keeps, Kept, Reads_alike, weight-erase_entry, place-erase_entry, place-cons,
  node_at,
}
use blink_db.Lru.Cache.Moves.{node_with}

module _ (entry_size : Text → ℕ → ℕ) where
  add_new :
      (k : Text) (p : ℕ) (v : Text) (ns : Entries) (c : LruCache)
      → Keeps ns c
      → find_entry k ns ≡ none
      → (d : Dict Text ℕ) × (add entry_size k p c.dict ≡ some (d, 0))
        × Reads (λ q. place q ((k, (p, v)) ∷ ns)) (length ((k, (p, v)) ∷ ns)) d
  add_new k p v ns c s off =
      let (d, out) = add_lem entry_size (λ q. place q ns) (length ns) k p c.dict s.looked in
      elim out [
        | inl (new, run, r) ↦ (
          d,
          run,
          Reads_alike (update k (some p) (λ q. place q ns)) (λ q. place q ((k, (p, v)) ∷ ns))
              (length ns + 1) (length ((k, (p, v)) ∷ ns)) d (λ q. place-cons k q p v ns)
              (omega arith) r,
        )
        | inr (w, old, run, r) ↦ let here : none ≡ some w = sym (ap node_at off) ∙ old in cc here
      ]

  -- A key that is not there becomes the first entry.
  pub insert_node-Keeps :
      (k v : Text) (ns : Entries) (c : LruCache)
      → Keeps ns c
      → find_entry k ns ≡ none
      → (p : ℕ) × (e : LruCache) × (insert_node entry_size k v c ≡ some e)
        × Kept (λ m. m) ((k, (p, v)) ∷ ns) c e
  unfolding insert_node weight forget
  insert_node-Keeps k v ns c s off =
      let p = c.heap.fresh in
      let (l, d) = Listed-new_node c.heap k v c.head ns c.tail s.allocated s.listed in
      let (dict, ran, looked) = add_new k p v ns c s off in
      let (h, added, listed, same, texts) =
        add_node-Listed (new_node k v c.heap) k p v c.head ns c.tail l d in
      (
        p,
        record c {
          dict = dict;
          heap = h;
          current_memory_usage =
              plus_size c.current_memory_usage
                (plus_size (length k) (plus_size (length k) (length v)));
        },
        rw (insert_node, ran, ◌>>=◌, added, ◌>>=◌) refl,
        (
          record {
            listed = listed;
            allocated = omega (arith, listed.head_old);
            once = Unique-cons k (p, v) ns off s.once;
            looked = looked;
            counted = rw s.counted (plus_size_count (weight (forget ns)) (length k) (length v));
          },
          refl,
          refl,
          refl,
        ),
      )

  -- The dictionary without a key that is there.
  remove_old :
      (k : Text) (p : ℕ) (v : Text) (ns : Entries) (c : LruCache)
      → Keeps ns c
      → find_entry k ns ≡ some (p, v)
      → (d : Dict Text ℕ) × (r : ℕ) × (remove entry_size k c.dict ≡ some (d, r))
        × Reads (λ q. place q (erase_entry k ns)) (length (erase_entry k ns)) d
  remove_old k p v ns c s found =
      let (d, out) = remove_lem entry_size (λ q. place q ns) (length ns) k c.dict s.looked in
      elim out [
        | inl (new, run, r) ↦ let here : none ≡ some p = sym new ∙ ap node_at found in cc here
        | inr (w, old, run, more, r, total) ↦ (
          d,
          0,
          run,
          Reads_alike (update k none (λ q. place q ns)) (λ q. place q (erase_entry k ns))
              (length ns - 1) (length (erase_entry k ns)) d
              (λ q. place-erase_entry k q ns (s.once k))
              (omega (arith, length-erase_entry k ns (p, v) found)) r,
        )
      ]

  -- What was freed is gone.
  free_node_gone : (h g : Heap) (p : ℕ) → free_node p h ≡ some g → g.cell p ≡ none
  unfolding free_node written
  free_node_gone h g p freed = elim (Option-cases (h.cell p)) [
    | inl e ↦ cc (rw (free_node, e, ◌>>=◌) at freed)
    | inr (n, e) ↦
        let same : written p none h ≡ g = ground (arith, rw (free_node, e, ◌>>=◌) at freed) in
        rw (← same, written, ==_refl p) refl
  ]

  freed_read_once :
      (k : Text) (d : Dict Text ℕ) (g : Heap) (p : ℕ)
      → both k d ≡ some p
      → g.cell p ≡ none
      → freed_read k d g ≡ 1
  unfolding freed_read
  freed_read_once k d g p held gone = rw (freed_read, held, gone) refl

  -- The entry of a node is taken out.
  pub drop_node-Keeps :
      (k : Text) (p : ℕ) (v : Text) (ns : Entries) (c : LruCache)
      → Keeps ns c
      → find_entry k ns ≡ some (p, v)
      → (e : LruCache) × (drop_node entry_size p c ≡ some e) × Kept suc (erase_entry k ns) c e
  unfolding drop_node destroyed
  drop_node-Keeps k p v ns c s found =
      let (h, removed, l, d, same, texts) =
        remove_node-Listed c.heap k p v c.head ns c.tail s.listed found in
      let (n, at, key, value, sized) = node_with h p k v d.node.2 in
      let (dict, r, ran, looked) = remove_old k p v ns c s found in
      let (g, freed, listed, same2, cells) =
        free_node-Listed h k p v c.head (erase_entry k ns) c.tail l d in
      let held : both k c.dict ≡ some p = s.looked.reads k ∙ ap node_at found in
      let counted : freed_read k c.dict g ≡ 1 =
        freed_read_once k c.dict g p held (free_node_gone h g p freed) in
      (
        record c {
          dict = dict;
          heap = g;
          current_memory_usage =
              minus_size c.current_memory_usage (plus_size (length n.key) (node_size n));
          freed_reads = 1 + c.freed_reads;
        },
        rw
            (
              drop_node, removed, ◌>>=◌, at, ◌>>=◌, key, ran, ◌>>=◌, destroyed, held, freed, ◌>>=◌,
              counted,
            )
            refl,
        (
          record {
            listed = listed;
            allocated = omega (arith, listed.head_old);
            once = Unique-erase_entry k ns s.once;
            looked = looked;
            counted =
                rw (s.counted, weight-erase_entry k p v ns found, key, sized)
                  (minus_size_count (weight (forget (erase_entry k ns))) (length k) (length v));
          },
          refl,
          refl,
          omega arith,
        ),
      )
