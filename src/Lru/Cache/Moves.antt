-- ===== src/Lru/Cache/Moves.antt =====
-- The changes of a cache, `find`, `replace_node` and a `get` that finds, for lib/lru_cache_v1.h.
use blink_db.Base.{
  ℕ, ◌%◌, ◌^◌, ◌≤◌, ◌∷◌, none, some, ◌≡◌, ◌≢◌, refl, sym, ap, ◌∙◌, arith, Text, text_eq,
  text_eq_sound, Bool-cases, length, inl, inr, ◌>>=◌, Option-cases,
}
use blink_db.Dict.{Dict}
use blink_db.Dict.Keys.{string_key}
use blink_db.Dict.Chains.{find_entry, erase_entry}
use blink_db.Dict.Chains.Laws.{count, length-erase_entry}
use blink_db.Dict.Rehash.Moves.{both}
use blink_db.Dict.Methods.{replace, find}
use blink_db.Dict.Methods.Lookups.{find_lem}
use blink_db.Dict.Methods.Changes.{Reads, Reads-Kept, update}
use blink_db.Dict.Methods.Changes.Replacement.{replace_lem}
use blink_db.Lru.Nodes.{Node, Heap, new_node, add_node, remove_node}
use blink_db.Lru.Nodes.Views.{texts_of, texts_in}
use blink_db.Lru.Nodes.Links.{Entries}
use blink_db.Lru.Nodes.Found.{Free-found, Free-erase_entry}
use blink_db.Lru.Nodes.Listed.{Detached, Noded-found}
use blink_db.Lru.Nodes.Changes.{
  Listed-new_node, remove_node-Listed, add_node-Listed, free_node-Listed,
}
use blink_db.Lru.Order.{weight}
use blink_db.Lru.Order.Values.{Unique-cons, Unique-erase_entry}
use blink_db.Lru.Cache.{LruCache, plus_size, minus_size, node_size, destroyed, replace_node}
use blink_db.Lru.Cache.Sizes.{change_size_count}
use blink_db.Lru.Cache.Standing.{
  forget, place, Keeps, Kept, Reads_alike, weight-erase_entry, place-cons_erased, find-erased,
  node_at,
}

-- The node that has the texts.
pub node_with :
    (h : Heap) (p : ℕ) (k v : Text)
    → texts_of h p ≡ some (k, v)
    → (n : Node) × (h.cell p ≡ some n)
      × (n.key ≡ k)
      × (n.value ≡ v)
      × (node_size n ≡ plus_size (length k) (length v))
unfolding node_size
node_with h p k v texts = elim (Option-cases (h.cell p)) [
  | inl off ↦ let here : none ≡ some (k, v) = sym (ap texts_in off) ∙ texts in cc here
  | inr (n, at) ↦
      let here : some (n.key, n.value) ≡ some (k, v) = sym (ap texts_in at) ∙ texts in
      let key : n.key ≡ k = ground (arith, here) in
      let value : n.value ≡ v = ground (arith, here) in (n, at, key, value, rw (key, value) refl)
]

-- A search leaves what the cache keeps, and finds the node.
pub find-Keeps :
    (k : Text) (ns : Entries) (c : LruCache)
    → Keeps ns c
    → (d : Dict Text ℕ) × (find k c.dict ≡ some (d, place k ns)) × Keeps ns (record c { dict = d })
find-Keeps k ns c s =
    let (d, run, whole, kept) = find_lem k c.dict s.looked.whole in
    (
      d,
      run ∙ rw (s.looked.reads k) refl,
      record {
        listed = s.listed;
        allocated = s.allocated;
        once = s.once;
        looked = Reads-Kept (λ q. place q ns) (length ns) c.dict d s.looked whole kept;
        counted = s.counted;
      },
    )

-- The dictionary with another node for a key that is there.
replace_there :
    (k : Text) (p q : ℕ) (v w : Text) (ns : Entries) (c : LruCache)
    → Keeps ns c
    → find_entry k ns ≡ some (p, w)
    → (d : Dict Text ℕ) × (r : ℕ) × (replace k q c.dict ≡ some (d, r))
      × Reads
          (λ x. place x ((k, (q, v)) ∷ erase_entry k ns))
          (length ((k, (q, v)) ∷ erase_entry k ns))
          d
replace_there k p q v w ns c s found =
    let (d, out) = replace_lem (λ x. place x ns) (length ns) k q c.dict s.looked in
    elim out [
      | inl (new, run, r) ↦ let here : none ≡ some p = sym new ∙ ap node_at found in cc here
      | inr (u, old, run, r) ↦ (
        d,
        0,
        run,
        Reads_alike (update k (some q) (λ x. place x ns))
            (λ x. place x ((k, (q, v)) ∷ erase_entry k ns)) (length ns)
            (length ((k, (q, v)) ∷ erase_entry k ns)) d
            (λ x. place-cons_erased k x q v ns (s.once k))
            (omega (arith, length-erase_entry k ns (p, w) found)) r,
      )
    ]

-- A node with another value takes the place of a key's, and becomes the first.
pub replace_node-Keeps :
    (k v : Text) (p : ℕ) (w : Text) (ns : Entries) (c : LruCache)
    → Keeps ns c
    → find_entry k ns ≡ some (p, w)
    → (q : ℕ) × (e : LruCache) × (replace_node k v p c ≡ some e)
      × Kept (λ m. m) ((k, (q, v)) ∷ erase_entry k ns) c e
unfolding replace_node destroyed weight forget
replace_node-Keeps k v p w ns c s found =
    let q = c.heap.fresh in
    let h0 = new_node k v c.heap in
    let (l0, d0) = Listed-new_node c.heap k v c.head ns c.tail s.allocated s.listed in
    let old = Noded-found h0 k p w ns l0.noded found in
    let (n, at, key, value, sized) = node_with h0 p k w old.2 in
    let (h1, removed, l1, d1, same1, texts1) =
      remove_node-Listed h0 k p w c.head ns c.tail l0 found in
    let (dict, r, ran, looked) = replace_there k p q v w ns c s found in
    let (h2, freed, l2, same2, cells2) =
      free_node-Listed h1 k p w c.head (erase_entry k ns) c.tail l1 d1 in
    let held : both k c.dict ≡ some p = s.looked.reads k ∙ ap node_at found in
    let other : p ≢ q = λ e. Free-found q k p w ns d0.off_list found (sym e) in
    let d2 : Detached h2 k q v c.head (erase_entry k ns) c.tail = record {
      node = (
        d0.node.0,
        rw (same2, same1) d0.node.1,
        ap texts_in (cells2 q other) ∙ texts1 q ∙ d0.node.2,
      );
      off_head = d0.off_head;
      off_tail = d0.off_tail;
      off_list = Free-erase_entry q k ns d0.off_list;
    } in
    let (h3, added, l3, same3, texts3) =
      add_node-Listed h2 k q v c.head (erase_entry k ns) c.tail l2 d2 in
    (
      q,
      record c {
        dict = dict;
        heap = h3;
        current_memory_usage =
            plus_size c.current_memory_usage
              (minus_size (plus_size (length k) (length v)) (node_size n));
      },
      rw
          (
            replace_node, at, ◌>>=◌, removed, ◌>>=◌, ran, ◌>>=◌, destroyed, held, freed, ◌>>=◌,
            added, ◌>>=◌,
          )
          refl,
      (
        record {
          listed = l3;
          allocated = omega (arith, l3.head_old);
          once =
              Unique-cons k (q, v) (erase_entry k ns) (find-erased k ns (s.once k))
                (Unique-erase_entry k ns s.once);
          looked = looked;
          counted =
              rw (s.counted, weight-erase_entry k p w ns found, sized)
                (change_size_count (weight (forget (erase_entry k ns))) (length k) (length v)
                  (length w));
        },
        refl,
        refl,
        refl,
      ),
    )

-- A node that is used becomes the first.
place_used :
    (k q : Text) (p : ℕ) (v : Text) (ns : Entries)
    → count k ns ≤ 1
    → find_entry k ns ≡ some (p, v)
    → place q ns ≡ place q ((k, (p, v)) ∷ erase_entry k ns)
place_used k q p v ns once found = unchanged ∙ place-cons_erased k q p v ns once
  where
    unchanged : place q ns ≡ update k (some p) (λ x. place x ns) q
    unchanged = elim (Bool-cases (text_eq k q)) [
      | inl same ↦ rw (same, ← text_eq_sound k q same) (ap node_at found)
      | inr other ↦ rw other refl
    ]

pub touch-Keeps :
    (k v : Text) (p : ℕ) (ns : Entries) (c : LruCache)
    → Keeps ns c
    → find_entry k ns ≡ some (p, v)
    → (h : Heap) × ((remove_node p c.heap >>= add_node c.head p) ≡ some h)
      × ((m : Node) × (h.cell p ≡ some m) × (m.value ≡ v))
      × Keeps ((k, (p, v)) ∷ erase_entry k ns) (record c { heap = h })
unfolding weight forget
touch-Keeps k v p ns c s found =
    let (h, removed, l, d, same, texts) =
      remove_node-Listed c.heap k p v c.head ns c.tail s.listed found in
    let (g, added, listed, same2, texts2) =
      add_node-Listed h k p v c.head (erase_entry k ns) c.tail l d in
    let (m, at, key, value, sized) = node_with g p k v (texts2 p ∙ d.node.2) in
    (
      g,
      rw (removed, ◌>>=◌) added,
      (m, at, value),
      record {
        listed = listed;
        allocated = omega (arith, listed.head_old);
        once =
            Unique-cons k (p, v) (erase_entry k ns) (find-erased k ns (s.once k))
              (Unique-erase_entry k ns s.once);
        looked =
            Reads_alike (λ q. place q ns) (λ q. place q ((k, (p, v)) ∷ erase_entry k ns))
              (length ns) (length ((k, (p, v)) ∷ erase_entry k ns)) c.dict
              (λ q. place_used k q p v ns (s.once k) found)
              (omega (arith, length-erase_entry k ns (p, v) found)) s.looked;
        counted = s.counted ∙ ap (λ w. w % 2 ^ 64) (weight-erase_entry k p v ns found);
      },
    )
