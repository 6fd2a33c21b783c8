-- ===== src/Lru/Cache/Calls.antt =====
-- The cache of lib/lru_cache_v1.h in use: a sequence of calls, beside the order of use that it stands for.
use blink_db.Base.{
  ℕ, zero, suc, ◌<◌, List, [], ◌∷◌, ◌++◌, Option, none, some, ◌≡◌, refl, ap, ◌∙◌, arith, Text,
  codes, ◌>>=◌, length, ==_refl, All, Bool, differ,
}
use blink_db.Dict.{Chain, Dict}
use blink_db.Dict
use blink_db.Dict.Keys.{string_key}
use blink_db.Dict.Chains.{find_entry}
use blink_db.Dict.Chains.Laws.{count}
use blink_db.Dict.Run
use blink_db.Storage.{new_store}
use blink_db.Storage.Reads.{AllReadable, stored}
use blink_db.Lru.Nodes.{Heap, new_node}
use blink_db.Lru.Nodes.Views.{set_next_lem, set_prev_lem, next_of, next_cell}
use blink_db.Lru.Nodes.Links.{Entries, Linked, Apart, Apart-first}
use blink_db.Lru.Nodes.Listed.{Noded}
use blink_db.Lru.Order.{
  Shelf, empty_shelf, weight, rows, CacheCall, set_call, get_call, del_call, print_call,
  memory_call, limit_call, size_call, CacheAnswer, done, shown, number, shelf_call, shelf_run,
  Lines,
}
use blink_db.Lru.Cache.{
  end_nodes, LruCache, new_cache, set, get, del, printed, print_list, memory_usage, max_memory,
  size,
}
use blink_db.Lru.Cache.Standing.{forget, place, Reads_alike}
use blink_db.Lru.Cache.Moves.{node_with}
use blink_db.Lru.Cache.Shelves.{Stands, Answers, del-Answers}
use blink_db.Lru.Cache.Writes.{set-Stands}
use blink_db.Lru.Cache.Reads.{get-Answers}

length-forget : (ns : Entries) → length (forget ns) ≡ length ns
unfolding forget
length-forget [] = refl
length-forget (e ∷ ns) = ap suc (length-forget ns)

-- The walk along the list ends at the tail.
printed_rows :
    (rounds : ℕ) (h : Heap) (a : ℕ) (ns : Entries) (t : ℕ)
    → Linked h a ns t
    → Apart a ns t
    → All (Noded h) ns
    → length ns < rounds
    → (x : ℕ) × (next_of h a ≡ some x) × (printed rounds x t h ≡ some (rows (forget ns)))
unfolding printed rows forget
printed_rows zero h a ns t l apart noded few = absurd (omega (arith, few))
printed_rows (suc rounds) h a [] t l apart noded few = (t, l.0, rw (printed, ==_refl t) refl)
printed_rows (suc rounds) h a (e ∷ ns) t l apart noded few =
    let (x, to, rest) = printed_rows rounds h e.1.0 ns t l.2 apart.3 noded.1 (omega (arith, few)) in
    let (m, at, key, value, sized) = node_with h e.1.0 e.0 e.1.1 noded.0.2 in
    let next : m.next ≡ x = ground (arith, rw at at to) in
    let (off, free) = Apart-first e.1.0 ns t apart.3 in
    (e.1.0, l.0, rw (printed, differ e.1.0 t off, at, ◌>>=◌, next, rest, ◌>>=◌, key, value) refl)

module _ (entry_size : Text → ℕ → ℕ) (hash : Text → ℕ) where
  -- The calls on the cache.
  unfoldable pub cache_call : CacheCall → LruCache → Option (LruCache × CacheAnswer)
  cache_call (set_call k v) c = set entry_size hash k v c >>= λ e. some (e, done)
  cache_call (get_call k) c = get entry_size hash k c >>= λ r. some (r.0, shown r.1)
  cache_call (del_call k) c = del entry_size k c >>= λ r. some (r.0, number r.1)
  cache_call print_call c = print_list c >>= λ t. some (c, shown t)
  cache_call memory_call c = some (c, number (memory_usage c))
  cache_call limit_call c = some (c, number (max_memory c))
  cache_call size_call c = some (c, number (size c))

  unfoldable pub cache_run : List CacheCall → LruCache → Option (LruCache × List CacheAnswer)
  cache_run [] c = some (c, [])
  cache_run (call ∷ calls) c =
      cache_call call c >>= λ r. cache_run calls r.0 >>= λ s. some (s.0, r.1 ∷ s.1)

  module _ (n max : ℕ) (pos : 0 < n) where
    print_list_lem :
        (s : Shelf) (c : LruCache)
        → Stands entry_size hash n max s c
        → print_list c ≡ some (codes "Cache state: " ++ (rows s.items ++ (10 ∷ [])))
    unfolding print_list
    print_list_lem s c st =
        let l = st.keeps.listed in
        let (x, to, walk) =
          printed_rows (suc (size c)) c.heap c.head st.entries c.tail l.linked l.apart l.noded
            (omega (arith, st.keeps.looked.number)) in
        let (m, at, next) = next_cell (c.heap.cell c.head) x to in
        rw (print_list, at, ◌>>=◌, next, walk, ◌>>=◌, st.items) refl

    pub call-Answers :
        (call : CacheCall) (calls : List CacheCall) (s : Shelf) (c : LruCache)
        → Lines (call ∷ calls)
        → Stands entry_size hash n max s c
        → Answers entry_size hash n max (cache_call call c) (shelf_call max call s) × Lines calls
    unfolding cache_call shelf_call Lines
    call-Answers (set_call k v) calls s c (hk, hv, lines) st =
        let (e, run, st2) = set-Stands entry_size hash n max k v s c st hk hv in
        ((e, rw (cache_call, run, ◌>>=◌) refl, st2), lines)
    call-Answers (get_call k) calls s c lines st =
        let (e, run, st2) = get-Answers entry_size hash n max k s c pos st in
        ((e, rw (cache_call, run, ◌>>=◌) refl, st2), lines)
    call-Answers (del_call k) calls s c lines st =
        let (e, run, st2) = del-Answers entry_size hash n max k s c st in
        ((e, rw (cache_call, run, ◌>>=◌) refl, st2), lines)
    call-Answers print_call calls s c lines st =
        ((c, rw (cache_call, print_list_lem s c st, ◌>>=◌) refl, st), lines)
    call-Answers memory_call calls s c lines st =
        ((c, rw (cache_call, st.keeps.counted, st.items) refl, st), lines)
    call-Answers limit_call calls s c lines st = ((c, rw (cache_call, st.limit) refl, st), lines)
    call-Answers size_call calls s c lines st = (
      (c, rw (cache_call, st.keeps.looked.number, st.items, length-forget st.entries) refl, st),
      lines,
    )

    pub new_cache-Stands :
        (can_resize : Bool)
        → (c : LruCache) × (new_cache can_resize n max ≡ some c)
          × Stands entry_size hash n max empty_shelf c
    unfolding new_cache
    new_cache-Stands can_resize =
        let (h1, first, r1) = set_next_lem 1 2 0 end_nodes (unfold new_node in refl) in
        let (h2, second, r2) = set_prev_lem 2 1 0 h1 (r1.back 2 ∙ (unfold new_node in refl)) in
        let d = Run.new-Stands can_resize in
        (
          record {
            dict = Dict.new can_resize;
            heap = h2;
            head = 1;
            tail = 2;
            current_memory_usage = 0;
            max_memory_bytes = max;
            storage = new_store n;
            freed_reads = 0;
          },
          rw (first, ◌>>=◌, second, ◌>>=◌) refl,
          record {
            entries = [];
            keeps = record {
              listed = record {
                linked = (r2.onward 1 ∙ r1.onward 1, r2.back 2);
                apart = λ e. omega (arith, e);
                noded = tt;
                head_old = unfold new_node in rw (r2.fresh, r1.fresh) (omega arith);
                tail_old = unfold new_node in rw (r2.fresh, r1.fresh) (omega arith);
              };
              allocated = unfold new_node in rw (r2.fresh, r1.fresh) (omega arith);
              once = λ q. unfold count in omega arith;
              looked =
                  Reads_alike (λ k. none) (λ q. place q []) 0 0 (Dict.new can_resize)
                    (λ q. unfold find_entry in refl) refl d;
              counted = unfold forget weight in refl;
            };
            items = unfold forget in refl;
            limit = refl;
            disk = unfold stored in refl;
            readable = unfold AllReadable in tt;
            written = unfold AllReadable in tt;
            freed = refl;
          },
        )

    pub run_from :
        (calls : List CacheCall) (s : Shelf) (c : LruCache)
        → Lines calls
        → Stands entry_size hash n max s c
        → Answers entry_size hash n max (cache_run calls c) (shelf_run max calls s)
    unfolding cache_run shelf_run
    run_from [] s c lines st = (c, refl, st)
    run_from (call ∷ calls) s c lines st =
        let ((d, run, st2), rest) = call-Answers call calls s c lines st in
        let (e, runs, st3) = run_from calls (shelf_call max call s).0 d rest st2 in
        (e, rw (cache_run, run, ◌>>=◌, runs, ◌>>=◌) refl, st3)

  -- From a new cache of any limit over an empty store with a filter of n counters, n above 0, any sequence of
  -- calls of `set`, `get`, `del`, `printList`, `memory_usage`, `max_memory` and `size`, where the keys that are
  -- set are not empty and have no white space and the values are of one line, not empty and do not begin with white
  -- space, returns. The calls return and print what they return on the list of the keys and values in the order
  -- of use, where a `set` that reaches the limit evicts one item. The calls follow no pointer of the list to a node
  -- that is freed. The reads of freed nodes that remain are those of `dictDelete`, which asks for the size of a node
  -- that it has freed, whatever it reads there: one for each item that is evicted or deleted.
  pub cache_run-shelf_run :
      (can_resize : Bool) (n max : ℕ) (calls : List CacheCall)
      → 0 < n
      → Lines calls
      → (c : LruCache) × (e : LruCache) × (new_cache can_resize n max ≡ some c)
        × (cache_run calls c ≡ some (e, (shelf_run max calls empty_shelf).1))
        × (e.freed_reads ≡ (shelf_run max calls empty_shelf).0.removals)
  cache_run-shelf_run can_resize n max calls pos lines =
      let (c, made, st) = new_cache-Stands n max pos can_resize in
      let (e, run, st2) = run_from n max pos calls empty_shelf c lines st in
      (c, e, made, run, st2.freed)
