-- ===== src/Lru/Nodes/Changes.antt =====
-- What `new Node`, `free`, `add` and `remove` of lib/lru_cache_v1.h do to the list of a cache.
use blink_db.Base.{
  ℕ, ◌<◌, [], ◌∷◌, some, ◌≡◌, ◌≢◌, sym, ap, ◌∙◌, arith, Text, inl, inr, Option-cases,
}
use blink_db.Dict.Keys.{string_key}
use blink_db.Dict.Chains.{find_entry, erase_entry}
use blink_db.Lru.Nodes.{Heap, new_node, free_node, add_node, remove_node}
use blink_db.Lru.Nodes.Views.{
  next_of, prev_of, texts_of, texts_in, next_in, prev_in, remove_node_lem, add_node_lem,
  new_node_lem, free_node_lem,
}
use blink_db.Lru.Nodes.Links.{Entries, Linked, Free, Apart, Linked-cons, Apart-first}
use blink_db.Lru.Nodes.Found.{neighbours, Apart-erase_entry, found-Apart}
use blink_db.Lru.Nodes.Listed.{
  Listed, Detached, Noded-found, Noded-erase_entry, Noded-kept, Listed-elsewhere, Free-fresh,
}

pub Listed-new_node :
    (h : Heap) (k v : Text) (a : ℕ) (ns : Entries) (t : ℕ)
    → 0 < h.fresh
    → Listed h a ns t
    → Listed (new_node k v h) a ns t × Detached (new_node k v h) k h.fresh v a ns t
unfolding new_node
Listed-new_node h k v a ns t pos l =
    let (next, prev, texts, cells) = new_node_lem k v h in
    let off_a : a ≢ h.fresh = λ e. omega (arith, e, l.head_old) in
    let off_t : h.fresh ≢ t = λ e. omega (arith, e, l.tail_old) in
    let free = Free-fresh h ns l.noded in
    (
      Listed-elsewhere h (new_node k v h) h.fresh a ns t cells (omega arith) off_a off_t free l,
      record {
        node = (pos, omega arith, texts);
        off_head = off_a;
        off_tail = off_t;
        off_list = free;
      },
    )

pointers :
    (h : Heap) (p : ℕ) (x : Text × Text)
    → texts_of h p ≡ some x
    → (a : ℕ) × (b : ℕ) × (next_of h p ≡ some a) × (prev_of h p ≡ some b)
pointers h p x e = elim (Option-cases (h.cell p)) [
  | inl off ↦ cc (sym e ∙ ap texts_in off)
  | inr (n, at) ↦ (n.next, n.prev, ap next_in at, ap prev_in at)
]

pub remove_node-Listed :
    (h : Heap) (k : Text) (p : ℕ) (v : Text) (a : ℕ) (ns : Entries) (t : ℕ)
    → Listed h a ns t
    → find_entry k ns ≡ some (p, v)
    → (g : Heap) × (remove_node p h ≡ some g)
      × Listed g a (erase_entry k ns) t
      × Detached g k p v a (erase_entry k ns) t
      × (g.fresh ≡ h.fresh)
      × ((q : ℕ) → texts_of g q ≡ texts_of h q)
remove_node-Listed h k p v a ns t l found =
    let n = neighbours h k p v a ns t l.linked l.apart found in
    let (off_a, off_t, free) = found-Apart k p v a ns t l.apart found in
    let node = Noded-found h k p v ns l.noded found in
    let (g, run, r) =
      remove_node_lem p n.left n.right h (λ e. omega (arith, e, node.0)) n.before n.after n.to
        n.from in
    (
      g,
      run,
      record {
        linked = n.without g (r.onward, r.back);
        apart = Apart-erase_entry k a ns t l.apart;
        noded =
            Noded-kept h g (erase_entry k ns) r.texts r.fresh (Noded-erase_entry h k ns l.noded);
        head_old = rw r.fresh l.head_old;
        tail_old = rw r.fresh l.tail_old;
      },
      record {
        node = (node.0, rw r.fresh node.1, r.texts p ∙ node.2);
        off_head = off_a;
        off_tail = off_t;
        off_list = free;
      },
      r.fresh,
      r.texts,
    )

first_of :
    (h : Heap) (a : ℕ) (ns : Entries) (t : ℕ)
    → Linked h a ns t
    → Apart a ns t
    → (b : ℕ) × (next_of h a ≡ some b)
      × (prev_of h b ≡ some a)
      × ((p : ℕ) → Free p ns → p ≢ t → p ≢ b)
first_of h a [] t l apart = (t, l.0, l.1, λ p free off. off)
first_of h a (e ∷ ns) t l apart = (e.1.0, l.0, l.1, λ p free off. free.0)

pub add_node-Listed :
    (h : Heap) (k : Text) (p : ℕ) (v : Text) (a : ℕ) (ns : Entries) (t : ℕ)
    → Listed h a ns t
    → Detached h k p v a ns t
    → (g : Heap) × (add_node a p h ≡ some g)
      × Listed g a ((k, (p, v)) ∷ ns) t
      × (g.fresh ≡ h.fresh)
      × ((q : ℕ) → texts_of g q ≡ texts_of h q)
add_node-Listed h k p v a ns t l d =
    let (b, to, from, off) = first_of h a ns t l.linked l.apart in
    let (x, y, after, before) = pointers h p (k, v) d.node.2 in
    let (g, run, r) =
      add_node_lem p a b x y h (λ e. omega (arith, e, d.node.0)) d.off_head
        (off p d.off_list d.off_tail) to from after before in
    let off_head : p ≢ a = λ e. d.off_head (sym e) in
    let (far, rest) = Apart-first a ns t l.apart in
    (
      g,
      run,
      record {
        linked =
            Linked-cons g h k v p a ns t b l.linked l.apart off_head d.off_tail d.off_list to
              r.onward r.back;
        apart = (far, d.off_head, rest, Apart_behind p a ns t d.off_tail d.off_list l.apart);
        noded = Noded-kept h g ((k, (p, v)) ∷ ns) r.texts r.fresh (d.node, l.noded);
        head_old = rw r.fresh l.head_old;
        tail_old = rw r.fresh l.tail_old;
      },
      r.fresh,
      r.texts,
    )
  where
    Apart_behind :
        (p a : ℕ) (ns : Entries) (t : ℕ) → p ≢ t → Free p ns → Apart a ns t → Apart p ns t
    Apart_behind p a [] t off free apart = off
    Apart_behind p a (e ∷ ns) t off free apart = (off, free.0, free.1, apart.3)

pub free_node-Listed :
    (h : Heap) (k : Text) (p : ℕ) (v : Text) (a : ℕ) (ns : Entries) (t : ℕ)
    → Listed h a ns t
    → Detached h k p v a ns t
    → (g : Heap) × (free_node p h ≡ some g)
      × Listed g a ns t
      × (g.fresh ≡ h.fresh)
      × ((q : ℕ) → p ≢ q → g.cell q ≡ h.cell q)
free_node-Listed h k p v a ns t l d =
    let (x, y, after, before) = pointers h p (k, v) d.node.2 in
    let (g, run, cells, same) = free_node_lem p x h after in
    (
      g,
      run,
      Listed-elsewhere h g p a ns t cells (omega (arith, same)) d.off_head d.off_tail d.off_list l,
      same,
      cells,
    )
