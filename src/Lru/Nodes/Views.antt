-- ===== src/Lru/Nodes/Views.antt =====
-- What stands at an address, after the writes of lib/lru_cache_v1.h.
use blink_db.Base.{
  ℕ, Option, none, some, ◌≡◌, ◌≢◌, refl, ap, ◌∙◌, arith, ◌==◌, ==_iff, ==_refl, if◌then◌else◌, Text,
  ◌>>=◌, inl, inr, Bool-cases, differ,
}
use blink_db.Lru.Nodes.{
  Node, Heap, written, new_node, free_node, set_next, set_prev, add_node, remove_node,
}

abbrev pub next_in : Option Node → Option ℕ
next_in none = none
next_in (some n) = some n.next

abbrev pub prev_in : Option Node → Option ℕ
prev_in none = none
prev_in (some n) = some n.prev

abbrev pub texts_in : Option Node → Option (Text × Text)
texts_in none = none
texts_in (some n) = some (n.key, n.value)

abbrev pub next_of : Heap → ℕ → Option ℕ
next_of h p = next_in (h.cell p)

abbrev pub prev_of : Heap → ℕ → Option ℕ
prev_of h p = prev_in (h.cell p)

-- The key and the value.
abbrev pub texts_of : Heap → ℕ → Option (Text × Text)
texts_of h p = texts_in (h.cell p)

-- A heap with other pointers, and the same texts.
pub record Relinked (h g : Heap) (nexts prevs : ℕ → Option ℕ) : Type 0 where
  pub onward : (q : ℕ) → next_of g q ≡ nexts q
  pub back : (q : ℕ) → prev_of g q ≡ prevs q
  pub texts : (q : ℕ) → texts_of g q ≡ texts_of h q
  pub fresh : g.fresh ≡ h.fresh

pub next_cell :
    (c : Option Node) (a : ℕ) → next_in c ≡ some a → (n : Node) × (c ≡ some n) × (n.next ≡ a)
next_cell none a e = cc e
next_cell (some n) a e = (n, refl, ground arith)

pub prev_cell :
    (c : Option Node) (a : ℕ) → prev_in c ≡ some a → (n : Node) × (c ≡ some n) × (n.prev ≡ a)
prev_cell none a e = cc e
prev_cell (some n) a e = (n, refl, ground arith)

-- What a write changes of a view, and what it leaves.
pub view-written :
    {A : Type 0} (view : Option Node → A) (p q : ℕ) (c : Option Node) (h : Heap)
    → view ((written p c h).cell q) ≡ (if p == q then view c else view (h.cell q))
view-written view p q c h = elim (Bool-cases (p == q)) [ inl e ↦ rw e refl | inr e ↦ rw e refl ]

view_kept :
    {A : Type 0} (view : Option Node → A) (p q : ℕ) (c : Option Node) (h : Heap)
    → view c ≡ view (h.cell p)
    → view ((written p c h).cell q) ≡ view (h.cell q)
view_kept view p q c h same = elim (Bool-cases (p == q)) [
  | inl e ↦ let at : p ≡ q = (==_iff p q).0 e in rw e (same ∙ ap (λ x. view (h.cell x)) at)
  | inr e ↦ rw e refl
]

pub set_next_lem :
    (p a b : ℕ) (h : Heap)
    → next_of h p ≡ some b
    → (g : Heap) × (set_next p a h ≡ some g)
      × Relinked h g (λ q. if p == q then some a else next_of h q) (prev_of h)
unfolding set_next
set_next_lem p a b h e =
    let (n, at, same) = next_cell (h.cell p) b e in
    let c = some (record n { next = a }) in
    (
      written p c h,
      rw at refl,
      record {
        onward = λ q. view-written next_in p q c h;
        back = λ q. view_kept prev_in p q c h (rw at refl);
        texts = λ q. view_kept texts_in p q c h (rw at refl);
        fresh = refl;
      },
    )

pub set_prev_lem :
    (p a b : ℕ) (h : Heap)
    → prev_of h p ≡ some b
    → (g : Heap) × (set_prev p a h ≡ some g)
      × Relinked h g (next_of h) (λ q. if p == q then some a else prev_of h q)
unfolding set_prev
set_prev_lem p a b h e =
    let (n, at, same) = prev_cell (h.cell p) b e in
    let c = some (record n { prev = a }) in
    (
      written p c h,
      rw at refl,
      record {
        onward = λ q. view_kept next_in p q c h (rw at refl);
        back = λ q. view-written prev_in p q c h;
        texts = λ q. view_kept texts_in p q c h (rw at refl);
        fresh = refl;
      },
    )

-- A node between a and b is taken out.
pub remove_node_lem :
    (p a b : ℕ) (h : Heap)
    → p ≢ 0
    → prev_of h p ≡ some a
    → next_of h p ≡ some b
    → next_of h a ≡ some p
    → prev_of h b ≡ some p
    → (g : Heap) × (remove_node p h ≡ some g)
      × Relinked h g
          (λ q. if a == q then some b else next_of h q)
          (λ q. if b == q then some a else prev_of h q)
unfolding remove_node
remove_node_lem p a b h real before after left right =
    let (n, at, to) = next_cell (h.cell p) b after in
    let from : n.prev ≡ a = ground (arith, (rw at at before)) in
    let (h1, first, r1) = set_next_lem a b p h left in
    let (h2, second, r2) = set_prev_lem b a p h1 (r1.back b ∙ right) in
    (
      h2,
      rw (remove_node, differ p 0 real, at, ◌>>=◌, from, to, first, ◌>>=◌) second,
      record {
        onward = λ q. r2.onward q ∙ r1.onward q;
        back = λ q. r2.back q ∙ rw (r1.back q) refl;
        texts = λ q. r2.texts q ∙ r1.texts q;
        fresh = r2.fresh ∙ r1.fresh;
      },
    )

-- A node is put between a and b.
pub add_node_lem :
    (p a b x y : ℕ) (h : Heap)
    → p ≢ 0
    → a ≢ p
    → p ≢ b
    → next_of h a ≡ some b
    → prev_of h b ≡ some a
    → next_of h p ≡ some x
    → prev_of h p ≡ some y
    → (g : Heap) × (add_node a p h ≡ some g)
      × Relinked h g
          (λ q. if p == q then some b else if a == q then some p else next_of h q)
          (λ q. if b == q then some p else if p == q then some a else prev_of h q)
unfolding add_node
add_node_lem p a b x y h real off_a off_b left right after before =
    let (n, at, to) = next_cell (h.cell a) b left in
    let (h1, first, r1) = set_next_lem a p b h left in
    let (h2, second, r2) = set_prev_lem p a y h1 (r1.back p ∙ before) in
    let at_p : next_of h2 p ≡ some x = r2.onward p ∙ r1.onward p ∙ rw (differ a p off_a) after in
    let (h3, third, r3) = set_next_lem p b x h2 at_p in
    let at_b : prev_of h3 b ≡ some a =
      r3.back b ∙ r2.back b ∙ rw (differ p b off_b) (r1.back b ∙ right) in
    let (h4, fourth, r4) = set_prev_lem b p a h3 at_b in
    (
      h4,
      rw (add_node, differ p 0 real, at, ◌>>=◌, to, first, ◌>>=◌, second, ◌>>=◌, third, ◌>>=◌)
          fourth,
      record {
        onward = λ q. r4.onward q ∙ r3.onward q ∙ rw (r2.onward q, r1.onward q) refl;
        back = λ q. r4.back q ∙ rw (r3.back q, r2.back q, r1.back q) refl;
        texts = λ q. r4.texts q ∙ r3.texts q ∙ r2.texts q ∙ r1.texts q;
        fresh = r4.fresh ∙ r3.fresh ∙ r2.fresh ∙ r1.fresh;
      },
    )

-- A new node, where nothing stood.
pub new_node_lem :
    (k v : Text) (h : Heap)
    → (next_of (new_node k v h) h.fresh ≡ some 0)
      × (prev_of (new_node k v h) h.fresh ≡ some 0)
      × (texts_of (new_node k v h) h.fresh ≡ some (k, v))
      × ((q : ℕ) → h.fresh ≢ q → (new_node k v h).cell q ≡ h.cell q)
unfolding new_node
new_node_lem k v h = (
  rw (==_refl h.fresh) refl,
  rw (==_refl h.fresh) refl,
  rw (==_refl h.fresh) refl,
  λ q off. rw (differ h.fresh q off) refl,
)

pub free_node_lem :
    (p a : ℕ) (h : Heap)
    → next_of h p ≡ some a
    → (g : Heap) × (free_node p h ≡ some g)
      × ((q : ℕ) → p ≢ q → g.cell q ≡ h.cell q)
      × (g.fresh ≡ h.fresh)
unfolding free_node
free_node_lem p a h e =
    let (n, at, same) = next_cell (h.cell p) a e in
    (written p none h, rw at refl, λ q off. rw (differ p q off) refl, refl)
