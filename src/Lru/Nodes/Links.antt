-- ===== src/Lru/Nodes/Links.antt =====
-- The list of the cache in lib/lru_cache_v1.h: nodes that point to each other, between the head and the tail.
use blink_db.Base.{
  ℕ, [], ◌∷◌, some, ◌≡◌, ◌≢◌, refl, sym, ap, ◌∙◌, arith, ◌==◌, ==_refl, if◌then◌else◌, Text, All,
  differ,
}
use blink_db.Dict.{Chain}
use blink_db.Dict.Keys.{string_key}
use blink_db.Lru.Nodes.{Heap}
use blink_db.Lru.Nodes.Views.{next_of, prev_of}

-- The entries of a cache by their keys: where the node stands, and its value.
abbrev pub Entries : Type 0
Entries = Chain Text (ℕ × Text)

-- From node a to node t by way of the entries.
abbrev pub Linked : Heap → ℕ → Entries → ℕ → Type 0
Linked h a [] t = (next_of h a ≡ some t) × (prev_of h t ≡ some a)
Linked h a (e ∷ ns) t =
    (next_of h a ≡ some e.1.0) × (prev_of h e.1.0 ≡ some a) × Linked h e.1.0 ns t

-- No entry stands at x.
abbrev pub Free : ℕ → Entries → Type 0
Free x ns = All (λ e. x ≢ e.1.0) ns

-- No two of the nodes from a to t are the same.
abbrev pub Apart : ℕ → Entries → ℕ → Type 0
Apart a [] t = a ≢ t
Apart a (e ∷ ns) t = (a ≢ t) × (a ≢ e.1.0) × Free a ns × Apart e.1.0 ns t

-- The pointers of g and h differ at x and w onward, and at y and z back.
abbrev pub Alike : Heap → Heap → ℕ → ℕ → ℕ → ℕ → Type 0
Alike g h x w y z =
    ((q : ℕ) → x ≢ q → w ≢ q → next_of g q ≡ next_of h q)
    × ((q : ℕ) → y ≢ q → z ≢ q → prev_of g q ≡ prev_of h q)

pub Linked_elsewhere :
    (g h : Heap) (x w y z a : ℕ) (ns : Entries) (t : ℕ)
    → Alike g h x w y z
    → x ≢ a
    → w ≢ a
    → Free x ns
    → Free w ns
    → Free y ns
    → Free z ns
    → y ≢ t
    → z ≢ t
    → Linked h a ns t
    → Linked g a ns t
Linked_elsewhere g h x w y z a [] t alike xa wa xs ws ys zs yt zt l =
    (alike.0 a xa wa ∙ l.0, alike.1 t yt zt ∙ l.1)
Linked_elsewhere g h x w y z a (e ∷ ns) t alike xa wa xs ws ys zs yt zt l = (
  alike.0 a xa wa ∙ l.0,
  alike.1 e.1.0 ys.0 zs.0 ∙ l.1,
  Linked_elsewhere g h x w y z e.1.0 ns t alike xs.0 ws.0 xs.1 ws.1 ys.1 zs.1 yt zt l.2,
)

-- The pointers after a node between b and c is taken out.
abbrev pub Bridged : Heap → Heap → ℕ → ℕ → Type 0
Bridged g h b c =
    ((q : ℕ) → next_of g q ≡ (if b == q then some c else next_of h q))
    × ((q : ℕ) → prev_of g q ≡ (if c == q then some b else prev_of h q))

pub Bridged-Alike : (g h : Heap) (b c : ℕ) → Bridged g h b c → Alike g h b b c c
Bridged-Alike g h b c r =
    (λ q off off2. r.0 q ∙ rw (differ b q off) refl, λ q off off2. r.1 q ∙ rw (differ c q off) refl)

pub Apart-first : (a : ℕ) (ns : Entries) (t : ℕ) → Apart a ns t → (a ≢ t) × Free a ns
Apart-first a [] t apart = (apart, tt)
Apart-first a (e ∷ ns) t apart = (apart.0, (apart.1, apart.2))

-- A node p put behind a.
pub Linked-cons :
    (g h : Heap) (k v : Text) (p a : ℕ) (ns : Entries) (t b : ℕ)
    → Linked h a ns t
    → Apart a ns t
    → p ≢ a
    → p ≢ t
    → Free p ns
    → next_of h a ≡ some b
    → ((q : ℕ) → next_of g q ≡ (if p == q then some b else if a == q then some p else next_of h q))
    → ((q : ℕ) → prev_of g q ≡ (if b == q then some p else if p == q then some a else prev_of h q))
    → Linked g a ((k, (p, v)) ∷ ns) t
Linked-cons g h k v p a [] t b l apart pa pt free to nexts prevs =
    let at : b ≡ t = ground (arith, to, l.0) in
    (
      nexts a ∙ rw (differ p a pa, ==_refl a) refl,
      prevs p ∙ rw (at, differ t p (λ e. pt (sym e)), ==_refl p) refl,
      (nexts p ∙ rw (==_refl p) (ap some at), prevs t ∙ rw (at, ==_refl t) refl),
    )
Linked-cons g h k v p a (e ∷ ns) t b l apart pa pt free to nexts prevs =
    let at : b ≡ e.1.0 = ground (arith, to, l.0) in
    let (off, rest) = Apart-first e.1.0 ns t apart.3 in
    (
      nexts a ∙ rw (differ p a pa, ==_refl a) refl,
      prevs p ∙ rw (at, differ e.1.0 p (λ s. free.0 (sym s)), ==_refl p) refl,
      (
        nexts p ∙ rw (==_refl p) (ap some at),
        prevs e.1.0 ∙ rw (at, ==_refl e.1.0) refl,
        Linked_elsewhere g h p a b p e.1.0 ns t
            (
              λ q o1 o2. nexts q ∙ rw (differ p q o1, differ a q o2) refl,
              λ q o1 o2. prevs q ∙ rw (differ b q o1, differ p q o2) refl,
            )
            free.0 apart.1 free.1 apart.2 (rw at rest) free.1 (rw at off) pt l.2,
      ),
    )
