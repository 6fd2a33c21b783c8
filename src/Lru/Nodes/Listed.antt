-- ===== src/Lru/Nodes/Listed.antt =====
-- The list of a cache after the calls of lib/lru_cache_v1.h that change it, with the texts of its nodes.
use blink_db.Base.{
  ℕ, ◌<◌, ◌≤◌, [], ◌∷◌, some, ◌≡◌, ◌≢◌, refl, sym, ap, ◌∙◌, arith, Text, text_eq, text_eq_sound,
  Bool-cases, inl, inr, All,
}
use blink_db.Dict.Keys.{string_key}
use blink_db.Dict.Chains.{find_entry, erase_entry}
use blink_db.Lru.Nodes.{Heap}
use blink_db.Lru.Nodes.Views.{texts_of, texts_in, next_in, prev_in}
use blink_db.Lru.Nodes.Links.{Entries, Linked, Free, Apart, Linked_elsewhere}

-- An entry whose node is allocated and has its texts.
abbrev pub Noded : Heap → Text × (ℕ × Text) → Type 0
Noded h e = (0 < e.1.0) × (e.1.0 < h.fresh) × (texts_of h e.1.0 ≡ some (e.0, e.1.1))

-- The list of a cache, from its head a to its tail t.
pub record Listed (h : Heap) (a : ℕ) (ns : Entries) (t : ℕ) : Type 0 where
  pub linked : Linked h a ns t
  pub apart : Apart a ns t
  pub noded : All (Noded h) ns
  pub head_old : a < h.fresh
  pub tail_old : t < h.fresh

-- A node with texts that is not in the list.
pub record Detached (h : Heap) (k : Text) (p : ℕ) (v : Text) (a : ℕ) (ns : Entries) (t : ℕ)
    : Type 0 where
  pub node : Noded h (k, (p, v))
  pub off_head : a ≢ p
  pub off_tail : p ≢ t
  pub off_list : Free p ns

pub Noded-found :
    (h : Heap) (k : Text) (p : ℕ) (v : Text) (ns : Entries)
    → All (Noded h) ns
    → find_entry k ns ≡ some (p, v)
    → Noded h (k, (p, v))
unfolding find_entry
Noded-found h k p v [] noded found = cc found
Noded-found h k p v (e ∷ ns) noded found = elim (Bool-cases (text_eq k e.0)) [
  | inl same ↦
      let at : some e.1 ≡ some (p, v) = sym (rw same refl) ∙ found in
      let at_p : e.1.0 ≡ p = ground (arith, at) in
      let at_v : e.1.1 ≡ v = ground (arith, at) in
      rw (text_eq_sound k e.0 same, ← at_p, ← at_v) noded.0
  | inr other ↦ Noded-found h k p v ns noded.1 (sym (rw other refl) ∙ found)
]

pub Noded-erase_entry :
    (h : Heap) (k : Text) (ns : Entries) → All (Noded h) ns → All (Noded h) (erase_entry k ns)
unfolding erase_entry
Noded-erase_entry h k [] noded = tt
Noded-erase_entry h k (e ∷ ns) noded = elim (Bool-cases (text_eq k e.0)) [
  | inl same ↦ rw same noded.1
  | inr other ↦ rw other (noded.0, Noded-erase_entry h k ns noded.1)
]

-- The same texts, and no address less.
pub Noded-kept :
    (h g : Heap) (ns : Entries)
    → ((q : ℕ) → texts_of g q ≡ texts_of h q)
    → g.fresh ≡ h.fresh
    → All (Noded h) ns
    → All (Noded g) ns
Noded-kept h g [] texts same noded = tt
Noded-kept h g (e ∷ ns) texts same noded =
    ((noded.0.0, rw same noded.0.1, texts e.1.0 ∙ noded.0.2), Noded-kept h g ns texts same noded.1)

pub Noded-elsewhere :
    (h g : Heap) (p : ℕ) (ns : Entries)
    → ((q : ℕ) → p ≢ q → g.cell q ≡ h.cell q)
    → h.fresh ≤ g.fresh
    → Free p ns
    → All (Noded h) ns
    → All (Noded g) ns
Noded-elsewhere h g p [] cells more free noded = tt
Noded-elsewhere h g p (e ∷ ns) cells more free noded = (
  (noded.0.0, omega (arith, noded.0.1, more), ap texts_in (cells e.1.0 free.0) ∙ noded.0.2),
  Noded-elsewhere h g p ns cells more free.1 noded.1,
)

-- A cell that is none of the list's is written, or allocated.
pub Listed-elsewhere :
    (h g : Heap) (p a : ℕ) (ns : Entries) (t : ℕ)
    → ((q : ℕ) → p ≢ q → g.cell q ≡ h.cell q)
    → h.fresh ≤ g.fresh
    → a ≢ p
    → p ≢ t
    → Free p ns
    → Listed h a ns t
    → Listed g a ns t
Listed-elsewhere h g p a ns t cells more off_a off_t free l = record {
  linked =
      let off : p ≢ a = λ e. off_a (sym e) in
      Linked_elsewhere g h p p p p a ns t
        (λ q off1 off2. ap next_in (cells q off1), λ q off1 off2. ap prev_in (cells q off1)) off off
        free free free free off_t off_t l.linked;
  apart = l.apart;
  noded = Noded-elsewhere h g p ns cells more free l.noded;
  head_old = omega (arith, l.head_old, more);
  tail_old = omega (arith, l.tail_old, more);
}

-- No node has been allocated at the fresh address.
pub Free-fresh : (h : Heap) (ns : Entries) → All (Noded h) ns → Free h.fresh ns
Free-fresh h [] noded = tt
Free-fresh h (e ∷ ns) noded = (λ same. omega (arith, same, noded.0.1), Free-fresh h ns noded.1)
