-- ===== src/Lru/Cache/Standing.antt =====
-- The state of a cache of lib/lru_cache_v1.h beside the entries in its list.
use blink_db.Base.{
  ℕ, ◌+◌, ◌*◌, ◌%◌, ◌^◌, ◌≤◌, ◌<◌, [], ◌∷◌, Option, none, some, ◌≡◌, refl, sym, ◌∙◌, arith, Text,
  text_eq, text_eq_sound, text_eq_refl, Bool-cases, inl, inr, length,
}
use blink_db.Dict.{Chain, Dict}
use blink_db.Dict.Keys.{string_key}
use blink_db.Dict.Chains.{find_entry, erase_entry}
use blink_db.Dict.Chains.Laws.{count, find-erase_entry, equal_symm}
use blink_db.Dict.Methods.Changes.{Reads, update}
use blink_db.Lru.Nodes.Links.{Entries}
use blink_db.Lru.Nodes.Listed.{Listed}
use blink_db.Lru.Order.{weight}
use blink_db.Lru.Order.Values.{Unique}
use blink_db.Lru.Cache.{LruCache}

-- The entries without their nodes.
unfoldable pub forget : Entries → Chain Text Text
forget [] = []
forget (e ∷ ns) = (e.0, e.1.1) ∷ forget ns

-- Where the node for a key stands, and its value.
abbrev pub node_at : Option (ℕ × Text) → Option ℕ
node_at none = none
node_at (some x) = some x.0

abbrev pub value_at : Option (ℕ × Text) → Option Text
value_at none = none
value_at (some x) = some x.1

abbrev pub place : Text → Entries → Option ℕ
place q ns = node_at (find_entry q ns)

-- A cache whose list, dictionary and count of bytes agree on the entries.
pub record Keeps (ns : Entries) (c : LruCache) : Type 0 where
  pub listed : Listed c.heap c.head ns c.tail
  pub allocated : 0 < c.heap.fresh
  pub once : Unique ns
  pub looked : Reads (λ q. place q ns) (length ns) c.dict
  pub counted : c.current_memory_usage ≡ weight (forget ns) % 2 ^ 64

-- A call that leaves the limit and the store, and that reads freed nodes as f says.
abbrev pub Kept : (ℕ → ℕ) → Entries → LruCache → LruCache → Type 0
Kept f ns c e =
    Keeps ns e
    × (e.max_memory_bytes ≡ c.max_memory_bytes)
    × (e.storage ≡ c.storage)
    × (e.freed_reads ≡ f c.freed_reads)

pub Reads_alike :
    (f g : Text → Option ℕ) (n m : ℕ) (d : Dict Text ℕ)
    → ((q : Text) → f q ≡ g q)
    → n ≡ m
    → Reads f n d
    → Reads g m d
Reads_alike f g n m d same number r = record {
  whole = r.whole;
  reads = λ q. r.reads q ∙ same q;
  number = r.number ∙ number;
}

pub find_entry-forget :
    (k : Text) (ns : Entries) → find_entry k (forget ns) ≡ value_at (find_entry k ns)
unfolding find_entry forget
find_entry-forget k [] = refl
find_entry-forget k (e ∷ ns) = elim (Bool-cases (text_eq k e.0)) [
  | inl same ↦ rw same refl
  | inr other ↦ rw other (find_entry-forget k ns)
]

pub erase_entry-forget :
    (k : Text) (ns : Entries) → erase_entry k (forget ns) ≡ forget (erase_entry k ns)
unfolding erase_entry forget
erase_entry-forget k [] = refl
erase_entry-forget k (e ∷ ns) = elim (Bool-cases (text_eq k e.0)) [
  | inl same ↦ rw same refl
  | inr other ↦ rw (other, erase_entry-forget k ns) refl
]

pub weight-erase_entry :
    (k : Text) (p : ℕ) (v : Text) (ns : Entries)
    → find_entry k ns ≡ some (p, v)
    → weight (forget ns) ≡ length k * 2 + length v + weight (forget (erase_entry k ns))
unfolding weight find_entry erase_entry forget
weight-erase_entry k p v [] found = cc found
weight-erase_entry k p v (e ∷ ns) found = elim (Bool-cases (text_eq k e.0)) [
  | inl same ↦
      let at : some e.1 ≡ some (p, v) = sym (rw same refl) ∙ found in
      let at_v : e.1.1 ≡ v = ground (arith, at) in rw (same, text_eq_sound k e.0 same, at_v) refl
  | inr other ↦ rw other (omega (arith, weight-erase_entry k p v ns (sym (rw other refl) ∙ found)))
]

pub erase_entry-absent : (k : Text) (ns : Entries) → find_entry k ns ≡ none → erase_entry k ns ≡ ns
unfolding erase_entry find_entry
erase_entry-absent k [] off = refl
erase_entry-absent k (e ∷ ns) off = elim (Bool-cases (text_eq k e.0)) [
  | inl same ↦ let here : some e.1 ≡ none = sym (rw same refl) ∙ off in cc here
  | inr other ↦ rw (other, erase_entry-absent k ns (sym (rw other refl) ∙ off)) refl
]

-- An entry taken out, or put first, for a dictionary.
pub place-erase_entry :
    (k q : Text) (ns : Entries)
    → count k ns ≤ 1
    → update k none (λ q. place q ns) q ≡ place q (erase_entry k ns)
place-erase_entry k q ns once =
    rw (find-erase_entry k q ns once)
      (elim (Bool-cases (text_eq k q)) [ inl e ↦ rw e refl | inr e ↦ rw e refl ])

pub place-cons :
    (k q : Text) (p : ℕ) (v : Text) (ns : Entries)
    → update k (some p) (λ q. place q ns) q ≡ place q ((k, (p, v)) ∷ ns)
unfolding find_entry
place-cons k q p v ns =
    rw (equal_symm k q) (elim (Bool-cases (text_eq q k)) [ inl e ↦ rw e refl | inr e ↦ rw e refl ])

-- What stands for other keys does not change when the entry for k is taken out.
pub place-cons_erased :
    (k q : Text) (p : ℕ) (v : Text) (ns : Entries)
    → count k ns ≤ 1
    → update k (some p) (λ q. place q ns) q ≡ place q ((k, (p, v)) ∷ erase_entry k ns)
unfolding find_entry
place-cons_erased k q p v ns once = sym (update_twice) ∙ place-cons k q p v (erase_entry k ns)
  where
    update_twice :
        update k (some p) (λ q. place q (erase_entry k ns)) q
        ≡ update k (some p) (λ q. place q ns) q
    update_twice = elim (Bool-cases (text_eq k q)) [
      | inl e ↦ rw e refl
      | inr e ↦ rw e (sym (place-erase_entry k q ns once) ∙ rw e refl)
    ]

pub find-erased :
    (k : Text) (ns : Entries) → count k ns ≤ 1 → find_entry k (erase_entry k ns) ≡ none
find-erased k ns once = find-erase_entry k k ns once ∙ rw (text_eq_refl k) refl
