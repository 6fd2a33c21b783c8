-- ===== src/Lru/Order/Values.antt =====
-- The values that the order of use has for keys, in the items or in what was written to the store, for
-- lib/lru_cache_v1.h.
use blink_db.Base.{
  ℕ, ◌%◌, ◌^◌, ◌≤◌, List, [], ◌∷◌, Option, none, some, false, ◌≡◌, refl, sym, ◌∙◌, arith, Text,
  codes, text_eq, text_eq_refl, text_eq_sound, if◌then◌else◌, Bool-cases, Option-cases, inl, inr,
  leb, or_else,
}
use blink_db.Dict.{Chain}
use blink_db.Dict.Keys.{string_key}
use blink_db.Dict.Chains.{find_entry, erase_entry}
use blink_db.Dict.Chains.Laws.{
  count, count-find_none, find_none-count, count-erase_entry, find-erase_entry, equal_symm,
}
use blink_db.Storage.Reads.{last_value}
use blink_db.Lru.Order.{Shelf, weight, used, oldest, shelf_evict, shelf_set, shelf_get, shelf_del}

-- No key has two items.
abbrev pub Unique : {V : Type 0} → Chain Text V → Type 0
Unique items = (q : Text) → count q items ≤ 1

pub find-oldest :
    {V : Type 0} (e : Text × V) (items : Chain Text V)
    → Unique (e ∷ items)
    → find_entry (oldest e items).0 (e ∷ items) ≡ some (oldest e items).1
unfolding oldest find_entry count
find-oldest e [] once = rw (text_eq_refl e.0) refl
find-oldest e (f ∷ items) once =
    let last = oldest f items in
    let rest = find-oldest f items (λ q. omega (arith, once q)) in
    elim (Bool-cases (text_eq last.0 e.0)) [
      | inr other ↦ rw other rest
      | inl same ↦
          let few : count last.0 (f ∷ items) ≡ 0 = ground (arith, once last.0, same) in
          let off : none ≡ some last.1 = sym (count-find_none last.0 (f ∷ items) few) ∙ rest in
          cc off
    ]

pub Unique-erase_entry :
    {V : Type 0} (k : Text) (items : Chain Text V) → Unique items → Unique (erase_entry k items)
Unique-erase_entry k items once q = omega (arith, count-erase_entry q k items, once q)

pub Unique-cons :
    {V : Type 0} (k : Text) (v : V) (items : Chain Text V)
    → find_entry k items ≡ none
    → Unique items
    → Unique ((k, v) ∷ items)
unfolding count
Unique-cons k v items off once q = elim (Bool-cases (text_eq q k)) [
  | inl same ↦
      let here : count q items ≡ 0 = rw (text_eq_sound q k same) (find_none-count k items off) in
      rw same (omega (arith, here))
  | inr other ↦ rw other (omega (arith, once q))
]

Unique-used : (k v : Text) (items : Chain Text Text) → Unique items → Unique (used k v items)
Unique-used k v items once =
    Unique-cons k v (erase_entry k items)
      (find-erase_entry k k items (once k) ∙ rw (text_eq_refl k) refl)
      (Unique-erase_entry k items once)

-- What a key has, in the items or else in the store.
abbrev pub value_of : Text → Shelf → Option Text
value_of q s = or_else (find_entry q s.items) (last_value q s.evicted)

find-used :
    (k v q : Text) (items : Chain Text Text)
    → Unique items
    → find_entry q (used k v items) ≡ (if text_eq k q then some v else find_entry q items)
unfolding find_entry
find-used k v q items once = rw (equal_symm q k) (elim (Bool-cases (text_eq k q)) [
  | inl same ↦ rw same refl
  | inr other ↦ rw other (find-erase_entry k q items (once k) ∙ rw other refl)
])

-- What is written for one key, in the items or in the store.
abbrev pub updated : Text → Text → Text → Option Text → Option Text
updated k v q old = if text_eq k q then some v else old

value_of-used :
    (k v q : Text) (s : Shelf)
    → Unique s.items
    → value_of q (record s { items = used k v s.items }) ≡ updated k v q (value_of q s)
unfolding or_else
value_of-used k v q s once =
    rw (find-used k v q s.items once)
      (elim (Bool-cases (text_eq k q)) [ inl e ↦ rw e refl | inr e ↦ rw e refl ])

updated-same :
    (k v q : Text) (s : Shelf) → value_of k s ≡ some v → updated k v q (value_of q s) ≡ value_of q s
updated-same k v q s there = elim (Bool-cases (text_eq k q)) [
  | inl same ↦ rw (same, ← text_eq_sound k q same) (sym there)
  | inr other ↦ rw other refl
]

-- An eviction moves a value, and changes none.
value_of-evict :
    (q : Text) (items : Chain Text Text) (written : List (Text × Text)) (removals : ℕ)
    → Unique items
    → let s : Shelf = record { items = items; evicted = written; removals = removals } in
      (value_of q (shelf_evict s) ≡ value_of q s) × Unique (shelf_evict s).items
unfolding shelf_evict last_value or_else
value_of-evict q [] written removals once = (refl, once)
value_of-evict q (e ∷ items) written removals once =
    let last = oldest e items in
    let there = find-oldest e items once in
    (
      rw (find-erase_entry last.0 q (e ∷ items) (once last.0))
          (elim (Bool-cases (text_eq last.0 q)) [
            | inl same ↦ rw (same, ← text_eq_sound last.0 q same, there) refl
            | inr other ↦ rw other refl
          ]),
      Unique-erase_entry last.0 (e ∷ items) once,
    )

value_of-loaded :
    (k v q : Text) (s : Shelf)
    → find_entry k s.items ≡ none
    → last_value k s.evicted ≡ some v
    → value_of q (record s { items = (k, v) ∷ s.items }) ≡ value_of q s
unfolding find_entry or_else
value_of-loaded k v q s off there = elim (Bool-cases (text_eq q k)) [
  | inl same ↦ rw (text_eq_sound q k same, text_eq_refl k, off, there) refl
  | inr other ↦ rw other refl
]

pub value_of-set :
    (max : ℕ) (k v q : Text) (s : Shelf)
    → Unique s.items
    → (value_of q (shelf_set max k v s) ≡ updated k v q (value_of q s))
      × Unique (shelf_set max k v s).items
unfolding shelf_set
value_of-set max k v q s once =
    let more = record s { items = used k v s.items } in
    let same = value_of-used k v q s once in
    let unique = Unique-used k v s.items once in
    elim (Bool-cases (leb max (weight (used k v s.items) % 2 ^ 64))) [
      | inl full ↦
          let (kept, unique2) = value_of-evict q (used k v s.items) s.evicted s.removals unique in
          rw (shelf_set, full) (kept ∙ same, unique2)
      | inr room ↦ rw (shelf_set, room) (same, unique)
    ]

-- A deletion takes an item out, and leaves the other keys.
pub value_of-del :
    (k : Text) (s : Shelf)
    → Unique s.items
    → (value_of k (shelf_del k s).0 ≡ last_value k s.evicted)
      × ((q : Text) → text_eq k q ≡ false → value_of q (shelf_del k s).0 ≡ value_of q s)
      × Unique (shelf_del k s).0.items
unfolding shelf_del or_else
value_of-del k s once = elim (Option-cases (find_entry k s.items)) [
  | inr (v, there) ↦
      rw (shelf_del, there)
        (
          rw (find-erase_entry k k s.items (once k), text_eq_refl k) refl,
          λ q other. rw (find-erase_entry k q s.items (once k), other) refl,
          Unique-erase_entry k s.items once,
        )
  | inl off ↦ rw (shelf_del, off) (rw off refl, λ q other. refl, once)
]

-- The text that `get` returns: "-1" stands for nothing.
abbrev pub text_of : Option Text → Text
text_of none = codes "-1"
text_of (some v) = v

pub value_of-get :
    (k q : Text) (s : Shelf)
    → Unique s.items
    → ((shelf_get k s).1 ≡ text_of (value_of k s))
      × (value_of q (shelf_get k s).0 ≡ value_of q s)
      × Unique (shelf_get k s).0.items
unfolding shelf_get or_else
value_of-get k q s once = elim (Option-cases (find_entry k s.items)) [
  | inr (v, there) ↦
      rw (shelf_get, there)
        (
          refl,
          value_of-used k v q s once ∙ updated-same k v q s (rw there refl),
          Unique-used k v s.items once,
        )
  | inl off ↦ elim (Option-cases (last_value k s.evicted)) [
    | inl nowhere ↦ rw (shelf_get, off, nowhere) (refl, refl, once)
    | inr (v, there) ↦
        rw (shelf_get, off, there)
          (refl, value_of-loaded k v q s off there, Unique-cons k v s.items off once)
  ]
]
