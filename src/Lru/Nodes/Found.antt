-- ===== src/Lru/Nodes/Found.antt =====
-- The node that a key finds in the list of lib/lru_cache_v1.h, with its neighbours.
use blink_db.Base.{
  ℕ, [], ◌∷◌, some, ◌≡◌, ◌≢◌, refl, sym, ap, ◌∙◌, arith, ==_refl, Text, text_eq, Bool-cases, inl,
  inr, differ,
}
use blink_db.Dict.Keys.{string_key}
use blink_db.Dict.Chains.{find_entry, erase_entry}
use blink_db.Lru.Nodes.{Heap}
use blink_db.Lru.Nodes.Views.{next_of, prev_of}
use blink_db.Lru.Nodes.Links.{
  Entries, Linked, Free, Apart, Linked_elsewhere, Bridged, Bridged-Alike, Apart-first,
}

-- The neighbours of the node at p, and the list without it.
pub record Neighbours (h : Heap) (k : Text) (p a : ℕ) (ns : Entries) (t : ℕ) : Type 0 where
  pub left : ℕ
  pub right : ℕ
  pub before : prev_of h p ≡ some left
  pub after : next_of h p ≡ some right
  pub to : next_of h left ≡ some p
  pub from : prev_of h right ≡ some p
  pub left_in : (z : ℕ) → z ≢ a → Free z ns → z ≢ left
  pub right_in : (z : ℕ) → Free z ns → z ≢ t → z ≢ right
  pub without : (g : Heap) → Bridged g h left right → Linked g a (erase_entry k ns) t

first_taken :
    (h : Heap) (k : Text) (a p : ℕ) (ns : Entries) (t : ℕ)
    → next_of h a ≡ some p
    → prev_of h p ≡ some a
    → Linked h p ns t
    → a ≢ t
    → Free a ns
    → Apart p ns t
    → (c : ℕ) × (next_of h p ≡ some c)
      × (prev_of h c ≡ some p)
      × ((z : ℕ) → Free z ns → z ≢ t → z ≢ c)
      × ((g : Heap) → Bridged g h a c → Linked g a ns t)
first_taken h k a p [] t to back l at fa apart = (
  t,
  l.0,
  l.1,
  λ z free off. off,
  λ g r. (r.0 a ∙ rw (==_refl a) refl, r.1 t ∙ rw (==_refl t) refl),
)
first_taken h k a p (f ∷ ns) t to back l at fa apart = (
  f.1.0,
  l.0,
  l.1,
  λ z free off. free.0,
  λ g r. (
    r.0 a ∙ rw (==_refl a) refl,
    r.1 f.1.0 ∙ rw (==_refl f.1.0) refl,
    let (off, free) = Apart-first f.1.0 ns t apart.3 in
        Linked_elsewhere g h a a f.1.0 f.1.0 f.1.0 ns t (Bridged-Alike g h a f.1.0 r) fa.0 fa.0 fa.1
          fa.1 free free off off l.2,
  ),
)

pub neighbours :
    (h : Heap) (k : Text) (p : ℕ) (v : Text) (a : ℕ) (ns : Entries) (t : ℕ)
    → Linked h a ns t
    → Apart a ns t
    → find_entry k ns ≡ some (p, v)
    → Neighbours h k p a ns t
unfolding find_entry erase_entry
neighbours h k p v a [] t l apart found = cc found
neighbours h k p v a ((j, (x, w)) ∷ ns) t l apart found = elim (Bool-cases (text_eq k j)) [
  | inl same ↦
      let at : x ≡ p = ground (arith, found, same) in
      let (c, after, from, off, without) =
        first_taken h k a x ns t l.0 l.1 l.2 apart.0 apart.2 apart.3 in
      record {
        left = a;
        right = c;
        before = ap (prev_of h) (sym at) ∙ l.1;
        after = ap (next_of h) (sym at) ∙ after;
        to = l.0 ∙ ap some at;
        from = from ∙ ap some at;
        left_in = λ z off free. off;
        right_in = λ z free far. off z free.1 far;
        without = λ g r. rw same (without g r);
      }
  | inr other ↦
      let n = neighbours h k p v x ns t l.2 apart.3 (sym (rw other refl) ∙ found) in
      let (off, free) = Apart-first x ns t apart.3 in
      record {
        left = n.left;
        right = n.right;
        before = n.before;
        after = n.after;
        to = n.to;
        from = n.from;
        left_in = λ z far free. n.left_in z free.0 free.1;
        right_in = λ z free far. n.right_in z free.1 far;
        without = λ g r. rw other (
          r.0 a ∙ rw (differ n.left a (λ e. n.left_in a apart.1 apart.2 (sym e))) l.0,
          r.1 x ∙ rw (differ n.right x (λ e. n.right_in x free off (sym e))) l.1,
          n.without g r,
        );
      }
]

pub Free-erase_entry : (x : ℕ) (k : Text) (ns : Entries) → Free x ns → Free x (erase_entry k ns)
unfolding erase_entry
Free-erase_entry x k [] free = tt
Free-erase_entry x k (e ∷ ns) free = elim (Bool-cases (text_eq k e.0)) [
  | inl same ↦ rw same free.1
  | inr other ↦ rw other (free.0, Free-erase_entry x k ns free.1)
]

pub Apart-erase_entry :
    (k : Text) (a : ℕ) (ns : Entries) (t : ℕ) → Apart a ns t → Apart a (erase_entry k ns) t
unfolding erase_entry
Apart-erase_entry k a [] t apart = apart
Apart-erase_entry k a (e ∷ []) t apart = elim (Bool-cases (text_eq k e.0)) [
  | inl same ↦ rw same apart.0
  | inr other ↦ rw other apart
]
Apart-erase_entry k a (e ∷ f ∷ ns) t apart = elim (Bool-cases (text_eq k e.0)) [
  | inl same ↦ rw same (apart.0, apart.2.0, apart.2.1, apart.3.3)
  | inr other ↦ rw other (
    apart.0,
    apart.1,
    Free-erase_entry a k (f ∷ ns) apart.2,
    Apart-erase_entry k e.1.0 (f ∷ ns) t apart.3,
  )
]

-- An address where no entry stands is not the one that is found.
pub Free-found :
    (x : ℕ) (k : Text) (p : ℕ) (v : Text) (ns : Entries)
    → Free x ns
    → find_entry k ns ≡ some (p, v)
    → x ≢ p
unfolding find_entry
Free-found x k p v [] free at = cc at
Free-found x k p v ((i, (y, u)) ∷ ns) free at = elim (Bool-cases (text_eq k i)) [
  | inl same ↦ let here : y ≡ p = ground (arith, at, same) in rw (← here) free.0
  | inr other ↦ Free-found x k p v ns free.1 (sym (rw other refl) ∙ at)
]

-- A node that is in the list is none of its ends, and stands at no other entry.
pub found-Apart :
    (k : Text) (p : ℕ) (v : Text) (a : ℕ) (ns : Entries) (t : ℕ)
    → Apart a ns t
    → find_entry k ns ≡ some (p, v)
    → (a ≢ p) × (p ≢ t) × Free p (erase_entry k ns)
unfolding find_entry erase_entry
found-Apart k p v a [] t apart found = cc found
found-Apart k p v a ((j, (x, w)) ∷ ns) t apart found = elim (Bool-cases (text_eq k j)) [
  | inl same ↦
      let at : x ≡ p = ground (arith, found, same) in
      let (off, free) = Apart-first x ns t apart.3 in
      (rw (← at) apart.1, rw (← at) off, rw (same, ← at) free)
  | inr other ↦
      let (off_x, off, free) = found-Apart k p v x ns t apart.3 (sym (rw other refl) ∙ found) in
      let (far, rest) = Apart-first x ns t apart.3 in
      (
        Free-found a k p v ns apart.2 (sym (rw other refl) ∙ found),
        off,
        rw other ((λ e. off_x (sym e)), free),
      )
]
