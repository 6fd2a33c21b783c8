-- ===== src/Trie/Store.antt =====
-- The trie of lib/tire.h as a map from keys to offsets.
use blink_db.Base.{
  ℕ, List, [], ◌∷◌, none, some, Bool, false, ◌≡◌, refl, arith, ◌==◌, if◌then◌else◌, Text, text_eq,
  ℤ, negsuc, Bool-cases, Option-cases, inl, inr,
}
use blink_db.Trie.{
  TrieNode, node, Children, nil, cons, find_child, set_child, new_node, child_or_new, insert,
  search, remove,
}

find_child-set_child :
    (b c : ℕ) (m : TrieNode) (cs : Children)
    → find_child b (set_child c m cs) ≡ (if c == b then some m else find_child b cs)
unfolding find_child set_child
find_child-set_child b c m nil = refl
find_child-set_child b c m (cons d n cs) = elim (Bool-cases (d == c)) [
  | inl e ↦ let same : d ≡ c = ground arith in rw (e, same) (ground arith)
  | inr e ↦ elim (Bool-cases (d == b)) [
    | inl f ↦ let other : (c == b) ≡ false = ground arith in rw (e, f, other) refl
    | inr f ↦ rw (e, f) (find_child-set_child b c m cs)
  ]
]

pub search-new_node : (k : Text) → search k new_node ≡ negsuc 0
unfolding search find_child
search-new_node [] = refl
search-new_node (c ∷ k) = refl

-- What the child that `insert` goes to holds.
search-child_or_new :
    (b : ℕ) (k : Text) (cs : Children) (o : ℤ) (d : Bool)
    → search k (child_or_new b cs) ≡ search (b ∷ k) (node cs o d)
unfolding search child_or_new
search-child_or_new b k cs o d = elim (Option-cases (find_child b cs)) [
  | inl e ↦ rw (child_or_new, search, e) (search-new_node k)
  | inr (n, e) ↦ rw (child_or_new, search, e) refl
]

-- What a search finds once the child for c is another.
search-set_child :
    (b c : ℕ) (k : Text) (m : TrieNode) (cs : Children) (o : ℤ) (d : Bool)
    → search (b ∷ k) (node (set_child c m cs) o d)
      ≡ (if c == b then search k m else search (b ∷ k) (node cs o d))
unfolding search
search-set_child b c k m cs o d = elim (Bool-cases (c == b)) [
  | inl e ↦ rw (search, find_child-set_child b c, e) refl
  | inr e ↦ rw (search, find_child-set_child b c, e) refl
]

-- A search after `insert` finds the new offset at the key and what was there at every other key.
pub search-insert :
    (k key : Text) (offset : ℤ) (t : TrieNode)
    → search k (insert key offset t) ≡ (if text_eq key k then offset else search k t)
unfolding search insert
search-insert [] [] offset (node cs o d) = refl
search-insert (b ∷ k) [] offset (node cs o d) = refl
search-insert [] (c ∷ key) offset (node cs o d) = refl
search-insert (b ∷ k) (c ∷ key) offset (node cs o d) =
    rw (insert, search-set_child b c k)
      (elim (Bool-cases (c == b)) [
        | inl e ↦
            let same : c ≡ b = ground arith in
            rw
              (
                e,
                search-insert k key offset (child_or_new c cs),
                same,
                search-child_or_new b k cs o d,
              )
              refl
        | inr e ↦ rw e refl
      ])

-- A search after `remove` finds -1 at the key and what was there at every other key.
pub search-remove :
    (k key : Text) (t : TrieNode)
    → search k (remove key t) ≡ (if text_eq key k then negsuc 0 else search k t)
unfolding search remove
search-remove [] [] (node cs o d) = refl
search-remove (b ∷ k) [] (node cs o d) = refl
search-remove [] (c ∷ key) (node cs o d) = elim (Option-cases (find_child c cs)) [
  | inl e ↦ rw (remove, e) refl
  | inr (n, e) ↦ rw (remove, e) refl
]
search-remove (b ∷ k) (c ∷ key) (node cs o d) = elim (Option-cases (find_child c cs)) [
  | inl e ↦
      rw (remove, e)
        (elim (Bool-cases (c == b)) [
          | inl f ↦
              let same : c ≡ b = ground arith in
              let at : find_child b cs ≡ none = rw (← same) e in rw (f, search, at) (ground arith)
          | inr f ↦ rw f refl
        ])
  | inr (n, e) ↦
      rw (remove, e, search-set_child b c k)
        (elim (Bool-cases (c == b)) [
          | inl f ↦
              let same : c ≡ b = ground arith in
              let at : find_child b cs ≡ some n = rw (← same) e in
              rw (f, search-remove k key n, search, at) refl
          | inr f ↦ rw f refl
        ])
]

-- An operation that changes the trie.
pub data Change : Type 0 where
  inserted : Text → ℤ → Change
  removed : Text → Change

unfoldable pub change : Change → TrieNode → TrieNode
change (inserted key offset) t = insert key offset t
change (removed key) t = remove key t

-- The trie after changes, the last first.
unfoldable pub changed : List Change → TrieNode
changed [] = new_node
changed (h ∷ hs) = change h (changed hs)

-- The offset that a key has after changes, the last first: that of the last change of the key.
unfoldable pub offset_of : Text → List Change → ℤ
offset_of k [] = negsuc 0
offset_of k (inserted key offset ∷ hs) = if text_eq key k then offset else offset_of k hs
offset_of k (removed key ∷ hs) = if text_eq key k then negsuc 0 else offset_of k hs

-- After any sequence of insertions and removals, `search` finds the offset of the last insertion of the
-- key, and -1 if there is none or the key was removed since.
pub search-changed : (k : Text) (hs : List Change) → search k (changed hs) ≡ offset_of k hs
unfolding changed change offset_of
search-changed k [] = search-new_node k
search-changed k (inserted key offset ∷ hs) =
    rw (search-insert k key offset (changed hs), search-changed k hs) refl
search-changed k (removed key ∷ hs) =
    rw (search-remove k key (changed hs), search-changed k hs) refl
