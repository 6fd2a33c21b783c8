-- ===== src/Trie.antt =====
-- The trie of keys, lib/tire.h: `TrieNode` and the operations of `Trie`.
pub mod Store
use blink_db.Base.{
  ℕ, [], ◌∷◌, Option, none, some, Bool, true, false, ◌==◌, if◌then◌else◌, Text, ℤ, negsuc,
}

-- A node: the children by their characters, `file_offset` and `isDeleted`. No node has two parents, so
-- the tree that is reached from a node is a value.
mutual
  pub data TrieNode : Type 0 where
    node : Children → ℤ → Bool → TrieNode

  pub data Children : Type 0 where
    nil : Children
    cons : ℕ → TrieNode → Children → Children

-- `children.count(ch)` and `children[ch]`
unfoldable pub find_child : ℕ → Children → Option TrieNode
find_child ch nil = none
find_child ch (cons c n cs) = if c == ch then some n else find_child ch cs

-- The children after what stands at `ch` changed.
unfoldable pub set_child : ℕ → TrieNode → Children → Children
set_child ch m nil = cons ch m nil
set_child ch m (cons c n cs) =
    let rest = set_child ch m cs in if c == ch then cons c m cs else cons c n rest

-- `new TrieNode()`
abbrev pub new_node : TrieNode
new_node = node nil (negsuc 0) false

-- The child that the loop of `insert` goes to.
unfoldable pub child_or_new : ℕ → Children → TrieNode
child_or_new ch cs = elim (find_child ch cs) [ none ↦ new_node | some n ↦ n ]

-- `insert(key, offset)`, from the node that the loop stands at.
unfoldable pub insert : Text → ℤ → TrieNode → TrieNode
insert [] offset (node cs o d) = node cs offset false
insert (ch ∷ key) offset (node cs o d) =
    node (set_child ch (insert key offset (child_or_new ch cs)) cs) o d

-- `search(key)`
unfoldable pub search : Text → TrieNode → ℤ
search [] (node cs o d) = if d then negsuc 0 else o
search (ch ∷ key) (node cs o d) = elim (find_child ch cs) [
  | none ↦ negsuc 0
  | some n ↦ search key n
]

-- `remove(key)`
unfoldable pub remove : Text → TrieNode → TrieNode
remove [] (node cs o d) = node cs o true
remove (ch ∷ key) (node cs o d) = elim (find_child ch cs) [
  | none ↦ node cs o d
  | some n ↦ node (set_child ch (remove key n) cs) o d
]

-- `isDeleted(key)`
unfoldable pub is_deleted : Text → TrieNode → Bool
is_deleted [] (node cs o d) = d
is_deleted (ch ∷ key) (node cs o d) = elim (find_child ch cs) [
  | none ↦ false
  | some n ↦ is_deleted key n
]
