-- ===== src/Lru/Nodes.antt =====
-- The nodes of the cache in lib/lru_cache_v1.h, and its list: `Node`, `add` and `remove`.
--
-- A pointer is the address of a node, and `nullptr` is 0. A read or a write through a pointer to no node, or
-- to one that was freed, is `none`. The next address is what `new` returns.
pub mod Views
pub mod Links
pub mod Found
pub mod Listed
pub mod Changes
use blink_db.Base.{ℕ, ◌+◌, Option, none, some, Bool, true, false, ◌==◌, if◌then◌else◌, Text, ◌>>=◌}

pub record Node : Type 0 where
  pub key : Text
  pub value : Text
  pub next : ℕ
  pub prev : ℕ

pub record Heap : Type 0 where
  pub cell : ℕ → Option Node
  pub fresh : ℕ

abbrev pub written : ℕ → Option Node → Heap → Heap
written p c h = record h { cell = λ q. if p == q then c else h.cell q }

-- `new Node(k, v)`, at the fresh address.
unfoldable pub new_node : Text → Text → Heap → Heap
new_node k v h = record {
  cell = (written h.fresh (some (record { key = k; value = v; next = 0; prev = 0 })) h).cell;
  fresh = h.fresh + 1;
}

-- `free(node)`
unfoldable pub free_node : ℕ → Heap → Option Heap
free_node p h = h.cell p >>= λ n. some (written p none h)

-- `p->next = q` and `p->prev = q`
unfoldable pub set_next : ℕ → ℕ → Heap → Option Heap
set_next p q h = h.cell p >>= λ n. some (written p (some (record n { next = q })) h)

unfoldable pub set_prev : ℕ → ℕ → Heap → Option Heap
set_prev p q h = h.cell p >>= λ n. some (written p (some (record n { prev = q })) h)

-- `add(node)`, behind the head.
unfoldable pub add_node : ℕ → ℕ → Heap → Option Heap
add_node head p h = elim (p == 0) [
  | true ↦ some h
  | false ↦ h.cell head >>= λ n.
      set_next head p h >>= set_prev p head >>= set_next p n.next >>= set_prev n.next p
]

-- `remove(node)`
unfoldable pub remove_node : ℕ → Heap → Option Heap
remove_node p h = elim (p == 0) [
  | true ↦ some h
  | false ↦ h.cell p >>= λ n. set_next n.prev n.next h >>= set_prev n.next n.prev
]
