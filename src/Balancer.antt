-- ===== src/Balancer.antt =====
-- The choice of a server in lib/load_balancer.h: a ring of hashes, and the servers by their hashes.
--
-- The set of hashes is the list of its numbers in order, and the map is a list of pairs. `std::hash` is a
-- parameter, and a port is not below 0. The iterator behind an empty ring points to nothing, which is `none`.
-- The sockets of `server_init` are left out.
pub mod Ring
pub mod Order
pub mod Nearest
use blink_db.Base.{
  ℕ, List, [], ◌∷◌, ◌++◌, Option, none, some, Bool, true, false, ltb, leb, ◌==◌, if◌then◌else◌,
  bit_and, Text, ◌>>=◌,
}
use blink_db.Protocol.Strings.{to_string}

-- `struct ServerAdd`
pub record ServerAdd : Type 0 where
  pub port : ℕ
  pub ip : Text

-- The members that `getServer` reads.
pub record LoadBalancer : Type 0 where
  pub hash_ring : List ℕ
  pub server_map : List (ℕ × ServerAdd)

-- `hash_ring_.insert(key)`
unfoldable pub ring_insert : ℕ → List ℕ → List ℕ
ring_insert x [] = x ∷ []
ring_insert x (y ∷ ys) =
    let rest = ring_insert x ys in
    if ltb x y then x ∷ y ∷ ys else if x == y then y ∷ ys else y ∷ rest

-- `hash_ring_.lower_bound(hash)`, where `none` is the end.
unfoldable pub lower_bound : ℕ → List ℕ → Option ℕ
lower_bound h [] = none
lower_bound h (y ∷ ys) = if leb h y then some y else lower_bound h ys

-- `hash_ring_.begin()`
unfoldable pub begin : List ℕ → Option ℕ
begin [] = none
begin (y ∷ ys) = some y

-- `server_map_[key]`, which is a new element where there is none.
unfoldable pub server_at : ℕ → List (ℕ × ServerAdd) → ServerAdd
server_at k [] = record { port = 0; ip = [] }
server_at k (e ∷ es) = if k == e.0 then e.1 else server_at k es

-- The element of the ring that `getServer` reads.
unfoldable pub nearest : ℕ → List ℕ → Option ℕ
nearest h ring = elim (lower_bound h ring) [ none ↦ begin ring | some x ↦ some x ]

abbrev pub empty_balancer : LoadBalancer
empty_balancer = record { hash_ring = []; server_map = [] }

module _ (hash : Text → ℕ) where
  -- `hashKey(key)`
  unfoldable pub hash_key : Text → ℕ
  hash_key key = bit_and (hash key) 2147483647

  unfoldable pub server_hash : ServerAdd → ℕ
  server_hash s = hash_key (s.ip ++ to_string s.port)

  -- The loop of the constructor, a server at a time.
  unfoldable pub add_server : ServerAdd → LoadBalancer → LoadBalancer
  add_server s b = record {
    hash_ring = ring_insert (server_hash s) b.hash_ring;
    server_map = (server_hash s, s) ∷ b.server_map;
  }

  unfoldable pub add_servers : List ServerAdd → LoadBalancer → LoadBalancer
  add_servers [] b = b
  add_servers (s ∷ servers) b = add_servers servers (add_server s b)

  -- `getServer(key)`
  unfoldable pub get_server : Text → LoadBalancer → Option ServerAdd
  get_server key b = nearest (hash_key key) b.hash_ring >>= λ x. some (server_at x b.server_map)
