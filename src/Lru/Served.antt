-- ===== src/Lru/Served.antt =====
-- The cache of lib/lru_cache_v1.h as the database of the server, lib/server.h, for the calls of lib/client.h.
use blink_db.Base.{ℕ, [], Option, none, some, Text, ◌>>=◌}
use blink_db.Protocol.Commands.{Database}
use blink_db.Lru.Cache.{LruCache, set, get, del, memory_usage, max_memory, size}

-- What a call returns, where a fault, `none`, ends the server.
abbrev state_after : {A : Type 0} → Option (LruCache × A) → Option LruCache
state_after none = none
state_after (some r) = some r.0

abbrev result_of : {A : Type 0} → A → Option (LruCache × A) → A
result_of a none = a
result_of a (some r) = r.1

module _ (entry_size : Text → ℕ → ℕ) (hash : Text → ℕ) where
  -- The member `database` of the server, whose state is `none` after a fault.
  unfoldable pub lru_database : Database (Option LruCache)
  lru_database = record {
    set = λ k v d. d >>= set entry_size hash k v;
    get = λ k d.
        (state_after (d >>= get entry_size hash k), result_of [] (d >>= get entry_size hash k));
    del = λ k d. (state_after (d >>= del entry_size k), result_of 0 (d >>= del entry_size k));
    memory_usage = λ d. elim d [ none ↦ 0 | some c ↦ memory_usage c ];
    max_memory = λ d. elim d [ none ↦ 0 | some c ↦ max_memory c ];
    size = λ d. elim d [ none ↦ 0 | some c ↦ size c ];
  }
