-- ===== src/Lru/Cache/Sizes.antt =====
-- The arithmetic of `size_t` in lib/lru_cache_v1.h.
use blink_db.Base.{ℕ, ◌+◌, ◌*◌, ◌%◌, ◌^◌, ◌≡◌, arith}
use blink_db.Lru.Cache.{plus_size, minus_size}

-- A count of w bytes and x more, or x less.
pub plus_size_count :
    (w x y : ℕ) → plus_size (w % 2 ^ 64) (plus_size x (plus_size x y)) ≡ (x * 2 + y + w) % 2 ^ 64
unfolding plus_size
plus_size_count w x y = omega arith

pub minus_size_count :
    (w x y : ℕ) → minus_size ((x * 2 + y + w) % 2 ^ 64) (plus_size x (plus_size x y)) ≡ w % 2 ^ 64
unfolding plus_size minus_size
minus_size_count w x y = omega arith

-- The value of length z replaced by one of length y.
pub change_size_count :
    (w x y z : ℕ)
    → plus_size ((x * 2 + z + w) % 2 ^ 64) (minus_size (plus_size x y) (plus_size x z))
      ≡ (x * 2 + y + w) % 2 ^ 64
unfolding plus_size minus_size
change_size_count w x y z = omega arith
