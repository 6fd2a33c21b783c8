-- ===== src/Dict.antt =====
-- The hash table of lib/dict.h: chains in two tables, of which the second fills while the entries move
-- over a bucket at a time.
--
-- A chain is a list of pairs, its head first. A table that is null is the empty list. A read outside of
-- a table, which the code does not check, is `none`. Keys and values are values here: what duplicates or
-- frees them is left out. A count of entries below 2 ^ 63 never wraps, and the index of a bucket below
-- 2 ^ 31 is an `int`.
pub mod Keys
pub mod Chains
pub mod Rehash
pub mod Methods
pub mod Run
use blink_db.Base.{
  ℕ, zero, suc, ◌+◌, ◌-◌, ◌*◌, ◌/◌, ◌%◌, ◌^◌, List, [], ◌∷◌, Option, none, some, Bool, true, false,
  ◌&&◌, ◌||◌, not, ltb, leb, ◌==◌, if◌then◌else◌, bit_and, get_elem?, set, replicate, ◌>>=◌,
}
use Keys.{Key}

abbrev pub Chain : Type 0 → Type 0 → Type 0
Chain K V = List (K × V)

-- `struct dictht`
pub record Dictht (K V : Type 0) : Type 0 where
  pub table : List (Chain K V)
  pub size : ℕ
  pub sizemask : ℕ
  pub used : ℕ

-- `struct dict` and the members of the class. `rehashidx` is `none` for -1.
pub record Dict (K V : Type 0) : Type 0 where
  pub ht0 : Dictht K V
  pub ht1 : Dictht K V
  pub rehashidx : Option ℕ
  pub iterators : ℕ
  pub can_resize : Bool
  pub total_size : ℕ

-- `_dictNextPower(size)`: i doubles from 4 until it is not below `size`. Below `LONG_MAX` it needs 61
-- rounds at most.
unfoldable pub doubled : ℕ → ℕ → ℕ → ℕ
doubled zero i size = i
doubled (suc rounds) i size =
    let rest = doubled rounds (i * 2) size in if leb size i then i else rest

unfoldable pub next_power : ℕ → ℕ
next_power size = if leb (2 ^ 63 - 1) size then 2 ^ 63 else doubled 62 4 size

abbrev pub is_null : {A : Type 0} → List A → Bool
is_null [] = true
is_null (x ∷ xs) = false

-- A number as a `float`: 24 binary digits, rounded to the nearest, a tie to the even one.
unfoldable pub round_half : ℕ → ℕ → ℕ
round_half n unit =
    let q = n / unit in
    let r = n % unit in
    (if ltb unit (r * 2) || ((r * 2 == unit) && (q % 2 == 1)) then q + 1 else q) * unit

unfoldable pub float_unit : ℕ → ℕ → ℕ → ℕ
float_unit zero unit n = unit
float_unit (suc rounds) unit n =
    let rest = float_unit rounds (unit * 2) n in if ltb n (2 ^ 24 * unit) then unit else rest

unfoldable pub to_float : ℕ → ℕ
to_float n = let unit = float_unit 64 1 n in if unit == 1 then n else round_half n unit

-- `(float)used / size >= k`: a size is 0 or a power of two, so that the division is exact, and 0 / 0 is
-- at least nothing and below nothing.
unfoldable pub load_at_least : ℕ → ℕ → ℕ → Bool
load_at_least k used size = not (size == 0) && leb (k * to_float size) (to_float used)

unfoldable pub load_below : ℕ → ℕ → ℕ → Bool
load_below k used size = not (size == 0) && ltb (to_float used) (k * to_float size)

module _ {K V : Type 0} where
  -- `_dictReset(ht)`
  abbrev pub reset : Dictht K V
  reset = record { table = []; size = 0; sizemask = 0; used = 0 }

  -- The constructor, which leaves `dict_can_resize` as it finds it.
  abbrev pub new : Bool → Dict K V
  new can_resize = record {
    ht0 = reset;
    ht1 = reset;
    rehashidx = none;
    iterators = 0;
    can_resize = can_resize;
    total_size = 0;
  }

  -- `enableResize(enable)`
  abbrev pub enable_resize : Bool → Dict K V → Dict K V
  enable_resize enable d = record d { can_resize = enable }

  -- `_dictClear(d)`, of the destructor: what its loops count is reset.
  abbrev pub clear : Dict K V → Dict K V
  clear d = record d { ht0 = reset; ht1 = reset; rehashidx = none; iterators = 0 }

  -- `dictIsRehashing(d)`
  abbrev pub is_rehashing : Dict K V → Bool
  is_rehashing d = elim d.rehashidx [ none ↦ false | some i ↦ true ]

  -- `size()`
  abbrev pub size : Dict K V → ℕ
  size d = d.ht0.used + d.ht1.used

  -- `_dictShouldResize()`
  unfoldable pub should_resize : Dict K V → Bool
  should_resize d =
      if is_rehashing d
      then false
      else if not d.can_resize && load_below 5 d.ht0.used d.ht0.size
      then false
      else load_at_least 1 d.ht0.used d.ht0.size

  -- `calloc` of a table for `_dictExpand`.
  unfoldable pub new_table : ℕ → Dictht K V
  new_table realsize = record {
    table = replicate realsize [];
    size = realsize;
    sizemask = realsize - 1;
    used = 0;
  }

  -- `_dictExpand(d, size)`, and whether it succeeds.
  unfoldable pub expand : ℕ → Dict K V → Dict K V × Bool
  expand n d =
      if is_rehashing d || ltb n d.ht0.used
      then (d, false)
      else if is_null d.ht0.table
      then (record d { ht0 = new_table (next_power n) }, true)
      else (record d { ht1 = new_table (next_power n); rehashidx = some 0 }, true)

  -- `_dictExpandIfNeeded(d)`
  unfoldable pub expand_if_needed : Dict K V → Dict K V × Bool
  expand_if_needed d =
      if is_rehashing d
      then (d, true)
      else if d.ht0.size == 0
      then expand 4 d
      else if leb d.ht0.size d.ht0.used
      then expand (d.ht0.used * 2) d
      else (d, true)
