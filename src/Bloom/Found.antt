-- ===== src/Bloom/Found.antt =====
-- Which keys the filter of lib/bloomfilter.h contains.
use blink_db.Base.{
  ℕ, zero, suc, ◌+◌, ◌-◌, ◌%◌, ◌<◌, List, [], ◌∷◌, Bool, false, ◌||◌, ◌≡◌, refl, ap, ◌∙◌, arith,
  ◌==◌, ==_refl, if◌then◌else◌, set, length, length-set, length-replicate, replicate, Text,
}
use blink_db.Bloom.{BloomFilter, new_filter, counter, hash_key, insert, contains, remove}

pub counter-set :
    (cs : List ℕ) (i j n : ℕ)
    → i < length cs
    → counter (set cs i n) j ≡ (if i == j then n else counter cs j)
counter-set [] i j n h = absurd (omega arith)
counter-set (c ∷ cs) zero zero n h = refl
counter-set (c ∷ cs) zero (suc j) n h = ground arith
counter-set (c ∷ cs) (suc i) zero n h = ground arith
counter-set (c ∷ cs) (suc i) (suc j) n h = ground (arith, counter-set cs i j n)

counter-replicate : (n i : ℕ) → counter (replicate n 0) i ≡ 0
counter-replicate zero i = refl
counter-replicate (suc n) zero = refl
counter-replicate (suc n) (suc i) = counter-replicate n i

set-set : (cs : List ℕ) (i n : ℕ) → set (set cs i n) i (counter cs i) ≡ cs
set-set [] zero n = refl
set-set [] (suc i) n = refl
set-set (c ∷ cs) zero n = refl
set-set (c ∷ cs) (suc i) n = ap (λ t. c ∷ t) (set-set cs i n)

-- A filter with as many counters as its size says, and one at least.
pub record IsFilter (b : BloomFilter) : Type 0 where
  pub full : length b.filter ≡ b.filter_size
  pub some_counters : 0 < b.filter_size

module _ (hash : Text → ℕ) where
  pub insert-IsFilter : (key : Text) (b : BloomFilter) → IsFilter b → IsFilter (insert hash key b)
  unfolding insert
  insert-IsFilter key b f = record {
    full =
        length-set b.filter (hash_key hash key b) (counter b.filter (hash_key hash key b) + 1)
        ∙ f.full;
    some_counters = f.some_counters;
  }

  pub contains-insert :
      (q key : Text) (b : BloomFilter)
      → IsFilter b
      → contains hash q (insert hash key b)
        ≡ ((hash_key hash key b == hash_key hash q b) || contains hash q b)
  unfolding contains insert
  contains-insert q key b f =
      let inside : hash_key hash key b < length b.filter = omega (arith, f.full, f.some_counters) in
      rw
        (counter-set b.filter (hash_key hash key b) (hash_key hash q b)
          (counter b.filter (hash_key hash key b) + 1) inside)
        (ground arith)

  -- A filter after keys were inserted, the last one first.
  unfoldable pub inserted : List Text → BloomFilter → BloomFilter
  inserted [] b = b
  inserted (key ∷ keys) b = insert hash key (inserted keys b)

  -- One of the keys has the counter of q, of so many counters.
  unfoldable pub has_alike : Text → List Text → ℕ → Bool
  has_alike q [] n = false
  has_alike q (key ∷ keys) n = (hash key % n == hash q % n) || has_alike q keys n

  inserted-IsFilter : (keys : List Text) (b : BloomFilter) → IsFilter b → IsFilter (inserted keys b)
  unfolding inserted
  inserted-IsFilter [] b f = f
  inserted-IsFilter (key ∷ keys) b f =
      insert-IsFilter key (inserted keys b) (inserted-IsFilter keys b f)

  size-inserted :
      (keys : List Text) (b : BloomFilter) → (inserted keys b).filter_size ≡ b.filter_size
  unfolding inserted insert
  size-inserted [] b = refl
  size-inserted (key ∷ keys) b = size-inserted keys b

  pub new_filter-IsFilter : (n : ℕ) → 0 < n → IsFilter (new_filter n)
  new_filter-IsFilter n h = record { full = length-replicate n 0; some_counters = h }

  contains-new_filter : (n : ℕ) (q : Text) → contains hash q (new_filter n) ≡ false
  unfolding contains
  contains-new_filter n q = rw (counter-replicate n (hash q % n)) refl

  -- A new filter of n counters, n above 0, contains after some insertions the keys that have the counter of an
  -- inserted key, and no others: with them each inserted key.
  pub contains-inserted :
      (n : ℕ) (keys : List Text) (q : Text)
      → 0 < n
      → contains hash q (inserted keys (new_filter n)) ≡ has_alike q keys n
  unfolding inserted has_alike
  contains-inserted n [] q h = contains-new_filter n q
  contains-inserted n (key ∷ keys) q h =
      contains-insert q key (inserted keys (new_filter n))
        (inserted-IsFilter keys (new_filter n) (new_filter-IsFilter n h))
      ∙ rw (size-inserted keys (new_filter n), contains-inserted n keys q h) refl

  -- The removal of a key that was inserted last gives the filter back as it was.
  pub remove-insert :
      (key : Text) (b : BloomFilter) → IsFilter b → remove hash key (insert hash key b) ≡ b
  unfolding remove insert
  remove-insert key b f =
      let i = hash_key hash key b in
      let inside : i < length b.filter = omega (arith, f.full, f.some_counters) in
      let now : counter (set b.filter i (counter b.filter i + 1)) i ≡ counter b.filter i + 1 =
        counter-set b.filter i i (counter b.filter i + 1) inside ∙ rw (==_refl i) refl in
      let more : (counter b.filter i + 1 == 0) ≡ false = ground arith in
      let less : counter b.filter i + 1 - 1 ≡ counter b.filter i = omega arith in
      rw (now, more, less)
        (ap (λ cs. record b { filter = cs }) (set-set b.filter i (counter b.filter i + 1)))
