-- ===== src/Tests/Stores.antt =====
-- The theorems about the store and its filter, at concrete keys.
use blink_db.Base.{ℕ, ◌+◌, [], ◌∷◌, ◌≡◌, refl, arith, Text, codes, List, ◌++◌}
use blink_db.Bloom.{BloomFilter, new_filter}
use blink_db.Bloom
use blink_db.Bloom.Found.{inserted, has_alike, contains-inserted}
use blink_db.Storage.{new_store, get, opened_store, trigger_rewrite}
use blink_db.Storage.Files.{AllWords}
use blink_db.Storage.Restart.{get-opened_store}
use blink_db.Storage.Rewrite.{get-trigger_rewrite}
use blink_db.Storage.Reads.{AllReadable, stored, last_value, get-stored}

-- In the place of `std::hash`: the sum of the bytes.
abbrev sum_hash : Text → ℕ
sum_hash [] = 0
sum_hash (c ∷ s) = c + sum_hash s

abbrev keys : List Text
keys = codes "ab" ∷ codes "c" ∷ []

contains-inserted_example :
    Bloom.contains sum_hash (codes "ba") (inserted sum_hash keys (new_filter 10))
    ≡ has_alike sum_hash (codes "ba") keys 10
contains-inserted_example = contains-inserted sum_hash 10 keys (codes "ba") (omega arith)

abbrev records : List (Text × Text)
records = (codes "ab", codes "new value") ∷ (codes "c", codes "2") ∷ (codes "ab", codes "1") ∷ []

get-stored_example :
    get sum_hash (codes "ab") (stored sum_hash records (new_store 10))
    ≡ last_value (codes "ab") records
unfolding AllReadable
get-stored_example = get-stored sum_hash 10 records (codes "ab") (omega arith) (
  (refl, omega arith),
  (refl, refl),
  ((refl, omega arith), (refl, refl), ((refl, omega arith), (refl, refl), tt)),
)

abbrev words : List (Text × Text)
words = (codes "ab", codes "new") ∷ (codes "c", codes "2") ∷ (codes "ab", codes "1") ∷ []

get-opened_store_example :
    get sum_hash
      (codes "ab")
      (opened_store sum_hash 7 (stored sum_hash words (new_store 10)).data_file)
    ≡ last_value (codes "ab") words
unfolding AllWords
get-opened_store_example = get-opened_store sum_hash 10 7 words (codes "ab") (omega arith) (
  (refl, omega arith),
  (refl, omega arith),
  ((refl, omega arith), (refl, omega arith), ((refl, omega arith), (refl, omega arith), tt)),
)

-- The first record of the file is lost.
get-trigger_rewrite_example :
    get sum_hash
      (codes "d")
      (trigger_rewrite (stored sum_hash (words ++ ((codes "d", codes "4") ∷ [])) (new_store 10)))
    ≡ last_value (codes "d") words
unfolding AllWords
get-trigger_rewrite_example =
    get-trigger_rewrite sum_hash 10 words (codes "d", codes "4") (codes "d") (omega arith)
      (
        (refl, omega arith),
        (refl, omega arith),
        (
          (refl, omega arith),
          (refl, omega arith),
          (
            (refl, omega arith),
            (refl, omega arith),
            ((refl, omega arith), (refl, omega arith), tt),
          ),
        ),
      )
