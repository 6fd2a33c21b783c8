-- ===== src/Dict/Keys.antt =====
-- What the dictionary is told of its keys, lib/dict.h: `hashFunction` and `keyCompare`, and the two for
-- texts, `stringHash` and `stringCompare`.
use blink_db.Base.{
  ℕ, ◌+◌, ◌*◌, ◌-◌, ◌%◌, ◌^◌, [], ◌∷◌, Bool, true, ◌≡◌, ◌↔◌, refl, Text, text_eq, text_eq_iff, ltb,
  if◌then◌else◌,
}

pub record Key (K : Type 0) : Type 0 where
  pub hash : K → ℕ
  pub equal : K → K → Bool
  pub equal_iff : (a b : K) → (equal a b ≡ true) ↔ (a ≡ b)

-- A `char` has a sign: the bytes from 128 on stand for numbers below 0, here modulo 2 ^ 32.
unfoldable pub char_value : ℕ → ℕ
char_value c = if ltb c 128 then c else 2 ^ 32 + c - 256

-- The loop of `stringHash`, with the variable `hash`, an `unsigned int`.
unfoldable pub hash_from : ℕ → Text → ℕ
hash_from hash [] = hash
hash_from hash (c ∷ s) = hash_from (((hash * 32) % 2 ^ 32 + hash + char_value c) % 2 ^ 32) s

unfoldable pub string_hash : Text → ℕ
string_hash s = hash_from 5381 s

-- Texts without a 0 are what a C string is.
instance abbrev pub string_key : Key Text
string_key = record { hash = string_hash; equal = text_eq; equal_iff = text_eq_iff }

string_hash_runs : string_hash (b'a' ∷ b'b' ∷ []) ≡ 5863208
unfolding string_hash hash_from char_value
string_hash_runs = refl
