-- ===== src/Dict/Chains/Laws.antt =====
-- Chains as association lists, lib/dict.h.
use blink_db.Base.{
  ℕ, ◌+◌, ◌≤◌, [], ◌∷◌, none, some, true, false, ◌≡◌, refl, arith, if◌then◌else◌, length,
  Bool-cases, inl, inr, Bool,
}
use blink_db.Dict.Keys.{Key}
use blink_db.Dict.{Chain}
use blink_db.Dict.Chains.{find_entry, assign_entry, erase_entry}

abbrev pub to_nat : Bool → ℕ
to_nat true = 1
to_nat false = 0

module _ {K : Type 0} ⦃key : Key K⦄ where
  pub equal_refl : (k : K) → key.equal k k ≡ true
  equal_refl k = (key.equal_iff k k).1 refl

  pub equal_sound : (a b : K) → key.equal a b ≡ true → a ≡ b
  equal_sound a b = (key.equal_iff a b).0

  -- Equal keys are alike to every test.
  pub equal_left : (a b c : K) → key.equal a b ≡ true → key.equal a c ≡ key.equal b c
  equal_left a b c h = rw (equal_sound a b h)

  pub equal_symm : (a b : K) → key.equal a b ≡ key.equal b a
  equal_symm a b = elim (Bool-cases (key.equal a b)) [
    | inl h ↦ rw (equal_sound a b h)
    | inr h ↦ elim (Bool-cases (key.equal b a)) [
      | inl g ↦ rw (equal_sound b a g)
      | inr g ↦ rw (h, g)
    ]
  ]

module _ {K V : Type 0} ⦃key : Key K⦄ where
  -- How many entries of a chain have the key.
  unfoldable pub count : K → Chain K V → ℕ
  count q [] = 0
  count q (e ∷ c) = to_nat (key.equal q e.0) + count q c

  pub count_congr : (a b : K) (c : Chain K V) → key.equal a b ≡ true → count a c ≡ count b c
  count_congr a b c h = rw (equal_sound a b h)

  pub count-le-length : (q : K) (c : Chain K V) → count q c ≤ length c
  unfolding count
  count-le-length q [] = omega arith
  count-le-length q (e ∷ c) = ground (arith, count-le-length q c)

  pub find_none-count : (q : K) (c : Chain K V) → find_entry q c ≡ none → count q c ≡ 0
  unfolding find_entry count
  find_none-count q [] h = refl
  find_none-count q (e ∷ c) h = ground (arith, find_none-count q c)

  pub count-find_none : (q : K) (c : Chain K V) → count q c ≡ 0 → find_entry q c ≡ none
  unfolding find_entry count
  count-find_none q [] h = refl
  count-find_none q (e ∷ c) h = ground (arith, count-find_none q c)

  pub count-assign_entry :
      (q k : K) (v : V) (c : Chain K V) → count q (assign_entry k v c) ≡ count q c
  unfolding count assign_entry
  count-assign_entry q k v [] = refl
  count-assign_entry q k v (e ∷ c) = ground (arith, count-assign_entry q k v c)

  pub length-assign_entry : (k : K) (v : V) (c : Chain K V) → length (assign_entry k v c) ≡ length c
  unfolding assign_entry
  length-assign_entry k v [] = refl
  length-assign_entry k v (e ∷ c) = ground (arith, length-assign_entry k v c)

  pub find-assign_entry :
      (k q : K) (v : V) (c : Chain K V) (old : V)
      → find_entry k c ≡ some old
      → find_entry q (assign_entry k v c) ≡ (if key.equal k q then some v else find_entry q c)
  unfolding find_entry assign_entry
  find-assign_entry k q v [] old h = cc
  find-assign_entry k q v (e ∷ c) old h = ground (
    arith,
    find-assign_entry k q v c old,
    equal_left k q e.0,
    equal_left k e.0 q,
    equal_symm q e.0,
  )

  pub count-erase_entry : (q k : K) (c : Chain K V) → count q (erase_entry k c) ≤ count q c
  unfolding count erase_entry
  count-erase_entry q k [] = omega arith
  count-erase_entry q k (e ∷ c) = ground (arith, count-erase_entry q k c)

  pub length-erase_entry :
      (k : K) (c : Chain K V) (old : V)
      → find_entry k c ≡ some old
      → length (erase_entry k c) + 1 ≡ length c
  unfolding erase_entry find_entry
  length-erase_entry k [] old h = cc
  length-erase_entry k (e ∷ c) old h = ground (arith, length-erase_entry k c old)

  find_congr : (k q : K) (c : Chain K V) → key.equal k q ≡ true → find_entry k c ≡ find_entry q c
  find_congr k q c h = rw (equal_sound k q h)

  pub find-erase_entry :
      (k q : K) (c : Chain K V)
      → count k c ≤ 1
      → find_entry q (erase_entry k c) ≡ (if key.equal k q then none else find_entry q c)
  unfolding find_entry erase_entry count
  find-erase_entry k q [] h = ground arith
  find-erase_entry k q (e ∷ c) h = ground (
    arith,
    find-erase_entry k q c,
    count-find_none k c,
    equal_left k q e.0,
    equal_left k e.0 q,
    equal_symm q e.0,
    find_congr k q c,
  )
