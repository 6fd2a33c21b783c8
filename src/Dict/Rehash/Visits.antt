-- ===== src/Dict/Rehash/Visits.antt =====
-- The loop over empty buckets, `dictRehash` of lib/dict.h.
use blink_db.Base.{
  ℕ, zero, suc, ◌≤◌, ◌<◌, List, [], ◌∷◌, some, true, false, ◌≡◌, refl, arith, length, ◌>>=◌,
  Bool-cases, inl, inr, ◌==◌, ==_iff, ◌⊎◌,
}
use native.Mathlib.Decide.{dec_lt}
use blink_db.Dict.{is_null}
use blink_db.Dict.Chains.Buckets.{Emptied, entries-Emptied, bucket, entries, get_elem?-bucket}
use blink_db.Dict.Rehash.{Visit, stopped, arrived, skip_empty}

module _ {A : Type 0} where
  -- Where the loop over empty buckets ends.
  abbrev pub Reached : List (List A) → ℕ → Visit → Type 0
  Reached t i (stopped j) = Emptied j t × (i < j)
  Reached t i (arrived j left) =
      Emptied j t × (i ≤ j) × (0 < left) × (j < length t) × (0 < length (bucket t j))

  -- A bucket before the end, as there are entries behind the empty ones.
  pub not_at_end : (t : List (List A)) (i : ℕ) → Emptied i t → 0 < entries t → i < length t
  not_at_end t i before more = elim (dec_lt i (length t)) [
    | yes lt ↦ lt
    | no ge ↦
        absurd (omega (arith, more, entries-Emptied t (λ n lt. before n (omega (arith, lt, ge)))))
  ]

  further : (t : List (List A)) (i : ℕ) → Emptied i t → length (bucket t i) ≡ 0 → Emptied (suc i) t
  further t i before here n lt = elim (Bool-cases (n == i)) [
    | inl e ↦ let at : n ≡ i = (==_iff n i).0 e in rw at here
    | inr e ↦ before n (ground (arith, ==_iff n i))
  ]

  null_cases :
      (c : List A) → ((is_null c ≡ true) × (length c ≡ 0)) ⊎ ((is_null c ≡ false) × (0 < length c))
  null_cases [] = inl (refl, refl)
  null_cases (x ∷ c) = inr (refl, omega arith)

  later : (t : List (List A)) (i : ℕ) (v : Visit) → Reached t (suc i) v → Reached t i v
  later t i (stopped j) r = (r.0, omega (arith, r.1))
  later t i (arrived j left) r = (r.0, omega (arith, r.1), r.2, r.3, r.4)

  pub skip_empty_lem :
      (visits : ℕ) (t : List (List A)) (i : ℕ)
      → 0 < visits
      → Emptied i t
      → 0 < entries t
      → (v : Visit) × (skip_empty visits t i ≡ some v) × Reached t i v
  unfolding skip_empty
  skip_empty_lem zero t i pos before more = absurd (omega arith)
  skip_empty_lem (suc visits) t i pos before more =
      let lt = not_at_end t i before more in
      elim (null_cases (bucket t i)) [
        | inl (null, none_here) ↦ elim (Bool-cases (visits == 0)) [
          | inl last ↦ (
            stopped (suc i),
            rw (get_elem?-bucket t i lt, ◌>>=◌, null, last) refl,
            (further t i before none_here, omega arith),
          )
          | inr left ↦
              let (v, run, reached) =
                skip_empty_lem visits t (suc i) (ground arith) (further t i before none_here)
                  more in
              (v, rw (get_elem?-bucket t i lt, ◌>>=◌, null, left) run, later t i v reached)
        ]
        | inr (full, some_here) ↦ (
          arrived i (suc visits),
          rw (get_elem?-bucket t i lt, ◌>>=◌, full) refl,
          (before, omega arith, omega arith, lt, some_here),
        )
      ]
