-- ===== src/Dict/Methods/Power.antt =====
-- The sizes of tables, `_dictNextPower` of lib/dict.h.
use blink_db.Base.{
  ℕ, zero, suc, ◌*◌, ◌^◌, ◌≤◌, ◌<◌, ◌⊎◌, ◌-◌, inl, inr, ◌≡◌, refl, sym, ◌∙◌, arith, leb, Bool-cases,
}
use native.Mathlib.Numerals.{unary_clauses}
use blink_db.Dict.{doubled, next_power}

-- A power of two from i on.
abbrev Doubles : ℕ → ℕ → Type 0
Doubles i m = (e : ℕ) × (m ≡ i * 2 ^ e)

mul_two : (i e : ℕ) → i * 2 ^ suc e ≡ i * 2 * 2 ^ e
mul_two i e = simp unary_clauses (omega arith)

doubled-Doubles : (rounds i n : ℕ) → Doubles i (doubled rounds i n)
unfolding doubled
doubled-Doubles zero i n = (0, omega arith)
doubled-Doubles (suc rounds) i n = elim (Bool-cases (leb n i)) [
  | inl enough ↦ (0, rw enough (omega arith))
  | inr more ↦
      let (e, same) = doubled-Doubles rounds (i * 2) n in
      (suc e, rw more (same ∙ sym (mul_two i e)))
]

doubled-le : (rounds i n : ℕ) → n ≤ i * 2 ^ rounds → n ≤ doubled rounds i n
unfolding doubled
doubled-le zero i n h = omega (arith, h)
doubled-le (suc rounds) i n h =
    let le : n ≤ i * 2 * 2 ^ rounds = omega (arith, h, mul_two i rounds) in
    let rest = doubled-le rounds (i * 2) n le in ground arith

doubled-lt : (rounds i n : ℕ) → (doubled rounds i n ≡ i) ⊎ (doubled rounds i n < 2 * n)
unfolding doubled
doubled-lt zero i n = inl refl
doubled-lt (suc rounds) i n = elim (Bool-cases (leb n i)) [
  | inl enough ↦ inl (rw enough refl)
  | inr more ↦ elim (doubled-lt rounds (i * 2) n) [
    | inl same ↦ inr (rw (more, same) (ground arith))
    | inr less ↦ inr (rw more less)
  ]
]

-- A table for n entries, n at most 2 ^ 63, has room for n; its size is a power of two from 4 on, and it is
-- 4 or less than twice n.
pub next_power_bounds :
    (n : ℕ)
    → n ≤ 2 ^ 63
    → (n ≤ next_power n)
      × ((e : ℕ) × (next_power n ≡ 4 * 2 ^ e))
      × ((next_power n ≡ 4) ⊎ (next_power n < 2 * n))
unfolding next_power
next_power_bounds n h = elim (Bool-cases (leb (2 ^ 63 - 1) n)) [
  | inl most ↦ (rw most h, (61, rw most refl), inr (rw most (ground arith)))
  | inr less ↦ (
    rw less (doubled-le 62 4 n (ground arith)),
    rw less (doubled-Doubles 62 4 n),
    rw less (doubled-lt 62 4 n),
  )
]
