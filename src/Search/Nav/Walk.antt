-- ===== src/Search/Nav/Walk.antt =====
-- Where `NavNext` and `NavPrev` lead.
use blink_db.Base.{
  ℕ, zero, suc, ◌+◌, ◌≤◌, ◌<◌, List, [], ◌∷◌, none, some, Bool, true, false, ◌≡◌, refl, ap, arith,
  ◌==◌, ltb, ltb→lt, Bool-cases, Option-cases, inl, inr, length,
}
use blink_db.Search.Results.{is_block, Row}
use blink_db.Search.Nav.{row_display, nav_next_rounds, nav_next, nav_prev}

-- Row i exists and is on display.
unfoldable pub visible : List Row → ℕ → Bool
visible rows i = elim (row_display rows i) [ none ↦ false | some d ↦ is_block d ]

-- `j` is the first row on display from `i` on.
pub record IsNext (rows : List Row) (i j : ℕ) : Type 0 where
  pub after : i ≤ j
  pub on : visible rows j ≡ true
  pub first : (k : ℕ) → i ≤ k → k < j → visible rows k ≡ false

-- `j` is the last row on display before `i`.
pub record IsPrev (rows : List Row) (i j : ℕ) : Type 0 where
  pub before : j < i
  pub on : visible rows j ≡ true
  pub last : (k : ℕ) → j < k → k < i → visible rows k ≡ false

beyond : (rows : List Row) (i : ℕ) → length rows ≤ i → visible rows i ≡ false
unfolding visible row_display
beyond [] i h = refl
beyond (r ∷ rows) zero h = absurd (omega arith)
beyond (r ∷ rows) (suc i) h = beyond rows i (omega arith)

le_of_none : (rows : List Row) (i : ℕ) → row_display rows i ≡ none → length rows ≤ i
unfolding row_display
le_of_none [] i h = omega arith
le_of_none (r ∷ rows) zero h = cc
le_of_none (r ∷ rows) (suc i) h = omega (arith, le_of_none rows i h)

module _ (rows : List Row) where
  -- One round: the row is on display, or it is passed over.
  IsNext-step : (i j : ℕ) → visible rows i ≡ false → IsNext rows (suc i) j → IsNext rows i j
  IsNext-step i j off n = record {
    after = omega (arith, n.after);
    on = n.on;
    first = λ k a b. elim (Bool-cases (k == i)) [
      | inl e ↦ let same : k ≡ i = ground arith in rw same off
      | inr e ↦ n.first k (ground arith) b
    ];
  }

  on_step : (i j : ℕ) → visible rows i ≡ true → some i ≡ some j → IsNext rows i j
  on_step i j on e =
      let same : i ≡ j = ground arith in
      record { after = omega arith; on = rw (← same) on; first = λ k a b. absurd (omega arith) }

  IsNext-found : (n i j : ℕ) → nav_next_rounds n rows i ≡ some j → IsNext rows i j
  unfolding nav_next_rounds
  IsNext-found zero i j h = cc
  IsNext-found (suc n) i j h = elim (Option-cases (row_display rows i)) [
    | inl e ↦ cc (rw (e, nav_next_rounds) at h)
    | inr (d, e) ↦ elim (Bool-cases (is_block d)) [
      | inl b ↦ on_step i j (unfold visible in rw (e, visible) b) (ground arith)
      | inr b ↦
          IsNext-step i j (unfold visible in rw (e, visible) b)
            (IsNext-found n (suc i) j (ground arith))
    ]
  ]

  next_complete :
      (n i : ℕ)
      → length rows < n + i
      → nav_next_rounds n rows i ≡ none
      → (k : ℕ) → i ≤ k
      → visible rows k ≡ false
  unfolding nav_next_rounds
  next_complete zero i fuel h k le = beyond rows k (omega arith)
  next_complete (suc n) i fuel h k le = elim (Option-cases (row_display rows i)) [
    | inl e ↦ beyond rows k (omega (arith, le_of_none rows i e))
    | inr (d, e) ↦ elim (Bool-cases (is_block d)) [
      | inl b ↦ absurd (ground arith)
      | inr b ↦ elim (Bool-cases (k == i)) [
        | inl q ↦ let same : k ≡ i = ground arith in rw same (unfold visible in rw (e, visible) b)
        | inr q ↦ next_complete n (suc i) (omega arith) (ground arith) k (ground arith)
      ]
    ]
  ]

  -- `NavNext(i)` leads to the first row on display from `i` on, and to none only if no row from
  -- `i` on is on display.
  pub nav_next_lem :
      (i : ℕ)
      → ((j : ℕ) → nav_next rows i ≡ some j → IsNext rows i j)
        × (nav_next rows i ≡ none → (k : ℕ) → i ≤ k → visible rows k ≡ false)
  unfolding nav_next
  nav_next_lem i =
      (IsNext-found (suc (length rows)) i, next_complete (suc (length rows)) i (omega arith))

  IsPrev-step : (i j : ℕ) → visible rows i ≡ false → IsPrev rows i j → IsPrev rows (suc i) j
  IsPrev-step i j off n = record {
    before = omega (arith, n.before);
    on = n.on;
    last = λ k a b. elim (Bool-cases (k == i)) [
      | inl e ↦ let same : k ≡ i = ground arith in rw same off
      | inr e ↦ n.last k a (ground arith)
    ];
  }

  IsPrev-found : (i j : ℕ) → i ≤ length rows → nav_prev rows i ≡ some j → IsPrev rows i j
  unfolding nav_prev
  IsPrev-found zero j le h = cc
  IsPrev-found (suc i) j le h = elim (Option-cases (row_display rows i)) [
    | inl e ↦ absurd (omega (arith, le_of_none rows i e))
    | inr (d, e) ↦ elim (Bool-cases (is_block d)) [
      | inl b ↦
          let same : i ≡ j = ground arith in
          record {
            before = omega arith;
            on = rw (← same) (unfold visible in rw (e, visible) b);
            last = λ k a c. absurd (omega arith);
          }
      | inr b ↦
          IsPrev-step i j (unfold visible in rw (e, visible) b)
            (IsPrev-found i j (omega arith) (ground arith))
    ]
  ]

  -- a row on display before `i` is found
  prev_complete :
      (i : ℕ) → i ≤ length rows → nav_prev rows i ≡ none → (k : ℕ) → k < i → visible rows k ≡ false
  unfolding nav_prev
  prev_complete zero le h k lt = absurd (omega arith)
  prev_complete (suc i) le h k lt = elim (Option-cases (row_display rows i)) [
    | inl e ↦ absurd (omega (arith, le_of_none rows i e))
    | inr (d, e) ↦ elim (Bool-cases (is_block d)) [
      | inl b ↦ absurd (ground arith)
      | inr b ↦ elim (Bool-cases (k == i)) [
        | inl q ↦ let same : k ≡ i = ground arith in rw same (unfold visible in rw (e, visible) b)
        | inr q ↦ prev_complete i (omega arith) (ground arith) k (ground arith)
      ]
    ]
  ]

  pub visible-lt : (i : ℕ) → visible rows i ≡ true → i < length rows
  visible-lt i on = elim (Bool-cases (ltb i (length rows))) [
    | inl e ↦ ltb→lt i (length rows) e
    | inr e ↦ cc (beyond rows i (ground arith))
  ]

  meet : (k i j : ℕ) → visible rows i ≡ true → IsNext rows (suc i) j → IsPrev rows j k → k ≡ i
  meet k i j on n p = elim (Bool-cases (ltb k i)) [
    | inl e ↦ cc (p.last i (ltb→lt k i e) (omega (arith, n.after)))
    | inr e ↦ elim (Bool-cases (ltb i k)) [
      | inl f ↦ cc (n.first k (ltb→lt i k f) p.before, p.on)
      | inr f ↦ ground arith
    ]
  ]

  -- `NavPrev(i - 1)` leads to the last row on display before `i`, and to none only if no row before
  -- `i` is on display. Row i is one of the list.
  pub nav_prev_lem :
      (i : ℕ)
      → i ≤ length rows
      → ((j : ℕ) → nav_prev rows i ≡ some j → IsPrev rows i j)
        × (nav_prev rows i ≡ none → (k : ℕ) → k < i → visible rows k ≡ false)
  nav_prev_lem i le = (λ j. IsPrev-found i j le, prev_complete i le)

  -- From a row on display, the row before the next one is that row again.
  pub nav_prev-nav_next :
      (i j : ℕ) → visible rows i ≡ true → nav_next rows (suc i) ≡ some j → nav_prev rows j ≡ some i
  nav_prev-nav_next i j on h =
      let n = (nav_next_lem (suc i)).0 j h in
      let le : j ≤ length rows = omega (arith, visible-lt j n.on) in
      elim (Option-cases (nav_prev rows j)) [
        | inl e ↦ cc (prev_complete j le e i (omega (arith, n.after)))
        | inr (k, e) ↦ rw e (ap some (meet k i j on n (IsPrev-found j k le e)))
      ]
