-- ===== src/Dict/Rehash/Loop.antt =====
-- The calls `while (rehash(n))`, lib/dict.h.
use blink_db.Base.{
  ℕ, zero, suc, ◌+◌, ◌*◌, ◌≤◌, ◌<◌, Option, none, some, Bool, true, false, ◌⊎◌, inl, inr, ◌≡◌, refl,
  ap, ◌∙◌, arith, ◌==◌, ==_iff, ◌>>=◌, Bool-cases, Option-cases,
}
use blink_db.Dict.Keys.{Key}
use blink_db.Dict.{Dict}
use blink_db.Dict.Rehash.{finish, rehash_at, rehash}
use blink_db.Dict.Rehash.Moves.{Moving, Kept}
use blink_db.Dict.Rehash.Steps.{IsDict, Fits-Moving, finish_lem}
use blink_db.Dict.Rehash.Rounds.{Advanced, Kept-refl, Kept-trans, rehash_rounds_lem}
use blink_db.Dict.Rehash.Visits.{not_at_end}

module _ {K V : Type 0} ⦃key : Key K⦄ where
  -- The call is made at most `calls` times, until it returns 0.
  unfoldable pub rehash_loop : ℕ → ℕ → Dict K V → Option (Dict K V)
  rehash_loop zero n d = none
  rehash_loop (suc calls) n d =
      rehash n d >>= λ r. elim (r.1 == 0) [ true ↦ some r.0 | false ↦ rehash_loop calls n r.0 ]

  -- After a call: finished, or at a later bucket of the same table.
  abbrev Progress : ℕ → Dict K V → Dict K V × ℕ → Type 0
  Progress i d r =
      ((r.1 ≡ 0) × (r.0.rehashidx ≡ none))
      ⊎ ((r.1 ≡ 1)
          × ((j : ℕ) × (r.0.rehashidx ≡ some j)
              × (i < j)
              × (j < d.ht0.size)
              × (r.0.ht0.size ≡ d.ht0.size)))

  rehash_idle : (n : ℕ) (d : Dict K V) → d.rehashidx ≡ none → rehash n d ≡ some (d, 0)
  unfolding rehash rehash_at
  rehash_idle n d idle = ap (λ x. rehash_at n x d) idle

  before_end : (j : ℕ) (d : Dict K V) → Moving j d → 0 < d.ht0.used → j < d.ht0.size
  before_end j d m more = omega (
    arith,
    m.table0.width,
    not_at_end d.ht0.table j m.emptied (omega (arith, m.table0.counted, more)),
  )

  unfinished :
      (n i : ℕ) (d : Dict K V) (r : Dict K V × Bool)
      → 0 < n
      → Advanced n i d r
      → 0 < r.0.ht0.used
      → (j : ℕ) × (r.0.rehashidx ≡ some j)
        × (i < j)
        × (j < d.ht0.size)
        × (r.0.ht0.size ≡ d.ht0.size)
  unfinished n i d r pos a more = (
    a.at,
    a.idx,
    a.on pos (omega (arith, a.less, more)),
    omega (arith, a.sized, before_end a.at r.0 a.moving more),
    a.sized,
  )

  finish-Progress :
      (n i : ℕ) (d : Dict K V) (r : Dict K V × Bool)
      → 0 < n
      → Advanced n i d r
      → Progress i d (finish r)
  unfolding finish
  finish-Progress n i d (e, true) pos a = inr (refl, unfinished n i d (e, true) pos a (a.busy refl))
  finish-Progress n i d (e, false) pos a = elim (Bool-cases (e.ht0.used == 0)) [
    | inl none_left ↦ inl (rw (finish, none_left) refl, rw (finish, none_left) refl)
    | inr more ↦ inr (
      rw (finish, more) refl,
      rw (finish, more) (unfinished n i d (e, false) pos a (ground (arith, ==_iff e.ht0.used 0))),
    )
  ]

  rehash-Progress :
      (n i : ℕ) (d : Dict K V)
      → 0 < n
      → d.rehashidx ≡ some i
      → IsDict d
      → (r : Dict K V × ℕ) × (rehash n d ≡ some r) × IsDict r.0 × Kept d r.0 × Progress i d r
  unfolding rehash rehash_at
  rehash-Progress n i d pos idx fits =
      let (r, run, a) =
        rehash_rounds_lem n (n * 10) i d (λ h. omega arith) (Fits-Moving i d idx fits) in
      let (whole, kept) = finish_lem a.at r a.idx a.moving in
      (
        finish r,
        ap (λ x. rehash_at n x d) idx ∙ rw (rehash_at, run, ◌>>=◌) refl,
        whole,
        Kept-trans d r.0 (finish r).0 a.kept kept,
        finish-Progress n i d r pos a,
      )

  -- The loop ends, with the same entries in one table.
  abbrev pub Finished : ℕ → ℕ → Dict K V → Type 0
  Finished calls n d =
      (e : Dict K V) × (rehash_loop calls n d ≡ some e) × (e.rehashidx ≡ none) × IsDict e × Kept d e

  one_call :
      (calls n i : ℕ) (d : Dict K V) (r : Dict K V × ℕ)
      → rehash n d ≡ some r
      → IsDict r.0
      → Kept d r.0
      → Progress i d r
      → ((j : ℕ)
          → r.0.rehashidx ≡ some j
          → i < j
          → j < d.ht0.size
          → r.0.ht0.size ≡ d.ht0.size
          → Finished calls n r.0)
      → Finished (suc calls) n d
  unfolding rehash_loop
  one_call calls n i d r run whole kept (inl (last, done)) rest =
      (r.0, rw (rehash_loop, run, ◌>>=◌, last) refl, done, whole, kept)
  one_call calls n i d r run whole kept (inr (more, (j, at, on, before, same))) rest =
      let (e, ran, done, whole2, kept2) = rest j at on before same in
      (e, rw (rehash_loop, run, ◌>>=◌, more) ran, done, whole2, Kept-trans d r.0 e kept kept2)

  loop_from :
      (calls n i : ℕ) (d : Dict K V)
      → 0 < n
      → d.rehashidx ≡ some i
      → IsDict d
      → d.ht0.size ≤ i + calls
      → Finished (suc calls) n d
  loop_from zero n i d pos idx fits enough =
      let (r, run, whole, kept, progress) = rehash-Progress n i d pos idx fits in
      one_call 0 n i d r run whole kept progress
        (λ j at on before same. absurd (omega (arith, on, before, enough)))
  loop_from (suc calls) n i d pos idx fits enough =
      let (r, run, whole, kept, progress) = rehash-Progress n i d pos idx fits in
      one_call (suc calls) n i d r run whole kept progress (λ j at on before same.
        loop_from calls n j r.0 pos at whole (omega (arith, same, on, enough)))

  -- With at least one bucket to a call, the loop `while (rehash(n))` ends after as many calls as the first
  -- table has buckets and one more, and leaves one table with the entries of both.
  pub rehash_loop_finishes :
      (n : ℕ) (d : Dict K V) → 0 < n → IsDict d → Finished (suc d.ht0.size) n d
  unfolding rehash_loop
  rehash_loop_finishes n d pos fits = elim (Option-cases d.rehashidx) [
    | inl idle ↦ (d, rw (rehash_loop, rehash_idle n d idle, ◌>>=◌) refl, idle, fits, Kept-refl d)
    | inr (i, idx) ↦ loop_from d.ht0.size n i d pos idx fits (omega arith)
  ]
