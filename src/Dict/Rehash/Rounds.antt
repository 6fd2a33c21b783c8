-- ===== src/Dict/Rehash/Rounds.antt =====
-- The loop over buckets, `dictRehash` of lib/dict.h.
use blink_db.Base.{
  ℕ, zero, suc, ◌≤◌, ◌<◌, Option, some, Bool, true, false, ◌≡◌, refl, ◌∙◌, arith, ◌>>=◌, Bool-cases,
  inl, inr, ◌==◌, ==_iff,
}
use blink_db.Dict.Keys.{Key}
use blink_db.Dict.{Dict}
use blink_db.Dict.Chains.Buckets.{Emptied, entries}
use blink_db.Dict.Rehash.{Visit, stopped, arrived, move_bucket, rehash_rounds}
use blink_db.Dict.Rehash.Visits.{Reached, skip_empty_lem}
use blink_db.Dict.Rehash.Moves.{Moving, Kept, move_bucket_lem}

module _ {K V : Type 0} ⦃key : Key K⦄ where
  pub Kept-refl : (d : Dict K V) → Kept d d
  Kept-refl d = record { entries = λ q. refl; number = refl; total = refl }

  pub Kept-trans : (d e f : Dict K V) → Kept d e → Kept e f → Kept d f
  Kept-trans d e f p q = record {
    entries = λ k. q.entries k ∙ p.entries k;
    number = q.number ∙ p.number;
    total = q.total ∙ p.total;
  }

  -- The result of some rounds that began at bucket i: a rehash still in progress, further on if anything
  -- was left to move, with the same entries. The rounds end early only at an empty bucket.
  pub record Advanced (n i : ℕ) (d : Dict K V) (r : Dict K V × Bool) : Type 0 where
    pub at : ℕ
    pub idx : r.0.rehashidx ≡ some at
    pub moving : Moving at r.0
    pub kept : Kept d r.0
    pub sized : r.0.ht0.size ≡ d.ht0.size
    pub less : r.0.ht0.used ≤ d.ht0.used
    pub busy : r.1 ≡ true → 0 < r.0.ht0.used
    pub le : i ≤ at
    pub on : 0 < n → 0 < d.ht0.used → i < at

  Moving-rehashidx :
      (i : ℕ) (d : Dict K V) (x : Option ℕ) → Moving i d → Moving i (record d { rehashidx = x })
  Moving-rehashidx i d x m = record {
    table0 = m.table0;
    table1 = m.table1;
    pos0 = m.pos0;
    pos1 = m.pos1;
    apart = m.apart;
    emptied = m.emptied;
  }

  Kept-rehashidx : (d : Dict K V) (x : Option ℕ) → Kept d (record d { rehashidx = x })
  Kept-rehashidx d x = record { entries = λ q. refl; number = refl; total = refl }

  stays :
      (n i j : ℕ) (d : Dict K V) (b : Bool)
      → Moving j d
      → i ≤ j
      → (b ≡ true → 0 < d.ht0.used)
      → (0 < n → 0 < d.ht0.used → i < j)
      → Advanced n i d (record d { rehashidx = some j }, b)
  stays n i j d b m le busy on = record {
    at = j;
    idx = refl;
    moving = Moving-rehashidx j d (some j) m;
    kept = Kept-rehashidx d (some j);
    sized = refl;
    less = omega arith;
    busy = busy;
    le = le;
    on = on;
  }

  Moving-Emptied : (i j : ℕ) (d : Dict K V) → Moving i d → Emptied j d.ht0.table → Moving j d
  Moving-Emptied i j d m before = record {
    table0 = m.table0;
    table1 = m.table1;
    pos0 = m.pos0;
    pos1 = m.pos1;
    apart = m.apart;
    emptied = before;
  }

-- What n rounds promise.
abbrev Rounds : (K V : Type 0) ⦃key : Key K⦄ → ℕ → Type 0
Rounds K V n =
    (visits i : ℕ) (d : Dict K V)
    → (0 < n → 0 < visits)
    → Moving i d
    → (r : Dict K V × Bool) × (rehash_rounds n visits i d ≡ some r) × Advanced n i d r

module _ {K V : Type 0} ⦃key : Key K⦄ where
  -- One round, where the loop over empty buckets has ended.
  go_on :
      (n i : ℕ) (d : Dict K V)
      → Rounds K V n
      → Moving i d
      → (v : Visit) → Reached d.ht0.table i v
      → 0 < d.ht0.used
      → (r : Dict K V × Bool) × ((elim v as (λ x. Option (Dict K V × Bool)) [
        | stopped j ↦ some (record d { rehashidx = some j }, true)
        | arrived j left ↦ move_bucket j d >>= λ e. rehash_rounds n left (suc j) e
      ])
          ≡ some r)
        × Advanced (suc n) i d r
  go_on n i d rounds m (stopped j) reached more = (
    (record d { rehashidx = some j }, true),
    refl,
    stays (suc n) i j d true (Moving-Emptied i j d m reached.0) (omega (arith, reached.1))
        (λ e. more) (λ h g. reached.1),
  )
  go_on n i d rounds m (arrived j left) (before, le, some_left, lt, full) more =
      let (e, moved, moving, kept, fewer, sized) = move_bucket_lem i j d m lt before in
      let (r, run, a) = rounds left (suc j) e (λ h. some_left) moving in
      (
        r,
        rw (moved, ◌>>=◌) run,
        record {
          at = a.at;
          idx = a.idx;
          moving = a.moving;
          kept = Kept-trans d e r.0 kept a.kept;
          sized = a.sized ∙ sized;
          less = omega (arith, a.less, fewer);
          busy = a.busy;
          le = omega (arith, le, a.le);
          on = λ h g. omega (arith, le, a.le);
        },
      )

  pub rehash_rounds_lem : (n : ℕ) → Rounds K V n
  unfolding rehash_rounds
  rehash_rounds_lem zero visits i d pos m = (
    (record d { rehashidx = some i }, false),
    refl,
    stays zero i i d false m (omega arith) (λ e. cc) (λ h g. absurd (omega arith)),
  )
  rehash_rounds_lem (suc n) visits i d pos m = elim (Bool-cases (d.ht0.used == 0)) [
    | inl nothing ↦ (
      (record d { rehashidx = some i }, false),
      rw (rehash_rounds, nothing) refl,
      stays (suc n) i i d false m (omega arith) (λ e. cc)
          (λ h g. ground (arith, ==_iff d.ht0.used 0)),
    )
    | inr something ↦
        let more : 0 < entries d.ht0.table =
          ground (arith, ==_iff d.ht0.used 0, m.table0.counted) in
        let (v, visited, reached) =
          skip_empty_lem visits d.ht0.table i (pos (omega arith)) m.emptied more in
        let (r, run, advanced) =
          go_on n i d (rehash_rounds_lem n) m v reached (ground (arith, ==_iff d.ht0.used 0)) in
        (r, rw (rehash_rounds, something, visited, ◌>>=◌) run, advanced)
  ]
