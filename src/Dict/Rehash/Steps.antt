-- ===== src/Dict/Rehash/Steps.antt =====
-- The steps of a rehash, `dictRehash` and `_dictRehashStep` of lib/dict.h.
use blink_db.Base.{
  ℕ, ◌*◌, Option, none, some, Bool, true, false, ◌≡◌, refl, sym, ap, subst, ◌∙◌, arith, ◌>>=◌,
  Option-cases, Bool-cases, inl, inr, ◌==◌, ==_iff, or_else,
}
use blink_db.Dict.Keys.{Key}
use blink_db.Dict.{Dictht, Dict, is_rehashing, reset}
use blink_db.Dict.Chains.{find_entry, index}
use blink_db.Dict.Chains.Laws.{count-find_none, count-le-length}
use blink_db.Dict.Chains.Buckets.{length-bucket-le, bucket, home, view, IsTable}
use blink_db.Dict.Rehash.{finish, rehash_at, rehash, rehash_step}
use blink_db.Dict.Rehash.Rounds.{Kept-refl, Kept-trans, rehash_rounds_lem}
use blink_db.Dict.Rehash.Moves.{Moving, Kept}

or_else-none : {V : Type 0} (o : Option V) → or_else o none ≡ o
unfolding or_else
or_else-none none = refl
or_else-none (some v) = refl

module _ {K V : Type 0} ⦃key : Key K⦄ where
  -- A dictionary between two calls.
  abbrev pub Fits : Option ℕ → Dict K V → Type 0
  Fits none d = IsTable d.ht0 × (d.ht1 ≡ reset)
  Fits (some i) d = Moving i d

  abbrev pub IsDict : Dict K V → Type 0
  IsDict d = Fits d.rehashidx d

  pub Fits-Moving : (i : ℕ) (d : Dict K V) → d.rehashidx ≡ some i → IsDict d → Moving i d
  Fits-Moving i d idx fits = subst (λ x. Fits x d) idx fits

  Moving-IsDict : (i : ℕ) (d : Dict K V) → d.rehashidx ≡ some i → Moving i d → IsDict d
  Moving-IsDict i d idx m = subst (λ x. Fits x d) (sym idx) m

  -- An empty first table gives nothing away.
  pub view-none : (h : Dictht K V) → IsTable h → h.used ≡ 0 → (q : K) → view q h ≡ none
  view-none h t e q = count-find_none q (home q h) (
      omega
        (arith, count-le-length q (home q h), length-bucket-le h.table (index q h), t.counted, e))

  pub finish_lem :
      (i : ℕ) (r : Dict K V × Bool)
      → r.0.rehashidx ≡ some i
      → Moving i r.0
      → IsDict (finish r).0 × Kept r.0 (finish r).0
  unfolding finish
  finish_lem i (d, true) idx m = (Moving-IsDict i d idx m, Kept-refl d)
  finish_lem i (d, false) idx m = elim (Bool-cases (d.ht0.used == 0)) [
    | inl none_left ↦
        let zero_used : d.ht0.used ≡ 0 = (==_iff _ 0).0 none_left in
        rw none_left (
          (m.table1, refl),
          record {
            entries = λ q.
                rw (view-none d.ht0 m.table0 zero_used q)
                  (unfold bucket find_entry or_else in or_else-none (view q d.ht1));
            number = omega (arith, zero_used);
            total = refl;
          },
        )
    | inr more ↦ rw more (Moving-IsDict i d idx m, Kept-refl d)
  ]

  -- The number that `dictRehash` returns is 0 where no rehash is in progress any more.
  pub rehash_lem :
      (n : ℕ) (d : Dict K V)
      → IsDict d
      → (r : Dict K V × ℕ) × (rehash n d ≡ some r) × IsDict r.0 × Kept d r.0
  unfolding rehash rehash_at
  rehash_lem n d fits = elim (Option-cases d.rehashidx) [
    | inl e ↦ ((d, 0), ap (λ x. rehash_at n x d) e, fits, Kept-refl d)
    | inr (i, e) ↦
        let (r, run, a) =
          rehash_rounds_lem n (n * 10) i d (λ h. omega arith) (Fits-Moving i d e fits) in
        let (whole, kept) = finish_lem a.at r a.idx a.moving in
        (
          finish r,
          ap (λ x. rehash_at n x d) e ∙ rw (rehash_at, run, ◌>>=◌) refl,
          whole,
          Kept-trans d r.0 (finish r).0 a.kept kept,
        )
  ]

  pub rehash_step_lem :
      (d : Dict K V) → IsDict d → (e : Dict K V) × (rehash_step d ≡ some e) × IsDict e × Kept d e
  unfolding rehash_step
  rehash_step_lem d fits = elim (Bool-cases (is_rehashing d)) [
    | inl busy ↦ elim (Bool-cases (d.iterators == 0)) [
      | inl free ↦
          let (r, run, whole, kept) = rehash_lem 1 d fits in
          (r.0, rw (rehash_step, busy, free, run, ◌>>=◌) refl, whole, kept)
      | inr held ↦ (d, rw (rehash_step, busy, held) refl, fits, Kept-refl d)
    ]
    | inr idle ↦ (d, rw (rehash_step, idle) refl, fits, Kept-refl d)
  ]
