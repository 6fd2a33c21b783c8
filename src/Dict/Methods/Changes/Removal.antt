-- ===== src/Dict/Methods/Changes/Removal.antt =====
-- The entries removed, `dictDelete` of lib/dict.h.
use blink_db.Base.{
  ℕ, ◌+◌, ◌-◌, ◌<◌, ◌%◌, ◌^◌, Option, none, some, ◌⊎◌, inl, inr, ◌≡◌, refl, sym, ap, ◌∙◌, arith,
  or_else, ◌>>=◌, Bool-cases, Option-cases, ◌==◌, ==_iff,
}
use blink_db.Dict.Keys.{Key}
use blink_db.Dict.{Dict, size, is_rehashing}
use blink_db.Dict.Chains.Buckets.{view}
use blink_db.Dict.Chains.Writes.{take_out-none, take_out-some}
use blink_db.Dict.Rehash.Moves.{both}
use blink_db.Dict.Rehash.Steps.{IsDict, Fits-Moving, rehash_step_lem}
use blink_db.Dict.Rehash.Rounds.{Kept-trans}
use blink_db.Dict.Methods.{take_both, remove, count_size}
use blink_db.Dict.Methods.Growth.{busy_index}
use blink_db.Dict.Methods.Lookups.{table0_of, room_of, both_empty, view1_idle}
use blink_db.Dict.Methods.Changes.{Reads, Reads-Kept, update, with_table0, with_table1}
use blink_db.Dict.Methods.Changes.Additions.{counted}
use blink_db.Dict.Methods.Changes.Replacement.{apart_of, changed}

module _ {K V : Type 0} ⦃key : Key K⦄ where
  -- What the search in both tables takes out.
  abbrev Taken : K → Dict K V → Type 0
  Taken k d =
      (e : Dict K V) × (((take_both k d ≡ some (d, none)) × (both k d ≡ none) × (e ≡ d))
        ⊎ ((v : V) × (take_both k d ≡ some (e, some v))
            × (both k d ≡ some v)
            × (0 < size d)
            × Reads (update k none (λ q. both q d)) (size d - 1) e
            × (e.total_size ≡ d.total_size)))

  take_both_lem : (k : K) (d : Dict K V) → IsDict d → 0 < d.ht0.size → Taken k d
  unfolding take_both or_else
  take_both_lem k d fits pos = elim (Option-cases (view k d.ht0)) [
    | inr (v, at) ↦
        let (h, run, holds, more, shrinks) = take_out-some k d.ht0 (table0_of d fits) pos v at in
        (
          record d { ht0 = h },
          inr (
            v,
            rw (take_both, run, ◌>>=◌) refl,
            rw at refl,
            omega (arith, more),
            with_table0 k d h none (d.ht0.used - 1) (size d - 1) fits pos holds
                (λ i idx. shrinks i (Fits-Moving i d idx fits).emptied) (apart_of k d v fits at)
                (omega (arith, more)),
            refl,
          ),
        )
    | inl off ↦
        let nothing = take_out-none k d.ht0 (table0_of d fits) pos off in
        elim (Bool-cases (is_rehashing d)) [
          | inr idle ↦ (
            d,
            inl (
              rw (take_both, nothing, ◌>>=◌, idle) refl,
              rw off (view1_idle d fits idle k),
              refl,
            ),
          )
          | inl busy ↦
              let (i, idx) = busy_index d busy in
              let m = Fits-Moving i d idx fits in
              elim (Option-cases (view k d.ht1)) [
                | inl off1 ↦
                    let nothing1 = take_out-none k d.ht1 m.table1 m.pos1 off1 in
                    (
                      d,
                      inl (
                        rw (take_both, nothing, ◌>>=◌, busy, nothing1, ◌>>=◌) refl,
                        rw off off1,
                        refl,
                      ),
                    )
                | inr (v, at) ↦
                    let (h, run, holds, more, shrinks) =
                      take_out-some k d.ht1 m.table1 m.pos1 v at in
                    (
                      record d { ht1 = h },
                      inr (
                        v,
                        rw (take_both, nothing, ◌>>=◌, busy, run, ◌>>=◌) refl,
                        rw off at,
                        omega (arith, more),
                        with_table1 k d h none (d.ht1.used - 1) (size d - 1) fits busy holds off
                            (omega (arith, more)),
                        refl,
                      ),
                    )
              ]
        ]
  ]

  module _ (entry_size : K → V → ℕ) where
    -- `remove(key)` of a content, with its result.
    pub remove_lem :
        (f : K → Option V) (n : ℕ) (k : K) (d : Dict K V)
        → Reads f n d
        → (e : Dict K V) × (((f k ≡ none) × (remove entry_size k d ≡ some (e, 1)) × Reads f n e)
            ⊎ ((w : V) × (f k ≡ some w)
                × (remove entry_size k d ≡ some (e, 0))
                × (0 < n)
                × Reads (update k none f) (n - 1) e
                × (e.total_size ≡ (d.total_size + entry_size k w) % 2 ^ 64)))
    unfolding remove
    remove_lem f n k d r =
        let (a, ran, whole, kept) = rehash_step_lem d r.whole in
        elim (Bool-cases (size a == 0)) [
          | inl no_entries ↦ (
            a,
            inl (
              sym (r.reads k)
                  ∙ sym (kept.entries k)
                  ∙ both_empty a whole ((==_iff _ 0).0 no_entries) k,
              rw (remove, ran, ◌>>=◌, no_entries) refl,
              Reads-Kept f n d a r whole kept,
            ),
          )
          | inr more ↦
              let (b, ran2, whole2, kept2) = rehash_step_lem a whole in
              let all_kept = Kept-trans d a b kept kept2 in
              let pos = room_of b whole2 (ground (arith, ==_iff (size a) 0, kept2.number)) in
              let (e, out) = take_both_lem k b whole2 pos in
              elim out [
                | inl (run, gone, same) ↦ (
                  b,
                  inl (
                    sym (r.reads k) ∙ sym (all_kept.entries k) ∙ gone,
                    rw (remove, ran, ◌>>=◌, more, ran2, run) refl,
                    Reads-Kept f n d b r whole2 all_kept,
                  ),
                )
                | inr (v, run, at, some_there, s, total) ↦ (
                  count_size entry_size k v e,
                  inr (
                    v,
                    sym (r.reads k) ∙ sym (all_kept.entries k) ∙ at,
                    rw (remove, ran, ◌>>=◌, more, ran2, run) refl,
                    omega (arith, some_there, all_kept.number, r.number),
                    counted entry_size (update k none f) (n - 1) k v e (
                        changed f n (size b - 1) (n - 1) k none d b e r all_kept s
                          (λ h. omega (arith, h))),
                    unfold count_size in (rw (total, all_kept.total) refl),
                  ),
                )
              ]
        ]

    -- A removal that finds an entry for the key, in a dictionary that stands for a map with n entries, adds
    -- the size of the entry to the size of the dictionary, modulo 2 ^ 64.
    pub remove-total_size :
        (f : K → Option V) (n : ℕ) (k : K) (w : V) (d : Dict K V)
        → Reads f n d
        → f k ≡ some w
        → (e : Dict K V) × (remove entry_size k d ≡ some (e, 0))
          × (e.total_size ≡ (d.total_size + entry_size k w) % 2 ^ 64)
    remove-total_size f n k w d r there =
        let (e, out) = remove_lem f n k d r in
        elim out [
          | inl (new, run, s) ↦ cc (new, there)
          | inr (v, old, run, more, s, total) ↦
              let same : some v ≡ some w = sym old ∙ there in
              (e, run, total ∙ ap (λ x. (d.total_size + size_of x) % 2 ^ 64) same)
        ]
      where
        size_of : Option V → ℕ
        size_of none = 0
        size_of (some x) = entry_size k x
