-- ===== src/Dict/Chains/Writes.antt =====
-- The writes to a table of lib/dict.h: an entry pushed, assigned or taken out.
use blink_db.Base.{
  ℕ, ◌+◌, ◌-◌, ◌≤◌, ◌<◌, ◌∷◌, Option, none, some, ◌≡◌, refl, ◌∙◌, arith, if◌then◌else◌, length,
  ◌>>=◌,
}
use blink_db.Dict.Keys.{Key}
use blink_db.Dict.{Chain, Dictht}
use blink_db.Dict.Chains.{index, find_entry, assign_entry, erase_entry, push, assign, take_out}
use blink_db.Dict.Chains.Laws.{
  count, find_none-count, count-assign_entry, length-assign_entry, find-assign_entry,
  count-erase_entry, length-erase_entry, find-erase_entry, equal_sound, equal_refl, equal_symm,
  count_congr,
}
use blink_db.Dict.Chains.Buckets.{
  length-bucket-le, Emptied, with_chain-Emptied, home, view, IsTable, home_read, with_chain,
  with_chain-IsTable, view-with_chain,
}

module _ {K V : Type 0} ⦃key : Key K⦄ where
  -- A table that is well kept, of this size, with this many entries, and that reads as f.
  pub record Holds (size used : ℕ) (f : K → Option V) (h : Dictht K V) : Type 0 where
    pub table : IsTable h
    pub sized : h.size ≡ size
    pub filled : h.used ≡ used
    pub reads : (q : K) → view q h ≡ f q

  module _ (k : K) (h : Dictht K V) (t : IsTable h) (pos : 0 < h.size) where
    -- The chain of k replaced by one that reads the same but for k.
    replaced :
        (w : Option V) (c : Chain K V) (n : ℕ)
        → n + length (home k h) ≡ h.used + length c
        → ((q : K) → count q c ≤ (if key.equal k q then 1 else count q (home k h)))
        → ((q : K) → find_entry q c ≡ (if key.equal k q then w else find_entry q (home k h)))
        → Holds h.size n (λ q. if key.equal k q then w else view q h) (with_chain k c n h)
    replaced w c n size few reads =
        let here : find_entry k c ≡ w = reads k ∙ rw (equal_refl k) refl in
        record {
          table = with_chain-IsTable k c n h t pos size few;
          sized = refl;
          filled = refl;
          reads =
              λ q. view-with_chain k c n h t pos (λ p off. reads p ∙ rw off refl) q ∙ rw here refl;
        }

    pub push_lem :
        (v : V)
        → view k h ≡ none
        → (g : Dictht K V) × (push k v h ≡ some g)
          × Holds h.size (h.used + 1) (λ q. if key.equal k q then some v else view q h) g
    unfolding push
    push_lem v new = (
      with_chain k ((k, v) ∷ home k h) (h.used + 1) h,
      rw (home_read k h t pos) refl,
      replaced (some v) ((k, v) ∷ home k h) (h.used + 1) (omega arith)
          (λ q.
            unfold count in
            ground (
              arith,
              equal_symm q k,
              find_none-count k (home k h),
              equal_sound k q,
              count_congr k q (home k h),
            ))
          (λ q. unfold find_entry in rw (equal_symm q k) refl),
    )

    pub assign_lem :
        (v old : V)
        → view k h ≡ some old
        → (g : Dictht K V) × (assign k v h ≡ some g)
          × Holds h.size h.used (λ q. if key.equal k q then some v else view q h) g
          × ((i : ℕ) → Emptied i h.table → Emptied i g.table)
    unfolding assign
    assign_lem v old here = (
      with_chain k (assign_entry k v (home k h)) h.used h,
      rw (home_read k h t pos) refl,
      replaced (some v) (assign_entry k v (home k h)) h.used
          (omega (arith, length-assign_entry k v (home k h)))
          (λ q.
            ground
              (arith, count-assign_entry q k v (home k h), t.once k, count_congr k q (home k h)))
          (λ q. find-assign_entry k q v (home k h) old here),
      λ i.
          with_chain-Emptied k (assign_entry k v (home k h)) h.used h t pos i
            (omega (arith, length-assign_entry k v (home k h))),
    )

    pub take_out-none : view k h ≡ none → take_out k h ≡ some (h, none)
    unfolding take_out
    take_out-none gone = rw (home_read k h t pos, ◌>>=◌, gone) refl

    pub take_out-some :
        (old : V)
        → view k h ≡ some old
        → (g : Dictht K V) × (take_out k h ≡ some (g, some old))
          × Holds h.size (h.used - 1) (λ q. if key.equal k q then none else view q h) g
          × (0 < h.used)
          × ((i : ℕ) → Emptied i h.table → Emptied i g.table)
    unfolding take_out
    take_out-some old here =
        let one : length (erase_entry k (home k h)) + 1 ≡ length (home k h) =
          length-erase_entry k (home k h) old here in
        let some_used : 0 < h.used =
          omega (arith, t.counted, one, length-bucket-le h.table (index k h)) in
        (
          with_chain k (erase_entry k (home k h)) (h.used - 1) h,
          rw (home_read k h t pos, ◌>>=◌, here) refl,
          replaced none (erase_entry k (home k h)) (h.used - 1) (omega (arith, one, some_used))
              (λ q.
                ground
                  (arith, count-erase_entry q k (home k h), t.once k, count_congr k q (home k h)))
              (λ q. find-erase_entry k q (home k h) (t.once k)),
          some_used,
          λ i.
              with_chain-Emptied k (erase_entry k (home k h)) (h.used - 1) h t pos i
                (omega (arith, one)),
        )
