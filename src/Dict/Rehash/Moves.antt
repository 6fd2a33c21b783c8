-- ===== src/Dict/Rehash/Moves.antt =====
-- The moving of one bucket, `dictRehash` of lib/dict.h.
use blink_db.Base.{
  ℕ, suc, ◌+◌, ◌-◌, ◌≤◌, ◌<◌, [], ◌∷◌, Option, none, some, false, ◌≡◌, ◌≢◌, refl, sym, ap, ◌∙◌,
  arith, if◌then◌else◌, length, length-set, set, ◌>>=◌, Option-cases, Bool-cases, inl, inr, ◌==◌,
  ==_iff, or_else,
}
use blink_db.Dict.Keys.{Key}
use blink_db.Dict.{Chain, Dictht, Dict}
use blink_db.Dict.Chains.{find_entry, index}
use blink_db.Dict.Chains.Laws.{
  count, count-find_none, find_none-count, equal_symm, equal_refl, count_congr,
}
use blink_db.Dict.Chains.Buckets.{
  Emptied, bucket, get_elem?-bucket, bucket-set, entries-set, length-bucket-le, view, IsTable,
}
use blink_db.Dict.Chains.Writes.{Holds, push_lem}
use blink_db.Dict.Rehash.{move_chain, move_bucket}

module _ {K V : Type 0} ⦃key : Key K⦄ where
  -- What the two tables hold for a key.
  abbrev pub both : K → Dict K V → Option V
  both q d = or_else (view q d.ht0) (view q d.ht1)

  -- A rehash in progress, at bucket i.
  pub record Moving (i : ℕ) (d : Dict K V) : Type 0 where
    pub table0 : IsTable d.ht0
    pub table1 : IsTable d.ht1
    pub pos0 : 0 < d.ht0.size
    pub pos1 : 0 < d.ht1.size
    pub apart : (q : K) (v : V) → view q d.ht0 ≡ some v → view q d.ht1 ≡ none
    pub emptied : Emptied i d.ht0.table

  -- The same entries, and the rest of the members.
  pub record Kept (d e : Dict K V) : Type 0 where
    pub entries : (q : K) → both q e ≡ both q d
    pub number : e.ht0.used + e.ht1.used ≡ d.ht0.used + d.ht1.used
    pub total : e.total_size ≡ d.total_size

  union_step :
      (k : K) (v : V) (es : Chain K V) (q : K) (after before : Option V)
      → count k ((k, v) ∷ es) ≤ 1
      → after ≡ (if key.equal k q then some v else before)
      → or_else (find_entry q es) after ≡ or_else (find_entry q ((k, v) ∷ es)) before
  unfolding find_entry count or_else
  union_step k v es q after before once e = elim (Bool-cases (key.equal k q)) [
    | inl same ↦
        let gone : count q es ≡ 0 = ground (arith, equal_refl k, count_congr k q es) in
        rw (e, same, equal_symm q k, same, count-find_none q es gone) refl
    | inr other ↦ rw (e, other, equal_symm q k, other) refl
  ]

  move_chain_lem :
      (es : Chain K V) (d : Dict K V)
      → IsTable d.ht1
      → 0 < d.ht1.size
      → ((q : K) → count q es ≤ 1)
      → ((q : K) → 0 < count q es → view q d.ht1 ≡ none)
      → (g : Dictht K V) × (move_chain es d
          ≡ some (record d { ht0 = record d.ht0 { used = d.ht0.used - length es }; ht1 = g }))
        × Holds d.ht1.size
            (d.ht1.used + length es)
            (λ q. or_else (find_entry q es) (view q d.ht1))
            g
  unfolding move_chain
  move_chain_lem [] d t pos once new = (
    d.ht1,
    ap (λ (n : ℕ). some (record d { ht0 = record d.ht0 { used = n } })) (omega arith),
    record {
      table = t;
      sized = refl;
      filled = omega arith;
      reads = λ q. unfold find_entry or_else in refl;
    },
  )
  move_chain_lem ((k, v) ∷ es) d t pos once new =
      let (h, pushed, in_h) =
        push_lem k d.ht1 t pos v (new k (unfold count in ground (arith, equal_refl k))) in
      let d' : Dict K V = record d { ht0 = record d.ht0 { used = d.ht0.used - 1 }; ht1 = h } in
      let (g, moved, in_g) =
        move_chain_lem es d' in_h.table (rw in_h.sized pos)
          (λ q. unfold count in omega (arith, once q))
          (λ q more.
            in_h.reads q
            ∙ (unfold count in
                ground (arith, once q, new q, count_congr k q es, equal_symm q k))) in
      (
        g,
        rw (pushed, ◌>>=◌)
            (moved
              ∙ ap (λ (n : ℕ). some (record d { ht0 = record d.ht0 { used = n }; ht1 = g }))
                  (omega arith)),
        record {
          table = in_g.table;
          sized = in_g.sized ∙ in_h.sized;
          filled = omega (arith, in_g.filled, in_h.filled);
          reads = λ q.
              in_g.reads q ∙ union_step k v es q (view q h) (view q d.ht1) (once k) (in_h.reads q);
        },
      )

  bucket_once : (h : Dictht K V) → IsTable h → (j : ℕ) (q : K) → count q (bucket h.table j) ≤ 1
  bucket_once h t j q = elim (Bool-cases (j == index q h)) [
    | inl e ↦ let at : j ≡ index q h = (==_iff j _).0 e in rw at (t.once q)
    | inr e ↦
        let off : j ≢ index q h = λ at. cc (e, (==_iff j (index q h)).1 at) in
        omega (arith, t.placed q j off)
  ]

  bucket_new :
      (i j : ℕ) (d : Dict K V)
      → Moving i d
      → (q : K) → 0 < count q (bucket d.ht0.table j)
      → view q d.ht1 ≡ none
  bucket_new i j d m q more = elim (Bool-cases (j == index q d.ht0)) [
    | inl e ↦
        let at : j ≡ index q d.ht0 = (==_iff j _).0 e in
        elim (Option-cases (view q d.ht0)) [
          | inl gone ↦
              let none_there : count q (bucket d.ht0.table j) ≡ 0 =
                rw at (find_none-count q _ gone) in
              absurd (omega (arith, none_there, more))
          | inr (v, here) ↦ m.apart q v here
        ]
    | inr e ↦
        let off : j ≢ index q d.ht0 = λ at. cc (e, (==_iff j (index q d.ht0)).1 at) in
        absurd (omega (arith, m.table0.placed q j off, more))
  ]

  -- A table without bucket j.
  abbrev without : ℕ → Dictht K V → Dictht K V
  without j h = record h { table = set h.table j []; used = h.used - length (bucket h.table j) }

  module _ (j : ℕ) (h : Dictht K V) (t : IsTable h) (lt : j < length h.table) where
    bucket-without :
        (i : ℕ) → bucket (without j h).table i ≡ (if j == i then [] else bucket h.table i)
    bucket-without i = bucket-set h.table j i [] lt

    without-IsTable : IsTable (without j h)
    without-IsTable = record {
      width = length-set h.table j [] ∙ t.width;
      mask = t.mask;
      counted = omega (arith, entries-set h.table j [] lt, t.counted);
      placed = λ q i off. rw (bucket-without i) (elim (Bool-cases (j == i)) [
        | inl e ↦ rw e (unfold count in refl)
        | inr e ↦ rw e (t.placed q i off)
      ]);
      once = λ q. rw (bucket-without (index q h)) (elim (Bool-cases (j == index q h)) [
        | inl e ↦ rw e (unfold count in omega arith)
        | inr e ↦ rw e (t.once q)
      ]);
    }

    view-without : (q : K) → view q (without j h) ≡ (if j == index q h then none else view q h)
    view-without q = rw (bucket-without (index q h)) (elim (Bool-cases (j == index q h)) [
      | inl e ↦ rw e (unfold find_entry in refl)
      | inr e ↦ rw e refl
    ])

    elsewhere : (q : K) → (j == index q h) ≡ false → find_entry q (bucket h.table j) ≡ none
    elsewhere q off = count-find_none q _ (t.placed q j (ground (arith, ==_iff j (index q h), off)))

    -- What is in bucket j, and what stays.
    split_view :
        (q : K) (w : Option V)
        → or_else (view q (without j h)) (or_else (find_entry q (bucket h.table j)) w)
          ≡ or_else (view q h) w
    unfolding or_else
    split_view q w = rw (view-without q) (elim (Bool-cases (j == index q h)) [
      | inl e ↦ let at : j ≡ index q h = (==_iff j _).0 e in rw (e, at) refl
      | inr e ↦ rw (e, elsewhere q e) refl
    ])

    apart_view :
        (q : K) (v : V) (w : Option V)
        → view q (without j h) ≡ some v
        → (view q h ≡ some v → w ≡ none)
        → or_else (find_entry q (bucket h.table j)) w ≡ none
    unfolding or_else
    apart_view q v w here off = elim (Bool-cases (j == index q h)) [
      | inl e ↦ cc (here, rw e at (view-without q))
      | inr e ↦ rw (elsewhere q e) (off (sym (rw e at (view-without q)) ∙ here))
    ]

  -- A bucket with entries moves: the rehash goes on behind it, and nothing is lost.
  pub move_bucket_lem :
      (i j : ℕ) (d : Dict K V)
      → Moving i d
      → j < length d.ht0.table
      → Emptied j d.ht0.table
      → (e : Dict K V) × (move_bucket j d ≡ some e)
        × Moving (suc j) e
        × Kept d e
        × (e.ht0.used + length (bucket d.ht0.table j) ≡ d.ht0.used)
        × (e.ht0.size ≡ d.ht0.size)
  unfolding move_bucket
  move_bucket_lem i j d m lt before =
      let es = bucket d.ht0.table j in
      let le : length es ≤ d.ht0.used =
        omega (arith, m.table0.counted, length-bucket-le d.ht0.table j) in
      let (g, moved, in_g) =
        move_chain_lem es d m.table1 m.pos1 (bucket_once d.ht0 m.table0 j) (bucket_new i j d m) in
      (
        record d { ht0 = without j d.ht0; ht1 = g },
        rw (get_elem?-bucket d.ht0.table j lt, ◌>>=◌, moved, ◌>>=◌) refl,
        record {
          table0 = without-IsTable j d.ht0 m.table0 lt;
          table1 = in_g.table;
          pos0 = m.pos0;
          pos1 = rw in_g.sized m.pos1;
          apart = λ q v here.
              in_g.reads q ∙ apart_view j d.ht0 m.table0 lt q v (view q d.ht1) here (m.apart q v);
          emptied = λ n below.
              rw (bucket-without j d.ht0 m.table0 lt n) (ground (arith, ==_iff j n, before n));
        },
        record {
          entries = λ q.
              ap (or_else (view q (without j d.ht0))) (in_g.reads q)
              ∙ split_view j d.ht0 m.table0 lt q (view q d.ht1);
          number = omega (arith, in_g.filled, le);
          total = refl;
        },
        omega (arith, le),
        refl,
      )
