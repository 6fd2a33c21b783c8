-- ===== src/Dict/Chains/Buckets.antt =====
-- A table of lib/dict.h whose entries stand where they belong, and writes to one of its buckets.
use blink_db.Base.{
  ℕ, zero, suc, ◌+◌, ◌-◌, ◌≤◌, ◌<◌, List, [], ◌∷◌, Option, some, true, false, ◌≡◌, ◌≢◌, refl, ap,
  ◌∙◌, arith, bit_and-le, ◌==◌, ==_iff, if◌then◌else◌, length, length-set, get_elem?, set,
  Bool-cases, inl, inr,
}
use blink_db.Dict.Keys.{Key}
use blink_db.Dict.{Chain, Dictht}
use blink_db.Dict.Chains.{find_entry, index, look}
use blink_db.Dict.Chains.Laws.{count, equal_sound}

module _ {A : Type 0} where
  -- Bucket i, and nothing outside of the table.
  unfoldable pub bucket : List (List A) → ℕ → List A
  bucket [] i = []
  bucket (c ∷ t) zero = c
  bucket (c ∷ t) (suc i) = bucket t i

  unfoldable pub entries : List (List A) → ℕ
  entries [] = 0
  entries (c ∷ t) = length c + entries t

  -- The buckets before i are empty.
  abbrev pub Emptied : ℕ → List (List A) → Type 0
  Emptied i t = (n : ℕ) → n < i → length (bucket t n) ≡ 0

  pub entries-Emptied : (t : List (List A)) → Emptied (length t) t → entries t ≡ 0
  unfolding entries bucket
  entries-Emptied [] h = refl
  entries-Emptied (c ∷ t) h =
      omega (arith, h 0 (omega arith), entries-Emptied t (λ n lt. h (suc n) (omega arith)))

  pub get_elem?-bucket :
      (t : List (List A)) (i : ℕ) → i < length t → get_elem? t i ≡ some (bucket t i)
  unfolding bucket
  get_elem?-bucket [] i h = absurd (omega arith)
  get_elem?-bucket (c ∷ t) zero h = refl
  get_elem?-bucket (c ∷ t) (suc i) h = get_elem?-bucket t i (omega arith)

  pub bucket-set :
      (t : List (List A)) (i j : ℕ) (c : List A)
      → i < length t
      → bucket (set t i c) j ≡ (if i == j then c else bucket t j)
  unfolding bucket
  bucket-set [] i j c h = absurd (omega arith)
  bucket-set (d ∷ t) zero zero c h = refl
  bucket-set (d ∷ t) zero (suc j) c h = ground arith
  bucket-set (d ∷ t) (suc i) zero c h = ground arith
  bucket-set (d ∷ t) (suc i) (suc j) c h = ground (arith, bucket-set t i j c)

  pub length-bucket-le : (t : List (List A)) (i : ℕ) → length (bucket t i) ≤ entries t
  unfolding bucket entries
  length-bucket-le [] i = omega arith
  length-bucket-le (c ∷ t) zero = omega arith
  length-bucket-le (c ∷ t) (suc i) = omega (arith, length-bucket-le t i)

  pub entries-set :
      (t : List (List A)) (i : ℕ) (c : List A)
      → i < length t
      → entries (set t i c) + length (bucket t i) ≡ entries t + length c
  unfolding bucket entries
  entries-set [] i c h = absurd (omega arith)
  entries-set (d ∷ t) zero c h = omega arith
  entries-set (d ∷ t) (suc i) c h = omega (arith, entries-set t i c (omega arith))

module _ {K V : Type 0} ⦃key : Key K⦄ where
  -- The chain that a key belongs to, and what the table holds for a key.
  abbrev pub home : K → Dictht K V → Chain K V
  home q h = bucket h.table (index q h)

  abbrev pub view : K → Dictht K V → Option V
  view q h = find_entry q (home q h)

  -- The table has the size that is noted, each entry is in the bucket of its key, no key has two, and
  -- their number is noted.
  pub record IsTable (h : Dictht K V) : Type 0 where
    pub width : length h.table ≡ h.size
    pub mask : h.sizemask ≡ h.size - 1
    pub counted : h.used ≡ entries h.table
    pub placed : (q : K) (i : ℕ) → i ≢ index q h → count q (bucket h.table i) ≡ 0
    pub once : (q : K) → count q (home q h) ≤ 1

  pub index-lt : (q : K) (h : Dictht K V) → IsTable h → 0 < h.size → index q h < length h.table
  index-lt q h t pos = omega (arith, t.width, t.mask, bit_and-le (key.hash q) h.sizemask)

  pub home_read :
      (q : K) (h : Dictht K V)
      → IsTable h
      → 0 < h.size
      → get_elem? h.table (index q h) ≡ some (home q h)
  home_read q h t pos = get_elem?-bucket h.table (index q h) (index-lt q h t pos)

  pub look_lem : (q : K) (h : Dictht K V) → IsTable h → 0 < h.size → look q h ≡ some (view q h)
  unfolding look
  look_lem q h t pos = rw (home_read q h t pos) refl

  pub index_congr : (a b : K) (h : Dictht K V) → key.equal a b ≡ true → index a h ≡ index b h
  index_congr a b h e = rw (equal_sound a b e)

  -- The chain of k replaced.
  abbrev pub with_chain : K → Chain K V → ℕ → Dictht K V → Dictht K V
  with_chain k c n h = record h { table = set h.table (index k h) c; used = n }

  module _ (k : K) (c : Chain K V) (n : ℕ) (h : Dictht K V) (t : IsTable h) (pos : 0 < h.size) where
    home-with_chain :
        (q : K) → home q (with_chain k c n h) ≡ (if index k h == index q h then c else home q h)
    home-with_chain q = bucket-set h.table (index k h) (index q h) c (index-lt k h t pos)

    pub with_chain-IsTable :
        n + length (home k h) ≡ h.used + length c
        → ((q : K) → count q c ≤ (if key.equal k q then 1 else count q (home k h)))
        → IsTable (with_chain k c n h)
    with_chain-IsTable size few = record {
      width = length-set h.table (index k h) c ∙ t.width;
      mask = t.mask;
      counted =
          omega (arith, entries-set h.table (index k h) c (index-lt k h t pos), t.counted, size);
      placed = λ q i off.
          rw (bucket-set h.table (index k h) i c (index-lt k h t pos))
            (elim (Bool-cases (index k h == i)) [
              | inl e ↦
                  let at : index k h ≡ i = (==_iff _ i).0 e in
                  rw e (ground (arith, few q, index_congr k q h, t.placed q (index k h), at, off))
              | inr e ↦ rw e (t.placed q i off)
            ]);
      once = λ q. rw (home-with_chain q) (elim (Bool-cases (index k h == index q h)) [
        | inl e ↦
            let at : index k h ≡ index q h = (==_iff _ _).0 e in
            let alike : home k h ≡ home q h = ap (bucket h.table) at in
            rw e (ground (arith, few q, alike, t.once q))
        | inr e ↦ rw e (t.once q)
      ]);
    }

    pub view-with_chain :
        ((q : K) → key.equal k q ≡ false → find_entry q c ≡ find_entry q (home k h))
        → (q : K)
        → view q (with_chain k c n h) ≡ (if key.equal k q then find_entry k c else view q h)
    view-with_chain same q = rw (home-with_chain q) (elim (Bool-cases (index k h == index q h)) [
      | inl e ↦
          let at : index k h ≡ index q h = (==_iff _ _).0 e in
          let alike : home k h ≡ home q h = ap (bucket h.table) at in
          rw e (elim (Bool-cases (key.equal k q)) [
            | inl f ↦ rw (f, ← equal_sound k q f) refl
            | inr f ↦ rw (f, ← alike) (same q f)
          ])
      | inr e ↦
          let other : key.equal k q ≡ false =
            ground (arith, index_congr k q h, (==_iff (index k h) (index q h)).1, e) in
          rw (e, other) refl
    ])

    -- A chain that is no longer leaves the empty buckets empty.
    pub with_chain-Emptied :
        (i : ℕ)
        → length c ≤ length (home k h)
        → Emptied i h.table
        → Emptied i (with_chain k c n h).table
    with_chain-Emptied i shorter before j lt =
        rw (bucket-set h.table (index k h) j c (index-lt k h t pos))
          (elim (Bool-cases (index k h == j)) [
            | inl e ↦
                let at : index k h ≡ j = (==_iff _ j).0 e in
                let here : length (home k h) ≡ 0 = rw at (before j lt) in
                rw e (omega (arith, shorter, here))
            | inr e ↦ rw e (before j lt)
          ])
