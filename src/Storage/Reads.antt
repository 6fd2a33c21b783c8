-- ===== src/Storage/Reads.antt =====
-- What is read back from the file of lib/persistence_kv_store.h.
use blink_db.Base.{
  ℕ, ◌<◌, List, [], ◌∷◌, ◌++◌, Option, none, some, Bool, true, false, not, ◌≡◌, refl, sym, ap, ◌∙◌,
  arith, Text, text_eq, text_eq_refl, text_eq_sound, ◌==◌, if◌then◌else◌, all, length, append_assoc,
  append-nil, subst, ==_refl, pos, negsuc, Bool-cases, inl, inr,
}
use blink_db.Protocol.Strings.{is_space}
use blink_db.Protocol.Strings.Parts.{At, drop-At}
use blink_db.Storage.{
  Store, new_store, skip_space, read_word, read_line, record_text, read_record, insert, get,
}
use blink_db.Trie.{TrieNode, new_node}
use blink_db.Trie.Store.{search-insert, search-new_node}
use blink_db.Trie
use blink_db.Bloom.Found.{IsFilter, insert-IsFilter, new_filter-IsFilter, contains-insert}
use blink_db.Bloom

-- A key without white space, not empty.
abbrev pub IsKey : Text → Type 0
IsKey s = (all (λ c. not (is_space c)) s ≡ true) × (0 < length s)

-- A value on one line, not empty, that does not begin with white space.
abbrev starts_solid : Text → Bool
starts_solid [] = false
starts_solid (c ∷ s) = not (is_space c)

abbrev pub IsLine : Text → Type 0
IsLine s = (all (λ c. not (c == 10)) s ≡ true) × (starts_solid s ≡ true)

pub read_word-key :
    (k : Text) (c : ℕ) (s : Text)
    → all (λ c. not (is_space c)) k ≡ true
    → is_space c ≡ true
    → read_word (k ++ (c ∷ s)) ≡ (k, c ∷ s)
unfolding read_word
read_word-key [] c s h space = rw (read_word, space) refl
read_word-key (b ∷ k) c s h space =
    let solid : is_space b ≡ false = ground (arith, h) in
    rw (read_word, read_word-key k c s (ground (arith, h)) space, solid) refl

pub skip_space-solid : (s r : Text) → starts_solid s ≡ true → skip_space (s ++ r) ≡ s ++ r
unfolding skip_space
skip_space-solid [] r h = cc
skip_space-solid (c ∷ s) r h = let solid : is_space c ≡ false = ground (arith, h) in rw solid refl

pub starts_solid-IsKey : (k : Text) → IsKey k → starts_solid k ≡ true
starts_solid-IsKey [] h = absurd (omega (arith, h.1))
starts_solid-IsKey (c ∷ k) h = ground (arith, h.0)

pub IsLine-IsKey : (s : Text) → IsKey s → IsLine s
IsLine-IsKey s h = (one_line s h.0, starts_solid-IsKey s h)
  where
    one_line : (s : Text) → all (λ c. not (is_space c)) s ≡ true → all (λ c. not (c == 10)) s ≡ true
    one_line [] h = refl
    one_line (c ∷ s) h = ground (arith, h, one_line s)

read_line-line : (s r : Text) → all (λ c. not (c == 10)) s ≡ true → read_line (s ++ (10 ∷ r)) ≡ s
unfolding read_line
read_line-line [] r h = refl
read_line-line (c ∷ s) r h =
    let other : (c == 10) ≡ false = ground (arith, h) in
    rw (other, read_line-line s r (ground (arith, h))) refl

value_read :
    (v : Text)
    → starts_solid v ≡ true
    → (elim v as (λ x. Option Text) [ [] ↦ none | c ∷ value ↦ some (c ∷ value) ]) ≡ some v
value_read [] h = cc
value_read (c ∷ v) h = refl

pub skip_one : (s : Text) → skip_space (32 ∷ s) ≡ skip_space s
unfolding skip_space
skip_one s = refl

pub read_record-record_text :
    (k v r : Text) → IsKey k → IsLine v → read_record k (record_text k v ++ r) ≡ some v
unfolding read_record record_text
read_record-record_text k v r hk hv =
    ap (read_record k) apart
    ∙ rw
        (
          read_record,
          skip_space-solid k (32 ∷ (v ++ (10 ∷ r))) (starts_solid-IsKey k hk),
          read_word-key k 32 (v ++ (10 ∷ r)) hk.0 refl,
          text_eq_refl k,
          skip_one (v ++ (10 ∷ r)),
          skip_space-solid v (10 ∷ r) hv.1,
          read_line-line v r hv.0,
        )
        (value_read v hv.1)
  where
    apart : record_text k v ++ r ≡ k ++ (32 ∷ (v ++ (10 ∷ r)))
    apart =
        append_assoc k (32 ∷ (v ++ (10 ∷ []))) r
        ∙ ap (λ s. k ++ (32 ∷ s)) (append_assoc v (10 ∷ []) r)

-- The file goes on.
pub At-append : (s : Text) (p : ℕ) (r more : Text) → At s p r → At (s ++ more) p (r ++ more)
At-append s p r more (before, same, at) =
    (before, ap (λ t. t ++ more) same ∙ append_assoc before r more, at)

At-length : (s r : Text) → At (s ++ r) (length s) r
At-length s r = (s, refl, refl)

-- The value that was inserted last for a key.
unfoldable pub last_value : Text → List (Text × Text) → Option Text
last_value q [] = none
last_value q (e ∷ es) = let rest = last_value q es in if text_eq e.0 q then some e.1 else rest

-- Keys and values that a line of the file can hold.
unfoldable pub AllReadable : List (Text × Text) → Type 0
AllReadable [] = Unit
AllReadable (e ∷ es) = IsKey e.0 × IsLine e.1 × AllReadable es

module _ (hash : Text → ℕ) where
  -- A key that the filter contains and whose record stands at the place that the index has.
  record Found (q v : Text) (s : Store) : Type 0 where
    offset : ℕ
    behind : Text
    indexed : Trie.search q s.index ≡ pos offset
    stands : At s.data_file offset (record_text q v ++ behind)
    filtered : Bloom.contains hash q s.bloom_filter ≡ true

  -- What the store holds for a key.
  abbrev HoldsFor : Text → Option Text → Store → Type 0
  HoldsFor q none s = Trie.search q s.index ≡ negsuc 0
  HoldsFor q (some v) s = IsKey q × IsLine v × Found q v s

  get-HoldsFor : (q : Text) (o : Option Text) (s : Store) → HoldsFor q o s → get hash q s ≡ o
  unfolding get
  get-HoldsFor q none s h = elim (Bool-cases (Bloom.contains hash q s.bloom_filter)) [
    | inl e ↦ rw (e, h) refl
    | inr e ↦ rw e refl
  ]
  get-HoldsFor q (some v) s (hk, hv, f) =
      rw
        (f.filtered, f.indexed, drop-At s.data_file f.offset (record_text q v ++ f.behind) f.stands)
        (read_record-record_text q v f.behind hk hv)

  pub filter_grows :
      (q key : Text) (b : Bloom.BloomFilter)
      → IsFilter b
      → Bloom.contains hash q b ≡ true
      → Bloom.contains hash q (Bloom.insert hash key b) ≡ true
  filter_grows q key b f h = contains-insert hash q key b f ∙ rw h (ground arith)

  -- The key that is inserted, and another one.
  insert-HoldsFor_same :
      (k v : Text) (s : Store)
      → IsKey k
      → IsLine v
      → IsFilter s.bloom_filter
      → HoldsFor k (some v) (insert hash k v s)
  unfolding insert
  insert-HoldsFor_same k v s hk hv f = (
    hk,
    hv,
    record {
      offset = length s.data_file;
      behind = [];
      indexed = search-insert k k (pos (length s.data_file)) s.index ∙ rw (text_eq_refl k) refl;
      stands = (s.data_file, ap (λ t. s.data_file ++ t) (sym (append-nil (record_text k v))), refl);
      filtered =
          contains-insert hash k k s.bloom_filter f
          ∙ rw (==_refl (Bloom.hash_key hash k s.bloom_filter)) refl;
    },
  )

  insert-HoldsFor_other :
      (q k v : Text) (o : Option Text) (s : Store)
      → text_eq k q ≡ false
      → IsFilter s.bloom_filter
      → HoldsFor q o s
      → HoldsFor q o (insert hash k v s)
  unfolding insert
  insert-HoldsFor_other q k v none s off f h =
      search-insert q k (pos (length s.data_file)) s.index ∙ rw off h
  insert-HoldsFor_other q k v (some w) s off f (hq, hw, at) = (
    hq,
    hw,
    record {
      offset = at.offset;
      behind = at.behind ++ record_text k v;
      indexed = search-insert q k (pos (length s.data_file)) s.index ∙ rw off at.indexed;
      stands = rw (← append_assoc (record_text q w) at.behind (record_text k v)) (
          At-append s.data_file at.offset (record_text q w ++ at.behind) (record_text k v)
            at.stands);
      filtered = filter_grows q k s.bloom_filter f at.filtered;
    },
  )

  stored-IsFilter :
      (k v : Text) (s : Store) → IsFilter s.bloom_filter → IsFilter (insert hash k v s).bloom_filter
  unfolding insert
  stored-IsFilter k v s f = insert-IsFilter hash k s.bloom_filter f

  -- A store after some insertions, the last one first.
  unfoldable pub stored : List (Text × Text) → Store → Store
  stored [] s = s
  stored (e ∷ es) s = insert hash e.0 e.1 (stored es s)

  stored-HoldsFor :
      (n : ℕ) (es : List (Text × Text)) (q : Text)
      → 0 < n
      → AllReadable es
      → HoldsFor q (last_value q es) (stored es (new_store n))
        × IsFilter (stored es (new_store n)).bloom_filter
  unfolding stored last_value AllReadable
  stored-HoldsFor n [] q h readable = (search-new_node q, new_filter-IsFilter hash n h)
  stored-HoldsFor n (e ∷ es) q h (hk, hv, readable) =
      let (holds, f) = stored-HoldsFor n es q h readable in
      let s = stored es (new_store n) in
      (
        elim (Bool-cases (text_eq e.0 q)) [
          | inl same ↦
              let at : e.0 ≡ q = text_eq_sound e.0 q same in
              rw same (
                subst (λ k. HoldsFor k (some e.1) (insert hash e.0 e.1 s)) at
                  (insert-HoldsFor_same e.0 e.1 s hk hv f))
          | inr other ↦ rw other (insert-HoldsFor_other q e.0 e.1 (last_value q es) s other f holds)
        ],
        stored-IsFilter e.0 e.1 s f,
      )

  -- After any insertions into a new store with a filter of n counters, n above 0, of keys that are not empty
  -- and have no white space, with values of one line that are not empty and do not begin with white space,
  -- `get` finds for each key the value that was inserted last, and nothing for a key that was not inserted.
  pub get-stored :
      (n : ℕ) (es : List (Text × Text)) (q : Text)
      → 0 < n
      → AllReadable es
      → get hash q (stored es (new_store n)) ≡ last_value q es
  get-stored n es q h readable =
      get-HoldsFor q (last_value q es) (stored es (new_store n))
        (stored-HoldsFor n es q h readable).0
