-- ===== src/Storage/Rewrite.antt =====
-- The rewriting of the file, `triggerRewrite` of lib/persistence_kv_store.h.
use blink_db.Base.{
  ℕ, zero, suc, ◌+◌, ◌-◌, ◌<◌, List, [], ◌∷◌, ◌++◌, none, some, true, false, ◌≡◌, refl, ap, ◌∙◌,
  arith, Text, text_eq, ==_refl, length, length-append, subst, ℤ, pos, Bool-cases, Option-cases,
  inl, inr, All, All-append, differ,
}
use blink_db.Storage.{
  Store, rewrite_rounds, trigger_rewrite, at_place, new_store, record_text, insert, get,
}
use blink_db.Storage.Reads.{last_value, stored, filter_grows}
use blink_db.Trie.Store.{search-insert, search-new_node}
use blink_db.Trie.{TrieNode}
use blink_db.Trie
use blink_db.Bloom.Found.{IsFilter, insert-IsFilter, new_filter-IsFilter, contains-insert}
use blink_db.Bloom
use blink_db.Storage.Files.{
  texts_of, reversed, AllWords, latest, AllWords-reversed, latest-reversed, length-texts_of,
  read_pair-record_text, moved_on,
}
use blink_db.Storage.Restart.{data_file-stored}
use blink_db.Storage.Placed.{PlacedFor, get-PlacedFor}
use blink_db.Storage.Places.{
  place_of, Indexed, length_of_record, length-record_text, place_of-le, place_of-first,
  Indexed-behind, place_of-append, reversed-append,
}
use blink_db.Storage.Rewritten.{rewritten, rewrite_rounds-PlacedFor}

module _ (hash : Text → ℕ) where
  -- What the index and the filter have after some insertions.
  stored-Indexed :
      (n : ℕ) (es : List (Text × Text)) (k : Text)
      → Indexed 0 (place_of k (reversed es) 0) (Trie.search k (stored hash es (new_store n)).index)
  unfolding stored insert reversed place_of
  stored-Indexed n [] k = rw (search-new_node k) tt
  stored-Indexed n (e ∷ es) k =
      let s = stored hash es (new_store n) in
      let place : length s.data_file ≡ length (texts_of (reversed es)) =
        ap length (data_file-stored hash n es) in
      rw
        (
          place_of-append k (reversed es) e 0,
          search-insert k e.0 (pos (length s.data_file)) s.index,
        )
        (elim (Bool-cases (text_eq e.0 k)) [
          | inl same ↦ rw same (ap pos (omega (arith, place)))
          | inr other ↦ rw other (stored-Indexed n es k)
        ])

  stored_filtered :
      (n : ℕ) (es : List (Text × Text))
      → 0 < n
      → IsFilter (stored hash es (new_store n)).bloom_filter
        × All
            (λ e. Bloom.contains hash e.0 (stored hash es (new_store n)).bloom_filter ≡ true)
            (reversed es)
  unfolding stored insert reversed
  stored_filtered n [] h = (new_filter-IsFilter hash n h, tt)
  stored_filtered n (e ∷ es) h =
      let (f, old) = stored_filtered n es h in
      let b = (stored hash es (new_store n)).bloom_filter in
      (
        insert-IsFilter hash e.0 b f,
        All-append (λ x. Bloom.contains hash x.0 (Bloom.insert hash e.0 b) ≡ true) (reversed es)
            (e ∷ []) (grown (reversed es) b f old)
            (contains-insert hash e.0 e.0 b f ∙ rw (==_refl (Bloom.hash_key hash e.0 b)) refl, tt),
      )
    where
      grown :
          (fs : List (Text × Text)) (b : Bloom.BloomFilter)
          → IsFilter b
          → All (λ x. Bloom.contains hash x.0 b ≡ true) fs
          → All (λ x. Bloom.contains hash x.0 (Bloom.insert hash e.0 b) ≡ true) fs
      grown [] b f h = tt
      grown (x ∷ fs) b f h = (filter_grows hash x.0 e.0 b f h.0, grown fs b f h.1)

  -- The first record is at 0, where the loop does not look for it.
  first_missed :
      (e : Text × Text) (es : List (Text × Text)) (z : ℤ)
      → Indexed 0 (place_of e.0 (e ∷ es) 0) z
      → at_place z 1 ≡ false
  unfolding place_of
  first_missed e es z h = elim (Option-cases (place_of e.0 es (0 + length (record_text e.0 e.1)))) [
    | inl off ↦
        let at : z ≡ pos 0 = subst (λ o. Indexed 0 o z) (place_of-first e es 0 off) h in rw at refl
    | inr (x, there) ↦
        let whole : place_of e.0 (e ∷ es) 0 ≡ some x = rw (place_of, there) refl in
        let at : z ≡ pos x = subst (λ o. Indexed 0 o z) whole h in
        let behind = place_of-le e.0 es (0 + length (record_text e.0 e.1)) x there in
        rw at (differ x 1 (λ same. omega (arith, same, behind, length-record_text e.0 e.1)))
  ]

  first_round :
      (rounds : ℕ) (e : Text × Text) (rs : List (Text × Text)) (q : Text) (s : Store)
      → s.data_file ≡ texts_of (e ∷ rs)
      → AllWords (e ∷ rs)
      → All (λ x. Bloom.contains hash x.0 s.bloom_filter ≡ true) rs
      → ((k : Text) → Indexed 0 (place_of k (e ∷ rs) 0) (Trie.search k s.index))
      → length rs < rounds
      → PlacedFor hash q
          (latest q rs none)
          (rewritten s (rewrite_rounds rounds s.data_file s [] Trie.new_node))
  unfolding rewrite_rounds texts_of AllWords
  first_round zero e rs q s file words filtered indexed few = absurd (omega (arith, few))
  first_round (suc rounds) e rs q s file (hk, hv, words) filtered indexed few =
      let before = e.0 ++ (32 ∷ e.1) in
      let start : length s.data_file - length (record_text e.0 e.1 ++ texts_of rs) ≡ 0 =
        omega (arith, ap length file) in
      let missed = first_missed e rs (Trie.search e.0 s.index) (indexed e.0) in
      let read = read_pair-record_text [] e.0 e.1 (texts_of rs) (inl refl) hk hv in
      let run : rewrite_rounds (suc rounds) s.data_file s [] Trie.new_node
          ≡ rewrite_rounds rounds (10 ∷ texts_of rs) s [] Trie.new_node =
        ap (λ l. rewrite_rounds (suc rounds) l s [] Trie.new_node) file
        ∙ rw (rewrite_rounds, read, start, missed) refl in
      let next : length before + 1 ≡ 0 + length (record_text e.0 e.1) =
        rw (length-append e.0 (32 ∷ e.1), length_of_record e.0 e.1) (omega arith) in
      rw run (
        rewrite_rounds-PlacedFor hash rounds rs before [] Trie.new_node q none s
          (file ∙ moved_on [] [] e.0 e.1 (texts_of rs)) words filtered (omega (arith, few))
          (λ k. rw next (Indexed-behind k e rs 0 (Trie.search k s.index) (indexed k)))
          (search-new_node q))

  -- After any insertions into a new store with a filter of n counters, n above 0, of keys and values that are not
  -- empty and have no white space, with a first insertion e: `triggerRewrite` keeps what was inserted last for each key
  -- by the others, and loses e, so that a key which only e has inserted is not found.
  pub get-trigger_rewrite :
      (n : ℕ) (es : List (Text × Text)) (e : Text × Text) (q : Text)
      → 0 < n
      → AllWords (es ++ (e ∷ []))
      → get hash q (trigger_rewrite (stored hash (es ++ (e ∷ [])) (new_store n))) ≡ last_value q es
  unfolding trigger_rewrite
  get-trigger_rewrite n es e q positive words =
      let s = stored hash (es ++ (e ∷ [])) (new_store n) in
      let turned = reversed-append es e in
      let file : s.data_file ≡ texts_of (e ∷ reversed es) =
        data_file-stored hash n (es ++ (e ∷ [])) ∙ ap texts_of turned in
      let filtered : All (λ x. Bloom.contains hash x.0 s.bloom_filter ≡ true) (e ∷ reversed es) =
        subst (All (λ x. Bloom.contains hash x.0 s.bloom_filter ≡ true)) turned
          (stored_filtered n (es ++ (e ∷ [])) positive).1 in
      let all_words : AllWords (e ∷ reversed es) =
        subst AllWords turned (AllWords-reversed (es ++ (e ∷ [])) words) in
      let indexed : (k : Text)
          → Indexed 0 (place_of k (e ∷ reversed es) 0) (Trie.search k s.index) =
        λ k.
          subst (λ rs. Indexed 0 (place_of k rs 0) (Trie.search k s.index)) turned
            (stored-Indexed n (es ++ (e ∷ [])) k) in
      let rounds : length (reversed es) < length s.data_file =
        omega (arith, ap length file, length-texts_of (e ∷ reversed es)) in
      get-PlacedFor hash q (latest q (reversed es) none) (trigger_rewrite s) (
        first_round (length s.data_file) e (reversed es) q s file all_words filtered.1 indexed
          rounds)
      ∙ latest-reversed q es
