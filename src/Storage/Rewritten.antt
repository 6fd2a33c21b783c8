-- ===== src/Storage/Rewritten.antt =====
-- The loop of `triggerRewrite`, lib/persistence_kv_store.h, behind the first record.
use blink_db.Base.{
  ℕ, zero, suc, ◌+◌, ◌-◌, ◌≤◌, List, [], ◌∷◌, ◌++◌, Option, none, some, true, false, ◌≡◌, refl, sym,
  ap, ◌∙◌, arith, Text, text_eq, text_eq_refl, text_eq_sound, ==_iff, if◌then◌else◌, length,
  length-append, append_assoc, append-nil, subst, pos, Bool-cases, Option-cases, inl, inr, All,
  differ,
}
use blink_db.Protocol.Strings.Parts.{At}
use blink_db.Storage.{Store, rewrite_rounds, at_place, record_text}
use blink_db.Storage.Reads.{IsKey, At-append}
use blink_db.Trie.Store.{search-insert}
use blink_db.Trie.{TrieNode}
use blink_db.Trie
use blink_db.Bloom
use blink_db.Storage.Files.{
  texts_of, AllWords, latest, read_pair-record_text, moved_on, read_pair-end,
}
use blink_db.Storage.Placed.{PlacedFor}
use blink_db.Storage.Places.{
  place_of, Indexed, length_of_record, length-record_text, place_of-le, latest-found,
  place_of-first, Indexed-behind,
}

-- What the rewriting puts into the store.
abbrev pub rewritten : Store → Text × TrieNode → Store
rewritten s r = record s { index = r.1; data_file = r.0; total = s.used }

module _ (hash : Text → ℕ) where
  kept-PlacedFor :
      (q k v temp_file : Text) (new_index : TrieNode) (o : Option Text) (s : Store)
      → IsKey k
      → IsKey v
      → Bloom.contains hash k s.bloom_filter ≡ true
      → PlacedFor hash q o (rewritten s (temp_file, new_index))
      → PlacedFor hash q (if text_eq k q then some v else o) (
          rewritten s
            (temp_file ++ record_text k v, Trie.insert k (pos (length temp_file)) new_index))
  kept-PlacedFor q k v temp_file new_index o s hk hv filtered h = elim (Bool-cases (text_eq k q)) [
    | inl same ↦
        rw (same, ← text_eq_sound k q same)
          (
            hk,
            hv,
            record {
              offset = length temp_file;
              gap = [];
              behind = [];
              one_gap = inl refl;
              indexed =
                  search-insert k k (pos (length temp_file)) new_index ∙ rw (text_eq_refl k) refl;
              stands =
                  (temp_file, ap (λ t. temp_file ++ t) (sym (append-nil (record_text k v))), refl);
              filtered = filtered;
            },
          )
    | inr other ↦ rw other (old o other h)
  ]
    where
      old :
          (o : Option Text)
          → text_eq k q ≡ false
          → PlacedFor hash q o (rewritten s (temp_file, new_index))
          → PlacedFor hash q o (
              rewritten s
                (temp_file ++ record_text k v, Trie.insert k (pos (length temp_file)) new_index))
      old none other h = search-insert q k (pos (length temp_file)) new_index ∙ rw other h
      old (some w) other (hq, hw, a) = (
        hq,
        hw,
        record {
          offset = a.offset;
          gap = a.gap;
          behind = a.behind ++ record_text k v;
          one_gap = a.one_gap;
          indexed = search-insert q k (pos (length temp_file)) new_index ∙ rw other a.indexed;
          stands =
              subst (At (temp_file ++ record_text k v) a.offset)
                (append_assoc a.gap (record_text q w ++ a.behind) (record_text k v)
                  ∙ ap (λ t. a.gap ++ t)
                      (append_assoc (record_text q w) a.behind (record_text k v)))
                (At-append temp_file a.offset (a.gap ++ (record_text q w ++ a.behind))
                  (record_text k v) a.stands);
          filtered = a.filtered;
        },
      )

  -- The loop behind the first record.
  pub rewrite_rounds-PlacedFor :
      (rounds : ℕ) (es : List (Text × Text)) (before temp_file : Text) (new_index : TrieNode)
      (q : Text) (o : Option Text) (s : Store)
      → s.data_file ≡ before ++ (10 ∷ texts_of es)
      → AllWords es
      → All (λ e. Bloom.contains hash e.0 s.bloom_filter ≡ true) es
      → length es ≤ rounds
      → ((k : Text)
          → Indexed (length before + 1) (place_of k es (length before + 1)) (Trie.search k s.index))
      → PlacedFor hash q o (rewritten s (temp_file, new_index))
      → PlacedFor hash q
          (latest q es o)
          (rewritten s (rewrite_rounds rounds (10 ∷ texts_of es) s temp_file new_index))
  unfolding rewrite_rounds texts_of latest AllWords
  rewrite_rounds-PlacedFor zero [] before temp_file new_index q o s file words filtered few indexed
        h =
      h
  rewrite_rounds-PlacedFor zero (e ∷ es) before temp_file new_index q o s file words filtered few
        indexed h =
      absurd (omega (arith, few))
  rewrite_rounds-PlacedFor (suc rounds) [] before temp_file new_index q o s file words filtered few
        indexed h =
      rw (rewrite_rounds, read_pair-end (10 ∷ []) (inr refl)) h
  rewrite_rounds-PlacedFor (suc rounds) (e ∷ es) before temp_file new_index q o s file
        (hk, hv, words) filtered few indexed h =
      let p = length before + 1 in
      let before2 = before ++ (10 ∷ (e.0 ++ (32 ∷ e.1))) in
      let file2 : s.data_file ≡ before2 ++ (10 ∷ texts_of es) =
        file ∙ moved_on before (10 ∷ []) e.0 e.1 (texts_of es) in
      let here : length s.data_file - length (10 ∷ (record_text e.0 e.1 ++ texts_of es))
          ≡ length before =
        omega (
          arith,
          ap length file,
          length-append before (10 ∷ (record_text e.0 e.1 ++ texts_of es)),
        ) in
      let next : length before2 + 1 ≡ p + length (record_text e.0 e.1) =
        rw
          (
            length-append before (10 ∷ (e.0 ++ (32 ∷ e.1))),
            length-append e.0 (32 ∷ e.1),
            length_of_record e.0 e.1,
          )
          (omega arith) in
      let indexed2 : (k : Text)
          → Indexed (length before2 + 1) (place_of k es (length before2 + 1))
              (Trie.search k s.index) =
        λ k. rw next (Indexed-behind k e es p (Trie.search k s.index) (indexed k)) in
      let z = Trie.search e.0 s.index in
      let read = read_pair-record_text (10 ∷ []) e.0 e.1 (texts_of es) (inr refl) hk hv in
      elim (Option-cases (place_of e.0 es (p + length (record_text e.0 e.1)))) [
        | inl off ↦
            let at : z ≡ pos p =
              subst (λ o. Indexed p o z) (place_of-first e es p off) (indexed e.0) in
            let hit : at_place z
                  (suc (length s.data_file - length (10 ∷ (record_text e.0 e.1 ++ texts_of es))))
                ≡ true =
              rw (at, here) ((==_iff p (suc (length before))).1 (omega arith)) in
            rw (rewrite_rounds, read, hit)
              (rewrite_rounds-PlacedFor rounds es before2 (temp_file ++ record_text e.0 e.1)
                (Trie.insert e.0 (pos (length temp_file)) new_index) q
                (if text_eq e.0 q then some e.1 else o) s file2 words filtered.1
                (omega (arith, few)) indexed2
                (kept-PlacedFor q e.0 e.1 temp_file new_index o s hk hv filtered.0 h))
        | inr (x, there) ↦
            let whole : place_of e.0 (e ∷ es) p ≡ some x = unfold place_of in rw there refl in
            let at : z ≡ pos x = subst (λ o. Indexed p o z) whole (indexed e.0) in
            let behind = place_of-le e.0 es (p + length (record_text e.0 e.1)) x there in
            let miss : at_place z
                  (suc (length s.data_file - length (10 ∷ (record_text e.0 e.1 ++ texts_of es))))
                ≡ false =
              rw (at, here)
                (differ x (suc (length before))
                  (λ same. omega (arith, same, behind, length-record_text e.0 e.1))) in
            let skipped =
              rewrite_rounds-PlacedFor rounds es before2 temp_file new_index q o s file2 words
                filtered.1 (omega (arith, few)) indexed2 h in
            let same : latest q es o ≡ latest q es (if text_eq e.0 q then some e.1 else o) =
              elim (Bool-cases (text_eq e.0 q)) [
                | inl equal ↦
                    latest-found q es (p + length (record_text e.0 e.1)) x o _
                      (rw (← text_eq_sound e.0 q equal) there)
                | inr other ↦ rw other refl
              ] in
            rw (rewrite_rounds, read, miss)
              (subst
                (λ w.
                  PlacedFor hash q w
                    (rewritten s (rewrite_rounds rounds (10 ∷ texts_of es) s temp_file new_index)))
                same skipped)
      ]
