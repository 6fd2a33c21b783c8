-- ===== src/Storage/Restart.antt =====
-- A store of lib/persistence_kv_store.h that starts from the file of another one.
use blink_db.Base.{
  ℕ, zero, suc, ◌-◌, ◌<◌, ◌≤◌, List, [], ◌∷◌, ◌++◌, Option, none, some, ◌≡◌, refl, sym, ap, ◌∙◌,
  arith, Text, text_eq, if◌then◌else◌, length, length-append, append-nil, inl, inr,
}
use blink_db.Protocol.Strings.Parts.{At}
use blink_db.Storage.{
  Store, new_store, record_text, insert, get, sync_rounds, sync_index, opened_store,
}
use blink_db.Storage.Reads.{last_value, stored}
use blink_db.Trie.Store.{search-new_node}
use blink_db.Bloom.Found.{IsFilter, insert-IsFilter, new_filter-IsFilter}
use blink_db.Storage.Files.{
  texts_of, reversed, AllWords, latest, IsGap, texts_of-append, AllWords-reversed, latest-reversed,
  length-texts_of, read_pair-record_text, moved_on, read_pair-end,
}
use blink_db.Storage.Placed.{PlacedFor, indexed_at, get-PlacedFor, indexed-PlacedFor}

module _ (hash : Text → ℕ) where
  sync_rounds-PlacedFor :
      (rounds : ℕ) (es : List (Text × Text)) (gap before q : Text) (o : Option Text) (s : Store)
      → s.data_file ≡ before ++ (gap ++ texts_of es)
      → IsGap gap
      → AllWords es
      → length es ≤ rounds
      → IsFilter s.bloom_filter
      → PlacedFor hash q o s
      → PlacedFor hash q (latest q es o) (sync_rounds hash rounds (gap ++ texts_of es) s)
  unfolding sync_rounds texts_of latest AllWords
  sync_rounds-PlacedFor zero [] gap before q o s file g words few f h = h
  sync_rounds-PlacedFor zero (e ∷ es) gap before q o s file g words few f h =
      absurd (omega (arith, few))
  sync_rounds-PlacedFor (suc rounds) [] gap before q o s file g words few f h =
      rw (sync_rounds, read_pair-end gap g) h
  sync_rounds-PlacedFor (suc rounds) (e ∷ es) gap before q o s file g (hk, hv, words) few f h =
      let left = gap ++ (record_text e.0 e.1 ++ texts_of es) in
      let place = length s.data_file - length left in
      let at : At s.data_file place left =
        (before, file, omega (arith, ap length file, length-append before left)) in
      rw (sync_rounds, read_pair-record_text gap e.0 e.1 (texts_of es) g hk hv)
        (sync_rounds-PlacedFor rounds es (10 ∷ []) (before ++ (gap ++ (e.0 ++ (32 ∷ e.1)))) q
          (if text_eq e.0 q then some e.1 else o) (indexed_at hash e.0 place s)
          (file ∙ moved_on before gap e.0 e.1 (texts_of es)) (inr refl) words (omega (arith, few))
          (insert-IsFilter hash e.0 s.bloom_filter f)
          (indexed-PlacedFor hash q e.0 e.1 gap (texts_of es) place o s f g hk hv at h))

  pub data_file-stored :
      (n : ℕ) (es : List (Text × Text))
      → (stored hash es (new_store n)).data_file ≡ texts_of (reversed es)
  unfolding stored insert texts_of reversed
  data_file-stored n [] = refl
  data_file-stored n (e ∷ es) =
      ap (λ t. t ++ record_text e.0 e.1) (data_file-stored n es)
      ∙ ap (λ t. texts_of (reversed es) ++ t) (sym (append-nil (record_text e.0 e.1)))
      ∙ sym (texts_of-append (reversed es) (e ∷ []))

  -- A store with a filter of m counters, m above 0, that starts from the file which any insertions into a new store
  -- have written, of keys and values that are not empty and have no white space: `get` finds for each key the
  -- value that was inserted last, and nothing for a key that was not inserted.
  pub get-opened_store :
      (n m : ℕ) (es : List (Text × Text)) (q : Text)
      → 0 < m
      → AllWords es
      → get hash q (opened_store hash m (stored hash es (new_store n)).data_file) ≡ last_value q es
  unfolding sync_index
  get-opened_store n m es q positive words =
      let rs = reversed es in
      let file = data_file-stored n es in
      let start : Store = record (new_store m) { data_file = texts_of rs } in
      let found : PlacedFor hash q (latest q rs none) (sync_index hash start) =
        sync_rounds-PlacedFor (length (texts_of rs)) rs [] [] q none start refl (inl refl)
          (AllWords-reversed es words) (length-texts_of rs) (new_filter-IsFilter hash m positive)
          (search-new_node q) in
      rw file (
        get-PlacedFor hash q (latest q rs none) (sync_index hash start) found
        ∙ latest-reversed q es)
