-- ===== src/Storage/Placed.antt =====
-- Where the index of lib/persistence_kv_store.h has a record, or the line end before it.
use blink_db.Base.{
  ℕ, ◌++◌, Option, none, some, true, false, ◌≡◌, refl, ◌∙◌, Text, text_eq, text_eq_refl,
  text_eq_sound, ==_refl, if◌then◌else◌, pos, negsuc, Bool-cases, inl, inr,
}
use blink_db.Protocol.Strings.Parts.{At, drop-At}
use blink_db.Storage.{Store, record_text, get}
use blink_db.Storage.Reads.{IsKey, read_record-record_text, filter_grows, IsLine-IsKey}
use blink_db.Trie.Store.{search-insert}
use blink_db.Trie
use blink_db.Bloom.Found.{IsFilter, contains-insert}
use blink_db.Bloom
use blink_db.Storage.Files.{IsGap, read_record-gap}

module _ (hash : Text → ℕ) where
  -- A key whose record is at the place that the index has, or at the line end before it.
  pub record Placed (q v : Text) (s : Store) : Type 0 where
    pub offset : ℕ
    pub gap : Text
    pub behind : Text
    pub one_gap : IsGap gap
    pub indexed : Trie.search q s.index ≡ pos offset
    pub stands : At s.data_file offset (gap ++ (record_text q v ++ behind))
    pub filtered : Bloom.contains hash q s.bloom_filter ≡ true

  abbrev pub PlacedFor : Text → Option Text → Store → Type 0
  PlacedFor q none s = Trie.search q s.index ≡ negsuc 0
  PlacedFor q (some v) s = IsKey q × IsKey v × Placed q v s

  pub get-PlacedFor : (q : Text) (o : Option Text) (s : Store) → PlacedFor q o s → get hash q s ≡ o
  unfolding get
  get-PlacedFor q none s h = elim (Bool-cases (Bloom.contains hash q s.bloom_filter)) [
    | inl e ↦ rw (e, h) refl
    | inr e ↦ rw e refl
  ]
  get-PlacedFor q (some v) s (hk, hv, f) =
      rw
        (
          f.filtered,
          f.indexed,
          drop-At s.data_file f.offset (f.gap ++ (record_text q v ++ f.behind)) f.stands,
        )
        (read_record-gap f.gap q (record_text q v ++ f.behind) f.one_gap
          ∙ read_record-record_text q v f.behind hk (IsLine-IsKey v hv))

  -- A record put into the index and the filter.
  abbrev pub indexed_at : Text → ℕ → Store → Store
  indexed_at k place s = record s {
    index = Trie.insert k (pos place) s.index;
    bloom_filter = Bloom.insert hash k s.bloom_filter;
  }

  pub indexed-PlacedFor :
      (q k v gap more : Text) (place : ℕ) (o : Option Text) (s : Store)
      → IsFilter s.bloom_filter
      → IsGap gap
      → IsKey k
      → IsKey v
      → At s.data_file place (gap ++ (record_text k v ++ more))
      → PlacedFor q o s
      → PlacedFor q (if text_eq k q then some v else o) (indexed_at k place s)
  indexed-PlacedFor q k v gap more place o s f g hk hv at h = elim (Bool-cases (text_eq k q)) [
    | inl same ↦
        rw (same, ← text_eq_sound k q same)
          (
            hk,
            hv,
            record {
              offset = place;
              gap = gap;
              behind = more;
              one_gap = g;
              indexed = search-insert k k (pos place) s.index ∙ rw (text_eq_refl k) refl;
              stands = at;
              filtered =
                  contains-insert hash k k s.bloom_filter f
                  ∙ rw (==_refl (Bloom.hash_key hash k s.bloom_filter)) refl;
            },
          )
    | inr other ↦ rw other (kept o other h)
  ]
    where
      kept :
          (o : Option Text)
          → text_eq k q ≡ false
          → PlacedFor q o s
          → PlacedFor q o (indexed_at k place s)
      kept none other h = search-insert q k (pos place) s.index ∙ rw other h
      kept (some w) other (hq, hw, a) = (
        hq,
        hw,
        record {
          offset = a.offset;
          gap = a.gap;
          behind = a.behind;
          one_gap = a.one_gap;
          indexed = search-insert q k (pos place) s.index ∙ rw other a.indexed;
          stands = a.stands;
          filtered = filter_grows hash q k s.bloom_filter f a.filtered;
        },
      )
