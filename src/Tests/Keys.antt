-- ===== src/Tests/Keys.antt =====
-- The theorems about the trie, at concrete changes.
use blink_db.Base.{[], ◌∷◌, ◌≡◌, codes, pos}
use blink_db.Trie.{search}
use blink_db.Trie.Store.{inserted, removed, changed, offset_of, search-changed}

search-changed_example :
    search (codes "ab") (
      changed
        (inserted (codes "ab") (pos 9) ∷ removed (codes "a") ∷ inserted (codes "a") (pos 7) ∷ []))
    ≡ offset_of
        (codes "ab")
        (inserted (codes "ab") (pos 9) ∷ removed (codes "a") ∷ inserted (codes "a") (pos 7) ∷ [])
search-changed_example =
    search-changed (codes "ab")
      (inserted (codes "ab") (pos 9) ∷ removed (codes "a") ∷ inserted (codes "a") (pos 7) ∷ [])
