-- ===== src/Lru/Order/Readable.antt =====
-- Items that the store of lib/lru_cache_v1.h can hold.
use blink_db.Base.{
  [], ◌∷◌, List, some, ◌≡◌, sym, ◌∙◌, arith, Text, text_eq, text_eq_sound, Bool-cases, inl, inr,
  refl,
}
use blink_db.Dict.{Chain}
use blink_db.Dict.Keys.{string_key}
use blink_db.Dict.Chains.{find_entry, erase_entry}
use blink_db.Storage.Reads.{IsKey, IsLine, AllReadable, last_value}
use blink_db.Lru.Order.{oldest}

pub AllReadable-erase_entry :
    (k : Text) (items : Chain Text Text) → AllReadable items → AllReadable (erase_entry k items)
unfolding AllReadable erase_entry
AllReadable-erase_entry k [] r = tt
AllReadable-erase_entry k (e ∷ items) r = elim (Bool-cases (text_eq k e.0)) [
  | inl same ↦ rw same r.2
  | inr other ↦ rw other (r.0, r.1, AllReadable-erase_entry k items r.2)
]

pub AllReadable-oldest :
    (e : Text × Text) (items : Chain Text Text)
    → AllReadable (e ∷ items)
    → IsKey (oldest e items).0 × IsLine (oldest e items).1
unfolding AllReadable oldest
AllReadable-oldest e [] r = (r.0, r.1)
AllReadable-oldest e (f ∷ items) r = AllReadable-oldest f items r.2

pub AllReadable-cons :
    (k v : Text) (items : Chain Text Text)
    → IsKey k
    → IsLine v
    → AllReadable items
    → AllReadable ((k, v) ∷ items)
unfolding AllReadable
AllReadable-cons k v items hk hv r = (hk, hv, r)

pub readable_found :
    (k v : Text) (items : List (Text × Text))
    → AllReadable items
    → last_value k items ≡ some v
    → IsKey k × IsLine v
unfolding AllReadable last_value
readable_found k v [] r found = cc found
readable_found k v (e ∷ items) r found = elim (Bool-cases (text_eq e.0 k)) [
  | inl same ↦
      let at : some e.1 ≡ some v = sym (rw same refl) ∙ found in
      let here : e.1 ≡ v = ground (arith, at) in rw (← text_eq_sound e.0 k same, ← here) (r.0, r.1)
  | inr other ↦ readable_found k v items r.2 (sym (rw other refl) ∙ found)
]

pub readable_item :
    (k v : Text) (items : Chain Text Text)
    → AllReadable items
    → find_entry k items ≡ some v
    → IsKey k × IsLine v
unfolding AllReadable find_entry
readable_item k v [] r found = cc found
readable_item k v (e ∷ items) r found = elim (Bool-cases (text_eq k e.0)) [
  | inl same ↦
      let at : some e.1 ≡ some v = sym (rw same refl) ∙ found in
      let here : e.1 ≡ v = ground (arith, at) in rw (text_eq_sound k e.0 same, ← here) (r.0, r.1)
  | inr other ↦ readable_item k v items r.2 (sym (rw other refl) ∙ found)
]
