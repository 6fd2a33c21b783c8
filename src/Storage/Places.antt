-- ===== src/Storage/Places.antt =====
-- Where the records of the file of lib/persistence_kv_store.h begin.
use blink_db.Base.{
  ℕ, ◌+◌, ◌<◌, ◌≤◌, List, [], ◌∷◌, ◌++◌, Option, none, some, ◌≡◌, refl, sym, ap, ◌∙◌, arith, Text,
  text_eq, text_eq_refl, if◌then◌else◌, length, length-append, subst, ℤ, pos, negsuc, Bool-cases,
  Option-cases, inl, inr,
}
use blink_db.Storage.{record_text}
use blink_db.Storage.Files.{texts_of, reversed, latest}

-- Where the last record of a key begins, in a file whose records begin at a place.
unfoldable pub place_of : Text → List (Text × Text) → ℕ → Option ℕ
place_of k [] p = none
place_of k (e ∷ es) p =
    let rest = place_of k es (p + length (record_text e.0 e.1)) in
    elim rest [ some x ↦ some x | none ↦ if text_eq e.0 k then some p else none ]

-- An offset that is before a place, or none.
abbrev pub Before : ℕ → ℤ → Type 0
Before p (pos x) = x < p
Before p (negsuc x) = Unit

-- What the index has for a key among the records from a place on.
abbrev pub Indexed : ℕ → Option ℕ → ℤ → Type 0
Indexed p none z = Before p z
Indexed p (some x) z = z ≡ pos x

pub length_of_record : (k v : Text) → length (record_text k v) ≡ length k + length v + 2
unfolding record_text
length_of_record k v =
    rw (length-append k (32 ∷ (v ++ (10 ∷ []))), length-append v (10 ∷ [])) (omega arith)

pub length-record_text : (k v : Text) → 2 ≤ length (record_text k v)
unfolding record_text
length-record_text k v =
    rw (length-append k (32 ∷ (v ++ (10 ∷ []))), length-append v (10 ∷ [])) (omega arith)

pub place_of-le : (k : Text) (es : List (Text × Text)) (p x : ℕ) → place_of k es p ≡ some x → p ≤ x
unfolding place_of
place_of-le k [] p x h = cc h
place_of-le k (e ∷ es) p x h =
    elim (Option-cases (place_of k es (p + length (record_text e.0 e.1)))) [
      | inr (y, there) ↦
          let same : some y ≡ some x = sym (rw (place_of, there) refl) ∙ h in
          let at : y ≡ x = ground (arith, same) in
          omega (arith, at, place_of-le k es (p + length (record_text e.0 e.1)) y there)
      | inl off ↦ elim (Bool-cases (text_eq e.0 k)) [
        | inl same ↦
            let here : some p ≡ some x = sym (rw (place_of, off, same) refl) ∙ h in
            let at : p ≡ x = ground (arith, here) in omega (arith, at)
        | inr other ↦ let here : none ≡ some x = sym (rw (place_of, off, other) refl) ∙ h in cc here
      ]
    ]

-- Behind a record of the key, what stood before does not count.
pub latest-found :
    (k : Text) (es : List (Text × Text)) (p x : ℕ) (a b : Option Text)
    → place_of k es p ≡ some x
    → latest k es a ≡ latest k es b
unfolding place_of latest
latest-found k [] p x a b h = cc h
latest-found k (e ∷ es) p x a b h = elim (Bool-cases (text_eq e.0 k)) [
  | inl same ↦ rw same refl
  | inr other ↦ rw other (elim (Option-cases (place_of k es (p + length (record_text e.0 e.1)))) [
    | inr (y, there) ↦ latest-found k es (p + length (record_text e.0 e.1)) y a b there
    | inl off ↦ let here : none ≡ some x = sym (rw (place_of, off, other) refl) ∙ h in cc here
  ])
]

-- The record at the place is the last one of its key, or there is one behind it; then the records behind.
pub place_of-first :
    (e : Text × Text) (es : List (Text × Text)) (p : ℕ)
    → place_of e.0 es (p + length (record_text e.0 e.1)) ≡ none
    → place_of e.0 (e ∷ es) p ≡ some p
unfolding place_of
place_of-first e es p off = rw (off, text_eq_refl e.0) refl

pub Indexed-behind :
    (k : Text) (e : Text × Text) (es : List (Text × Text)) (p : ℕ) (z : ℤ)
    → Indexed p (place_of k (e ∷ es) p) z
    → Indexed
        (p + length (record_text e.0 e.1))
        (place_of k es (p + length (record_text e.0 e.1)))
        z
unfolding place_of
Indexed-behind k e es p z h =
    elim (Option-cases (place_of k es (p + length (record_text e.0 e.1)))) [
      | inr (y, there) ↦
          let whole : place_of k (e ∷ es) p ≡ some y = rw (place_of, there) refl in
          rw there (subst (λ o. Indexed p o z) whole h)
      | inl off ↦ rw off (elim (Bool-cases (text_eq e.0 k)) [
        | inl same ↦
            let whole : place_of k (e ∷ es) p ≡ some p = rw (place_of, off, same) refl in
            let at : z ≡ pos p = subst (λ o. Indexed p o z) whole h in
            rw at (omega (arith, length-record_text e.0 e.1))
        | inr other ↦
            let whole : place_of k (e ∷ es) p ≡ none = rw (place_of, off, other) refl in
            later z (subst (λ o. Indexed p o z) whole h)
      ])
    ]
  where
    later : (z : ℤ) → Before p z → Before (p + length (record_text e.0 e.1)) z
    later (pos x) b = omega (arith, b)
    later (negsuc x) b = tt

pub place_of-append :
    (k : Text) (es : List (Text × Text)) (e : Text × Text) (p : ℕ)
    → place_of k (es ++ (e ∷ [])) p
      ≡ (if text_eq e.0 k then some (p + length (texts_of es)) else place_of k es p)
unfolding place_of texts_of
place_of-append k [] e p = let same : p + 0 ≡ p = omega arith in rw same refl
place_of-append k (f ∷ es) e p =
    let rest = place_of-append k es e (p + length (record_text f.0 f.1)) in
    elim (Bool-cases (text_eq e.0 k)) [
      | inl same ↦
          let there : place_of k (es ++ (e ∷ [])) (p + length (record_text f.0 f.1))
              ≡ some (p + length (record_text f.0 f.1) + length (texts_of es)) =
            rest ∙ rw same refl in
          rw (there, same)
            (ap some (omega (arith, length-append (record_text f.0 f.1) (texts_of es))))
      | inr other ↦
          let there : place_of k (es ++ (e ∷ [])) (p + length (record_text f.0 f.1))
              ≡ place_of k es (p + length (record_text f.0 f.1)) =
            rest ∙ rw other refl in
          rw (there, other) refl
    ]

pub reversed-append :
    (es : List (Text × Text)) (e : Text × Text) → reversed (es ++ (e ∷ [])) ≡ e ∷ reversed es
unfolding reversed
reversed-append [] e = refl
reversed-append (f ∷ es) e = rw (reversed-append es e) refl
