-- ===== src/Index/Checked.antt =====
-- A test of the tables of docs/html/search, and what it says of an entry.
use blink_db.Base.{
  ℕ, zero, suc, ◌+◌, List, [], ◌∷◌, ◌++◌, Option, none, some, Bool, true, false, ◌&&◌, ◌≡◌, ◌<◌,
  refl, arith, Text, length, get_elem?, all, drop, starts_with, ◌==◌, ltb,
}
use blink_db.Search.Script.{lower_unit, to_lower_case, is_digit, index_of}
use blink_db.Search.Ids.{convert_to_id}
use blink_db.Search.Build.{Entry}
use blink_db.Index.Tables.{index_sections_with_content, index_pages}

-- The test of one entry of the page for the character `c`: the name begins with it and is ASCII, and the
-- id is made from the name, with a number behind it.
unfoldable pub is_indexed : ℕ → Entry → Bool
is_indexed c d =
    let low = to_lower_case d.name in
    let start = convert_to_id low ++ b'_' ∷ [] in
    starts_with (c ∷ []) low
    && all (λ u. ltb u 128) d.name
    && starts_with start d.id
    && all is_digit (drop (length start) d.id)

pub is_at : ℕ → Option ℕ → Bool
is_at j none = false
is_at j (some i) = i == j

-- The test of the pages of a section from its character j on: the character stands at j first.
pub pages_ok : Text → ℕ → Text → List (List Entry) → Bool
pages_ok content j [] [] = true
pages_ok content j [] (p ∷ ps) = false
pages_ok content j (c ∷ cs) [] = false
pages_ok content j (c ∷ cs) (p ∷ ps) =
    is_at j (index_of (c ∷ []) content)
    && ltb c 128
    && all (is_indexed c) p
    && pages_ok content (suc j) cs ps

pub sections_ok : List Text → List (List (List Entry)) → Bool
sections_ok [] [] = true
sections_ok [] (p ∷ ps) = false
sections_ok (c ∷ cs) [] = false
sections_ok (c ∷ cs) (p ∷ ps) = pages_ok c 0 c p && sections_ok cs ps

pub index_ok : sections_ok index_sections_with_content index_pages ≡ true
unfolding sections_ok pages_ok is_at is_indexed index_of convert_to_id lower_unit
index_ok = refl

module _ {ℓ} {A : Type ℓ} (p : A → Bool) where
  pub all-get_elem? :
      (xs : List A) (i : ℕ) {x : A} → all p xs ≡ true → get_elem? xs i ≡ some x → p x ≡ true
  all-get_elem? [] i h at = cc
  all-get_elem? (y ∷ xs) zero {x} h at = let same : y ≡ x = cc in rw (← same) (ground arith)
  all-get_elem? (y ∷ xs) (suc i) h at = all-get_elem? xs i (ground arith) at

is_at-eq : (j : ℕ) (o : Option ℕ) → is_at j o ≡ true → o ≡ some j
unfolding is_at
is_at-eq j none h = cc
is_at-eq j (some i) h = ground arith

pub pages_lookup :
    (content cs : Text) (ps : List (List Entry)) (j k n : ℕ) (c : ℕ) (p : List Entry)
    → pages_ok content j cs ps ≡ true
    → n ≡ j + k
    → get_elem? cs k ≡ some c
    → get_elem? ps k ≡ some p
    → (index_of (c ∷ []) content ≡ some n) × (c < 128) × (all (is_indexed c) p ≡ true)
unfolding pages_ok
pages_lookup content [] ps j k n c p ok e at_c at_p = cc
pages_lookup content (b ∷ cs) [] j k n c p ok e at_c at_p = cc
pages_lookup content (b ∷ cs) (q ∷ ps) j zero n c p ok e at_c at_p =
    let same_c : b ≡ c = cc in
    let same_p : q ≡ p = cc in
    let same_n : j ≡ n = omega arith in
    rw (← same_c, ← same_p, ← same_n)
      (is_at-eq j (index_of (b ∷ []) content) (ground arith), ground arith, ground arith)
pages_lookup content (b ∷ cs) (q ∷ ps) j (suc k) n c p ok e at_c at_p =
    pages_lookup content cs ps (suc j) k n c p (ground arith) (omega arith) at_c at_p

pub sections_lookup :
    (cs : List Text) (ps : List (List (List Entry))) (i : ℕ) (content : Text)
    (p : List (List Entry))
    → sections_ok cs ps ≡ true
    → get_elem? cs i ≡ some content
    → get_elem? ps i ≡ some p
    → pages_ok content 0 content p ≡ true
unfolding sections_ok
sections_lookup [] ps i content p ok at_c at_p = cc
sections_lookup (b ∷ cs) [] i content p ok at_c at_p = cc
sections_lookup (b ∷ cs) (q ∷ ps) zero content p ok at_c at_p =
    let same_c : b ≡ content = cc in
    let same_p : q ≡ p = cc in rw (← same_c, ← same_p) (ground arith)
sections_lookup (b ∷ cs) (q ∷ ps) (suc i) content p ok at_c at_p =
    sections_lookup cs ps i content p (ground arith) at_c at_p
