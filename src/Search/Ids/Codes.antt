-- ===== src/Search/Ids/Codes.antt =====
-- The ids that `convertToId` of docs/html/search/search.js makes, as a code.
use blink_db.Base.{
  ℕ, ◌/◌, ◌%◌, ◌≤◌, ◌<◌, [], ◌∷◌, ◌++◌, append_assoc, append-nil, ◌≡◌, refl, sym, ◌∙◌, ◌⊎◌, inl,
  inr, true, false, ◌&&◌, arith, Text, ◌==◌, Bool-cases, ltb, ltb→lt, All, length, starts_with,
  starts_with_sound, starts_with_complete, IsPrefix, ◌↔◌, ◌≢◌,
}
use blink_db.Search.Ids.{hex_digit, to_hex, is_id_unit, id_of_unit, convert, convert_to_id}

-- A code unit of a string has 16 bits.
abbrev pub IsUnit : ℕ → Type 0
IsUnit c = c < 0x10000

-- What the loop of `convertToId` adds to `result`.
abbrev pub ids : Text → Text
ids [] = []
ids (c ∷ s) = id_of_unit c ++ ids s

convert-ids : (s result : Text) → convert s result ≡ result ++ ids s
unfolding convert
convert-ids [] result = sym (append-nil result)
convert-ids (c ∷ s) result = rw (convert-ids s (result ++ id_of_unit c), append_assoc)

pub convert_to_id-ids : (s : Text) → convert_to_id s ≡ ids s
unfolding convert_to_id
convert_to_id-ids s = convert-ids s []

pub to_hex_small : (n : ℕ) → n < 16 → to_hex n ≡ hex_digit n ∷ []
unfolding to_hex
to_hex_small n h = ground arith

pub to_hex_two :
    (n : ℕ) → 16 ≤ n → n < 256 → to_hex n ≡ hex_digit (n / 16) ∷ hex_digit (n % 16) ∷ []
unfolding to_hex
to_hex_two n h k = ground arith

high : (c : ℕ) → IsUnit c → is_id_unit c ≡ false → c < 128
unfolding is_id_unit
high c h e = ground arith

zero_digit : hex_digit 0 ≡ b'0'
unfolding hex_digit
zero_digit = refl

unshaped :
    (c : ℕ)
    → is_id_unit c ≡ false
    → c < 128
    → id_of_unit c ≡ b'_' ∷ hex_digit (c / 16) ∷ hex_digit (c % 16) ∷ []
unfolding id_of_unit
unshaped c e h = elim (Bool-cases (ltb c 16)) [
  | inl low ↦
      let q : c / 16 ≡ 0 = omega (arith, ltb→lt c 16 low) in
      let m : c % 16 ≡ c = omega (arith, ltb→lt c 16 low) in
      rw (e, low, q, m, zero_digit, to_hex_small c (ltb→lt c 16 low))
  | inr wide ↦ rw (e, wide, to_hex_two c (ground arith) (omega arith))
]

-- The two shapes of an id: the unit itself, or `_` and two digits.
pub id_shape :
    (c : ℕ)
    → IsUnit c
    → ((id_of_unit c ≡ c ∷ []) × (is_id_unit c ≡ true))
      ⊎ ((id_of_unit c ≡ b'_' ∷ hex_digit (c / 16) ∷ hex_digit (c % 16) ∷ [])
          × (is_id_unit c ≡ false)
          × (c < 128))
unfolding id_of_unit
id_shape c h = elim (Bool-cases (is_id_unit c)) [
  | inl e ↦ inl (rw e refl, e)
  | inr e ↦ inr (unshaped c e (high c h e), e, high c h e)
]

pub hex_digit-inj : (a b : ℕ) → a < 16 → b < 16 → hex_digit a ≡ hex_digit b → a ≡ b
unfolding hex_digit
hex_digit-inj a b h k e = ground arith

is_id_unit-underscore : is_id_unit b'_' ≡ false
unfolding is_id_unit
is_id_unit-underscore = refl

apart : (c d : ℕ) → is_id_unit c ≡ true → is_id_unit d ≡ false → c ≢ d
apart c d h k e = cc

-- Two ids agree at their start only if they are the ids of one unit.
step :
    (c d : ℕ) (x y : Text)
    → IsUnit c
    → IsUnit d
    → starts_with (id_of_unit c ++ x) (id_of_unit d ++ y) ≡ ((c == d) && starts_with x y)
step c d x y hc hd = elim (id_shape c hc) [
  | inl (e, k) ↦ elim (id_shape d hd) [
    | inl (f, l) ↦ rw (e, f) refl
    | inr (f, l, _) ↦
        rw (e, f) (ground (arith, apart c b'_' k is_id_unit-underscore, apart c d k l))
  ]
  | inr (e, k, lc) ↦ elim (id_shape d hd) [
    | inl (f, l) ↦ rw (e, f) (ground (arith, apart d b'_' l is_id_unit-underscore, apart d c l k))
    | inr (f, l, ld) ↦
        rw (e, f) (ground (arith, hex_digit-inj (c / 16) (d / 16), hex_digit-inj (c % 16) (d % 16)))
  ]
]

id-ne-nil : (c : ℕ) (x : Text) → IsUnit c → starts_with (id_of_unit c ++ x) [] ≡ false
id-ne-nil c x h = elim (id_shape c h) [ inl (e, _) ↦ rw e | inr (e, _, _) ↦ rw e ]

ids-prefix :
    (s t : Text) → All IsUnit s → All IsUnit t → starts_with (ids s) (ids t) ≡ starts_with s t
ids-prefix [] t hs ht = refl
ids-prefix (c ∷ s) [] hs ht = id-ne-nil c (ids s) hs.0
ids-prefix (c ∷ s) (d ∷ t) hs ht = rw (step c d _ _ hs.0 ht.0, ids-prefix s t hs.1 ht.1)

-- With text behind the id, as long as the shorter text is the one that is looked for.
pub ids-prefix_behind :
    (s t rest : Text)
    → All IsUnit s
    → All IsUnit t
    → length s ≤ length t
    → starts_with (ids s) (ids t ++ rest) ≡ starts_with s t
ids-prefix_behind [] t rest hs ht h = refl
ids-prefix_behind (c ∷ s) [] rest hs ht h = absurd (omega arith)
ids-prefix_behind (c ∷ s) (d ∷ t) rest hs ht h =
    rw (append_assoc, step c d _ _ hs.0 ht.0, ids-prefix_behind s t rest hs.1 ht.1 (omega arith))

-- For strings of 16-bit units, the id of one is a prefix of the id of the other exactly if the string
-- is a prefix of the other string.
pub convert_to_id_prefix :
    (s t : Text)
    → All IsUnit s
    → All IsUnit t
    → IsPrefix (convert_to_id s) (convert_to_id t) ↔ IsPrefix s t
convert_to_id_prefix s t hs ht =
    rw (convert_to_id-ids, convert_to_id-ids)
      (
        λ h. starts_with_sound s t (sym (ids-prefix s t hs ht) ∙ starts_with_complete _ _ h),
        λ h. starts_with_sound _ _ (ids-prefix s t hs ht ∙ starts_with_complete s t h),
      )
