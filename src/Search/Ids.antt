-- ===== src/Search/Ids.antt =====
-- `convertToId` of docs/html/search/search.js, and the built-in `toString(16)`.
pub mod Codes
use blink_db.Base.{
  ℕ, zero, suc, ◌+◌, ◌-◌, ◌/◌, ◌%◌, [], ◌∷◌, ◌++◌, ◌≡◌, refl, Bool, ◌&&◌, ◌||◌, Text, codes, ltb,
  leb, if◌then◌else◌,
}

-- A digit of `toString(16)`.
unfoldable pub hex_digit : ℕ → ℕ
hex_digit n = if ltb n 10 then b'0' + n else b'a' + n - 10

-- The digits of `n` before those already found; a number has 14 hexadecimal digits at most, since
-- it is below 2 ^ 53.
unfoldable pub hex_digits : ℕ → ℕ → Text → Text
unfolding hex_digit
hex_digits zero n out = out
hex_digits (suc rounds) n out =
    let rest = hex_digits rounds (n / 16) (hex_digit (n % 16) ∷ out) in
    if ltb n 16 then hex_digit n ∷ out else rest

-- `n.toString(16)`
unfoldable pub to_hex : ℕ → Text
unfolding hex_digits
to_hex n = hex_digits 14 n []

-- `c.match(/[a-z0-9\u0080-\uFFFF]/)`
unfoldable pub is_id_unit : ℕ → Bool
is_id_unit c =
    (leb b'a' c && leb c b'z') || (leb b'0' c && leb c b'9') || (leb 0x80 c && leb c 0xffff)

-- What one round of `convertToId` appends for the code unit `cn`.
unfoldable pub id_of_unit : ℕ → Text
unfolding is_id_unit
id_of_unit cn =
    if is_id_unit cn
    then cn ∷ []
    else if ltb cn 16
    then codes "_0" ++ to_hex cn
    else codes "_" ++ to_hex cn

-- The loop, with the variable `result`.
convert : Text → Text → Text
unfolding id_of_unit to_hex
convert [] result = result
convert (c ∷ s) result = convert s (result ++ id_of_unit c)

unfoldable pub convert_to_id : Text → Text
unfolding convert
convert_to_id search = convert search []

convert_to_id_runs : convert_to_id (codes "set_~A\t") ≡ codes "set_5f_7e_41_09"
unfolding convert_to_id
convert_to_id_runs = refl
