-- ===== src/Protocol/Strings/Lines.antt =====
-- A number on a line of its own, which lib/client.h and lib/server.h write and read.
use blink_db.Base.{
  ℕ, ◌+◌, ◌-◌, ◌<◌, ◌^◌, ◌++◌, some, ◌≡◌, ap, ◌∙◌, arith, Text, length, length-append, pos,
}
use blink_db.Protocol.Strings.{crlf, wrap, find_crlf, substr, to_string, stoi}
use blink_db.Protocol.Strings.Numbers.{stoi-to_string, crlf_at-to_string}
use blink_db.Protocol.Strings.Parts.{wrap_small, At, behind, At-le, find_crlf-At, substr-At}

-- A number and the line's end, at p: the line's end is found, and the number read.
abbrev pub Line : Text → ℕ → ℕ → ℕ → Type 0
Line input p n q =
    (find_crlf input p + 2 ≡ q)
    × (substr input p (find_crlf input p - p) ≡ some (to_string n))
    × (stoi (to_string n) ≡ some (pos n))
    × (wrap (find_crlf input p + 2) ≡ q)

pub line :
    (input : Text) (p n : ℕ) (r : Text)
    → At input p (to_string n ++ (crlf ++ r))
    → n < 2 ^ 31
    → length input < 2 ^ 63
    → Line input p n (p + length (to_string n) + 2) × At input (p + length (to_string n) + 2) r
line input p n r at small short =
    let found : find_crlf input p ≡ p + length (to_string n) =
      find_crlf-At input p (length (to_string n)) (to_string n ++ (crlf ++ r)) at
        (crlf_at-to_string n r) in
    let le = At-le input p (to_string n ++ (crlf ++ r)) at in
    let sum = length-append (to_string n) (crlf ++ r) in
    let len : find_crlf input p - p ≡ length (to_string n) = omega (arith, found) in
    (
      (
        omega (arith, found),
        ap (substr input p) len ∙ substr-At input p (to_string n) (crlf ++ r) at,
        stoi-to_string n small,
        wrap_small _ (omega (arith, found, le, sum, short)) ∙ omega (arith, found),
      ),
      behind input (p + length (to_string n)) crlf r (behind input p (to_string n) (crlf ++ r) at),
    )
