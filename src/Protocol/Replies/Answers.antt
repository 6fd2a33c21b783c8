-- ===== src/Protocol/Replies/Answers.antt =====
-- What lib/client.h reads of an answer of lib/server.h.
use blink_db.Base.{
  ◌-◌, ◌<◌, ◌^◌, [], ◌∷◌, ◌++◌, some, Bool, true, false, ◌≡◌, refl, ap, ◌∙◌, arith, Text, codes,
  ltb, length, length-append, ◌>>=◌,
}
use blink_db.Protocol.Strings.{
  crlf, find_crlf, substr, stoi, to_string, crlf_at, read_number, read_digits,
}
use blink_db.Protocol.Strings.Numbers.{length-to_string}
use blink_db.Protocol.Strings.Parts.{At, substr-At}
use blink_db.Protocol.Strings.Lines.{line}
use blink_db.Protocol.Replies.{encode_resp, without_end, decode_bulk, decode_resp}

pub without_end-crlf : (s : Text) → without_end (s ++ crlf) ≡ some s
unfolding without_end
without_end-crlf s =
    let sum = length-append s crlf in
    let long : ltb (length (s ++ crlf)) 2 ≡ false = ground (arith, sum) in
    let len : length (s ++ crlf) - 2 ≡ length s = omega (arith, sum) in
    rw (long, len) (substr-At (s ++ crlf) 0 s crlf ([], refl, refl))

-- What the client shows of a reply.
abbrev pub shown : Text → Bool → Text
shown s true = codes "Error: ERR " ++ s
shown [] false = codes "(nil)"
shown (c ∷ s) false = c ∷ s

-- The client shows the text that the server replies with, an error behind "Error: ERR ", and "(nil)" for no
-- text.
pub decode_resp-encode_resp :
    (s : Text) (is_error : Bool) → decode_resp (encode_resp s is_error) ≡ some (shown s is_error)
unfolding decode_resp encode_resp crlf_at read_number read_digits
decode_resp-encode_resp s true = rw (without_end-crlf (codes "ERR " ++ s), ◌>>=◌) refl
decode_resp-encode_resp [] false = unfold decode_bulk find_crlf substr stoi in refl
decode_resp-encode_resp (c ∷ s) false = without_end-crlf (c ∷ s)

-- A text behind its length.
abbrev pub bulk : Text → Text
bulk v = b'$' ∷ (to_string (length v) ++ (crlf ++ (v ++ crlf)))

pub decode_resp-bulk : (v : Text) → length v < 2 ^ 31 → decode_resp (bulk v) ≡ some v
unfolding decode_resp decode_bulk
decode_resp-bulk v h =
    let content = to_string (length v) ++ (crlf ++ (v ++ crlf)) in
    let at : At content 0 content = ([], refl, refl) in
    let sum = length-append (to_string (length v)) (crlf ++ (v ++ crlf)) in
    let ((found, cut, number, place), next) =
      line content 0 (length v) (v ++ crlf) at h
        (omega (arith, h, sum, length-append v crlf, length-to_string (length v))) in
    let whole : find_crlf content 0 ≡ find_crlf content 0 - 0 = omega arith in
    let cut0 = ap (substr content 0) whole ∙ cut in
    rw (decode_bulk, cut0, ◌>>=◌, number, ◌>>=◌, place) (substr-At content _ v crlf next)
