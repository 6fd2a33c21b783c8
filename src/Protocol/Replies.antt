-- ===== src/Protocol/Replies.antt =====
-- An answer: `encode_resp` of lib/server.h and `decode_resp` of lib/client.h.
pub mod Answers
use blink_db.Base.{
  ℕ, ◌+◌, ◌-◌, ◌^◌, [], ◌∷◌, ◌++◌, Option, none, some, Bool, true, false, Text, codes, text_eq, ltb,
  ◌==◌, if◌then◌else◌, length, ℤ, pos, negsuc, ◌>>=◌,
}
use blink_db.Protocol.Strings.{crlf, wrap, to_size, find_crlf, substr, stoi}

-- `encode_resp(response, is_error)`
unfoldable pub encode_resp : Text → Bool → Text
encode_resp response true = codes "-ERR " ++ (response ++ crlf)
encode_resp [] false = codes "$-1" ++ crlf
encode_resp (c ∷ response) false = b'+' ∷ ((c ∷ response) ++ crlf)

-- `content.substr(0, content.length() - 2)`, whose length is of a `size_t`.
unfoldable pub without_end : Text → Option Text
without_end content =
    substr content 0
      (if ltb (length content) 2 then 2 ^ 64 + length content - 2 else length content - 2)

abbrev pub is_minus_one : ℤ → Bool
is_minus_one (pos n) = false
is_minus_one (negsuc n) = n == 0

-- The text behind `$`.
unfoldable pub decode_bulk : Text → Option Text
decode_bulk content =
    let newline = find_crlf content 0 in
    substr content 0 newline >>= λ number. stoi number >>= λ len. elim (is_minus_one len) [
      | true ↦ some (codes "(nil)")
      | false ↦ substr content (wrap (newline + 2)) (to_size len)
    ]

-- `decode_resp(_response)`; `none` for an exception.
unfoldable pub decode_resp : Text → Option Text
decode_resp [] = some (codes "Empty response")
decode_resp (c ∷ content) =
    if text_eq (c ∷ content) (codes "-1")
    then some (codes "Server disconnected")
    else if c == b'+'
    then without_end content
    else if c == b'-'
    then (without_end content >>= λ s. some (codes "Error: " ++ s))
    else if c == b':'
    then without_end content
    else if c == b'$'
    then decode_bulk content
    else if c == b'*'
    then some (codes "Array response (parsing not implemented)")
    else some (codes "Unknown response type: " ++ (c ∷ content))
