-- ===== src/Protocol/Requests.antt =====
-- A request: `encode_command` of lib/client.h and `parse_resp` of lib/server.h.
pub mod Read
use blink_db.Base.{
  ℕ, zero, suc, ◌+◌, ◌-◌, List, [], ◌∷◌, ◌++◌, Option, none, some, Bool, true, false, Text, leb,
  ◌==◌, length, ℤ, pos, negsuc, ◌>>=◌,
}
use blink_db.Protocol.Strings.{
  crlf, wrap, to_size, find_crlf, substr, char_at, to_string, stoi, words,
}

-- The loop over the words of a command.
unfoldable pub encode_words : List Text → Text
encode_words [] = []
encode_words (word ∷ command) =
    b'$' ∷ (to_string (length word) ++ (crlf ++ (word ++ (crlf ++ encode_words command))))

-- The words of a command, as they are sent.
unfoldable pub encode_list : List Text → Text
encode_list command = b'*' ∷ (to_string (length command) ++ (crlf ++ encode_words command))

-- `encode_command(_input)`
unfoldable pub encode_command : Text → Text
encode_command input = encode_list (words input)

-- The loop over the words of a request, at `pos`.
unfoldable pub parse_words : ℕ → Text → ℕ → Option (List Text)
parse_words zero input p = some []
parse_words (suc more) input p = elim (leb (length input) p) [
  | true ↦ some []
  | false ↦ elim (char_at input p == b'$') [
    | false ↦ parse_words more input p
    | true ↦
        let newline = find_crlf input (p + 1) in
        substr input (p + 1) (newline - (p + 1)) >>= λ number. stoi number >>= λ len.
        substr input (wrap (newline + 2)) (to_size len) >>= λ word.
        parse_words more input (wrap (wrap (newline + 2) + to_size len + 2)) >>= λ rest.
        some (word ∷ rest)
  ]
]

-- An `int` as the bound of a loop.
abbrev pub rounds_of : ℤ → ℕ
rounds_of (pos n) = n
rounds_of (negsuc n) = 0

-- `parse_resp(input, result)` of an empty result; `none` where an exception leaves the server.
unfoldable pub parse_resp : Text → Option (List Text)
parse_resp [] = some []
parse_resp (c ∷ s) = elim (c == b'*') [
  | false ↦ some []
  | true ↦
      let newline = find_crlf (c ∷ s) 1 in
      substr (c ∷ s) 1 (newline - 1) >>= λ number.
      stoi number >>= λ len. parse_words (rounds_of len) (c ∷ s) (wrap (newline + 2))
]
