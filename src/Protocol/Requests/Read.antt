-- ===== src/Protocol/Requests/Read.antt =====
-- What lib/server.h reads of a request of lib/client.h.
use blink_db.Base.{
  ℕ, suc, ◌+◌, ◌≤◌, ◌<◌, ◌^◌, List, [], ◌∷◌, ◌++◌, some, false, ◌≡◌, refl, ◌∙◌, arith, Text, leb,
  length, length-append, ◌>>=◌,
}
use blink_db.Protocol.Strings.{crlf, wrap, to_string, words}
use blink_db.Protocol.Strings.Parts.{wrap_small, At, behind, At-le, char_at-At, substr-At}
use blink_db.Protocol.Strings.Lines.{line}
use blink_db.Protocol.Requests.{encode_words, encode_list, encode_command, parse_words, parse_resp}

-- A word of a request, read at its `$`.
word_read :
    (more : ℕ) (input : Text) (p : ℕ) (word r : Text)
    → At input p (b'$' ∷ (to_string (length word) ++ (crlf ++ (word ++ (crlf ++ r)))))
    → length input < 2 ^ 31
    → (q : ℕ) × (parse_words (suc more) input p
        ≡ (parse_words more input q >>= λ rest. some (word ∷ rest)))
      × At input q r
unfolding parse_words
word_read more input p word r at short =
    let at1 : At input (p + 1) (to_string (length word) ++ (crlf ++ (word ++ (crlf ++ r)))) =
      behind input p (b'$' ∷ []) (to_string (length word) ++ (crlf ++ (word ++ (crlf ++ r)))) at in
    let long = At-le input (p + 1) _ at1 in
    let sum1 = length-append (to_string (length word)) (crlf ++ (word ++ (crlf ++ r))) in
    let sum2 = length-append word (crlf ++ r) in
    let ((found, cut, number, place), at2) =
      line input (p + 1) (length word) (word ++ (crlf ++ r)) at1
        (omega (arith, long, sum1, sum2, short)) (omega (arith, short)) in
    let q = p + 1 + length (to_string (length word)) + 2 in
    let inside : leb (length input) p ≡ false = ground (arith, long) in
    let next : wrap (q + length word + 2) ≡ q + length word + 2 =
      wrap_small _ (omega (arith, long, sum1, sum2, short)) in
    (
      q + length word + 2,
      rw
          (
            parse_words,
            inside,
            char_at-At input p b'$' _ at,
            cut,
            ◌>>=◌,
            number,
            ◌>>=◌,
            place,
            substr-At input q word (crlf ++ r) at2,
            ◌>>=◌,
            next,
          )
          refl,
      behind input (q + length word) crlf r (behind input q word (crlf ++ r) at2),
    )

parse_words-encode_words :
    (command : List Text) (input : Text) (p : ℕ)
    → At input p (encode_words command)
    → length input < 2 ^ 31
    → parse_words (length command) input p ≡ some command
unfolding parse_words encode_words
parse_words-encode_words [] input p at short = refl
parse_words-encode_words (word ∷ command) input p at short =
    let (q, run, next) = word_read (length command) input p word (encode_words command) at short in
    run ∙ rw (parse_words-encode_words command input q next short, ◌>>=◌) refl

length-le : (command : List Text) → length command ≤ length (encode_words command)
unfolding encode_words
length-le [] = omega arith
length-le (word ∷ command) =
    let rest = encode_words command in
    let line_end = crlf ++ rest in
    omega (
      arith,
      length-le command,
      length-append (to_string (length word)) (crlf ++ (word ++ line_end)),
      length-append word line_end,
    )

-- The server reads from a request of less than 2 ^ 31 bytes the words that were put in it, whatever bytes
-- they have.
pub parse_resp-encode_list :
    (command : List Text)
    → length (encode_list command) < 2 ^ 31
    → parse_resp (encode_list command) ≡ some command
unfolding parse_resp encode_list
parse_resp-encode_list command short =
    let input = encode_list command in
    let at : At input 1 (to_string (length command) ++ (crlf ++ encode_words command)) =
      (b'*' ∷ [], refl, refl) in
    let sum = length-append (to_string (length command)) (crlf ++ encode_words command) in
    let ((found, cut, number, place), next) =
      line input 1 (length command) (encode_words command) at
        (omega (arith, length-le command, sum, short)) (omega (arith, short)) in
    rw (cut, ◌>>=◌, number, ◌>>=◌, place)
      (parse_words-encode_words command input (1 + length (to_string (length command)) + 2) next
        short)

-- What `parse_resp` reads of what `encode_command` writes of a line are the words of the line.
pub parse_resp-encode_command :
    (line : Text)
    → length (encode_command line) < 2 ^ 31
    → parse_resp (encode_command line) ≡ some (words line)
unfolding encode_command
parse_resp-encode_command line short = parse_resp-encode_list (words line) short
