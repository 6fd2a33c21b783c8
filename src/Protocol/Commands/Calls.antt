-- ===== src/Protocol/Commands/Calls.antt =====
-- The calls of lib/client.h on the commands of lib/server.h.
use blink_db.Base.{
  ℕ, ◌+◌, ◌≤◌, ltb, true, ◌<◌, ◌^◌, List, [], ◌∷◌, ◌++◌, some, false, ◌≡◌, refl, ap, ◌∙◌, arith,
  Text, codes, text_eq, ◌==◌, if◌then◌else◌, length, ◌>>=◌, Bool-cases, inl, inr,
}
use blink_db.Protocol.Strings.{crlf, words, to_string, digits}
use blink_db.Protocol.Requests.{encode_command, encode_list, parse_resp}
use blink_db.Protocol.Requests.Read.{parse_resp-encode_command}
use blink_db.Protocol.Replies.{encode_resp, decode_resp}
use blink_db.Protocol.Replies.Answers.{decode_resp-encode_resp, decode_resp-bulk, without_end-crlf}
use blink_db.Protocol.Commands.{
  Database, handle_set, value_reply, handle_get, delete_keys, handle_del, handle_command, serve,
  Wire, Whole, receive, read_reply, send_req, exchange, client_set, client_get, client_del,
}
use blink_db.Protocol.Commands.Words.{IsWord, words-word, words_last, c_str-solid}

decode-count :
    (result : ℕ)
    → decode_resp (b':' ∷ (to_string (0 + (if result == 0 then 0 else 1)) ++ crlf))
      ≡ some (if result == 0 then codes "0" else codes "1")
unfolding decode_resp to_string digits
decode-count result = elim (Bool-cases (result == 0)) [
  | inl success ↦ rw success (without_end-crlf (codes "0"))
  | inr failure ↦ rw failure (without_end-crlf (codes "1"))
]

count_fits :
    {n : ℕ} (result : ℕ)
    → 5 ≤ n
    → length (b':' ∷ (to_string (0 + (if result == 0 then 0 else 1)) ++ crlf)) ≤ n
unfolding to_string digits
count_fits result room = elim (Bool-cases (result == 0)) [
  | inl success ↦ rw success (omega (arith, room))
  | inr failure ↦ rw failure (omega (arith, room))
]

encode_command-some : (line : Text) → 0 < length (encode_command line)
unfolding encode_command encode_list
encode_command-some line = omega arith

module _ {D : Type 0} (database : Database D) where
  pub decode-value_reply :
      (value : Text)
      → length value < 2 ^ 31
      → decode_resp (value_reply database value)
        ≡ some (if text_eq value (codes "-1") then codes "(nil)" else value)
  unfolding value_reply encode_resp
  decode-value_reply value h = elim (Bool-cases (text_eq value (codes "-1"))) [
    | inl missing ↦ rw missing (decode_resp-encode_resp [] false)
    | inr there ↦ rw there (decode_resp-bulk value h)
  ]

  value_reply-some : (value : Text) → 0 < length (value_reply database value)
  unfolding value_reply
  value_reply-some value = elim (Bool-cases (text_eq value (codes "-1"))) [
    | inl missing ↦ rw missing (omega arith)
    | inr there ↦ rw there (omega arith)
  ]

module _ {D : Type 0} (database : Database D) (wire : Wire) where
  receive-Whole :
      (sent : Text) (d : D)
      → Whole wire
      → 0 < length sent
      → length sent < wire.server_buffer
      → receive database wire sent d
        ≡ (parse_resp sent >>= λ command. some (handle_command database command d))
  unfolding receive serve
  receive-Whole [] d whole some_bytes fits = absurd (omega (arith, some_bytes))
  receive-Whole (c ∷ s) d whole some_bytes fits =
      let less : ltb (length (c ∷ s)) wire.server_buffer ≡ true = ground (arith, fits) in
      rw (receive, whole wire.server_buffer (c ∷ s) (omega (arith, fits)), less) refl

  read_reply-Whole :
      (sent : Text)
      → Whole wire
      → 0 < length sent
      → length sent ≤ wire.client_buffer
      → read_reply database wire sent ≡ sent
  unfolding read_reply
  read_reply-Whole [] whole some_bytes fits = absurd (omega (arith, some_bytes))
  read_reply-Whole (c ∷ s) whole some_bytes fits =
      rw (read_reply, whole wire.client_buffer (c ∷ s) fits) refl

  -- A request and an answer that fit into the buffers.
  exchanged :
      (line : Text) (d e : D) (command : List Text) (reply shown : Text)
      → Whole wire
      → wire.server_buffer ≤ 2 ^ 31
      → length (encode_command line) < wire.server_buffer
      → words line ≡ command
      → handle_command database command d ≡ (e, reply)
      → 0 < length reply
      → length reply ≤ wire.client_buffer
      → decode_resp reply ≡ some shown
      → exchange database wire line d ≡ some (e, shown)
  unfolding exchange send_req
  exchanged line d e command reply shown whole int short read done some_bytes fits decoded =
      rw
        (
          exchange,
          send_req,
          receive-Whole (encode_command line) d whole (encode_command-some line) short,
          parse_resp-encode_command line (omega (arith, short, int)),
          ◌>>=◌,
          read,
          done,
          ◌>>=◌,
          read_reply-Whole reply whole some_bytes fits,
          ◌>>=◌,
          decoded,
          ◌>>=◌,
        )
        refl

  ok_some : 0 < length (encode_resp (codes "OK") false)
  ok_some = unfold encode_resp in omega arith

  ok_fits : 5 ≤ wire.client_buffer → length (encode_resp (codes "OK") false) ≤ wire.client_buffer
  ok_fits room = unfold encode_resp in room

  -- `set` of a key and a value that has a space behind its first word: the first word is stored under the key,
  -- the rest of the value is lost, and the client shows "OK". A word is not empty and has no white space and no
  -- zero byte; the key is one. The connection reads at once what fits into the buffer that it reads into, the
  -- request is shorter than the buffer of the server, of at most 2 ^ 31 bytes, and that of the client has
  -- room for the 5 bytes of the answer.
  pub client_set_first :
      (key value rest : Text) (d : D)
      → Whole wire
      → wire.server_buffer ≤ 2 ^ 31
      → IsWord key
      → IsWord value
      → length
          (encode_command (codes "SET " ++ (key ++ (codes " " ++ (value ++ (codes " " ++ rest))))))
        < wire.server_buffer
      → 5 ≤ wire.client_buffer
      → client_set database wire key (value ++ (codes " " ++ rest)) d
        ≡ some (database.set key value d, codes "OK")
  unfolding client_set handle_command handle_set
  client_set_first key value rest d whole int k v short room =
      let line = codes "SET " ++ (key ++ (codes " " ++ (value ++ (codes " " ++ rest)))) in
      let split : words line ≡ codes "SET" ∷ key ∷ value ∷ words rest =
        words-word (codes "SET") _ (refl, omega arith)
        ∙ ap (λ w. codes "SET" ∷ w)
            (words-word key _ k ∙ ap (λ w. key ∷ w) (words-word value rest v)) in
      exchanged line d (database.set key value d) (codes "SET" ∷ key ∷ value ∷ words rest)
        (encode_resp (codes "OK") false) (codes "OK") whole int short split
        (rw (c_str-solid key k.0, c_str-solid value v.0) refl) ok_some (ok_fits room)
        (decode_resp-encode_resp (codes "OK") false)

  -- `set` of a key and a value that are words (not empty, without white space and zero bytes): the value is
  -- stored under the key, and the client shows "OK". The connection reads at once what fits into the buffer that
  -- it reads into, the request is shorter than the buffer of the server, of at most 2 ^ 31 bytes, and that of
  -- the client has room for the 5 bytes of the answer.
  pub client_set_lem :
      (key value : Text) (d : D)
      → Whole wire
      → wire.server_buffer ≤ 2 ^ 31
      → IsWord key
      → IsWord value
      → length (encode_command (codes "SET " ++ (key ++ (codes " " ++ value)))) < wire.server_buffer
      → 5 ≤ wire.client_buffer
      → client_set database wire key value d ≡ some (database.set key value d, codes "OK")
  unfolding client_set handle_command handle_set
  client_set_lem key value d whole int k v short room =
      let line = codes "SET " ++ (key ++ (codes " " ++ value)) in
      let split : words line ≡ codes "SET" ∷ key ∷ value ∷ [] =
        words-word (codes "SET") _ (refl, omega arith)
        ∙ ap (λ w. codes "SET" ∷ w) (words-word key _ k ∙ ap (λ w. key ∷ w) (words_last value v)) in
      exchanged line d (database.set key value d) (codes "SET" ∷ key ∷ value ∷ [])
        (encode_resp (codes "OK") false) (codes "OK") whole int short split
        (rw (c_str-solid key k.0, c_str-solid value v.0) refl) ok_some (ok_fits room)
        (decode_resp-encode_resp (codes "OK") false)

  -- `get` of a key that is a word (not empty, without white space and zero bytes): the client shows the value
  -- that the database gives for it, of less than 2 ^ 31 bytes, and "(nil)" where that is "-1". The connection
  -- reads at once what fits into the buffer that it reads into, the request is shorter than the buffer of the
  -- server, of at most 2 ^ 31 bytes, and the whole answer, the length and the value, fits into that of the client.
  pub client_get_lem :
      (key : Text) (d : D)
      → Whole wire
      → wire.server_buffer ≤ 2 ^ 31
      → IsWord key
      → length (encode_command (codes "GET " ++ key)) < wire.server_buffer
      → length (database.get key d).1 < 2 ^ 31
      → length (value_reply database (database.get key d).1) ≤ wire.client_buffer
      → client_get database wire key d
        ≡ some (
          (database.get key d).0,
          if text_eq (database.get key d).1 (codes "-1")
              then codes "(nil)"
              else (database.get key d).1,
        )
  unfolding client_get handle_command handle_get
  client_get_lem key d whole int k short small room =
      let split : words (codes "GET " ++ key) ≡ codes "GET" ∷ key ∷ [] =
        words-word (codes "GET") key (refl, omega arith)
        ∙ ap (λ w. codes "GET" ∷ w) (words_last key k) in
      exchanged (codes "GET " ++ key) d (database.get key d).0 (codes "GET" ∷ key ∷ [])
        (value_reply database (database.get key d).1) _ whole int short split
        (rw (c_str-solid key k.0) refl) (value_reply-some database (database.get key d).1) room
        (decode-value_reply database (database.get key d).1 small)

  -- `del` of a key that is a word (not empty, without white space and zero bytes): the key is deleted from the
  -- database, and the client shows "0" where the database returns 0, which is success, and "1" otherwise. The
  -- connection reads at once what fits into the buffer that it reads into, the request is shorter than the
  -- buffer of the server, of at most 2 ^ 31 bytes, and that of the client has room for 5 bytes.
  pub client_del_lem :
      (key : Text) (d : D)
      → Whole wire
      → wire.server_buffer ≤ 2 ^ 31
      → IsWord key
      → length (encode_command (codes "DEL " ++ key)) < wire.server_buffer
      → 5 ≤ wire.client_buffer
      → client_del database wire key d
        ≡ some
            ((database.del key d).0, if (database.del key d).1 == 0 then codes "0" else codes "1")
  unfolding client_del handle_command handle_del delete_keys
  client_del_lem key d whole int k short room =
      let split : words (codes "DEL " ++ key) ≡ codes "DEL" ∷ key ∷ [] =
        words-word (codes "DEL") key (refl, omega arith)
        ∙ ap (λ w. codes "DEL" ∷ w) (words_last key k) in
      exchanged (codes "DEL " ++ key) d (database.del key d).0 (codes "DEL" ∷ key ∷ [])
        (b':' ∷ (to_string (0 + (if (database.del key d).1 == 0 then 0 else 1)) ++ crlf)) _ whole
        int short split (rw (c_str-solid key k.0) refl) (omega arith)
        (count_fits (database.del key d).1 room) (decode-count (database.del key d).1)
