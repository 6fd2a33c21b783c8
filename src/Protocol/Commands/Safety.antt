-- ===== src/Protocol/Commands/Safety.antt =====
-- The answers of lib/server.h, to any command, as lib/client.h reads them.
use blink_db.Base.{
  ℕ, ◌≤◌, ◌<◌, ◌^◌, List, [], ◌∷◌, ◌++◌, some, Bool, true, false, ◌≡◌, refl, arith, Text, codes,
  text_eq, if◌then◌else◌, length, length-append, All, ◌*◌,
}
use blink_db.Protocol.Strings.{crlf, to_string, to_upper, to_lower}
use blink_db.Protocol.Strings.Numbers.{length-to_string}
use blink_db.Protocol.Replies.{encode_resp, decode_resp}
use blink_db.Protocol.Replies.Answers.{
  shown, decode_resp-encode_resp, decode_resp-bulk, without_end-crlf,
}
use blink_db.Protocol.Commands.{
  Database, handle_set, handle_get, delete_keys, handle_del, info_lines, joined, info_text,
  handle_info, config_param, handle_config, handle_command,
}
use blink_db.Protocol.Commands.Calls.{decode-value_reply}

-- The client reads an answer without an exception.
abbrev pub Readable : Text → Type 0
Readable reply = (s : Text) × (decode_resp reply ≡ some s)

encode_resp-Readable : (s : Text) (is_error : Bool) → Readable (encode_resp s is_error)
encode_resp-Readable s is_error = (shown s is_error, decode_resp-encode_resp s is_error)

number-Readable : (n : ℕ) → Readable (b':' ∷ (to_string n ++ crlf))
unfolding decode_resp
number-Readable n = (to_string n, without_end-crlf (to_string n))

array-Readable : (s : Text) → Readable (b'*' ∷ s)
unfolding decode_resp
array-Readable s = (codes "Array response (parsing not implemented)", refl)

length-joined :
    (lines : List Text) → All (λ s. length s ≤ 42) lines → length (joined lines) ≤ 42 * length lines
unfolding joined
length-joined [] h = omega arith
length-joined (line ∷ lines) (short, rest) =
    omega (arith, length-append line (joined lines), short, length-joined lines rest)

module _ {D : Type 0} (database : Database D) (d : D) where
  if_Readable :
      (b : Bool) (x y : D × Text) → Readable x.1 → Readable y.1 → Readable (if b then x else y).1
  if_Readable true x y p q = p
  if_Readable false x y p q = q

  set-Readable : (command : List Text) → Readable (handle_set database command d).1
  unfolding handle_set
  set-Readable [] = encode_resp-Readable _ true
  set-Readable (cmd ∷ []) = encode_resp-Readable _ true
  set-Readable (cmd ∷ key ∷ []) = encode_resp-Readable _ true
  set-Readable (cmd ∷ key ∷ value ∷ rest) = encode_resp-Readable (codes "OK") false

  get-Readable :
      ((key : Text) → length (database.get key d).1 < 2 ^ 31)
      → (command : List Text) → Readable (handle_get database command d).1
  unfolding handle_get
  get-Readable small [] = encode_resp-Readable _ true
  get-Readable small (cmd ∷ []) = encode_resp-Readable _ true
  get-Readable small (cmd ∷ key ∷ rest) = (_, decode-value_reply database _ (small _))

  del-Readable : (command : List Text) → Readable (handle_del database command d).1
  unfolding handle_del
  del-Readable [] = encode_resp-Readable _ true
  del-Readable (cmd ∷ []) = encode_resp-Readable _ true
  del-Readable (cmd ∷ key ∷ keys) = number-Readable (delete_keys database (key ∷ keys) 0 d).1

  numbered :
      (label : Text) (n : ℕ) → length label ≤ 20 → length (label ++ (to_string n ++ crlf)) ≤ 42
  numbered label n h = omega (
    arith,
    h,
    length-append label (to_string n ++ crlf),
    length-append (to_string n) crlf,
    length-to_string n,
  )

  info-short : length (info_text database d) < 2 ^ 31
  unfolding info_text info_lines
  info-short =
      let le = length-joined (info_lines database d) (
        omega arith,
        (
          numbered (codes "used_memory:") (database.memory_usage d) (omega arith),
          (
            numbered (codes "maxmemory:") (database.max_memory d) (omega arith),
            (
              omega arith,
              (
                omega arith,
                (numbered (codes "keyspace_hits:") (database.size d) (omega arith), tt),
              ),
            ),
          ),
        ),
      ) in
      omega (arith, le)

  info-Readable : Readable (handle_info database d).1
  unfolding handle_info
  info-Readable = (info_text database d, decode_resp-bulk (info_text database d) info-short)

  param-Readable : (param : Text) → Readable (config_param database param d).1
  unfolding config_param
  param-Readable param = if_Readable (text_eq param (codes "maxmemory")) _ _ (array-Readable _) (
      if_Readable (text_eq param (codes "maxmemory-policy")) _ _ (array-Readable _)
        (encode_resp-Readable _ false))

  config-Readable : (command : List Text) → Readable (handle_config database command d).1
  unfolding handle_config
  config-Readable [] = encode_resp-Readable _ true
  config-Readable (cmd ∷ []) = encode_resp-Readable _ true
  config-Readable (cmd ∷ subcmd ∷ []) = encode_resp-Readable _ false
  config-Readable (cmd ∷ subcmd ∷ param ∷ rest) =
      if_Readable (text_eq (to_upper subcmd) (codes "GET")) _ _ (param-Readable (to_lower param))
        (encode_resp-Readable _ false)

  -- Whatever the command, and whatever the database does, the client reads the answer of the server without an
  -- exception, as long as the values of the database are shorter than 2 ^ 31 bytes.
  pub handle_command-Readable :
      (command : List Text)
      → ((key : Text) → length (database.get key d).1 < 2 ^ 31)
      → Readable (handle_command database command d).1
  unfolding handle_command
  handle_command-Readable [] small = encode_resp-Readable _ true
  handle_command-Readable (word ∷ args) small =
      let cmd = to_upper word in
      if_Readable (text_eq cmd (codes "SET")) _ _ (set-Readable (word ∷ args)) (
        if_Readable (text_eq cmd (codes "GET")) _ _ (get-Readable small (word ∷ args)) (
          if_Readable (text_eq cmd (codes "DEL")) _ _ (del-Readable (word ∷ args)) (
            if_Readable (text_eq cmd (codes "INFO")) _ _ info-Readable (
              if_Readable (text_eq cmd (codes "CONFIG")) _ _ (config-Readable (word ∷ args))
                (encode_resp-Readable _ true)))))
