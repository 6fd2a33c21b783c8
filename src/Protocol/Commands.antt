-- ===== src/Protocol/Commands.antt =====
-- The commands of the server, `handle_command` of lib/server.h, and the calls of lib/client.h.
pub mod Words
pub mod Calls
pub mod Safety
use blink_db.Base.{
  ℕ, ◌+◌, ◌≤◌, ◌≡◌, ltb, List, [], ◌∷◌, ◌++◌, Option, none, some, Bool, true, false, Text, codes,
  text_eq, ◌==◌, if◌then◌else◌, length, ◌>>=◌,
}
use blink_db.Protocol.Strings.{crlf, to_string, to_upper, to_lower, c_str}
use blink_db.Protocol.Requests.{encode_command, parse_resp}
use blink_db.Protocol.Replies.{encode_resp, decode_resp}

-- What the server calls of its `database`, with the state D. A key or value is handed over as a C string.
pub record Database (D : Type 0) : Type 0 where
  pub set : Text → Text → D → D
  pub get : Text → D → D × Text
  pub del : Text → D → D × ℕ
  pub memory_usage : D → ℕ
  pub max_memory : D → ℕ
  pub size : D → ℕ

-- The connection, with the two values of `buffer_size`. `recv n` is what a `recv` or a `read` into a buffer of n
-- bytes gives of a message that was sent: the bytes that it reads at once, none where it returns 0 or less.
pub record Wire : Type 0 where
  pub recv : ℕ → Text → Text
  pub server_buffer : ℕ
  pub client_buffer : ℕ

-- What both programs rely on: a message that fits into the buffer is read at once, and whole.
abbrev pub Whole : Wire → Type 0
Whole wire = (n : ℕ) (sent : Text) → length sent ≤ n → wire.recv n sent ≡ sent

-- `info += line` for each line.
unfoldable pub joined : List Text → Text
joined [] = []
joined (line ∷ lines) = line ++ joined lines

module _ {D : Type 0} (database : Database D) where
  unfoldable pub handle_set : List Text → D → D × Text
  handle_set (cmd ∷ key ∷ value ∷ rest) d =
      (database.set (c_str key) (c_str value) d, encode_resp (codes "OK") false)
  handle_set _ d = (d, encode_resp (codes "SET command requires key and value") true)

  -- The answer to GET for the text that the database gives, where "-1" stands for no value.
  unfoldable pub value_reply : Text → Text
  value_reply value =
      if text_eq value (codes "-1")
      then codes "$-1" ++ crlf
      else b'$' ∷ (to_string (length value) ++ (crlf ++ (value ++ crlf)))

  unfoldable pub handle_get : List Text → D → D × Text
  handle_get (cmd ∷ key ∷ rest) d =
      let (e, value) = database.get (c_str key) d in (e, value_reply value)
  handle_get _ d = (d, encode_resp (codes "GET command requires key") true)

  -- The loop over the keys of DEL, with `count`.
  unfoldable pub delete_keys : List Text → ℕ → D → D × ℕ
  delete_keys [] count d = (d, count)
  delete_keys (key ∷ keys) count d =
      let (e, result) = database.del (c_str key) d in
      delete_keys keys (count + (if result == 0 then 0 else 1)) e

  unfoldable pub handle_del : List Text → D → D × Text
  handle_del (cmd ∷ key ∷ keys) d =
      let (e, count) = delete_keys (key ∷ keys) 0 d in (e, b':' ∷ (to_string count ++ crlf))
  handle_del _ d = (d, encode_resp (codes "DEL command requires key") true)

  -- The lines that `info` is put together from.
  unfoldable pub info_lines : D → List Text
  info_lines d =
      (codes "# Memory" ++ crlf)
      ∷ (codes "used_memory:" ++ (to_string (database.memory_usage d) ++ crlf))
      ∷ (codes "maxmemory:" ++ (to_string (database.max_memory d) ++ crlf))
      ∷ (codes "maxmemory_policy:allkeys-lru" ++ crlf)
      ∷ (codes "# Stats" ++ crlf)
      ∷ (codes "keyspace_hits:" ++ (to_string (database.size d) ++ crlf))
      ∷ []

  unfoldable pub info_text : D → Text
  info_text d = joined (info_lines d)

  unfoldable pub handle_info : D → D × Text
  handle_info d = (d, b'$' ∷ (to_string (length (info_text d)) ++ (crlf ++ (info_text d ++ crlf))))

  abbrev config_note : D → D × Text
  config_note d = (
    d,
    encode_resp (codes "Supported CONFIG commands: GET maxmemory, GET maxmemory-policy") false,
  )

  unfoldable pub config_param : Text → D → D × Text
  config_param param d =
      if text_eq param (codes "maxmemory")
      then (
        d,
        codes "*2"
            ++ crlf
            ++ codes "$9"
            ++ crlf
            ++ codes "maxmemory"
            ++ crlf
            ++ codes "$"
            ++ to_string (length (to_string (database.max_memory d)))
            ++ crlf
            ++ to_string (database.max_memory d)
            ++ crlf,
      )
      else if text_eq param (codes "maxmemory-policy")
      then (
        d,
        codes "*2"
            ++ crlf
            ++ codes "$16"
            ++ crlf
            ++ codes "maxmemory-policy"
            ++ crlf
            ++ codes "$11"
            ++ crlf
            ++ codes "allkeys-lru"
            ++ crlf,
      )
      else config_note d

  unfoldable pub handle_config : List Text → D → D × Text
  handle_config (cmd ∷ subcmd ∷ param ∷ rest) d =
      if text_eq (to_upper subcmd) (codes "GET")
      then config_param (to_lower param) d
      else config_note d
  handle_config (cmd ∷ subcmd ∷ []) d = config_note d
  handle_config _ d = (d, encode_resp (codes "CONFIG command requires subcommand") true)

  -- `handle_command(command, response)`
  unfoldable pub handle_command : List Text → D → D × Text
  handle_command [] d = (d, encode_resp (codes "Invalid command") true)
  handle_command (word ∷ args) d =
      let cmd = to_upper word in
      if text_eq cmd (codes "SET")
      then handle_set (word ∷ args) d
      else if text_eq cmd (codes "GET")
      then handle_get (word ∷ args) d
      else if text_eq cmd (codes "DEL")
      then handle_del (word ∷ args) d
      else if text_eq cmd (codes "INFO")
      then handle_info d
      else if text_eq cmd (codes "CONFIG")
      then handle_config (word ∷ args) d
      else (d, encode_resp (codes "Unknown command") true)

  module _ (wire : Wire) where
    -- What `init` does with the bytes that it has read, before it sends the answer: `none` where the zero behind
    -- them is written outside of the buffer, or where an exception ends it.
    unfoldable pub serve : Text → D → Option (D × Text)
    serve input d =
        if ltb (length input) wire.server_buffer
        then (parse_resp input >>= λ command. some (handle_command command d))
        else none

    -- The branch of `init` for a client that has sent something. Where nothing is read, the connection is closed
    -- and nothing is sent.
    unfoldable pub receive : Text → D → Option (D × Text)
    receive sent d = elim (wire.recv wire.server_buffer sent) [
      | [] ↦ some (d, [])
      | c ∷ input ↦ serve (c ∷ input) d
    ]

    -- What `send_req` returns for the bytes that it has read.
    unfoldable pub read_reply : Text → Text
    read_reply sent = elim (wire.recv wire.client_buffer sent) [
      | [] ↦ codes "-1"
      | c ∷ reply ↦ c ∷ reply
    ]

    -- `send_req(_encoded)`
    unfoldable pub send_req : Text → D → Option (D × Text)
    send_req encoded d = receive encoded d >>= λ r. some (r.0, read_reply r.1)

    -- `decode_resp(send_req(encode_command(_input)))`
    unfoldable pub exchange : Text → D → Option (D × Text)
    exchange line d =
        send_req (encode_command line) d >>= λ r. decode_resp r.1 >>= λ s. some (r.0, s)

    -- `set(_key, _value)`, `get(_key)` and `del(_key)` of the client
    unfoldable pub client_set : Text → Text → D → Option (D × Text)
    client_set key value d = exchange (codes "SET " ++ (key ++ (codes " " ++ value))) d

    unfoldable pub client_get : Text → D → Option (D × Text)
    client_get key d = exchange (codes "GET " ++ key) d

    unfoldable pub client_del : Text → D → Option (D × Text)
    client_del key d = exchange (codes "DEL " ++ key) d
