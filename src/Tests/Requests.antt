-- ===== src/Tests/Requests.antt =====
-- The theorems about requests and answers, at concrete texts and with a list of keys and values in the
-- place of the database.
use blink_db.Base.{
  ℕ, ◌+◌, List, [], ◌∷◌, ◌++◌, some, true, ◌≡◌, refl, arith, Text, codes, text_eq, ◌==◌,
  if◌then◌else◌, length, take, zero, suc, ap,
}
use blink_db.Protocol.Strings.{crlf, words, split_words, to_string, digits}
use blink_db.Protocol.Requests.{encode_words, encode_list, encode_command, parse_resp}
use blink_db.Protocol.Requests.Read.{parse_resp-encode_list}
use blink_db.Protocol.Replies.{encode_resp, decode_resp}
use blink_db.Protocol.Replies.Answers.{shown, decode_resp-encode_resp}
use blink_db.Protocol.Commands.Safety.{Readable, handle_command-Readable}
use blink_db.Protocol.Commands.{
  handle_command, Database, Wire, Whole, value_reply, client_set, client_get, client_del,
}
use blink_db.Protocol.Commands.Calls.{client_set_first, client_get_lem, client_del_lem}

abbrev Pairs : Type 0
Pairs = List (Text × Text)

abbrev value_of : Text → Pairs → Text
value_of key [] = codes "-1"
value_of key (e ∷ d) = if text_eq key e.0 then e.1 else value_of key d

abbrev without : Text → Pairs → Pairs
without key [] = []
without key (e ∷ d) = let rest = without key d in if text_eq key e.0 then rest else e ∷ rest

abbrev pairs : Database Pairs
pairs = record {
  set = λ key value d. (key, value) ∷ without key d;
  get = λ key d. (d, value_of key d);
  del = λ key d. (without key d, if text_eq (value_of key d) (codes "-1") then 1 else 0);
  memory_usage = length;
  max_memory = λ d. 1024;
  size = length;
}

abbrev one_pair : Pairs
one_pair = (codes "k", codes "v w") ∷ []

-- The buffers of the programs, and a connection that reads all that the buffer has room for.
abbrev pub whole_wire : Wire
whole_wire = record { recv = take; server_buffer = 2048; client_buffer = 1024 }

pub whole_wire-Whole : Whole whole_wire
whole_wire-Whole zero [] h = refl
whole_wire-Whole (suc n) [] h = refl
whole_wire-Whole zero (c ∷ s) h = absurd (omega (arith, h))
whole_wire-Whole (suc n) (c ∷ s) h = ap (λ t. c ∷ t) (whole_wire-Whole n s (omega (arith, h)))

parse_resp-encode_list_example :
    parse_resp (encode_list (codes "SET" ∷ codes "k" ∷ (codes "a b" ++ crlf) ∷ []))
    ≡ some (codes "SET" ∷ codes "k" ∷ (codes "a b" ++ crlf) ∷ [])
unfolding encode_list encode_words to_string digits
parse_resp-encode_list_example =
    parse_resp-encode_list (codes "SET" ∷ codes "k" ∷ (codes "a b" ++ crlf) ∷ []) (omega arith)

decode_resp-encode_resp_example :
    decode_resp (encode_resp (codes "Unknown command") true)
    ≡ some (shown (codes "Unknown command") true)
decode_resp-encode_resp_example = decode_resp-encode_resp (codes "Unknown command") true

client_set_first_example :
    client_set pairs whole_wire (codes "k") (codes "v" ++ (codes " " ++ codes "w")) one_pair
    ≡ some (pairs.set (codes "k") (codes "v") one_pair, codes "OK")
unfolding encode_command encode_list encode_words words split_words to_string digits
client_set_first_example =
    client_set_first pairs whole_wire (codes "k") (codes "v") (codes "w") one_pair whole_wire-Whole
      (omega arith) (refl, omega arith) (refl, omega arith) (omega arith) (omega arith)

client_get_lem_example :
    client_get pairs whole_wire (codes "k") one_pair
    ≡ some (
      (pairs.get (codes "k") one_pair).0,
      if text_eq (pairs.get (codes "k") one_pair).1 (codes "-1")
          then codes "(nil)"
          else (pairs.get (codes "k") one_pair).1,
    )
unfolding encode_command encode_list encode_words words split_words to_string digits value_reply
client_get_lem_example =
    client_get_lem pairs whole_wire (codes "k") one_pair whole_wire-Whole (omega arith)
      (refl, omega arith) (omega arith) (omega arith) (omega arith)

client_del_lem_example :
    client_del pairs whole_wire (codes "k") one_pair
    ≡ some (
      (pairs.del (codes "k") one_pair).0,
      if (pairs.del (codes "k") one_pair).1 == 0 then codes "0" else codes "1",
    )
unfolding encode_command encode_list encode_words words split_words to_string digits
client_del_lem_example =
    client_del_lem pairs whole_wire (codes "k") one_pair whole_wire-Whole (omega arith)
      (refl, omega arith) (omega arith) (omega arith)

-- A database that has the value "v" for every key.
abbrev constant : Database ℕ
constant = record {
  set = λ key value d. d + 1;
  get = λ key d. (d, codes "v");
  del = λ key d. (d, 0);
  memory_usage = λ d. d;
  max_memory = λ d. 1024;
  size = λ d. 1;
}

handle_command-Readable_example :
    Readable (handle_command constant (codes "info" ∷ codes "all" ∷ []) 3).1
handle_command-Readable_example =
    handle_command-Readable constant 3 (codes "info" ∷ codes "all" ∷ []) (λ key. omega arith)
