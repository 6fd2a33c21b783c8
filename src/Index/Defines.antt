-- ===== src/Index/Defines.antt =====
-- The tables defines_0 up to defines_2 of docs/html/search, one for each page of the index.
use blink_db.Base.{List, [], ◌∷◌, true}
use blink_db.Search.Build.{Entry}
use blink_db.Index.Entries.{entry, target}

abbrev pub defines_0 : List Entry
defines_0 =
    entry "buffer_5fsize_189" "BUFFER_SIZE"
      (target "../blink__cli_8cpp.html#a6b20d41d6252e9871430c242cb1a56e7" true
        "BUFFER_SIZE():&#160;blink_cli.cpp")
      ((target "../blink__server__with__lb_8cpp.html#a6b20d41d6252e9871430c242cb1a56e7" true
          "BUFFER_SIZE():&#160;blink_server_with_lb.cpp")
        ∷ [])
    ∷ []

abbrev pub defines_1 : List Entry
defines_1 =
    entry "max_5fevents_190" "MAX_EVENTS"
      (target "../blink__server__with__lb_8cpp.html#ae42954bb8545d24e3e9dcde5920c9a0b" true
        "blink_server_with_lb.cpp")
      ([])
    ∷ entry "max_5fmemory_5fbytes_191" "MAX_MEMORY_BYTES"
        (target "../blink__server__with__lb_8cpp.html#a0282585c8da386b1067a7f8204a1f3bc" true
          "blink_server_with_lb.cpp")
        ([])
    ∷ []

abbrev pub defines_2 : List Entry
defines_2 =
    entry "server_5fip_192" "SERVER_IP"
      (target "../blink__cli_8cpp.html#a28d06fc286f28044ed3380969700ff3f" true
        "SERVER_IP():&#160;blink_cli.cpp")
      ((target "../blink__server__with__lb_8cpp.html#a28d06fc286f28044ed3380969700ff3f" true
          "SERVER_IP():&#160;blink_server_with_lb.cpp")
        ∷ [])
    ∷ entry "server_5fport_193" "SERVER_PORT"
        (target "../blink__cli_8cpp.html#ac42367fe5c999ec6650de83e9d72fe8c" true
          "SERVER_PORT():&#160;blink_cli.cpp")
        ((target "../blink__server__with__lb_8cpp.html#ac42367fe5c999ec6650de83e9d72fe8c" true
            "SERVER_PORT():&#160;blink_server_with_lb.cpp")
          ∷ [])
    ∷ []
