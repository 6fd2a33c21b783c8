-- ===== src/Index/Files.antt =====
-- The tables files_0 up to files_6 of docs/html/search, one for each page of the index.
use blink_db.Base.{List, [], ◌∷◌, true}
use blink_db.Search.Build.{Entry}
use blink_db.Index.Entries.{entry, target}

abbrev pub files_0 : List Entry
files_0 =
    entry "blink_5fcli_2ecpp_101" "blink_cli.cpp" (target "../blink__cli_8cpp.html" true "") ([])
    ∷ entry "blink_5fserver_2ecpp_102" "blink_server.cpp"
        (target "../blink__server_8cpp.html" true "") ([])
    ∷ entry "blink_5fserver_5fwith_5flb_2ecpp_103" "blink_server_with_lb.cpp"
        (target "../blink__server__with__lb_8cpp.html" true "") ([])
    ∷ entry "bloomfilter_2eh_104" "bloomfilter.h" (target "../bloomfilter_8h.html" true "") ([])
    ∷ []

abbrev pub files_1 : List Entry
files_1 =
    entry "client_2eh_105" "client.h" (target "../client_8h.html" true "") ([])
    ∷ entry "create_5fnon_5flocking_5fsocket_2eh_106" "create_non_locking_socket.h"
        (target "../create__non__locking__socket_8h.html" true "") ([])
    ∷ []

abbrev pub files_2 : List Entry
files_2 = entry "dict_2eh_107" "dict.h" (target "../dict_8h.html" true "") ([]) ∷ []

abbrev pub files_3 : List Entry
files_3 =
    entry "load_5fbalancer_2eh_108" "load_balancer.h" (target "../load__balancer_8h.html" true "")
      ([])
    ∷ entry "lru_5fcache_5fv0_2eh_109" "lru_cache_v0.h" (target "../lru__cache__v0_8h.html" true "")
        ([])
    ∷ entry "lru_5fcache_5fv1_2eh_110" "lru_cache_v1.h" (target "../lru__cache__v1_8h.html" true "")
        ([])
    ∷ []

abbrev pub files_4 : List Entry
files_4 =
    entry "persistence_5fkv_5fstore_2eh_111" "persistence_kv_store.h"
      (target "../persistence__kv__store_8h.html" true "") ([])
    ∷ []

abbrev pub files_5 : List Entry
files_5 =
    entry "server_2eh_112" "server.h" (target "../server_8h.html" true "") ([])
    ∷ entry "set_5fnonblocking_2eh_113" "set_nonblocking.h"
        (target "../set__nonblocking_8h.html" true "") ([])
    ∷ []

abbrev pub files_6 : List Entry
files_6 =
    entry "tire_2eh_114" "tire.h" (target "../tire_8h.html" true "") ([])
    ∷ entry "types_2eh_115" "types.h" (target "../types_8h.html" true "") ([])
    ∷ []
