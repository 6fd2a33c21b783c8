-- ===== src/Index/Variables.antt =====
-- The tables variables_0 up to variables_c of docs/html/search, one for each page of the index.
use blink_db.Base.{List, [], ◌∷◌, true}
use blink_db.Search.Build.{Entry}
use blink_db.Index.Entries.{entry, target}

abbrev pub variables_0 : List Entry
variables_0 =
    entry "buffer_168" "buffer"
      (target "../classClient.html#a60305bce1344ddf1f28ad1cacc1472e6" true "Client") ([])
    ∷ entry "buffer_5fsize_169" "buffer_size"
        (target "../classClient.html#a05553187a7787130df34c40bbded06f4" true "Client") ([])
    ∷ entry "buffer_5fsize_170" "BUFFER_SIZE"
        (target "../blink__server_8cpp.html#a91f806c1bc7c1f4f402a627773840252" true
          "blink_server.cpp")
        ([])
    ∷ []

abbrev pub variables_1 : List Entry
variables_1 =
    entry "children_171" "children"
      (target "../classTrieNode.html#ab0ebb239b5f94dd1c48ee07106276048" true "TrieNode") ([])
    ∷ []

abbrev pub variables_2 : List Entry
variables_2 =
    entry "dict_172" "dict"
      (target "../classLRUCache.html#a6c93033c61478f5392c35b6f1d6cd83b" true "LRUCache") ([])
    ∷ []

abbrev pub variables_3 : List Entry
variables_3 =
    entry "file_5foffset_173" "file_offset"
      (target "../classTrieNode.html#a1836e71e2c41bb0f99f00a970491feae" true "TrieNode") ([])
    ∷ []

abbrev pub variables_4 : List Entry
variables_4 =
    entry "head_174" "head"
      (target "../classLRUCache.html#a52a4ef73dc27ade730aa121870d40a50" true "LRUCache") ([])
    ∷ []

abbrev pub variables_5 : List Entry
variables_5 =
    entry "ip_175" "ip"
      (target "../structServerAdd.html#ad5b31065e4dcb19cb9794bc659ce9d55" true "ServerAdd") ([])
    ∷ entry "ip_5faddr_176" "ip_addr"
        (target "../classClient.html#a4374f45b8c4cc22dab397c9df0d7639e" true "Client") ([])
    ∷ entry "isdeleted_177" "isDeleted"
        (target "../classTrieNode.html#a0fd0a12ee8f7e229701ba6200ae539cb" true "TrieNode") ([])
    ∷ []

abbrev pub variables_6 : List Entry
variables_6 =
    entry "key_178" "key"
      (target "../structLRUCache_1_1Node.html#a02a4dc539def869bdefd36862d333d21" true
        "LRUCache::Node")
      ([])
    ∷ []

abbrev pub variables_7 : List Entry
variables_7 =
    entry "max_5fevents_179" "MAX_EVENTS"
      (target "../blink__server_8cpp.html#a55853dfa4cf88a9ab477f598e9f85004" true
        "blink_server.cpp")
      ([])
    ∷ entry "max_5fmemory_5fbytes_180" "MAX_MEMORY_BYTES"
        (target "../blink__server_8cpp.html#ad38f5707cd5cf10910ca49fe619d8066" true
          "blink_server.cpp")
        ([])
    ∷ []

abbrev pub variables_8 : List Entry
variables_8 =
    entry "next_181" "next"
      (target "../structLRUCache_1_1Node.html#af51c25bbd46f542237f5c0b61638f248" true
        "LRUCache::Node")
      ([])
    ∷ []

abbrev pub variables_9 : List Entry
variables_9 =
    entry "port_182" "port"
      (target "../classClient.html#aad8864d1362eae7c50e53c0d131b7442" true "Client::port()")
      ((target "../structServerAdd.html#adc3d13d9d6ce5af3f6cc1551b60bc676" true "ServerAdd::port()")
        ∷ [])
    ∷ entry "prev_183" "prev"
        (target "../structLRUCache_1_1Node.html#a7a0c9f61581b9b06cdbbc15b641f6967" true
          "LRUCache::Node")
        ([])
    ∷ []

abbrev pub variables_a : List Entry
variables_a =
    entry "server_5fip_184" "SERVER_IP"
      (target "../blink__server_8cpp.html#a8020ab8a401927e9dee707e5336e4d0c" true
        "blink_server.cpp")
      ([])
    ∷ entry "server_5fport_185" "SERVER_PORT"
        (target "../blink__server_8cpp.html#ab35eb3c36c30bc69081c8150faa6aa94" true
          "blink_server.cpp")
        ([])
    ∷ entry "storage_186" "storage"
        (target "../classLRUCache.html#a649de5d420fb7b1799df15fb79108ba1" true "LRUCache") ([])
    ∷ []

abbrev pub variables_b : List Entry
variables_b =
    entry "tail_187" "tail"
      (target "../classLRUCache.html#aa33cac6a0b065de0e3bf816e63c953f7" true "LRUCache") ([])
    ∷ []

abbrev pub variables_c : List Entry
variables_c =
    entry "value_188" "value"
      (target "../structLRUCache_1_1Node.html#a2b7c28f452d179cbcdda8f4624767efa" true
        "LRUCache::Node::value()")
      ((target "../classLRUCache.html#a78587edf7aae631e794a6b11b3229dfb" true "LRUCache::value()")
        ∷ [])
    ∷ []
