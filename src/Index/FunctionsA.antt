-- ===== src/Index/FunctionsA.antt =====
-- The tables functions_0 up to functions_d of docs/html/search, one for each page of the index.
use blink_db.Base.{List, [], ◌∷◌, true}
use blink_db.Search.Build.{Entry}
use blink_db.Index.Entries.{entry, target}

abbrev pub functions_0 : List Entry
functions_0 =
    entry "add_116" "add" (target "../classDict.html#ad7273850719fc8c228cb3e1cb3968b66" true "Dict")
      ([])
    ∷ []

abbrev pub functions_1 : List Entry
functions_1 =
    entry "bloomfilter_117" "BloomFilter"
      (target "../classBloomFilter.html#a178749a3f48d7778a6112ae3925082dd" true "BloomFilter") ([])
    ∷ []

abbrev pub functions_2 : List Entry
functions_2 =
    entry "client_118" "Client"
      (target "../classClient.html#a466156b11ab38c497fb63fa08b3eeecd" true "Client") ([])
    ∷ entry "close_5fserver_119" "close_server"
        (target "../classClient.html#a3bb5a5015b59f502e23a9b99ca8b41d1" true "Client") ([])
    ∷ entry "command_5floop_120" "command_loop"
        (target "../blink__cli_8cpp.html#a3d07c9c8554b653b482975f4149bfa06" true "blink_cli.cpp")
        ([])
    ∷ entry "contains_121" "contains"
        (target "../classBloomFilter.html#a30a32da65c9167b1e638db926a90f502" true "BloomFilter")
        ([])
    ∷ entry "create_5fnon_5flocking_5fsocket_122" "create_non_locking_socket"
        (target "../create__non__locking__socket_8h.html#a05a7e9ad0559e723ab0bc57c15684854" true
          "create_non_locking_socket.h")
        ([])
    ∷ []

abbrev pub functions_3 : List Entry
functions_3 =
    entry "del_123" "del"
      (target "../classClient.html#a115d5c86cf42098638aa4b262e5afae3" true "Client::del()")
      ((target "../classLRUCache.html#aa60ce37d7cbf1d9314cc85f9548d0055" true
          "LRUCache::del(const std::string &amp;key)")
        ∷ (target "../classLRUCache.html#a8a577f475e65e6e16338e7441634f353" true
            "LRUCache::del(const void *key)")
        ∷ [])
    ∷ entry "dict_124" "Dict"
        (target "../classDict.html#a8c272756ff370c95a520e16e6064b5a0" true "Dict") ([])
    ∷ []

abbrev pub functions_4 : List Entry
functions_4 =
    entry "enableresize_125" "enableResize"
      (target "../classDict.html#a5bdef41d123a21fd1201b3f5c6b5f544" true "Dict") ([])
    ∷ entry "encode_5fresp_126" "encode_resp"
        (target "../classServer.html#ada6ecbc37608e0adb2be968f27be28de" true "Server") ([])
    ∷ []

abbrev pub functions_5 : List Entry
functions_5 =
    entry "find_127" "find"
      (target "../classDict.html#aee0c851f77099933a0925f453a1a7239" true "Dict") ([])
    ∷ entry "freestring_128" "freeString"
        (target "../dict_8h.html#a69beda11346b926623e4309bb18a97ab" true "dict.h") ([])
    ∷ []

abbrev pub functions_6 : List Entry
functions_6 =
    entry "get_129" "get"
      (target "../classClient.html#af10514dc3fdc66ba070d82a2211d381e" true "Client::get()")
      ((target "../classLRUCache.html#a6eeb3b1895171a5f6c5db63d393128c7" true
          "LRUCache::get(const std::string &amp;key, std::string &amp;value)")
        ∷ (target "../classLRUCache.html#afa9c3e5d273b81c21051a809794ea41d" true
            "LRUCache::get(const void *key)")
        ∷ (target "../classPersistenceKVStore.html#a718ce3a40a4a341b84694c6fa588c362" true
            "PersistenceKVStore::get()")
        ∷ [])
    ∷ entry "get_5fsize_5fof_5fdict_130" "get_size_of_dict"
        (target "../classDict.html#a9ce4d8fa2039d2589d1ccc52bbe64c34" true "Dict") ([])
    ∷ []

abbrev pub functions_7 : List Entry
functions_7 =
    entry "handle_5fcommand_131" "handle_command"
      (target "../classServer.html#adc733e6b389380f0efe0f5aeaf1cb3b7" true "Server") ([])
    ∷ []

abbrev pub functions_8 : List Entry
functions_8 =
    entry "init_132" "init"
      (target "../classServer.html#a1016678b77eacc5aa97f2310f8b442b1" true "Server") ([])
    ∷ entry "insert_133" "insert"
        (target "../classBloomFilter.html#a2543ecabab73c24bec586f6b3b4f4563" true
          "BloomFilter::insert()")
        ((target "../classPersistenceKVStore.html#a6accd3f2351682402ddd870ef6dd11b2" true
            "PersistenceKVStore::insert()")
          ∷ (target "../classTrie.html#a7a13a211287ca69c00368bfde90f1060" true
              "Trie::insert(const std::string &amp;key, long offset)")
          ∷ [])
    ∷ entry "isdeleted_134" "isDeleted"
        (target "../classTrie.html#a01acf72e7389880cc4c7ba3377500164" true "Trie") ([])
    ∷ entry "isrehashing_135" "isRehashing"
        (target "../classDict.html#abba811a5858a82e19c316edb6842a89f" true "Dict") ([])
    ∷ []

abbrev pub functions_9 : List Entry
functions_9 =
    entry "loadbalancer_136" "LoadBalancer"
      (target "../classLoadBalancer.html#ab818ebc121c5936dd0304eb463a93906" true "LoadBalancer")
      ([])
    ∷ entry "lrucache_137" "LRUCache"
        (target "../classLRUCache.html#a2c89f2a33f7ddfaabab844533fa9ad00" true
          "LRUCache::LRUCache(size_t max_mem)")
        ((target "../classLRUCache.html#a2c89f2a33f7ddfaabab844533fa9ad00" true
            "LRUCache::LRUCache(size_t max_mem)")
          ∷ [])
    ∷ []

abbrev pub functions_a : List Entry
functions_a =
    entry "main_138" "main"
      (target "../blink__cli_8cpp.html#ae66f6b31b5ad750f1fe042a706a4e3d4" true
        "main():&#160;blink_cli.cpp")
      ((target "../blink__server_8cpp.html#ae66f6b31b5ad750f1fe042a706a4e3d4" true
          "main():&#160;blink_server.cpp")
        ∷ (target "../blink__server__with__lb_8cpp.html#ae66f6b31b5ad750f1fe042a706a4e3d4" true
            "main():&#160;blink_server_with_lb.cpp")
        ∷ [])
    ∷ entry "max_5fmemory_139" "max_memory"
        (target "../classLRUCache.html#a6f32f17cc2477cbe581fa3c9c3740577" true
          "LRUCache::max_memory() const")
        ((target "../classLRUCache.html#ad3a592727d00864187479cf40bb7bbcd" true
            "LRUCache::max_memory()")
          ∷ [])
    ∷ entry "memory_5fusage_140" "memory_usage"
        (target "../classLRUCache.html#ad9a9cbe3eb1ac93828a5ea0b85d2fd6e" true
          "LRUCache::memory_usage() const")
        ((target "../classLRUCache.html#adde621c282c0341a837eb0f104221f8b" true
            "LRUCache::memory_usage()")
          ∷ [])
    ∷ []

abbrev pub functions_b : List Entry
functions_b =
    entry "node_141" "Node"
      (target "../structLRUCache_1_1Node.html#a13a8a4ad5b60cd1cbad4fccd3a6bb7d2" true
        "LRUCache::Node")
      ([])
    ∷ []

abbrev pub functions_c : List Entry
functions_c =
    entry "parse_5fkey_142" "parse_key"
      (target "../blink__server__with__lb_8cpp.html#ac65aea3c57d529ec8802efbffa9e5496" true
        "blink_server_with_lb.cpp")
      ([])
    ∷ entry "parse_5fresp_143" "parse_resp"
        (target "../classServer.html#a0d8d3fd2e86f5a00e97050ce8ec103a9" true "Server") ([])
    ∷ entry "persistencekvstore_144" "PersistenceKVStore"
        (target "../classPersistenceKVStore.html#aa841ef6526c7fb68c6a16e8ba310105f" true
          "PersistenceKVStore")
        ([])
    ∷ entry "printlist_145" "printList"
        (target "../classLRUCache.html#a9af1748666dca7a59fc3480e66f4f12e" true "LRUCache") ([])
    ∷ []

abbrev pub functions_d : List Entry
functions_d =
    entry "rehash_146" "rehash"
      (target "../classDict.html#a4781431d1fd6a49840be7cb3fbe27fcc" true "Dict") ([])
    ∷ entry "remove_147" "remove"
        (target "../classBloomFilter.html#a9cdecd6ed4fff46611f1e0f958aff216" true
          "BloomFilter::remove()")
        ((target "../classDict.html#ae58d28edd0f04172833805f26518351b" true "Dict::remove()")
          ∷ (target "../classPersistenceKVStore.html#a46d823a6b1f2812869fa4fe3c478626c" true
              "PersistenceKVStore::remove()")
          ∷ (target "../classTrie.html#a52af88e2d70a06a7c4a0f75db25be4b2" true "Trie::remove()")
          ∷ [])
    ∷ entry "remove_5fdb_148" "remove_db"
        (target "../classPersistenceKVStore.html#ae55db431a3c5fcfb8f3f6988aafd7c44" true
          "PersistenceKVStore")
        ([])
    ∷ entry "replace_149" "replace"
        (target "../classDict.html#a1c593021f03229abb00ceaff4ef0d79f" true "Dict") ([])
    ∷ []
