-- ===== src/Index/AllA.antt =====
-- The tables all_0 up to all_b of docs/html/search, one for each page of the index.
use blink_db.Base.{List, [], ◌∷◌, true}
use blink_db.Search.Build.{Entry}
use blink_db.Index.Entries.{entry, target}

abbrev pub all_0 : List Entry
all_0 =
    entry "add_0" "add" (target "../classDict.html#ad7273850719fc8c228cb3e1cb3968b66" true "Dict")
      ([])
    ∷ []

abbrev pub all_1 : List Entry
all_1 =
    entry "blink_5fcli_2ecpp_1" "blink_cli.cpp" (target "../blink__cli_8cpp.html" true "") ([])
    ∷ entry "blink_5fserver_2ecpp_2" "blink_server.cpp"
        (target "../blink__server_8cpp.html" true "") ([])
    ∷ entry "blink_5fserver_5fwith_5flb_2ecpp_3" "blink_server_with_lb.cpp"
        (target "../blink__server__with__lb_8cpp.html" true "") ([])
    ∷ entry "bloomfilter_4" "BloomFilter" (target "../classBloomFilter.html" true "BloomFilter") (
        (target "../classBloomFilter.html#a178749a3f48d7778a6112ae3925082dd" true
          "BloomFilter::BloomFilter()")
        ∷ [])
    ∷ entry "bloomfilter_2eh_5" "bloomfilter.h" (target "../bloomfilter_8h.html" true "") ([])
    ∷ entry "buffer_6" "buffer"
        (target "../classClient.html#a60305bce1344ddf1f28ad1cacc1472e6" true "Client") ([])
    ∷ entry "buffer_5fsize_7" "buffer_size"
        (target "../classClient.html#a05553187a7787130df34c40bbded06f4" true "Client") ([])
    ∷ entry "buffer_5fsize_8" "BUFFER_SIZE"
        (target "../blink__cli_8cpp.html#a6b20d41d6252e9871430c242cb1a56e7" true
          "BUFFER_SIZE():&#160;blink_cli.cpp")
        ((target "../blink__server__with__lb_8cpp.html#a6b20d41d6252e9871430c242cb1a56e7" true
            "BUFFER_SIZE():&#160;blink_server_with_lb.cpp")
          ∷ (target "../blink__server_8cpp.html#a91f806c1bc7c1f4f402a627773840252" true
              "BUFFER_SIZE():&#160;blink_server.cpp")
          ∷ [])
    ∷ []

abbrev pub all_2 : List Entry
all_2 =
    entry "children_9" "children"
      (target "../classTrieNode.html#ab0ebb239b5f94dd1c48ee07106276048" true "TrieNode") ([])
    ∷ entry "client_10" "Client" (target "../classClient.html" true "Client") (
        (target "../classClient.html#a466156b11ab38c497fb63fa08b3eeecd" true "Client::Client()")
        ∷ [])
    ∷ entry "client_2eh_11" "client.h" (target "../client_8h.html" true "") ([])
    ∷ entry "close_5fserver_12" "close_server"
        (target "../classClient.html#a3bb5a5015b59f502e23a9b99ca8b41d1" true "Client") ([])
    ∷ entry "command_5floop_13" "command_loop"
        (target "../blink__cli_8cpp.html#a3d07c9c8554b653b482975f4149bfa06" true "blink_cli.cpp")
        ([])
    ∷ entry "contains_14" "contains"
        (target "../classBloomFilter.html#a30a32da65c9167b1e638db926a90f502" true "BloomFilter")
        ([])
    ∷ entry "create_5fnon_5flocking_5fsocket_15" "create_non_locking_socket"
        (target "../create__non__locking__socket_8h.html#a05a7e9ad0559e723ab0bc57c15684854" true
          "create_non_locking_socket.h")
        ([])
    ∷ entry "create_5fnon_5flocking_5fsocket_2eh_16" "create_non_locking_socket.h"
        (target "../create__non__locking__socket_8h.html" true "") ([])
    ∷ []

abbrev pub all_3 : List Entry
all_3 =
    entry "del_17" "del"
      (target "../classClient.html#a115d5c86cf42098638aa4b262e5afae3" true "Client::del()")
      ((target "../classLRUCache.html#aa60ce37d7cbf1d9314cc85f9548d0055" true
          "LRUCache::del(const std::string &amp;key)")
        ∷ (target "../classLRUCache.html#a8a577f475e65e6e16338e7441634f353" true
            "LRUCache::del(const void *key)")
        ∷ [])
    ∷ entry "dict_18" "Dict" (target "../classDict.html" true "") ([])
    ∷ entry "dict_19" "dict"
        (target "../classLRUCache.html#a6c93033c61478f5392c35b6f1d6cd83b" true "LRUCache") ([])
    ∷ entry "dict_20" "Dict"
        (target "../classDict.html#a8c272756ff370c95a520e16e6064b5a0" true "Dict") ([])
    ∷ entry "dict_2eh_21" "dict.h" (target "../dict_8h.html" true "") ([])
    ∷ []

abbrev pub all_4 : List Entry
all_4 =
    entry "enableresize_22" "enableResize"
      (target "../classDict.html#a5bdef41d123a21fd1201b3f5c6b5f544" true "Dict") ([])
    ∷ entry "encode_5fresp_23" "encode_resp"
        (target "../classServer.html#ada6ecbc37608e0adb2be968f27be28de" true "Server") ([])
    ∷ []

abbrev pub all_5 : List Entry
all_5 =
    entry "file_5foffset_24" "file_offset"
      (target "../classTrieNode.html#a1836e71e2c41bb0f99f00a970491feae" true "TrieNode") ([])
    ∷ entry "find_25" "find"
        (target "../classDict.html#aee0c851f77099933a0925f453a1a7239" true "Dict") ([])
    ∷ entry "freestring_26" "freeString"
        (target "../dict_8h.html#a69beda11346b926623e4309bb18a97ab" true "dict.h") ([])
    ∷ []

abbrev pub all_6 : List Entry
all_6 =
    entry "get_27" "get"
      (target "../classClient.html#af10514dc3fdc66ba070d82a2211d381e" true "Client::get()")
      ((target "../classLRUCache.html#a6eeb3b1895171a5f6c5db63d393128c7" true
          "LRUCache::get(const std::string &amp;key, std::string &amp;value)")
        ∷ (target "../classLRUCache.html#afa9c3e5d273b81c21051a809794ea41d" true
            "LRUCache::get(const void *key)")
        ∷ (target "../classPersistenceKVStore.html#a718ce3a40a4a341b84694c6fa588c362" true
            "PersistenceKVStore::get()")
        ∷ [])
    ∷ entry "get_5fsize_5fof_5fdict_28" "get_size_of_dict"
        (target "../classDict.html#a9ce4d8fa2039d2589d1ccc52bbe64c34" true "Dict") ([])
    ∷ []

abbrev pub all_7 : List Entry
all_7 =
    entry "handle_5fcommand_29" "handle_command"
      (target "../classServer.html#adc733e6b389380f0efe0f5aeaf1cb3b7" true "Server") ([])
    ∷ entry "head_30" "head"
        (target "../classLRUCache.html#a52a4ef73dc27ade730aa121870d40a50" true "LRUCache") ([])
    ∷ []

abbrev pub all_8 : List Entry
all_8 =
    entry "init_31" "init"
      (target "../classServer.html#a1016678b77eacc5aa97f2310f8b442b1" true "Server") ([])
    ∷ entry "insert_32" "insert"
        (target "../classBloomFilter.html#a2543ecabab73c24bec586f6b3b4f4563" true
          "BloomFilter::insert()")
        ((target "../classPersistenceKVStore.html#a6accd3f2351682402ddd870ef6dd11b2" true
            "PersistenceKVStore::insert()")
          ∷ (target "../classTrie.html#a7a13a211287ca69c00368bfde90f1060" true "Trie::insert()")
          ∷ [])
    ∷ entry "ip_33" "ip"
        (target "../structServerAdd.html#ad5b31065e4dcb19cb9794bc659ce9d55" true "ServerAdd") ([])
    ∷ entry "ip_5faddr_34" "ip_addr"
        (target "../classClient.html#a4374f45b8c4cc22dab397c9df0d7639e" true "Client") ([])
    ∷ entry "isdeleted_35" "isDeleted"
        (target "../classTrieNode.html#a0fd0a12ee8f7e229701ba6200ae539cb" true
          "TrieNode::isDeleted()")
        ((target "../classTrie.html#a01acf72e7389880cc4c7ba3377500164" true "Trie::isDeleted()")
          ∷ [])
    ∷ entry "isrehashing_36" "isRehashing"
        (target "../classDict.html#abba811a5858a82e19c316edb6842a89f" true "Dict") ([])
    ∷ []

abbrev pub all_9 : List Entry
all_9 =
    entry "key_37" "key"
      (target "../structLRUCache_1_1Node.html#a02a4dc539def869bdefd36862d333d21" true
        "LRUCache::Node")
      ([])
    ∷ []

abbrev pub all_a : List Entry
all_a =
    entry "load_5fbalancer_2eh_38" "load_balancer.h" (target "../load__balancer_8h.html" true "")
      ([])
    ∷ entry "loadbalancer_39" "LoadBalancer"
        (target "../classLoadBalancer.html" true "LoadBalancer")
        ((target "../classLoadBalancer.html#ab818ebc121c5936dd0304eb463a93906" true
            "LoadBalancer::LoadBalancer()")
          ∷ [])
    ∷ entry "lru_5fcache_5fv0_2eh_40" "lru_cache_v0.h" (target "../lru__cache__v0_8h.html" true "")
        ([])
    ∷ entry "lru_5fcache_5fv1_2eh_41" "lru_cache_v1.h" (target "../lru__cache__v1_8h.html" true "")
        ([])
    ∷ entry "lrucache_42" "LRUCache" (target "../classLRUCache.html" true "LRUCache") (
        (target "../classLRUCache.html#a2c89f2a33f7ddfaabab844533fa9ad00" true
          "LRUCache::LRUCache(size_t max_mem)")
        ∷ (target "../classLRUCache.html#a2c89f2a33f7ddfaabab844533fa9ad00" true
            "LRUCache::LRUCache(size_t max_mem)")
        ∷ [])
    ∷ []

abbrev pub all_b : List Entry
all_b =
    entry "main_43" "main"
      (target "../blink__cli_8cpp.html#ae66f6b31b5ad750f1fe042a706a4e3d4" true
        "main():&#160;blink_cli.cpp")
      ((target "../blink__server_8cpp.html#ae66f6b31b5ad750f1fe042a706a4e3d4" true
          "main():&#160;blink_server.cpp")
        ∷ (target "../blink__server__with__lb_8cpp.html#ae66f6b31b5ad750f1fe042a706a4e3d4" true
            "main():&#160;blink_server_with_lb.cpp")
        ∷ [])
    ∷ entry "max_5fevents_44" "MAX_EVENTS"
        (target "../blink__server__with__lb_8cpp.html#ae42954bb8545d24e3e9dcde5920c9a0b" true
          "MAX_EVENTS():&#160;blink_server_with_lb.cpp")
        ((target "../blink__server_8cpp.html#a55853dfa4cf88a9ab477f598e9f85004" true
            "MAX_EVENTS():&#160;blink_server.cpp")
          ∷ [])
    ∷ entry "max_5fmemory_45" "max_memory"
        (target "../classLRUCache.html#a6f32f17cc2477cbe581fa3c9c3740577" true
          "LRUCache::max_memory() const")
        ((target "../classLRUCache.html#ad3a592727d00864187479cf40bb7bbcd" true
            "LRUCache::max_memory()")
          ∷ [])
    ∷ entry "max_5fmemory_5fbytes_46" "MAX_MEMORY_BYTES"
        (target "../blink__server__with__lb_8cpp.html#a0282585c8da386b1067a7f8204a1f3bc" true
          "MAX_MEMORY_BYTES():&#160;blink_server_with_lb.cpp")
        ((target "../blink__server_8cpp.html#ad38f5707cd5cf10910ca49fe619d8066" true
            "MAX_MEMORY_BYTES():&#160;blink_server.cpp")
          ∷ [])
    ∷ entry "memory_5fusage_47" "memory_usage"
        (target "../classLRUCache.html#ad9a9cbe3eb1ac93828a5ea0b85d2fd6e" true
          "LRUCache::memory_usage() const")
        ((target "../classLRUCache.html#adde621c282c0341a837eb0f104221f8b" true
            "LRUCache::memory_usage()")
          ∷ [])
    ∷ []
