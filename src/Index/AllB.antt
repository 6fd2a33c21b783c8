-- ===== src/Index/AllB.antt =====
-- The tables all_c up to all_12 of docs/html/search, one for each page of the index.
use blink_db.Base.{List, [], ◌∷◌, true}
use blink_db.Search.Build.{Entry}
use blink_db.Index.Entries.{entry, target}

abbrev pub all_c : List Entry
all_c =
    entry "next_48" "next"
      (target "../structLRUCache_1_1Node.html#af51c25bbd46f542237f5c0b61638f248" true
        "LRUCache::Node")
      ([])
    ∷ entry "node_49" "Node" (target "../structLRUCache_1_1Node.html" true "LRUCache::Node") (
        (target "../structLRUCache_1_1Node.html#a13a8a4ad5b60cd1cbad4fccd3a6bb7d2" true
          "LRUCache::Node::Node()")
        ∷ [])
    ∷ []

abbrev pub all_d : List Entry
all_d =
    entry "parse_5fkey_50" "parse_key"
      (target "../blink__server__with__lb_8cpp.html#ac65aea3c57d529ec8802efbffa9e5496" true
        "blink_server_with_lb.cpp")
      ([])
    ∷ entry "parse_5fresp_51" "parse_resp"
        (target "../classServer.html#a0d8d3fd2e86f5a00e97050ce8ec103a9" true "Server") ([])
    ∷ entry "persistence_5fkv_5fstore_2eh_52" "persistence_kv_store.h"
        (target "../persistence__kv__store_8h.html" true "") ([])
    ∷ entry "persistencekvstore_53" "PersistenceKVStore"
        (target "../classPersistenceKVStore.html" true "PersistenceKVStore")
        ((target "../classPersistenceKVStore.html#aa841ef6526c7fb68c6a16e8ba310105f" true
            "PersistenceKVStore::PersistenceKVStore()")
          ∷ [])
    ∷ entry "port_54" "port"
        (target "../classClient.html#aad8864d1362eae7c50e53c0d131b7442" true "Client::port()")
        ((target "../structServerAdd.html#adc3d13d9d6ce5af3f6cc1551b60bc676" true
            "ServerAdd::port()")
          ∷ [])
    ∷ entry "prev_55" "prev"
        (target "../structLRUCache_1_1Node.html#a7a0c9f61581b9b06cdbbc15b641f6967" true
          "LRUCache::Node")
        ([])
    ∷ entry "printlist_56" "printList"
        (target "../classLRUCache.html#a9af1748666dca7a59fc3480e66f4f12e" true "LRUCache") ([])
    ∷ []

abbrev pub all_e : List Entry
all_e =
    entry "rehash_57" "rehash"
      (target "../classDict.html#a4781431d1fd6a49840be7cb3fbe27fcc" true "Dict") ([])
    ∷ entry "remove_58" "remove"
        (target "../classBloomFilter.html#a9cdecd6ed4fff46611f1e0f958aff216" true
          "BloomFilter::remove()")
        ((target "../classDict.html#ae58d28edd0f04172833805f26518351b" true "Dict::remove()")
          ∷ (target "../classPersistenceKVStore.html#a46d823a6b1f2812869fa4fe3c478626c" true
              "PersistenceKVStore::remove()")
          ∷ (target "../classTrie.html#a52af88e2d70a06a7c4a0f75db25be4b2" true "Trie::remove()")
          ∷ [])
    ∷ entry "remove_5fdb_59" "remove_db"
        (target "../classPersistenceKVStore.html#ae55db431a3c5fcfb8f3f6988aafd7c44" true
          "PersistenceKVStore")
        ([])
    ∷ entry "replace_60" "replace"
        (target "../classDict.html#a1c593021f03229abb00ceaff4ef0d79f" true "Dict") ([])
    ∷ []

abbrev pub all_f : List Entry
all_f =
    entry "search_61" "search"
      (target "../classTrie.html#a2bbd9365111786a5950407b81df7a59b" true "Trie") ([])
    ∷ entry "server_62" "Server"
        (target "../classServer.html#a3b389299b66aaee992a7d5e8992c9806" true "Server::Server()")
        ((target "../classServer.html" true "Server") ∷ [])
    ∷ entry "server_2eh_63" "server.h" (target "../server_8h.html" true "") ([])
    ∷ entry "server_5finit_64" "server_init"
        (target "../classClient.html#ae43c71dba98b9c53c0ce027fe709a26f" true
          "Client::server_init()")
        ((target "../classLoadBalancer.html#a501ac1cc68e80422abcadd40446b1091" true
            "LoadBalancer::server_init()")
          ∷ [])
    ∷ entry "server_5fip_65" "SERVER_IP"
        (target "../blink__server_8cpp.html#a8020ab8a401927e9dee707e5336e4d0c" true
          "SERVER_IP():&#160;blink_server.cpp")
        ((target "../blink__server__with__lb_8cpp.html#a28d06fc286f28044ed3380969700ff3f" true
            "SERVER_IP():&#160;blink_server_with_lb.cpp")
          ∷ (target "../blink__cli_8cpp.html#a28d06fc286f28044ed3380969700ff3f" true
              "SERVER_IP():&#160;blink_cli.cpp")
          ∷ [])
    ∷ entry "server_5fport_66" "SERVER_PORT"
        (target "../blink__server__with__lb_8cpp.html#ac42367fe5c999ec6650de83e9d72fe8c" true
          "SERVER_PORT():&#160;blink_server_with_lb.cpp")
        ((target "../blink__cli_8cpp.html#ac42367fe5c999ec6650de83e9d72fe8c" true
            "SERVER_PORT():&#160;blink_cli.cpp")
          ∷ (target "../blink__server_8cpp.html#ab35eb3c36c30bc69081c8150faa6aa94" true
              "SERVER_PORT():&#160;blink_server.cpp")
          ∷ [])
    ∷ entry "serveradd_67" "ServerAdd" (target "../structServerAdd.html" true "") ([])
    ∷ entry "serverthread_68" "serverThread"
        (target "../blink__server__with__lb_8cpp.html#a92c506cc67dab3e3a4bfe3d097190d6f" true
          "blink_server_with_lb.cpp")
        ([])
    ∷ entry "set_69" "set"
        (target "../classLRUCache.html#a94fd770e6518bc9bb2df581c36c57205" true
          "LRUCache::set(void *key, void *value)")
        ((target "../classLRUCache.html#a3d7e71c63a2a8ec8f76bcfe4eb2b2dd8" true
            "LRUCache::set(const std::string &amp;key, const std::string &amp;value)")
          ∷ (target "../classClient.html#a3ad5ae59149ce241b7efea71fe065fec" true "Client::set()")
          ∷ [])
    ∷ entry "set_5fnonblocking_70" "set_nonblocking"
        (target "../set__nonblocking_8h.html#a6f5a4dea41e37713ff3bdb4975bfa592" true
          "set_nonblocking.h")
        ([])
    ∷ entry "set_5fnonblocking_2eh_71" "set_nonblocking.h"
        (target "../set__nonblocking_8h.html" true "") ([])
    ∷ entry "size_72" "size"
        (target "../classLRUCache.html#a18f7a4ee1d05d840a8d0f01e883b7555" true "LRUCache::size()")
        ((target "../classLRUCache.html#a4588bb411bfc59180e16e9dd0f4188b2" true
            "LRUCache::size() const")
          ∷ (target "../classDict.html#a9cfce08a086df862a97afc0fff66459c" true "Dict::size()")
          ∷ [])
    ∷ entry "storage_73" "storage"
        (target "../classLRUCache.html#a649de5d420fb7b1799df15fb79108ba1" true "LRUCache") ([])
    ∷ entry "stringcompare_74" "stringCompare"
        (target "../dict_8h.html#a17315bf7519654861352381302cd40c6" true "dict.h") ([])
    ∷ entry "stringdup_75" "stringDup"
        (target "../dict_8h.html#a15f763264871634cb309b4bc7208ec2e" true "dict.h") ([])
    ∷ entry "stringhash_76" "stringHash"
        (target "../dict_8h.html#aa501d8459078506f4e594b6dcd08bba7" true "dict.h") ([])
    ∷ []

abbrev pub all_10 : List Entry
all_10 =
    entry "tail_77" "tail"
      (target "../classLRUCache.html#aa33cac6a0b065de0e3bf816e63c953f7" true "LRUCache") ([])
    ∷ entry "tire_2eh_78" "tire.h" (target "../tire_8h.html" true "") ([])
    ∷ entry "trie_79" "Trie" (target "../classTrie.html" true "Trie")
        ((target "../classTrie.html#a6af57e9f25d0d0a2d59eea5a4a802908" true "Trie::Trie()") ∷ [])
    ∷ entry "trienode_80" "TrieNode" (target "../classTrieNode.html" true "") ([])
    ∷ entry "types_2eh_81" "types.h" (target "../types_8h.html" true "") ([])
    ∷ []

abbrev pub all_11 : List Entry
all_11 =
    entry "value_82" "value"
      (target "../structLRUCache_1_1Node.html#a2b7c28f452d179cbcdda8f4624767efa" true
        "LRUCache::Node::value()")
      ((target "../classLRUCache.html#a78587edf7aae631e794a6b11b3229dfb" true "LRUCache::value()")
        ∷ [])
    ∷ []

abbrev pub all_12 : List Entry
all_12 =
    entry "_7eclient_83" "~Client"
      (target "../classClient.html#a840e519ca781888cbd54181572ebe3a7" true "Client") ([])
    ∷ entry "_7edict_84" "~Dict"
        (target "../classDict.html#a46561fe694c0bba6e7ed3703c47bf43f" true "Dict") ([])
    ∷ entry "_7eloadbalancer_85" "~LoadBalancer"
        (target "../classLoadBalancer.html#a69951a7bb77be7fafd4d5ad6919abd80" true "LoadBalancer")
        ([])
    ∷ entry "_7elrucache_86" "~LRUCache"
        (target "../classLRUCache.html#ac841ed5b67e603f2878c26ea7555385f" true "LRUCache") ([])
    ∷ entry "_7epersistencekvstore_87" "~PersistenceKVStore"
        (target "../classPersistenceKVStore.html#a89204ac72bb8e48292fb831314017bdf" true
          "PersistenceKVStore")
        ([])
    ∷ entry "_7eserver_88" "~Server"
        (target "../classServer.html#a4b3aa2579cb1c8cd1d069582c14d0fa6" true "Server") ([])
    ∷ entry "_7etrie_89" "~Trie"
        (target "../classTrie.html#abf9d6f48d556e09d1b292412df153a4b" true "Trie") ([])
    ∷ []
