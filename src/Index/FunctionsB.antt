-- ===== src/Index/FunctionsB.antt =====
-- The tables functions_e up to functions_10 of docs/html/search, one for each page of the index.
use blink_db.Base.{List, [], ◌∷◌, true}
use blink_db.Search.Build.{Entry}
use blink_db.Index.Entries.{entry, target}

abbrev pub functions_e : List Entry
functions_e =
    entry "search_150" "search"
      (target "../classTrie.html#a2bbd9365111786a5950407b81df7a59b" true "Trie") ([])
    ∷ entry "server_151" "Server"
        (target "../classServer.html#a3b389299b66aaee992a7d5e8992c9806" true "Server") ([])
    ∷ entry "server_5finit_152" "server_init"
        (target "../classClient.html#ae43c71dba98b9c53c0ce027fe709a26f" true
          "Client::server_init()")
        ((target "../classLoadBalancer.html#a501ac1cc68e80422abcadd40446b1091" true
            "LoadBalancer::server_init()")
          ∷ [])
    ∷ entry "serverthread_153" "serverThread"
        (target "../blink__server__with__lb_8cpp.html#a92c506cc67dab3e3a4bfe3d097190d6f" true
          "blink_server_with_lb.cpp")
        ([])
    ∷ entry "set_154" "set"
        (target "../classClient.html#a3ad5ae59149ce241b7efea71fe065fec" true "Client::set()")
        ((target "../classLRUCache.html#a3d7e71c63a2a8ec8f76bcfe4eb2b2dd8" true
            "LRUCache::set(const std::string &amp;key, const std::string &amp;value)")
          ∷ (target "../classLRUCache.html#a94fd770e6518bc9bb2df581c36c57205" true
              "LRUCache::set(void *key, void *value)")
          ∷ [])
    ∷ entry "set_5fnonblocking_155" "set_nonblocking"
        (target "../set__nonblocking_8h.html#a6f5a4dea41e37713ff3bdb4975bfa592" true
          "set_nonblocking.h")
        ([])
    ∷ entry "size_156" "size"
        (target "../classDict.html#a9cfce08a086df862a97afc0fff66459c" true "Dict::size()")
        ((target "../classLRUCache.html#a4588bb411bfc59180e16e9dd0f4188b2" true
            "LRUCache::size() const")
          ∷ (target "../classLRUCache.html#a18f7a4ee1d05d840a8d0f01e883b7555" true
              "LRUCache::size()")
          ∷ [])
    ∷ entry "stringcompare_157" "stringCompare"
        (target "../dict_8h.html#a17315bf7519654861352381302cd40c6" true "dict.h") ([])
    ∷ entry "stringdup_158" "stringDup"
        (target "../dict_8h.html#a15f763264871634cb309b4bc7208ec2e" true "dict.h") ([])
    ∷ entry "stringhash_159" "stringHash"
        (target "../dict_8h.html#aa501d8459078506f4e594b6dcd08bba7" true "dict.h") ([])
    ∷ []

abbrev pub functions_f : List Entry
functions_f =
    entry "trie_160" "Trie"
      (target "../classTrie.html#a6af57e9f25d0d0a2d59eea5a4a802908" true "Trie") ([])
    ∷ []

abbrev pub functions_10 : List Entry
functions_10 =
    entry "_7eclient_161" "~Client"
      (target "../classClient.html#a840e519ca781888cbd54181572ebe3a7" true "Client") ([])
    ∷ entry "_7edict_162" "~Dict"
        (target "../classDict.html#a46561fe694c0bba6e7ed3703c47bf43f" true "Dict") ([])
    ∷ entry "_7eloadbalancer_163" "~LoadBalancer"
        (target "../classLoadBalancer.html#a69951a7bb77be7fafd4d5ad6919abd80" true "LoadBalancer")
        ([])
    ∷ entry "_7elrucache_164" "~LRUCache"
        (target "../classLRUCache.html#ac841ed5b67e603f2878c26ea7555385f" true "LRUCache") ([])
    ∷ entry "_7epersistencekvstore_165" "~PersistenceKVStore"
        (target "../classPersistenceKVStore.html#a89204ac72bb8e48292fb831314017bdf" true
          "PersistenceKVStore")
        ([])
    ∷ entry "_7eserver_166" "~Server"
        (target "../classServer.html#a4b3aa2579cb1c8cd1d069582c14d0fa6" true "Server") ([])
    ∷ entry "_7etrie_167" "~Trie"
        (target "../classTrie.html#abf9d6f48d556e09d1b292412df153a4b" true "Trie") ([])
    ∷ []
