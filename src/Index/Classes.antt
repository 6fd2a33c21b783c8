-- ===== src/Index/Classes.antt =====
-- The tables classes_0 up to classes_7 of docs/html/search, one for each page of the index.
use blink_db.Base.{List, [], ◌∷◌, true}
use blink_db.Search.Build.{Entry}
use blink_db.Index.Entries.{entry, target}

abbrev pub classes_0 : List Entry
classes_0 =
    entry "bloomfilter_90" "BloomFilter" (target "../classBloomFilter.html" true "") ([]) ∷ []

abbrev pub classes_1 : List Entry
classes_1 = entry "client_91" "Client" (target "../classClient.html" true "") ([]) ∷ []

abbrev pub classes_2 : List Entry
classes_2 = entry "dict_92" "Dict" (target "../classDict.html" true "") ([]) ∷ []

abbrev pub classes_3 : List Entry
classes_3 =
    entry "loadbalancer_93" "LoadBalancer" (target "../classLoadBalancer.html" true "") ([])
    ∷ entry "lrucache_94" "LRUCache" (target "../classLRUCache.html" true "") ([])
    ∷ []

abbrev pub classes_4 : List Entry
classes_4 =
    entry "node_95" "Node" (target "../structLRUCache_1_1Node.html" true "LRUCache") ([]) ∷ []

abbrev pub classes_5 : List Entry
classes_5 =
    entry "persistencekvstore_96" "PersistenceKVStore"
      (target "../classPersistenceKVStore.html" true "") ([])
    ∷ []

abbrev pub classes_6 : List Entry
classes_6 =
    entry "server_97" "Server" (target "../classServer.html" true "") ([])
    ∷ entry "serveradd_98" "ServerAdd" (target "../structServerAdd.html" true "") ([])
    ∷ []

abbrev pub classes_7 : List Entry
classes_7 =
    entry "trie_99" "Trie" (target "../classTrie.html" true "") ([])
    ∷ entry "trienode_100" "TrieNode" (target "../classTrieNode.html" true "") ([])
    ∷ []
