-- ===== src/Lib.antt =====
-- Blink DB: its hash table, storage and protocol, and the scripts of its HTML documentation.
--
-- Blink DB is a server for keys and values. A client sends a command as a text of bytes; the server reads
-- its words and calls its database, a cache over a hash table that puts what it gives up into a file, with
-- a trie of the places in the file and a filter of the keys. Its documentation is kept as HTML pages with
-- scripts, under docs/html: a reader types a name in the search box of a page; the box loads a page of
-- results for the first character of the name into a frame, and the script of that page shows the rows
-- whose names begin with what was typed.
--
-- Base: numbers, lists, texts and tests that the parts share. A text is the list of its code units,
-- of 16 bits in the scripts and bytes elsewhere.
--
-- Search: docs/html/search/search.js.
--   Search.Script: the built-in functions of the language that the script calls. `escape` and `unescape`
--     follow the language; the lower case of letters beyond ASCII is left out.
--   Search.Ids: `convertToId`, the spelling of a name in the id of its row.
--   Search.Results: the object `SearchResults` of a page of results, with its rows as records, and its
--     `Search`; Search.Nav: its handlers of the keyboard (`Toggle`, `NavNext`, `NavPrev`, `ProcessKeys`,
--     `Nav`, `NavChild`). The state of the object and the elements it writes are one record; a handler is
--     a function from state to state. The loop of `NavNext` has one round for each row and one more,
--     since the index goes up and ends at the first row that is not there. `focus()` does nothing
--     on a link that the style sheet, docs/html/search/search.css, hides.
--   Search.Tree: the elements of a page, and `FindChildElement`. The loop stands at an element with the
--     siblings behind it and a stack of those behind each parent, and has as many rounds as there are
--     elements: it never comes to one twice.
--   Search.Build: `createResults` makes the rows of a page from its table, `init_search` the selection.
--   Search.Box: the object `SearchBox` with its timers and the elements it writes; Search.Box.Handlers:
--     its handlers; Search.Box.Events: what the user and the window do, in any order. Where the code would
--     stop at a `TypeError` the handler's result is `type_error` with the state reached. The offsets of
--     elements, which the browser computes, are fields of `Config`. When a handler gives or takes the
--     focus of the field, the field's own handler runs at once.
--
-- Index: the tables of docs/html/search, one list of entries for each file, and searchdata.js. Index.Found
-- composes the box, the tables and the page of results.
--
-- Menu: docs/html/menu.js. `makeTree` writes the menu as markup, and `initMenu` puts it in the page with
-- the item of the search box. Menu.Data, Menu.PartA and Menu.PartB are the menus of docs/html/menudata.js
-- and of the same file under bin/part-a and bin/part-b. Menu.Read is a reader of that markup; it has one
-- round for each item and list.
--
-- Sections: docs/html/dynsections.js, what folds on a page: sections, inherited members, and the table of
-- files with its folders and stripes. The elements that a function selects are its argument, with what
-- it changes of them; that an element is visible is a field.
--
-- Trie: lib/tire.h, the trie from keys to places in a file. A key is a list of characters; the nodes
-- that a node leads to are part of its value, since no node is shared; the offset -1 stands for none. The
-- freeing of the nodes is left out. Trie.Store has the map that it stands for.
--
-- Dict: lib/dict.h, the hash table whose entries move to a second table a bucket at a time. A table is the
-- list of its chains, and a read outside of it is `none`. Dict.Chains has the reads and writes of one
-- table, Dict.Rehash `dictRehash`, Dict.Methods the operations of the class, and Dict.Run sequences of calls
-- beside the finite map that the dictionary stands for. The functions on keys are an instance `Key`, of
-- which the one for texts is `stringHash` with `stringCompare`. The fuel: the doubling of a size below 2 ^ 63
-- has 62 rounds, more than it needs; the empty buckets of a rehash are counted as in the code.
--
-- Protocol: lib/client.h and lib/server.h, the requests and answers as texts of bytes. Protocol.Strings is
-- what they use of the language, where an exception is `none`; Protocol.Requests is `encode_command` and
-- `parse_resp`, Protocol.Replies `encode_resp` and `decode_resp`, and Protocol.Commands `handle_command`, over
-- a database that is a parameter, with the calls of the client. What `recv` and `read` give of a message, and the
-- sizes of the two buffers, are a parameter too (`Wire`). A number has 20 digits at most.
--
-- Bloom: lib/bloomfilter.h, with `std::hash` as a parameter.
--
-- Storage: lib/persistence_kv_store.h, a file as the list of its bytes with the trie of places and the filter
-- of keys: `insert`, `get`, `remove`, `syncIndex` at the start, and `triggerRewrite` with the rounds of its
-- scheduler. A loop over the file has a round for each byte, more than it has records. The thread is left out.
-- Storage.Files is the file as a list of records.
--
-- Balancer: lib/load_balancer.h with lib/types.h, the ring of hashes and the choice of a server for a key.
--
-- Lru: lib/lru_cache_v1.h, the cache. Lru.Nodes is the heap of its nodes: a pointer is an address, `nullptr` is
-- 0, and a read or a write through a pointer to no node is `none`. Lru.Cache is the class, over Dict and
-- Storage, with a `size_t` modulo 2 ^ 64; the walk of `printList` has a round for each entry and one more, which
-- is enough. Lru.Order is the list of items in the order of use that the class stands for, and Lru.Served puts the
-- cache into the server of Protocol. Texts are values: what is freed of them is left out. `dictDelete` of lib/dict.h
-- reads a node that it has just freed; the cache counts these reads in a field that the code has not.
--
-- Tests: the theorems at concrete inputs.
--
-- Not modelled: the drawing of elements, jQuery, sockets and their events, threads and locks, and the other C++
-- sources: lru_cache_v0.h of lib, which nothing includes, and src, utils, bin and measure.
pub mod Base
pub mod Search
pub mod Index
pub mod Balancer
pub mod Bloom
pub mod Dict
pub mod Lru
pub mod Menu
pub mod Protocol
pub mod Sections
pub mod Storage
pub mod Trie
mod Tests
