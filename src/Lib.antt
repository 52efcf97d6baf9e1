-- ===== src/Lib.antt =====
-- Redis 2.8: a server that keeps data structures in memory and answers commands over the network.
--
-- The program consists of data structures (struct/), the commands of the data types and the
-- databases (data/), the services of the server (main/, wrapper/) and helpers (tool/). A client's
-- command is parsed by the network code, queued if the client is in a transaction, and run by
-- `call`; commands read and write the databases, which are dictionaries, and a write touches the
-- watched keys. The development models the dictionary, transactions, publish and subscribe, the
-- slow log, linked lists, skip lists, integer sets, patterns, requests, the cutting and quoting of
-- strings, and the conversion between numbers and text.
--
-- File and part:
--   Dict            struct/dict.c and struct/dict.h. `Dict` is `dict`, `Table` is `dictht`, a chain is
--                   a list of `Entry`. `find`, `add`, `replace` and `generic_delete` are dictFind,
--                   dictAdd, dictReplace and dictGenericDelete; `rehash` and `rehash_step` are
--                   dictRehash and _dictRehashStep; `expand`, `resize`, `clear` are dictExpand,
--                   dictResize and dictEmpty.
--   Clients         the lists of clients under a key, which data/multi.c and wrapper/pubsub.c share.
--   Multi           data/multi.c: MULTI, EXEC, DISCARD, WATCH, UNWATCH and the marking of clients whose
--                   keys are written or flushed. The functions have the names of the source in antt's
--                   spelling. `client` of `Server` is the heap that client pointers lead into.
--   Pubsub          wrapper/pubsub.c: subscriptions, publishing, and the six commands.
--   Slowlog         wrapper/slowlog.c: entries, the trimming of the log, and the command SLOWLOG.
--   Sds             struct/sds.c: sdsrange, sdscatrepr, sdssplitargs, sdsll2str, sdsull2str.
--   Adlist          struct/adlist.c and struct/adlist.h: linked lists in a heap of nodes. `Handle` is
--                   `list`; the functions have the names of the source in antt's spelling.
--   Intset          struct/intset.c and struct/intset.h: integer sets on the bytes of their block. The
--                   functions have the names of the source; `intset_get_at` is _intsetGet.
--   Skiplist        struct/t_zset.c: the skip list of a sorted set. A node's address, key and height are
--                   a `Cell`; `walk` is the loop along a level and `search` the search of zslInsert,
--                   whose loops are `raise_loop`, `splice_loop` and `stretch_loop`. Skiplist.Deleting is
--                   zslDelete and zslDeleteNode. The functions have the names of the source.
--   Util.Glob       tool/util.c: stringmatchlen, with the functions of its loops; `none` is a read
--                   beyond the NUL of the pattern or of the string.
--   Util.Number     tool/util.c: digits10, ll2string, string2ll, string2l.
--   Networking      net/networking.c: the requests in a client's query buffer, processInputBuffer,
--                   processInlineBuffer and processMultibulkBuffer by the names of the source.
--   Base            shared names, tests, lists, integers, blocks of bytes with memmove and realloc, and
--                   dictionaries as their clients see them.
--
-- The parts meet in three places. Multi and Pubsub use dictionaries through `Base.Maps`, a list of
-- bindings with the operations of struct/dict.c as their clients see them, and both keep lists of
-- clients by the functions of Clients. Networking reads numbers by `string2ll` of Util.Number, and
-- cuts its buffer and splits its lines by `sdsrange` and `sdssplitargs` of Sds.
--
-- Bounds and fuel: `next_power_loop` gets 64 rounds, and at most 61 doublings take the initial
-- size to 2^63, above which `next_power` does not start the loop. `print_loop` gets 20 rounds,
-- each of which prints two digits, and a 64-bit number has at most 20 digits. `exec_loop` gets as
-- many rounds as commands are queued, and `trim_loop` as many as the log has entries. `low_digits`
-- gets 24 rounds, of a digit each. `in_quotes` and `split_loop` get as many as there are bytes, of
-- which each round takes one at least. `search_loop` gets one round more than the set has integers,
-- and stops by itself before they run out, since each round makes the range of places smaller; `search_key_loop` gets one round more than the
-- list has nodes, and so does `walk`. `match_loop` gets one round more than the pattern has bytes, and each takes one.
-- `release_loop` takes the length of the list, which the C loop counts down too. `input_loop` gets
-- one round more than the buffer has bytes, and a round that goes on takes one at least. All other
-- loops are structural.
--
-- Widths: the `int` for a bucket's index and for the size asked for by dictResize suppose tables of
-- fewer than 2^31 buckets, the positions in a query buffer and the arguments of sdsrange fewer than
-- 2^31 bytes, and the product in dictExpand fewer than 2^61 buckets. The spans of a skip list do not
-- wrap in the model. list_index takes any number, where C cannot negate LONG_MIN.
--
-- Parameters stand for hash functions and the comparison of keys, for `call`, processCommand, `strcasecmp`,
-- `isprint`, `isspace`, `sdscatprintf`, `getLongFromObjectOrReply`, the clock, and
-- slowlog.h, which the repository does not hold; for the addresses that `zmalloc` returns, the bytes
-- that `zrealloc` leaves in new memory, the number that `rand` gives, the draws of `random` by
-- zslRandomLevel, the comparisons of scores and of objects, and `tolower`. Publishing is
-- modelled for any function in the place of `stringmatchlen`.
--
-- Not modelled: the databases and data types, the reply buffers and sockets of the network code, the
-- iterators of the dictionary, listDup, ziplists, and of sorted sets the commands, the ranges and
-- zslFree. Persistence, replication, the cluster's tools, the event loop, memory allocation and
-- reference counts are input and output or belong to the runtime.
pub mod Adlist
pub mod Base
pub mod Clients
pub mod Dict
pub mod Intset
pub mod Multi
pub mod Networking
pub mod Pubsub
pub mod Sds
pub mod Skiplist
pub mod Slowlog
pub mod Util
