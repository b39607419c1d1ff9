-- ===== src/Lib.antt =====
-- Models of the data structures of the Redis 2.6.16 fork in redis-2.6.16/, and theorems on them.
--
-- The server keeps its keys in a dictionary (redis-2.6.16/src/dict.c) whose entries, in this fork,
-- are handed out by an aggregator (memory_aggregator.c) that packs them into pages of its own.
-- Sets of integers are sorted arrays of bytes (intset.c), and text is turned into integers and
-- back by util.c, which also decides whether a member of a set may go into an intset. All text is
-- kept in dynamic strings (sds.c), and the dump of the data set (rdb.c) writes lengths and integers
-- in a format of its own. Short lists, hashes and sorted sets are kept in ziplists (ziplist.c), which
-- pack strings and integers into one allocation and use the integers of util.c.
--
-- The files, each with its children for lemmas and a child Tests for runs:
--   Prelude     names of the libraries, tests on the native numbers, lists, signed integers;
--   Aggregator  redis-2.6.16/src/memory_aggregator.c and .h. `Pool` holds page_pool,
--               free_page_count and page_pool_size, and the heap of `page_state` structs, from
--               addresses to records. An operation that reads or writes a struct that is not
--               allocated is a fault. `init_page_pool`, `alloc_page`, `remove_page`, `alloc_entry`,
--               `alloc_entry_skip`, `alloc_entry_random` and `set_page_pool_size` are the functions
--               of those names; `select`, `walk`, `place_entry` and `take_entry` are parts of
--               alloc_entry. What mmap, malloc and rand answer are arguments;
--   Intset      redis-2.6.16/src/intset.c and .h. `Intset` has the fields of the struct, with the
--               contents from offsets to bytes. `search`, `add`, `remove`, `find`, `random`, `get_at`
--               and `blob_len` are intsetSearch, intsetAdd, intsetRemove, intsetFind,
--               intsetRandom, intsetGet and intsetBlobLen; `upgrade_and_add`, `move_tail`,
--               `resize`, `get`, `set` and `value_encoding` are the static helpers;
--   Util        `ll2string`, `string2ll` and `string2l` of redis-2.6.16/src/util.c, and Util/Glob
--               its `string_match_len`, for stringmatchlen;
--   Dict        redis-2.6.16/src/dict.c and dict.h: `create`, `expand`, `expand_if_needed`,
--               `resize`, `rehash`, `rehash_once` and `find` are dictCreate, dictExpand,
--               _dictExpandIfNeeded, dictResize, dictRehash, _dictRehashStep and dictFind. The
--               callbacks of the dictionary's type that hash and compare are an interface.
--               Dict/Update has `add_raw`, `add` and `replace` for dictAddRaw, dictAdd and
--               dictReplace, which take their entries from Aggregator. Dict/Hash has the hash functions, and Dict/Iterator dictNext and
--               the making and releasing of iterators;
--   Sds         redis-2.6.16/src/sds.c and sds.h: `Sds` has the header's fields and the allocated
--               bytes. `new_len`, `make_room_for`, `cat_len`, `cpy_len` and `grow_zero` are
--               sdsnewlen, sdsMakeRoomFor, sdscatlen, sdscpylen and sdsgrowzero. Sds/Edit has
--               sdsrange, sdstrim, sdscmp and the loops that map bytes, Sds/Split sdssplitlen, and
--               Sds/Quote sdscatrepr and sdssplitargs;
--   Rdb         redis-2.6.16/src/rdb.c and rdb.h: `save_len`, `load_len`, `encode_integer` and
--               `load_integer` are rdbSaveLen, rdbLoadLen, rdbEncodeInteger and what
--               rdbLoadIntegerObject reads. The stream that is written is an argument;
--   Ziplist     redis-2.6.16/src/ziplist.c: the encodings of entries, with `entry` for zipEntry. A
--               ziplist is the list of its allocated bytes and a pointer an offset. Ziplist/Blob has
--               `insert`, `push_tail`, `push_head`, `resize` and `cascade_update` for
--               __ziplistInsert, ziplistPush, ziplistResize and __ziplistCascadeUpdate,
--               Ziplist/Remove `delete_entries` for __ziplistDelete and its callers, and
--               Ziplist/Visit `index`, `next`, `prev`, `get`, `find`, `compare` and `len` for
--               ziplistIndex and so on. Ziplist/Layout and Ziplist/Nodes say which bytes stand for
--               a list of nodes: a text, and the form of the length field in front.
--
-- Machine integers are numbers with the wrap-around of their width written out; a signed 64-bit
-- value is an integer, with its range where it is read or written. The machine is little-endian,
-- as the byte order macros of endianconv.h do nothing there.
--
-- Loops that are not structural run on fuel. intsetSearch has one more than the length of the set,
-- as each round shortens the interval between min and max; ll2string has 20 rounds, as a 64-bit
-- magnitude has at most 20 digits; _dictNextPower has 62 doublings of 4, which pass LONG_MAX.
-- The inner loops of dictRehash go down the lists they walk. sdssplitlen and sdssplitargs have one
-- round more than the line has bytes, as each round passes a byte or ends; stringmatchlen has two
-- more than the pattern. The cascade, the search and the count of ziplist.c have as many rounds as
-- the ziplist has bytes, and each passes an entry; index is counted down. dictNext passes a chain in
-- each round, and has two more than there are. The indices of intsetSearch are ints in C and numbers
-- here, which agree below 2^30 elements.
--
-- Not modelled: the random choice of a key, the fingerprints, the deletions and the clearing in
-- dict.c, which hand an entry to zfree that stands in a page of the aggregator; the memory sizes of
-- util.c; the printf family of sds.c; the objects, files and compression of rdb.c; lists, zipmaps
-- and sorted sets; ziplistRepr, which prints; the commands, the server, its event loop and its
-- replication, which are mostly system calls; the tools; and the copies of other projects in
-- redis-2.6.16/deps. Allocation does not fail in intset.c, sds.c, ziplist.c and for the tables of
-- dict.c, where zmalloc aborts the process instead. An entry of dict.c is asked of alloc_entry_random,
-- which may exit, fault or answer an address that was handed out before.
-- The numbers of entries and of chains of a dictionary, each of which takes memory, are not wrapped.
pub mod Prelude
pub mod Aggregator
pub mod Intset
pub mod Util
pub mod Dict
pub mod Sds
pub mod Rdb
pub mod Ziplist
