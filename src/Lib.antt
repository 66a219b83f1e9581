-- ===== src/Lib.antt =====
-- Ferrox: a matching engine for limit orders, with its wire format and the loop that runs commands.
--
-- A client's bytes are decoded to commands (src/protocol.rs). The matching thread takes them off a
-- ring and runs them (src/gateway.rs) on the engine (src/matching.rs), which matches an order with
-- the makers of the other side and rests what is left in the order book (src/book.rs). The book
-- keeps its price levels as intrusive doubly linked lists over an arena of slots (src/arena.rs),
-- next to the cached best prices and an index from order ids to slots.
-- Each command is appended to a log (src/wal.rs) and snapshots of the book are saved (src/snapshot.rs),
-- from which the engine is rebuilt at the start (src/recovery.rs).
--
-- Prelude: shared names, lists and signed integers over native numbers, `Result`, and `Returns P m`,
--   which states that `m` does not panic and returns what satisfies `P`.
-- Order: src/order.rs, `Side`, `Order` and `Order::new`.
-- Arena: src/arena.rs. `Arena` holds `storage`, `free_head`, `count` and `capacity`; `alloc`, `dealloc`,
--   `push_back`, `pop_front` and `remove` are the methods of these names. Arena/Seg and Arena/Level
--   say what a linked level stands for, a list of cells, and Arena/Pool what the free list is.
-- Collections: what the code uses of `BTreeMap` and `HashMap`, as association lists, the first in
--   ascending order. They are data of the standard library, with its documented behaviour.
-- Book: src/book.rs. `insert_order`, `cancel_order`, `peek_front`, `reduce_front_quantity` and
--   `all_resting_orders` are the methods of these names; `insert_at`, `cancel_at`, `reduce_at`, `drop_front`
--   and `settle_level` are parts of their bodies. Book/View holds the invariant `IsBook b v`: the book
--   `b` stands for the view `v`, the queues of both sides and the free slots.
-- Matching: src/matching.rs. `add_order` is the method; `match_loop`, `round`, `meet` and `trade` are its
--   loop and the parts of its body, `conclude` what follows. The two loops of the source differ in the
--   side alone and are one function of it. Matching/Sweep says what the loop does on the queues alone.
-- Reference: tests/book_model.rs, the naive reference book, a flat list of orders that is scanned for the
--   best maker, with `ref_add`, `ref_cancel`, `ref_best_bid`, `ref_best_ask` and `canonical` for its
--   methods, and `run_differential` of the same file. Reference/Maker holds `Stands`, when a flat list
--   stands for the view of a book, and Reference/Every gives one for every book.
-- Protocol: src/protocol.rs, the encoders and decoders over lists of bytes.
-- Ring: src/ring.rs. `push_step` and `pop_step` are the methods `push` and `pop`, one access to shared
--   memory at a time; a load may see any value that the cursor has had since the one seen before, as
--   acquire and release allow. Ring/Inv ties the ring to the queue that it stands for, Ring/Steps is
--   the interleaving of the two threads. `drop_all` is the `drop` of the ring.
-- Gateway: src/gateway.rs, `process_command` and the commands that the matching thread runs one after
--   the other. The log is an interface, an `append` with the law that it does not panic and keeps an
--   invariant, which Gateway/Log fills with that of src/wal.rs; what is sent over UDP is a list.
--   Gateway/Loop: `matching_loop` on a
--   list of what the ring and the shutdown flag show. Gateway/Client: `handle_client` over the bytes of a
--   stream that is closed at their end.
-- Wal: src/wal.rs over the bytes of the file, with the checksum, the calls that the system grants when
--   a log is opened (`OpenCall`) and the sizes that it grants a growing file as parameters. A refused
--   call of `open_with_size` is `or_io`: the error, and the bytes that the file has then. `open_with_size`, `append`, `truncate_to`, `ensure_capacity` and
--   `scan_records` are the functions of these names, `scan_at` is the body of the loop of the last.
--   Wal/Records says what the bytes of records are, Wal/Open holds the invariant `IsWal crc w es`: the
--   log `w` is the records `es` and then zeros. Wal/Iter: `WalIterator`, whose `next` is a loop over
--   `next_turn`.
-- Snapshot: src/snapshot.rs. A directory is a list of files with their names and bytes, in any order
--   (Snapshot/Files), which are there too where the directory is `unreadable`, so that it cannot be
--   listed; the binary format and the checksum are the parameter `Format`, what the calls of
--   the file system come to is a `FileSystem`. `first_good` is the loop of `load_latest`.
-- Recovery: src/recovery.rs. `replay` is the loop of `recover_with_wal_size`, `stop_at` its arms for an
--   error, `start_from` the choice of the engine and the record that it starts from.
--
-- A panic is `none`, an error a value beside the state that the code leaves. Arithmetic is that of
-- a release build: a `u64` sum wraps, such as that of `ensure_capacity` and the counter of the matching
-- loop, but for positions within a mapping and the number of its records, which its length bounds, so
-- that they are written without the wrap, and but for the tests, where the sequence number of the
-- reference panics. Ids and timestamps are numbers with no bound where the code does no arithmetic
-- on them. Fuel: `match_loop` gets one round more than there are resting orders, since a round
-- ends the loop, finishes the order or takes a maker off the book, and `match_all` of the
-- reference likewise; `handle_client` gets one turn more than there are bytes, since a turn reads
-- one at least; the loops of `all_resting_orders` get one more than the arena has slots, that of
-- `drop_all` one more than the ring has; `scan_records` gets one turn more than there are bytes,
-- since a record has some; `next` is given any fuel, and one turn more than there are records is
-- enough; `replay` gets one turn more than the log has bytes; `digits` gets 20, as many digits as
-- a `u64` has at most.
--
-- Not modelled: the padding of a node, printers, sockets and threads, the strategies that draw the
-- operations of the differential test, metrics (src/metrics.rs, src/alloc_track.rs), the C++ port,
-- benchmarks, examples and scripts.
pub mod Prelude
pub mod Order
pub mod Arena
pub mod Collections
pub mod Book
pub mod Matching
pub mod Reference
pub mod Protocol
pub mod Ring
pub mod Gateway
pub mod Recovery
pub mod Snapshot
pub mod Wal
