-- ===== src/Lib.antt =====
-- Mini-Key-Value-Store: an in-memory key-value cache with expiry, a memory budget, least-recently-
-- used eviction, counters and compare-and-swap, served over TCP. This development is about the
-- storage engine (the Go package internal/store), the parser of the wire protocol
-- (internal/protocol), the server (internal/server) that reads commands with the parser, runs them
-- on the store and writes replies, the configuration file (internal/config), the command that loads
-- it and starts the store and the server (cmd/minikv), and of the benchmark the client of this
-- server (internal/benchmark) and the choice of services (cmd/minikv-bench).
--
-- The parts and their files. A path in a comment is that of the repository.
-- - internal/store/lru.go, the intrusive list of recency: Lru.antt. A list is its head and tail
--   with the `prev` and `next` fields of all items in one heap (`links`), and each assignment to
--   a field is a write to the heap. Lru/Seg, Lru/Chain, Lru/Unlink and Lru/Moves relate the
--   pointers to a list of addresses.
-- - internal/store/shard.go, one shard: Shard.antt has the internal steps (deleteLocked,
--   removeExpiredLocked, evictUntilFitsLocked, cleanupExpired) and Shard/Methods.antt the methods
--   (set, get, cas, delete, incr). Where two methods share a block of code, the block is one
--   function here (`rewrite`, `evict_room`, `update_room`). Shard/Repr says when a shard represents
--   a list of items; Shard/Sweep, Walk, Evict, Write and Room follow that through the steps;
--   Shard/Refine is the refinement of the abstract cache, and Shard/Observe what a client sees.
--   Shard/Ints and Shard/Machine have the writes with the sums that the machine makes.
-- - internal/store/store.go: Item.antt (items, errors, expiry), Store.antt (Set, Get, Delete, Incr,
--   Cas, CleanupExpired, MemoryBytes, Stats, shardIndex), Store/Config.antt (Config, New,
--   normalizeConfig). Store/Valid and Store/Calls have the invariant and sequences of calls;
--   Store/Turns and Store/Sweeps have the loop of CleanupExpired in turns between calls that come
--   from elsewhere, and Store/Ints calls whose sums fit an `int`.
--   Store/Versions, Advance and Unique follow the versions of the items along the calls, with
--   Cache/Stamps for those that the abstract cache gives.
-- - internal/protocol/protocol.go: Protocol.antt (Command, the errors), Protocol/Reader (reads
--   from the stream), Protocol/Fields (strings.Fields and ToLower on UTF-8), Protocol/Tokens
--   (validKey, parseUintToken, parseByteCount, keysFromFields) and Protocol/Parser (ReadCommand).
--   Lines, Values, Requests and Roundtrip are about printed requests, Consumes about what a read
--   uses up, Arguments and Checked about what a command has passed, and Panics about the size of
--   a value.
-- - internal/server/server.go: Server.antt (New, WithAuthToken, counters, replies),
--   Server/Execute (execute), Server/Wire (the bytes of the replies), Server/Snapshot (Stats,
--   writeStats), Server/Loop (Serve, handleAuthGate), Server/Conn (serveConn, handleReadError),
--   Server/Slots (ServeConn, acquireSlot, WithMaxConnections) and Server/Shutdown. Answers, Runs,
--   Auth, Ends and Session are about them. Server/Lifecycle has the single steps of ServeConn and
--   Shutdown, in any order among the connections, with Counts, Balance and Drains
--   about what the set of connections and the wait group hold along them.
-- - internal/config/config.go: Config.antt (Config, Default, TLSEnabled), Config/Load (validate,
--   Load) and Config/Fields (setField, parseInt), on the parts of Go's library that they use:
--   Text (TrimSpace, HasPrefix, Cut), Scanner (bufio.Scanner), Integer (strconv.Atoi), Duration
--   (time.ParseDuration) and Float (its float64 step). Config/Print prints a configuration as an
--   operator writes it; Ranges, InRange and Valid are about what Load accepts, Numbers, Lines,
--   Entries, Shape and RoundTrip about printed files, BadLine about errors and Progress about
--   fuel.
-- - cmd/minikv/main.go: Minikv.antt (loadConfig, listen, the configuration of the store),
--   Minikv/Accept (the accept loop of run), Minikv/Cleanup (cleanupExpired, whose sweeps
--   lock one shard at a time, between calls of the connections) and Minikv/Doctor (doctorHandler).
--   Minikv/Safe joins them to Config and Store.
-- - internal/benchmark: Benchmark.antt has workerSlice of runner.go, and Benchmark/Client the
--   client of this server of clients.go; Replies and EndToEnd run it against the parser and the
--   server.
-- - cmd/minikv-bench/main.go: MinikvBench.antt has selectServices.
-- - Go's map is Table.antt, and strconv.ParseUint and FormatUint are Decimal.antt.
-- - The abstract view is Recency.antt, a list of items with the most recently used first, and the
--   specification Cache.antt is the methods on that list: no table, no pointers and no counters.
-- - Prelude.antt and its children are shared helpers; Tests.antt and its children are examples.
--
-- How the code is modelled.
-- - A method runs under the mutex of its shard, so it is one step from state to state. It reads
--   the clock at most once, and that reading is its argument `now`. A time is the number of
--   nanoseconds since the zero time of Go, in ℕ; a TTL is an integer, and one that is not
--   positive sets no expiry.
-- - The CAS counter is shared by the shards; a method takes and returns it. It and the counters of
--   evictions and expirations wrap at 2^64 as uint64 does. Sums of an `int` (memory, sizes) are
--   exact in ℕ, where Go's wrap past 2^63. Shard/Ints defines the wrapping sums and comparisons,
--   Shard/Machine the writes with them (`int_set`, `int_cas`, `int_incr`), and the theorems that depend
--   on them are about these, or about calls that are the same with them. A difference
--   stops at 0, and the sizes of stored items are part of the total, so that the differences are
--   those of the code.
-- - A pointer to an item is the key of the item. The map holds an item under its own key, so the
--   pointer and the table name the same object.
-- - A map is walked in the order of its table. Go's order is arbitrary; the specification
--   of a sweep says nothing of that order.
-- - The eviction runs on fuel, one more than the number of items, since a round evicts one; the
--   walk past the protected item has the same fuel, since it passes each item at most once. A
--   uint64 has at most 20 digits, which is the fuel of their printing.
-- - The parser takes the bytes that are left of the stream and returns what is left after it. The
--   line buffer of bufio.NewReader has 4096 bytes. `max_alloc` is a parameter: the most bytes
--   that the runtime allocates at once; past it, or past the last int, `make` panics. An error of
--   a read other than the end of the stream is not modelled.
-- - A reply of the server is a value, whose bytes Server/Wire and Snapshot have, and writing
--   always succeeds. A deadline of a read is one of the ways in which the stream ends. The turns
--   of the loop run on fuel, the length of the input and one more: a turn that goes on has used
--   up input.
-- - In Server/Slots the start of ServeConn and its deferred calls are one step each of the state of
--   all connections. Server/Lifecycle splits them into the single accesses of shared state, as a
--   step function on schedules: the membership in `conns` is a flag of the connection, and the end
--   of `wg.Wait` and the return of Shutdown are one step. A read may give a command also when the
--   deadline has passed, since the reader has a buffer, and may fail at any time.
-- - A printed request has keys and a token of printable ASCII (bytes 33 to 126); the parser accepts
--   more, such as bytes from 128 on, as long as strings.Fields sees no white space in them.
-- - `none` of a call of the store is Go's panic for an index out of range or a division by zero.
-- - bufio.Scanner gives lines of less than 65536 bytes and fails at a longer one. An `int` of the
--   configuration is an integer, and a number out of the range of int64 is refused as Atoi does.
--   ParseDuration runs on fuel, the length of its text: a component uses up at least one byte. Its
--   sums wrap at 2^64, and its float64 is a fraction that is rounded to 53 bits at each operation,
--   without a bound of the exponent, which the values here do not reach.
-- - The file system, the network and the certificates are arguments of the definitions of Minikv. A
--   file is the bytes that a read gives, with the error that it ends in.
--
-- Not modelled: the interleaving of calls inside Stats and MemoryBytes, which lock one shard after
-- the other; the copying of values, which are immutable here; of the server, the errors of a
-- write and the options that only store an argument; of cmd/minikv, signals, logging, the HTTP
-- listener with its routes and profiles, and the texts of the lines of /doctor; of the benchmark,
-- the goroutines of the runner, the statistics and the printed table, the clients of Redis and
-- memcached, which talk to programs that are not part of the repository, and the flags, dialling
-- and printing of cmd/minikv-bench.
pub mod Prelude
pub mod Config
pub mod Lru
pub mod Table
pub mod Item
pub mod Decimal
pub mod Recency
pub mod Shard
pub mod Cache
pub mod Store
pub mod Protocol
pub mod Server
pub mod Benchmark
pub mod Minikv
pub mod MinikvBench
pub mod Tests
