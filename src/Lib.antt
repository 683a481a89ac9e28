-- ===== src/Lib.antt =====
-- x-cache-manager keeps account of the files of an Nginx cache. A replacement algorithm (src/algo)
-- decides which files go when room is needed and hands them to a callback, which deletes them. Two
-- versions keep their entries in memory, the others in a table of SQLite (through src/db_adapter,
-- src/sqlite) or of Redis (src/redis). Messages about downloads and hits come in over a socket
-- (src/io) and are taken apart, checked, logged and purged by src/utils.
--
-- Which file models which part:
-- - Prelude and its children: the shared names; tests of numbers and strings; 64-bit words, with
--   the wrap-around written out (Prelude.Word); the outcome of a member function (Prelude.Effect):
--   it returns, throws and leaves the object as it then is, or is undefined behaviour.
-- - Container: `std::list` and `std::set` as lists of nodes with addresses, so that an iterator
--   can dangle (Nodes, Removal); `std::unordered_map` (Index); lists of entries by key (Values).
-- - Simulation: histories of calls, and what makes an object follow a model.
-- - Lru: src/algo/algo_lru.h and algo_lru.cpp, class LRU. `LRU::put` is `Lru.put`, and so on. The
--   invariant (Invariant), the eviction loop (Eviction), the model, a list of entries with a limit
--   (Model), each function against it (Refinement), and histories, init and backup (History).
-- - Lfuda: src/algo/algo_lfuda.h and algo_lfuda.cpp, class LFUDA, with the same children, the
--   order of the set (Order) and dynamic aging (Age).
-- - Serial: `serialize` and `deserialize` of src/redis/redis_adapter.h: words and bytes (Codec),
--   the round trip in both directions (RoundTrip, Canonical), the order of the bytes (Order).
-- - Redis: src/redis/redis_base.h and redis_base.cpp, class RedisBase: `connect`, `reconnect` and
--   `command` with their rounds, over the answers of hiredis. Redis.Adapter: the rest of class
--   RedisAdapter of redis_adapter.h. What the errors do (Errors, Keeps), how connecting ends
--   (Attempts), whether a call is defined and how many calls of hiredis it makes (Safety, Calls),
--   histories of calls (Histories), what becomes of a reply (Reading), and when a command gets one
--   (Refusal, Recovery, SecondTry).
-- - Subscriber: src/redis/redis_subscriber.h and redis_subscriber.cpp, SubManager with RedisSub: the
--   steps of the thread in `connect` and of the one that stops it (`Step`, `Run`), what every run
--   keeps (Steps), and the callback for replies (Replies).
-- - Sqlite.LruStatements and LfudaStatements: the statements of src/sqlite/sql_statement.h, over a
--   table with a primary key (Sqlite.Table). Sqlite.Lru and Sqlite.Lfuda:
--   src/algo/algo_lru_sqlite.h and algo_lru_sqlite.cpp (algo_lru_redis.cpp has the same text) with
--   src/db_adapter/db_sqlite_lru.h, and the same for lfuda. Their children: the invariant
--   (Invariant), the loop of `remove_cache` (Rounds, Eviction), `update_size` (Sizes), `renew`
--   (Renewal), what the operations begin with (Lookups), `put` (Put), `update` and `resize`
--   (Update), `init` on saved metadata (Restart). Sqlite.Ends says how a call ends.
-- - Sqlite.Opening: the constructors of SQLiteBase and of the two adapters, and `open`, on a disk of
--   files that list their tables; how its statements end (Statements), and how opening a database
--   ends (Openings).
-- - Sqlite.Access: the queries of src/sqlite/sqlite_base.h and sqlite_base.cpp over the answers of
--   the C library, and what they return (Rows).
-- - Logger: src/utils/logger.h and logger.cpp: levels and sinks, `MultiLog` (Logger.MultiLog), the
--   invariant (Invariant), and which sinks get a line (Delivery, Submission).
-- - Purger: src/utils/purger.h and purger.cpp: the steps of callers and workers (`Step`, `Run`), and
--   what every run keeps (Balance).
-- - Deleter: src/io/async_deleter.h and async_deleter.cpp, class AsyncDeleter: steps of callers and
--   threads, and the wait of `stop` (Waiting).
-- - Receiver: src/io/receiver.h and receiver.cpp: owner and mode of the socket (Permissions), and
--   receiving as steps of the callers and the event loop (Listening).
-- - Config: src/utils/config_parser.h and config_parser.cpp, over a reader of YAML; Config.Rules:
--   src/utils/config_checker.h; what `validate` accepts (Validation, Definedness).
-- - Message: src/utils/parser.h and parser.cpp, over a reader of JSON, and what it gives (Fields).
-- - Examples: runs, and the theorems at concrete inputs.
--
-- Bounds: sizes, limits and sums of the theorems are below 2^63 where a theorem says so; the code's
-- `size_t` arithmetic keeps its wrap-around modulo 2^64. Fuel: the loop of `Lru.remove_cache` gets
-- the length of the list, since each round takes an entry off; the loops of `remove_cache`
-- under Sqlite get one more than the number of rows, since each round deletes a row or throws. The
-- loops of `connect`, `reconnect` and `command` recur on the rounds that are left, max_tries at
-- first, and `std::to_string` on one more than the number, which has no more digits.
--
-- Not modelled: what is printed and the texts of messages; times and waiting; the cache over Redis
-- (src/algo/algo_lru_redis.h, src/db_adapter/db_redis_lru.h), which is unfinished; the watch of files
-- (src/io/fs_monitor.h), which has no code yet; tests and demos. Libraries are taken by their
-- documentation and are parameters: hiredis, libevent, asio, the file system, the readers of YAML
-- and JSON, regular expressions. SQLite too: a statement fails as a whole or has the effect of its
-- text, and the engine's errors are a parameter.
pub mod Prelude
pub mod Container
pub mod Simulation
pub mod Lru
pub mod Lfuda
pub mod Serial
pub mod Sqlite
pub mod Logger
pub mod Purger
pub mod Redis
pub mod Config
pub mod Message
pub mod Deleter
pub mod Subscriber
pub mod Receiver
pub mod Examples
