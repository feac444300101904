-- ===== src/Lib.antt =====
-- Verification of postkeys, a server that speaks the Redis protocol and keeps its data in PostgreSQL.
--
-- A connection (internal/server/server.go, `handleConnection`) reads a command with the reader of
-- internal/resp/resp.go, asks whether the connection is authenticated, and gives the command to a handler of
-- internal/handler, which works on the connection's own state (internal/server/client.go), on the pub/sub
-- hub that all connections share (internal/pubsub/hub.go), or on the store. EXEC runs the queued commands in
-- one transaction. A cache (internal/cache) can stand before the store, and of several processes one is
-- elected the leader (internal/leader).
--
-- The files:
-- - Base: numbers, byte strings, association lists for Go's maps, and lists without duplicates for its sets.
-- - Resp: `Value`, with `Resp/Reader` (`read` for `Reader.Read`) and `Resp/Writer` (`write_value` for
--   `Writer.WriteValue`), internal/resp/resp.go. `Resp/Reader/RoundTrip` and `Resp/Reader/Termination` hold the
--   proofs.
-- - Pubsub: `Pubsub/Registry` is one pair of the hub's maps (there is one for channels and one for patterns),
--   `Pubsub/Glob` is `globMatch`, `Pubsub/Hub` the hub with the deliveries of `listenLoop`.
-- - Handler: `Handler/Auth`, `Handler/Connection`, `Handler/Dispatch` and `Handler/Client` are the commands of
--   internal/handler/handler.go, `Handler/Transaction` its MULTI, EXEC, DISCARD and `runTx`, `Handler/Keys`
--   is `commandKeys` of internal/handler/keys.go, `Handler/Pubsub` is internal/handler/handler_pubsub.go, and
--   `Handler/Backend` says what the handlers ask of the store.
-- - Server: `Server/Client` is `ClientState`, `Server/Session` is `handleConnection`: `step` maps a command and a
--   connection to the replies and the connection behind it.
-- - Cache: `Cache/Store` is internal/cache/cache.go, `Cache/Cached` the commands on strings of
--   internal/cache/cached_store.go, and `Cache/Cached/Remote` what internal/cache/invalidator.go does with a notice.
--   `Cache/Writes` says which keys each write drops from the cache, and `Cache/Commit` is `CachingTx` of
--   internal/cache/caching_tx.go, over the transaction of the store as a parameter.
-- - Leader: `Leader/Election` is internal/leader/election.go, over the Kubernetes API as a parameter.
-- - Storage: `Storage/Tables` holds the tables that internal/storage/storage.go makes and the helpers of
--   internal/storage/querier.go on them, `Storage/Keys` its commands on keys, `Storage/Strings` on strings,
--   `Storage/Lists` on lists (`Storage/Lists/Access` those by position, `Storage/Lists/Multi` the pops over
--   several keys), and `Storage/BitField` the fields of BITFIELD, with `Storage/BitField/Apply` for the loop over its operations.
--   `Storage/HyperLogLog` is internal/storage/hyperloglog.go, with `Storage/HyperLogLog/Commands` for PFADD and PFMERGE. The other files below these hold proofs.
-- The modules called Runs apply the theorems to concrete data.
--
-- What the model takes for granted:
-- - A Go string is a list of numbers, its bytes, and `strings.ToUpper` is modelled on ASCII text.
-- - A struct `Value` is a data type with the fields that its type byte gives a meaning.
-- - Go's iteration over a map has no fixed order; the model takes the order in which keys came. A lock is
--   not modelled: the operations that it guards are single steps.
-- - A SQL statement of Storage is what it does to tables that are functions from keys to rows: a primary key admits
--   a row once, and the rows of a list stand in the order of their indices. The statements of one transaction run
--   one after the other, without others between, and an error is followed by a rollback. Keys stand as `encodeKey`
--   writes them, and an index or a time is not bounded.
-- - For the parts other than Storage the store is the parameter `Backend`: its state and what each call
--   answers. So are the text of CLIENT INFO, the answers of the Kubernetes API, and every answer of the clock, which is a number.
-- - The store behind the cache is a parameter. `cached_get` is a `Get` that nothing comes between; `keep` is its second
--   half, for those where something does.
-- - A panic of the Go runtime ends the process and is not modelled as a step; `command_panics` says when the
--   search for the keys of a queued command panics, and `set_range` has no result where SETRANGE does.
-- - Lengths and counters are unbounded, but for the bounds that the code checks itself.
--
-- Loops: `read` nests as deeply as the input has arrays in arrays, and takes the length of the input as
-- fuel, of which each level uses some; `glob_match` takes fuel for the steps that its backtracking can make.
-- Both are shown to end with an answer. The loops of `wrapBitfield` take the number itself as fuel, which each round
-- makes smaller. `run_tx` recurs on the attempts that are left, of which there are four.
--
-- Not modelled: the queries of internal/storage on hashes, sets, sorted sets and bitmaps, those on strings that
-- work on several keys or floats, GETEX, LINSERT, COPY, KEYS and the cleanup of expired keys, the estimate of
-- HyperLogLog, which is a computation on floats, and so PFCOUNT, the data commands of internal/handler/handler_ops.go, Lua scripts, the connections to PostgreSQL and
-- Kubernetes themselves, the policy on cached keys, the notifier of blocking commands, metrics, tracing,
-- configuration, and the start and stop of the process.
pub mod Base
pub mod Resp
pub mod Pubsub
pub mod Handler
pub mod Server
pub mod Cache
pub mod Leader
pub mod Storage
