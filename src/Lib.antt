-- ===== src/Lib.antt =====
-- xmongodb, a document store with a storage engine in the manner of WiredTiger, and its wire
-- protocol.
--
-- The program. main.go reads the settings (config/config.go), sets the logger up (logger/logger.go) and
-- either makes the directories of a database (cmd/init.go) or runs the server until a signal comes.
-- server/server.go makes the storage engine and listens. A message of the wire protocol
-- comes in through server/protocol/handler.go, which cuts the stream into messages, and
-- server/protocol/listener.go answers it. The storage engine stands beside it in layers:
-- server/storage/engine.go keeps databases and collections; each collection has a record store
-- (record_store.go) and indexes (sorted_data.go), which server/storage/kv_engine.go owns; both are B+
-- trees (btree/btree.go) whose keys are made from record identifiers (record_id.go). The KV engine
-- also makes sessions (session.go), each with a recovery unit (recovery_unit.go) that keeps the
-- changes of a transaction.
--
-- The files.
--   Common      shared names, `Run` for Go code that may panic or loop, `Result` for Go's errors
--   Bytes       byte slices, `bytes.Compare` as `lex`, and `compareBytes` of server/storage/record_id.go
--   Dict        Go's maps, as association lists in the order of insertion
--   RecordId    server/storage/record_id.go
--   BTree       server/storage/btree/btree.go: the nodes are cells of a heap and the pointers addresses;
--               Heap, Find, Leaf and Split hold the code, Valid, Replace, Update, Entries, Removal,
--               Chain, Sizes, Landing, Writes, Sorted, Row, Fits, Focus, Shallow, SplitLeaf, Halves, Grow,
--               Steps, Inserts, Deletes, Trail, Ranges and Totals the laws; Refines sets the tree next
--               to a sorted list
--   Races       interleavings of goroutines, and what they keep of a tree and a counter; no code of its own
--   RecordStore server/storage/record_store.go; Table is what a client of it has in mind,
--               Holds and Refines set the two side by side; Race has the methods that write in the steps of a
--               goroutine, Alone, Interleavings, Advances, Outcomes and Lost the laws of their interleavings
--   SortedData  server/storage/sorted_data.go; Composite has its keys, Keys, Seeks and Laws what holds of
--               them; Table, Holds, Refines, Race, Alone, Advances and Outcomes as above
--   RecoveryUnit server/storage/recovery_unit.go; States has its state machine, Undo what a rollback does
--   Session     server/storage/session.go
--   KvEngine    server/storage/kv_engine.go: record stores, indexes and sessions are numbered objects,
--               since the callers share the pointers; Stops has what becomes of the sessions, Stats
--               GetStats
--   Engine      server/storage/engine.go; Docs has Insert and Find, Stats has GetStats; Catalog,
--               Documents, Stored, Inserts, Creation and Refines the laws
--   Protocol    server/protocol/handler.go; Replies has server/protocol/listener.go, Readings what
--               `Read` takes for a message, Streams and Conversations what a stream of messages and of
--               replies is cut into
--   Os          what the program takes from the packages `os` and `path/filepath`, and what these document
--   Config      config/config.go: the settings; Load has `LoadConfig`, Loading what it returns, with Toml
--               as the format of the file
--   Logger      logger/logger.go; Made has the logger that `Init` makes
--   Server      server/server.go: Lifecycle and Restart have what Start and Stop leave behind
--   Commands    cmd/init.go; Main has main.go; Directories, There and Runs have what their runs do
-- An operation has the name of its Go function in lower case, takes the state of its receiver, and
-- returns the state after it. A pair of a value and an `error` is a `Result`.
--
-- Bounds. A loop of Go is a recursion on the slice it reads. The two loops of the tree that follow
-- pointers have fuel: a descent has one round for each node of the heap, which is enough where no
-- path meets a node twice; a walk along the leaves has one round more than there are nodes. An int64
-- counter wraps around; a length is a number of any size, and where the code writes it in four bytes
-- the laws ask that it fits.
--
-- The refinements of the tree, the record store, the index and the engine are about trees of one
-- level and of two, with the splits of the root and of leaves. A leaf that a split makes has half the
-- order of keys at least, so a tree of order 128 has such a shape for 64 * 127 calls. They do not go
-- further, since a split of an inner node leaves wrong parent pointers, with which later insertions
-- lose keys.
--
-- Parameters. The getty library and the packages `net` and `os`, viper, logrus, time, the identifiers of
-- the `uuid` package, `encoding/json`, what goes on until the signal comes, and the world that the
-- changes of a transaction act on are arguments. What the laws ask of `os`, viper and logrus is a record
-- of its own, `IsLawful`, with an instance in a module Memory or in the tests.
--
-- Not modelled. server/protocol/bsoncore and server/protocol/wiremessage are copies of packages of
-- MongoDB's Go driver that the program does not call. The examples and the tests are runs of the
-- code at fixed data. The parsing of the command line and the words that the program prints are
-- left out. Each method is one step: what goroutines do between the steps of a method that holds
-- no lock is covered for the methods of the record store and of the index that write. Go visits a
-- map in any order, the model in the order of its list, which stands for any: so do the loops of
-- `DropRecordStore` and of `Stop`. The tree copies the keys and values
-- that it is given and that it returns, so no caller shares its slices. Documents are values: that
-- `Insert` of the engine writes the identifier that it makes into the caller's own map is left out, and
-- so is a map that is given twice in one call, which has its identifier the second time.
pub mod Common
pub mod Bytes
pub mod RecordId
pub mod Dict
pub mod BTree
pub mod Races
pub mod RecordStore
pub mod SortedData
pub mod RecoveryUnit
pub mod Session
pub mod KvEngine
pub mod Engine
pub mod Protocol
pub mod Os
pub mod Config
pub mod Logger
pub mod Server
pub mod Commands
