-- ===== src/Lib.antt =====
-- The core of OpenPine (openpine/): a verification of the parts that decide what happens to jobs, to
-- fetched bars, to orders, to the saved states of strategies, and to which strategies may run. The parts
-- stand side by side; within Trading the router asks the risk manager before it calls an adapter, of which
-- the paper adapter is one, and within State a rebuild works on the state store.
--
-- Jobs, Jobs/*: openpine/jobs/transactional_store.py, the SQLite store of `openpine.job.v1`.
--   `Jobs.Model` has the payload, the two tables and the transition table; `Jobs.Tx` is code under
--   `with self._transaction()`: a function from the database to a result and a database, or an
--   error, on which the transaction rolls back. `Jobs.Store` has the private helpers, `Jobs.Create`,
--   `Jobs.Ops` and `Jobs.Recover` the methods that write, `Jobs.Query` those that read, each under
--   the method's name. `Jobs.History` runs any sequence of calls; every call holds the store's lock
--   for its whole transaction, so such a sequence is what concurrent clients amount to.
--   `Jobs.Laws.*` has the proofs.
--   Payloads are records in place of JSON objects. The package `openpine_contracts` and the build
--   identity are the parameter `Contracts`; the theorems rely on sealing to write the content hash
--   and nothing else (`SealsOnlyHash`). The clock is an argument of each call. Not modelled: creating
--   and migrating the schema, and closing the connection.
-- Scheduler, Scheduler/*: openpine/jobs/scheduler.py and models.py, the in-memory `JobScheduler`.
--   Job objects are shared between the queue, the map of jobs and the workers, so `Scheduler.Model`
--   keeps them in a heap and the queue has addresses. `Scheduler.Ops` has the methods on jobs and
--   `Scheduler.Locks` those on locks.
-- Data, Data/*: openpine/data/parallel_fetcher.py. `Data.Fetch` has the chunking, the collection of the
--   results in the order in which the pool completes them, which permutes the jobs, and the merge;
--   the chunk loop runs on `stop - start` rounds of fuel, which are enough since each round advances
--   by a millisecond or more. `fetch_single` is a parameter.
-- Trading, Trading/*: what stands between an order intent and an exchange. `Trading.Model` is
--   openpine/orders/models.py and accounts/models.py, `Trading.Risk` openpine/risk/manager.py,
--   `Trading.Router` openpine/execution/router.py over any adapters, `Trading.Paper`
--   openpine/execution/paper.py, and `Trading.OrderTable` and `Trading.Orders` openpine/orders/manager.py
--   with its table of openpine/storage/migrations/002_orders_schema.sql. Floats are an abstract type with
--   the operations that the source uses; clocks and generated ids are arguments.
--   `Trading.Rules` is `InstrumentRules` of openpine/execution/models.py over any arithmetic of floats and
--   decimals.
-- State, State/*: openpine/state/store.py and policy.py, and openpine/recovery/rebuild.py over them.
--   `State.Model` has the snapshots and the payload, `State.Index` the registry in memory and the index
--   file with the ways in which each is brought up to date, `State.Store` and `State.Snapshots` the
--   methods of `StateStore`, `State.Runtime` its entries for runtime states, `State.Policy`
--   `SnapshotPolicy`, `State.Rebuild` `StateRebuilder`, and `State.Processes` any number of stores on one
--   directory. `State.Codec` and `State.Codec.Safe` are openpine/state/codec.py, without sets and without
--   objects that it converts by their methods or their `__dict__`. Packing, hashing and pickling are the
--   parameter `Codec`, which `State.Codec.Packing` fills with that codec over the packages that it
--   calls; the round trip relies on msgpack giving back what it packs (`IsMsgpack`). The stamp of the
--   index file stands for its time of change and
--   size, which the source takes to differ after each write. Writes to the disk succeed. The debug files
--   are not modelled.
-- Registry, Registry/*: openpine/registry/strategies.py. `Registry.Model` has the strategies and the tables,
--   `Registry.Connection` the connection to SQLite, with what it sees, what is committed and whether a
--   transaction is open, `Registry.Ops` creation, lookup and the plain updates, `Registry.Circuits`
--   activation, the archive and the circuit of the background worker, `Registry.Patch` and
--   `Registry.Delete` the methods of these names, and `Registry.History` any sequence of calls, which the
--   registry's lock serializes. A statement that changes rows opens a transaction, as Python's sqlite3
--   does; statements fail only on a UNIQUE column and on BEGIN in a transaction. The texts that json and
--   hashlib make are the parameter `Naming`. One process holds the database; the removal of a data directory
--   fails or not by an argument.
-- Streams, Streams/*: `Streams.Manager` is `MarketDataStreamManager` of openpine/streams/manager.py. Calls of the
--   adapter, which the source starts as tasks, are recorded in order; the adapters are not modelled.
-- Not modelled: the HTTP gateway, the command line, the Pine runtime and its compiler, storage wrappers,
-- exchange clients, notifications and the web interface, which are I/O or other packages around these
-- parts; and the event bus, workers, batch runs and the optimizer.
pub mod Base
pub mod Data
pub mod Jobs
pub mod Registry
pub mod Scheduler
pub mod State
pub mod Streams
pub mod Trading
