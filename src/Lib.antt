-- ===== src/Lib.antt =====
-- Verification library of ida-rs-cli: the state that its servers keep, and what holds of it.
--
-- The program runs IDA behind a command line, an MCP server over HTTP or standard input, and a daemon.
-- The MCP server keeps a registry of background tasks (src/server/task.rs) and one of foreground
-- operations (src/server/operation.rs). Pooled HTTP sessions are closed after their client goes
-- away (src/server/http_config.rs); each leases a worker process (src/ida/pool.rs). The daemon's
-- router (src/daemon/router.rs) spawns one worker per loaded target, and the worker keeps its own
-- table (src/daemon/target.rs).
--
-- Files and the code that they model:
--   Base        tests, lists, hash maps as association lists, texts, `u64` in decimal
--   Dates       the civil dates and ISO texts of task.rs, and the dates and the test that prunes old
--               spills of src/spill.rs
--   Tasks       task.rs: Entry has TaskEntry's methods, Admission create_keyed, Retention the sweeps,
--               Registry the other operations; Calls has sequences of calls and their invariant
--   Operations  operation.rs: History on the event buffer, Active on the active operation
--   Sessions    http_config.rs: SessionDisconnectRegistry; Streams has its stretches between awaits,
--               with those of PooledSessionManager, as a step relation, Reconnect what a stream that
--               is registered calls off
--   Pool        pool.rs: one function per stretch of code under a lock; Actions puts them in any
--               order, Soundness is the invariant, Moves the states of one worker; Databases has
--               PooledSessionState, the worker and the database generation of one session
--   Targets     router.rs: ids, selectors, the fallback for the active target
--   Router      router.rs: RouterState, and target.load as three stretches under the load lock
--   Manager     target.rs: TargetManager
--   Paging      the loop that the listing handlers of src/ida/handlers share, and the window of a linked
--               chain (xrefs.rs); Walks follows the pages to the end
--   Handlers    src/ida/handlers: what is read of an open database; Listings has functions.rs,
--               strings.rs, globals.rs, types.rs and structs.rs, Xrefs xrefs.rs and the paging of
--               cross references in src/server/mod.rs, Paths the path search of controlflow.rs, Search
--               the byte search of search.rs, Imports imports.rs,
--               Addresses resolve_address of mod.rs
--   Worker      src/ida/loop_impl.rs: the loop that owns the database; Tokens has the close token of
--               src/ida/worker.rs
--   Protocol    src/daemon/mod.rs: the reader of one line
--   Access      src/server/http_access.rs: the Origin and Host checks of the HTTP server
--   Tools       src/tool_registry.rs: Registry has the table, Filter src/server/tool_filter.rs
--   Dsc         src/dsc.rs: the escaping of texts that go into Python scripts
--   Tests       the models and the theorems at concrete inputs
--
-- Conventions. A method that changes `&mut self` takes the state and returns it with the answer. An
-- `Instant` and a system time are numbers, arguments of the function that reads the clock; so are
-- random ids, idalib's answers and what becomes of a process. An error text that names values is a
-- constructor with those values. A HashMap is an association list with distinct keys, whose order
-- stands for the iteration order. An `Arc` that is shared is an entry of a store by id.
--
-- Numbers and loops. u64 and usize counters of sessions, the router and the worker's table wrap or
-- saturate as the code does; theorems that need it say that a counter is below 2 ^ 64 - 1. Ids of
-- pool workers and counts of entries are unbounded. Loops are recursion on the list or the count;
-- the printers of a u64 have fuel, 20 decimal or 16 hexadecimal digits, as many as 2 ^ 64 has, and so
-- have the window of a chain, the entry points, the search for paths and the byte search, each as many
-- steps as the code can take, which theorems show to be enough.
--
-- Not modelled: idalib, which is a record of its answers, and the handlers that only call it,
-- sockets and processes, the file system, argument parsing and output, logging, memory that runs out
-- (a listing reserves room for its whole limit at once). Of the parts above:
-- a poisoned lock, a stream guard dropped outside a Tokio runtime, sessions that are restored,
-- list_all and create_completed of the task registry, which only tests compile, the router's listing
-- and how it stops a worker, years past 9999, and paths other than as texts.
pub mod Base
pub mod Dates
pub mod Tasks
pub mod Operations
pub mod Sessions
pub mod Pool
pub mod Targets
pub mod Router
pub mod Manager
pub mod Tests
pub mod Paging
pub mod Handlers
pub mod Access
pub mod Tools
pub mod Protocol
pub mod Worker
pub mod Dsc
