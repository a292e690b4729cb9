-- ===== src/Lib.antt =====
-- Verification of the printer firmware's information model (RIM): raw values of the device go
-- through normalised data items to capabilities and facades, and changes become notifications.
--
-- The parts and how they interact. A product (products/) is a set of tables of domains, routes,
-- data items, capabilities and facades, with callbacks. `ProductContext` indexes them. A value
-- that is set enters a queue of its route; `DataStoreWorker` takes it out, lets the item's
-- callbacks store and compare it, keeps it in the storage of its domain if it changed, and pushes
-- the item's id to the capability queue of its route. `CapabilityWorker` evaluates the
-- capabilities that depend on it and the facades that depend on those. Changes reach the
-- publisher's queue as `PublisherInput`s. `PublisherWorker` takes them out; `PublishManager`
-- resolves the route, asks the rate limiter, and lets `ChangeNotifyManager` serve the
-- subscriptions by mailbox, callback queue or the client's handler; periodic subscriptions are
-- served when they are due.
--
-- The files:
--   Base (Tests, Lists, Maps): Boolean tests, lists and association lists for
--     std::unordered_map; the order of the entries stands for the order of traversal.
--   Notification: the plain data of core/publisher/include, and of core/common/include
--     EventPriority.hpp, CompressionPolicy.hpp and NotificationTargetKey.hpp.
--   Queue: core/common/include/EventQueue.hpp (`push`, `try_pop`, `wait_and_pop`,
--     `wait_and_pop_for`, `shut` for Shutdown) and QueueFactory.hpp; Queue/Policies: the four
--     policies of QueuePolicy.hpp; Queue/Fifo, Coalescing, Priority and Compression: what each
--     keeps; Queue/Waits: when a wait ends, and with what.
--   Value: core/common/include/RIMValue.hpp, RIMValueFactory.hpp and BinaryHash.hpp; Value/Reads:
--     core/storage/include/RIMValueAccessor.hpp; Value/Diff and Value/Double:
--     products/common/CommonDiffFunctions.hpp.
--   Storage: core/storage/include/PartitionStorage.hpp and PartitionStorageRegistry.hpp;
--     Storage/Consistency: one storage; Storage/Registry: all of them.
--   Product: the definition structs of core/common/include; Product/Lookup and Product/Validate:
--     products/common/ProductDefinition.cpp; Product/Domains: core/storage/src/DataDomainMap.cpp
--     and CapabilityRequiredDomainMap.cpp; Product/Context: core/common/src/ProductContext.cpp
--     and the dependency maps of core/capability/src; Product/Context/Index: its maps.
--   Adapter: core/common/src/RouteProvider.cpp (`initialize`, `find_queues`) and
--     core/adapter/src/AdapterDispatcher.cpp (`dispatch`); Adapter/Routing: what a valid product
--     gives.
--   Store: core/store/src/DataStoreWorker.cpp (`process` for Process, `execute_once` for
--     ExecuteOnce, `worker_loop` for WorkerLoop); Store/Process, Hash, Settle, Binary and Table:
--     what passes do.
--   Capability: core/capability/src/CapabilityManager.cpp, FacadeManager.cpp and
--     CapabilityWorker.cpp (`evaluate` for both Evaluate, `process` for Process) with the snapshots
--     of core/storage/snapshot; Capability/Progress: what a pass keeps and announces.
--   Publisher: core/publisher, with Mailbox (SubscriberMailbox, SubscriberMailboxManager,
--     NotificationReceiver), Subscriptions (SubscriptionStore, CallbackSubscriptionRegistry),
--     RateLimiter, Periodic (PeriodicNotifyManager), Notify (ChangeNotifyManager) and Publish
--     (PublishManager, PublisherWorker); their children hold the proofs.
--   Worker: the threads of core/store/src/DataStoreWorker.cpp,
--     core/capability/src/CapabilityWorker.cpp, core/publisher/src/CallbackWorker.cpp and
--     PublisherWorker.cpp (`start`, `loop_step` for one step of WorkerLoop, `stop_running`,
--     `stop_queue` and `stop_join` for the three parts of stop); Worker/Shutdown: their stop;
--     Worker/Restart: what a later start finds.
--   RouteExecutor: core/common/src/RouteExecutor.cpp; RouteExecutor/Pass: what its passes keep.
--   Accessor: core/storage/accessor; Snapshot: core/storage/snapshot/include/RIMSnapshot.hpp.
--   Api: products/common/rim_api.cpp and include/rim_api.h. Api holds the state and the RIM_Get and
--     RIM_Set functions; Api/Lifecycle RIM_Create, RIM_Start, RIM_Stop and RIM_Destroy;
--     Api/Subscribe RIM_Subscribe, RIM_SubscribeCapability, RIM_GetNotification and
--     RIM_GetMailboxCount; Api/Workers the passes of the worker threads on that state; Api/System
--     calls and passes in any order. Api/Getters, Passes, RoundTrip, Delivery, Restart and
--     the children of System are the proofs.
--   Typed: the types of values on their way from a setter to the storages. Typed/Tables reads them
--     off the product's tables; Typed/Stored and Evaluated follow Process of the two workers,
--     Typed/Queued and Routes the queues of the routes, Typed/Passes Dispatch and ExecuteOnce,
--     and Typed/Defined and Handled what the two workers read and compare.
--   PrinterA: products/printer_a, with its tables in PrinterA/Tables; PrinterA/Builders and
--     Facades: what its builders compute; PrinterA/Doors: the doors through the workers;
--     PrinterA/Typed, Rows and Defined: its callbacks;
--     PrinterA/ErrorList: printer_a.cpp.
--   Tests: a small product, printer_a, and the theorems and definitions at concrete inputs.
--
-- How the state is modelled. An object is a record of its fields; a method is a function from the
-- record to the new record and the result. A method that holds the object's mutex is one step. A
-- pointer and a count are a list; a pointer to bytes is `null`, the caller's memory or a storage's
-- buffer, and what it leads to is read through a `Memory`; whether the pointer of an empty buffer
-- is null, which the C++ standard leaves open, is not told apart. Counters of 32 and 64 bits wrap
-- around. Doubles are compared as IEEE 754 bit patterns. A result `none` of `store`, of a
-- comparison or of `process` is undefined behaviour: a union member read that is not the active
-- one, more bytes read than there are, or a buffer assigned from its own bytes; `none` of
-- `initialize` is a failed assertion. A wait with a timeout takes as an argument whether its time
-- is out, and the round of a worker that waits so is taken when the wait ends. Times of the steady
-- clock are arguments, in nanoseconds. The callbacks of a product and the client's delivery handler
-- are parameters. Loops are recursions on lists, so that no fuel is needed, except for that of a
-- worker: `worker_loop` takes a number of rounds, and as many as items wait are enough to empty the
-- queue.
--
-- Threads. A worker's loop is cut at its accesses of shared state, and any interleaving of those
-- steps with the starting, stopping and pushing threads is a run (Worker). Behind the C functions a
-- call or a pass of a worker is one step, and any order of them is a run (Api/System). `run_loop`
-- takes at most the given number of steps of a thread; three are enough for a stop, and three for
-- each event that is left for a restarted worker.
--
-- What is not modelled: the device adapters behind the dispatcher; the functions that return the
-- names and versions; the memory exhaustion of the standard containers; what races outside the
-- mutexes could do, and with it the lifetime of the pointers that RIM_GetBinary hands out. The
-- addition of doubles, which one normalisation of printer_a uses, is a parameter. The older
-- revisions of the program beside the current one (0820_FW, Rev744_FW, Rev755_FW, old_0818,
-- old_0820) are left out, and products/skeleton has empty tables.
pub mod Base
pub mod Notification
pub mod Queue
pub mod Value
pub mod Storage
pub mod Product
pub mod Store
pub mod Publisher
pub mod Capability
pub mod Adapter
pub mod Worker
pub mod Accessor
pub mod Snapshot
pub mod Typed
pub mod PrinterA
pub mod RouteExecutor
pub mod Api
pub mod Tests
