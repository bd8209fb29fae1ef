-- ===== src/Lib.antt =====
-- The dingo-sdk client library: what its core keeps in memory and how that changes.
--
-- A client of DingoDB reads and writes ranges of keys that servers hold as regions. The parts of the
-- library, and the files that model them:
--
-- - Key.antt and OrdMap.antt: keys, which are strings of bytes, and std::map over them, as sorted
--   lists. Base.antt holds lists and tests on numbers that all parts share.
-- - Outcome.antt and Status.antt: the two ways a call can go wrong. A failed CHECK ends the process
--   (`aborted`); an error is a value of Status (include/dingosdk/status.h).
-- - Region.antt: the region object (src/sdk/region.h, region.cc), with its replicas and its leader.
-- - MetaCache.antt: the cache of regions (src/sdk/meta_cache.h, meta_cache.cc). The map by id and the
--   map by start key hold pointers to region objects, and the stale flags of the objects are in
--   `Memory`, by address. MetaCache/Coordinator.antt holds the lookups that ask the coordinator.
-- - Txn/Buffer.antt: the writes of a transaction (src/sdk/transaction/txn_buffer.h, txn_buffer.cc).
-- - Txn/Machine.antt and its children: the transaction itself (src/sdk/transaction/txn_impl.h,
--   txn_impl.cc); PreCommit, Commit and Rollback have its operations, and the other children what
--   they prove. Txn/Manager.antt is the register of the active ones (txn_manager.cc).
-- - Tso.antt: the provider of timestamps (src/sdk/transaction/tso.cc).
-- - AutoIncrement.antt: the ids handed out for vector and document indexes
--   (src/sdk/auto_increment_manager.cc).
-- - Rpc.antt, Rpc/Coordinator.antt and Rpc/Store.antt: the two controllers that send a request until it
--   is answered (src/sdk/rpc/coordinator_rpc_controller.cc, store_rpc_controller.cc), the first with
--   the members that it knows (src/sdk/meta_member_info.cc).
-- - RawKv.antt and RawKv/Single.antt: the base class of the tasks without transactions and the tasks
--   on one key (src/sdk/rawkv/raw_kv_task.cc, raw_kv_get_task.cc and its like).
-- - RawKv/Scanner.antt and RawKv/Scan.antt: the scanner of a region and the scan of a range of keys
--   (src/sdk/rawkv/raw_kv_region_scanner_impl.cc, raw_kv_scan_task.cc). The lookup of a region and the
--   calls of the store are arguments, `look_up_in` is the lookup in the cache of MetaCache.antt.
-- - Keyed.antt and RawKv/Batch.antt: the tasks on several keys without a transaction
--   (src/sdk/rawkv/raw_kv_batch_put_task.cc and its like): a request goes to each region, and the keys
--   of those that fail are left for the next run. The lookup and the request are arguments, and so is
--   the order in which the answers come.
-- - RawKv/DeleteRange.antt: the deletion of a range (src/sdk/rawkv/raw_kv_delete_range_task.cc).
-- - Txn/Scan.antt: the merge of a scan's rows with a transaction's own writes (ProcessScanState).
-- - Txn/Task.antt, Txn/Get.antt, Txn/CheckStatus.antt and Txn/Heartbeat.antt: the base class of a
--   transaction's tasks and the tasks on one key (src/sdk/transaction/txn_task/txn_task.cc,
--   txn_get_task.cc, txn_check_status_task.cc, txn_heartbeat_task.cc, and txn_common.h).
-- - Txn/KeyTasks.antt: the tasks of a transaction that commit, roll back or resolve the locks of several
--   keys (txn_commit_task.cc, txn_batch_rollback_task.cc, txn_resolve_lock_task.cc), on Keyed.antt.
-- - Txn/Resolver.antt with Txn/ResolvedLocks.antt and Txn/SecondaryLocks.antt: what is done about the
--   lock of another transaction, and the cache of transactions whose end is known
--   (src/sdk/transaction/txn_lock_resolver.h and txn_lock_resolver.cc). The tasks that the resolver
--   runs are arguments.
-- - IndexCache.antt: the cache of vector indexes, and of document indexes, whose code is the same
--   (src/sdk/vector/vector_index_cache.cc, src/sdk/document/document_index_cache.cc).
-- - Codec.antt: bytes as hexadecimal text (src/sdk/utils/codec.h, src/sdk/common/helper.h).
-- - Tests.antt: the models run on small inputs.
--
-- A task on one key looks its region up in the cache, which may ask the coordinator, and hands it to a
-- store controller; the controller asks the region for its leader, and what a store answers changes
-- the leader, the cache and the status; the task begins again while the status says that the regions
-- have changed. Of these the asynchronous calls and their call backs are one step of the caller.
--
-- A transaction writes to its buffer, asks the cache for the region of each key, takes its start and
-- commit timestamps from the provider, and leaves the register of the manager when it has finished.
--
-- An operation that holds one lock throughout is one function on the state; RegisterTxn reads its
-- flag before it takes the lock, and what it read is an argument. What a server answers is an
-- argument of the definitions: the protobuf definitions are a submodule that is not in the
-- repository. A loop that repeats a request is bounded by the source (FLAGS_txn_op_max_retry) and is
-- recursion on that number; the controllers and the tasks, which count their retries in their state,
-- are recursion on fuel, and one attempt more than the retries is enough; the scan has fuel for its
-- regions and for the batches of each, one and two more than there are; the loop of GetNextIds,
-- which the source does not bound, has the number of ids asked for plus one as fuel, which is enough
-- since each pass but the last adds an id. The deletion of a range, which the source does not bound
-- either, is on fuel, and no fuel is enough while its requests fail. Native numbers stand for
-- machine integers, with the wrap-around written out where a counter can reach it.
--
-- Not modelled: message texts, logging, metrics and tracing; the loop of a transaction's scan over
-- regions; the RPC transports; the prewrite, the batch get and the check of secondary locks,
-- whose results are arguments where they are needed; the other vector and document parts and the
-- expressions, which mostly fill protobuf messages or call the serial submodule.
pub mod AutoIncrement
pub mod Base
pub mod Codec
pub mod IndexCache
pub mod Key
pub mod Keyed
pub mod MetaCache
pub mod OrdMap
pub mod Outcome
pub mod RawKv
pub mod Region
pub mod Rpc
pub mod Status
pub mod Tests
pub mod Tso
pub mod Txn
