-- ===== src/Lib.antt =====
-- SwiftSnails, a parameter server: servers keep the parameters of a model in sparse tables, workers
-- pull the parameters that they need and push gradients, and a master gives the nodes their ids and
-- the servers their share of the keys. This library models its code.
--
-- The parts, and the files of the repository that they model:
-- - Hash: src/utils/HashFunction.h, the hash code of a key.
-- - Buffer: src/utils/Buffer.h, the byte buffer (BasicBuffer, BinaryBuffer) in which all messages are
--   written and read. `Buffer` is its block with the cursor, the end and the capacity; `put_raw` and
--   `get_raw` are the memory copies, `put_word` and `get_word` the operators << and >> on an integer.
--   Buffer/Ownership.antt models who frees the block, Buffer/Text.antt the TextBuffer, and
--   Buffer/Codec.antt is the interface of a type that is written and read in this way.
-- - HashFrag: src/core/parameter/hashfrag.h, the table that maps the fragments of the hash codes to the
--   servers: `init` on the master, `to_node_id` everywhere, `serialize` and `deserialize` between them.
-- - SparseTable: src/core/parameter/sparsetable.h and sparse_access_method.h, the shards of a server
--   and what a pull and a push do to them. `view` in SparseTable/Sharding.antt is the one map that the
--   shards are.
-- - Server: src/core/system/server/init.h, the handlers of pull and push requests.
-- - Worker: src/core/parameter/global_param_cache.h, global_pull_access.h and global_push_access.h, the
--   split of the keys among the servers, the requests, the responses and the counting down.
--   Worker/Calling.antt puts them together to pull_with_barrier and push_with_barrier.
-- - Message: src/core/Message.h, requests and packages.
-- - Transfer: src/core/transfer/transfer.h, the message classes and the sending and receiving.
-- - Route: src/core/transfer/Route.h and src/core/system/ServerWorkerRoute.h, the nodes and their ids.
-- - Vec: src/utils/vec1.h, vectors of floating-point numbers.
-- - Channel: src/utils/queue.h, src/core/BasicChannel.h and src/core/AsynExec.h, the queues, the
--   pool of threads as a step relation and the task for several threads; Barrier:
--   src/utils/Barrier.h, the waiting of threads, with its time limit; ThreadPool: src/core/ThreadPool.h,
--   the threads that run one function; SpinLock: src/utils/SpinLock.h, threads that lock and unlock.
-- - Addr: src/core/common.h, addresses, on a buffer, printed and parsed; Sockets: the same file's choice
--   of a port and of the local address.
-- - Listener: src/core/transfer/Listener.h and the loop of its threads in transfer.h, and
--   global_transfer(), which starts them.
-- - Framework: src/core/framework/SwiftServer.h, the main thread of a server beside its listener and
--   its channel; SwiftMaster: src/core/framework/SwiftMaster.h, the same of the master;
--   SwiftWorker: src/core/framework/SwiftWorker.h, the settings of a worker.
-- - Master: src/core/system/master/init.h and message_classes.h, the registration of the nodes, the
--   division of the fragments and the answers to the nodes.
-- - NodeInit: src/core/system/node_init.h, how a node joins: its registration, the reading of the route
--   of the master and the asking for the table of fragments.
-- - Terminate: src/core/system/master/terminate.h, server/terminate.h and worker/terminate.h beside it,
--   and src/core/framework/SwiftMaster.h, the end of a run. Terminate/Finishing.antt follows the last
--   message of a worker and the order to a server through both sides.
-- - CmdLine: src/utils/CMDLine.h, the command line.
-- - Strings: src/utils/string.h; Config: src/utils/ConfigParser.h.
-- A worker's `pull_requests` are the contents of the requests that `send` of Transfer packs; the
-- server's `receive` and `serve_request` run `pull_handler` on them, whose answer comes back by
-- `receive` to the worker's `pull_response`. Transfer/Exchange.antt follows such a call through both
-- sides, Worker/Pulling.antt a pull from the keys to the cache, Worker/Pushing.antt a push from the
-- gradients to the table, NodeInit/Joining.antt and NodeInit/Sharing.antt the calls of a node that
-- joins. Framework.antt and SwiftMaster.antt run the handlers and callbacks of a server and of the master
-- as tasks of their channels.
--
-- A run that ends in a failed CHECK, an exception or undefined behaviour is a value of `Result` in
-- Base/Outcome.antt. Numbers are native natural numbers, with the wrap-around of the machine written
-- out for hash codes, message numbers, sizes of tables and `num_reqs`; the counters of pushes,
-- iterations, nodes and the offsets in a buffer are taken to stay in their range. A loop that reads a
-- buffer to its end has as fuel one more than the end of the buffer, which is enough since each round
-- reads at least one byte. The fuel of `parse_conf` is the number of files that may be open, a limit
-- that the process has. google::dense_hash_map is a record of its operations and promises in
-- Base/HashMap.antt; the access methods of the application, the floating-point arithmetic of the
-- machine and the files are parameters.
--
-- Not modelled: the sockets, the locks but for SpinLock and, outside Channel, Barrier, SpinLock,
-- ThreadPool, Listener, Framework and SwiftMaster, the threads (in Transfer a task that is pushed to a
-- channel is an entry of a list, and a message that is sent is an entry of another, and a node that
-- waits on a barrier is a flag), since they belong to the operating system and to zmq; the training,
-- which a program supplies, and so the main thread of a worker; the reading of signed and
-- floating-point numbers from a TextBuffer, and printing but for the sparse table.
pub mod Base
pub mod Hash
pub mod Buffer
pub mod HashFrag
pub mod SparseTable
pub mod Server
pub mod Worker
pub mod Message
pub mod Transfer
pub mod Route
pub mod Vec
pub mod Strings
pub mod Config
pub mod Channel
pub mod Barrier
pub mod CmdLine
pub mod Addr
pub mod Master
pub mod NodeInit
pub mod Terminate
pub mod Sockets
pub mod Listener
pub mod Framework
pub mod SpinLock
pub mod ThreadPool
pub mod SwiftMaster
pub mod SwiftWorker
