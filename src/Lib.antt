-- ===== src/Lib.antt =====
-- A model of the TransferQueue server: a buffer between producers of trajectories and a trainer that
-- consumes them in groups. Paths are from the root of the repository.
--
-- The program. A server core owns a `BufferShard` (src/server/buffer_shard.cc), which gathers
-- trajectories into groups by instance id, returns the complete groups once and forgets them. It
-- refuses a uid that its `DedupFilter` (src/server/dedup_filter.cc) has seen lately, and moves
-- complete groups to its `DiskStorage` (src/server/disk_storage.cc) when they take too much memory.
-- A `BufferManager` routes calls to the shards; HTTP and RPC handlers call the manager, and the client
-- library calls the RPC handlers.
--
-- The files.
--   Prelude      shared names, lists, strings and integers over native numbers
--   Platform     what the code calls and does not define, as records of operations: the arithmetic
--                of `double` (Platform.Double), and the file system, the clock, Protobuf and
--                `std::hash` (Platform/Runtime). Their laws are separate records (IsCodec,
--                IsReliable), which the theorems that need them take as hypotheses, and which the
--                machine in memory of Platform/Sample satisfies. Platform/UnorderedMap is
--                `std::unordered_map` as far as the filter uses it.
--   Action       futures: a state passing function that returns a value or an error. A chain of
--                `then` is a do block, and an error skips the rest of it. The errors
--                `null_dereference` and `not_ready` stand for the end of the process; what the model
--                does after one does not happen.
--   Proto        the messages of proto/transferqueue.proto. Platform/Message is what the code relies on
--                when it writes and reads them, Platform/Formats a toy format.
--   Config       include/transfer_queue/common/config.h
--   DedupFilter  dedup_filter.h and .cc. A node of `lru_list_` has an identity, which stands for the
--                iterator in `lru_map_`. Bloom holds the Bloom filter; NoFalseNegative, Order, Evict,
--                Refines and History hold proofs.
--   DiskStorage  disk_storage.h and .cc. Words is the header of a file; RoundTrip, Batch and
--                Loads hold proofs.
--   BufferShard  buffer_shard.h and .cc. Groups is the map of groups; Write, Read, Spill and Manage
--                hold the operations; Entries, Represents, Transparent, Appends, Accepts, Status,
--                Consume, Drain, Ready, Interleaved, Deletes, Keys, KeptKeys, Limit and Overlap hold
--                proofs. Contract is what a shard promises, without its files, filter and map; that
--                it keeps the promise is in Sound, in WriteStep, Reads (with Prefix, Filed, Takes,
--                Parts, Scans and ReadStep), DeleteStep, TimeoutStep and ResetStep for one call, and
--                in Runs for any number of them.
--   BufferManager  buffer_manager.h and .cc: the shards of all cores. Routing, Reading, Waiting,
--                Totals, Ownership, Sharded, Reach, Emptying and Limit hold proofs. Whole is the
--                groups of all shards as one store; that the manager's calls are steps of the contract
--                of a shard on it is in Serves for the calls that go to one shard, in Everywhere and
--                ServesAll for those that go to all, and in Runs for any number of calls. Started is
--                the server after its start, Directories why its shards share no file.
--   RpcHandler   src/server/rpc_handler.cc: the handlers and the subscription loop. Subscribe holds
--                proofs on the latter; Serializer is the serialiser of rpc_handler.h, RoundTrip its proofs.
--   Client       src/client/client.cc. Stream is the subscription with its background loops; Calls
--                holds the proofs on remote calls, with the handlers at the other end, Loops, Reach and
--                Resubscribed those on the states of a client.
--   HttpHandler  src/server/http_handler.cc. Texts holds its strings; Replies and Reset hold proofs.
--   Metrics      src/server/metrics.cc; Sums holds proofs.
--   ServerMain   src/server/main.cc: the start, the signals and the end of the server; Listening and
--                Outcome hold proofs.
--   Examples     src/examples: what the three programs ask of their client and report; Runs holds
--                proofs.
--   Tests modules run the model and apply the theorems at concrete inputs.
--
-- Conventions. A byte is a number below 256 and a string a list of them. `size_t` and `uint32_t`
-- keep their wrap-around, and the numbers of groups in a status are the 32 bits of an `int32_t`; the
-- 64-bit counters of trajectories are unbounded. `char` is signed, as on x86-64. A time is in nanoseconds of the steady
-- clock. The order in which `std::unordered_map` iterates is the order of the list `groups`;
-- inserting a key may change it by any reordering, the parameter `arrange`. A shard's pointer to the configuration always
-- points to the one of its manager, which is the argument `cfg`.
--
-- Cores. What the manager runs on several shards at once runs shard by shard, and every part runs
-- whatever the others return, as the parallel futures do; the batches of a batch write run in any
-- order, the parameter `order`. `count` is the number of cores.
--
-- Fuel. The loop of `evict_oldest` runs on as many rounds as the map has entries, of which each
-- round removes one. The loop of the blocking read runs on any number of rounds; one for each 10 ms
-- until the deadline and one more are enough. All other loops are recursions on lists or numbers.
--
-- The network. `call` and `open_stream` are the remote calls of a client; `network` in Client/Calls
-- is the one that hands them to the handlers. A handler's exception reaches its caller. The sink of a
-- subscription is the parameter `accept`, which tells whether it takes a message, and `rounds` is the
-- number of rounds of the endless loop that are looked at; the theorems hold for every number.
-- `fuel` is that of the blocking read. A background loop of the client that runs has a number,
-- since nothing ends it but an item of its source or, while the future that its callback returned is
-- pending, the result of that. The batch write of a shard calls `get()` on the future of a write
-- outside of a thread: BufferShard/Write tells whether that future is pending.
--
-- Not modelled. The operations of a shard run one after another, but for BufferShard/Interleaved,
-- where other calls come between the two phases of a spill, and BufferShard/Overlap, where a second
-- read scans the shard while a first one waits for its files; other calls between the phases of a
-- read are left out, though each phase is a definition of its own. In the blocking read the rest of
-- the server acts during the pauses, as an arbitrary action. The HTTP server matches the paths of
-- the routes; the texts of exceptions are a parameter. Also left out are logging, and
-- src/client/main.cc, which only logs. In `main` the signals come once the server runs, and
-- `sharded::stop` is the stop of each object and its end.
pub mod Prelude
pub mod Platform
pub mod Action
pub mod Proto
pub mod Config
pub mod DedupFilter
pub mod DiskStorage
pub mod BufferShard
pub mod BufferManager
pub mod RpcHandler
pub mod Client
pub mod HttpHandler
pub mod Metrics
pub mod ServerMain
pub mod Examples
