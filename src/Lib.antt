-- ===== src/Lib.antt =====
-- FUSEE-FS: a file system on a fault-tolerant key-value store on disaggregated memory.
--
-- The file system engine (fs/engine/engine.cc) keeps inodes and directory entries as values of the
-- key-value client of its thread (src/client.cc). A path is formatted and split
-- (fs/common/path.cc), its components are looked up one by one under the keys of entries, and the
-- methods change up to three keys each, and when a later call fails they try to undo what they did. A central
-- server (fs/central/central.cc) keeps locks and hands out groups of inode numbers.
--
-- Fs.Path, Fs.Inode and Fs.Key model the functions of fs/common and the keys of
-- fs/engine/engine.h, on lists of bytes. Fs.KvClient is what the engine needs of the client, an
-- interface with the laws of a client that is alone on the store and whose calls may fail; these laws
-- are the contract between the two parts, and not derived from Kv.Client. Fs.Engine is class `Engine`:
-- the state is the store and the two counters from which inode numbers are drawn, a method is an
-- action on it that returns 0 or an error, and Fs.Engine.Create and Fs.Engine.Remove have the
-- four methods that change the store. Where several methods of the source share their text, one
-- definition models it: `link_new_inode` and `make_node` for the ends of `Mkdir` and `Creat`,
-- `unlink_inode` for those of `Rmdir` and `Unlink`. The children of each module hold its proofs,
-- and Fs.Samples a concrete client for the examples.
--
-- Fs.Central is the central server, with the clients' view of their locks as a step relation.
--
-- Kv models what lies below: Kv.Hash is src/hashtable.cc and src/hashtable.h, Kv.Consensus is how
-- a client of src/client.cc decides whether its write has won a slot, Kv.Rounds the writes of all clients
-- to one slot, as a step relation in which their swaps interleave and in which a client is named by the value that it
-- writes (deletes, which all write 0, are outside it where there is more than one), Kv.Blocks is the loop that
-- src/server_mm.cc and src/client_mm.cc both run to lay out replicated blocks, Kv.ServerMm is the
-- rest of src/server_mm.cc, Kv.Server is what src/server.cc does with a request, Kv.Subblocks is
-- the queue of subblocks of src/client_mm.cc, Kv.Buckets and Kv.Candidates have the searches of
-- src/client.cc in the buckets of a key, Kv.Recover a test of its recovery, Kv.Log
-- the log of a client in src/client_mm.cc, from the writes to what is read of it after a restart, and Kv.GcSlot is the
-- packed slot of src/kv_utils.cc.
--
-- Kv.Client is class `Client` of src/client.cc: search, insert, update and delete, each as the
-- composition of its phases that the source has, once for a client that waits for each batch (`_sync`)
-- and once for fibers. The state is the context of the request (`KVReqCtx`), the queue of subblocks,
-- the cache of slots and the world, which a record of operations, `Network`, reads and changes:
-- it stands for the work requests that nm.cc posts. Phases that an update and a delete share in their
-- text are one definition of Kv.Client.Update. A value that is handed to `mm_free` is listed in
-- the state. A phase gives nothing where a loop of it has not ended, or where the source exits. The engine's
-- interface to the client is not filled from these modules.
--
-- Numbers are the native ones, reduced modulo 2^w where the source's type has w bits. Most loops are
-- structural recursion, on a text or a list. The others are on fuel: the two loops of the key hash get the
-- length of the text, of which each round takes bytes off, the search for a server with space
-- gets the number of servers, after which the source would go round for ever, and the two loops in which
-- a client that has lost a slot waits, the traversal of the log and the rounds over the recovered queues get
-- a number of turns, for which the results say what is enough.
--
-- Not modelled: RDMA connections and work requests (src/nm.cc, src/ib.cc), threads, the client again for
-- coroutines (src/client_cr.cc), the operations of the client for a server that has crashed and most of
-- the recovery of its requests after its own crash, the map of freed subblocks (`mm_free` of src/client_mm.cc), and all test
-- drivers and benchmarks. `time` and what other threads do at the point where a lock is taken are
-- arguments.
mod Prelude
pub mod Fs
pub mod Kv
