-- ===== src/Kv/Client.antt =====
-- src/client.cc and src/client.h: the context of a request, the state of a client, and what it asks of
-- the network. Reads of remote memory are functions of the state of the world; swaps, writes and
-- the passing of time change it, also by what other clients do meanwhile. Keys of the network and the
-- place of the local buffers are left out.
pub mod LocalCache
pub mod Address
pub mod Overlap
pub mod Slots
pub mod Phases
pub mod Voting
pub mod Primary
pub mod Insert
pub mod Update
pub mod Delete
pub mod Search
pub mod Holds
pub mod Accounting
pub mod Keeps
pub mod Found
pub mod Taken
pub mod Ends
pub mod Results
mod Examples
use fusee_fs.Prelude.{ℕ, Bool, Option, List, Bytes}
use fusee_fs.Fs.KvClient.{RetCode}
use fusee_fs.Kv.Hash.{RaceHashSlot}
use fusee_fs.Kv.Subblocks.{Replica, SubblockInfo, ClientMm, ClientMmAllocCtx}
use fusee_fs.Kv.Buckets.{Buckets}
use fusee_fs.Kv.Candidates.{Candidate}
use fusee_fs.Kv.Consensus.{Consensus, CasRequest}
use fusee_fs.Kv.Client.LocalCache.{Cache, LocalCacheEntry}
use fusee_fs.Kv.Client.Address.{RaceHashRoot, KvHashInfo, TableAddr, KvTableAddrInfo}

-- `KVRequestType`.
pub data RequestType : Type 0 where
  kv_req_search kv_req_insert kv_req_update kv_req_delete : RequestType
  kv_req_recover_committed kv_req_recover_uncommitted : RequestType

-- The operation in the tail of a log record.
pub data KvOp : Type 0 where
  kv_op_insert kv_op_update kv_op_delete kv_op_finish : KvOp

-- `KVLogTail`, as it is first written.
pub record KvLogTail : Type 0 where
  pub next_addr : List ℕ
  pub prev_addr : List ℕ
  pub op : KvOp

-- A value in memory, from its `KVLogHeader` on: whether it is valid, and its key.
pub record KvObject : Type 0 where
  pub is_valid : Bool
  pub key : Bytes

-- A server and an address there: `KVRWAddr`.
abbrev pub RemoteAddr : Type 0
RemoteAddr = ℕ × ℕ

-- `KVReqCtx`. `cached` is what was read through the entry of the cache, where `is_local_cache_hit` is
-- set; `op_word` is the word at `op_laddr`; `ret_code` and `value_addr` are a union in the source.
pub record KvReqCtx : Type 0 where
  pub req_type : RequestType
  pub use_cache : Bool
  pub should_stop : Bool
  pub l_addr : ℕ
  pub key : Bytes
  pub value_len : ℕ
  pub local_kv_addr : ℕ
  pub local_cache_addr : ℕ
  pub op_word : ℕ
  pub hash_info : KvHashInfo
  pub tbl_addr_info : KvTableAddrInfo
  pub buckets : Buckets
  pub kv_read : List (Candidate × KvObject)
  pub cached : Option (LocalCacheEntry × KvObject)
  pub mm_alloc_ctx : ClientMmAllocCtx
  pub consensus_state : Consensus
  pub kv_modify_pr_cas : CasRequest
  pub kv_modify_bk_0_cas_list : List CasRequest
  pub kv_modify_bk_1_cas_list : List CasRequest
  pub kv_invalid_addr : RemoteAddr
  pub log_commit_addr_list : List RemoteAddr
  pub write_unused_addr_list : List RemoteAddr
  pub is_finished : Bool
  pub is_cache_hit : Bool
  pub ret_code : RetCode
  pub value_addr : Option ℕ

-- A write to remote memory: a value with its log record, the commit of a log record by the value that
-- was replaced, the mark of a log record as finished, and that of a value as invalid.
pub data LogWrite : Type 0 where
  write_kv : List Replica → Bytes → KvLogTail → LogWrite
  write_commit : List RemoteAddr → ℕ → LogWrite
  write_unused : List RemoteAddr → LogWrite
  write_invalid : RemoteAddr → LogWrite

-- The network manager and the servers. `new_block` is what `mm_alloc` gets where its queue is at its
-- end; `cas` gives back the value before.
pub record Network {ℓ} (W : Type ℓ) : Type ℓ where
  pub new_block : W → Option (List SubblockInfo)
  pub read_buckets : List TableAddr → W → Buckets
  pub read_object : ℕ → ℕ → ℕ → W → KvObject
  pub read_word : ℕ → ℕ → W → ℕ
  pub cas : CasRequest → W → ℕ × W
  pub write : LogWrite → W → W
  pub wait : W → W

-- The members of `Client` that a request reads.
pub record Config : Type 0 where
  pub race_root : RaceHashRoot
  pub num_idx_rep : ℕ
  pub server_st_addr : ℕ
  pub server_data_len : ℕ
  pub misses_often : ℕ → ℕ → Bool

-- What a request changes: its context, the memory manager, the cache, the values that were given to
-- `mm_free`, the last first, and the world.
pub record State {ℓ} (W : Type ℓ) : Type ℓ where
  pub ctx : KvReqCtx
  pub mm : ClientMm
  pub cache : Cache
  pub freed : List ℕ
  pub world : W
