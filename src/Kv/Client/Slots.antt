-- ===== src/Kv/Client/Slots.antt =====
-- src/client.cc: the requests and addresses that a client fills in before it posts them, and the search
-- for its key among the values that it read.
use fusee_fs.Prelude.{
  ℕ, ◌+◌, ◌-◌, ◌*◌, bit_and, Bool, false, Option, none, some, List, [], ◌∷◌, ◌++◌, Bytes, length,
  ltb, if◌then◌else◌,
}
use fusee_fs.Prelude.Word.{u64, ◌>>◌}
use fusee_fs.Kv.Hash.{RaceHashSlot, convert_64_to_40_bits, convert_40_to_64_bits, check_key}
use fusee_fs.Kv.Subblocks.{Replica, ClientMmAllocCtx}
use fusee_fs.Kv.Buckets.{fill_slot}
use fusee_fs.Kv.Candidates.{Candidate}
use fusee_fs.Kv.Consensus.{CasRequest}
use fusee_fs.Kv.Client.Address.{
  TableAddr, bucket_size, log_header_size, get_kv_hash_info, get_kv_addr_info,
}
use fusee_fs.Kv.Client.{KvOp, KvLogTail, KvObject, RemoteAddr, KvReqCtx, Config}

-- `offsetof(KVLogTail, old_value)` and `offsetof(KVLogTail, op)`, with the alignment of a 64-bit machine.
abbrev pub old_value_offset : ℕ
old_value_offset = 16

abbrev pub op_offset : ℕ
op_offset = 25

-- `offsetof(RaceHashBucket, slots)` and `sizeof(RaceHashSlot)`.
abbrev pub slots_offset : ℕ
slots_offset = 8

abbrev pub slot_size : ℕ
slot_size = 8

-- `addr_list[0]` and `server_id_list[0]` of the context of an allocation; 0 where it failed.
unfoldable pub first_replica : List Replica → RemoteAddr
first_replica [] = (0, 0)
first_replica (r ∷ rs) = (r.server_id, r.addr)

unfoldable pub tagged_addr : List (ℕ × ℕ) → List ℕ
tagged_addr [] = []
tagged_addr ((a, k) ∷ ps) = convert_64_to_40_bits a ++ bit_and a 0xFF ∷ []

unfoldable pub update_log_tail : KvOp → ClientMmAllocCtx → KvLogTail
unfolding tagged_addr
update_log_tail op ctx = record {
  next_addr = tagged_addr ctx.next;
  prev_addr = tagged_addr ctx.prev;
  op = op;
}

unfoldable pub offset_addrs : ℕ → List Replica → List RemoteAddr
offset_addrs offset [] = []
offset_addrs offset (r ∷ rs) = (r.server_id, u64 (r.addr + offset)) ∷ offset_addrs offset rs

unfoldable pub prepare_log_commit_addrs : KvReqCtx → KvReqCtx
unfolding offset_addrs
prepare_log_commit_addrs ctx =
    let tail_offset = log_header_size + length ctx.key + ctx.value_len in
    record ctx {
      log_commit_addr_list =
          offset_addrs (tail_offset + old_value_offset) ctx.mm_alloc_ctx.replicas;
      write_unused_addr_list = offset_addrs (tail_offset + op_offset) ctx.mm_alloc_ctx.replicas;
    }

unfoldable pub prepare_request : Config → KvReqCtx → KvReqCtx
unfolding get_kv_hash_info get_kv_addr_info
prepare_request cfg ctx =
    let info = get_kv_hash_info cfg.race_root ctx.l_addr ctx.key in
    record ctx {
      hash_info = info;
      tbl_addr_info = get_kv_addr_info cfg.race_root cfg.num_idx_rep info;
    }

-- The address of slot `slot_idx` of bucket `bucket_idx` on every replica of the index.
unfoldable pub remote_slot_addr : ℕ → ℕ → List TableAddr → List RemoteAddr
remote_slot_addr bucket_idx slot_idx [] = []
remote_slot_addr bucket_idx slot_idx (t ∷ ts) =
    let first =
      u64 (t.f_bucket_addr + (bucket_idx * bucket_size + slots_offset + slot_idx * slot_size)) in
    let second =
      u64 (
        t.s_bucket_addr + ((bucket_idx - 2) * bucket_size + slots_offset + slot_idx * slot_size)) in
    (t.server_id, if ltb bucket_idx 2 then first else second)
    ∷ remote_slot_addr bucket_idx slot_idx ts

-- One request; what the swap gives back is not there yet.
unfoldable pub cas_request : ℕ → ℕ → RemoteAddr → CasRequest
cas_request orig_value swap_value (server_id, r_kv_addr) = record {
  server_id = server_id;
  r_kv_addr = r_kv_addr;
  orig_value = orig_value;
  swap_value = swap_value;
  swap_back = 0;
}

unfoldable pub cas_requests : ℕ → ℕ → List RemoteAddr → List CasRequest
unfolding cas_request
cas_requests orig_value swap_value [] = []
cas_requests orig_value swap_value (a ∷ more) =
    cas_request orig_value swap_value a ∷ cas_requests orig_value swap_value more

-- `fill_cas_addr`: the first address is that of the primary index.
unfoldable pub fill_cas_addr : List RemoteAddr → ℕ → ℕ → KvReqCtx → KvReqCtx
unfolding cas_requests
fill_cas_addr [] orig_value swap_value ctx = ctx
fill_cas_addr (a ∷ more) orig_value swap_value ctx = record ctx {
  kv_modify_pr_cas = cas_request orig_value swap_value a;
  kv_modify_bk_0_cas_list = cas_requests orig_value swap_value more;
}

unfoldable pub fill_invalid_addr : RaceHashSlot → KvReqCtx → KvReqCtx
fill_invalid_addr slot ctx = record ctx {
  kv_invalid_addr = (slot.server_id, convert_40_to_64_bits slot.pointer);
}

-- `fill_slot` on the context of the allocation, of one subblock.
unfoldable pub new_slot : KvReqCtx → RaceHashSlot
unfolding first_replica
new_slot ctx =
    let (server_id, addr) = first_replica ctx.mm_alloc_ctx.replicas in
    fill_slot ctx.hash_info.fp 1 server_id addr

-- The eight bytes of a number, as a slot.
unfoldable pub slot_of_int : ℕ → RaceHashSlot
slot_of_int v = record {
  fp = bit_and v 0xFF;
  kv_len = bit_and (v >> 8) 0xFF;
  server_id = bit_and (v >> 16) 0xFF;
  pointer =
      bit_and (v >> 24) 0xFF
      ∷ bit_and (v >> 32) 0xFF
      ∷ bit_and (v >> 40) 0xFF
      ∷ bit_and (v >> 48) 0xFF
      ∷ bit_and (v >> 56) 0xFF
      ∷ [];
}

-- `find_match_kv_idx`, from index `i`; nothing is -1. `l_addr` is where the own value stands.
unfoldable pub find_match_kv_idx : ℕ → ℕ → Bytes → List (Candidate × KvObject) → Option ℕ
find_match_kv_idx i l_addr key [] = none
find_match_kv_idx i l_addr key ((c, o) ∷ kv_read) =
    let rest = find_match_kv_idx (i + 1) l_addr key kv_read in
    if check_key (c.l_kv_addr + log_header_size) o.key (length o.key) (l_addr + log_header_size) key
      (length key)
    then some i
    else rest

-- The test whether the value that was read through the cache is that of the key.
unfoldable pub cached_matches : ℕ → ℕ → Bytes → KvObject → Bool
cached_matches local_cache_addr l_addr key o =
    if o.is_valid
    then check_key (local_cache_addr + log_header_size) o.key (length o.key)
        (l_addr + log_header_size) key (length key)
    else false
