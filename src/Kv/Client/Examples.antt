-- ===== src/Kv/Client/Examples.antt =====
-- Requests of a client on a world that is one word, which every slot of the index reads as, and which
-- grows while the client waits.
use fusee_fs.Prelude.{
  ℕ, ◌+◌, ◌*◌, ◌≡◌, ◌≢◌, ◌≤◌, ◌↔◌, ◌⊎◌, refl, true, false, Option, none, some, [], ◌∷◌, bytes_eq,
  get_elem?, ◌==◌, if◌then◌else◌, arith, inl,
}
use fusee_fs.Fs.KvClient.{success, fail_return, fail_redo}
use fusee_fs.Kv.Hash.{
  RaceHashSlot, RaceHashBucket, convert_slot_to_int, convert_40_to_64_bits, variable_length_hash,
  subtable_first_index, subtable_second_index, get_free_slot_num, compute_fp,
}
use fusee_fs.Kv.Subblocks
use fusee_fs.Kv.Subblocks.{SubblockInfo, ClientMm, ClientMmAllocCtx}
use fusee_fs.Kv.Buckets.{Buckets}
use fusee_fs.Kv.Candidates.{Candidate, find_kv_in_buckets}
use fusee_fs.Kv.Consensus.{CasRequest, win_all, fail}
use fusee_fs.Kv.Client.LocalCache.{
  LocalCacheEntry, check_cache, update_cache, remove_cache, check_cache_fresh,
}
use fusee_fs.Kv.Client.Address.{
  RaceHashSubtableEntry, RaceHashRoot, KvHashInfo, TableAddr, bucket_size, subtable_bytes,
  log_header_size, get_kv_addr_info, get_kv_addr_info_apart,
}
use fusee_fs.Kv.Client.{
  write_unused, kv_req_insert, kv_req_update, kv_req_search, KvObject, KvReqCtx, Network, Config,
  State,
}
use fusee_fs.Kv.Client.Overlap.{get_kv_addr_info_overlap}
use fusee_fs.Kv.ServerMm.{ServerMm, subtable_len, mm_alloc_subtable}
use fusee_fs.Kv.Client.Slots.{first_replica}
use fusee_fs.Kv.Client.Voting
use fusee_fs.Kv.Client.Primary.{◌>=>◌}
use fusee_fs.Kv.Client.Insert
use fusee_fs.Kv.Client.Update
use fusee_fs.Kv.Client.Search
use fusee_fs.Kv.Client.Accounting.{kv_insert_sync_accounts}
use fusee_fs.Kv.Client.Taken.{kv_update_sync_keeps}
use fusee_fs.Kv.Client.Found.{NoKey, IsFirst, kv_search_check_kv-IsFirst}
use fusee_fs.Kv.Client.Ends.{
  waits, modify_backup_idx_consensus_1_ends, modify_backup_idx_consensus_1_sync_stuck,
}
use fusee_fs.Kv.Client.Results.{insert_lost}

abbrev empty_slot : RaceHashSlot
empty_slot = record { fp = 0; kv_len = 0; server_id = 0; pointer = 0 ∷ 0 ∷ 0 ∷ 0 ∷ 0 ∷ [] }

abbrev full_slot : RaceHashSlot
full_slot = record { fp = 3; kv_len = 1; server_id = 2; pointer = 1 ∷ 2 ∷ 3 ∷ 4 ∷ 5 ∷ [] }

abbrev bucket : RaceHashBucket
bucket = record { local_depth = 5; prefix = 0; slots = full_slot ∷ empty_slot ∷ [] }

abbrev buckets : Buckets
buckets = record { f0 = bucket; f1 = bucket; s0 = bucket; s1 = bucket }

abbrev net : Network ℕ
net = record {
  new_block = λ w. none;
  read_buckets = λ ts w. buckets;
  read_object = λ server addr len w. record { is_valid = true; key = 97 ∷ [] };
  read_word = λ server addr w. w;
  cas = λ r w. (w, if w == r.orig_value then r.swap_value else w);
  write = λ x w. w;
  wait = λ w. w + 1;
}

abbrev entry : RaceHashSubtableEntry
entry = record { lock = 0; local_depth = 5; server_id = 1; pointer = 0 ∷ 0 ∷ 1 ∷ 0 ∷ 0 ∷ [] }

abbrev root : RaceHashRoot
root = record {
  global_depth = 5;
  subtable_hash_range = 34000;
  subtable_entry = λ prefix. entry ∷ entry ∷ [];
}

abbrev config : ℕ → Config
config num_idx_rep = record {
  race_root = root;
  num_idx_rep = num_idx_rep;
  server_st_addr = 0x100;
  server_data_len = 0x10000;
  misses_often = λ misses accesses. false;
}

abbrev subblock : ℕ → SubblockInfo
subblock n = record { addr = n * 0x100; rkey = 7; server_id = 2 } ∷ []

abbrev memory : ClientMm
memory = record {
  subblock_sz = 0x100;
  subblock_free_queue = subblock 5 ∷ subblock 6 ∷ subblock 7 ∷ [];
  last_allocated_info = subblock 4;
}

abbrev request : ℕ → ℕ → ℕ → CasRequest
request orig swap back = record {
  server_id = 1;
  r_kv_addr = 64;
  orig_value = orig;
  swap_value = swap;
  swap_back = back;
}

abbrev context : KvReqCtx
context = record {
  req_type = kv_req_insert;
  use_cache = true;
  should_stop = false;
  l_addr = 0x1000;
  key = 97 ∷ [];
  value_len = 8;
  local_kv_addr = 0x2000;
  local_cache_addr = 0x2000;
  op_word = 0;
  hash_info = record { hash_value = 0; prefix = 0; fp = 0; local_depth = 0 };
  tbl_addr_info = record { replicas = []; f_main_idx = 0; s_main_idx = 0; f_idx = 0; s_idx = 0 };
  buckets = buckets;
  kv_read = [];
  cached = none;
  mm_alloc_ctx = record { replicas = []; next = []; prev = [] };
  consensus_state = win_all;
  kv_modify_pr_cas = request 0 0 0;
  kv_modify_bk_0_cas_list = [];
  kv_modify_bk_1_cas_list = [];
  kv_invalid_addr = (0, 0);
  log_commit_addr_list = [];
  write_unused_addr_list = [];
  is_finished = false;
  is_cache_hit = false;
  ret_code = success;
  value_addr = none;
}

abbrev state : KvReqCtx → State ℕ
state ctx = record { ctx = ctx; mm = memory; cache = []; freed = []; world = 0 }

abbrev get : {A : Type 0} → Option A → A → A
get none a = a
get (some x) a = x

-- One replica of the index: the swap finds another word, and the insert is to be repeated.
abbrev inserted : State ℕ
inserted = get (Insert.kv_insert_sync net (config 1) 4 (state context)) (state context)

inserted-run : Insert.kv_insert_sync net (config 1) 4 (state context) ≡ some inserted
unfolding Insert.kv_insert_sync Subblocks.mm_alloc get_free_slot_num subtable_first_index
    variable_length_hash subtable_second_index
inserted-run = refl

-- It is to be repeated, and its subblock is back in the queue.
inserted-redo : (inserted.ctx.ret_code ≡ fail_redo) × (inserted.mm ≡ memory)
unfolding Insert.kv_insert_sync Subblocks.mm_alloc get_free_slot_num subtable_first_index
    variable_length_hash subtable_second_index convert_slot_to_int Subblocks.mm_free_cur
inserted-redo = (refl, refl)

kv_insert_sync_accounts_example :
    ((inserted.ctx.ret_code ≡ success)
      × (inserted.mm.subblock_free_queue ≡ subblock 6 ∷ subblock 7 ∷ []))
    ⊎ ((inserted.ctx.ret_code ≢ success) × (inserted.mm ≡ memory))
unfolding first_replica
kv_insert_sync_accounts_example =
    kv_insert_sync_accounts net (config 1) 4 (state context) inserted (subblock 5) (subblock 6)
      (subblock 7 ∷ []) refl (record { aligned = refl; server_fits = omega arith }, tt)
      (omega arith) (omega arith) refl refl inserted-run

abbrev updating : KvReqCtx
updating = record context { req_type = kv_req_update }

abbrev updated : State ℕ
updated = get (Update.kv_update_sync net (config 1) 4 (state updating)) (state updating)

updated-run : Update.kv_update_sync net (config 1) 4 (state updating) ≡ some updated
unfolding Update.kv_update_sync Subblocks.mm_alloc find_kv_in_buckets compute_fp
    variable_length_hash
updated-run = refl

-- No value has the key, and the subblock is not back.
updated-fails :
    (updated.ctx.ret_code ≡ fail_return)
    × (updated.mm.subblock_free_queue ≡ subblock 6 ∷ subblock 7 ∷ [])
unfolding Update.kv_update_sync Subblocks.mm_alloc find_kv_in_buckets compute_fp
    variable_length_hash
updated-fails = (refl, refl)

kv_update_sync_keeps_example :
    (updated.mm ≡ (Subblocks.mm_alloc none memory).1) × (updated.ctx.ret_code ≢ fail_redo)
kv_update_sync_keeps_example =
    kv_update_sync_keeps net (config 1) 4 (state updating) updated refl (λ h. absurd cc) updated-run

check_cache_fresh_example :
    ((e : LocalCacheEntry)
      → (check_cache (λ x y. false) (97 ∷ []) (update_cache (97 ∷ []) full_slot (64 ∷ []) [])).0
        ≡ some e
      → convert_slot_to_int e.l_slot ≡ convert_slot_to_int full_slot)
    × (bytes_eq (97 ∷ []) (98 ∷ []) ≡ false
        → (check_cache (λ x y. false) (98 ∷ []) (update_cache (97 ∷ []) full_slot (64 ∷ []) [])).0
          ≡ (check_cache (λ x y. false) (98 ∷ []) []).0)
    × ((check_cache (λ x y. false) (97 ∷ []) (remove_cache (97 ∷ []) [])).0 ≡ none)
check_cache_fresh_example =
    check_cache_fresh (λ x y. false) (97 ∷ []) (98 ∷ []) full_slot (64 ∷ []) []

get_kv_addr_info_apart_example :
    let info : KvHashInfo = record {
      hash_value = 0x123456789abc;
      prefix = 3;
      fp = 0;
      local_depth = 5;
    } in
    (a : TableAddr) × (get_elem? (get_kv_addr_info root 2 info).replicas 1 ≡ some a)
    × (a.server_id ≡ entry.server_id)
    × (convert_40_to_64_bits entry.pointer ≤ a.f_bucket_addr)
    × (a.f_bucket_addr + 2 * bucket_size ≤ a.s_bucket_addr)
    × (a.s_bucket_addr + 2 * bucket_size
        ≤ convert_40_to_64_bits entry.pointer + subtable_bytes 34000)
unfolding convert_40_to_64_bits
get_kv_addr_info_apart_example =
    get_kv_addr_info_apart root 2 1
      (record { hash_value = 0x123456789abc; prefix = 3; fp = 0; local_depth = 5 }) entry refl
      (omega arith) (omega arith) (omega arith) refl (omega arith)

-- A server with two free subtables, the first of them at the entry of a replica of the index.
abbrev server : ServerMm
server = record {
  base_addr = 0x10000000;
  base_len = 0x10000000;
  client_gc_area_off = 0;
  client_gc_area_len = 0;
  client_hash_area_off = 0x1000;
  client_hash_area_len = 8000000;
  client_kv_area_off = 0x1000000;
  client_kv_area_len = 0x3000;
  client_kv_area_limit = 0x20000000;
  num_blocks = 0;
  allocable_blocks = [];
  allocated_blocks = [];
  subtable_alloc_map = 0 ∷ 0 ∷ [];
}

abbrev first_entry : RaceHashSubtableEntry
first_entry = record entry { pointer = 0 ∷ 0 ∷ 0x10 ∷ 0 ∷ 0x1b ∷ [] }

abbrev first_root : RaceHashRoot
first_root = record root { subtable_entry = λ prefix. first_entry ∷ [] }

get_kv_addr_info_overlap_example :
    let info : KvHashInfo = record {
      hash_value = 0x111111111;
      prefix = 3;
      fp = 0;
      local_depth = 5;
    } in
    let next = (mm_alloc_subtable (mm_alloc_subtable server).1).0 in
    (a : TableAddr) × (get_elem? (get_kv_addr_info first_root 1 info).replicas 0 ≡ some a)
    × ((next ≤ a.s_bucket_addr) ↔ (
        22667 ≤ subtable_second_index 0x111111111 (subtable_first_index 0x111111111 34000) 34000))
    × (a.s_bucket_addr + 2 * bucket_size ≤ next + subtable_len)
unfolding convert_40_to_64_bits mm_alloc_subtable
get_kv_addr_info_overlap_example =
    get_kv_addr_info_overlap first_root 1 0
      (record { hash_value = 0x111111111; prefix = 3; fp = 0; local_depth = 5 }) first_entry server
      [] refl (omega arith) refl refl (record { fits = omega arith; in_range = omega arith }) refl

-- The second index of this key is among those whose buckets are in the next subtable.
second_index-past :
    22667 ≤ subtable_second_index 0x111111111 (subtable_first_index 0x111111111 34000) 34000
unfolding subtable_first_index subtable_second_index
second_index-past = omega arith

-- Two backups, which both took 9, so that the insert of 7 is lost; the slot held 0.
abbrev losing : KvReqCtx
losing = record context {
  kv_modify_pr_cas = request 0 7 0;
  kv_modify_bk_0_cas_list = request 0 7 9 ∷ request 0 7 9 ∷ [];
}

modify_backup_idx_consensus_1_ends_example :
    (t : State ℕ) × (Voting.modify_backup_idx_consensus_1 net (config 3) 1 (state losing) ≡ some t)
unfolding waits
modify_backup_idx_consensus_1_ends_example =
    modify_backup_idx_consensus_1_ends net (config 3) 0 1 (state losing) (omega arith) (omega arith)

modify_backup_idx_consensus_1_sync_stuck_example :
    ((fuel : ℕ)
      → Voting.modify_backup_idx_consensus_1_sync net (config 3) fuel (state losing) ≡ none)
    ↔ (((Voting.check_consensus net (config 3) (state losing)).ctx.consensus_state ≡ fail)
        × (◌≡◌ {A = ℕ} 0 0))
modify_backup_idx_consensus_1_sync_stuck_example =
    modify_backup_idx_consensus_1_sync_stuck net (config 3) (state losing)

-- The insert is lost, and its client waits forever.
losing-fails : (Voting.check_consensus net (config 3) (state losing)).ctx.consensus_state ≡ fail
unfolding Voting.check_consensus
losing-fails = refl

abbrev lost : State ℕ
lost =
    get
      ((Insert.insert_backups net (config 3) 4 >=> Insert.kv_insert_cas_primary_sync net (config 3))
        (state (record losing { op_word = 5 })))
      (state context)

lost-run :
    (Insert.insert_backups net (config 3) 4 >=> Insert.kv_insert_cas_primary_sync net (config 3))
      (state (record losing { op_word = 5 }))
    ≡ some lost
unfolding Insert.insert_backups Insert.kv_insert_cas_primary_sync
lost-run = refl

insert_lost_example :
    (lost.ctx.ret_code ≡ success)
    × ((k : ℕ) × (lost.world
          ≡ net.write (write_unused losing.write_unused_addr_list) (waits net (config 3) k 0)))
    × (lost.ctx.kv_modify_pr_cas ≡ request 0 7 0)
    × (lost.mm ≡ memory)
    × (lost.cache ≡ [])
    × (lost.freed ≡ [])
unfolding Voting.check_consensus
insert_lost_example =
    insert_lost net (config 3) 4 (state (record losing { op_word = 5 })) lost refl refl refl
      (inl refl) lost-run

-- The second of the two values that were read has the key.
abbrev candidate : ℕ → Candidate
candidate l = record {
  bucket_idx = 0;
  slot_idx = 0;
  server_id = 1;
  r_kv_addr = 64;
  l_kv_addr = l;
  len = 0x100;
}

abbrev searching : KvReqCtx
searching = record context {
  req_type = kv_req_search;
  kv_read =
      (candidate 0x2000, record { is_valid = true; key = 98 ∷ [] })
      ∷ (candidate 0x2100, record { is_valid = true; key = 97 ∷ [] })
      ∷ [];
}

kv_search_check_kv-IsFirst_example :
    let t = Search.kv_search_check_kv net (config 1) (state searching) in
    ((t.ctx.value_addr ≡ none) × NoKey searching.key searching.kv_read)
    ⊎ ((j : ℕ) × (r : Candidate × KvObject) × (t.ctx.value_addr
          ≡ some (r.0.l_kv_addr + log_header_size + 1))
        × IsFirst searching.key searching.kv_read j r)
kv_search_check_kv-IsFirst_example =
    kv_search_check_kv-IsFirst net (config 1) (state searching) refl
