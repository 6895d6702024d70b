-- ===== src/Kv/Examples.antt =====
-- The theorems on the hash index, the consensus and the blocks, at small inputs.
use fusee_fs.Prelude.{
  ℕ, ◌-◌, ◌+◌, ◌*◌, ◌<◌, ◌≤◌, ◌≡◌, ◌≢◌, ◌↔◌, ◌⊎◌, refl, true, false, some, none, List, [], ◌∷◌,
  length, take, replicate, All, bit_or, arith,
}
use fusee_fs.Kv.Consensus.{CasRequest, vote, check_cas_consensus_0_sync}
use fusee_fs.Kv.Consensus.Tally.{count, taken_values}
use fusee_fs.Kv.Consensus.Rule.{NoMajority, IsLeast, check_cas_consensus_0_sync-wins_iff}
use fusee_fs.Kv.Consensus.Winner.{wins, check_cas_consensus_0_sync_exists}
use fusee_fs.Kv.Hash.{
  convert_slot_to_int, RaceHashSlot, RaceHashBucket, is_free, free_slots, is_empty_pointer,
  get_free_slot_num, check_key,
}
use fusee_fs.Kv.Hash.Slots.{count_free}
use fusee_fs.Kv.Hash.Key.{check_key_iff}
use fusee_fs.Kv.Blocks.{
  Layout, Row, and_then, skip_full, place, rows_from, push_first, first_addrs, push_all, tagged,
  total_row, any_zero, alloc_row, map_rows, get_allocable_blocks, get_block_map, find,
}
use fusee_fs.Kv.Blocks.Placement.{IsLayout, Spaced, all_replicas, rows_from-Spaced}
use fusee_fs.Kv.Blocks.Agreement.{get_allocable_blocks-get_block_map}
use fusee_fs.Kv.ServerMm.{ServerMm, is_allocated, mm_alloc, mm_free, mm_alloc_subtable}
use fusee_fs.Kv.ServerMm.Pool.{queued, IsPool, mm_alloc-IsPool, mm_free-IsPool}
use fusee_fs.Kv.ServerMm.Subtables.{IsHashArea, mm_alloc_subtable_apart}
use fusee_fs.Kv.Subblocks.{SubblockInfo, ClientMm}
use fusee_fs.Kv.Candidates.{find_kv_in_buckets, BackToBack, find_kv_in_buckets-BackToBack}
use fusee_fs.Kv.Recover.{
  backup_occurrences, check_recover_need_cas_pr, check_recover_need_cas_pr_iff,
}
use fusee_fs.Kv.Buckets.{Buckets, IsFound, find_empty_slot, find_empty_slot_lem}
use fusee_fs.Kv.GcSlot.{
  DecodedClientGcSlot, encode_gc_slot, decode_gc_slot, IsGcSlot, decode_gc_slot-encode_gc_slot,
}

-- Three backups, of which two took 8 and one took 9; the slot held 5.
abbrev request : ℕ → ℕ → CasRequest
request target back = record {
  server_id = 1;
  r_kv_addr = 64;
  orig_value = 5;
  swap_value = target;
  swap_back = back;
}

abbrev requests : ℕ → List CasRequest
requests target = request target 8 ∷ request target 9 ∷ request target 8 ∷ []

abbrev backups : List ℕ
backups = 8 ∷ 9 ∷ 8 ∷ []

all_see : (v : ℕ) → taken_values v 5 (requests v) ≡ backups
unfolding taken_values vote
all_see v = ground arith

check_cas_consensus_0_sync-wins_iff_example :
    (wins (check_cas_consensus_0_sync 8 5 (length backups + 1) 5 (requests 8)).0 ≡ true) ↔ (
      (length backups < 2 * count 8 backups)
      ⊎ ((◌≡◌ {A = ℕ} 5 5) × NoMajority backups × IsLeast 8 backups))
check_cas_consensus_0_sync-wins_iff_example =
    check_cas_consensus_0_sync-wins_iff 5 8 5 (requests 8) backups (all_see 8) (omega arith)

check_cas_consensus_0_sync_exists_example :
    (v : ℕ) × (1 ≤ count v backups)
    × (wins (check_cas_consensus_0_sync v 5 (length backups + 1) 5 (requests v)).0 ≡ true)
unfolding count
check_cas_consensus_0_sync_exists_example =
    check_cas_consensus_0_sync_exists 5 backups 9 requests (omega arith) all_see

abbrev full_slot : RaceHashSlot
full_slot = record { fp = 3; kv_len = 1; server_id = 2; pointer = 1 ∷ 2 ∷ 3 ∷ 4 ∷ 5 ∷ [] }

abbrev empty_slot : RaceHashSlot
empty_slot = record { fp = 0; kv_len = 0; server_id = 0; pointer = 0 ∷ 0 ∷ 0 ∷ 0 ∷ 0 ∷ [] }

abbrev bucket : RaceHashBucket
bucket = record {
  local_depth = 5;
  prefix = 0;
  slots = full_slot ∷ empty_slot ∷ full_slot ∷ empty_slot ∷ full_slot ∷ full_slot ∷ full_slot ∷ [];
}

get_free_slot_num-run : get_free_slot_num bucket ≡ (2, 3)
unfolding get_free_slot_num free_slots is_free is_empty_pointer
get_free_slot_num-run = refl

check_key_iff_example :
    (check_key 3 (97 ∷ 98 ∷ 99 ∷ []) 2 8 (97 ∷ 98 ∷ []) 2 ≡ true)
    ↔ ((◌≡◌ {A = ℕ} 2 2) × (take {A = ℕ} 2 (97 ∷ 98 ∷ 99 ∷ []) ≡ take {A = ℕ} 2 (97 ∷ 98 ∷ [])))
check_key_iff_example = check_key_iff 3 8 2 2 (97 ∷ 98 ∷ 99 ∷ []) (97 ∷ 98 ∷ [])

-- Two servers with two blocks each, and two replicas of each block.
abbrev layout : Layout
layout = record {
  kv_area_addr = 0x1000;
  limit = 0x3000;
  block_size = 0x1000;
  num_blocks = 2;
  num_memory = 2;
  num_replication = 2;
}

layout-IsLayout : IsLayout layout
layout-IsLayout = record { servers = (omega arith, omega arith); in_range = omega arith }

abbrev row_list : List Row
row_list =
    record { st_sid = 0; replicas = (0x1000, 0) ∷ (0x1000, 1) ∷ [] }
    ∷ record { st_sid = 1; replicas = (0x2000, 1) ∷ (0x2000, 0) ∷ [] }
    ∷ []

row_list-run : rows_from layout 2 0 (replicate 2 0x1000) ≡ some row_list
unfolding rows_from and_then skip_full place
row_list-run = refl

rows_from-Spaced_example : Spaced 0x1000 (all_replicas row_list)
rows_from-Spaced_example = rows_from-Spaced layout layout-IsLayout 2 0 row_list row_list-run

blocks-run : get_allocable_blocks layout 1 ≡ some (0x2000 ∷ [])
unfolding get_allocable_blocks and_then rows_from skip_full place push_first first_addrs
blocks-run = refl

map-run :
    get_block_map layout
    ≡ some (
      (0x1000, 0x1001 ∷ [])
          ∷ (0x1001, 0x1000 ∷ [])
          ∷ (0x2001, 0x2000 ∷ [])
          ∷ (0x2000, 0x2001 ∷ [])
          ∷ [],
      (0x1000, 0x1001 ∷ []) ∷ (0x2001, 0x2000 ∷ []) ∷ [],
    )
unfolding get_block_map and_then rows_from skip_full place push_all tagged total_row any_zero
    alloc_row map_rows
map-run = refl

get_allocable_blocks-get_block_map_example :
    All
      (λ (addr : ℕ).
        find (bit_or addr 1) ((0x1000, 0x1001 ∷ []) ∷ (0x2001, 0x2000 ∷ []) ∷ []) ≢ none)
      (0x2000 ∷ [])
get_allocable_blocks-get_block_map_example =
    get_allocable_blocks-get_block_map layout layout-IsLayout 1 (0x2000 ∷ [])
      ((0x1000, 0x1001 ∷ [])
        ∷ (0x1001, 0x1000 ∷ [])
        ∷ (0x2001, 0x2000 ∷ [])
        ∷ (0x2000, 0x2001 ∷ [])
        ∷ [])
      ((0x1000, 0x1001 ∷ []) ∷ (0x2001, 0x2000 ∷ []) ∷ []) (omega arith) blocks-run map-run

-- A server with two blocks left and one that is out, and room for three subtables.
abbrev server : ServerMm
server = record {
  base_addr = 0x10000000;
  base_len = 0x10000000;
  client_gc_area_off = 0;
  client_gc_area_len = 0;
  client_hash_area_off = 0x1000;
  client_hash_area_len = 8000000;
  client_kv_area_off = 0x1000000;
  client_kv_area_len = 0x3000;
  client_kv_area_limit = 0x20000000;
  num_blocks = 3;
  allocable_blocks = 0x11001000 ∷ 0x11002000 ∷ [];
  allocated_blocks = (0x11000000, true) ∷ [];
  subtable_alloc_map = 1 ∷ 0 ∷ 0 ∷ [];
}

server-IsPool : IsPool server
unfolding queued is_allocated
server-IsPool = record { once = λ a. ground arith; apart = λ a h. ground arith }

mm_alloc-IsPool_example :
    IsPool (mm_alloc server).1
    × ((mm_alloc server).0 ≡ 0x11001000)
    × (is_allocated 0x11001000 server.allocated_blocks ≡ false)
    × (is_allocated 0x11001000 (mm_alloc server).1.allocated_blocks ≡ true)
mm_alloc-IsPool_example = mm_alloc-IsPool server server-IsPool 0x11001000 (0x11002000 ∷ []) refl

mm_free-IsPool_example :
    IsPool (mm_free 0x11000000 server).1
    × ((mm_free 0x11000000 server).0 ≡ is_allocated 0x11000000 server.allocated_blocks)
    × ((mm_free 0x11000000 (mm_free 0x11000000 server).1).0 ≡ false)
mm_free-IsPool_example = mm_free-IsPool server server-IsPool 0x11000000

server-IsHashArea : IsHashArea server
server-IsHashArea = record { fits = omega arith; in_range = omega arith }

mm_alloc_subtable_apart_example :
    let (a, s₁) = mm_alloc_subtable server in
    let (b, s₂) = mm_alloc_subtable s₁ in
    ((a ≡ 0) ↔ All (λ m. m ≢ 0) server.subtable_alloc_map)
    × ((a ≡ 0) ⊎ ((0x10000000 + 0x1000 + 2816 ≤ a) × (a + 2176000 ≤ 0x10000000 + 0x1000 + 8000000)))
    × ((a ≡ 0) ⊎ ((b ≡ 0) ⊎ ((a + 2176000 ≤ b) ⊎ (b + 2176000 ≤ a))))
mm_alloc_subtable_apart_example = mm_alloc_subtable_apart server server-IsHashArea

abbrev gc_slot : DecodedClientGcSlot
gc_slot = record { pr_addr = 0x10000300; bk_addr = 0x14000300; num_subblocks = 3 }

gc_slot-IsGcSlot : IsGcSlot gc_slot
gc_slot-IsGcSlot = record {
  pr_fits = omega arith;
  bk_fits = omega arith;
  aligned = refl;
  same_offset = refl;
  few = omega arith;
}

decode_gc_slot-encode_gc_slot_example : decode_gc_slot (encode_gc_slot gc_slot) ≡ gc_slot
decode_gc_slot-encode_gc_slot_example = decode_gc_slot-encode_gc_slot gc_slot gc_slot-IsGcSlot

-- The queue of a client with three subblocks; the last one that was taken is on server 2.
abbrev subblock : ℕ → SubblockInfo
subblock n = record { addr = n * 0x100; rkey = 7; server_id = 2 } ∷ []

abbrev client : ClientMm
client = record {
  subblock_sz = 0x100;
  subblock_free_queue = subblock 5 ∷ subblock 6 ∷ subblock 7 ∷ [];
  last_allocated_info = subblock 4;
}

abbrev buckets : Buckets
buckets = record { f0 = bucket; f1 = bucket; s0 = bucket; s1 = bucket }

find_empty_slot_lem_example :
    IsFound buckets (find_empty_slot buckets 0 1)
    × ((find_empty_slot buckets 0 1 ≡ none) ↔ (
        (count_free bucket.slots ≡ 0)
        × (count_free bucket.slots ≡ 0)
        × (count_free bucket.slots ≡ 0)
        × (count_free bucket.slots ≡ 0)))
find_empty_slot_lem_example = find_empty_slot_lem buckets 0 1 (omega arith) (omega arith)

check_recover_need_cas_pr_iff_example :
    ((check_recover_need_cas_pr 0 2 ((full_slot ∷ []) ∷ []) (((empty_slot ∷ []) ∷ []) ∷ [])).0
      ≡ true)
    ↔ (All
          (λ (slots : List RaceHashSlot). All (λ s. convert_slot_to_int s ≢ 0) slots)
          ((full_slot ∷ []) ∷ [])
        × (backup_occurrences 0 (((empty_slot ∷ []) ∷ []) ∷ []) ≡ 2 - 1))
check_recover_need_cas_pr_iff_example =
    check_recover_need_cas_pr_iff 0 2 ((full_slot ∷ []) ∷ []) (((empty_slot ∷ []) ∷ []) ∷ [])

find_kv_in_buckets-BackToBack_example :
    let (cs, end) = find_kv_in_buckets 3 0x100 0 (bucket.slots ∷ bucket.slots ∷ []) 0x1000 in
    BackToBack 0x1000 cs end
find_kv_in_buckets-BackToBack_example =
    find_kv_in_buckets-BackToBack 3 0x100 0 (bucket.slots ∷ bucket.slots ∷ []) 0x1000
