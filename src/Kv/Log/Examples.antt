-- ===== src/Kv/Log/Examples.antt =====
-- A log of two records, in a queue of three subblocks with two replicas.
use fusee_fs.Prelude.{All, ℕ, ◌<◌, ◌%◌, ◌^◌, ◌≡◌, refl, true, none, some, List, [], ◌∷◌, arith}
use fusee_fs.Kv.Hash.{convert_40_to_64_bits}
use fusee_fs.Kv.Subblocks.{SubblockInfo, ClientMm, gen_subblock_info}
use fusee_fs.Kv.Client.{KvOp, RemoteAddr, kv_op_insert, kv_op_update}
use fusee_fs.Kv.Client.Slots.{first_replica}
use fusee_fs.Kv.Log.{Memory, log_writes, mm_traverse_log}
use fusee_fs.Kv.Log.Records.{IsPlaced, is_at}
use fusee_fs.Kv.Log.Recovery.{all_subblocks, block_subblocks, mm_recover_mm_blocks, mm_recovery}
use fusee_fs.Kv.Log.Merged.{count_of}
use fusee_fs.Kv.Log.Unvisited.{unvisited}
use fusee_fs.Kv.Log.Restart.{mm_recovery-log_writes}
use fusee_fs.Kv.Log.Chain.{Apart, mm_traverse_log-log_writes}

abbrev subblock : ℕ → ℕ → SubblockInfo
subblock first second =
    record { addr = first; rkey = 7; server_id = 1 }
    ∷ record { addr = second; rkey = 8; server_id = 2 }
    ∷ []

abbrev queue : List SubblockInfo
queue = subblock 0x10400 0x20400 ∷ subblock 0x10800 0x20800 ∷ subblock 0x10c00 0x20c00 ∷ []

abbrev memory : Memory
memory server_id addr = record { next_addr = []; prev_addr = []; op = kv_op_insert }

abbrev client : ClientMm
client = record { subblock_sz = 1024; subblock_free_queue = queue; last_allocated_info = [] }

abbrev ops : List KvOp
ops = kv_op_insert ∷ kv_op_update ∷ []

placed :
    (first second : ℕ)
    → first < 2 ^ 48
    → first % 256 ≡ 0
    → 0 < first
    → IsPlaced (subblock first second)
unfolding first_replica
placed first second fits aligned present = record {
  fits = fits;
  aligned = aligned;
  present = present;
  server_fits = omega arith;
}

All-IsPlaced : All IsPlaced queue
All-IsPlaced = (
  placed _ _ (omega arith) refl (omega arith),
  (placed _ _ (omega arith) refl (omega arith), (placed _ _ (omega arith) refl (omega arith), tt)),
)

all-Apart : Apart queue
unfolding Apart is_at first_replica
all-Apart = (((refl, refl), ((refl, refl), tt)), (((refl, refl), tt), (tt, tt)))

mm_traverse_log-log_writes_example :
    mm_traverse_log 4 (log_writes none ops client memory) (1, 0x10400)
    ≡ some ((1, 0x10400) ∷ (1, 0x10800) ∷ (1, 0x10c00) ∷ [])
unfolding first_replica convert_40_to_64_bits
mm_traverse_log-log_writes_example =
    mm_traverse_log-log_writes none ops client (subblock 0x10400 0x20400) (subblock 0x10c00 0x20c00)
      (subblock 0x10800 0x20800 ∷ subblock 0x10c00 0x20c00 ∷ []) memory refl refl All-IsPlaced
      all-Apart refl

-- A block of four subblocks with two replicas, of which the first is the bit map.
abbrev subblocks : List SubblockInfo
subblocks = all_subblocks 1024 3 1 (subblock 0x10000 0x20000 ∷ [])

abbrev visited : List RemoteAddr
visited = (1, 0x10400) ∷ (1, 0x10800) ∷ []

mm_recover_mm_blocks-run :
    mm_recover_mm_blocks 4 1024 3 0 [] visited subblocks
    ≡ some (record {
      subblock_sz = 1024;
      subblock_free_queue = subblock 0x10800 0x20800 ∷ subblock 0x10c00 0x20c00 ∷ [];
      last_allocated_info = subblock 0x10400 0x20400;
    })
unfolding mm_recover_mm_blocks all_subblocks
mm_recover_mm_blocks-run = refl

mm_recovery-log_writes_example :
    (m : ClientMm) × (head : SubblockInfo) × (rest : List SubblockInfo) × (mm_recovery 3 4 1024 3 0
        [] subblocks
        (log_writes none (kv_op_insert ∷ []) client memory)
        (1, 0x10400)
      ≡ some m)
    × (m.subblock_free_queue ≡ head ∷ rest)
    × (count_of (λ s. true) rest ≡ count_of (λ s. true) (unvisited visited subblocks))
unfolding all_subblocks block_subblocks gen_subblock_info first_replica convert_40_to_64_bits
mm_recovery-log_writes_example =
    mm_recovery-log_writes (λ s. true) 3 0 [] subblocks none kv_op_insert [] client
      (subblock 0x10400 0x20400) (subblock 0x10800 0x20800) (subblock 0x10800 0x20800)
      (subblock 0x10c00 0x20c00 ∷ []) memory refl refl All-IsPlaced all-Apart refl
      (omega arith, (omega arith, (omega arith, tt)))
