-- ===== src/Kv/Log/Recovery.antt =====
-- src/client_mm.cc: the queue of free subblocks of a client that starts again (`mm_recover_mm_blocks`),
-- from the records that `mm_traverse_log` has visited and from the blocks of the client.
use fusee_fs.Prelude.{
  ℕ, zero, suc, ◌+◌, bit_or, Bool, false, ◌==◌, ◌||◌, Option, none, some, List, [], ◌∷◌, ◌++◌, drop,
  if◌then◌else◌,
}
use fusee_fs.Kv.Subblocks.{Replica, SubblockInfo, ClientMm, gen_subblock_info}
use fusee_fs.Kv.Client.{RemoteAddr}
use fusee_fs.Kv.Client.Slots.{first_replica}
use fusee_fs.Kv.Log.{Memory, mm_traverse_log}

-- An address with its server in the low byte.
unfoldable pub pr_addr : RemoteAddr → ℕ
pr_addr (server_id, addr) = bit_or addr server_id

-- `recover_addr_is_allocated_map_`.
unfoldable pub is_visited : List RemoteAddr → ℕ → Bool
unfolding pr_addr
is_visited [] cur = false
is_visited (a ∷ visited) cur = (cur == pr_addr a) || is_visited visited cur

-- The last record is the next subblock, which was not given out. The source reads out of bounds where there
-- is none.
unfoldable pub queue_head_pr_addr : List RemoteAddr → ℕ
unfolding pr_addr
queue_head_pr_addr [] = 0
queue_head_pr_addr (a ∷ []) = pr_addr a
queue_head_pr_addr (a ∷ b ∷ visited) = queue_head_pr_addr (b ∷ visited)

-- The record before it; where there is none, what stood on the stack.
unfoldable pub last_allocated_pr_addr : ℕ → List RemoteAddr → ℕ
unfolding pr_addr
last_allocated_pr_addr garbage [] = garbage
last_allocated_pr_addr garbage (a ∷ []) = garbage
last_allocated_pr_addr garbage (a ∷ b ∷ []) = pr_addr a
last_allocated_pr_addr garbage (a ∷ b ∷ c ∷ visited) =
    last_allocated_pr_addr garbage (b ∷ c ∷ visited)

-- `all_subblock_queue`, `queue_head_info` and `last_allocated_info_`.
pub record Recovered : Type 0 where
  pub all_subblock_queue : ℕ → List SubblockInfo
  pub queue_head_info : SubblockInfo
  pub last_allocated_info : SubblockInfo

unfoldable pub push : ℕ → SubblockInfo → (ℕ → List SubblockInfo) → ℕ → List SubblockInfo
push server_id s queues i = if i == server_id then queues i ++ s ∷ [] else queues i

-- What is done with one subblock of a block.
unfoldable pub recover_subblock : ℕ → List RemoteAddr → SubblockInfo → Recovered → Recovered
unfolding queue_head_pr_addr last_allocated_pr_addr is_visited push first_replica pr_addr
recover_subblock garbage visited s r =
    let cur = pr_addr (first_replica s) in
    if cur == queue_head_pr_addr visited
    then record r { queue_head_info = s }
    else if cur == last_allocated_pr_addr garbage visited
    then record r { last_allocated_info = s }
    else if is_visited visited cur
    then r
    else record r { all_subblock_queue = push (first_replica s).0 s r.all_subblock_queue }

unfoldable pub recover_subblocks : ℕ → List RemoteAddr → List SubblockInfo → Recovered → Recovered
unfolding recover_subblock
recover_subblocks garbage visited [] r = r
recover_subblocks garbage visited (s ∷ subblocks) r =
    recover_subblocks garbage visited subblocks (recover_subblock garbage visited s r)

-- The subblocks of one block, `count` of them from number `i`.
unfoldable pub block_subblocks : ℕ → ℕ → ℕ → List Replica → List SubblockInfo
unfolding gen_subblock_info
block_subblocks subblock_sz zero i block = []
block_subblocks subblock_sz (suc count) i block =
    gen_subblock_info subblock_sz block i ∷ block_subblocks subblock_sz count (i + 1) block

-- The subblocks that the loop over the blocks goes through, without those of the bit map.
unfoldable pub all_subblocks : ℕ → ℕ → ℕ → List (List Replica) → List SubblockInfo
unfolding block_subblocks
all_subblocks subblock_sz count bmap_block_num [] = []
all_subblocks subblock_sz count bmap_block_num (block ∷ blocks) =
    block_subblocks subblock_sz count bmap_block_num block
    ++ all_subblocks subblock_sz count bmap_block_num blocks

-- What one server adds to a round.
unfoldable pub front : List SubblockInfo → List SubblockInfo → List SubblockInfo
front [] more = more
front (s ∷ queue) more = s ∷ more

-- One round over the queues of `num_memory` servers from `i` on: what it takes.
unfoldable pub fronts : ℕ → ℕ → (ℕ → List SubblockInfo) → List SubblockInfo
unfolding front
fronts zero i queues = []
fronts (suc num_memory) i queues = front (queues i) (fronts num_memory (i + 1) queues)

unfoldable pub without_fronts : (ℕ → List SubblockInfo) → ℕ → List SubblockInfo
without_fronts queues i = drop 1 (queues i)

unfoldable pub behind : List SubblockInfo → Option (List SubblockInfo) → Option (List SubblockInfo)
behind taken none = none
behind taken (some queue) = some (taken ++ queue)

-- The rest of the rounds, after one that takes a list.
unfoldable pub after_round :
    List SubblockInfo → Option (List SubblockInfo) → Option (List SubblockInfo)
unfolding behind
after_round [] rest = some []
after_round (s ∷ taken) rest = behind (s ∷ taken) rest

-- The rounds, on fuel, until one takes nothing.
unfoldable pub merge : ℕ → ℕ → (ℕ → List SubblockInfo) → Option (List SubblockInfo)
unfolding fronts without_fronts after_round
merge zero num_memory queues = none
merge (suc fuel) num_memory queues =
    after_round (fronts num_memory 0 queues) (merge fuel num_memory (without_fronts queues))

-- The queue begins with the next subblock.
unfoldable pub restore : ℕ → Recovered → Option (List SubblockInfo) → Option ClientMm
restore subblock_sz r none = none
restore subblock_sz r (some queue) = some (record {
  subblock_sz = subblock_sz;
  subblock_free_queue = r.queue_head_info ∷ queue;
  last_allocated_info = r.last_allocated_info;
})

-- From the records that were visited and the subblocks of the blocks. `unset` is what the two subblocks
-- are where no subblock is one of them.
unfoldable pub mm_recover_mm_blocks :
    ℕ → ℕ → ℕ → ℕ → SubblockInfo → List RemoteAddr → List SubblockInfo → Option ClientMm
unfolding recover_subblocks merge restore
mm_recover_mm_blocks fuel subblock_sz num_memory garbage unset visited subblocks =
    let r = recover_subblocks garbage visited subblocks (record {
      all_subblock_queue = λ i. [];
      queue_head_info = unset;
      last_allocated_info = unset;
    }) in
    restore subblock_sz r (merge fuel num_memory r.all_subblock_queue)

unfoldable pub recover_visited :
    ℕ → ℕ → ℕ → ℕ → SubblockInfo → List SubblockInfo → Option (List RemoteAddr) → Option ClientMm
unfolding mm_recover_mm_blocks
recover_visited rounds subblock_sz num_memory garbage unset subblocks none = none
recover_visited rounds subblock_sz num_memory garbage unset subblocks (some visited) =
    mm_recover_mm_blocks rounds subblock_sz num_memory garbage unset visited subblocks

-- `mm_recovery`, from the memory that is read, the head of the log and the subblocks of the blocks.
unfoldable pub mm_recovery :
    ℕ → ℕ → ℕ → ℕ → ℕ → SubblockInfo → List SubblockInfo → Memory → RemoteAddr → Option ClientMm
unfolding recover_visited mm_traverse_log
mm_recovery fuel rounds subblock_sz num_memory garbage unset subblocks mem head =
    recover_visited rounds subblock_sz num_memory garbage unset subblocks
      (mm_traverse_log fuel mem head)
