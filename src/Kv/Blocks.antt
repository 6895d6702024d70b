-- ===== src/Kv/Blocks.antt =====
-- How servers and clients lay out replicated blocks: `ServerMM::get_allocable_blocks` of
-- src/server_mm.cc and `ClientMM::get_block_map` of src/client_mm.cc run the same loop over the same
-- configuration. An `exit(1)` is `none` here.
pub mod Placement
pub mod Agreement
use fusee_fs.Prelude.{
  ℕ, zero, suc, ◌+◌, ◌-◌, ◌*◌, ◌/◌, ◌%◌, ◌^◌, bit_and, bit_or, Bool, true, false, not, Option, none,
  some, List, [], ◌∷◌, ◌++◌, get_or, set, replicate, leb, ◌==◌, if◌then◌else◌,
}
use fusee_fs.Prelude.Word.{u8, u32, u64}

-- The configuration that the loop reads; `kv_area_addr` and `limit` bound the area of every server.
pub record Layout : Type 0 where
  pub kv_area_addr : ℕ
  pub limit : ℕ
  pub block_size : ℕ
  pub num_blocks : ℕ
  pub num_memory : ℕ
  pub num_replication : ℕ

-- One block: the server that hands it out, and the replicas, each an address and its server.
pub record Row : Type 0 where
  pub st_sid : ℕ
  pub replicas : List (ℕ × ℕ)

unfoldable pub and_then : {A B : Type 0} → Option A → (A → Option B) → Option B
and_then none f = none
and_then (some a) f = f a

module _ (lay : Layout) where
  -- The inner `while`, on fuel: the number of servers is enough, since after as many steps every server
  -- was found full, and the source would go round for ever.
  unfoldable pub skip_full : ℕ → ℕ → List ℕ → Option ℕ
  skip_full zero st_sid mn_addr_ptr = none
  skip_full (suc fuel) st_sid mn_addr_ptr =
      let next = skip_full fuel ((st_sid + 1) % lay.num_memory) mn_addr_ptr in
      if get_or mn_addr_ptr st_sid 0 == lay.limit then next else some st_sid

  -- The loop over the replicas, from number `i`. The test on the address binds as
  -- `addr & (0xFF != 0)`.
  unfoldable pub place : ℕ → ℕ → ℕ → List ℕ → Option (List (ℕ × ℕ) × List ℕ)
  unfolding and_then
  place zero i st_sid mn = some ([], mn)
  place (suc n) i st_sid mn =
      let sid = u8 ((st_sid + i) % lay.num_memory) in
      let addr = get_or mn sid 0 in
      let rest = place n (i + 1) st_sid (set mn sid (u64 (addr + lay.block_size))) in
      if leb lay.limit addr
      then none
      else if not (bit_and addr 1 == 0)
      then none
      else and_then rest λ (r : List (ℕ × ℕ) × List ℕ). some ((addr, sid) ∷ r.0, r.1)

  -- The outer loop, for the blocks that are left.
  unfoldable pub rows_from : ℕ → ℕ → List ℕ → Option (List Row)
  unfolding and_then skip_full place
  rows_from zero block_cnt mn = some []
  rows_from (suc n) block_cnt mn =
      and_then (skip_full lay.num_memory (block_cnt % lay.num_memory) mn) λ st_sid.
        and_then (place lay.num_replication 0 st_sid mn) λ (r : List (ℕ × ℕ) × List ℕ).
          and_then (rows_from n (block_cnt + 1) r.1)
            λ rest. some ((record { st_sid = st_sid; replicas = r.0 }) ∷ rest)

  -- `allocable_blocks_.push(addr_list[0])`, on the server that hands the block out.
  unfoldable pub push_first : ℕ → ℕ → List (ℕ × ℕ) → List ℕ → List ℕ
  push_first my_sid st_sid [] rest = rest
  push_first my_sid st_sid ((addr, sid) ∷ others) rest =
      if st_sid == my_sid then addr ∷ rest else rest

  unfoldable pub first_addrs : ℕ → List Row → List ℕ
  unfolding push_first
  first_addrs my_sid [] = []
  first_addrs my_sid (row ∷ rows) =
      push_first my_sid row.st_sid row.replicas (first_addrs my_sid rows)

  -- `get_allocable_blocks` of the server `my_sid`: `allocable_blocks_`.
  unfoldable pub get_allocable_blocks : ℕ → Option (List ℕ)
  unfolding and_then rows_from first_addrs
  get_allocable_blocks my_sid =
      and_then
        (rows_from (u32 (lay.num_blocks * lay.num_memory) / lay.num_replication) 0
          (replicate lay.num_memory lay.kv_area_addr))
        λ rows. some (first_addrs my_sid rows)

-- A `std::map` to vectors, and `m[k].push_back(v)` for each of some values.
abbrev pub BlockMap : Type 0
BlockMap = List (ℕ × List ℕ)

unfoldable pub find : ℕ → BlockMap → Option (List ℕ)
find k [] = none
find k ((j, vs) ∷ m) = if k == j then some vs else find k m

unfoldable pub push_all : ℕ → List ℕ → BlockMap → BlockMap
push_all k vs [] = (k, vs) ∷ []
push_all k vs ((j, ws) ∷ m) =
    let rest = push_all k vs m in if k == j then (j, ws ++ vs) ∷ m else (j, ws) ∷ rest

-- `addr_list` of the client: each address with its server in the low byte.
unfoldable pub tagged : List (ℕ × ℕ) → List ℕ
tagged [] = []
tagged ((addr, sid) ∷ replicas) = bit_or addr sid ∷ tagged replicas

-- `total_block_map_` after one block: every replica leads to the others.
unfoldable pub total_row : List ℕ → List ℕ → BlockMap → BlockMap
unfolding push_all
total_row before [] m = m
total_row before (k ∷ after) m = total_row (before ++ k ∷ []) after (push_all k (before ++ after) m)

unfoldable pub any_zero : List ℕ → Bool
any_zero [] = false
any_zero (k ∷ ks) = let rest = any_zero ks in if k == 0 then true else rest

-- `alloc_block_map_` after one block: the first replica leads to the others, or to 0 if it is alone.
unfoldable pub alloc_row : List ℕ → BlockMap → Option BlockMap
unfolding push_all any_zero
alloc_row [] m = some m
alloc_row (k ∷ []) m = some (push_all k (0 ∷ []) m)
alloc_row (k ∷ j ∷ after) m = if any_zero (j ∷ after) then none else some (push_all k (j ∷ after) m)

unfoldable pub map_rows : List Row → BlockMap × BlockMap → Option (BlockMap × BlockMap)
unfolding and_then tagged total_row alloc_row
map_rows [] m = some m
map_rows (row ∷ rows) (total, alloc) =
    and_then (alloc_row (tagged row.replicas) alloc)
      λ (alloc' : BlockMap). map_rows rows (total_row [] (tagged row.replicas) total, alloc')

-- `get_block_map`: `total_block_map_` and `alloc_block_map_`.
unfoldable pub get_block_map : Layout → Option (BlockMap × BlockMap)
unfolding and_then rows_from map_rows
get_block_map lay =
    and_then
      (rows_from lay (u32 (u64 (lay.num_blocks * lay.num_memory) / lay.num_replication)) 0
        (replicate lay.num_memory lay.kv_area_addr))
      λ rows. map_rows rows ([], [])
