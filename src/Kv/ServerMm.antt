-- ===== src/Kv/ServerMm.antt =====
-- src/server_mm.cc: the memory of one server. Its areas for clients' metadata, the hash index and
-- the blocks lie one after the other; the blocks are a queue, and the subtables a vector of marks.
pub mod Pool
pub mod Subtables
use fusee_fs.Prelude.{
  ℕ, zero, suc, ◌+◌, ◌-◌, ◌*◌, ◌/◌, ◌%◌, ◌^◌, Bool, true, false, not, Option, none, some, List, [],
  ◌∷◌, ◌++◌, set, replicate, leb, ◌==◌, if◌then◌else◌,
}
use fusee_fs.Prelude.Word.{u32, u64, sub64}

-- src/hashtable.h: lengths of the areas, of a subtable and of the root.
abbrev pub meta_area_len : ℕ
meta_area_len = 256 * 1024 * 1024

abbrev pub gc_area_len : ℕ
gc_area_len = 0

abbrev pub hash_area_len : ℕ
hash_area_len = 128 * 1024 * 1024

abbrev pub subtable_len : ℕ
subtable_len = 34000 * 64

-- sixteen words and 32 times ten entries of 8 bytes
abbrev pub root_res_len : ℕ
root_res_len = 16 * 8 + 32 * 10 * 8

unfoldable pub roundup_256 : ℕ → ℕ
roundup_256 len = if len % 256 == 0 then len else u64 ((len / 256 + 1) * 256)

unfoldable pub round_up : ℕ → ℕ → ℕ
round_up addr align = sub64 (sub64 (u64 (addr + align)) 1) (sub64 (u64 (addr + align)) 1 % align)

pub record ServerMm : Type 0 where
  pub base_addr : ℕ
  pub base_len : ℕ
  pub client_gc_area_off : ℕ
  pub client_gc_area_len : ℕ
  pub client_hash_area_off : ℕ
  pub client_hash_area_len : ℕ
  pub client_kv_area_off : ℕ
  pub client_kv_area_len : ℕ
  pub client_kv_area_limit : ℕ
  pub num_blocks : ℕ
  pub allocable_blocks : List ℕ
  pub allocated_blocks : List (ℕ × Bool)
  pub subtable_alloc_map : List ℕ

unfoldable pub get_subtable_st_addr : ServerMm → ℕ
unfolding roundup_256
get_subtable_st_addr s = u64 (s.client_hash_area_off + s.base_addr + roundup_256 root_res_len)

unfoldable pub get_kv_area_addr : ServerMm → ℕ
get_kv_area_addr s = u64 (s.client_kv_area_off + s.base_addr)

-- The marks of `init_subtable`: none is taken. Its writes of empty buckets are to memory that is not
-- modelled here.
unfoldable pub init_subtable : ℕ → ServerMm → ServerMm
unfolding roundup_256
init_subtable subtable_addr s =
    let max_subtables =
      sub64 (u64 (s.base_addr + s.client_hash_area_off + s.client_hash_area_len)) subtable_addr
      / roundup_256 subtable_len in
    record s { subtable_alloc_map = replicate max_subtables 0 }

-- The constructor, before the blocks are laid out.
unfoldable pub make_server_mm : ℕ → ℕ → ℕ → ServerMm
unfolding round_up get_subtable_st_addr init_subtable
make_server_mm server_base_addr base_len block_size =
    let client_kv_area_off = round_up (meta_area_len + gc_area_len + hash_area_len) block_size in
    let client_kv_area_len = sub64 base_len client_kv_area_off in
    let s : ServerMm = record {
      base_addr = server_base_addr;
      base_len = base_len;
      client_gc_area_off = meta_area_len;
      client_gc_area_len = gc_area_len;
      client_hash_area_off = meta_area_len + gc_area_len;
      client_hash_area_len = hash_area_len;
      client_kv_area_off = client_kv_area_off;
      client_kv_area_len = client_kv_area_len;
      client_kv_area_limit = u64 (base_len + server_base_addr);
      num_blocks = u32 (client_kv_area_len / block_size);
      allocable_blocks = [];
      allocated_blocks = [];
      subtable_alloc_map = [];
    } in
    init_subtable (get_subtable_st_addr s) s

-- `allocated_blocks_[a]`, and `allocated_blocks_[a] = b`.
unfoldable pub is_allocated : ℕ → List (ℕ × Bool) → Bool
is_allocated a [] = false
is_allocated a ((k, b) ∷ m) = if a == k then b else is_allocated a m

pub mark : ℕ → Bool → List (ℕ × Bool) → List (ℕ × Bool)
mark a b [] = (a, b) ∷ []
mark a b ((k, c) ∷ m) = let rest = mark a b m in if a == k then (k, b) ∷ m else (k, c) ∷ rest

pub mm_alloc : ServerMm → ℕ × ServerMm
unfolding mark
mm_alloc s = elim s.allocable_blocks [
  | [] ↦ (0, s)
  | ret_addr ∷ blocks ↦ (
    ret_addr,
    record s {
      allocable_blocks = blocks;
      allocated_blocks = mark ret_addr true s.allocated_blocks;
    },
  )
]

-- True for a return value of 0, false for -1.
pub mm_free : ℕ → ServerMm → Bool × ServerMm
unfolding is_allocated mark
mm_free st_addr s =
    if is_allocated st_addr s.allocated_blocks
    then (
      true,
      record s {
        allocable_blocks = s.allocable_blocks ++ st_addr ∷ [];
        allocated_blocks = mark st_addr false s.allocated_blocks;
      },
    )
    else (false, s)

-- The loop of `mm_alloc_subtable`, from index `i`: the index and the marks, if there is a free one.
unfoldable pub take_subtable : ℕ → List ℕ → Option (ℕ × List ℕ)
take_subtable i [] = none
take_subtable i (b ∷ bs) =
    let rest = take_subtable (i + 1) bs in
    if b == 0 then some (i, 1 ∷ bs) else elim rest [ none ↦ none | some r ↦ some (r.0, b ∷ r.1) ]

unfoldable pub mm_alloc_subtable : ServerMm → ℕ × ServerMm
unfolding take_subtable get_subtable_st_addr roundup_256
mm_alloc_subtable s = elim (take_subtable 0 s.subtable_alloc_map) [
  | none ↦ (0, s)
  | some r ↦ (
    u64 (get_subtable_st_addr s + r.0 * roundup_256 subtable_len),
    record s { subtable_alloc_map = r.1 },
  )
]

-- The address for the garbage of a client, `none` for -1.
pub get_client_gc_info : ℕ → ServerMm → Option ℕ
get_client_gc_info client_id s =
    let single_gc_len = 1024 * 1024 in
    let client_gc_off = u64 (client_id * single_gc_len) in
    if leb s.client_gc_area_len (u64 (client_gc_off + single_gc_len))
    then none
    else some (u64 (s.client_gc_area_off + client_gc_off + s.base_addr))
