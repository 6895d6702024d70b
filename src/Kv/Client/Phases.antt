-- ===== src/Kv/Client/Phases.antt =====
-- src/client.cc: the steps that inserts, updates and deletes begin with. The context of an allocation
-- that failed has no replica, which is the address 0 of the source.
use fusee_fs.Prelude.{
  ◌+◌, Bool, true, false, Option, none, some, List, [], ◌∷◌, Bytes, bytes_eq, ◌*◌, ltb, ◌==◌,
  if◌then◌else◌,
}
use fusee_fs.Prelude.Word.{u32}
use fusee_fs.Fs.KvClient.{RetCode}
use fusee_fs.Kv.Hash.{convert_40_to_64_bits}
use fusee_fs.Kv.Subblocks.{ClientMm, ClientMmAllocCtx, mm_free_cur}
use fusee_fs.Kv.Subblocks
use fusee_fs.Kv.Candidates.{Candidate, find_kv_in_buckets}
use fusee_fs.Kv.Consensus.{CasRequest, win_all}
use fusee_fs.Kv.Client.LocalCache.{LocalCacheEntry, Cache, check_cache}
use fusee_fs.Kv.Client.{KvOp, KvObject, KvReqCtx, write_kv, Network, Config, State}
use fusee_fs.Kv.Client.Slots.{first_replica, update_log_tail}

unfoldable pub alloc_result : Option ClientMmAllocCtx → ClientMmAllocCtx
alloc_result none = record { replicas = []; next = []; prev = [] }
alloc_result (some ctx) = ctx

module _ {ℓ} {W : Type ℓ} (net : Network W) (cfg : Config) where
  -- `is_finished = true; ret_code = code`.
  unfoldable pub finish_with : RetCode → State W → State W
  finish_with code s = record s { ctx = record s.ctx { is_finished = true; ret_code = code } }

  unfoldable pub free_cur : State W → State W
  free_cur s = record s { mm = mm_free_cur s.ctx.mm_alloc_ctx s.mm }

  -- The allocation at the beginning of a write.
  unfoldable pub alloc_subblock : State W → State W
  unfolding alloc_result
  alloc_subblock s =
      let (r, mm) = Subblocks.mm_alloc (net.new_block s.world) s.mm in
      record s { mm = mm; ctx = record s.ctx { mm_alloc_ctx = alloc_result r } }

  -- The test on the address that was allocated.
  unfoldable pub is_in_range : KvReqCtx → Bool
  unfolding first_replica
  is_in_range ctx =
      let addr = (first_replica ctx.mm_alloc_ctx.replicas).1 in
      if ltb addr cfg.server_st_addr
      then false
      else ltb addr (cfg.server_st_addr + cfg.server_data_len)

  -- The value is written with its log record, and the buckets are read in the same batch.
  unfoldable pub write_and_read_buckets : KvOp → State W → State W
  unfolding update_log_tail
  write_and_read_buckets op s =
      let tail = update_log_tail op s.ctx.mm_alloc_ctx in
      let w = net.wait (net.write (write_kv s.ctx.mm_alloc_ctx.replicas s.ctx.key tail) s.world) in
      record s {
        world = w;
        ctx = record s.ctx { buckets = net.read_buckets s.ctx.tbl_addr_info.replicas w };
      }

  -- The read of the value that an entry of the cache points to.
  unfoldable pub read_entry : Option LocalCacheEntry → State W → State W
  read_entry none s = record s { ctx = record s.ctx { cached = none } }
  read_entry (some e) s =
      let o =
        net.read_object e.l_slot.server_id (convert_40_to_64_bits e.l_slot.pointer)
          (e.l_slot.kv_len * s.mm.subblock_sz) s.world in
      record s { ctx = record s.ctx { cached = some (e, o) } }

  -- The look into the cache.
  unfoldable pub read_cached : State W → State W
  unfolding check_cache read_entry
  read_cached s =
      let (found, cache) = check_cache cfg.misses_often s.ctx.key s.cache in
      if s.ctx.use_cache then read_entry found (record s { cache = cache }) else s

  -- The reads of the values that `find_kv_in_buckets` has listed.
  unfoldable pub read_objects : List Candidate → W → List (Candidate × KvObject)
  read_objects [] w = []
  read_objects (c ∷ cs) w = (c, net.read_object c.server_id c.r_kv_addr c.len w) ∷ read_objects cs w

  -- `find_kv_in_buckets` and the read of what it lists.
  unfoldable pub find_and_read : State W → State W
  unfolding read_objects
  find_and_read s =
      let ctx = s.ctx in
      let b = ctx.buckets in
      let (cs, end) =
        find_kv_in_buckets ctx.hash_info.fp s.mm.subblock_sz 0
          (b.f0.slots ∷ b.f1.slots ∷ b.s0.slots ∷ b.s1.slots ∷ []) ctx.local_kv_addr in
      let w = net.wait s.world in
      record s { world = w; ctx = record ctx { kv_read = read_objects cs w; is_finished = false } }

  -- `acc_cnt ++` of the entry of the key.
  unfoldable pub count_access : Bytes → Cache → Cache
  count_access key [] = []
  count_access key ((k, e) ∷ m) =
      let rest = count_access key m in
      if bytes_eq k key then (k, record e { acc_cnt = u32 (e.acc_cnt + 1) }) ∷ m else (k, e) ∷ rest

  -- The swaps of a list, one after the other, with what each gives back.
  unfoldable pub post_cas : List CasRequest → W → List CasRequest × W
  post_cas [] w = ([], w)
  post_cas (r ∷ rs) w =
      let (back, w₁) = net.cas r w in
      let (more, w₂) = post_cas rs w₁ in (record r { swap_back = back } ∷ more, w₂)

  -- The swaps on the backups, for more than one replica of the index.
  unfoldable pub post_backups : State W → State W
  unfolding post_cas
  post_backups s =
      let (rs, w) = post_cas s.ctx.kv_modify_bk_0_cas_list s.world in
      if cfg.num_idx_rep == 1
      then record s { ctx = record s.ctx { consensus_state = win_all } }
      else record s { world = w; ctx = record s.ctx { kv_modify_bk_0_cas_list = rs } }
