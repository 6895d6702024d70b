-- ===== src/Kv/Client/Update.antt =====
-- src/client.cc: the update of a client that waits for each batch (`kv_update_sync`) and of one that
-- runs on fibers (`kv_update`).
use fusee_fs.Prelude.{
  ℕ, true, false, ◌&&◌, Option, none, some, List, [], ◌∷◌, ltb, if◌then◌else◌, get_elem?,
}
use fusee_fs.Fs.KvClient.{RetCode, fail_return}
use fusee_fs.Kv.Hash.{convert_slot_to_int, RaceHashSlot}
use fusee_fs.Kv.Buckets.{slot_at}
use fusee_fs.Kv.Client.LocalCache.{LocalCacheEntry}
use fusee_fs.Kv.Client.{kv_op_update, KvObject, RemoteAddr, KvReqCtx, Network, Config, State}
use fusee_fs.Kv.Client.Slots.{
  prepare_request, prepare_log_commit_addrs, new_slot, remote_slot_addr, fill_cas_addr,
  fill_invalid_addr, find_match_kv_idx, cached_matches,
}
use fusee_fs.Kv.Client.Phases.{
  finish_with, alloc_subblock, is_in_range, write_and_read_buckets, read_cached, find_and_read,
  count_access, post_backups,
}
use fusee_fs.Kv.Client.Voting.{modify_backup_idx_consensus_1, modify_backup_idx_consensus_1_sync}
use fusee_fs.Kv.Client.Primary.{
  kv_log_commit_sync, kv_log_commit, modify_primary_idx, modify_primary_idx_sync, unless_finished,
  unless_stopped, ◌>=>◌,
}

-- The addresses that an entry of the cache keeps, on the servers of the replicas.
unfoldable pub entry_addrs : List ℕ → List RemoteAddr → List RemoteAddr
entry_addrs [] servers = []
entry_addrs (a ∷ addrs) [] = []
entry_addrs (a ∷ addrs) ((server_id, old) ∷ servers) = (server_id, a) ∷ entry_addrs addrs servers

-- The requests that replace the slot `old`, at the addresses `addrs`, by the number `swap_value`.
unfoldable pub replace_slot : List RemoteAddr → RaceHashSlot → ℕ → KvReqCtx → KvReqCtx
unfolding fill_cas_addr fill_invalid_addr
replace_slot addrs old swap_value ctx =
    fill_invalid_addr old (fill_cas_addr addrs (convert_slot_to_int old) swap_value ctx)

-- The slot of the value that was found, by its index in the two lists.
unfoldable pub matched_slot : Option ℕ → KvReqCtx → Option (ℕ × ℕ × RaceHashSlot)
unfolding slot_at
matched_slot none ctx = none
matched_slot (some i) ctx = elim (get_elem? ctx.kv_read i) [
  | none ↦ none
  | some read ↦
      let c = read.0 in
      elim (slot_at ctx.buckets c.bucket_idx c.slot_idx) [
        | none ↦ none
        | some old ↦ some (c.bucket_idx, c.slot_idx, old)
      ]
]

-- What a request does about the slot of its key: an update and a delete differ in the new value and in
-- the result where there is no value.
module _ {ℓ} {W : Type ℓ} (net : Network W) (cfg : Config) (no_match : RetCode)
    (new_value : KvReqCtx → ℕ) where
  -- The first part of the read of values: whether the cache has the value of the key.
  unfoldable pub use_entry : LocalCacheEntry → State W → State W
  unfolding entry_addrs remote_slot_addr replace_slot count_access
  use_entry e s =
      let addrs = entry_addrs e.r_slot_addr (remote_slot_addr 0 0 s.ctx.tbl_addr_info.replicas) in
      let ctx = replace_slot addrs e.l_slot (new_value s.ctx) s.ctx in
      record s {
        cache = count_access net cfg s.ctx.key s.cache;
        ctx = record ctx { is_cache_hit = true };
      }

  unfoldable pub read_miss : State W → State W
  unfolding find_and_read
  read_miss s = find_and_read net cfg (record s { ctx = record s.ctx { is_cache_hit = false } })

  -- From the value that was read through the cache.
  unfoldable pub read_through : Option (LocalCacheEntry × KvObject) → State W → State W
  unfolding use_entry read_miss cached_matches
  read_through none s = read_miss s
  read_through (some (e, o)) s =
      if s.ctx.use_cache && cached_matches s.ctx.local_cache_addr s.ctx.l_addr s.ctx.key o
      then use_entry e s
      else read_miss s

  unfoldable pub read_kv : State W → State W
  unfolding read_through
  read_kv s = read_through s.ctx.cached s

  -- From the slot that holds the value of the key.
  unfoldable pub replace_matched : Option (ℕ × ℕ × RaceHashSlot) → State W → State W
  unfolding finish_with replace_slot remote_slot_addr post_backups
  replace_matched none s = finish_with net cfg no_match s
  replace_matched (some (bucket_idx, slot_idx, old)) s = post_backups net cfg (record s {
    ctx =
        replace_slot (remote_slot_addr bucket_idx slot_idx s.ctx.tbl_addr_info.replicas) old
          (new_value s.ctx) s.ctx;
  })

  unfoldable pub backup_consensus_0 : State W → State W
  unfolding replace_matched matched_slot find_match_kv_idx post_backups
  backup_consensus_0 s =
      if s.ctx.use_cache && s.ctx.is_cache_hit
      then post_backups net cfg s
      else replace_matched
          (matched_slot (find_match_kv_idx 0 s.ctx.l_addr s.ctx.key s.ctx.kv_read) s.ctx) s

module _ {ℓ} {W : Type ℓ} (net : Network W) (cfg : Config) where
  unfoldable pub kv_update_read_buckets_and_write_kv_sync : State W → State W
  unfolding alloc_subblock is_in_range prepare_log_commit_addrs write_and_read_buckets read_cached
      finish_with
  kv_update_read_buckets_and_write_kv_sync s =
      let s₁ = alloc_subblock net cfg s in
      if is_in_range net cfg s₁.ctx
      then (let s₂ = read_cached net cfg (
            write_and_read_buckets net cfg kv_op_update
              (record s₁ { ctx = prepare_log_commit_addrs s₁.ctx })) in
          record s₂ { ctx = record s₂.ctx { is_finished = false } })
      else finish_with net cfg fail_return s₁

  unfoldable pub updated_value : KvReqCtx → ℕ
  unfolding new_slot
  updated_value ctx = convert_slot_to_int (new_slot ctx)

  unfoldable pub kv_update_read_kv_sync : State W → State W
  unfolding read_kv updated_value
  kv_update_read_kv_sync = read_kv net cfg fail_return updated_value

  unfoldable pub kv_update_backup_consensus_0_sync : State W → State W
  unfolding backup_consensus_0 updated_value
  kv_update_backup_consensus_0_sync = backup_consensus_0 net cfg fail_return updated_value

  unfoldable pub kv_update_backup_consensus_1_sync : ℕ → State W → Option (State W)
  unfolding unless_finished modify_backup_idx_consensus_1_sync
  kv_update_backup_consensus_1_sync fuel =
      unless_finished net cfg (modify_backup_idx_consensus_1_sync net cfg fuel)

  unfoldable pub kv_update_commit_log_sync : State W → Option (State W)
  unfolding kv_log_commit_sync
  kv_update_commit_log_sync s = some (kv_log_commit_sync net cfg s)

  unfoldable pub kv_update_cas_primary_sync : State W → Option (State W)
  unfolding modify_primary_idx_sync
  kv_update_cas_primary_sync s = some (modify_primary_idx_sync net cfg s)

  unfoldable pub update_backups : ℕ → State W → Option (State W)
  unfolding kv_update_backup_consensus_1_sync kv_update_commit_log_sync
  update_backups fuel s =
      if ltb 1 cfg.num_idx_rep
      then (kv_update_backup_consensus_1_sync fuel >=> kv_update_commit_log_sync) s
      else some s

  -- `kv_update_sync`, whose result is `ret_code` of the context.
  unfoldable pub kv_update_sync : ℕ → State W → Option (State W)
  unfolding prepare_request kv_update_read_buckets_and_write_kv_sync kv_update_read_kv_sync
      kv_update_backup_consensus_0_sync update_backups kv_update_cas_primary_sync
  kv_update_sync fuel s =
      let s₁ =
        kv_update_read_buckets_and_write_kv_sync (record s { ctx = prepare_request cfg s.ctx }) in
      let s₂ = kv_update_backup_consensus_0_sync (kv_update_read_kv_sync s₁) in
      if s₁.ctx.is_finished
      then some s₁
      else if s₂.ctx.is_finished
      then some s₂
      else (update_backups fuel >=> kv_update_cas_primary_sync) s₂

  -- The phases for fibers, which test `should_stop`.
  unfoldable pub kv_update_read_buckets_and_write_kv : State W → State W
  unfolding alloc_subblock is_in_range prepare_log_commit_addrs write_and_read_buckets read_cached
      finish_with
  kv_update_read_buckets_and_write_kv s =
      let s₁ = alloc_subblock net cfg s in
      if is_in_range net cfg s₁.ctx
      then (let s₂ = read_cached net cfg (
            write_and_read_buckets net cfg kv_op_update
              (record s₁ { ctx = prepare_log_commit_addrs s₁.ctx })) in
          record s₂ { ctx = record s₂.ctx { is_finished = s₂.ctx.should_stop } })
      else finish_with net cfg fail_return s₁

  unfoldable pub kv_update_read_kv : State W → Option (State W)
  unfolding unless_stopped read_kv updated_value
  kv_update_read_kv =
      unless_stopped net cfg (λ s. some (read_kv net cfg fail_return updated_value s))

  unfoldable pub kv_update_backup_consensus_0 : State W → Option (State W)
  unfolding unless_stopped backup_consensus_0 updated_value
  kv_update_backup_consensus_0 =
      unless_stopped net cfg (λ s. some (backup_consensus_0 net cfg fail_return updated_value s))

  unfoldable pub kv_update_backup_consensus_1 : ℕ → State W → Option (State W)
  unfolding unless_stopped modify_backup_idx_consensus_1
  kv_update_backup_consensus_1 fuel =
      unless_stopped net cfg (modify_backup_idx_consensus_1 net cfg fuel)

  unfoldable pub kv_update_commit_log : State W → Option (State W)
  unfolding unless_stopped kv_log_commit
  kv_update_commit_log = unless_stopped net cfg (λ s. some (kv_log_commit net cfg s))

  unfoldable pub kv_update_cas_primary : State W → Option (State W)
  unfolding unless_stopped modify_primary_idx
  kv_update_cas_primary = unless_stopped net cfg (modify_primary_idx net cfg)

  -- The rest of `kv_update` behind its second test on `is_finished`.
  unfoldable pub update_rest : ℕ → State W → Option (State W)
  unfolding kv_update_backup_consensus_1 kv_update_commit_log kv_update_cas_primary
  update_rest fuel s =
      if s.ctx.is_finished
      then some s
      else if ltb 1 cfg.num_idx_rep
      then (kv_update_backup_consensus_1 fuel >=> kv_update_commit_log >=> kv_update_cas_primary) s
      else kv_update_cas_primary s

  -- `kv_update` of a context.
  unfoldable pub kv_update : ℕ → State W → Option (State W)
  unfolding prepare_request kv_update_read_buckets_and_write_kv kv_update_read_kv
      kv_update_backup_consensus_0 update_rest
  kv_update fuel s =
      let s₁ = kv_update_read_buckets_and_write_kv (record s { ctx = prepare_request cfg s.ctx }) in
      if s₁.ctx.is_finished
      then some s₁
      else (kv_update_read_kv >=> kv_update_backup_consensus_0 >=> update_rest fuel) s₁
