-- ===== src/Kv/Client/Insert.antt =====
-- src/client.cc: the insert of a client that waits for each batch (`kv_insert_sync`)
-- and of one that runs on fibers (`kv_insert`).
use fusee_fs.Prelude.{ℕ, false, Option, none, some, ltb, if◌then◌else◌}
use fusee_fs.Fs.KvClient.{fail_return}
use fusee_fs.Kv.Hash.{convert_slot_to_int, RaceHashSlot}
use fusee_fs.Kv.Buckets.{find_empty_slot, slot_at}
use fusee_fs.Kv.Client.{kv_op_insert, KvReqCtx, Network, Config, State}
use fusee_fs.Kv.Client.Slots.{
  prepare_request, prepare_log_commit_addrs, new_slot, remote_slot_addr, fill_cas_addr,
}
use fusee_fs.Kv.Client.Phases.{
  finish_with, free_cur, alloc_subblock, is_in_range, write_and_read_buckets, post_backups,
}
use fusee_fs.Kv.Client.Voting.{modify_backup_idx_consensus_1, modify_backup_idx_consensus_1_sync}
use fusee_fs.Kv.Client.Primary.{
  kv_log_commit_sync, kv_log_commit, modify_primary_idx, modify_primary_idx_sync, unless_finished,
  unless_stopped, ◌>=>◌,
}

module _ {ℓ} {W : Type ℓ} (net : Network W) (cfg : Config) where
  unfoldable pub kv_insert_read_buckets_and_write_kv_sync : State W → State W
  unfolding alloc_subblock is_in_range prepare_log_commit_addrs write_and_read_buckets finish_with
  kv_insert_read_buckets_and_write_kv_sync s =
      let s₁ = alloc_subblock net cfg s in
      if is_in_range net cfg s₁.ctx
      then (let s₂ =
            write_and_read_buckets net cfg kv_op_insert
              (record s₁ { ctx = prepare_log_commit_addrs s₁.ctx }) in
          record s₂ { ctx = record s₂.ctx { is_finished = false } })
      else finish_with net cfg fail_return s₁

  -- The requests for the slot `old` that is to be filled.
  unfoldable pub fill_old : ℕ → ℕ → Option RaceHashSlot → KvReqCtx → KvReqCtx
  unfolding new_slot remote_slot_addr fill_cas_addr
  fill_old bucket_idx slot_idx none ctx = ctx
  fill_old bucket_idx slot_idx (some old) ctx =
      fill_cas_addr (remote_slot_addr bucket_idx slot_idx ctx.tbl_addr_info.replicas)
        (convert_slot_to_int old) (convert_slot_to_int (new_slot ctx)) ctx

  unfoldable pub fill_insert : ℕ → ℕ → KvReqCtx → KvReqCtx
  unfolding fill_old slot_at
  fill_insert bucket_idx slot_idx ctx =
      fill_old bucket_idx slot_idx (slot_at ctx.buckets bucket_idx slot_idx) ctx

  -- From the slot that `find_empty_slot` gives.
  unfoldable pub take_slot : Option (ℕ × ℕ) → State W → State W
  unfolding free_cur finish_with post_backups fill_insert
  take_slot none s = free_cur net cfg (finish_with net cfg fail_return s)
  take_slot (some (bucket_idx, slot_idx)) s =
      post_backups net cfg (record s { ctx = fill_insert bucket_idx slot_idx s.ctx })

  -- Without the test on a request that is finished: the phase for fibers.
  unfoldable pub kv_insert_backup_consensus_0 : State W → State W
  unfolding take_slot find_empty_slot
  kv_insert_backup_consensus_0 s =
      let info = s.ctx.tbl_addr_info in
      take_slot (find_empty_slot s.ctx.buckets info.f_main_idx info.s_main_idx) s

  unfoldable pub kv_insert_backup_consensus_0_sync : State W → State W
  unfolding kv_insert_backup_consensus_0
  kv_insert_backup_consensus_0_sync s =
      if s.ctx.is_finished then s else kv_insert_backup_consensus_0 s

  unfoldable pub kv_insert_backup_consensus_1_sync : ℕ → State W → Option (State W)
  unfolding unless_stopped modify_backup_idx_consensus_1_sync
  kv_insert_backup_consensus_1_sync fuel =
      unless_stopped net cfg (modify_backup_idx_consensus_1_sync net cfg fuel)

  unfoldable pub kv_insert_commit_log_sync : State W → Option (State W)
  unfolding unless_stopped kv_log_commit_sync
  kv_insert_commit_log_sync = unless_stopped net cfg (λ s. some (kv_log_commit_sync net cfg s))

  unfoldable pub kv_insert_cas_primary_sync : State W → Option (State W)
  unfolding unless_finished modify_primary_idx_sync
  kv_insert_cas_primary_sync =
      unless_finished net cfg (λ s. some (modify_primary_idx_sync net cfg s))

  -- The rounds with the backups, where there are any.
  unfoldable pub insert_backups : ℕ → State W → Option (State W)
  unfolding kv_insert_backup_consensus_1_sync kv_insert_commit_log_sync
  insert_backups fuel s =
      if ltb 1 cfg.num_idx_rep
      then (kv_insert_backup_consensus_1_sync fuel >=> kv_insert_commit_log_sync) s
      else some s

  -- `kv_insert_sync`, whose result is `ret_code` of the context.
  unfoldable pub kv_insert_sync : ℕ → State W → Option (State W)
  unfolding prepare_request kv_insert_read_buckets_and_write_kv_sync
      kv_insert_backup_consensus_0_sync insert_backups kv_insert_cas_primary_sync
  kv_insert_sync fuel s =
      let s₁ =
        kv_insert_read_buckets_and_write_kv_sync (record s { ctx = prepare_request cfg s.ctx }) in
      if s₁.ctx.is_finished
      then some s₁
      else (insert_backups fuel >=> kv_insert_cas_primary_sync)
          (kv_insert_backup_consensus_0_sync s₁)

  -- The phases for fibers. The first differs only in how it waits for its batch.
  unfoldable pub kv_insert_read_buckets_and_write_kv : State W → State W
  unfolding alloc_subblock is_in_range prepare_log_commit_addrs write_and_read_buckets finish_with
  kv_insert_read_buckets_and_write_kv s =
      let s₁ = alloc_subblock net cfg s in
      if is_in_range net cfg s₁.ctx
      then (let s₂ =
            write_and_read_buckets net cfg kv_op_insert
              (record s₁ { ctx = prepare_log_commit_addrs s₁.ctx }) in
          record s₂ { ctx = record s₂.ctx { is_finished = false } })
      else finish_with net cfg fail_return s₁

  unfoldable pub kv_insert_backup_consensus_1 : ℕ → State W → Option (State W)
  unfolding unless_finished modify_backup_idx_consensus_1
  kv_insert_backup_consensus_1 fuel =
      unless_finished net cfg (modify_backup_idx_consensus_1 net cfg fuel)

  unfoldable pub kv_insert_commit_log : State W → Option (State W)
  unfolding unless_finished kv_log_commit
  kv_insert_commit_log = unless_finished net cfg (λ s. some (kv_log_commit net cfg s))

  unfoldable pub kv_insert_cas_primary : State W → Option (State W)
  unfolding unless_finished modify_primary_idx
  kv_insert_cas_primary = unless_finished net cfg (modify_primary_idx net cfg)

  -- `kv_insert` of a context.
  unfoldable pub kv_insert : ℕ → State W → Option (State W)
  unfolding prepare_request kv_insert_read_buckets_and_write_kv kv_insert_backup_consensus_0
      kv_insert_backup_consensus_1 kv_insert_commit_log kv_insert_cas_primary
  kv_insert fuel s =
      let s₁ = kv_insert_read_buckets_and_write_kv (record s { ctx = prepare_request cfg s.ctx }) in
      let s₂ = kv_insert_backup_consensus_0 s₁ in
      if s₁.ctx.is_finished
      then some s₁
      else if s₂.ctx.is_finished
      then some s₂
      else if ltb 1 cfg.num_idx_rep
      then (kv_insert_backup_consensus_1 fuel >=> kv_insert_commit_log >=> kv_insert_cas_primary) s₂
      else kv_insert_cas_primary s₂
