-- ===== src/Kv/Client/Delete.antt =====
-- src/client.cc: the delete of a client that waits for each batch (`kv_delete_sync`), and that of one that
-- runs on fibers (`kv_delete`). The slot is
-- replaced by an empty one.
use fusee_fs.Prelude.{ℕ, false, Option, some, ltb, ◌==◌, if◌then◌else◌}
use fusee_fs.Fs.KvClient.{success, fail_return}
use fusee_fs.Kv.Client.{kv_op_delete, KvReqCtx, Network, Config, State}
use fusee_fs.Kv.Client.Slots.{prepare_request, prepare_log_commit_addrs}
use fusee_fs.Kv.Client.Phases.{
  finish_with, alloc_subblock, is_in_range, write_and_read_buckets, read_cached,
}
use fusee_fs.Kv.Client.Voting.{modify_backup_idx_consensus_1, modify_backup_idx_consensus_1_sync}
use fusee_fs.Kv.Client.Primary.{
  kv_log_commit_sync, kv_log_commit, modify_primary_idx, modify_primary_idx_sync, unless_stopped,
  ◌>=>◌,
}
use fusee_fs.Kv.Client.Update.{read_kv, backup_consensus_0}

module _ {ℓ} {W : Type ℓ} (net : Network W) (cfg : Config) where
  unfoldable pub kv_delete_read_buckets_write_log_sync : State W → State W
  unfolding alloc_subblock is_in_range prepare_log_commit_addrs write_and_read_buckets read_cached
      finish_with
  kv_delete_read_buckets_write_log_sync s =
      let s₁ = alloc_subblock net cfg s in
      if is_in_range net cfg s₁.ctx
      then (let s₂ = read_cached net cfg (
            write_and_read_buckets net cfg kv_op_delete
              (record s₁ { ctx = prepare_log_commit_addrs s₁.ctx })) in
          record s₂ { ctx = record s₂.ctx { is_finished = false } })
      else finish_with net cfg fail_return s₁

  unfoldable pub empty_value : KvReqCtx → ℕ
  empty_value ctx = 0

  unfoldable pub kv_delete_read_kv_sync : State W → State W
  unfolding read_kv empty_value
  kv_delete_read_kv_sync = read_kv net cfg success empty_value

  unfoldable pub kv_delete_backup_consensus_0_sync : State W → State W
  unfolding backup_consensus_0 empty_value
  kv_delete_backup_consensus_0_sync = backup_consensus_0 net cfg success empty_value

  unfoldable pub kv_delete_backup_consensus_1_sync : ℕ → State W → Option (State W)
  unfolding modify_backup_idx_consensus_1_sync
  kv_delete_backup_consensus_1_sync fuel = modify_backup_idx_consensus_1_sync net cfg fuel

  unfoldable pub kv_delete_commit_log_sync : State W → Option (State W)
  unfolding kv_log_commit_sync
  kv_delete_commit_log_sync s = some (kv_log_commit_sync net cfg s)

  unfoldable pub kv_delete_cas_primary_sync : State W → Option (State W)
  unfolding modify_primary_idx_sync
  kv_delete_cas_primary_sync s = some (modify_primary_idx_sync net cfg s)

  unfoldable pub delete_backups : ℕ → State W → Option (State W)
  unfolding kv_delete_backup_consensus_1_sync kv_delete_commit_log_sync
  delete_backups fuel s =
      if ltb 1 cfg.num_idx_rep
      then (kv_delete_backup_consensus_1_sync fuel >=> kv_delete_commit_log_sync) s
      else some s

  -- `kv_delete_sync`, whose result is `ret_code` of the context. The first test on `is_finished` stands
  -- behind the second phase, which may have cleared it.
  unfoldable pub kv_delete_sync : ℕ → State W → Option (State W)
  unfolding prepare_request kv_delete_read_buckets_write_log_sync kv_delete_read_kv_sync
      kv_delete_backup_consensus_0_sync delete_backups kv_delete_cas_primary_sync
  kv_delete_sync fuel s =
      let s₁ =
        kv_delete_read_kv_sync
          (kv_delete_read_buckets_write_log_sync (record s { ctx = prepare_request cfg s.ctx })) in
      let s₂ = kv_delete_backup_consensus_0_sync s₁ in
      if s₁.ctx.is_finished
      then some s₁
      else if s₂.ctx.is_finished
      then some s₂
      else (delete_backups fuel >=> kv_delete_cas_primary_sync) s₂

  -- The phases for fibers.
  unfoldable pub kv_delete_read_buckets_write_log : State W → State W
  unfolding alloc_subblock is_in_range prepare_log_commit_addrs write_and_read_buckets read_cached
      finish_with
  kv_delete_read_buckets_write_log s =
      let s₁ = alloc_subblock net cfg s in
      if is_in_range net cfg s₁.ctx
      then (let s₂ = read_cached net cfg (
            write_and_read_buckets net cfg kv_op_delete
              (record s₁ { ctx = prepare_log_commit_addrs s₁.ctx })) in
          record s₂ { ctx = record s₂.ctx { is_finished = false } })
      else finish_with net cfg fail_return s₁

  unfoldable pub kv_delete_read_kv : State W → State W
  unfolding read_kv empty_value
  kv_delete_read_kv = read_kv net cfg success empty_value

  unfoldable pub kv_delete_backup_consensus_0 : State W → State W
  unfolding backup_consensus_0 empty_value
  kv_delete_backup_consensus_0 = backup_consensus_0 net cfg success empty_value

  unfoldable pub kv_delete_backup_consensus_1 : ℕ → State W → Option (State W)
  unfolding modify_backup_idx_consensus_1
  kv_delete_backup_consensus_1 fuel s =
      if cfg.num_idx_rep == 1 then some s else modify_backup_idx_consensus_1 net cfg fuel s

  unfoldable pub kv_delete_commit_log : State W → Option (State W)
  unfolding unless_stopped kv_log_commit
  kv_delete_commit_log = unless_stopped net cfg (λ s. some (kv_log_commit net cfg s))

  unfoldable pub kv_delete_cas_primary : State W → Option (State W)
  unfolding modify_primary_idx
  kv_delete_cas_primary s = modify_primary_idx net cfg s

  unfoldable pub delete_rest : ℕ → State W → Option (State W)
  unfolding kv_delete_backup_consensus_1 kv_delete_commit_log kv_delete_cas_primary
  delete_rest fuel s =
      if ltb 1 cfg.num_idx_rep
      then (kv_delete_backup_consensus_1 fuel >=> kv_delete_commit_log >=> kv_delete_cas_primary) s
      else kv_delete_cas_primary s

  -- `kv_delete` of a context.
  unfoldable pub kv_delete : ℕ → State W → Option (State W)
  unfolding prepare_request kv_delete_read_buckets_write_log kv_delete_read_kv
      kv_delete_backup_consensus_0 delete_rest
  kv_delete fuel s =
      let s₁ =
        kv_delete_read_kv
          (kv_delete_read_buckets_write_log (record s { ctx = prepare_request cfg s.ctx })) in
      let s₂ = kv_delete_backup_consensus_0 s₁ in
      if s₁.ctx.is_finished
      then some s₁
      else if s₂.ctx.is_finished
      then some s₂
      else delete_rest fuel s₂
