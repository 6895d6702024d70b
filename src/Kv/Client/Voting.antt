-- ===== src/Kv/Client/Voting.antt =====
-- src/client.cc: what a client does with the votes of the backups, up to the change of the primary slot.
use fusee_fs.Prelude.{ℕ, zero, suc, Bool, false, Option, none, some, ◌==◌, if◌then◌else◌}
use fusee_fs.Fs.KvClient.{success}
use fusee_fs.Kv.Consensus.{
  CasRequest, Consensus, win_all, win_major, win_little, fail, finish, non,
  check_cas_consensus_0_sync, check_cas_consensus_0,
}
use fusee_fs.Kv.Client.{write_unused, Network, Config, State}
use fusee_fs.Kv.Client.Phases.{finish_with, post_cas}

module _ {ℓ} {W : Type ℓ} (net : Network W) (cfg : Config) where
  -- The end of a write that has lost: its log record is marked, and it reports success.
  unfoldable pub give_up : State W → State W
  unfolding finish_with
  give_up s =
      finish_with net cfg success
        (record s { world = net.write (write_unused s.ctx.write_unused_addr_list) s.world })

  -- The loop of `modify_backup_idx_consensus_1`, on fuel: until the primary slot has changed.
  unfoldable pub wait_primary : ℕ → CasRequest → Bool → W → Option W
  wait_primary zero pr should_stop w = none
  wait_primary (suc fuel) pr should_stop w =
      let later = net.wait w in
      let rest = wait_primary fuel pr should_stop later in
      if should_stop
      then some w
      else if net.read_word pr.server_id pr.r_kv_addr later == pr.orig_value
      then rest
      else some later

  -- The loop of `modify_backup_idx_consensus_1_sync`, on fuel: it tests the word at `op_laddr`, which
  -- the read does not change.
  unfoldable pub wait_op_word : ℕ → ℕ → ℕ → W → Option W
  wait_op_word zero op_word orig_value w = none
  wait_op_word (suc fuel) op_word orig_value w =
      let later = net.wait w in
      let rest = wait_op_word fuel op_word orig_value later in
      if op_word == orig_value then rest else some later

  -- `check_cas_consensus_0_sync` on the context.
  unfoldable pub check_consensus : State W → State W
  unfolding check_cas_consensus_0_sync
  check_consensus s =
      let pr = s.ctx.kv_modify_pr_cas in
      let (state, again) =
        check_cas_consensus_0_sync pr.swap_value pr.orig_value cfg.num_idx_rep
          (net.read_word pr.server_id pr.r_kv_addr s.world) s.ctx.kv_modify_bk_0_cas_list in
      record s { ctx = record s.ctx { consensus_state = state; kv_modify_bk_1_cas_list = again } }

  -- `check_cas_consensus_0` on the context.
  unfoldable pub check_fiber_consensus : State W → State W
  unfolding check_cas_consensus_0
  check_fiber_consensus s =
      let pr = s.ctx.kv_modify_pr_cas in
      let (state, again) =
        check_cas_consensus_0 pr.swap_value pr.orig_value cfg.num_idx_rep
          (net.read_word pr.server_id pr.r_kv_addr s.world) s.ctx.kv_modify_bk_0_cas_list in
      record s { ctx = record s.ctx { consensus_state = state; kv_modify_bk_1_cas_list = again } }

  -- The swaps that are repeated by a winner.
  unfoldable pub repeat_backups : State W → State W
  unfolding post_cas
  repeat_backups s =
      let (rs, w) = post_cas net cfg s.ctx.kv_modify_bk_1_cas_list s.world in
      record s {
        world = w;
        ctx = record s.ctx {
          kv_modify_bk_1_cas_list = rs;
          is_finished = false;
          consensus_state = win_all;
        };
      }

  -- What follows the decision; `lost` is the world after the loop of a client that has lost, `none` where
  -- the loop has not ended.
  unfoldable pub after_consensus : Consensus → Option W → State W → Option (State W)
  unfolding give_up repeat_backups
  after_consensus finish lost s = some (give_up s)
  after_consensus fail none s = none
  after_consensus fail (some w) s = some (give_up (record s { world = w }))
  after_consensus win_all lost s = some (record s { ctx = record s.ctx { is_finished = false } })
  after_consensus win_major lost s = some (repeat_backups s)
  after_consensus win_little lost s = some (repeat_backups s)
  after_consensus non lost s = some (repeat_backups s)

  unfoldable pub modify_backup_idx_consensus_1 : ℕ → State W → Option (State W)
  unfolding check_fiber_consensus after_consensus wait_primary
  modify_backup_idx_consensus_1 fuel s =
      let s₁ = check_fiber_consensus s in
      after_consensus s₁.ctx.consensus_state
        (wait_primary fuel s₁.ctx.kv_modify_pr_cas s₁.ctx.should_stop s₁.world) s₁

  unfoldable pub modify_backup_idx_consensus_1_sync : ℕ → State W → Option (State W)
  unfolding check_consensus after_consensus wait_op_word
  modify_backup_idx_consensus_1_sync fuel s =
      let s₁ = check_consensus s in
      after_consensus s₁.ctx.consensus_state
        (wait_op_word fuel s₁.ctx.op_word s₁.ctx.kv_modify_pr_cas.orig_value s₁.world) s₁
