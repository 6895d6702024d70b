-- ===== src/Kv/Client/Primary.antt =====
-- src/client.cc: the commit of a log record and the change of the primary slot, which end a write, and
-- how its phases follow each other.
use fusee_fs.Prelude.{
  ℕ, Bool, true, false, ◌||◌, Option, none, some, List, [], ◌∷◌, ltb, ◌==◌, if◌then◌else◌,
}
use fusee_fs.Fs.KvClient.{success, fail_redo}
use fusee_fs.Kv.Consensus.{CasRequest, Consensus, win_all, win_major, win_little, fail, finish, non}
use fusee_fs.Kv.Client.LocalCache.{update_cache, remove_cache}
use fusee_fs.Kv.Client.{
  RequestType, kv_req_search, kv_req_insert, kv_req_update, kv_req_delete, kv_req_recover_committed,
  kv_req_recover_uncommitted, write_commit, write_invalid, Network, Config, State,
}
use fusee_fs.Kv.Client.Slots.{slot_of_int}
use fusee_fs.Kv.Client.Phases.{finish_with, free_cur}

unfoldable pub is_insert : RequestType → Bool
is_insert kv_req_insert = true
is_insert kv_req_search = false
is_insert kv_req_update = false
is_insert kv_req_delete = false
is_insert kv_req_recover_committed = false
is_insert kv_req_recover_uncommitted = false

unfoldable pub is_delete : RequestType → Bool
is_delete kv_req_delete = true
is_delete kv_req_search = false
is_delete kv_req_insert = false
is_delete kv_req_update = false
is_delete kv_req_recover_committed = false
is_delete kv_req_recover_uncommitted = false

-- `req_type == KV_REQ_UPDATE || req_type == KV_REQ_DELETE`.
unfoldable pub replaces : RequestType → Bool
replaces kv_req_update = true
replaces kv_req_delete = true
replaces kv_req_search = false
replaces kv_req_insert = false
replaces kv_req_recover_committed = false
replaces kv_req_recover_uncommitted = false

-- `consensus_state == KV_CONSENSUS_FAIL`.
unfoldable pub is_fail : Consensus → Bool
is_fail fail = true
is_fail win_all = false
is_fail win_major = false
is_fail win_little = false
is_fail finish = false
is_fail non = false

-- The addresses of the slot on all replicas of the index, in the order that the cache keeps them.
unfoldable pub slot_addrs : List CasRequest → List ℕ
slot_addrs [] = []
slot_addrs (r ∷ rs) = r.r_kv_addr ∷ slot_addrs rs

module _ {ℓ} {W : Type ℓ} (net : Network W) (cfg : Config) where
  unfoldable pub kv_log_commit_sync : State W → State W
  kv_log_commit_sync s =
      let commit = write_commit s.ctx.log_commit_addr_list s.ctx.kv_modify_pr_cas.orig_value in
      record s {
        world = net.wait (net.write commit s.world);
        ctx = record s.ctx { is_finished = false };
      }

  -- The same for fibers.
  unfoldable pub kv_log_commit : State W → State W
  kv_log_commit s =
      let commit = write_commit s.ctx.log_commit_addr_list s.ctx.kv_modify_pr_cas.orig_value in
      record s {
        world = net.wait (net.write commit s.world);
        ctx = record s.ctx { is_finished = false };
      }

  -- The end of `modify_primary_idx_sync`, after a swap that worked: the value that was replaced is
  -- freed, and the cache follows.
  unfoldable pub primary_changed : State W → State W
  unfolding finish_with replaces is_delete remove_cache update_cache slot_of_int slot_addrs
  primary_changed s =
      let pr = s.ctx.kv_modify_pr_cas in
      let addrs = pr.r_kv_addr ∷ slot_addrs s.ctx.kv_modify_bk_0_cas_list in
      let cache =
        if s.ctx.use_cache
        then (if is_delete s.ctx.req_type
            then remove_cache s.ctx.key s.cache
            else update_cache s.ctx.key (slot_of_int pr.swap_value) addrs s.cache)
        else s.cache in
      finish_with net cfg success (record s {
        freed = if replaces s.ctx.req_type then pr.orig_value ∷ s.freed else s.freed;
        cache = cache;
      })

  -- The end after a swap that found another value.
  unfoldable pub primary_missed : State W → State W
  unfolding finish_with replaces is_insert free_cur
  primary_missed s =
      if is_insert s.ctx.req_type
      then free_cur net cfg (finish_with net cfg fail_redo s)
      else if replaces s.ctx.req_type
      then finish_with net cfg success s
      else s

  -- The swap of the primary slot, and the mark on the value that is replaced.
  unfoldable pub swap_primary : State W → State W
  unfolding replaces
  swap_primary s =
      let pr = s.ctx.kv_modify_pr_cas in
      let (back, w) = net.cas pr s.world in
      record s {
        world =
            if replaces s.ctx.req_type
            then net.write (write_invalid s.ctx.kv_invalid_addr) w
            else w;
        ctx = record s.ctx { kv_modify_pr_cas = record pr { swap_back = back } };
      }

  unfoldable pub modify_primary_idx_sync : State W → State W
  unfolding free_cur swap_primary primary_missed primary_changed is_insert is_fail
  modify_primary_idx_sync s =
      let s₁ = swap_primary s in
      let pr = s₁.ctx.kv_modify_pr_cas in
      if is_fail s.ctx.consensus_state
      then (if is_insert s.ctx.req_type
          then free_cur net cfg (record s { ctx = record s.ctx { ret_code = fail_redo } })
          else s)
      else if pr.swap_back == pr.orig_value
      then primary_changed s₁
      else primary_missed s₁

  -- The same for fibers, where a swap that misses ends the program if there are backups.
  unfoldable pub modify_primary_idx : State W → Option (State W)
  unfolding free_cur swap_primary primary_missed primary_changed is_insert is_fail
  modify_primary_idx s =
      let s₁ = swap_primary s in
      let pr = s₁.ctx.kv_modify_pr_cas in
      if is_fail s.ctx.consensus_state
      then some (
          if is_insert s.ctx.req_type
          then free_cur net cfg (record s { ctx = record s.ctx { ret_code = fail_redo } })
          else s)
      else if pr.swap_back == pr.orig_value
      then some (primary_changed s₁)
      else if ltb 1 cfg.num_idx_rep
      then none
      else some (primary_missed s₁)

  -- A phase that does nothing where the request is finished.
  unfoldable pub unless_finished : (State W → Option (State W)) → State W → Option (State W)
  unless_finished phase s = if s.ctx.is_finished then some s else phase s

  -- The same, where the request is also to stop with its client.
  unfoldable pub unless_stopped : (State W → Option (State W)) → State W → Option (State W)
  unless_stopped phase s =
      if s.ctx.should_stop || s.ctx.is_finished
      then some (record s { ctx = record s.ctx { is_finished = true } })
      else phase s

infixl 5 ◌>=>◌
-- One phase after another; `none` is a loop that has not ended, or the end of the program.
abbrev pub ◌>=>◌ {ℓ} : {A : Type ℓ} → (A → Option A) → (A → Option A) → A → Option A
(p >=> q) s = elim (p s) [ none ↦ none | some t ↦ q t ]
