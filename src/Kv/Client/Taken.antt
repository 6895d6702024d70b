-- ===== src/Kv/Client/Taken.antt =====
-- What an update does to the queue of free subblocks, and that it never asks to be repeated.
use fusee_fs.Prelude.{
  ℕ, ◌≡◌, ◌≢◌, refl, sym, ◌∙◌, ap, subst, true, false, Bool-cases, if_true, if_false, inl, inr,
  Option, none, some, ltb, arith,
}
use fusee_fs.Fs.KvClient.{success, fail_return, fail_redo}
use fusee_fs.Kv.Consensus.{Consensus, win_all, win_major, win_little, fail, finish, non}
use fusee_fs.Kv.Subblocks
use fusee_fs.Kv.Subblocks.{ClientMm}
use fusee_fs.Kv.Client.{kv_req_update, kv_op_update, Network, Config, State}
use fusee_fs.Kv.Client.Slots.{prepare_request, prepare_log_commit_addrs}
use fusee_fs.Kv.Client.Phases.{
  finish_with, free_cur, alloc_subblock, is_in_range, write_and_read_buckets, read_cached,
}
use fusee_fs.Kv.Client.Voting.{
  give_up, check_consensus, repeat_backups, after_consensus, modify_backup_idx_consensus_1_sync,
}
use fusee_fs.Kv.Client.Primary.{
  is_insert, replaces, kv_log_commit_sync, primary_changed, primary_missed, swap_primary,
  modify_primary_idx_sync, unless_finished, ◌>=>◌,
}
use fusee_fs.Kv.Client.Update.{
  kv_update_read_buckets_and_write_kv_sync, kv_update_read_kv_sync,
  kv_update_backup_consensus_0_sync, kv_update_backup_consensus_1_sync, kv_update_commit_log_sync,
  kv_update_cas_primary_sync, update_backups, kv_update_sync,
}
use fusee_fs.Kv.Client.Keeps.{
  Keeps, either, along, read_cached-Keeps, read_through-Keeps, backup_consensus_0-Keeps, not_redo,
}

module _ {ℓ} {W : Type ℓ} (net : Network W) (cfg : Config) (m : ClientMm) where
  repeat_backups-Keeps :
      (s : State W) → Keeps net cfg m s → Keeps net cfg m (repeat_backups net cfg s)
  unfolding repeat_backups
  repeat_backups-Keeps s k = record { queue = k.queue; updates = k.updates; no_redo = k.no_redo }

  give_up-Keeps : (s : State W) → Keeps net cfg m s → Keeps net cfg m (give_up net cfg s)
  unfolding give_up finish_with
  give_up-Keeps s k = record {
    queue = k.queue;
    updates = k.updates;
    no_redo = not_redo success (inl refl);
  }

  after_consensus-Keeps :
      (c : Consensus) (lost : Option W) (s t : State W)
      → Keeps net cfg m s
      → after_consensus net cfg c lost s ≡ some t
      → Keeps net cfg m t
  unfolding after_consensus
  after_consensus-Keeps fail none s t k e = absurd (ground (arith, e))
  after_consensus-Keeps fail (some w) s t k e = along net cfg m e (
      give_up-Keeps (record s { world = w })
        (record { queue = k.queue; updates = k.updates; no_redo = k.no_redo }))
  after_consensus-Keeps finish lost s t k e = along net cfg m e (give_up-Keeps s k)
  after_consensus-Keeps win_all lost s t k e =
      along net cfg m e (record { queue = k.queue; updates = k.updates; no_redo = k.no_redo })
  after_consensus-Keeps win_major lost s t k e = along net cfg m e (repeat_backups-Keeps s k)
  after_consensus-Keeps win_little lost s t k e = along net cfg m e (repeat_backups-Keeps s k)
  after_consensus-Keeps non lost s t k e = along net cfg m e (repeat_backups-Keeps s k)

  consensus_1-Keeps :
      (fuel : ℕ) (s t : State W)
      → Keeps net cfg m s
      → kv_update_backup_consensus_1_sync net cfg fuel s ≡ some t
      → Keeps net cfg m t
  unfolding kv_update_backup_consensus_1_sync unless_finished modify_backup_idx_consensus_1_sync
      check_consensus
  consensus_1-Keeps fuel s t k e = elim (Bool-cases s.ctx.is_finished) [
    | inl over ↦ along net cfg m (sym (if_true s.ctx.is_finished _ _ over) ∙ e) k
    | inr runs ↦
        after_consensus-Keeps (check_consensus net cfg s).ctx.consensus_state _
          (check_consensus net cfg s) t
          (record { queue = k.queue; updates = k.updates; no_redo = k.no_redo })
          (sym (if_false s.ctx.is_finished _ _ runs) ∙ e)
  ]

  update_backups-Keeps :
      (fuel : ℕ) (s t : State W)
      → Keeps net cfg m s
      → update_backups net cfg fuel s ≡ some t
      → Keeps net cfg m t
  unfolding update_backups kv_update_commit_log_sync kv_log_commit_sync
  update_backups-Keeps fuel s t k e = elim (Bool-cases (ltb 1 cfg.num_idx_rep)) [
    | inr one ↦ along net cfg m (sym (if_false (ltb 1 cfg.num_idx_rep) _ _ one) ∙ e) k
    | inl many ↦
        by_round (kv_update_backup_consensus_1_sync net cfg fuel s) refl
          (sym (if_true (ltb 1 cfg.num_idx_rep) _ _ many) ∙ e)
  ]
    where
      by_round :
          (o : Option (State W))
          → kv_update_backup_consensus_1_sync net cfg fuel s ≡ o
          → (elim o [ none ↦ none | some u ↦ kv_update_commit_log_sync net cfg u ]) ≡ some t
          → Keeps net cfg m t
      by_round none h g = absurd (ground (arith, g))
      by_round (some u) h g =
          let before = consensus_1-Keeps fuel s u k h in
          along net cfg m g
            (record { queue = before.queue; updates = before.updates; no_redo = before.no_redo })

  primary-Keeps :
      (s : State W) → Keeps net cfg m s → Keeps net cfg m (modify_primary_idx_sync net cfg s)
  unfolding modify_primary_idx_sync swap_primary primary_changed primary_missed free_cur finish_with
      is_insert replaces
  primary-Keeps s k =
      let no_insert : is_insert s.ctx.req_type ≡ false = ap is_insert k.updates in
      let replacing : replaces s.ctx.req_type ≡ true = ap replaces k.updates in
      either net cfg m _
        (subst (Keeps net cfg m) (sym (if_false (is_insert s.ctx.req_type) _ s no_insert)) k)
        (either net cfg m _
          (record { queue = k.queue; updates = k.updates; no_redo = not_redo success (inl refl) })
          (subst (Keeps net cfg m) (sym (if_false (is_insert s.ctx.req_type) _ _ no_insert)) (
            subst (Keeps net cfg m) (sym (if_true (replaces s.ctx.req_type) _ _ replacing))
              (record {
                queue = k.queue;
                updates = k.updates;
                no_redo = not_redo success (inl refl);
              }))))

  rest-Keeps :
      (fuel : ℕ) (s t : State W)
      → Keeps net cfg m s
      → (update_backups net cfg fuel >=> kv_update_cas_primary_sync net cfg) s ≡ some t
      → Keeps net cfg m t
  unfolding kv_update_cas_primary_sync
  rest-Keeps fuel s t k e = by_backups (update_backups net cfg fuel s) refl e
    where
      by_backups :
          (o : Option (State W))
          → update_backups net cfg fuel s ≡ o
          → (elim o [ none ↦ none | some u ↦ kv_update_cas_primary_sync net cfg u ]) ≡ some t
          → Keeps net cfg m t
      by_backups none h g = absurd (ground (arith, g))
      by_backups (some u) h g =
          along net cfg m g (primary-Keeps u (update_backups-Keeps fuel s u k h))

start-Keeps {ℓ} :
    {W : Type ℓ} (net : Network W) (cfg : Config) (s : State W)
    → s.ctx.req_type ≡ kv_req_update
    → s.ctx.ret_code ≢ fail_redo
    → Keeps net cfg
        (Subblocks.mm_alloc (net.new_block s.world) s.mm).1
        (kv_update_read_buckets_and_write_kv_sync net cfg s)
unfolding kv_update_read_buckets_and_write_kv_sync alloc_subblock prepare_log_commit_addrs
    write_and_read_buckets finish_with
start-Keeps net cfg s updates no_redo =
    let m = (Subblocks.mm_alloc (net.new_block s.world) s.mm).1 in
    let s₁ = alloc_subblock net cfg s in
    let posted =
      write_and_read_buckets net cfg kv_op_update
        (record s₁ { ctx = prepare_log_commit_addrs s₁.ctx }) in
    let read =
      read_cached-Keeps net cfg m posted
        (record { queue = refl; updates = updates; no_redo = no_redo }) in
    let begun : Keeps net cfg m (
        let s₂ = read_cached net cfg posted in
        record s₂ { ctx = record s₂.ctx { is_finished = false } }) =
      record { queue = read.queue; updates = read.updates; no_redo = read.no_redo } in
    let refused : Keeps net cfg m (finish_with net cfg fail_return s₁) = record {
      queue = refl;
      updates = updates;
      no_redo = not_redo fail_return (inr refl);
    } in
    either net cfg m (is_in_range net cfg s₁.ctx) begun refused

-- An update takes one subblock from the queue and never gives it back, whatever its result, also where
-- the key is not found; and it never reports that it is to be repeated, if its context does not begin with
-- that report.
pub kv_update_sync_keeps {ℓ} :
    {W : Type ℓ} (net : Network W) (cfg : Config) (fuel : ℕ) (s t : State W)
    → s.ctx.req_type ≡ kv_req_update
    → s.ctx.ret_code ≢ fail_redo
    → kv_update_sync net cfg fuel s ≡ some t
    → (t.mm ≡ (Subblocks.mm_alloc (net.new_block s.world) s.mm).1) × (t.ctx.ret_code ≢ fail_redo)
unfolding kv_update_sync
kv_update_sync_keeps net cfg fuel s t updates no_redo e =
    let m = (Subblocks.mm_alloc (net.new_block s.world) s.mm).1 in
    let s₁ =
      kv_update_read_buckets_and_write_kv_sync net cfg
        (record s { ctx = prepare_request cfg s.ctx }) in
    let s₂ = kv_update_backup_consensus_0_sync net cfg (kv_update_read_kv_sync net cfg s₁) in
    let kept = start-Keeps net cfg (record s { ctx = prepare_request cfg s.ctx }) updates no_redo in
    let found =
      backup_consensus_0-Keeps net cfg m (kv_update_read_kv_sync net cfg s₁)
        (read_through-Keeps net cfg m s₁.ctx.cached s₁ kept) in
    let end : Keeps net cfg m t = elim (Bool-cases s₁.ctx.is_finished) [
      | inl over ↦ along net cfg m (sym (if_true s₁.ctx.is_finished _ _ over) ∙ e) kept
      | inr runs ↦
          let later = sym (if_false s₁.ctx.is_finished (some s₁) _ runs) ∙ e in
          elim (Bool-cases s₂.ctx.is_finished) [
            | inl over ↦ along net cfg m (sym (if_true s₂.ctx.is_finished _ _ over) ∙ later) found
            | inr on ↦
                rest-Keeps net cfg m fuel s₂ t found
                  (sym (if_false s₂.ctx.is_finished (some s₂) _ on) ∙ later)
          ]
    ] in
    (end.queue, end.no_redo)
