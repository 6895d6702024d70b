-- ===== src/Kv/Client/Holds.antt =====
-- The phases of an insert that holds a subblock, up to the change of the primary slot.
use fusee_fs.Prelude.{
  ℕ, ◌≡◌, ◌≢◌, ◌⊎◌, refl, sym, ◌∙◌, subst, true, false, ◌||◌, Bool-cases, if_true, if_false,
  or_false, inl, inr, Option, none, some, ltb, arith,
}
use fusee_fs.Fs.KvClient.{success}
use fusee_fs.Kv.Consensus.{Consensus, win_all, win_major, win_little, fail, finish, non}
use fusee_fs.Kv.Subblocks.{ClientMm, ClientMmAllocCtx, mm_free_cur}
use fusee_fs.Kv.Client.{kv_req_insert, Network, Config, State}
use fusee_fs.Kv.Client.Phases.{finish_with}
use fusee_fs.Kv.Client.Voting.{
  give_up, check_consensus, repeat_backups, after_consensus, modify_backup_idx_consensus_1_sync,
}
use fusee_fs.Kv.Client.Primary.{is_insert, kv_log_commit_sync, unless_finished, unless_stopped}
use fusee_fs.Kv.Client.Insert.{
  kv_insert_backup_consensus_1_sync, kv_insert_commit_log_sync, insert_backups,
}

pub is_insert-insert : is_insert kv_req_insert ≡ true
unfolding is_insert
is_insert-insert = refl

module _ {ℓ} {W : Type ℓ} (net : Network W) (cfg : Config) (a : ClientMmAllocCtx)
    (m : ClientMm) where
  -- An insert that holds the subblock of the allocation `a`.
  pub record Holds (s : State W) : Type ℓ where
    pub runs : s.ctx.is_finished ≡ false
    pub no_stop : s.ctx.should_stop ≡ false
    pub inserts : s.ctx.req_type ≡ kv_req_insert
    pub allocated : s.ctx.mm_alloc_ctx ≡ a
    pub queue : s.mm ≡ m

  -- An insert that is over: it succeeded and has kept the subblock, or it did not and gave it back.
  pub record IsOver (s : State W) : Type ℓ where
    pub over : s.ctx.is_finished ≡ true
    pub kept :
        ((s.ctx.ret_code ≡ success) × (s.mm ≡ m))
        ⊎ ((s.ctx.ret_code ≢ success) × (s.mm ≡ mm_free_cur a m))

  give_up-IsOver : (s : State W) → Holds s → IsOver (give_up net cfg s)
  unfolding give_up finish_with
  give_up-IsOver s h = record { over = refl; kept = inl (refl, h.queue) }

  repeat_backups-Holds : (s : State W) → Holds s → Holds (repeat_backups net cfg s)
  unfolding repeat_backups
  repeat_backups-Holds s h = record {
    runs = refl;
    no_stop = h.no_stop;
    inserts = h.inserts;
    allocated = h.allocated;
    queue = h.queue;
  }

  after_consensus-Holds :
      (c : Consensus) (lost : Option W) (s t : State W)
      → Holds s
      → after_consensus net cfg c lost s ≡ some t
      → Holds t ⊎ IsOver t
  unfolding after_consensus
  after_consensus-Holds finish lost s t h e =
      let same : give_up net cfg s ≡ t = ground (arith, e) in
      inr (subst IsOver same (give_up-IsOver s h))
  after_consensus-Holds fail none s t h e = absurd (ground (arith, e))
  after_consensus-Holds fail (some w) s t h e =
      let moved : State W = record s { world = w } in
      let same : give_up net cfg moved ≡ t = ground (arith, e) in
      inr (
        subst IsOver same (
          give_up-IsOver moved (record {
            runs = h.runs;
            no_stop = h.no_stop;
            inserts = h.inserts;
            allocated = h.allocated;
            queue = h.queue;
          })))
  after_consensus-Holds win_all lost s t h e =
      let on : State W = record s { ctx = record s.ctx { is_finished = false } } in
      let same : on ≡ t = ground (arith, e) in
      inl (
        subst Holds same (record {
          runs = refl;
          no_stop = h.no_stop;
          inserts = h.inserts;
          allocated = h.allocated;
          queue = h.queue;
        }))
  after_consensus-Holds win_major lost s t h e =
      let same : repeat_backups net cfg s ≡ t = ground (arith, e) in
      inl (subst Holds same (repeat_backups-Holds s h))
  after_consensus-Holds win_little lost s t h e =
      let same : repeat_backups net cfg s ≡ t = ground (arith, e) in
      inl (subst Holds same (repeat_backups-Holds s h))
  after_consensus-Holds non lost s t h e =
      let same : repeat_backups net cfg s ≡ t = ground (arith, e) in
      inl (subst Holds same (repeat_backups-Holds s h))

  consensus_1-Holds :
      (fuel : ℕ) (s t : State W)
      → Holds s
      → kv_insert_backup_consensus_1_sync net cfg fuel s ≡ some t
      → Holds t ⊎ IsOver t
  unfolding kv_insert_backup_consensus_1_sync unless_stopped modify_backup_idx_consensus_1_sync
      check_consensus
  consensus_1-Holds fuel s t h e =
      let decided = check_consensus net cfg s in
      let own : Holds decided = record {
        runs = h.runs;
        no_stop = h.no_stop;
        inserts = h.inserts;
        allocated = h.allocated;
        queue = h.queue;
      } in
      let open_gate =
        sym (if_false (s.ctx.should_stop || s.ctx.is_finished) _ _ (or_false _ _ h.no_stop h.runs))
        ∙ e in
      after_consensus-Holds decided.ctx.consensus_state _ decided t own open_gate

  -- A phase that is left out once the insert is over.
  stopped-IsOver :
      (phase : State W → Option (State W)) (s t : State W)
      → IsOver s
      → unless_stopped net cfg phase s ≡ some t
      → IsOver t
  unfolding unless_stopped
  stopped-IsOver phase s t o e =
      let gate : (s.ctx.should_stop || s.ctx.is_finished) ≡ true = ground (arith, o.over) in
      let same = sym (if_true (s.ctx.should_stop || s.ctx.is_finished) _ _ gate) ∙ e in
      let is_t : (record s { ctx = record s.ctx { is_finished = true } }) ≡ t =
        ground (arith, same) in
      subst IsOver is_t (record { over = refl; kept = o.kept })

  pub finished-IsOver :
      (phase : State W → Option (State W)) (s t : State W)
      → IsOver s
      → unless_finished net cfg phase s ≡ some t
      → IsOver t
  unfolding unless_finished
  finished-IsOver phase s t o e =
      let same = sym (if_true s.ctx.is_finished _ _ o.over) ∙ e in
      let is_t : s ≡ t = ground (arith, same) in subst IsOver is_t o

  commit-Holds : (s t : State W) → Holds s → kv_insert_commit_log_sync net cfg s ≡ some t → Holds t
  unfolding kv_insert_commit_log_sync unless_stopped kv_log_commit_sync
  commit-Holds s t h e =
      let same =
        sym (if_false (s.ctx.should_stop || s.ctx.is_finished) _ _ (or_false _ _ h.no_stop h.runs))
        ∙ e in
      let is_t : kv_log_commit_sync net cfg s ≡ t = ground (arith, same) in
      subst Holds is_t (record {
        runs = refl;
        no_stop = h.no_stop;
        inserts = h.inserts;
        allocated = h.allocated;
        queue = h.queue;
      })

  commit-IsOver :
      (s t : State W) → IsOver s → kv_insert_commit_log_sync net cfg s ≡ some t → IsOver t
  unfolding kv_insert_commit_log_sync
  commit-IsOver s t o e = stopped-IsOver (λ u. some (kv_log_commit_sync net cfg u)) s t o e

  pub backups-Holds :
      (fuel : ℕ) (s t : State W)
      → Holds s
      → insert_backups net cfg fuel s ≡ some t
      → Holds t ⊎ IsOver t
  unfolding insert_backups
  backups-Holds fuel s t h e = elim (Bool-cases (ltb 1 cfg.num_idx_rep)) [
    | inl many ↦
        by_round (kv_insert_backup_consensus_1_sync net cfg fuel s) refl
          (sym (if_true _ _ _ many) ∙ e)
    | inr one ↦
        let same = sym (if_false _ _ _ one) ∙ e in
        let is_t : s ≡ t = ground (arith, same) in inl (subst Holds is_t h)
  ]
    where
      by_round :
          (o : Option (State W))
          → kv_insert_backup_consensus_1_sync net cfg fuel s ≡ o
          → (elim o [ none ↦ none | some u ↦ kv_insert_commit_log_sync net cfg u ]) ≡ some t
          → Holds t ⊎ IsOver t
      by_round none k g = absurd (ground (arith, g))
      by_round (some u) k g = elim (consensus_1-Holds fuel s u h k) [
        | inl on ↦ inl (commit-Holds u t on g)
        | inr over ↦ inr (commit-IsOver u t over g)
      ]

  consensus_1-IsOver :
      (fuel : ℕ) (s t : State W)
      → IsOver s
      → kv_insert_backup_consensus_1_sync net cfg fuel s ≡ some t
      → IsOver t
  unfolding kv_insert_backup_consensus_1_sync
  consensus_1-IsOver fuel s t o e =
      stopped-IsOver (modify_backup_idx_consensus_1_sync net cfg fuel) s t o e

  pub backups-IsOver :
      (fuel : ℕ) (s t : State W) → IsOver s → insert_backups net cfg fuel s ≡ some t → IsOver t
  unfolding insert_backups
  backups-IsOver fuel s t h e = elim (Bool-cases (ltb 1 cfg.num_idx_rep)) [
    | inl many ↦
        by_round (kv_insert_backup_consensus_1_sync net cfg fuel s) refl
          (sym (if_true _ _ _ many) ∙ e)
    | inr one ↦
        let same = sym (if_false _ _ _ one) ∙ e in
        let is_t : s ≡ t = ground (arith, same) in subst IsOver is_t h
  ]
    where
      by_round :
          (o : Option (State W))
          → kv_insert_backup_consensus_1_sync net cfg fuel s ≡ o
          → (elim o [ none ↦ none | some u ↦ kv_insert_commit_log_sync net cfg u ]) ≡ some t
          → IsOver t
      by_round none k g = absurd (ground (arith, g))
      by_round (some u) k g = commit-IsOver u t (consensus_1-IsOver fuel s u h k) g
