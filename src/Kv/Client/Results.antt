-- ===== src/Kv/Client/Results.antt =====
-- What an insert reports that has lost its slot.
use fusee_fs.Prelude.{
  some-none, ℕ, zero, suc, ◌≡◌, ◌⊎◌, refl, sym, ◌∙◌, ap, subst, true, false, ◌||◌, if_true,
  if_false, or_false, Option, none, some, ltb, ◌==◌, Bool-cases, inl, inr, arith,
}
use fusee_fs.Fs.KvClient.{success}
use fusee_fs.Kv.Consensus.{Consensus, win_all, win_major, win_little, fail, finish, non}
use fusee_fs.Kv.Client.{write_unused, Network, Config, State}
use fusee_fs.Kv.Client.Phases.{finish_with}
use fusee_fs.Kv.Client.Voting.{
  give_up, wait_op_word, check_consensus, after_consensus, modify_backup_idx_consensus_1_sync,
}
use fusee_fs.Kv.Client.Ends.{waits}
use fusee_fs.Kv.Client.Primary.{
  kv_log_commit_sync, modify_primary_idx_sync, unless_finished, unless_stopped, ◌>=>◌,
}
use fusee_fs.Kv.Client.Insert.{
  kv_insert_backup_consensus_1_sync, kv_insert_commit_log_sync, kv_insert_cas_primary_sync,
  insert_backups,
}

module _ {ℓ} {W : Type ℓ} (net : Network W) (cfg : Config) where
  -- The world after some turns of a loop that waits.
  abbrev Waited : W → W → Type ℓ
  Waited w v = (k : ℕ) × (v ≡ waits net cfg k w)

  wait_op_word-Waited :
      (fuel op_word orig_value : ℕ) (w v : W)
      → wait_op_word net cfg fuel op_word orig_value w ≡ some v
      → Waited w v
  unfolding wait_op_word waits
  wait_op_word-Waited zero op_word orig_value w v e = absurd (some-none (sym e))
  wait_op_word-Waited (suc fuel) op_word orig_value w v e =
      elim (Bool-cases (op_word == orig_value)) [
        | inl b ↦
            let (k, same) =
              wait_op_word-Waited fuel op_word orig_value (net.wait w) v
                (sym (if_true (op_word == orig_value) _ _ b) ∙ e) in
            (suc k, same)
        | inr b ↦
            let out : some (net.wait w) ≡ some v =
              sym (if_false (op_word == orig_value) _ _ b) ∙ e in
            (1, cc)
      ]

  -- An insert that is over without a change of the primary slot, the cache or the queues: in the world it
  -- has waited, and marked its log record.
  record IsLost (s t : State W) : Type ℓ where
    over : t.ctx.is_finished ≡ true
    reports : t.ctx.ret_code ≡ success
    same_cache : t.cache ≡ s.cache
    same_mm : t.mm ≡ s.mm
    same_freed : t.freed ≡ s.freed
    no_swap : t.ctx.kv_modify_pr_cas ≡ s.ctx.kv_modify_pr_cas
    marked :
        (v : W) × Waited s.world v
        × (t.world ≡ net.write (write_unused s.ctx.write_unused_addr_list) v)

  give_up-IsLost :
      (s : State W) (w : W) → Waited s.world w → IsLost s (give_up net cfg (record s { world = w }))
  unfolding give_up finish_with
  give_up-IsLost s w h = record {
    over = refl;
    reports = refl;
    same_cache = refl;
    same_mm = refl;
    same_freed = refl;
    no_swap = refl;
    marked = (w, h, refl);
  }

  after_consensus-IsLost :
      (c : Consensus) (lost : Option W) (s t : State W)
      → ((w : W) → lost ≡ some w → Waited s.world w)
      → (c ≡ fail) ⊎ (c ≡ finish)
      → after_consensus net cfg c lost s ≡ some t
      → IsLost s t
  unfolding after_consensus waits
  after_consensus-IsLost fail none s t went h e = absurd (some-none (sym e))
  after_consensus-IsLost fail (some w) s t went h e =
      let is_t : give_up net cfg (record s { world = w }) ≡ t = ground (arith, e) in
      subst (IsLost s) is_t (give_up-IsLost s w (went w refl))
  after_consensus-IsLost finish lost s t went h e =
      let is_t : give_up net cfg s ≡ t = ground (arith, e) in
      subst (IsLost s) is_t (give_up-IsLost s s.world (0, refl))
  after_consensus-IsLost win_all lost s t went h e = absurd (ground (arith, h))
  after_consensus-IsLost win_major lost s t went h e = absurd (ground (arith, h))
  after_consensus-IsLost win_little lost s t went h e = absurd (ground (arith, h))
  after_consensus-IsLost non lost s t went h e = absurd (ground (arith, h))

  stopped-IsLost :
      (phase : State W → Option (State W)) (s t u : State W)
      → IsLost s t
      → unless_stopped net cfg phase t ≡ some u
      → IsLost s u
  unfolding unless_stopped
  stopped-IsLost phase s t u l e =
      let gate : (t.ctx.should_stop || t.ctx.is_finished) ≡ true = ground (arith, l.over) in
      let same = sym (if_true (t.ctx.should_stop || t.ctx.is_finished) _ _ gate) ∙ e in
      let is_u : (record t { ctx = record t.ctx { is_finished = true } }) ≡ u =
        ground (arith, same) in
      subst (IsLost s) is_u (record {
        over = refl;
        reports = l.reports;
        same_cache = l.same_cache;
        same_mm = l.same_mm;
        same_freed = l.same_freed;
        no_swap = l.no_swap;
        marked = l.marked;
      })

  finished-IsLost :
      (phase : State W → Option (State W)) (s t u : State W)
      → IsLost s t
      → unless_finished net cfg phase t ≡ some u
      → IsLost s u
  unfolding unless_finished
  finished-IsLost phase s t u l e =
      let same = sym (if_true t.ctx.is_finished _ _ l.over) ∙ e in
      let is_u : t ≡ u = ground (arith, same) in subst (IsLost s) is_u l

  -- The phase of an insert that decides that it has lost.
  IsLost-phase :
      (fuel : ℕ) (s t : State W)
      → s.ctx.is_finished ≡ false
      → s.ctx.should_stop ≡ false
      → ((check_consensus net cfg s).ctx.consensus_state ≡ fail)
        ⊎ ((check_consensus net cfg s).ctx.consensus_state ≡ finish)
      → kv_insert_backup_consensus_1_sync net cfg fuel s ≡ some t
      → IsLost s t
  unfolding kv_insert_backup_consensus_1_sync unless_stopped modify_backup_idx_consensus_1_sync
      check_consensus
  IsLost-phase fuel s t runs no_stop lost e =
      let u = check_consensus net cfg s in
      let gate =
        sym (if_false (s.ctx.should_stop || s.ctx.is_finished) _ _ (or_false _ _ no_stop runs))
        ∙ e in
      let l =
        after_consensus-IsLost u.ctx.consensus_state _ u t
          (λ w h.
            wait_op_word-Waited fuel s.ctx.op_word s.ctx.kv_modify_pr_cas.orig_value s.world w h)
          lost gate in
      record {
        over = l.over;
        reports = l.reports;
        same_cache = l.same_cache;
        same_mm = l.same_mm;
        same_freed = l.same_freed;
        no_swap = l.no_swap;
        marked = l.marked;
      }

-- An insert that loses its slot, or finds it filled, reports success all the same: all that the network
-- sees of its last phases is that it waits, and then the mark on its log record, no swap of any slot. It
-- does not record a result of the swap of the primary slot, it keeps its subblock, and the cache does
-- not change. This is for a run that ends, for more than one replica of the index, and a client that is
-- not to stop.
pub insert_lost {ℓ} :
    {W : Type ℓ} (net : Network W) (cfg : Config) (fuel : ℕ) (s t : State W)
    → ltb 1 cfg.num_idx_rep ≡ true
    → s.ctx.is_finished ≡ false
    → s.ctx.should_stop ≡ false
    → ((check_consensus net cfg s).ctx.consensus_state ≡ fail)
      ⊎ ((check_consensus net cfg s).ctx.consensus_state ≡ finish)
    → (insert_backups net cfg fuel >=> kv_insert_cas_primary_sync net cfg) s ≡ some t
    → (t.ctx.ret_code ≡ success)
      × ((k : ℕ) × (t.world
            ≡ net.write (write_unused s.ctx.write_unused_addr_list) (waits net cfg k s.world)))
      × (t.ctx.kv_modify_pr_cas ≡ s.ctx.kv_modify_pr_cas)
      × (t.mm ≡ s.mm)
      × (t.cache ≡ s.cache)
      × (t.freed ≡ s.freed)
unfolding insert_backups kv_insert_commit_log_sync kv_insert_cas_primary_sync
insert_lost net cfg fuel s t many runs no_stop lost e =
    let l = by_backups (insert_backups net cfg fuel s) refl e in
    let (v, (k, waited), written) = l.marked in
    let seen = written ∙ ap (net.write (write_unused s.ctx.write_unused_addr_list)) waited in
    (l.reports, (k, seen), l.no_swap, l.same_mm, l.same_cache, l.same_freed)
  where
    by_round :
        (u : State _) (o : Option (State _))
        → kv_insert_backup_consensus_1_sync net cfg fuel s ≡ o
        → (elim o [ none ↦ none | some v ↦ kv_insert_commit_log_sync net cfg v ]) ≡ some u
        → IsLost net cfg s u
    by_round u none k g = absurd (some-none (sym g))
    by_round u (some v) k g =
        stopped-IsLost net cfg (λ x. some (kv_log_commit_sync net cfg x)) s v u
          (IsLost-phase net cfg fuel s v runs no_stop lost k) g

    by_backups :
        (o : Option (State _))
        → insert_backups net cfg fuel s ≡ o
        → (elim o [ none ↦ none | some u ↦ kv_insert_cas_primary_sync net cfg u ]) ≡ some t
        → IsLost net cfg s t
    by_backups none k g = absurd (some-none (sym g))
    by_backups (some u) k g =
        finished-IsLost net cfg (λ x. some (modify_primary_idx_sync net cfg x)) s u t
          (by_round u (kv_insert_backup_consensus_1_sync net cfg fuel s) refl
            (sym (if_true (ltb 1 cfg.num_idx_rep) _ _ many) ∙ k))
          g
