-- ===== src/Kv/Client/Ends.antt =====
-- Whether a client that has lost a slot ends its wait.
use fusee_fs.Prelude.{
  some-none, ℕ, zero, suc, ◌≡◌, ◌≢◌, ◌<◌, ◌↔◌, refl, sym, ◌∙◌, ap, Bool, true, false, Bool-cases,
  inl, inr, Option, none, some, ◌==◌, arith,
}
use fusee_fs.Kv.Consensus.{Consensus, win_all, win_major, win_little, fail, finish, non, CasRequest}
use fusee_fs.Kv.Client.{Network, Config, State}
use fusee_fs.Kv.Client.Voting.{
  wait_primary, wait_op_word, check_consensus, check_fiber_consensus, after_consensus,
  modify_backup_idx_consensus_1, modify_backup_idx_consensus_1_sync,
}

different : (a b : ℕ) → a ≢ b → (a == b) ≡ false
different a b h = ground (arith, h)

module _ {ℓ} {W : Type ℓ} (net : Network W) (cfg : Config) where
  -- The world after `k` turns of a loop that waits.
  unfoldable pub waits : ℕ → W → W
  waits zero w = w
  waits (suc k) w = waits k (net.wait w)

  wait_primary_ends :
      (k fuel : ℕ) (pr : CasRequest) (stop : Bool) (w : W)
      → k < fuel
      → net.read_word pr.server_id pr.r_kv_addr (waits (suc k) w) ≢ pr.orig_value
      → (v : W) × (wait_primary net cfg fuel pr stop w ≡ some v)
  unfolding wait_primary waits
  wait_primary_ends k zero pr stop w low changed = absurd (omega arith)
  wait_primary_ends k (suc fuel) pr true w low changed = (w, refl)
  wait_primary_ends zero (suc fuel) pr false w low changed =
      (net.wait w, rw (different _ _ changed) refl)
  wait_primary_ends (suc k) (suc fuel) pr false w low changed =
      let later = net.wait w in
      elim (Bool-cases (net.read_word pr.server_id pr.r_kv_addr later == pr.orig_value)) [
        | inr e ↦ (later, rw e refl)
        | inl e ↦ rw e (wait_primary_ends k fuel pr false later (omega arith) changed)
      ]

  after_consensus-ends :
      (c : Consensus) (w : W) (s : State W)
      → (t : State W) × (after_consensus net cfg c (some w) s ≡ some t)
  unfolding after_consensus
  after_consensus-ends win_all w s = (_, refl)
  after_consensus-ends win_major w s = (_, refl)
  after_consensus-ends win_little w s = (_, refl)
  after_consensus-ends fail w s = (_, refl)
  after_consensus-ends finish w s = (_, refl)
  after_consensus-ends non w s = (_, refl)

  after_consensus-stuck :
      (c : Consensus) (s : State W) → (after_consensus net cfg c none s ≡ none) ↔ (c ≡ fail)
  unfolding after_consensus
  after_consensus-stuck fail s = (λ h. refl, λ h. refl)
  after_consensus-stuck win_all s = (λ h. absurd cc, λ h. absurd cc)
  after_consensus-stuck win_major s = (λ h. absurd cc, λ h. absurd cc)
  after_consensus-stuck win_little s = (λ h. absurd cc, λ h. absurd cc)
  after_consensus-stuck finish s = (λ h. absurd cc, λ h. absurd cc)
  after_consensus-stuck non s = (λ h. absurd cc, λ h. absurd cc)

  -- A client on fibers that has lost ends its wait: where the primary slot differs from the value it
  -- expected after `k + 1` turns, every fuel above `k` gives a result, whatever the decision.
  pub modify_backup_idx_consensus_1_ends :
      (k fuel : ℕ) (s : State W)
      → k < fuel
      → let pr = s.ctx.kv_modify_pr_cas in
        net.read_word pr.server_id pr.r_kv_addr (waits (suc k) s.world) ≢ pr.orig_value
        → (t : State W) × (modify_backup_idx_consensus_1 net cfg fuel s ≡ some t)
  unfolding modify_backup_idx_consensus_1 check_fiber_consensus
  modify_backup_idx_consensus_1_ends k fuel s low changed =
      let pr = s.ctx.kv_modify_pr_cas in
      let (v, e) = wait_primary_ends k fuel pr s.ctx.should_stop s.world low changed in
      rw e (
        after_consensus-ends (check_fiber_consensus net cfg s).ctx.consensus_state v
          (check_fiber_consensus net cfg s))

  wait_op_word-same :
      (fuel op_word orig_value : ℕ) (w : W)
      → op_word ≡ orig_value
      → wait_op_word net cfg fuel op_word orig_value w ≡ none
  unfolding wait_op_word
  wait_op_word-same zero op_word orig_value w e = refl
  wait_op_word-same (suc fuel) op_word orig_value w e =
      let rest = wait_op_word-same fuel op_word orig_value (net.wait w) e in ground (arith, e, rest)

  wait_op_word-differs :
      (fuel op_word orig_value : ℕ) (w : W)
      → op_word ≢ orig_value
      → wait_op_word net cfg (suc fuel) op_word orig_value w ≡ some (net.wait w)
  unfolding wait_op_word
  wait_op_word-differs fuel op_word orig_value w h = rw (different _ _ h) refl

  -- A client that waits for each batch and has lost never ends its wait, on any fuel, exactly where the
  -- word at `op_laddr` is the value that it expected: the loop does not look at what it reads.
  pub modify_backup_idx_consensus_1_sync_stuck :
      (s : State W)
      → ((fuel : ℕ) → modify_backup_idx_consensus_1_sync net cfg fuel s ≡ none) ↔ (
          ((check_consensus net cfg s).ctx.consensus_state ≡ fail)
          × (s.ctx.op_word ≡ s.ctx.kv_modify_pr_cas.orig_value))
  unfolding modify_backup_idx_consensus_1_sync check_consensus
  modify_backup_idx_consensus_1_sync_stuck s =
      let u = check_consensus net cfg s in
      let c = u.ctx.consensus_state in
      (
        λ h. elim (Bool-cases (s.ctx.op_word == s.ctx.kv_modify_pr_cas.orig_value)) [
          | inl e ↦
              let same : s.ctx.op_word ≡ s.ctx.kv_modify_pr_cas.orig_value = ground (arith, e) in
              ((after_consensus-stuck c u).0 (h 0), same)
          | inr e ↦
              let differs : s.ctx.op_word ≢ s.ctx.kv_modify_pr_cas.orig_value = ground (arith, e) in
              let ends =
                wait_op_word-differs 0 s.ctx.op_word s.ctx.kv_modify_pr_cas.orig_value s.world
                  differs in
              let (t, got) = after_consensus-ends c (net.wait s.world) u in
              absurd (
                some-none
                  (sym got ∙ ap (λ (o : Option W). after_consensus net cfg c o u) (sym ends) ∙ h 1))
        ],
        λ h fuel.
            let stays =
              wait_op_word-same fuel s.ctx.op_word s.ctx.kv_modify_pr_cas.orig_value s.world h.1 in
            ap (λ (o : Option W). after_consensus net cfg c o u) stays
            ∙ (after_consensus-stuck c u).1 h.0,
      )
