-- ===== src/Kv/Client/Accounting.antt =====
-- What a write does to the queue of free subblocks.
use fusee_fs.Prelude.{
  ℕ, ◌+◌, ◌≡◌, ◌≢◌, ◌≤◌, ◌<◌, ◌⊎◌, refl, sym, ◌∙◌, ap, subst, true, false, Bool-cases, if_true,
  if_false, inl, inr, Option, none, some, List, [], ◌∷◌, All, ltb, ◌==◌, if◌then◌else◌, arith,
}
use fusee_fs.Fs.KvClient.{success}
use fusee_fs.Kv.Hash.{RaceHashSlot}
use fusee_fs.Kv.Subblocks
use fusee_fs.Kv.Subblocks.{
  SubblockInfo, ClientMm, ClientMmAllocCtx, IsTagged, mm_free_cur, mm_free_cur-mm_alloc,
}
use fusee_fs.Kv.Client.{kv_req_insert, Network, Config, State}
use fusee_fs.Kv.Client.Slots.{
  first_replica, prepare_request, prepare_log_commit_addrs, fill_cas_addr,
}
use fusee_fs.Kv.Client.Phases.{
  alloc_result, finish_with, free_cur, alloc_subblock, is_in_range, write_and_read_buckets,
  post_backups,
}
use fusee_fs.Kv.Client.Primary.{
  is_insert, is_fail, primary_changed, primary_missed, swap_primary, modify_primary_idx_sync,
  unless_finished, ◌>=>◌,
}
use fusee_fs.Kv.Client.Insert.{
  kv_insert_read_buckets_and_write_kv_sync, fill_old, fill_insert, take_slot,
  kv_insert_backup_consensus_0, kv_insert_backup_consensus_0_sync, kv_insert_cas_primary_sync,
  insert_backups, kv_insert_sync,
}
use fusee_fs.Kv.Client.Holds.{
  Holds, IsOver, finished-IsOver, backups-Holds, backups-IsOver, is_insert-insert,
}

module _ {ℓ} {W : Type ℓ} (net : Network W) (cfg : Config) (a : ClientMmAllocCtx)
    (m : ClientMm) where
  primary_changed-IsOver : (s : State W) → s.mm ≡ m → IsOver net cfg a m (primary_changed net cfg s)
  unfolding primary_changed finish_with
  primary_changed-IsOver s q = record { over = refl; kept = inl (refl, q) }

  redo :
      (s : State W)
      → s.mm ≡ m
      → s.ctx.mm_alloc_ctx ≡ a
      → mm_free_cur s.ctx.mm_alloc_ctx s.mm ≡ mm_free_cur a m
  redo s q k = rw (q, k) refl

  -- The primary slot, of an insert that holds its subblock.
  primary-kept :
      (s : State W)
      → Holds net cfg a m s
      → let t = modify_primary_idx_sync net cfg s in
        ((t.ctx.ret_code ≡ success) × (t.mm ≡ m))
        ⊎ ((t.ctx.ret_code ≢ success) × (t.mm ≡ mm_free_cur a m))
  unfolding modify_primary_idx_sync swap_primary primary_changed primary_missed free_cur finish_with
  primary-kept s h =
      let inserting : is_insert s.ctx.req_type ≡ true = rw h.inserts is_insert-insert in
      let s₁ = swap_primary net cfg s in
      elim (Bool-cases (is_fail s.ctx.consensus_state)) [
        | inl lost ↦ rw (lost, inserting) (inr (cc, redo s h.queue h.allocated))
        | inr on ↦
            elim (Bool-cases
              (s₁.ctx.kv_modify_pr_cas.swap_back == s₁.ctx.kv_modify_pr_cas.orig_value)) [
                | inl hit ↦ rw (on, hit) (inl (refl, h.queue))
                | inr missed ↦ rw (on, missed, inserting) (inr (cc, redo s h.queue h.allocated))
              ]
      ]

  fill_cas_addr-Holds :
      (addrs : List (ℕ × ℕ)) (orig swap : ℕ) (s : State W)
      → Holds net cfg a m s
      → Holds net cfg a m (record s { ctx = fill_cas_addr addrs orig swap s.ctx })
  unfolding fill_cas_addr
  fill_cas_addr-Holds [] orig swap s h = h
  fill_cas_addr-Holds (x ∷ addrs) orig swap s h = record {
    runs = h.runs;
    no_stop = h.no_stop;
    inserts = h.inserts;
    allocated = h.allocated;
    queue = h.queue;
  }

  fill_old-Holds :
      (i j : ℕ) (o : Option RaceHashSlot) (s : State W)
      → Holds net cfg a m s
      → Holds net cfg a m (record s { ctx = fill_old net cfg i j o s.ctx })
  unfolding fill_old
  fill_old-Holds i j none s h = h
  fill_old-Holds i j (some old) s h = fill_cas_addr-Holds _ _ _ s h

  post_backups-Holds :
      (s : State W) → Holds net cfg a m s → Holds net cfg a m (post_backups net cfg s)
  unfolding post_backups
  post_backups-Holds s h = elim (Bool-cases (cfg.num_idx_rep == 1)) [
    | inl e ↦ rw e (record {
      runs = h.runs;
      no_stop = h.no_stop;
      inserts = h.inserts;
      allocated = h.allocated;
      queue = h.queue;
    })
    | inr e ↦ rw e (record {
      runs = h.runs;
      no_stop = h.no_stop;
      inserts = h.inserts;
      allocated = h.allocated;
      queue = h.queue;
    })
  ]

  take_slot-Holds :
      (o : Option (ℕ × ℕ)) (s : State W)
      → Holds net cfg a m s
      → Holds net cfg a m (take_slot net cfg o s) ⊎ IsOver net cfg a m (take_slot net cfg o s)
  unfolding take_slot free_cur finish_with fill_insert
  take_slot-Holds none s h =
      inr (record { over = refl; kept = inr (cc, redo s h.queue h.allocated) })
  take_slot-Holds (some (i, j)) s h = inl (post_backups-Holds _ (fill_old-Holds i j _ s h))

  slot-Holds :
      (s : State W)
      → Holds net cfg a m s
      → Holds net cfg a m (kv_insert_backup_consensus_0_sync net cfg s)
        ⊎ IsOver net cfg a m (kv_insert_backup_consensus_0_sync net cfg s)
  unfolding kv_insert_backup_consensus_0_sync kv_insert_backup_consensus_0
  slot-Holds s h =
      let t = kv_insert_backup_consensus_0 net cfg s in
      let same : (if s.ctx.is_finished then s else t) ≡ t = if_false s.ctx.is_finished s t h.runs in
      subst (λ (u : State W). Holds net cfg a m u ⊎ IsOver net cfg a m u) (sym same)
        (take_slot-Holds _ s h)

  -- The end of an insert, from the state that the search of a slot leaves.
  rest-kept :
      (fuel : ℕ) (s t : State W)
      → Holds net cfg a m s ⊎ IsOver net cfg a m s
      → (insert_backups net cfg fuel >=> kv_insert_cas_primary_sync net cfg) s ≡ some t
      → ((t.ctx.ret_code ≡ success) × (t.mm ≡ m))
        ⊎ ((t.ctx.ret_code ≢ success) × (t.mm ≡ mm_free_cur a m))
  unfolding insert_backups kv_insert_cas_primary_sync unless_finished
  rest-kept fuel s t h e = by_round (insert_backups net cfg fuel s) refl e
    where
      last :
          (u : State W)
          → Holds net cfg a m u ⊎ IsOver net cfg a m u
          → kv_insert_cas_primary_sync net cfg u ≡ some t
          → ((t.ctx.ret_code ≡ success) × (t.mm ≡ m))
            ⊎ ((t.ctx.ret_code ≢ success) × (t.mm ≡ mm_free_cur a m))
      last u (inl on) g =
          let same = sym (if_false u.ctx.is_finished (some u) _ on.runs) ∙ g in
          let is_t : modify_primary_idx_sync net cfg u ≡ t = ground (arith, same) in
          subst
            (λ (v : State W).
              ((v.ctx.ret_code ≡ success) × (v.mm ≡ m))
              ⊎ ((v.ctx.ret_code ≢ success) × (v.mm ≡ mm_free_cur a m)))
            is_t (primary-kept u on)
      last u (inr over) g =
          (finished-IsOver net cfg a m (λ v. some (modify_primary_idx_sync net cfg v)) u t over
            g).kept

      by_round :
          (o : Option (State W))
          → insert_backups net cfg fuel s ≡ o
          → (elim o [ none ↦ none | some u ↦ kv_insert_cas_primary_sync net cfg u ]) ≡ some t
          → ((t.ctx.ret_code ≡ success) × (t.mm ≡ m))
            ⊎ ((t.ctx.ret_code ≢ success) × (t.mm ≡ mm_free_cur a m))
      by_round none k g = absurd (ground (arith, g))
      by_round (some u) k g = elim h [
        | inl on ↦ last u (backups-Holds net cfg a m fuel s u on k) g
        | inr over ↦ last u (inr (backups-IsOver net cfg a m fuel s u over k)) g
      ]

mm_alloc-queue :
    (more : Option (List SubblockInfo)) (s : ClientMm) (first second : SubblockInfo)
    (queue : List SubblockInfo)
    → s.subblock_free_queue ≡ first ∷ second ∷ queue
    → (Subblocks.mm_alloc more s).1.subblock_free_queue ≡ second ∷ queue
unfolding Subblocks.mm_alloc Subblocks.alloc_ctx
mm_alloc-queue more s first second queue q = rw q refl

-- The first phase, where the allocation gives an address in the range.
start-Holds {ℓ} :
    {W : Type ℓ} (net : Network W) (cfg : Config) (s : State W) (a : ClientMmAllocCtx)
    → (Subblocks.mm_alloc (net.new_block s.world) s.mm).0 ≡ some a
    → cfg.server_st_addr ≤ (first_replica a.replicas).1
    → (first_replica a.replicas).1 < cfg.server_st_addr + cfg.server_data_len
    → s.ctx.should_stop ≡ false
    → s.ctx.req_type ≡ kv_req_insert
    → Holds net cfg a
        (Subblocks.mm_alloc (net.new_block s.world) s.mm).1
        (kv_insert_read_buckets_and_write_kv_sync net cfg s)
unfolding kv_insert_read_buckets_and_write_kv_sync is_in_range alloc_subblock alloc_result
    prepare_log_commit_addrs write_and_read_buckets
start-Holds net cfg s a got low high no_stop inserts =
    let s₁ = alloc_subblock net cfg s in
    let is_a : s₁.ctx.mm_alloc_ctx ≡ a = ap alloc_result got in
    let in_range : is_in_range net cfg s₁.ctx ≡ true =
      subst
        (λ (c : ClientMmAllocCtx).
          (if ltb (first_replica c.replicas).1 cfg.server_st_addr
            then false
            else ltb (first_replica c.replicas).1 (cfg.server_st_addr + cfg.server_data_len))
          ≡ true)
        (sym is_a) (ground arith) in
    subst (Holds net cfg a (Subblocks.mm_alloc (net.new_block s.world) s.mm).1)
      (sym (if_true (is_in_range net cfg s₁.ctx) _ _ in_range))
      (record { runs = refl; no_stop = no_stop; inserts = inserts; allocated = is_a; queue = refl })

-- An insert that does not succeed gives its subblock back: the queue of free subblocks is as before. One
-- that succeeds has taken one subblock. This is for a queue with a second subblock, a first one in
-- the range of the servers, a last one that leaves room for the server in its addresses, and a
-- client that is not to stop.
pub kv_insert_sync_accounts {ℓ} :
    {W : Type ℓ} (net : Network W) (cfg : Config) (fuel : ℕ) (s t : State W)
    (first second : SubblockInfo) (queue : List SubblockInfo)
    → s.mm.subblock_free_queue ≡ first ∷ second ∷ queue
    → All IsTagged s.mm.last_allocated_info
    → cfg.server_st_addr ≤ (first_replica first).1
    → (first_replica first).1 < cfg.server_st_addr + cfg.server_data_len
    → s.ctx.should_stop ≡ false
    → s.ctx.req_type ≡ kv_req_insert
    → kv_insert_sync net cfg fuel s ≡ some t
    → ((t.ctx.ret_code ≡ success) × (t.mm.subblock_free_queue ≡ second ∷ queue))
      ⊎ ((t.ctx.ret_code ≢ success) × (t.mm ≡ s.mm))
unfolding kv_insert_sync
kv_insert_sync_accounts net cfg fuel s t first second queue q tagged low high no_stop inserts e =
    let (a, got, is_first, back) =
      mm_free_cur-mm_alloc (net.new_block s.world) s.mm first second queue q tagged in
    let s₀ : State _ = record s { ctx = prepare_request cfg s.ctx } in
    let m = (Subblocks.mm_alloc (net.new_block s.world) s.mm).1 in
    let s₁ = kv_insert_read_buckets_and_write_kv_sync net cfg s₀ in
    let held = start-Holds net cfg s₀ a got (rw is_first low) (rw is_first high) no_stop inserts in
    let rest = sym (if_false s₁.ctx.is_finished (some s₁) _ held.runs) ∙ e in
    elim (rest-kept net cfg a m fuel _ t (slot-Holds net cfg a m s₁ held) rest) [
      | inl (won, kept) ↦ inl (
        won,
        ap (λ (x : ClientMm). x.subblock_free_queue) kept
            ∙ mm_alloc-queue (net.new_block s.world) s.mm first second queue q,
      )
      | inr (lost, given) ↦ inr (lost, given ∙ back)
    ]
