-- ===== src/Kv/Client/Keeps.antt =====
-- The phases of an update, up to the votes of the backups.
use fusee_fs.Prelude.{
  ℕ, ◌≡◌, ◌≢◌, ◌⊎◌, refl, sym, subst, Bool, true, false, Bool-cases, if_true, if_false, inl, inr,
  Option, none, some, List, [], ◌∷◌, ◌==◌, if◌then◌else◌, arith,
}
use fusee_fs.Fs.KvClient.{RetCode, success, fail_return, fail_redo}
use fusee_fs.Kv.Hash.{RaceHashSlot}
use fusee_fs.Kv.Subblocks.{ClientMm}
use fusee_fs.Kv.Client.LocalCache.{LocalCacheEntry}
use fusee_fs.Kv.Client.{kv_req_update, KvObject, Network, Config, State}
use fusee_fs.Kv.Client.Slots.{fill_cas_addr, fill_invalid_addr}
use fusee_fs.Kv.Client.Phases.{finish_with, read_entry, read_cached, find_and_read, post_backups}
use fusee_fs.Kv.Client.Update.{
  replace_slot, use_entry, read_miss, read_through, replace_matched, backup_consensus_0,
  updated_value, kv_update_backup_consensus_0_sync,
}

pub not_redo : (c : RetCode) → (c ≡ success) ⊎ (c ≡ fail_return) → c ≢ fail_redo
not_redo c h k = ground (arith, h, k)

module _ {ℓ} {W : Type ℓ} (net : Network W) (cfg : Config) (m : ClientMm) where
  pub record Keeps (s : State W) : Type ℓ where
    pub queue : s.mm ≡ m
    pub updates : s.ctx.req_type ≡ kv_req_update
    pub no_redo : s.ctx.ret_code ≢ fail_redo

  pub either : (b : Bool) {s t : State W} → Keeps s → Keeps t → Keeps (if b then s else t)
  either true h k = h
  either false h k = k

  pub along : {s t : State W} → some s ≡ some t → Keeps s → Keeps t
  along {s} {t} e k = let same : s ≡ t = ground (arith, e) in subst Keeps same k

  finish_with-Keeps :
      (c : RetCode) (s : State W)
      → (c ≡ success) ⊎ (c ≡ fail_return)
      → Keeps s
      → Keeps (finish_with net cfg c s)
  unfolding finish_with
  finish_with-Keeps c s h k = record {
    queue = k.queue;
    updates = k.updates;
    no_redo = not_redo c h;
  }

  read_entry-Keeps :
      (o : Option LocalCacheEntry) (s : State W) → Keeps s → Keeps (read_entry net cfg o s)
  unfolding read_entry
  read_entry-Keeps none s k = record { queue = k.queue; updates = k.updates; no_redo = k.no_redo }
  read_entry-Keeps (some e) s k = record {
    queue = k.queue;
    updates = k.updates;
    no_redo = k.no_redo;
  }

  pub read_cached-Keeps : (s : State W) → Keeps s → Keeps (read_cached net cfg s)
  unfolding read_cached
  read_cached-Keeps s k = elim (Bool-cases s.ctx.use_cache) [
    | inl e ↦ subst Keeps (sym (if_true s.ctx.use_cache _ _ e)) (
        read_entry-Keeps _ _ (record { queue = k.queue; updates = k.updates; no_redo = k.no_redo }))
    | inr e ↦ subst Keeps (sym (if_false s.ctx.use_cache _ _ e)) k
  ]

  fill_cas_addr-Keeps :
      (addrs : List (ℕ × ℕ)) (orig swap : ℕ) (s : State W)
      → Keeps s
      → Keeps (record s { ctx = fill_cas_addr addrs orig swap s.ctx })
  unfolding fill_cas_addr
  fill_cas_addr-Keeps [] orig swap s k = k
  fill_cas_addr-Keeps (a ∷ addrs) orig swap s k = record {
    queue = k.queue;
    updates = k.updates;
    no_redo = k.no_redo;
  }

  replace_slot-Keeps :
      (addrs : List (ℕ × ℕ)) (old : RaceHashSlot) (swap : ℕ) (s : State W)
      → Keeps s
      → Keeps (record s { ctx = replace_slot addrs old swap s.ctx })
  unfolding replace_slot fill_invalid_addr
  replace_slot-Keeps addrs old swap s k =
      let filled = fill_cas_addr-Keeps addrs _ swap s k in
      record { queue = filled.queue; updates = filled.updates; no_redo = filled.no_redo }

  use_entry-Keeps :
      (e : LocalCacheEntry) (s : State W)
      → Keeps s
      → Keeps (use_entry net cfg fail_return (updated_value net cfg) e s)
  unfolding use_entry
  use_entry-Keeps e s k =
      let replaced = replace_slot-Keeps _ e.l_slot _ s k in
      record { queue = replaced.queue; updates = replaced.updates; no_redo = replaced.no_redo }

  read_miss-Keeps :
      (s : State W) → Keeps s → Keeps (read_miss net cfg fail_return (updated_value net cfg) s)
  unfolding read_miss find_and_read
  read_miss-Keeps s k = record { queue = k.queue; updates = k.updates; no_redo = k.no_redo }

  pub read_through-Keeps :
      (o : Option (LocalCacheEntry × KvObject)) (s : State W)
      → Keeps s
      → Keeps (read_through net cfg fail_return (updated_value net cfg) o s)
  unfolding read_through
  read_through-Keeps none s k = read_miss-Keeps s k
  read_through-Keeps (some (e, o)) s k = either _ (use_entry-Keeps e s k) (read_miss-Keeps s k)

  post_backups-Keeps : (s : State W) → Keeps s → Keeps (post_backups net cfg s)
  unfolding post_backups
  post_backups-Keeps s k =
      either (cfg.num_idx_rep == 1)
        (record { queue = k.queue; updates = k.updates; no_redo = k.no_redo })
        (record { queue = k.queue; updates = k.updates; no_redo = k.no_redo })

  replace_matched-Keeps :
      (o : Option (ℕ × ℕ × RaceHashSlot)) (s : State W)
      → Keeps s
      → Keeps (replace_matched net cfg fail_return (updated_value net cfg) o s)
  unfolding replace_matched
  replace_matched-Keeps none s k = finish_with-Keeps fail_return s (inr refl) k
  replace_matched-Keeps (some (i, j, old)) s k =
      post_backups-Keeps _ (replace_slot-Keeps _ old _ s k)

  pub backup_consensus_0-Keeps :
      (s : State W) → Keeps s → Keeps (kv_update_backup_consensus_0_sync net cfg s)
  unfolding kv_update_backup_consensus_0_sync backup_consensus_0
  backup_consensus_0-Keeps s k = either _ (post_backups-Keeps s k) (replace_matched-Keeps _ s k)
