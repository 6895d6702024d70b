-- ===== src/Fs/Engine/Stored.antt =====
-- The store as the engine writes it: inodes under inode keys, numbers under the keys of entries.
use fusee_fs.Prelude.{ℕ, ◌≡◌, ap, ◌∙◌, some, Bytes, arith, Option-cases, inl, inr}
use fusee_fs.Prelude.Word.{IsU64}
use fusee_fs.Fs.Inode.{Inode, le_bytes, encode_inode, decode_inode, read_le}
use fusee_fs.Fs.Inode.Layout.{IsInode, decode_inode-encode_inode, read_le-id}
use fusee_fs.Fs.Key.{dentry_key, inode_key}
use fusee_fs.Fs.KvClient.{KvClient}
use fusee_fs.Fs.Outcome.{ok}
use fusee_fs.Fs.Engine.{Engine, get_inode_by_id, get_dentry_by_parent_id_and_name}
use fusee_fs.Fs.Engine.View.{view}

module _ (kv : KvClient) where
  pub record IsStored (e : Engine kv.Store) : Type 0 where
    pub inodes :
        (id : ℕ) (v : Bytes)
        → view kv e (inode_key id) ≡ some v
        → (i : Inode) × IsInode i × (v ≡ encode_inode i)
    pub entries :
        (pid : ℕ) (name v : Bytes)
        → view kv e (dentry_key pid name) ≡ some v
        → (id : ℕ) × IsU64 id × (v ≡ le_bytes 8 id)

  module _ (e : Engine kv.Store) (stored : IsStored e) where
    -- What is read is what is stored.
    pub stored_inode :
        (id : ℕ) (i : Inode)
        → get_inode_by_id kv id e ≡ ok i
        → (view kv e (inode_key id) ≡ some (encode_inode i)) × IsInode i
    unfolding get_inode_by_id
    stored_inode id i found = elim (Option-cases (view kv e (inode_key id))) [
      | inl q ↦ absurd (ground arith)
      | inr (v, q) ↦
          let (i', ok', w) = stored.inodes id v q in
          let same : i' ≡ i = ground (arith, decode_inode-encode_inode i' ok', ap decode_inode w) in
          (q ∙ ap some (w ∙ ap encode_inode same), rw (← same) ok')
    ]

    pub stored_entry :
        (pid : ℕ) (name : Bytes) (id : ℕ)
        → get_dentry_by_parent_id_and_name kv pid name e ≡ ok id
        → (view kv e (dentry_key pid name) ≡ some (le_bytes 8 id)) × IsU64 id
    unfolding get_dentry_by_parent_id_and_name
    stored_entry pid name id found = elim (Option-cases (view kv e (dentry_key pid name))) [
      | inl q ↦ absurd (ground arith)
      | inr (v, q) ↦
          let (id', ok', w) = stored.entries pid name v q in
          let same : id' ≡ id = ground (arith, read_le-id id' ok', ap (read_le 8) w) in
          (q ∙ ap some (w ∙ ap (le_bytes 8) same), rw (← same) ok')
    ]
