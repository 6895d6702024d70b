-- ===== src/Fs/Engine/Create/Parent.antt =====
-- `lock_parent` changes nothing, and passes only on a directory that the caller may write.
use fusee_fs.Prelude.{ℕ, ◌≡◌, refl, ◌⊎◌, inl, inr, Bool-cases, true, arith}
use fusee_fs.Fs.Inode.{Inode, is_dir, check_write_permission}
use fusee_fs.Fs.KvClient.{KvClient}
use fusee_fs.Fs.Outcome.{Errno, enotdir, eacces, Outcome, ok, err}
use fusee_fs.Fs.Engine.{Engine, get_inode_by_id}
use fusee_fs.Fs.Engine.Create.{lock_parent}

pub Outcome-cases :
    {A : Type 0} (r : Outcome A) → ((a : A) × (r ≡ ok a)) ⊎ ((c : Errno) × (r ≡ err c))
Outcome-cases (ok a) = inl (a, refl)
Outcome-cases (err c) = inr (c, refl)

module _ (kv : KvClient) where
  pub record IsParent (pid uid gid : ℕ) (parent : Inode) (e : Engine kv.Store) : Type 0 where
    pub found : get_inode_by_id kv pid e ≡ ok parent
    pub directory : is_dir parent.mode ≡ true
    pub writable : check_write_permission parent uid gid ≡ true

  pub lock_parent_cases :
      (uid gid pid : ℕ) (e : Engine kv.Store)
      → ((parent : Inode) × (lock_parent kv uid gid pid e ≡ (ok parent, e))
          × IsParent pid uid gid parent e)
        ⊎ ((c : Errno) × (lock_parent kv uid gid pid e ≡ (err c, e)))
  unfolding lock_parent
  lock_parent_cases uid gid pid e = elim (Outcome-cases (get_inode_by_id kv pid e)) [
    | inr (c, q) ↦ inr (c, ground arith)
    | inl (parent, q) ↦ elim (Bool-cases (is_dir parent.mode)) [
      | inr d ↦ inr (enotdir, ground arith)
      | inl d ↦ elim (Bool-cases (check_write_permission parent uid gid)) [
        | inr w ↦ inr (eacces, ground arith)
        | inl w ↦ inl (parent, ground arith, record { found = q; directory = d; writable = w })
      ]
    ]
  ]
