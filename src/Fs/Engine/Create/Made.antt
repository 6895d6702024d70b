-- ===== src/Fs/Engine/Create/Made.antt =====
-- What `Mkdir` and `Creat` return, and what is left in the store.
use fusee_fs.Prelude.{ℕ, ◌≡◌, ◌⊎◌, none, Bytes}
use fusee_fs.Fs.Path.{separate_last_component, format_path}
use fusee_fs.Fs.Inode.{Inode}
use fusee_fs.Fs.Key.{dentry_key}
use fusee_fs.Fs.KvClient.{KvClient}
use fusee_fs.Fs.Outcome.{Outcome, ok, err}
use fusee_fs.Fs.Engine.{Engine, get_new_inode_id, path_lookup_to_dentry}
use fusee_fs.Fs.Engine.View.{view, SameView}
use fusee_fs.Fs.Engine.Create.Parent.{IsParent}
use fusee_fs.Fs.Engine.Create.Linked.{Linked, Undone}

-- The number that the next new inode gets.
abbrev pub next_id : {S : Type 0} → Engine S → ℕ
next_id e = (get_new_inode_id (λ s. s) 0 e).0

module _ (kv : KvClient) where
  -- By what is returned: after a success the parent was a directory that the caller may write, the
  -- name was free, and the three writes are there; after an error they are undone, as far as the calls
  -- that undo them go through.
  abbrev pub Made :
      ℕ → Bytes → ℕ → ℕ → Inode → Engine kv.Store → Outcome Unit × Engine kv.Store → Type 0
  Made pid name uid gid inode e (ok _, e') =
      (parent : Inode) × IsParent kv pid uid gid parent e
      × (view kv e (dentry_key pid name) ≡ none)
      × Linked kv pid parent name inode e e'
  Made pid name uid gid inode e (err c, e') = Undone kv pid name inode e e'

  -- The same for a path: the parent is what the lookup of its path finds.
  abbrev pub MadeAt :
      Bytes → ℕ → ℕ → Inode → Engine kv.Store → Outcome Unit × Engine kv.Store → Type 0
  MadeAt path uid gid inode e (ok _, e') =
      (pid : ℕ) × (path_lookup_to_dentry kv (separate_last_component (format_path path)).0 uid gid e
        ≡ ok pid)
      × Made pid (separate_last_component (format_path path)).1 uid gid inode e (ok tt, e')
  MadeAt path uid gid inode e (err c, e') =
      SameView kv e e'
      ⊎ ((pid : ℕ) × (path_lookup_to_dentry kv (separate_last_component (format_path path)).0 uid
              gid e
            ≡ ok pid)
          × Undone kv pid (separate_last_component (format_path path)).1 inode e e')
