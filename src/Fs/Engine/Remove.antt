-- ===== src/Fs/Engine/Remove.antt =====
-- fs/engine/engine.cc: `Rmdir`, `Unlink` and `Stat`.
pub mod Unlinked
pub mod Gone
use fusee_fs.Prelude.{ℕ, ◌+◌, ◌-◌, ◌%◌, ◌^◌, Bool, true, false, not, Bytes, ◌==◌}
use fusee_fs.Prelude.Word.{u64}
use fusee_fs.Fs.Path.{separate_last_component, format_path}
use fusee_fs.Fs.Inode.{Inode, is_dir}
use fusee_fs.Fs.KvClient.{KvClient}
use fusee_fs.Fs.Outcome.{
  enotdir, eisdir, enotempty, Outcome, ok, err, pure, query, ◌>>=◌, ◌>>◌, ignore, or_else_do,
  require,
}
use fusee_fs.Fs.Engine.{
  Engine, Method, get_inode_by_id, get_dentry_by_parent_id_and_name, insert_dentry, delete_dentry,
  insert_inode, delete_inode, update_inode, central_lock_inode, central_unlock_inode,
  path_lookup_to_dentry,
}
use fusee_fs.Fs.Engine.Create.{lock_parent}

module _ (kv : KvClient) where
  abbrev unlock_both : ℕ → ℕ → Method kv Unit
  unlock_both pid tid = central_unlock_inode kv pid >> central_unlock_inode kv tid

  -- The end of `Rmdir` and of `Unlink`: take the target away and count one child less.
  unfoldable pub unlink_inode : ℕ → Inode → Bytes → ℕ → Inode → Method kv Unit
  unlink_inode pid parent name tid target = do
    or_else_do (delete_inode kv tid) (unlock_both pid tid)
    or_else_do (delete_dentry kv pid name)
        (ignore (insert_inode kv tid target) >> unlock_both pid tid)
    or_else_do
        (update_inode kv pid (record parent { children = u64 (parent.children + (2 ^ 64 - 1)) }))
        (ignore (insert_inode kv tid target)
          >> ignore (insert_dentry kv pid name tid)
          >> unlock_both pid tid)
    unlock_both pid tid

  -- Find and lock the target of a removal.
  unfoldable pub lock_target : ℕ → Bytes → Method kv (ℕ × Inode)
  lock_target pid name = do
    tid ←
        or_else_do (query (get_dentry_by_parent_id_and_name kv pid name))
          (central_unlock_inode kv pid)
    central_lock_inode kv tid
    target ← or_else_do (query (get_inode_by_id kv tid)) (unlock_both pid tid)
    pure (tid, target)

  -- `Rmdir` and `Unlink` from the point at which the parent's number is known.
  unfoldable pub remove_dir : ℕ → ℕ → Bytes → ℕ → Method kv Unit
  remove_dir uid gid name pid = do
    parent ← lock_parent kv uid gid pid
    (tid, target) ← lock_target pid name
    require (is_dir target.mode) enotdir (unlock_both pid tid)
    require (target.children == 0) enotempty (unlock_both pid tid)
    unlink_inode pid parent name tid target

  unfoldable pub remove_file : ℕ → ℕ → Bytes → ℕ → Method kv Unit
  remove_file uid gid name pid = do
    parent ← lock_parent kv uid gid pid
    (tid, target) ← lock_target pid name
    require (not (is_dir target.mode)) eisdir (unlock_both pid tid)
    unlink_inode pid parent name tid target

  unfoldable pub rmdir : Bytes → ℕ → ℕ → Method kv Unit
  unfolding remove_dir
  rmdir path uid gid =
      let (parent_path, name) = separate_last_component (format_path path) in
      query (path_lookup_to_dentry kv parent_path uid gid) >>= remove_dir uid gid name

  unfoldable pub unlink : Bytes → ℕ → ℕ → Method kv Unit
  unfolding remove_file
  unlink path uid gid =
      let (parent_path, name) = separate_last_component (format_path path) in
      query (path_lookup_to_dentry kv parent_path uid gid) >>= remove_file uid gid name

  unfoldable pub stat : Bytes → ℕ → ℕ → Engine kv.Store → Outcome Inode
  stat path uid gid e = elim (path_lookup_to_dentry kv path uid gid e) [
    | err c ↦ err c
    | ok id ↦ get_inode_by_id kv id e
  ]
