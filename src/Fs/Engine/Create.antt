-- ===== src/Fs/Engine/Create.antt =====
-- fs/engine/engine.cc: `Mkdir` and `Creat`.
pub mod Linked
pub mod Parent
pub mod Made
use fusee_fs.Prelude.{ℕ, ◌+◌, Bool, true, false, [], ◌∷◌, Bytes, bit_or}
use fusee_fs.Prelude.Word.{u64}
use fusee_fs.Fs.Path.{separate_last_component, format_path}
use fusee_fs.Fs.Inode.{Inode, s_ifdir, s_ifreg, is_dir, check_write_permission}
use fusee_fs.Fs.KvClient.{KvClient}
use fusee_fs.Fs.Outcome.{
  enotdir, eacces, eexist, ok, err, pure, raise, query, ◌>>=◌, ◌>>◌, ignore, or_else_do, require,
}
use fusee_fs.Fs.Engine.{
  Engine, Method, get_new_inode_id, get_inode_by_id, get_dentry_by_parent_id_and_name,
  insert_dentry, delete_dentry, insert_inode, delete_inode, update_inode, central_lock_inode,
  central_unlock_inode, path_lookup_to_dentry,
}

module _ (kv : KvClient) where
  -- What every method that changes a directory does first: lock the parent, read it, and test it.
  unfoldable pub lock_parent : ℕ → ℕ → ℕ → Method kv Inode
  lock_parent uid gid pid = do
    central_lock_inode kv pid
    parent ← or_else_do (query (get_inode_by_id kv pid)) (central_unlock_inode kv pid)
    require (is_dir parent.mode) enotdir (central_unlock_inode kv pid)
    require (check_write_permission parent uid gid) eacces (central_unlock_inode kv pid)
    pure parent

  -- `if (GetDentryByParentIdAndName(...) == 0) { unlock; return -EEXIST; }`
  unfoldable pub check_absent : ℕ → Bytes → Method kv Unit
  check_absent pid name e = elim (get_dentry_by_parent_id_and_name kv pid name e) [
    | ok id ↦ (err eexist, e)
    | err c ↦ (ok tt, e)
  ]

  unfoldable pub draw_inode_id : Method kv ℕ
  draw_inode_id e = let (id, e') = get_new_inode_id (λ s. s) 0 e in (ok id, e')

  -- The end of `Mkdir` and of `Creat`, which is the same in both.
  unfoldable pub link_new_inode : ℕ → Inode → Bytes → Inode → Method kv Unit
  link_new_inode pid parent name inode = do
    or_else_do (insert_inode kv inode.id inode) (central_unlock_inode kv pid)
    or_else_do (insert_dentry kv pid name inode.id)
        (ignore (delete_inode kv inode.id) >> central_unlock_inode kv pid)
    or_else_do (update_inode kv pid (record parent { children = u64 (parent.children + 1) })) (
        ignore (delete_inode kv inode.id)
        >> ignore (delete_dentry kv pid name)
        >> central_unlock_inode kv pid)
    central_unlock_inode kv pid

  -- `new_inode`, with the number that was drawn.
  abbrev pub new_inode : ℕ → ℕ → ℕ → ℕ → ℕ → ℕ → Inode
  new_inode now children mode uid gid id = record {
    id = id;
    size = 0;
    atime = now;
    mtime = now;
    ctime = now;
    children = children;
    mode = mode;
    uid = uid;
    gid = gid;
  }

  -- `Mkdir` and `Creat` from the point at which the parent's number is known.
  unfoldable pub make_node : ℕ → ℕ → ℕ → ℕ → ℕ → Bytes → ℕ → Method kv Unit
  unfolding draw_inode_id
  make_node now children mode uid gid name pid = do
    parent ← lock_parent uid gid pid
    check_absent pid name
    id ← draw_inode_id
    link_new_inode pid parent name (new_inode now children mode uid gid id)

  unfoldable pub mkdir : ℕ → Bytes → ℕ → ℕ → ℕ → Method kv Unit
  unfolding make_node
  mkdir now path uid gid mode =
      let (parent_path, name) = separate_last_component (format_path path) in
      query (path_lookup_to_dentry kv parent_path uid gid)
      >>= make_node now 0 (bit_or s_ifdir mode) uid gid name

  -- `Creat` leaves `new_inode.children` as it is on the stack: `garbage`.
  unfoldable pub creat : ℕ → ℕ → Bytes → ℕ → ℕ → ℕ → Method kv Unit
  unfolding make_node
  creat now garbage path uid gid mode =
      let (parent_path, name) = separate_last_component (format_path path) in
      query (path_lookup_to_dentry kv parent_path uid gid)
      >>= make_node now garbage (bit_or s_ifreg mode) uid gid name
