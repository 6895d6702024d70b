-- ===== src/Fs/Engine.antt =====
-- fs/engine/engine.cc: `class Engine`, over the key-value client of its thread. Locks are taken and
-- released where the source does; the bodies of both lock methods are commented out there, so the
-- two actions change nothing. `time(nullptr)` is the argument `now`.
pub mod Create
pub mod Remove
pub mod View
pub mod Stored
pub mod Lookup
pub mod Numbers
pub mod Invariant
pub mod Roundtrip
pub mod Scenario
use fusee_fs.Prelude.{
  ℕ, zero, suc, ◌+◌, ◌-◌, ◌*◌, ◌%◌, ◌^◌, Bool, true, false, not, Option, none, some, List, [], ◌∷◌,
  Bytes, bit_or, ltb, ◌==◌, if◌then◌else◌,
}
use fusee_fs.Prelude.Word.{u64}
use fusee_fs.Fs.Path.{split_path, separate_last_component, format_path}
use fusee_fs.Fs.Inode.{
  Inode, inode_id_group_size, root_inode_id, s_ifdir, s_ifreg, is_dir, check_read_permission,
  check_write_permission, le_bytes, read_le, encode_inode, decode_inode,
}
use fusee_fs.Fs.Key.{dentry_key, inode_key}
use fusee_fs.Fs.KvClient.{KvClient, RetCode, success, fail_return, fail_redo}
use fusee_fs.Fs.Outcome.{
  Errno, enoent, eacces, enotdir, eexist, enotempty, eisdir, eio, Outcome, ok, err, Action, pure,
  raise, query, ◌>>=◌, ◌>>◌, ignore, or_else_do, require,
}

-- The fields that the methods change: the store behind the client, and the two atomics from which
-- inode numbers are drawn.
pub record Engine (Store : Type 0) : Type 0 where
  pub store : Store
  pub inode_id_group : ℕ
  pub inode_id_seq_in_group : ℕ

-- `GetNewInodeId`, of one thread. `others` is what the other threads of the engine do to the two
-- counters between the first draw and the lock; `group` is the answer of the central server.
unfoldable pub get_new_inode_id : {S : Type 0} → (Engine S → Engine S) → ℕ → Engine S → ℕ × Engine S
get_new_inode_id others group e =
    let drawn = e.inode_id_seq_in_group in
    let e₁ = record e { inode_id_seq_in_group = u64 (drawn + 1) } in
    if ltb drawn inode_id_group_size
    then (u64 (e₁.inode_id_group * inode_id_group_size + drawn), e₁)
    else let e₂ = others e₁ in
      let again = e₂.inode_id_seq_in_group in
      if ltb again inode_id_group_size
      then (
        u64 (group * inode_id_group_size + 0),
        record e₂ { inode_id_group = group; inode_id_seq_in_group = 1 },
      )
      else (
        u64 (e₂.inode_id_group * inode_id_group_size + again),
        record e₂ { inode_id_seq_in_group = u64 (again + 1) },
      )

-- -EIO for `KV_OPS_FAIL_RETURN`, 0 for every other code.
unfoldable pub status : RetCode → Outcome Unit
status success = ok tt
status fail_return = err eio
status fail_redo = ok tt

module _ (kv : KvClient) where
  abbrev pub Method : Type 0 → Type 0
  Method A = Action (Engine kv.Store) A

  unfoldable pub get_inode_by_id : ℕ → Engine kv.Store → Outcome Inode
  get_inode_by_id id e = elim (kv.search (inode_key id) e.store) [
    | none ↦ err enoent
    | some v ↦ ok (decode_inode v)
  ]

  unfoldable pub get_dentry_by_parent_id_and_name : ℕ → Bytes → Engine kv.Store → Outcome ℕ
  get_dentry_by_parent_id_and_name pid name e = elim (kv.search (dentry_key pid name) e.store) [
    | none ↦ err enoent
    | some v ↦ ok (read_le 8 v)
  ]

  -- A mutating call of the client, and its return value.
  abbrev call : (kv.Store → RetCode × kv.Store) → Method Unit
  call f e = let (code, s) = f e.store in (status code, record e { store = s })

  unfoldable pub insert_dentry : ℕ → Bytes → ℕ → Method Unit
  unfolding status
  insert_dentry pid name id = call (kv.insert (dentry_key pid name) (le_bytes 8 id))

  unfoldable pub delete_dentry : ℕ → Bytes → Method Unit
  unfolding status
  delete_dentry pid name = call (kv.delete (dentry_key pid name))

  pub update_dentry : ℕ → Bytes → ℕ → Method Unit
  unfolding status
  update_dentry pid name id = call (kv.update (dentry_key pid name) (le_bytes 8 id))

  unfoldable pub insert_inode : ℕ → Inode → Method Unit
  unfolding status
  insert_inode id inode = call (kv.insert (inode_key id) (encode_inode inode))

  unfoldable pub delete_inode : ℕ → Method Unit
  unfolding status
  delete_inode id = call (kv.delete (inode_key id))

  unfoldable pub update_inode : ℕ → Inode → Method Unit
  unfolding status
  update_inode id inode = call (kv.update (inode_key id) (encode_inode inode))

  abbrev pub central_lock_inode : ℕ → Method Unit
  central_lock_inode id = pure tt

  abbrev pub central_unlock_inode : ℕ → Method Unit
  central_unlock_inode id = pure tt

  -- The loop of `PathLookupToDentry`, from the directory `parent`; the list is not empty there.
  unfoldable pub walk : ℕ → ℕ → ℕ → List Bytes → Engine kv.Store → Outcome ℕ
  walk uid gid parent [] e = ok parent
  walk uid gid parent (name ∷ []) e = get_dentry_by_parent_id_and_name parent name e
  walk uid gid parent (name ∷ next ∷ rest) e =
      elim (get_dentry_by_parent_id_and_name parent name e) [
        | err c ↦ err c
        | ok id ↦ elim (get_inode_by_id id e) [
          | err c ↦ err c
          | ok inode ↦ elim (check_read_permission inode uid gid) [
            | false ↦ err eacces
            | true ↦ elim (is_dir inode.mode) [
              | false ↦ err enotdir
              | true ↦ walk uid gid id (next ∷ rest) e
            ]
          ]
        ]
      ]

  unfoldable pub lookup_components : ℕ → ℕ → List Bytes → Engine kv.Store → Outcome ℕ
  unfolding walk
  lookup_components uid gid [] e = ok root_inode_id
  lookup_components uid gid (name ∷ rest) e = elim (get_inode_by_id root_inode_id e) [
    | err c ↦ err c
    | ok inode ↦
        if check_read_permission inode uid gid
        then walk uid gid root_inode_id (name ∷ rest) e
        else err eacces
  ]

  unfoldable pub path_lookup_to_dentry : Bytes → ℕ → ℕ → Engine kv.Store → Outcome ℕ
  unfolding lookup_components
  path_lookup_to_dentry path uid gid = lookup_components uid gid (split_path (format_path path))
