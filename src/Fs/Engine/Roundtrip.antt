-- ===== src/Fs/Engine/Roundtrip.antt =====
-- What a new directory looks like to `Stat`, and that `Rmdir` takes it away again.
use fusee_fs.Prelude.{
  ℕ, ◌+◌, ◌≡◌, ◌≢◌, refl, sym, ap, ◌∙◌, ◌⊎◌, inl, inr, Bool-cases, true, none, List, [], ◌∷◌, ◌++◌,
  Bytes, bytes_eq, bytes_eq_iff, bytes_eq_refl, arith,
}
use fusee_fs.Prelude.Word.{u64}
use fusee_fs.Fs.Path.{split_path}
use fusee_fs.Fs.Inode.{Inode, root_inode_id, is_dir, check_read_permission}
use fusee_fs.Fs.Inode.Layout.{IsInode, decode_inode-encode_inode, read_le-id}
use fusee_fs.Fs.Key.{dentry_key, inode_key}
use fusee_fs.Fs.Key.Distinct.{inode_key-ne-dentry_key}
use fusee_fs.Fs.KvClient.{KvClient}
use fusee_fs.Fs.Outcome.{ok}
use fusee_fs.Fs.Engine.{
  Engine, get_inode_by_id, get_dentry_by_parent_id_and_name, path_lookup_to_dentry,
}
use fusee_fs.Fs.Engine.View.{view}
use fusee_fs.Fs.Engine.Stored.{IsStored}
use fusee_fs.Fs.Engine.Lookup.{Resolves, last, step, LeadsTo, path_lookup_to_dentry_iff}
use fusee_fs.Fs.Engine.Create.Linked.{Linked}

abbrev pub one_more : Inode → Inode
one_more parent = record parent { children = u64 (parent.children + 1) }

-- The facts about one new entry, in the states before and after.
module _ (kv : KvClient) (e e' : Engine kv.Store) (stored : IsStored kv e) (pid : ℕ)
    (parent : Inode) (name : Bytes) (inode : Inode) (p : IsInode parent) (n : IsInode inode)
    (held : get_inode_by_id kv pid e ≡ ok parent) (fresh : view kv e (inode_key inode.id) ≡ none)
    (absent : view kv e (dentry_key pid name) ≡ none)
    (linked : Linked kv pid parent name inode e e') where
  fits : IsInode (one_more parent)
  fits = omega arith

  pub parent_after : get_inode_by_id kv pid e' ≡ ok (one_more parent)
  unfolding get_inode_by_id
  parent_after = ground (
    arith,
    linked (inode_key pid),
    bytes_eq_refl (inode_key pid),
    decode_inode-encode_inode (one_more parent) fits,
  )

  -- The parent's number is not the new one.
  parent_key_ne : inode_key pid ≢ inode_key inode.id
  unfolding get_inode_by_id
  parent_key_ne q = ground (arith, ap (view kv e) q)

  pub inode_after : get_inode_by_id kv inode.id e' ≡ ok inode
  unfolding get_inode_by_id
  inode_after = ground (
    arith,
    linked (inode_key inode.id),
    bytes_eq_refl (inode_key inode.id),
    bytes_eq_iff (inode_key pid) (inode_key inode.id),
    parent_key_ne,
    bytes_eq_iff (dentry_key pid name) (inode_key inode.id),
    inode_key-ne-dentry_key inode.id pid name,
    decode_inode-encode_inode inode n,
  )

  pub entry_after : get_dentry_by_parent_id_and_name kv pid name e' ≡ ok inode.id
  unfolding get_dentry_by_parent_id_and_name
  entry_after = ground (
    arith,
    linked (dentry_key pid name),
    bytes_eq_refl (dentry_key pid name),
    bytes_eq_iff (inode_key pid) (dentry_key pid name),
    inode_key-ne-dentry_key pid pid name,
    read_le-id inode.id n.id,
  )

  -- An entry that was there leads where it led.
  entry_kept :
      (q id : ℕ) (m : Bytes)
      → get_dentry_by_parent_id_and_name kv q m e ≡ ok id
      → get_dentry_by_parent_id_and_name kv q m e' ≡ ok id
  unfolding get_dentry_by_parent_id_and_name
  entry_kept q id m h = ground (
    arith,
    linked (dentry_key q m),
    bytes_eq_iff (inode_key pid) (dentry_key q m),
    inode_key-ne-dentry_key pid q m,
    bytes_eq_iff (inode_key inode.id) (dentry_key q m),
    inode_key-ne-dentry_key inode.id q m,
    bytes_eq_iff (dentry_key pid name) (dentry_key q m),
  )

  -- An inode that was there is there, but for the parent's count.
  inode_kept :
      (id : ℕ) (i : Inode)
      → get_inode_by_id kv id e ≡ ok i
      → (get_inode_by_id kv id e' ≡ ok i)
        ⊎ ((get_inode_by_id kv id e' ≡ ok (one_more parent)) × (i ≡ parent))
  inode_kept id i h = elim (Bool-cases (bytes_eq (inode_key pid) (inode_key id))) [
    | inl q ↦
        let same = (bytes_eq_iff (inode_key pid) (inode_key id)).0 q in
        inr (
          unfold get_inode_by_id in ground (arith, parent_after),
          unfold get_inode_by_id in ground arith,
        )
    | inr q ↦ inl (
        unfold get_inode_by_id in
        ground (
          arith,
          linked (inode_key id),
          bytes_eq_iff (dentry_key pid name) (inode_key id),
          inode_key-ne-dentry_key id pid name,
          bytes_eq_iff (inode_key inode.id) (inode_key id),
        ))
  ]

  module _ (uid gid : ℕ) where
    -- The tests on an inode do not read its count.
    tests_kept :
        (id : ℕ) (i : Inode)
        → get_inode_by_id kv id e ≡ ok i
        → (i' : Inode) × (get_inode_by_id kv id e' ≡ ok i')
          × (check_read_permission i' uid gid ≡ check_read_permission i uid gid)
          × (i'.mode ≡ i.mode)
    unfolding check_read_permission
    tests_kept id i h = elim (inode_kept id i h) [
      | inl q ↦ (i, q, refl, refl)
      | inr (q, same) ↦ (one_more parent, q, rw same refl, ap (λ (k : Inode). k.mode) (sym same))
    ]

    Resolves-kept :
        {q id : ℕ} {names : List Bytes}
        → Resolves kv e uid gid q names id
        → Resolves kv e' uid gid q names id
    Resolves-kept (last {parent = q} {id = id} {name = m} h) = last (entry_kept q id m h)
    Resolves-kept (step {parent = q} {mid = mid} {inode = i} {name = m} h g r d rest) =
        let (i', g', r', d') = tests_kept mid i g in
        step (entry_kept q mid m h) g' (r' ∙ r) (ap is_dir d' ∙ d) (Resolves-kept rest)

    pub LeadsTo-kept :
        (names : List Bytes) (id : ℕ)
        → LeadsTo kv e uid gid names id
        → LeadsTo kv e' uid gid names id
    LeadsTo-kept [] id h = h
    LeadsTo-kept (m ∷ rest) id (root, g, r, below) =
        let (i', g', r', d') = tests_kept root_inode_id root g in
        (i', g', r' ∙ r, Resolves-kept below)

    -- The lookup of a path that led somewhere leads there still.
    pub lookup_kept :
        (path : Bytes) (id : ℕ)
        → path_lookup_to_dentry kv path uid gid e ≡ ok id
        → path_lookup_to_dentry kv path uid gid e' ≡ ok id
    lookup_kept path id h =
        (path_lookup_to_dentry_iff kv e' uid gid path id).1
          (LeadsTo-kept (split_path path) id ((path_lookup_to_dentry_iff kv e uid gid path id).0 h))

    module _ (readable : check_read_permission parent uid gid ≡ true)
        (directory : is_dir parent.mode ≡ true) where
      parent_readable : check_read_permission (one_more parent) uid gid ≡ true
      unfolding check_read_permission
      parent_readable = readable

      Resolves-snoc :
          {q : ℕ} {names : List Bytes}
          → Resolves kv e' uid gid q names pid
          → Resolves kv e' uid gid q (names ++ name ∷ []) inode.id
      Resolves-snoc (last h) = step h parent_after parent_readable directory (last entry_after)
      Resolves-snoc (step h g r d rest) = step h g r d (Resolves-snoc rest)

      pub LeadsTo-snoc :
          (names : List Bytes)
          → LeadsTo kv e' uid gid names pid
          → LeadsTo kv e' uid gid (names ++ name ∷ []) inode.id
      LeadsTo-snoc [] h = rw h (one_more parent, parent_after, parent_readable, last entry_after)
      LeadsTo-snoc (m ∷ rest) (root, g, r, below) = (root, g, r, Resolves-snoc below)
