-- ===== src/Fs/Engine/Invariant.antt =====
-- The methods keep the store as the engine writes it.
use fusee_fs.Prelude.{
  ℕ, ◌+◌, ◌*◌, ◌^◌, ◌<◌, sym, ap, ◌∙◌, some-none, inl, inr, Bool-cases, Bytes, bytes_eq,
  bytes_eq_iff, arith, bit_or,
}
use fusee_fs.Prelude.Word.{u64, IsU32, IsU64}
use fusee_fs.Prelude.Bits.{or_fields}
use fusee_fs.Fs.Path.{separate_last_component, format_path}
use fusee_fs.Fs.Inode.{Inode}
use fusee_fs.Fs.Inode.Layout.{IsInode}
use fusee_fs.Fs.Key.{dentry_key, inode_key}
use fusee_fs.Fs.Key.Distinct.{inode_key-ne-dentry_key}
use fusee_fs.Fs.KvClient.{KvClient, KvLaws, NeverRedo}
use fusee_fs.Fs.Outcome.{Outcome, ok, err}
use fusee_fs.Fs.Engine.{Engine}
use fusee_fs.Fs.Engine.View.{view, SameView}
use fusee_fs.Fs.Engine.Stored.{IsStored, stored_inode}
use fusee_fs.Fs.Engine.Create.Linked.{Linked}
use fusee_fs.Fs.Engine.Remove.{rmdir, unlink}
use fusee_fs.Fs.Engine.Remove.Unlinked.{Unlinked, Restored, one_less}
use fusee_fs.Fs.Engine.Remove.Gone.{GoneAt, IsEmptyDir, IsNotDir, rmdir-GoneAt, unlink-GoneAt}

pub typed_mode : (t mode : ℕ) → t < 16 → mode < 2 ^ 12 → bit_or (t * 2 ^ 12) mode < 2 ^ 32
typed_mode t mode h k = omega (arith, or_fields 12 t mode k)

-- What a caller passes fits the fields of an inode.
pub record AreArguments (now uid gid mode : ℕ) : Type 0 where
  pub time_fits : IsU64 now
  pub uid_fits : IsU32 uid
  pub gid_fits : IsU32 gid
  pub permission_bits : mode < 2 ^ 12

module _ (kv : KvClient) (e e' : Engine kv.Store) (stored : IsStored kv e) where
  pub SameView-IsStored : SameView kv e e' → IsStored kv e'
  SameView-IsStored same = record {
    inodes = λ id v h. stored.inodes id v (ground (arith, same (inode_key id)));
    entries =
        λ pid name v h. stored.entries pid name v (ground (arith, same (dentry_key pid name)));
  }

  pub Linked-IsStored :
      (pid : ℕ) (parent : Inode) (name : Bytes) (inode : Inode)
      → IsInode parent
      → IsInode inode
      → Linked kv pid parent name inode e e'
      → IsStored kv e'
  Linked-IsStored pid parent name inode p n linked = record {
    inodes = λ id v h.
        let here = linked (inode_key id) in
        let apart = inode_key-ne-dentry_key id pid name in
        elim (Bool-cases (bytes_eq (inode_key pid) (inode_key id))) [
          | inl q ↦ (_, one_more, ground arith)
          | inr q ↦ elim (Bool-cases (bytes_eq (inode_key inode.id) (inode_key id))) [
            | inl r ↦ (inode, n, ground (arith, bytes_eq_iff (dentry_key pid name) (inode_key id)))
            | inr r ↦
                stored.inodes id v
                  (ground (arith, bytes_eq_iff (dentry_key pid name) (inode_key id)))
          ]
        ];
    entries = λ q m v h.
        let here = linked (dentry_key q m) in
        let apart = inode_key-ne-dentry_key pid q m in
        let apart₂ = inode_key-ne-dentry_key inode.id q m in
        elim (Bool-cases (bytes_eq (dentry_key pid name) (dentry_key q m))) [
          | inl r ↦ (inode.id, n.id, ground (arith, bytes_eq_iff (inode_key pid) (dentry_key q m)))
          | inr r ↦ stored.entries q m v (
              ground (
                arith,
                bytes_eq_iff (inode_key pid) (dentry_key q m),
                bytes_eq_iff (inode_key inode.id) (dentry_key q m),
              ))
        ];
  }
    where
      one_more : IsInode (record parent { children = u64 (parent.children + 1) })
      one_more = omega arith

  pub Unlinked-IsStored :
      (pid : ℕ) (parent : Inode) (name : Bytes) (tid : ℕ)
      → IsInode parent
      → Unlinked kv pid parent name tid e e'
      → IsStored kv e'
  Unlinked-IsStored pid parent name tid p gone = record {
    inodes = λ id v h.
        let here = gone (inode_key id) in
        elim (Bool-cases (bytes_eq (inode_key pid) (inode_key id))) [
          | inl q ↦ (_, fewer, ground arith)
          | inr q ↦ stored.inodes id v (ground arith)
        ];
    entries = λ q m v h.
        let here = gone (dentry_key q m) in
        let apart = inode_key-ne-dentry_key pid q m in
        stored.entries q m v (ground (arith, bytes_eq_iff (inode_key pid) (dentry_key q m)));
  }
    where
      fewer : IsInode (one_less kv parent)
      fewer = omega arith

module _ (kv : KvClient) (e e' : Engine kv.Store) (stored : IsStored kv e) where
  -- What may be missing after a removal that failed.
  Restored-IsStored :
      (pid : ℕ) (name : Bytes) (tid : ℕ) (target : Inode)
      → Restored kv pid name tid target e e'
      → IsStored kv e'
  Restored-IsStored pid name tid target u = record {
    inodes = λ id v h.
        let apart = inode_key-ne-dentry_key id pid name in
        elim (Bool-cases (bytes_eq (inode_key tid) (inode_key id))) [
          | inl q ↦
              let one = (bytes_eq_iff (inode_key tid) (inode_key id)).0 q in
              elim u.inode_back [
                | inl back ↦
                    stored.inodes id v
                      (sym (ap (view kv e) one) ∙ sym back ∙ ap (view kv e') one ∙ h)
                | inr (left, refused) ↦
                    absurd (some-none (sym h ∙ sym (ap (view kv e') one) ∙ left))
              ]
          | inr q ↦ stored.inodes id v (
              sym (
                u.others (inode_key id) q
                  (ground (arith, bytes_eq_iff (dentry_key pid name) (inode_key id), apart)))
              ∙ h)
        ];
    entries = λ q m v h.
        let apart = inode_key-ne-dentry_key tid q m in
        elim (Bool-cases (bytes_eq (dentry_key pid name) (dentry_key q m))) [
          | inl r ↦
              let one = (bytes_eq_iff (dentry_key pid name) (dentry_key q m)).0 r in
              elim u.entry_back [
                | inl back ↦
                    stored.entries q m v
                      (sym (ap (view kv e) one) ∙ sym back ∙ ap (view kv e') one ∙ h)
                | inr (left, refused) ↦
                    absurd (some-none (sym h ∙ sym (ap (view kv e') one) ∙ left))
              ]
          | inr r ↦ stored.entries q m v (
              sym (
                u.others (dentry_key q m)
                  (ground (arith, bytes_eq_iff (inode_key tid) (dentry_key q m), apart)) r)
              ∙ h)
        ];
  }

module _ (kv : KvClient) (e : Engine kv.Store) (stored : IsStored kv e) where
  GoneAt-IsStored :
      (Fit : Inode → Type 0) (path : Bytes) (uid gid : ℕ) (x : Outcome Unit × Engine kv.Store)
      → GoneAt kv Fit path uid gid e x
      → IsStored kv x.1
  GoneAt-IsStored Fit path uid gid (ok _, e') (pid, found, (parent, tid, target, p, t, fit, gone)) =
      Unlinked-IsStored kv e e' stored pid parent (separate_last_component (format_path path)).1 tid
        (stored_inode kv e stored pid parent p.found).1 gone
  GoneAt-IsStored Fit path uid gid (err c, e') (inl same) = SameView-IsStored kv e e' stored same
  GoneAt-IsStored Fit path uid gid (err c, e') (inr (pid, found, tid, target, t, u)) =
      Restored-IsStored kv e e' stored pid _ tid target u

  module _ (laws : KvLaws kv) (alone : NeverRedo kv) (path : Bytes) (uid gid : ℕ) where
    -- `Rmdir` keeps the store as the engine writes it, whatever it returns.
    pub rmdir-IsStored : IsStored kv (rmdir kv path uid gid e).1
    rmdir-IsStored =
        GoneAt-IsStored IsEmptyDir path uid gid _ (rmdir-GoneAt kv laws alone e stored path uid gid)

    -- `Unlink` keeps the store as the engine writes it, whatever it returns.
    pub unlink-IsStored : IsStored kv (unlink kv path uid gid e).1
    unlink-IsStored =
        GoneAt-IsStored IsNotDir path uid gid _ (unlink-GoneAt kv laws alone e stored path uid gid)
