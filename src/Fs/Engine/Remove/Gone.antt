-- ===== src/Fs/Engine/Remove/Gone.antt =====
-- What `Rmdir` and `Unlink` return, and what is left in the store.
use fusee_fs.Prelude.{ℕ, ◌≡◌, refl, ◌⊎◌, inl, inr, Bool-cases, true, false, ◌==◌, Bytes, arith}
use fusee_fs.Fs.Path.{separate_last_component, format_path}
use fusee_fs.Fs.Inode.{Inode, is_dir}
use fusee_fs.Fs.KvClient.{KvClient, KvLaws, NeverRedo}
use fusee_fs.Fs.Outcome.{enotdir, eisdir, enotempty, Errno, Outcome, ok, err, query, ◌>>=◌}
use fusee_fs.Fs.Engine.{
  Engine, Method, get_inode_by_id, get_dentry_by_parent_id_and_name, path_lookup_to_dentry,
}
use fusee_fs.Fs.Engine.View.{SameView}
use fusee_fs.Fs.Engine.Stored.{IsStored, stored_inode, stored_entry}
use fusee_fs.Fs.Engine.Create.Parent.{IsParent, lock_parent_cases, Outcome-cases}
use fusee_fs.Fs.Engine.Remove.{unlink_inode, lock_target, remove_dir, remove_file, rmdir, unlink}
use fusee_fs.Fs.Engine.Remove.Unlinked.{Unlinked, Restored, AllOrNothing, unlink_inode-AllOrNothing}

-- What a target must be for each of the two.
abbrev pub IsEmptyDir : Inode → Type 0
IsEmptyDir target = (is_dir target.mode ≡ true) × (target.children ≡ 0)

abbrev pub IsNotDir : Inode → Type 0
IsNotDir target = is_dir target.mode ≡ false

module _ (kv : KvClient) where
  pub record IsTarget (pid : ℕ) (name : Bytes) (tid : ℕ) (target : Inode) (e : Engine kv.Store)
      : Type 0 where
    pub entry : get_dentry_by_parent_id_and_name kv pid name e ≡ ok tid
    pub inode : get_inode_by_id kv tid e ≡ ok target

  lock_target_cases :
      (pid : ℕ) (name : Bytes) (e : Engine kv.Store)
      → ((tid : ℕ) × (target : Inode) × (lock_target kv pid name e ≡ (ok (tid, target), e))
          × IsTarget pid name tid target e)
        ⊎ ((c : Errno) × (lock_target kv pid name e ≡ (err c, e)))
  unfolding lock_target
  lock_target_cases pid name e =
      elim (Outcome-cases (get_dentry_by_parent_id_and_name kv pid name e)) [
        | inr (c, q) ↦ inr (c, ground arith)
        | inl (tid, q) ↦ elim (Outcome-cases (get_inode_by_id kv tid e)) [
          | inr (c, r) ↦ inr (c, ground arith)
          | inl (target, r) ↦ inl (tid, target, ground arith, record { entry = q; inode = r })
        ]
      ]

  -- By what is returned: after a success the parent was a directory that the caller may write, the
  -- name led to a target that is fit, and the three writes are there; after an error they are
  -- undone.
  abbrev pub Gone :
      (Inode → Type 0)
      → ℕ
      → Bytes
      → ℕ
      → ℕ
      → Engine kv.Store
      → Outcome Unit × Engine kv.Store
      → Type 0
  Gone Fit pid name uid gid e (ok _, e') =
      (parent : Inode) × (tid : ℕ) × (target : Inode) × IsParent kv pid uid gid parent e
      × IsTarget pid name tid target e
      × Fit target
      × Unlinked kv pid parent name tid e e'
  Gone Fit pid name uid gid e (err c, e') =
      SameView kv e e'
      ⊎ ((tid : ℕ) × (target : Inode) × IsTarget pid name tid target e
          × Restored kv pid name tid target e e')

  Gone-after :
      (Fit : Inode → Type 0) (pid : ℕ) (name : Bytes) (uid gid : ℕ) (parent : Inode) (tid : ℕ)
      (target : Inode) (e : Engine kv.Store) (x : Outcome Unit × Engine kv.Store)
      → IsParent kv pid uid gid parent e
      → IsTarget pid name tid target e
      → Fit target
      → AllOrNothing kv pid parent name tid target e x
      → Gone Fit pid name uid gid e x
  Gone-after Fit pid name uid gid parent tid target e (ok _, e') p t f (inl (r, w)) =
      (parent, tid, target, p, t, f, w)
  Gone-after Fit pid name uid gid parent tid target e (err c, e') p t f (inl (r, w)) = cc
  Gone-after Fit pid name uid gid parent tid target e (ok _, e') p t f (inr (r, same)) = cc
  Gone-after Fit pid name uid gid parent tid target e (err c, e') p t f (inr (r, u)) =
      inr (tid, target, t, u)

  abbrev pub GoneAt :
      (Inode → Type 0) → Bytes → ℕ → ℕ → Engine kv.Store → Outcome Unit × Engine kv.Store → Type 0
  GoneAt Fit path uid gid e (ok _, e') =
      (pid : ℕ) × (path_lookup_to_dentry kv (separate_last_component (format_path path)).0 uid gid e
        ≡ ok pid)
      × Gone Fit pid (separate_last_component (format_path path)).1 uid gid e (ok tt, e')
  GoneAt Fit path uid gid e (err c, e') =
      SameView kv e e'
      ⊎ ((pid : ℕ) × (path_lookup_to_dentry kv (separate_last_component (format_path path)).0 uid
              gid e
            ≡ ok pid)
          × (tid : ℕ) × (target : Inode) × IsTarget pid
              (separate_last_component (format_path path)).1 tid target e
          × Restored kv pid (separate_last_component (format_path path)).1 tid target e e')

  GoneAt-found :
      (Fit : Inode → Type 0) (path : Bytes) (uid gid pid : ℕ) (e : Engine kv.Store)
      (x : Outcome Unit × Engine kv.Store)
      → path_lookup_to_dentry kv (separate_last_component (format_path path)).0 uid gid e ≡ ok pid
      → Gone Fit pid (separate_last_component (format_path path)).1 uid gid e x
      → GoneAt Fit path uid gid e x
  GoneAt-found Fit path uid gid pid e (ok _, e') found m = (pid, found, m)
  GoneAt-found Fit path uid gid pid e (err c, e') found (inl same) = inl same
  GoneAt-found Fit path uid gid pid e (err c, e') found (inr (tid, target, t, u)) =
      inr (pid, found, tid, target, t, u)

  remove_at_path :
      (Fit : Inode → Type 0) (path : Bytes) (uid gid : ℕ) (e : Engine kv.Store)
      (remove : ℕ → Method kv Unit)
      → ((pid : ℕ)
          → Gone Fit pid (separate_last_component (format_path path)).1 uid gid e (remove pid e))
      → GoneAt Fit path uid gid e (
          (query (path_lookup_to_dentry kv (separate_last_component (format_path path)).0 uid gid)
              >>= remove)
            e)
  remove_at_path Fit path uid gid e remove gone =
      let parent_path = (separate_last_component (format_path path)).0 in
      let run = (query (path_lookup_to_dentry kv parent_path uid gid) >>= remove) e in
      elim (Outcome-cases (path_lookup_to_dentry kv parent_path uid gid e)) [
        | inr (c, q) ↦ let stop : run ≡ (err c, e) = ground arith in rw stop (inl (λ j. refl))
        | inl (pid, q) ↦
            let go : run ≡ remove pid e = ground arith in
            rw go (GoneAt-found Fit path uid gid pid e (remove pid e) q (gone pid))
      ]

  module _ (laws : KvLaws kv) (alone : NeverRedo kv) where
    module _ (e : Engine kv.Store) (stored : IsStored kv e) where
      unlink_target :
          (Fit : Inode → Type 0) (pid : ℕ) (name : Bytes) (uid gid : ℕ) (parent : Inode) (tid : ℕ)
          (target : Inode)
          → IsParent kv pid uid gid parent e
          → IsTarget pid name tid target e
          → Fit target
          → Gone Fit pid name uid gid e (unlink_inode kv pid parent name tid target e)
      unlink_target Fit pid name uid gid parent tid target p t f =
          Gone-after Fit pid name uid gid parent tid target e _ p t f (
            unlink_inode-AllOrNothing kv laws alone pid parent name tid target e
              (stored_inode kv e stored tid target t.inode).0
              (stored_entry kv e stored pid name tid t.entry).0)

      remove_dir-Gone :
          (uid gid : ℕ) (name : Bytes) (pid : ℕ)
          → Gone IsEmptyDir pid name uid gid e (remove_dir kv uid gid name pid e)
      unfolding remove_dir
      remove_dir-Gone uid gid name pid =
          let run = remove_dir kv uid gid name pid e in
          elim (lock_parent_cases kv uid gid pid e) [
            | inr (c, q) ↦ let stop : run ≡ (err c, e) = ground arith in rw stop (inl (λ j. refl))
            | inl (parent, q, p) ↦ elim (lock_target_cases pid name e) [
              | inr (c, r) ↦ let stop : run ≡ (err c, e) = ground arith in rw stop (inl (λ j. refl))
              | inl (tid, target, r, t) ↦ elim (Bool-cases (is_dir target.mode)) [
                | inr d ↦
                    let stop : run ≡ (err enotdir, e) = ground arith in rw stop (inl (λ j. refl))
                | inl d ↦ elim (Bool-cases (target.children == 0)) [
                  | inr n ↦
                      let stop : run ≡ (err enotempty, e) = ground arith in
                      rw stop (inl (λ j. refl))
                  | inl n ↦
                      let go : run ≡ unlink_inode kv pid parent name tid target e = ground arith in
                      rw go (
                        unlink_target IsEmptyDir pid name uid gid parent tid target p t
                          (d, ground arith))
                ]
              ]
            ]
          ]

      remove_file-Gone :
          (uid gid : ℕ) (name : Bytes) (pid : ℕ)
          → Gone IsNotDir pid name uid gid e (remove_file kv uid gid name pid e)
      unfolding remove_file
      remove_file-Gone uid gid name pid =
          let run = remove_file kv uid gid name pid e in
          elim (lock_parent_cases kv uid gid pid e) [
            | inr (c, q) ↦ let stop : run ≡ (err c, e) = ground arith in rw stop (inl (λ j. refl))
            | inl (parent, q, p) ↦ elim (lock_target_cases pid name e) [
              | inr (c, r) ↦ let stop : run ≡ (err c, e) = ground arith in rw stop (inl (λ j. refl))
              | inl (tid, target, r, t) ↦ elim (Bool-cases (is_dir target.mode)) [
                | inl d ↦
                    let stop : run ≡ (err eisdir, e) = ground arith in rw stop (inl (λ j. refl))
                | inr d ↦
                    let go : run ≡ unlink_inode kv pid parent name tid target e = ground arith in
                    rw go (unlink_target IsNotDir pid name uid gid parent tid target p t d)
              ]
            ]
          ]

      pub rmdir-GoneAt :
          (path : Bytes) (uid gid : ℕ) → GoneAt IsEmptyDir path uid gid e (rmdir kv path uid gid e)
      unfolding rmdir
      rmdir-GoneAt path uid gid =
          remove_at_path IsEmptyDir path uid gid e
            (remove_dir kv uid gid (separate_last_component (format_path path)).1)
            (remove_dir-Gone uid gid (separate_last_component (format_path path)).1)

      pub unlink-GoneAt :
          (path : Bytes) (uid gid : ℕ) → GoneAt IsNotDir path uid gid e (unlink kv path uid gid e)
      unfolding unlink
      unlink-GoneAt path uid gid =
          remove_at_path IsNotDir path uid gid e
            (remove_file kv uid gid (separate_last_component (format_path path)).1)
            (remove_file-Gone uid gid (separate_last_component (format_path path)).1)
