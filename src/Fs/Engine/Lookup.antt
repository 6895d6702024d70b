-- ===== src/Fs/Engine/Lookup.antt =====
-- `PathLookupToDentry` against the relation that it decides.
use fusee_fs.Prelude.{ℕ, ◌≡◌, ap, ◌↔◌, inl, inr, Bool-cases, true, List, [], ◌∷◌, Bytes, arith}
use fusee_fs.Fs.Path.{split_path}
use fusee_fs.Fs.Path.Format.{split_path-format_path}
use fusee_fs.Fs.Inode.{Inode, root_inode_id, is_dir, check_read_permission}
use fusee_fs.Fs.KvClient.{KvClient}
use fusee_fs.Fs.Outcome.{ok}
use fusee_fs.Fs.Engine.{
  Engine, get_inode_by_id, get_dentry_by_parent_id_and_name, walk, lookup_components,
  path_lookup_to_dentry,
}
use fusee_fs.Fs.Engine.Create.Parent.{Outcome-cases}

module _ (kv : KvClient) (e : Engine kv.Store) (uid gid : ℕ) where
  -- Below a directory a list of names leads to an inode number: each name but the last to a directory
  -- that the caller may read.
  pub data Resolves : ℕ → List Bytes → ℕ → Type 0 where
    last :
        {parent id : ℕ} {name : Bytes}
        → get_dentry_by_parent_id_and_name kv parent name e ≡ ok id
        → Resolves parent (name ∷ []) id
    step :
        {parent mid id : ℕ} {inode : Inode} {name next : Bytes} {rest : List Bytes}
        → get_dentry_by_parent_id_and_name kv parent name e ≡ ok mid
        → get_inode_by_id kv mid e ≡ ok inode
        → check_read_permission inode uid gid ≡ true
        → is_dir inode.mode ≡ true
        → Resolves mid (next ∷ rest) id
        → Resolves parent (name ∷ next ∷ rest) id

  walk_complete :
      {parent id : ℕ} {names : List Bytes}
      → Resolves parent names id
      → walk kv uid gid parent names e ≡ ok id
  unfolding walk
  walk_complete (last q) = q
  walk_complete (step q i r d rest) = ground (arith, walk_complete rest)

  walk_sound :
      (parent id : ℕ) (name : Bytes) (rest : List Bytes)
      → walk kv uid gid parent (name ∷ rest) e ≡ ok id
      → Resolves parent (name ∷ rest) id
  unfolding walk
  walk_sound parent id name [] h = last h
  walk_sound parent id name (next ∷ rest) h =
      elim (Outcome-cases (get_dentry_by_parent_id_and_name kv parent name e)) [
        | inr (c, q) ↦ absurd (ground arith)
        | inl (mid, q) ↦ elim (Outcome-cases (get_inode_by_id kv mid e)) [
          | inr (c, i) ↦ absurd (ground arith)
          | inl (inode, i) ↦ elim (Bool-cases (check_read_permission inode uid gid)) [
            | inr r ↦ absurd (ground arith)
            | inl r ↦ elim (Bool-cases (is_dir inode.mode)) [
              | inr d ↦ absurd (ground arith)
              | inl d ↦ step q i r d (walk_sound mid id next rest (ground arith))
            ]
          ]
        ]
      ]

  -- What a list of components leads to from the root, which must be readable unless it is the target.
  abbrev pub LeadsTo : List Bytes → ℕ → Type 0
  LeadsTo [] id = root_inode_id ≡ id
  LeadsTo (name ∷ rest) id =
      (root : Inode) × (get_inode_by_id kv root_inode_id e ≡ ok root)
      × (check_read_permission root uid gid ≡ true)
      × Resolves root_inode_id (name ∷ rest) id

  ok_inj : {a b : ℕ} → ok a ≡ ok b → a ≡ b
  ok_inj p = cc

  lookup_components_iff :
      (names : List Bytes) (id : ℕ)
      → (lookup_components kv uid gid names e ≡ ok id) ↔ LeadsTo names id
  unfolding lookup_components
  lookup_components_iff [] id = (ok_inj, λ p. ap (λ (n : ℕ). ok n) p)
  lookup_components_iff (name ∷ rest) id = (sound, complete)
    where
      sound : lookup_components kv uid gid (name ∷ rest) e ≡ ok id → LeadsTo (name ∷ rest) id
      sound h = elim (Outcome-cases (get_inode_by_id kv root_inode_id e)) [
        | inr (c, q) ↦ absurd (ground arith)
        | inl (root, q) ↦ elim (Bool-cases (check_read_permission root uid gid)) [
          | inr r ↦ absurd (ground arith)
          | inl r ↦ (root, q, r, walk_sound root_inode_id id name rest (ground arith))
        ]
      ]

      complete : LeadsTo (name ∷ rest) id → lookup_components kv uid gid (name ∷ rest) e ≡ ok id
      complete (root, q, r, below) = ground (arith, walk_complete below)

  -- A path is looked up successfully exactly where its components lead to an inode number: through
  -- directories that the caller may read, with the number that the last entry holds.
  pub path_lookup_to_dentry_iff :
      (path : Bytes) (id : ℕ)
      → (path_lookup_to_dentry kv path uid gid e ≡ ok id) ↔ LeadsTo (split_path path) id
  unfolding path_lookup_to_dentry
  path_lookup_to_dentry_iff path id =
      rw (split_path-format_path path) (lookup_components_iff (split_path path) id)
