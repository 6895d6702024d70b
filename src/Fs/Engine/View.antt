-- ===== src/Fs/Engine/View.antt =====
-- What the calls of the client do to what the engine can read, when it is alone on the store.
use fusee_fs.Prelude.{
  ℕ, ◌≡◌, ◌≢◌, refl, arith, ◌∙◌, ◌⊎◌, inl, inr, Option, false, if_true, if_false, bytes_eq_refl,
  none, some, Bytes, bytes_eq, if◌then◌else◌,
}
use fusee_fs.Fs.Inode.{Inode, le_bytes, encode_inode}
use fusee_fs.Fs.Key.{dentry_key, inode_key}
use fusee_fs.Fs.KvClient.{KvClient, KvLaws, NeverRedo, RetCode, success, fail_return, fail_redo}
use fusee_fs.Fs.Outcome.{eio, Outcome, ok, err}
use fusee_fs.Fs.Engine.{
  Engine, insert_dentry, delete_dentry, update_dentry, insert_inode, delete_inode, update_inode,
}

module _ (kv : KvClient) where
  abbrev pub view : Engine kv.Store → Bytes → Option Bytes
  view e k = kv.search k e.store

  -- The engine reads `v` at `k`, and elsewhere what it read before.
  abbrev pub Puts : Bytes → Option Bytes → Engine kv.Store → Engine kv.Store → Type 0
  Puts k v e e' = (j : Bytes) → view e' j ≡ (if bytes_eq k j then v else view e j)

  abbrev pub SameView : Engine kv.Store → Engine kv.Store → Type 0
  SameView e e' = (j : Bytes) → view e' j ≡ view e j

  -- A call that either works, and puts `v` at `k`, or fails with -EIO and changes nothing.
  abbrev pub Tries :
      Bytes → Option Bytes → Engine kv.Store → Outcome Unit × Engine kv.Store → Type 0
  Tries k v e (r, e') = ((r ≡ ok tt) × Puts k v e e') ⊎ ((r ≡ err eio) × SameView e e')

  RetCode-cases :
      (c : RetCode) → c ≢ fail_redo → (c ≡ success) ⊎ ((c ≡ fail_return) × (c ≢ success))
  RetCode-cases success h = inl refl
  RetCode-cases fail_return h = inr (refl, λ p. cc)
  RetCode-cases fail_redo h = absurd (h refl)

  module _ (laws : KvLaws kv) (alone : NeverRedo kv) (e : Engine kv.Store) where
    pub insert_inode-Tries :
        (id : ℕ) (i : Inode)
        → view e (inode_key id) ≡ none
        → Tries (inode_key id) (some (encode_inode i)) e (insert_inode kv id i e)
    unfolding insert_inode
    insert_inode-Tries id i absent =
        let k = inode_key id in
        let v = encode_inode i in
        elim (RetCode-cases (kv.insert k v e.store).0 (alone.insert k v e.store)) [
          | inl p ↦ inl (rw p, laws.insert_lands k v e.store p absent)
          | inr (p, q) ↦ inr (rw p, laws.insert_fails k v e.store q)
        ]

    pub insert_dentry-Tries :
        (pid : ℕ) (name : Bytes) (id : ℕ)
        → view e (dentry_key pid name) ≡ none
        → Tries (dentry_key pid name) (some (le_bytes 8 id)) e (insert_dentry kv pid name id e)
    unfolding insert_dentry
    insert_dentry-Tries pid name id absent =
        elim (RetCode-cases (kv.insert (dentry_key pid name) (le_bytes 8 id) e.store).0
          (alone.insert (dentry_key pid name) (le_bytes 8 id) e.store)) [
            | inl p ↦
                inl (rw p, laws.insert_lands (dentry_key pid name) (le_bytes 8 id) e.store p absent)
            | inr (p, q) ↦
                inr (rw p, laws.insert_fails (dentry_key pid name) (le_bytes 8 id) e.store q)
          ]

    pub update_dentry-Tries :
        (pid : ℕ) (name : Bytes) (id : ℕ)
        → Tries (dentry_key pid name) (some (le_bytes 8 id)) e (update_dentry kv pid name id e)
    unfolding update_dentry
    update_dentry-Tries pid name id =
        elim (RetCode-cases (kv.update (dentry_key pid name) (le_bytes 8 id) e.store).0
          (alone.update (dentry_key pid name) (le_bytes 8 id) e.store)) [
            | inl p ↦ inl (rw p, laws.update_lands (dentry_key pid name) (le_bytes 8 id) e.store p)
            | inr (p, q) ↦
                inr (rw p, laws.update_fails (dentry_key pid name) (le_bytes 8 id) e.store q)
          ]

    pub update_inode-Tries :
        (id : ℕ) (i : Inode)
        → Tries (inode_key id) (some (encode_inode i)) e (update_inode kv id i e)
    unfolding update_inode
    update_inode-Tries id i =
        elim (RetCode-cases (kv.update (inode_key id) (encode_inode i) e.store).0
          (alone.update (inode_key id) (encode_inode i) e.store)) [
            | inl p ↦ inl (rw p, laws.update_lands (inode_key id) (encode_inode i) e.store p)
            | inr (p, q) ↦ inr (rw p, laws.update_fails (inode_key id) (encode_inode i) e.store q)
          ]

    pub delete_dentry-Tries :
        (pid : ℕ) (name : Bytes)
        → Tries (dentry_key pid name) (none) e (delete_dentry kv pid name e)
    unfolding delete_dentry
    delete_dentry-Tries pid name =
        elim (RetCode-cases (kv.delete (dentry_key pid name) e.store).0
          (alone.delete (dentry_key pid name) e.store)) [
            | inl p ↦ inl (rw p, laws.delete_lands (dentry_key pid name) e.store p)
            | inr (p, q) ↦ inr (rw p, laws.delete_fails (dentry_key pid name) e.store q)
          ]

    pub delete_inode-Tries : (id : ℕ) → Tries (inode_key id) (none) e (delete_inode kv id e)
    unfolding delete_inode
    delete_inode-Tries id =
        elim (RetCode-cases (kv.delete (inode_key id) e.store).0
          (alone.delete (inode_key id) e.store)) [
            | inl p ↦ inl (rw p, laws.delete_lands (inode_key id) e.store p)
            | inr (p, q) ↦ inr (rw p, laws.delete_fails (inode_key id) e.store q)
          ]

  -- Away from its key a call changes nothing, and at its key it does what it is for, or fails.
  pub Tries-other :
      (k : Bytes) (v : Option Bytes) (e : Engine kv.Store) (x : Outcome Unit × Engine kv.Store)
      → Tries k v e x
      → (j : Bytes) → bytes_eq k j ≡ false
      → view x.1 j ≡ view e j
  Tries-other k v e (r, e') (inl (h, puts)) j other =
      puts j ∙ if_false (bytes_eq k j) v (view e j) other
  Tries-other k v e (r, e') (inr (h, same)) j other = same j

  pub Tries-own :
      (k : Bytes) (v : Option Bytes) (e : Engine kv.Store) (x : Outcome Unit × Engine kv.Store)
      → Tries k v e x
      → (view x.1 k ≡ v) ⊎ ((view x.1 k ≡ view e k) × (x.0 ≡ err eio))
  Tries-own k v e (r, e') (inl (h, puts)) =
      inl (puts k ∙ if_true (bytes_eq k k) v (view e k) (bytes_eq_refl k))
  Tries-own k v e (r, e') (inr (h, same)) = inr (same k, h)

  pub Tries-same :
      (k : Bytes) (v : Option Bytes) (e : Engine kv.Store) (x : Outcome Unit × Engine kv.Store)
      → Tries k v e x
      → x.0 ≡ err eio
      → SameView e x.1
  Tries-same k v e (r, e') (inl (h, puts)) failed = absurd (ground (arith, h, failed))
  Tries-same k v e (r, e') (inr (h, same)) failed = same

  -- A call failed, in a state that reads as `e'` does, the key `k` aside.
  abbrev pub Refused :
      Bytes → (Engine kv.Store → Outcome Unit × Engine kv.Store) → Engine kv.Store → Type 0
  Refused k call e' =
      (e : Engine kv.Store) × ((call e).0 ≡ err eio)
      × ((j : Bytes) → bytes_eq k j ≡ false → view e' j ≡ view e j)

  -- After the calls that undo: the key reads as before, or it reads `v`, and `call`, which was to put it
  -- back, has failed.
  abbrev pub IsBack :
      Bytes
      → Bytes
      → Option Bytes
      → (Engine kv.Store → Outcome Unit × Engine kv.Store)
      → Engine kv.Store
      → Engine kv.Store
      → Type 0
  IsBack key k v call e e' = (view e' key ≡ view e key) ⊎ ((view e' key ≡ v) × Refused k call e')
