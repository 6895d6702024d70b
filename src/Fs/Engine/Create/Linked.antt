-- ===== src/Fs/Engine/Create/Linked.antt =====
-- `Mkdir` and `Creat`: all of the new entry, or none of it where what is to undo it goes through.
use fusee_fs.Prelude.{
  ℕ, ◌+◌, ◌≡◌, refl, sym, false, if_true, if_false, ◌⊎◌, inl, inr, none, some, Bytes, bytes_eq,
  bytes_eq_iff, bytes_eq_refl, ◌∙◌, arith, if◌then◌else◌,
}
use fusee_fs.Prelude.Word.{u64}
use fusee_fs.Fs.Inode.{Inode, le_bytes, encode_inode}
use fusee_fs.Fs.Key.{dentry_key, inode_key}
use fusee_fs.Fs.Key.Distinct.{inode_key-ne-dentry_key}
use fusee_fs.Fs.KvClient.{KvClient, KvLaws, NeverRedo}
use fusee_fs.Fs.Outcome.{eio, Outcome, ok, err}
use fusee_fs.Fs.Engine.{
  Engine, insert_dentry, delete_dentry, insert_inode, delete_inode, update_inode,
}
use fusee_fs.Fs.Engine.View.{
  view, Puts, SameView, insert_inode-Tries, insert_dentry-Tries, update_inode-Tries,
  delete_inode-Tries, delete_dentry-Tries, Tries-other, Tries-own, Tries-same, IsBack,
}
use fusee_fs.Fs.Engine.Create.{link_new_inode}

module _ (kv : KvClient) where
  -- The three keys that a new entry writes, in the order of the writes, and all else as it was.
  abbrev pub Linked : ℕ → Inode → Bytes → Inode → Engine kv.Store → Engine kv.Store → Type 0
  Linked pid parent name inode e e' =
      (j : Bytes)
      → view kv e' j ≡ (
          if bytes_eq (inode_key pid) j
          then some (encode_inode (record parent { children = u64 (parent.children + 1) }))
          else if bytes_eq (dentry_key pid name) j
          then some (le_bytes 8 inode.id)
          else if bytes_eq (inode_key inode.id) j
          then some (encode_inode inode)
          else view kv e j)

  -- What a failed entry leaves: nothing, where the calls that delete what was inserted went through.
  pub record Undone (pid : ℕ) (name : Bytes) (inode : Inode) (e e' : Engine kv.Store) : Type 0 where
    pub inode_back :
        IsBack kv
          (inode_key inode.id)
          (dentry_key pid name)
          (some (encode_inode inode))
          (delete_inode kv inode.id)
          e
          e'
    pub entry_back :
        IsBack kv
          (dentry_key pid name)
          (dentry_key pid name)
          (some (le_bytes 8 inode.id))
          (delete_dentry kv pid name)
          e
          e'
    pub others :
        (j : Bytes)
        → bytes_eq (inode_key inode.id) j ≡ false
        → bytes_eq (dentry_key pid name) j ≡ false
        → view kv e' j ≡ view kv e j

  pub SameView-Undone :
      (pid : ℕ) (name : Bytes) (inode : Inode) (e e' : Engine kv.Store)
      → SameView kv e e'
      → Undone pid name inode e e'
  SameView-Undone pid name inode e e' same = record {
    inode_back = inl (same _);
    entry_back = inl (same _);
    others = λ j h k. same j;
  }

  abbrev pub AllOrNothing :
      ℕ → Inode → Bytes → Inode → Engine kv.Store → Outcome Unit × Engine kv.Store → Type 0
  AllOrNothing pid parent name inode e (r, e') =
      ((r ≡ ok tt) × Linked pid parent name inode e e')
      ⊎ ((r ≡ err eio) × Undone pid name inode e e')

  module _ (laws : KvLaws kv) (alone : NeverRedo kv) where
    -- The inode that was inserted is deleted again.
    undo_inode :
        (pid : ℕ) (name : Bytes) (inode : Inode) (e e₁ e₂ : Engine kv.Store)
        → view kv e (inode_key inode.id) ≡ none
        → Puts kv (inode_key inode.id) (some (encode_inode inode)) e e₁
        → SameView kv e₁ e₂
        → Undone pid name inode e (delete_inode kv inode.id e₂).1
    undo_inode pid name inode e e₁ e₂ fresh puts same =
        let ik = inode_key inode.id in
        let dk = dentry_key pid name in
        let undo = delete_inode-Tries kv laws alone e₂ inode.id in
        let apart : bytes_eq ik dk ≡ false =
          ground (arith, bytes_eq_iff ik dk, inode_key-ne-dentry_key inode.id pid name) in
        let other = Tries-other kv ik none e₂ (delete_inode kv inode.id e₂) undo in
        record {
          inode_back = elim (Tries-own kv ik none e₂ (delete_inode kv inode.id e₂) undo) [
            | inl gone ↦ inl (gone ∙ sym fresh)
            | inr (kept, failed) ↦ inr (
              kept ∙ same ik ∙ puts ik ∙ if_true (bytes_eq ik ik) _ _ (bytes_eq_refl ik),
              (
                e₂,
                failed,
                λ j h. Tries-same kv ik none e₂ (delete_inode kv inode.id e₂) undo failed j,
              ),
            )
          ];
          entry_back =
              inl (other dk apart ∙ same dk ∙ puts dk ∙ if_false (bytes_eq ik dk) _ _ apart);
          others = λ j h k. other j h ∙ same j ∙ puts j ∙ if_false (bytes_eq ik j) _ _ h;
        }

    -- The inode and the entry that were inserted are deleted again.
    undo_entry :
        (pid : ℕ) (name : Bytes) (inode : Inode) (e e₁ e₂ e₃ : Engine kv.Store)
        → view kv e (inode_key inode.id) ≡ none
        → view kv e (dentry_key pid name) ≡ none
        → Puts kv (inode_key inode.id) (some (encode_inode inode)) e e₁
        → Puts kv (dentry_key pid name) (some (le_bytes 8 inode.id)) e₁ e₂
        → SameView kv e₂ e₃
        → Undone pid name inode e (delete_dentry kv pid name (delete_inode kv inode.id e₃).1).1
    undo_entry pid name inode e e₁ e₂ e₃ fresh absent puts puts₂ same =
        let ik = inode_key inode.id in
        let dk = dentry_key pid name in
        let ne = inode_key-ne-dentry_key inode.id pid name in
        let apart : bytes_eq ik dk ≡ false = ground (arith, bytes_eq_iff ik dk, ne) in
        let apart₂ : bytes_eq dk ik ≡ false = ground (arith, bytes_eq_iff dk ik, ne) in
        let undo = delete_inode-Tries kv laws alone e₃ inode.id in
        let e₄ = (delete_inode kv inode.id e₃).1 in
        let undo₂ = delete_dentry-Tries kv laws alone e₄ pid name in
        let other = Tries-other kv ik none e₃ (delete_inode kv inode.id e₃) undo in
        let other₂ = Tries-other kv dk none e₄ (delete_dentry kv pid name e₄) undo₂ in
        let at_inode : view kv e₃ ik ≡ some (encode_inode inode) =
          same ik
          ∙ puts₂ ik
          ∙ if_false (bytes_eq dk ik) _ _ apart₂
          ∙ puts ik
          ∙ if_true (bytes_eq ik ik) _ _ (bytes_eq_refl ik) in
        let at_entry : view kv e₃ dk ≡ some (le_bytes 8 inode.id) =
          same dk ∙ puts₂ dk ∙ if_true (bytes_eq dk dk) _ _ (bytes_eq_refl dk) in
        record {
          inode_back = elim (Tries-own kv ik none e₃ (delete_inode kv inode.id e₃) undo) [
            | inl gone ↦ inl (other₂ ik apart₂ ∙ gone ∙ sym fresh)
            | inr (kept, failed) ↦ inr (
              other₂ ik apart₂ ∙ kept ∙ at_inode,
              (
                e₃,
                failed,
                λ j h.
                    other₂ j h
                    ∙ Tries-same kv ik none e₃ (delete_inode kv inode.id e₃) undo failed j,
              ),
            )
          ];
          entry_back = elim (Tries-own kv dk none e₄ (delete_dentry kv pid name e₄) undo₂) [
            | inl gone ↦ inl (gone ∙ sym absent)
            | inr (kept, failed) ↦ inr (
              kept ∙ other dk apart ∙ at_entry,
              (
                e₄,
                failed,
                λ j h. Tries-same kv dk none e₄ (delete_dentry kv pid name e₄) undo₂ failed j,
              ),
            )
          ];
          others = λ j h k.
              other₂ j k
              ∙ other j h
              ∙ same j
              ∙ puts₂ j
              ∙ if_false (bytes_eq dk j) _ _ k
              ∙ puts j
              ∙ if_false (bytes_eq ik j) _ _ h;
        }

    -- The writes of a new entry all happen, or an error is returned and they are undone.
    pub link_new_inode-AllOrNothing :
        (pid : ℕ) (parent : Inode) (name : Bytes) (inode : Inode) (e : Engine kv.Store)
        → view kv e (inode_key inode.id) ≡ none
        → view kv e (dentry_key pid name) ≡ none
        → AllOrNothing pid parent name inode e (link_new_inode kv pid parent name inode e)
    unfolding link_new_inode
    link_new_inode-AllOrNothing pid parent name inode e fresh absent =
        let link = link_new_inode kv pid parent name inode in
        let ik = inode_key inode.id in
        let dk = dentry_key pid name in
        let e₁ = (insert_inode kv inode.id inode e).1 in
        let e₂ = (insert_dentry kv pid name inode.id e₁).1 in
        let parent' = record parent { children = u64 (parent.children + 1) } in
        let e₃ = (update_inode kv pid parent' e₂).1 in
        let e₄ = (delete_inode kv inode.id e₃).1 in
        elim (insert_inode-Tries kv laws alone e inode.id inode fresh) [
          | inr (r, same) ↦
              let run : link e ≡ (err eio, e₁) = ground arith in
              rw run (inr (refl, SameView-Undone pid name inode e e₁ same))
          | inl (r, puts) ↦
              let absent₁ : view kv e₁ dk ≡ none =
                ground
                  (arith, puts dk, bytes_eq_iff ik dk, inode_key-ne-dentry_key inode.id pid name) in
              elim (insert_dentry-Tries kv laws alone e₁ pid name inode.id absent₁) [
                | inr (r₂, same) ↦
                    let run : link e ≡ (err eio, (delete_inode kv inode.id e₂).1) = ground arith in
                    rw run (inr (refl, undo_inode pid name inode e e₁ e₂ fresh puts same))
                | inl (r₂, puts₂) ↦ elim (update_inode-Tries kv laws alone e₂ pid parent') [
                  | inr (r₃, same) ↦
                      let run : link e ≡ (err eio, (delete_dentry kv pid name e₄).1) =
                        ground arith in
                      rw run (
                        inr
                          (refl, undo_entry pid name inode e e₁ e₂ e₃ fresh absent puts puts₂ same))
                  | inl (r₃, puts₃) ↦
                      let run : link e ≡ (ok tt, e₃) = ground arith in
                      rw run (inl (refl, λ j. puts₃ j ∙ ground (arith, puts₂ j, puts j)))
                ]
              ]
        ]
