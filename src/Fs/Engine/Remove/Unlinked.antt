-- ===== src/Fs/Engine/Remove/Unlinked.antt =====
-- `Rmdir` and `Unlink`: all of the entry goes, or none of it where what is to undo it goes through.
use fusee_fs.Prelude.{
  ℕ, ◌+◌, ◌-◌, ◌^◌, ◌≡◌, refl, sym, false, if_true, if_false, ◌∙◌, ◌⊎◌, inl, inr, none, some, Bytes,
  bytes_eq, bytes_eq_iff, bytes_eq_refl, arith, if◌then◌else◌,
}
use fusee_fs.Prelude.Word.{u64}
use fusee_fs.Fs.Inode.{Inode, le_bytes, encode_inode}
use fusee_fs.Fs.Key.{dentry_key, inode_key}
use fusee_fs.Fs.Key.Distinct.{inode_key-ne-dentry_key}
use fusee_fs.Fs.KvClient.{KvClient, KvLaws, NeverRedo}
use fusee_fs.Fs.Outcome.{eio, Outcome, ok, err}
use fusee_fs.Fs.Engine.{
  Engine, insert_dentry, delete_dentry, insert_inode, delete_inode, update_inode,
}
use fusee_fs.Fs.Engine.View.{
  view, Puts, SameView, delete_inode-Tries, delete_dentry-Tries, update_inode-Tries,
  insert_inode-Tries, insert_dentry-Tries, Tries-other, Tries-own, Tries-same, IsBack,
}
use fusee_fs.Fs.Engine.Remove.{unlink_inode}

module _ (kv : KvClient) where
  abbrev pub one_less : Inode → Inode
  one_less parent = record parent { children = u64 (parent.children + (2 ^ 64 - 1)) }

  -- The three keys that a removal writes, and all else as it was.
  abbrev pub Unlinked : ℕ → Inode → Bytes → ℕ → Engine kv.Store → Engine kv.Store → Type 0
  Unlinked pid parent name tid e e' =
      (j : Bytes)
      → view kv e' j ≡ (
          if bytes_eq (inode_key pid) j
          then some (encode_inode (one_less parent))
          else if bytes_eq (dentry_key pid name) j
          then none
          else if bytes_eq (inode_key tid) j
          then none
          else view kv e j)

  -- What a failed removal leaves: nothing, where the calls that insert again what was deleted went through.
  pub record Restored (pid : ℕ) (name : Bytes) (tid : ℕ) (target : Inode) (e e' : Engine kv.Store)
      : Type 0 where
    pub inode_back :
        IsBack kv (inode_key tid) (dentry_key pid name) none (insert_inode kv tid target) e e'
    pub entry_back :
        IsBack kv
          (dentry_key pid name)
          (dentry_key pid name)
          none
          (insert_dentry kv pid name tid)
          e
          e'
    pub others :
        (j : Bytes)
        → bytes_eq (inode_key tid) j ≡ false
        → bytes_eq (dentry_key pid name) j ≡ false
        → view kv e' j ≡ view kv e j

  pub SameView-Restored :
      (pid : ℕ) (name : Bytes) (tid : ℕ) (target : Inode) (e e' : Engine kv.Store)
      → SameView kv e e'
      → Restored pid name tid target e e'
  SameView-Restored pid name tid target e e' same = record {
    inode_back = inl (same _);
    entry_back = inl (same _);
    others = λ j h k. same j;
  }

  abbrev pub AllOrNothing :
      ℕ → Inode → Bytes → ℕ → Inode → Engine kv.Store → Outcome Unit × Engine kv.Store → Type 0
  AllOrNothing pid parent name tid target e (r, e') =
      ((r ≡ ok tt) × Unlinked pid parent name tid e e')
      ⊎ ((r ≡ err eio) × Restored pid name tid target e e')

  module _ (laws : KvLaws kv) (alone : NeverRedo kv) where
    restore_inode :
        (pid : ℕ) (name : Bytes) (tid : ℕ) (target : Inode) (e e₁ e₂ : Engine kv.Store)
        → view kv e (inode_key tid) ≡ some (encode_inode target)
        → Puts kv (inode_key tid) none e e₁
        → SameView kv e₁ e₂
        → Restored pid name tid target e (insert_inode kv tid target e₂).1
    restore_inode pid name tid target e e₁ e₂ held drops same =
        let ik = inode_key tid in
        let dk = dentry_key pid name in
        let apart : bytes_eq ik dk ≡ false =
          ground (arith, bytes_eq_iff ik dk, inode_key-ne-dentry_key tid pid name) in
        let x = insert_inode kv tid target e₂ in
        let absent : view kv e₂ ik ≡ none =
          same ik ∙ drops ik ∙ if_true (bytes_eq ik ik) _ _ (bytes_eq_refl ik) in
        let back = insert_inode-Tries kv laws alone e₂ tid target absent in
        let other = Tries-other kv ik (some (encode_inode target)) e₂ x back in
        record {
          inode_back = elim (Tries-own kv ik (some (encode_inode target)) e₂ x back) [
            | inl there ↦ inl (there ∙ sym held)
            | inr (kept, failed) ↦ inr (
              kept ∙ absent,
              (e₂, failed, λ j h. Tries-same kv ik (some (encode_inode target)) e₂ x back failed j),
            )
          ];
          entry_back =
              inl (other dk apart ∙ same dk ∙ drops dk ∙ if_false (bytes_eq ik dk) _ _ apart);
          others = λ j h k. other j h ∙ same j ∙ drops j ∙ if_false (bytes_eq ik j) _ _ h;
        }

    restore_entry :
        (pid : ℕ) (name : Bytes) (tid : ℕ) (target : Inode) (e e₁ e₂ e₃ : Engine kv.Store)
        → view kv e (inode_key tid) ≡ some (encode_inode target)
        → view kv e (dentry_key pid name) ≡ some (le_bytes 8 tid)
        → Puts kv (inode_key tid) none e e₁
        → Puts kv (dentry_key pid name) none e₁ e₂
        → SameView kv e₂ e₃
        → Restored pid name tid target e
            (insert_dentry kv pid name tid (insert_inode kv tid target e₃).1).1
    restore_entry pid name tid target e e₁ e₂ e₃ held entry drops drops₂ same =
        let ik = inode_key tid in
        let dk = dentry_key pid name in
        let ne = inode_key-ne-dentry_key tid pid name in
        let apart : bytes_eq ik dk ≡ false = ground (arith, bytes_eq_iff ik dk, ne) in
        let apart₂ : bytes_eq dk ik ≡ false = ground (arith, bytes_eq_iff dk ik, ne) in
        let v = some (encode_inode target) in
        let w = some (le_bytes 8 tid) in
        let x = insert_inode kv tid target e₃ in
        let e₄ = (insert_inode kv tid target e₃).1 in
        let y = insert_dentry kv pid name tid e₄ in
        let absent : view kv e₃ ik ≡ none =
          same ik
          ∙ drops₂ ik
          ∙ if_false (bytes_eq dk ik) _ _ apart₂
          ∙ drops ik
          ∙ if_true (bytes_eq ik ik) _ _ (bytes_eq_refl ik) in
        let back = insert_inode-Tries kv laws alone e₃ tid target absent in
        let other = Tries-other kv ik v e₃ x back in
        let absent₂ : view kv e₄ dk ≡ none =
          other dk apart ∙ same dk ∙ drops₂ dk ∙ if_true (bytes_eq dk dk) _ _ (bytes_eq_refl dk) in
        let back₂ = insert_dentry-Tries kv laws alone e₄ pid name tid absent₂ in
        let other₂ = Tries-other kv dk w e₄ y back₂ in
        record {
          inode_back = elim (Tries-own kv ik v e₃ x back) [
            | inl there ↦ inl (other₂ ik apart₂ ∙ there ∙ sym held)
            | inr (kept, failed) ↦ inr (
              other₂ ik apart₂ ∙ kept ∙ absent,
              (e₃, failed, λ j h. other₂ j h ∙ Tries-same kv ik v e₃ x back failed j),
            )
          ];
          entry_back = elim (Tries-own kv dk w e₄ y back₂) [
            | inl there ↦ inl (there ∙ sym entry)
            | inr (kept, failed) ↦
                inr (kept ∙ absent₂, (e₄, failed, λ j h. Tries-same kv dk w e₄ y back₂ failed j))
          ];
          others = λ j h k.
              other₂ j k
              ∙ other j h
              ∙ same j
              ∙ drops₂ j
              ∙ if_false (bytes_eq dk j) _ _ k
              ∙ drops j
              ∙ if_false (bytes_eq ik j) _ _ h;
        }

    -- The writes of a removal all happen, or an error is returned and they are undone.
    pub unlink_inode-AllOrNothing :
        (pid : ℕ) (parent : Inode) (name : Bytes) (tid : ℕ) (target : Inode) (e : Engine kv.Store)
        → view kv e (inode_key tid) ≡ some (encode_inode target)
        → view kv e (dentry_key pid name) ≡ some (le_bytes 8 tid)
        → AllOrNothing pid parent name tid target e (unlink_inode kv pid parent name tid target e)
    unfolding unlink_inode
    unlink_inode-AllOrNothing pid parent name tid target e held entry =
        let run = unlink_inode kv pid parent name tid target e in
        let e₁ = (delete_inode kv tid e).1 in
        let e₂ = (delete_dentry kv pid name e₁).1 in
        let e₃ = (update_inode kv pid (one_less parent) e₂).1 in
        let back = (insert_inode kv tid target e₃).1 in
        elim (delete_inode-Tries kv laws alone e tid) [
          | inr (r, same) ↦
              let stop : run ≡ (err eio, e₁) = ground arith in
              rw stop (inr (refl, SameView-Restored pid name tid target e e₁ same))
          | inl (r, drops) ↦ elim (delete_dentry-Tries kv laws alone e₁ pid name) [
            | inr (r₂, same) ↦
                let stop : run ≡ (err eio, (insert_inode kv tid target e₂).1) = ground arith in
                rw stop (inr (refl, restore_inode pid name tid target e e₁ e₂ held drops same))
            | inl (r₂, drops₂) ↦ elim (update_inode-Tries kv laws alone e₂ pid (one_less parent)) [
              | inr (r₃, same) ↦
                  let stop : run ≡ (err eio, (insert_dentry kv pid name tid back).1) =
                    ground arith in
                  rw stop (
                    inr (
                      refl,
                      restore_entry pid name tid target e e₁ e₂ e₃ held entry drops drops₂ same,
                    ))
              | inl (r₃, puts) ↦
                  let go : run ≡ (ok tt, e₃) = ground arith in
                  rw go (inl (refl, λ j. puts j ∙ ground (arith, drops₂ j, drops j)))
            ]
          ]
        ]
