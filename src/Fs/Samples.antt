-- ===== src/Fs/Samples.antt =====
-- A client over an association list that refuses calls on some keys: what the examples run on.
use fusee_fs.Prelude.{
  ℕ, ◌≡◌, ◌≢◌, refl, Bool, true, false, Bool-cases, Option, none, some, List, [], ◌∷◌, Bytes,
  bytes_eq, bytes_eq_iff, bytes_eq_refl, arith, if◌then◌else◌,
}
use fusee_fs.Prelude.Word.{IsU64}
use fusee_fs.Fs.Inode.{Inode, encode_inode, le_bytes}
use fusee_fs.Fs.Inode.Layout.{IsInode}
use fusee_fs.Fs.Key.{inode_key, dentry_key}
use fusee_fs.Fs.Key.Distinct.{inode_key-ne-dentry_key}
use fusee_fs.Fs.Engine.{Engine}
use fusee_fs.Fs.Engine.Stored.{IsStored}
use fusee_fs.Fs.KvClient.{KvClient, KvLaws, NeverRedo, RetCode, success, fail_return, fail_redo}

abbrev pub Pairs : Type 0
Pairs = List (Bytes × Bytes)

unfoldable pub search_pairs : Bytes → Pairs → Option Bytes
search_pairs k [] = none
search_pairs k ((j, v) ∷ s) = if bytes_eq j k then some v else search_pairs k s

unfoldable pub remove_pairs : Bytes → Pairs → Pairs
remove_pairs k [] = []
remove_pairs k ((j, v) ∷ s) =
    let rest = remove_pairs k s in if bytes_eq k j then rest else (j, v) ∷ rest

search-remove :
    (k j : Bytes) (s : Pairs)
    → search_pairs j (remove_pairs k s) ≡ (if bytes_eq k j then none else search_pairs j s)
unfolding search_pairs remove_pairs
search-remove k j [] = ground arith
search-remove k j ((i, v) ∷ s) = ground (
  arith,
  search-remove k j s,
  bytes_eq_iff k i,
  bytes_eq_iff i j,
  bytes_eq_iff k j,
  bytes_eq_refl k,
)

-- Which keys the client refuses to insert, to update and to delete.
pub record Refusals : Type 0 where
  pub insert : Bytes → Bool
  pub update : Bytes → Bool
  pub delete : Bytes → Bool

unfoldable pub insert_pairs : Bool → Bytes → Bytes → Pairs → RetCode × Pairs
insert_pairs true k v s = (fail_return, s)
insert_pairs false k v s = (success, (k, v) ∷ s)

unfoldable pub update_pairs : Bool → Bytes → Bytes → Pairs → RetCode × Pairs
unfolding search_pairs
update_pairs true k v s = (fail_return, s)
update_pairs false k v s = elim (search_pairs k s) [
  | none ↦ (fail_return, s)
  | some w ↦ (success, (k, v) ∷ s)
]

unfoldable pub delete_pairs : Bool → Bytes → Pairs → RetCode × Pairs
unfolding search_pairs remove_pairs
delete_pairs true k s = (fail_return, s)
delete_pairs false k s = elim (search_pairs k s) [
  | none ↦ (fail_return, s)
  | some w ↦ (success, remove_pairs k s)
]

abbrev pub pairs_client : Refusals → KvClient
pairs_client refusals = record {
  Store = Pairs;
  search = search_pairs;
  insert = λ k v s. insert_pairs (refusals.insert k) k v s;
  update = λ k v s. update_pairs (refusals.update k) k v s;
  delete = λ k s. delete_pairs (refusals.delete k) k s;
}

-- What a call on `k` that puts `v` there, or drops it, keeps to; and that it never asks for a repetition.
abbrev IsCall : Bytes → Option Bytes → Pairs → RetCode × Pairs → Type 0
IsCall k v s (code, t) =
    (code ≡ success
      → (j : Bytes) → search_pairs j t ≡ (if bytes_eq k j then v else search_pairs j s))
    × (code ≢ success → (j : Bytes) → search_pairs j t ≡ search_pairs j s)
    × (code ≢ fail_redo)

insert_IsCall : (b : Bool) (k v : Bytes) (s : Pairs) → IsCall k (some v) s (insert_pairs b k v s)
unfolding insert_pairs search_pairs
insert_IsCall true k v s = (λ h j. absurd (ground (arith, h)), λ h j. refl, λ h. ground (arith, h))
insert_IsCall false k v s = (λ h j. refl, λ h j. absurd (h refl), λ h. ground (arith, h))

update_IsCall : (b : Bool) (k v : Bytes) (s : Pairs) → IsCall k (some v) s (update_pairs b k v s)
unfolding update_pairs search_pairs
update_IsCall true k v s = (λ h j. absurd (ground (arith, h)), λ h j. refl, λ h. ground (arith, h))
update_IsCall false k v s =
    (λ h j. ground (arith, h), λ h j. ground (arith, h), λ h. ground (arith, h))

delete_IsCall : (b : Bool) (k : Bytes) (s : Pairs) → IsCall k none s (delete_pairs b k s)
unfolding delete_pairs
delete_IsCall true k s = (λ h j. absurd (ground (arith, h)), λ h j. refl, λ h. ground (arith, h))
delete_IsCall false k s = (
  λ h j. ground (arith, h, search-remove k j s),
  λ h j. ground (arith, h),
  λ h. ground (arith, h),
)

pub pairs_laws : (refusals : Refusals) → KvLaws (pairs_client refusals)
pairs_laws refusals = record {
  insert_lands = λ k v s h absent. (insert_IsCall (refusals.insert k) k v s).0 h;
  insert_fails = λ k v s. (insert_IsCall (refusals.insert k) k v s).1;
  update_lands = λ k v s. (update_IsCall (refusals.update k) k v s).0;
  update_fails = λ k v s. (update_IsCall (refusals.update k) k v s).1;
  delete_lands = λ k s. (delete_IsCall (refusals.delete k) k s).0;
  delete_fails = λ k s. (delete_IsCall (refusals.delete k) k s).1;
}

pub pairs_alone : (refusals : Refusals) → NeverRedo (pairs_client refusals)
pairs_alone refusals = record {
  insert = λ k v s. (insert_IsCall (refusals.insert k) k v s).2;
  update = λ k v s. (update_IsCall (refusals.update k) k v s).2;
  delete = λ k s. (delete_IsCall (refusals.delete k) k s).2;
}

-- A store with the root directory only, which root owns and everyone reads.
abbrev pub root_inode : Inode
root_inode = record {
  id = 0;
  size = 0;
  atime = 0;
  mtime = 0;
  ctime = 0;
  children = 0;
  mode = 0o040755;
  uid = 0;
  gid = 0;
}

abbrev pub root_engine : Engine Pairs
root_engine = record {
  store = (inode_key 0, encode_inode root_inode) ∷ [];
  inode_id_group = 0;
  inode_id_seq_in_group = 1;
}

root_entries :
    (pid : ℕ) (name v : Bytes)
    → search_pairs (dentry_key pid name) root_engine.store ≡ some v
    → (id : ℕ) × IsU64 id × (v ≡ le_bytes 8 id)
unfolding search_pairs
root_entries pid name v h = absurd (
    ground
      (arith, inode_key-ne-dentry_key 0 pid name, bytes_eq_iff (inode_key 0) (dentry_key pid name)))

root_inodes :
    (id : ℕ) (v : Bytes)
    → search_pairs (inode_key id) root_engine.store ≡ some v
    → (i : Inode) × IsInode i × (v ≡ encode_inode i)
unfolding search_pairs
root_inodes id v h =
    (root_inode, omega arith, ground (arith, Bool-cases (bytes_eq (inode_key 0) (inode_key id))))

pub root_IsStored : (refusals : Refusals) → IsStored (pairs_client refusals) root_engine
root_IsStored refusals = record { inodes = root_inodes; entries = root_entries }
