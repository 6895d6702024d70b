-- ===== src/Fs/Examples.antt =====
-- The engine's theorems on a store with the root directory, and runs of its methods.
use fusee_fs.Prelude.{◌+◌, ◌*◌, ◌≤◌, ◌↔◌, ◌≡◌, true, false, [], ◌∷◌, Bytes, bytes_eq, arith}
use fusee_fs.Fs.Path.{split_path}
use fusee_fs.Fs.Inode.{Inode, inode_id_group_size}
use fusee_fs.Fs.Key.{dentry_key}
use fusee_fs.Fs.Outcome.{ok}
use fusee_fs.Fs.Engine.{Engine, get_new_inode_id, path_lookup_to_dentry}
use fusee_fs.Fs.Engine.Create.{mkdir}
use fusee_fs.Fs.Engine.Lookup.{LeadsTo, path_lookup_to_dentry_iff}
use fusee_fs.Fs.Engine.Numbers.{get_new_inode_id_overrun}
use fusee_fs.Fs.Samples.{Pairs, pairs_client, Refusals, root_engine}

-- "/a"
abbrev path_a : Bytes
path_a = 47 ∷ 97 ∷ []

abbrev accepts : Refusals
accepts = record { insert = λ k. false; update = λ k. false; delete = λ k. false }

-- The client refuses every update, and to delete entries of the root.
abbrev refuses : Refusals
refuses = record {
  insert = λ k. false;
  update = λ k. true;
  delete = λ k. bytes_eq k (dentry_key 0 (97 ∷ []));
}

abbrev after_mkdir : Engine Pairs
after_mkdir = (mkdir (pairs_client accepts) 7 path_a 0 0 0o755 root_engine).1

path_lookup_to_dentry_iff_example :
    (path_lookup_to_dentry (pairs_client accepts) path_a 0 0 after_mkdir ≡ ok 1)
    ↔ LeadsTo (pairs_client accepts) after_mkdir 0 0 (split_path path_a) 1
path_lookup_to_dentry_iff_example =
    path_lookup_to_dentry_iff (pairs_client accepts) after_mkdir 0 0 path_a 1

-- An engine whose group is used up.
abbrev last_engine : Engine Pairs
last_engine = record { store = []; inode_id_group = 3; inode_id_seq_in_group = 1024 * 1024 }

get_new_inode_id_overrun_example :
    let (id, e') = get_new_inode_id (λ s. s) 9 last_engine in
    ((3 + 1) * inode_id_group_size ≤ id) × (e'.inode_id_group ≡ 3)
get_new_inode_id_overrun_example =
    get_new_inode_id_overrun last_engine (omega arith) 9 (omega arith)

-- What the other thread does: it takes group 5 and draws one number.
abbrev taken : Engine Pairs → Engine Pairs
taken e = record e { inode_id_group = 5; inode_id_seq_in_group = 1 }
