-- ===== src/Fs/KvClient.antt =====
-- The calls that fs/engine/engine.cc makes of the key-value client of its thread (src/client.cc):
-- `kv_search_sync`, `kv_insert_sync`, `kv_update_sync` and `kv_delete_sync`, as an interface that the
-- engine takes. `Store` is all that these calls read and change.
use fusee_fs.Prelude.{◌≡◌, ◌≢◌, Option, none, some, Bytes, bytes_eq, if◌then◌else◌}

-- `enum KVOpsRetCode` of src/client.h.
pub data RetCode : Type 0 where
  success fail_return fail_redo : RetCode

pub record KvClient : Type 1 where
  pub Store : Type 0
  -- the value that is found, `none` for a null pointer
  pub search : Bytes → Store → Option Bytes
  pub insert : Bytes → Bytes → Store → RetCode × Store
  pub update : Bytes → Bytes → Store → RetCode × Store
  pub delete : Bytes → Store → RetCode × Store

-- What one client, alone on the store, keeps to: a call that reports success has changed its key, and a
-- call that does not has changed nothing. Any call may fail, those that undo another one too. An insert
-- of a key that is there is left open: the client does not look for the key, and adds a second slot.
pub record KvLaws (kv : KvClient) : Type 0 where
  pub insert_lands :
      (k v : Bytes) (s : kv.Store)
      → (kv.insert k v s).0 ≡ success
      → kv.search k s ≡ none
      → (j : Bytes)
      → kv.search j (kv.insert k v s).1 ≡ (if bytes_eq k j then some v else kv.search j s)
  pub insert_fails :
      (k v : Bytes) (s : kv.Store)
      → (kv.insert k v s).0 ≢ success
      → (j : Bytes) → kv.search j (kv.insert k v s).1 ≡ kv.search j s
  pub update_lands :
      (k v : Bytes) (s : kv.Store)
      → (kv.update k v s).0 ≡ success
      → (j : Bytes)
      → kv.search j (kv.update k v s).1 ≡ (if bytes_eq k j then some v else kv.search j s)
  pub update_fails :
      (k v : Bytes) (s : kv.Store)
      → (kv.update k v s).0 ≢ success
      → (j : Bytes) → kv.search j (kv.update k v s).1 ≡ kv.search j s
  pub delete_lands :
      (k : Bytes) (s : kv.Store)
      → (kv.delete k s).0 ≡ success
      → (j : Bytes) → kv.search j (kv.delete k s).1 ≡ (if bytes_eq k j then none else kv.search j s)
  pub delete_fails :
      (k : Bytes) (s : kv.Store)
      → (kv.delete k s).0 ≢ success
      → (j : Bytes) → kv.search j (kv.delete k s).1 ≡ kv.search j s

-- No call loses a race: true of a client that is alone.
pub record NeverRedo (kv : KvClient) : Type 0 where
  pub insert : (k v : Bytes) (s : kv.Store) → (kv.insert k v s).0 ≢ fail_redo
  pub update : (k v : Bytes) (s : kv.Store) → (kv.update k v s).0 ≢ fail_redo
  pub delete : (k : Bytes) (s : kv.Store) → (kv.delete k s).0 ≢ fail_redo
