-- ===== src/Kv/Client/Address.antt =====
-- src/client.cc: from a key to its four buckets. A subtable has two main buckets and an overflow bucket
-- between them for every two indices; the main bucket of an index is read with the overflow bucket.
-- Keys of the network are left out.
use fusee_fs.Prelude.{
  ℕ, zero, suc, ◌+◌, ◌-◌, ◌*◌, ◌/◌, ◌%◌, ◌^◌, ◌≡◌, ◌≤◌, ◌<◌, refl, bit_and, some, List, [], ◌∷◌,
  Bytes, get_elem?, ◌==◌, if◌then◌else◌, arith,
}
use fusee_fs.Prelude.Word.{u32, u64, ◌>>◌}
use fusee_fs.Kv.Hash.{
  variable_length_hash, compute_fp, subtable_first_index, subtable_second_index,
  convert_40_to_64_bits,
}
use fusee_fs.Kv.Hash.Index.{subtable_second_index_lem}

-- `sizeof(RaceHashBucket)`.
abbrev pub bucket_size : ℕ
bucket_size = 64

-- `sizeof(KVLogHeader)`.
abbrev pub log_header_size : ℕ
log_header_size = 8

pub record RaceHashSubtableEntry : Type 0 where
  pub lock : ℕ
  pub local_depth : ℕ
  pub server_id : ℕ
  pub pointer : List ℕ

-- The fields of `RaceHashRoot` that are read here; the replicas of a subtable by its prefix.
pub record RaceHashRoot : Type 0 where
  pub global_depth : ℕ
  pub subtable_hash_range : ℕ
  pub subtable_entry : ℕ → List RaceHashSubtableEntry

pub record KvHashInfo : Type 0 where
  pub hash_value : ℕ
  pub prefix : ℕ
  pub fp : ℕ
  pub local_depth : ℕ

-- One entry of each of the three lists of `KVTableAddrInfo`.
pub record TableAddr : Type 0 where
  pub server_id : ℕ
  pub f_bucket_addr : ℕ
  pub s_bucket_addr : ℕ

pub record KvTableAddrInfo : Type 0 where
  pub replicas : List TableAddr
  pub f_main_idx : ℕ
  pub s_main_idx : ℕ
  pub f_idx : ℕ
  pub s_idx : ℕ

unfoldable pub first_local_depth : List RaceHashSubtableEntry → ℕ
first_local_depth [] = 0
first_local_depth (e ∷ es) = e.local_depth

unfoldable pub get_kv_hash_info : RaceHashRoot → ℕ → Bytes → KvHashInfo
unfolding first_local_depth
get_kv_hash_info root l_addr key =
    let hash_value = variable_length_hash (l_addr + log_header_size) key 0 in
    let prefix = bit_and (hash_value >> 32) (2 ^ root.global_depth - 1) in
    record {
      hash_value = hash_value;
      prefix = prefix;
      fp = compute_fp hash_value;
      local_depth = first_local_depth (root.subtable_entry prefix);
    }

-- `f_idx` and `s_idx`: the first of the two buckets of an index.
unfoldable pub combined_idx : ℕ → ℕ
combined_idx index_value =
    if index_value % 2 == 0 then index_value / 2 * 3 else index_value / 2 * 3 + 1

-- The loop over the replicas of the index.
unfoldable pub table_addrs : ℕ → ℕ → ℕ → List RaceHashSubtableEntry → List TableAddr
table_addrs f_idx s_idx zero es = []
table_addrs f_idx s_idx (suc num_idx_rep) [] = []
table_addrs f_idx s_idx (suc num_idx_rep) (e ∷ es) =
    (record {
      server_id = e.server_id;
      f_bucket_addr = u64 (convert_40_to_64_bits e.pointer + f_idx * bucket_size);
      s_bucket_addr = u64 (convert_40_to_64_bits e.pointer + s_idx * bucket_size);
    })
    ∷ table_addrs f_idx s_idx num_idx_rep es

unfoldable pub get_kv_addr_info : RaceHashRoot → ℕ → KvHashInfo → KvTableAddrInfo
unfolding combined_idx table_addrs
get_kv_addr_info root num_idx_rep info =
    let f_index_value = subtable_first_index info.hash_value root.subtable_hash_range in
    let s_index_value =
      subtable_second_index info.hash_value f_index_value root.subtable_hash_range in
    let f_idx = combined_idx f_index_value in
    let s_idx = combined_idx s_index_value in
    record {
      replicas = table_addrs f_idx s_idx num_idx_rep (root.subtable_entry info.prefix);
      f_main_idx = f_index_value % 2;
      s_main_idx = s_index_value % 2;
      f_idx = u32 f_idx;
      s_idx = u32 s_idx;
    }

-- The `RACE_HASH_SUBTABLE_BUCKET_NUM` buckets of a subtable of `range` indices, in bytes: three for every
-- two indices. This is more than `SUBTABLE_LEN`, which counts one for every index.
abbrev pub subtable_bytes : ℕ → ℕ
subtable_bytes range = range / 2 * 3 * bucket_size

pub table_addrs-elem :
    (f_idx s_idx num_idx_rep i : ℕ) (es : List RaceHashSubtableEntry) (e : RaceHashSubtableEntry)
    → i < num_idx_rep
    → get_elem? es i ≡ some e
    → get_elem? (table_addrs f_idx s_idx num_idx_rep es) i
      ≡ some (record {
        server_id = e.server_id;
        f_bucket_addr = u64 (convert_40_to_64_bits e.pointer + f_idx * bucket_size);
        s_bucket_addr = u64 (convert_40_to_64_bits e.pointer + s_idx * bucket_size);
      })
unfolding table_addrs
table_addrs-elem f s zero i es e h k = absurd (omega arith)
table_addrs-elem f s (suc n) i [] e h k = absurd (ground (arith, k))
table_addrs-elem f s (suc n) zero (x ∷ es) e h k =
    let same : x ≡ e = ground (arith, k) in rw same refl
table_addrs-elem f s (suc n) (suc i) (x ∷ es) e h k = table_addrs-elem f s n i es e (omega arith) k

-- The indices of a key give two pairs of buckets that do not overlap and that end within its buckets.
combined_idx-bounds :
    (range f s : ℕ)
    → range % 4 ≡ 0
    → f < range / 2
    → range / 2 ≤ s
    → s < range
    → (combined_idx f + 2 ≤ combined_idx s) × (combined_idx s + 2 ≤ range / 2 * 3)
unfolding combined_idx
combined_idx-bounds range f s four hf hs ht = ground arith

-- On every replica of the index, the two buckets of the first index of a key end before those of the
-- second begin, and both lie within the `RACE_HASH_SUBTABLE_BUCKET_NUM` buckets of the subtable, half
-- as many again as its indices, for a number of indices that is a multiple of 4 and addresses that do
-- not wrap around.
pub get_kv_addr_info_apart :
    (root : RaceHashRoot) (num_idx_rep i : ℕ) (info : KvHashInfo) (e : RaceHashSubtableEntry)
    → root.subtable_hash_range % 4 ≡ 0
    → 4 ≤ root.subtable_hash_range
    → root.subtable_hash_range < 2 ^ 64
    → i < num_idx_rep
    → get_elem? (root.subtable_entry info.prefix) i ≡ some e
    → convert_40_to_64_bits e.pointer + subtable_bytes root.subtable_hash_range < 2 ^ 64
    → (a : TableAddr) × (get_elem? (get_kv_addr_info root num_idx_rep info).replicas i ≡ some a)
      × (a.server_id ≡ e.server_id)
      × (convert_40_to_64_bits e.pointer ≤ a.f_bucket_addr)
      × (a.f_bucket_addr + 2 * bucket_size ≤ a.s_bucket_addr)
      × (a.s_bucket_addr + 2 * bucket_size
          ≤ convert_40_to_64_bits e.pointer + subtable_bytes root.subtable_hash_range)
unfolding get_kv_addr_info
get_kv_addr_info_apart root num_idx_rep i info e four some_index small low at fits =
    let range = root.subtable_hash_range in
    let f = subtable_first_index info.hash_value range in
    let s = subtable_second_index info.hash_value f range in
    let base = convert_40_to_64_bits e.pointer in
    let (hf, hs, ht) = subtable_second_index_lem info.hash_value range (omega arith) small in
    let (p, q) = combined_idx-bounds range f s four hf hs ht in
    (
      record {
        server_id = e.server_id;
        f_bucket_addr = u64 (base + combined_idx f * bucket_size);
        s_bucket_addr = u64 (base + combined_idx s * bucket_size);
      },
      table_addrs-elem (combined_idx f) (combined_idx s) num_idx_rep i
          (root.subtable_entry info.prefix) e low at,
      refl,
      omega (arith, p, q, fits),
      omega (arith, p, q, fits),
      omega (arith, p, q, fits),
    )
