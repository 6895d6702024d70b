-- ===== src/Kv/Client/Overlap.antt =====
-- src/client.cc and src/server_mm.cc: the buckets that a client addresses, and the distance at which the
-- server places the subtables, `SUBTABLE_LEN` of src/hashtable.h.
use fusee_fs.Prelude.{ℕ, ◌+◌, ◌*◌, ◌≡◌, ◌≤◌, ◌<◌, ◌↔◌, some, List, ◌∷◌, get_elem?, arith}
use fusee_fs.Prelude.Word.{u64}
use fusee_fs.Kv.Hash.{subtable_first_index, subtable_second_index, convert_40_to_64_bits}
use fusee_fs.Kv.Hash.Index.{subtable_second_index_lem}
use fusee_fs.Kv.Client.Address.{
  RaceHashRoot, RaceHashSubtableEntry, KvHashInfo, TableAddr, bucket_size, combined_idx,
  get_kv_addr_info, table_addrs-elem,
}
use fusee_fs.Kv.ServerMm.{ServerMm, subtable_len, mm_alloc_subtable}
use fusee_fs.Kv.ServerMm.Subtables.{IsHashArea, mm_alloc_subtable-next}

-- The indices whose buckets are behind the first `SUBTABLE_LEN` bytes.
combined_idx_past :
    (base s : ℕ)
    → s < 34000
    → ((base + subtable_len ≤ base + combined_idx s * bucket_size) ↔ (22667 ≤ s))
      × (combined_idx s + 2 ≤ 51000)
unfolding combined_idx
combined_idx_past base s h = ground arith

-- The subtables that the server hands out overlap: with the 34000 indices of the source, the buckets of
-- the second index of a key lie in the subtable that is handed out next exactly where this index is at
-- least 22667, and they never lie behind that subtable. This is for a replica in the first of two
-- subtables that are handed out one after the other, where their marks are the first two.
pub get_kv_addr_info_overlap :
    (root : RaceHashRoot) (num_idx_rep i : ℕ) (info : KvHashInfo) (e : RaceHashSubtableEntry)
    (s : ServerMm) (ms : List ℕ)
    → root.subtable_hash_range ≡ 34000
    → i < num_idx_rep
    → get_elem? (root.subtable_entry info.prefix) i ≡ some e
    → s.subtable_alloc_map ≡ 0 ∷ 0 ∷ ms
    → IsHashArea s
    → convert_40_to_64_bits e.pointer ≡ (mm_alloc_subtable s).0
    → let next = (mm_alloc_subtable (mm_alloc_subtable s).1).0 in
      let f = subtable_first_index info.hash_value 34000 in
      (a : TableAddr) × (get_elem? (get_kv_addr_info root num_idx_rep info).replicas i ≡ some a)
      × ((next ≤ a.s_bucket_addr) ↔ (22667 ≤ subtable_second_index info.hash_value f 34000))
      × (a.s_bucket_addr + 2 * bucket_size ≤ next + subtable_len)
unfolding get_kv_addr_info
get_kv_addr_info_overlap root num_idx_rep i info e s ms range low at marks area start =
    let f = subtable_first_index info.hash_value 34000 in
    let second = subtable_second_index info.hash_value f 34000 in
    let base = convert_40_to_64_bits e.pointer in
    let (hf, hs, ht) =
      subtable_second_index_lem info.hash_value 34000 (omega arith) (omega arith) in
    let (past, inside) = combined_idx_past base second ht in
    let (next, fits) = mm_alloc_subtable-next s ms marks area in
    let addr : u64 (base + combined_idx second * bucket_size)
        ≡ base + combined_idx second * bucket_size =
      omega (arith, inside, fits, start) in
    (
      record {
        server_id = e.server_id;
        f_bucket_addr = u64 (base + combined_idx f * bucket_size);
        s_bucket_addr = u64 (base + combined_idx second * bucket_size);
      },
      rw range (
          table_addrs-elem (combined_idx f) (combined_idx second) num_idx_rep i
            (root.subtable_entry info.prefix) e low at),
      (
        λ h. past.0 (omega (arith, h, addr, next, start)),
        λ h. let far = past.1 h in omega (arith, far, addr, next, start),
      ),
      omega (arith, inside, addr, next, start),
    )
