-- ===== src/Kv/Hash/Index.antt =====
-- The two candidate buckets of a key.
use fusee_fs.Prelude.{ℕ, ◌+◌, ◌*◌, ◌/◌, ◌%◌, ◌^◌, ◌<◌, ◌≤◌, arith}
use fusee_fs.Prelude.{bit_xor}
use fusee_fs.Prelude.Word.{u16, u32, u64, ◌<<◌, ◌>>◌}
use native.Mathlib.Nat.{mod-lt}
use fusee_fs.Kv.Hash.{subtable_first_index, subtable_second_index}

-- The first index of a key lies in the lower half of a subtable and the second one in the upper half,
-- whatever the hash, for a subtable with at least two buckets and of 64-bit size.
pub subtable_second_index_lem :
    (hash capacity : ℕ)
    → 2 ≤ capacity
    → capacity < 2 ^ 64
    → (subtable_first_index hash capacity < capacity / 2)
      × (capacity / 2 ≤ subtable_second_index hash (subtable_first_index hash capacity) capacity)
      × (subtable_second_index hash (subtable_first_index hash capacity) capacity < capacity)
unfolding subtable_second_index subtable_first_index
subtable_second_index_lem hash capacity h k =
    let partial = u16 (u32 hash >> 16) in
    let tag = u64 (u16 (((partial >> 1) << 1) + 1) * 0xc6a4a7935bd1e995) in
    let tagged = bit_xor (hash % (capacity / 2)) tag in
    let first = mod-lt hash {m = capacity / 2} (omega arith) in
    let second = mod-lt tagged {m = capacity / 2} (omega arith) in omega (arith, first, second)
