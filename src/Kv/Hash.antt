-- ===== src/Kv/Hash.antt =====
-- src/hashtable.h and src/hashtable.cc: slots and buckets of the hash index, the two bucket indices
-- of a key, and the hash of a key. A pointer into memory is the list of the bytes from there.
pub mod Index
pub mod Slots
pub mod Key
use fusee_fs.Prelude.{
  ℕ, zero, suc, ◌+◌, ◌-◌, ◌*◌, ◌/◌, ◌%◌, ◌^◌, bit_and, bit_or, bit_xor, Bool, true, false, not,
  ◌&&◌, List, [], ◌∷◌, Bytes, bytes_eq, length, drop, take, get_or, ltb, leb, ◌==◌, if◌then◌else◌,
}
use fusee_fs.Prelude.Word.{u8, u16, u32, u64, sub64, ◌<<◌, ◌>>◌}
use fusee_fs.Fs.Inode.{read_le}

abbrev pub race_hash_assoc_num : ℕ
race_hash_assoc_num = 7

pub record RaceHashSlot : Type 0 where
  pub fp : ℕ
  pub kv_len : ℕ
  pub server_id : ℕ
  pub pointer : List ℕ

pub record RaceHashBucket : Type 0 where
  pub local_depth : ℕ
  pub prefix : ℕ
  pub slots : List RaceHashSlot

unfoldable pub subtable_first_index : ℕ → ℕ → ℕ
subtable_first_index hash_value capacity = hash_value % (capacity / 2)

unfoldable pub subtable_second_index : ℕ → ℕ → ℕ → ℕ
subtable_second_index hash_value f_index capacity =
    let hash = u32 hash_value in
    let partial = u16 (hash >> 16) in
    let nonzero_tag = u16 (((partial >> 1) << 1) + 1) in
    let hash_of_tag = u64 (nonzero_tag * 0xc6a4a7935bd1e995) in
    u64 (bit_xor f_index hash_of_tag % (capacity / 2) + capacity / 2)

-- A 48-bit address of a block of 256 bytes, in five bytes, the highest first.
unfoldable pub convert_40_to_64_bits : List ℕ → ℕ
convert_40_to_64_bits addr =
    bit_or
      (bit_or
        (bit_or (bit_or (bit_or 0 (u64 (get_or addr 0 0 << 40))) (u64 (get_or addr 1 0 << 32)))
          (u64 (get_or addr 2 0 << 24)))
        (u64 (get_or addr 3 0 << 16)))
      (u64 (get_or addr 4 0 << 8))

unfoldable pub convert_64_to_40_bits : ℕ → List ℕ
convert_64_to_40_bits addr =
    bit_and (addr >> 40) 0xFF
    ∷ bit_and (addr >> 32) 0xFF
    ∷ bit_and (addr >> 24) 0xFF
    ∷ bit_and (addr >> 16) 0xFF
    ∷ bit_and (addr >> 8) 0xFF
    ∷ []

-- The server and the address of what a slot points to.
unfoldable pub convert_slot_to_addr : RaceHashSlot → ℕ × ℕ
unfolding convert_40_to_64_bits
convert_slot_to_addr slot = (slot.server_id, convert_40_to_64_bits slot.pointer)

-- The eight bytes of the packed slot as a number, the lowest first.
unfoldable pub convert_slot_to_int : RaceHashSlot → ℕ
unfolding read_le
convert_slot_to_int slot = read_le 8 (slot.fp ∷ slot.kv_len ∷ slot.server_id ∷ slot.pointer)

unfoldable pub is_empty_pointer : List ℕ → ℕ → Bool
is_empty_pointer pointer zero = true
is_empty_pointer [] (suc num) = true
is_empty_pointer (b ∷ pointer) (suc num) =
    let rest = is_empty_pointer pointer num in if not (b == 0) then false else rest

unfoldable pub is_free : RaceHashSlot → Bool
unfolding is_empty_pointer
is_free slot = (slot.fp == 0) && ((slot.kv_len == 0) && is_empty_pointer slot.pointer 5)

-- The loop, from index `i`: how many slots are free, and the last of them.
unfoldable pub free_slots : List RaceHashSlot → ℕ → ℕ → ℕ → ℕ × ℕ
unfolding is_free
free_slots [] i free_num free_idx = (free_num, free_idx)
free_slots (slot ∷ slots) i free_num free_idx =
    if is_free slot
    then free_slots slots (i + 1) (free_num + 1) i
    else free_slots slots (i + 1) free_num free_idx

unfoldable pub get_free_slot_num : RaceHashBucket → ℕ × ℕ
unfolding free_slots
get_free_slot_num bucket = free_slots bucket.slots 0 0 race_hash_assoc_num

unfoldable pub compute_fp : ℕ → ℕ
compute_fp hash =
    let hash₁ = hash >> 48 in
    let fp = u8 (bit_xor 0 hash₁) in let hash₂ = hash₁ >> 8 in u8 (bit_xor fp hash₂)

abbrev number_1 : ℕ
number_1 = 11400714785074694791

abbrev number_2 : ℕ
number_2 = 14029467366897019727

abbrev number_3 : ℕ
number_3 = 1609587929392839161

abbrev number_4 : ℕ
number_4 = 9650029242287828579

abbrev number_5 : ℕ
number_5 = 2870177450012600261

unfoldable pub hash_read64_align : Bytes → ℕ → ℕ
unfolding read_le
hash_read64_align p align = if align == 0 then read_le 8 p else read_le 8 p

unfoldable pub hash_read32_align : Bytes → ℕ → ℕ
unfolding read_le
hash_read32_align p align = if align == 0 then read_le 4 p else read_le 4 p

unfoldable pub shifting_hash : ℕ → ℕ → ℕ
shifting_hash x r = bit_or (u64 (x << r)) (x >> (64 - r))

-- The four lanes `v1` to `v4`.
pub record Lanes : Type 0 where
  pub v1 : ℕ
  pub v2 : ℕ
  pub v3 : ℕ
  pub v4 : ℕ

unfoldable pub lane_round : ℕ → ℕ → ℕ
unfolding shifting_hash
lane_round v k = u64 (shifting_hash (u64 (v + u64 (k * number_2))) 31 * number_1)

-- The loop over 32 bytes at a time, on fuel: the length of the text is enough, since every round takes
-- 32 bytes off it.
unfoldable pub stripes : ℕ → ℕ → Bytes → Lanes → Bytes × Lanes
unfolding hash_read64_align lane_round
stripes zero align p v = (p, v)
stripes (suc fuel) align p v =
    let v' : Lanes = record {
      v1 = lane_round v.v1 (hash_read64_align p align);
      v2 = lane_round v.v2 (hash_read64_align (drop 8 p) align);
      v3 = lane_round v.v3 (hash_read64_align (drop 16 p) align);
      v4 = lane_round v.v4 (hash_read64_align (drop 24 p) align);
    } in
    let rest = stripes fuel align (drop 32 p) v' in
    if leb 32 (length (drop 32 p)) then rest else (drop 32 p, v')

unfoldable pub merge_lane : ℕ → ℕ → ℕ
unfolding shifting_hash
merge_lane hash v =
    let v' = u64 (shifting_hash (u64 (v * number_2)) 31 * number_1) in
    u64 (bit_xor hash v' * number_1 + number_4)

unfoldable pub merge_lanes : Lanes → ℕ
unfolding merge_lane shifting_hash
merge_lanes v =
    let hash = u64 (
      shifting_hash v.v1 1
      + shifting_hash v.v2 7
      + shifting_hash v.v3 12
      + shifting_hash v.v4 18) in
    merge_lane (merge_lane (merge_lane (merge_lane hash v.v1) v.v2) v.v3) v.v4

-- The loop over 8 bytes at a time, on the same fuel.
unfoldable pub hash_words : ℕ → ℕ → Bytes → ℕ → Bytes × ℕ
unfolding hash_read64_align shifting_hash
hash_words zero align p hash = (p, hash)
hash_words (suc fuel) align p hash =
    let k1 = u64 (shifting_hash (u64 (hash_read64_align p align * number_2)) 31 * number_1) in
    let rest =
      hash_words fuel align (drop 8 p)
        (u64 (shifting_hash (bit_xor hash k1) 27 * number_1 + number_4)) in
    if leb 8 (length p) then rest else (p, hash)

unfoldable pub hash_half_word : ℕ → Bytes → ℕ → Bytes × ℕ
unfolding hash_read32_align shifting_hash
hash_half_word align p hash =
    if leb 4 (length p)
    then (
      drop 4 p,
      u64 (
          shifting_hash (bit_xor hash (u64 (hash_read32_align p align * number_1))) 23 * number_2
          + number_3),
    )
    else (p, hash)

unfoldable pub hash_bytes : Bytes → ℕ → ℕ
unfolding shifting_hash
hash_bytes [] hash = hash
hash_bytes (b ∷ p) hash =
    hash_bytes p (u64 (shifting_hash (bit_xor hash (u64 (b * number_5))) 11 * number_1))

unfoldable pub hash_finish : ℕ → ℕ
hash_finish h =
    let h₁ = bit_xor h (h >> 33) in
    let h₂ = u64 (h₁ * number_2) in
    let h₃ = bit_xor h₂ (h₂ >> 29) in let h₄ = u64 (h₃ * number_3) in bit_xor h₄ (h₄ >> 32)

unfoldable pub hash_lanes : ℕ → Bytes → Lanes → Bytes × ℕ
unfolding stripes merge_lanes
hash_lanes align text v = let (p, v') = stripes (length text) align text v in (p, merge_lanes v')

-- The head of the function: what is left of the text, and the hash so far.
unfoldable pub hash_start : ℕ → Bytes → ℕ → Bytes × ℕ
unfolding hash_lanes
hash_start align text seed =
    if leb 32 (length text)
    then hash_lanes align text (record {
      v1 = u64 (u64 (seed + number_1) + number_2);
      v2 = u64 (seed + number_2);
      v3 = seed;
      v4 = sub64 seed number_1;
    })
    else (text, u64 (seed + number_5))

unfoldable pub string_key_hash_computation : Bytes → ℕ → ℕ → ℕ
unfolding hash_start hash_words hash_half_word hash_bytes hash_finish
string_key_hash_computation text seed align =
    let (p, hash) = hash_start align text seed in
    let (p₁, hash₁) = hash_words (length p) align p (u64 (hash + length text)) in
    let (p₂, hash₂) = hash_half_word align p₁ hash₁ in hash_finish (hash_bytes p₂ hash₂)

-- `address` is where the text stands.
unfoldable pub variable_length_hash : ℕ → Bytes → ℕ → ℕ
unfolding string_key_hash_computation
variable_length_hash address text seed =
    if bit_and address 7 == 0
    then string_key_hash_computation text seed 1
    else string_key_hash_computation text seed 0

-- `CheckKey`, of two texts that begin with the keys and have at least their lengths.
unfoldable pub check_key : ℕ → Bytes → ℕ → ℕ → Bytes → ℕ → Bool
unfolding variable_length_hash
check_key r_key_addr r_key r_key_len l_key_addr l_key l_key_len =
    if not (r_key_len == l_key_len)
    then false
    else if not (
        variable_length_hash r_key_addr (take r_key_len r_key) 0
        == variable_length_hash l_key_addr (take l_key_len l_key) 0)
    then false
    else bytes_eq (take r_key_len r_key) (take r_key_len l_key)
