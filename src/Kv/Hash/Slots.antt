-- ===== src/Kv/Hash/Slots.antt =====
-- Slots as numbers, pointers in five bytes, and the free slots of a bucket.
use fusee_fs.Prelude.{ℕ, ◌+◌, ◌*◌, ◌/◌, ◌%◌, ◌^◌, ◌<◌, ◌≡◌, arith}
use fusee_fs.Prelude.{
  refl, suc, zero, ◌⊎◌, get_elem?, some, ◌∙◌, true, List, [], ◌∷◌, bit_or, All, length,
  if◌then◌else◌, Bool-cases, inl, inr,
}
use fusee_fs.Prelude.Word.{u64, IsU8, ◌<<◌, ◌>>◌}
use fusee_fs.Prelude.Bits.{or_fields, and_mask, zero-bit_or}
use fusee_fs.Fs.Inode.{read_le}
use fusee_fs.Kv.Hash.{
  RaceHashSlot, RaceHashBucket, race_hash_assoc_num, convert_40_to_64_bits, convert_64_to_40_bits,
  convert_slot_to_int, is_free, free_slots, get_free_slot_num,
}

-- Five bytes side by side, above a byte of zeros.
convert_bytes :
    (a b c d e : ℕ)
    → IsU8 a
    → IsU8 b
    → IsU8 c
    → IsU8 d
    → IsU8 e
    → convert_40_to_64_bits (a ∷ b ∷ c ∷ d ∷ e ∷ [])
      ≡ ((((a * 256 + b) * 256 + c) * 256 + d) * 256 + e) * 256
unfolding convert_40_to_64_bits
convert_bytes a b c d e ha hb hc hd he =
    let e1 : bit_or 0 (u64 (a << 40)) ≡ a * 2 ^ 40 = omega (arith, zero-bit_or (u64 (a << 40))) in
    let s2 : u64 (b << 32) ≡ b * 2 ^ 32 = omega arith in
    let e2 : bit_or (a * 2 ^ 40) (b * 2 ^ 32) ≡ (a * 256 + b) * 2 ^ 32 =
      omega (arith, or_fields 40 a (b * 2 ^ 32) (omega arith)) in
    let s3 : u64 (c << 24) ≡ c * 2 ^ 24 = omega arith in
    let e3 : bit_or ((a * 256 + b) * 2 ^ 32) (c * 2 ^ 24) ≡ ((a * 256 + b) * 256 + c) * 2 ^ 24 =
      omega (arith, or_fields 32 (a * 256 + b) (c * 2 ^ 24) (omega arith)) in
    let s4 : u64 (d << 16) ≡ d * 2 ^ 16 = omega arith in
    let e4 : bit_or (((a * 256 + b) * 256 + c) * 2 ^ 24) (d * 2 ^ 16)
        ≡ (((a * 256 + b) * 256 + c) * 256 + d) * 2 ^ 16 =
      omega (arith, or_fields 24 ((a * 256 + b) * 256 + c) (d * 2 ^ 16) (omega arith)) in
    let s5 : u64 (e << 8) ≡ e * 2 ^ 8 = omega arith in
    let e5 : bit_or ((((a * 256 + b) * 256 + c) * 256 + d) * 2 ^ 16) (e * 2 ^ 8)
        ≡ ((((a * 256 + b) * 256 + c) * 256 + d) * 256 + e) * 256 =
      omega (arith, or_fields 16 (((a * 256 + b) * 256 + c) * 256 + d) (e * 2 ^ 8) (omega arith)) in
    rw (e1, s2, e2, s3, e3, s4, e4, s5) e5

-- An address of 48 bits, of a block of 256 bytes, comes back from its five bytes.
pub convert_40_to_64_bits-convert_64_to_40_bits :
    (addr : ℕ)
    → addr < 2 ^ 48
    → addr % 256 ≡ 0
    → convert_40_to_64_bits (convert_64_to_40_bits addr) ≡ addr
unfolding convert_64_to_40_bits
convert_40_to_64_bits-convert_64_to_40_bits addr h k =
    let m = and_mask 8 in
    rw (m (addr >> 40), m (addr >> 32), m (addr >> 24), m (addr >> 16), m (addr >> 8))
      (convert_bytes (addr / 2 ^ 40 % 256) (addr / 2 ^ 32 % 256) (addr / 2 ^ 24 % 256)
          (addr / 2 ^ 16 % 256) (addr / 2 ^ 8 % 256) (omega arith) (omega arith) (omega arith)
          (omega arith) (omega arith)
        ∙ omega arith)

-- A slot's fields are bytes, and its pointer has five.
pub record IsSlot (s : RaceHashSlot) : Type 0 where
  pub fp_byte : IsU8 s.fp
  pub len_byte : IsU8 s.kv_len
  pub server_byte : IsU8 s.server_id
  pub pointer_bytes : All IsU8 s.pointer
  pub pointer_length : length s.pointer ≡ 5

slot_eq :
    (s t : RaceHashSlot)
    → Path
        (List ℕ)
        (s.fp ∷ s.kv_len ∷ s.server_id ∷ s.pointer)
        (t.fp ∷ t.kv_len ∷ t.server_id ∷ t.pointer)
    → s ≡ t
slot_eq s t e = cc

read_le_inj :
    (k : ℕ) (xs ys : List ℕ)
    → All IsU8 xs
    → All IsU8 ys
    → length xs ≡ k
    → length ys ≡ k
    → read_le k xs ≡ read_le k ys
    → xs ≡ ys
unfolding read_le
read_le_inj k [] [] p q m n e = refl
read_le_inj k [] (y ∷ ys) p q m n e = absurd (omega arith)
read_le_inj k (x ∷ xs) [] p q m n e = absurd (omega arith)
read_le_inj zero (x ∷ xs) (y ∷ ys) p q m n e = absurd (omega arith)
read_le_inj (suc k) (x ∷ xs) (y ∷ ys) p q m n e =
    let a = p.0 in
    let b = q.0 in
    let rest = read_le_inj k xs ys p.1 q.1 (omega arith) (omega arith) (omega arith) in
    let same : x ≡ y = omega arith in cc (same, rest)

-- Two slots with the same number are the same slot.
pub convert_slot_to_int_inj :
    (s t : RaceHashSlot)
    → IsSlot s
    → IsSlot t
    → convert_slot_to_int s ≡ convert_slot_to_int t
    → s ≡ t
unfolding convert_slot_to_int
convert_slot_to_int_inj s t h k e =
    let same : Path (List ℕ) (s.fp ∷ s.kv_len ∷ s.server_id ∷ s.pointer)
        (t.fp ∷ t.kv_len ∷ t.server_id ∷ t.pointer) =
      read_le_inj 8 _ _ (h.fp_byte, (h.len_byte, (h.server_byte, h.pointer_bytes)))
        (k.fp_byte, (k.len_byte, (k.server_byte, k.pointer_bytes)))
        (omega (arith, h.pointer_length)) (omega (arith, k.pointer_length)) e in
    slot_eq s t same

pub count_free : List RaceHashSlot → ℕ
unfolding is_free
count_free [] = 0
count_free (slot ∷ slots) = (if is_free slot then 1 else 0) + count_free slots

abbrev Found : List RaceHashSlot → ℕ → ℕ → ℕ → Type 0
Found slots i idx j =
    ((count_free slots ≡ 0) × (j ≡ idx))
    ⊎ ((k : ℕ) × (s : RaceHashSlot) × (j ≡ i + k)
        × (get_elem? slots k ≡ some s)
        × (is_free s ≡ true))

zero_add : (k : ℕ) → 0 + k ≡ k
zero_add k = omega arith

free_slots_lem :
    (slots : List RaceHashSlot) (i n idx : ℕ)
    → ((free_slots slots i n idx).0 ≡ n + count_free slots)
      × Found slots i idx (free_slots slots i n idx).1
unfolding free_slots count_free
free_slots_lem [] i n idx = (omega arith, inl (refl, refl))
free_slots_lem (slot ∷ slots) i n idx = elim (Bool-cases (is_free slot)) [
  | inl e ↦
      let (num, found) = free_slots_lem slots (i + 1) (n + 1) i in
      (
        ground (arith, e, num),
        elim found [
          | inl (none_free, at) ↦ inr (0, slot, ground (arith, e, at), refl, e)
          | inr (k, s, at, here, free) ↦ inr (suc k, s, ground (arith, e, at), here, free)
        ],
      )
  | inr e ↦
      let (num, found) = free_slots_lem slots (i + 1) n idx in
      (
        ground (arith, e, num),
        elim found [
          | inl (none_free, at) ↦ inl (ground (arith, e, none_free), ground (arith, e, at))
          | inr (k, s, at, here, free) ↦ inr (suc k, s, ground (arith, e, at), here, free)
        ],
      )
]

-- The number is that of the free slots, and the index is that of a free slot where there is one, and
-- else the number of slots of a bucket.
pub get_free_slot_num_lem :
    (bucket : RaceHashBucket)
    → let (free_num, free_idx) = get_free_slot_num bucket in
      (free_num ≡ count_free bucket.slots)
      × (((free_num ≡ 0) × (free_idx ≡ race_hash_assoc_num))
          ⊎ ((s : RaceHashSlot) × (get_elem? bucket.slots free_idx ≡ some s) × (is_free s ≡ true)))
unfolding get_free_slot_num
get_free_slot_num_lem bucket =
    let (num, found) = free_slots_lem bucket.slots 0 0 race_hash_assoc_num in
    (
      omega (arith, num),
      elim found [
        | inl (none_free, at) ↦ inl (omega (arith, num), at)
        | inr (k, s, at, here, free) ↦ inr (s, rw (at, zero_add k) here, free)
      ],
    )
