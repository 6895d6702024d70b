-- ===== src/Kv/GcSlot.antt =====
-- src/kv_utils.cc: `encode_gc_slot` and `decode_gc_slot`.
use fusee_fs.Prelude.{ℕ, ◌+◌, ◌*◌, ◌/◌, ◌%◌, ◌^◌, ◌≡◌, ◌<◌, bit_and, bit_or, arith}
use fusee_fs.Prelude.Word.{u8, u64, ◌<<◌, ◌>>◌}
use fusee_fs.Prelude.Bits.{or_fields, and_mask}

pub record DecodedClientGcSlot : Type 0 where
  pub pr_addr : ℕ
  pub bk_addr : ℕ
  pub num_subblocks : ℕ

abbrev block_addr_bmask : ℕ
block_addr_bmask = 0x1FFFFF

abbrev block_off_bmask : ℕ
block_off_bmask = 0x3FFFF

abbrev subblock_num_bmask : ℕ
subblock_num_bmask = 0xF

pub encode_gc_slot : DecodedClientGcSlot → ℕ
encode_gc_slot d =
    let masked_block_off = bit_and (d.pr_addr >> 8) block_off_bmask in
    let masked_pr_addr = bit_and (d.pr_addr >> 26) block_addr_bmask in
    let masked_bk_addr = bit_and (d.bk_addr >> 26) block_addr_bmask in
    let masked_num_subblock = bit_and d.num_subblocks subblock_num_bmask in
    bit_or
      (bit_or (bit_or (u64 (masked_block_off << 46)) (u64 (masked_pr_addr << 25)))
        (u64 (masked_bk_addr << 4)))
      masked_num_subblock

pub decode_gc_slot : ℕ → DecodedClientGcSlot
decode_gc_slot e_gc_slot =
    let block_offset = e_gc_slot >> 46 in
    let pr_block_addr = bit_and (e_gc_slot >> 25) block_addr_bmask in
    let bk_block_addr = bit_and (e_gc_slot >> 4) block_addr_bmask in
    let num_subblocks = u8 (bit_and e_gc_slot subblock_num_bmask) in
    record {
      pr_addr = bit_or (u64 (pr_block_addr << 26)) (u64 (block_offset << 8));
      bk_addr = bit_or (u64 (bk_block_addr << 26)) (u64 (block_offset << 8));
      num_subblocks = num_subblocks;
    }

-- What fits in a slot: addresses of 47 bits, of subblocks of 256 bytes that have the same place in
-- their blocks of 64 MB, and at most 15 subblocks.
pub record IsGcSlot (d : DecodedClientGcSlot) : Type 0 where
  pub pr_fits : d.pr_addr < 2 ^ 47
  pub bk_fits : d.bk_addr < 2 ^ 47
  pub aligned : d.pr_addr % 256 ≡ 0
  pub same_offset : d.bk_addr % 2 ^ 26 ≡ d.pr_addr % 2 ^ 26
  pub few : d.num_subblocks < 16

fields :
    (o p b n : ℕ)
    → o < 2 ^ 18
    → p < 2 ^ 21
    → b < 2 ^ 21
    → n < 16
    → bit_or (bit_or (bit_or (u64 (o << 46)) (u64 (p << 25))) (u64 (b << 4))) n
      ≡ ((o * 2 ^ 21 + p) * 2 ^ 21 + b) * 16 + n
fields o p b n ho hp hb hn =
    let s1 : u64 (o << 46) ≡ o * 2 ^ 46 = omega arith in
    let s2 : u64 (p << 25) ≡ p * 2 ^ 25 = omega arith in
    let e2 : bit_or (o * 2 ^ 46) (p * 2 ^ 25) ≡ (o * 2 ^ 21 + p) * 2 ^ 25 =
      omega (arith, or_fields 46 o (p * 2 ^ 25) (omega arith)) in
    let s3 : u64 (b << 4) ≡ b * 2 ^ 4 = omega arith in
    let e3 : bit_or ((o * 2 ^ 21 + p) * 2 ^ 25) (b * 2 ^ 4)
        ≡ ((o * 2 ^ 21 + p) * 2 ^ 21 + b) * 2 ^ 4 =
      omega (arith, or_fields 25 (o * 2 ^ 21 + p) (b * 2 ^ 4) (omega arith)) in
    rw (s1, s2, e2, s3, e3) (omega (arith, or_fields 4 ((o * 2 ^ 21 + p) * 2 ^ 21 + b) n hn))

address :
    (a o : ℕ)
    → a < 2 ^ 21
    → o < 2 ^ 18
    → bit_or (u64 (a << 26)) (u64 (o << 8)) ≡ a * 2 ^ 26 + o * 2 ^ 8
address a o h k =
    let s1 : u64 (a << 26) ≡ a * 2 ^ 26 = omega arith in
    let s2 : u64 (o << 8) ≡ o * 2 ^ 8 = omega arith in
    rw (s1, s2) (or_fields 26 a (o * 2 ^ 8) (omega arith))

slot_eq :
    (d : DecodedClientGcSlot) (p b n : ℕ)
    → p ≡ d.pr_addr
    → b ≡ d.bk_addr
    → n ≡ d.num_subblocks
    → (record { pr_addr = p; bk_addr = b; num_subblocks = n }) ≡ d
slot_eq d p b n h k l = cc

-- A slot that fits is decoded to what was encoded.
pub decode_gc_slot-encode_gc_slot :
    (d : DecodedClientGcSlot) → IsGcSlot d → decode_gc_slot (encode_gc_slot d) ≡ d
unfolding decode_gc_slot encode_gc_slot
decode_gc_slot-encode_gc_slot d fit =
    let o = d.pr_addr / 2 ^ 8 % 2 ^ 18 in
    let p = d.pr_addr / 2 ^ 26 % 2 ^ 21 in
    let b = d.bk_addr / 2 ^ 26 % 2 ^ 21 in
    let code = ((o * 2 ^ 21 + p) * 2 ^ 21 + b) * 16 + d.num_subblocks % 16 in
    let encoded : encode_gc_slot d ≡ code =
      rw
        (
          and_mask 18 (d.pr_addr >> 8),
          and_mask 21 (d.pr_addr >> 26),
          and_mask 21 (d.bk_addr >> 26),
          and_mask 4 d.num_subblocks,
        )
        (fields o p b (d.num_subblocks % 16) (omega arith) (omega arith) (omega arith)
          (omega arith)) in
    let off : code >> 46 ≡ o = omega arith in
    let pr : bit_and (code >> 25) block_addr_bmask ≡ p = omega (arith, and_mask 21 (code >> 25)) in
    let bk : bit_and (code >> 4) block_addr_bmask ≡ b = omega (arith, and_mask 21 (code >> 4)) in
    let num : u8 (bit_and code subblock_num_bmask) ≡ d.num_subblocks =
      omega (arith, and_mask 4 code, fit.few) in
    rw (encoded, off, pr, bk)
      (slot_eq d _ _ _
        (omega (arith, address p o (omega arith) (omega arith), fit.pr_fits, fit.aligned))
        (omega (
          arith,
          address b o (omega arith) (omega arith),
          fit.bk_fits,
          fit.aligned,
          fit.same_offset,
        ))
        num)
