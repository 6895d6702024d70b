-- ===== src/Kv/Log/Records.antt =====
-- What one record of the log does to the memory, and what its tail points to.
use fusee_fs.Prelude.{
  ℕ, ◌+◌, ◌*◌, ◌/◌, ◌%◌, ◌^◌, ◌<◌, ◌≡◌, refl, ap, ◌∙◌, bit_or, bit_and, Bool, false, ◌==◌, ◌&&◌,
  ◌||◌, List, [], ◌∷◌, ◌++◌, get_or, Bool-cases, if_true, if_false, inl, inr, arith,
}
use fusee_fs.Prelude.Word.{◌>>◌}
use fusee_fs.Prelude.Bits.{or_fields, and_mask}
use fusee_fs.Kv.Hash.{convert_40_to_64_bits, convert_64_to_40_bits}
use fusee_fs.Kv.Hash.Slots.{convert_40_to_64_bits-convert_64_to_40_bits}
use fusee_fs.Kv.Subblocks.{Replica, SubblockInfo, tag}
use fusee_fs.Kv.Client.{KvLogTail, RemoteAddr}
use fusee_fs.Kv.Client.Slots.{first_replica, tagged_addr}
use fusee_fs.Kv.Log.{Memory, put_tail, write_tail}

-- Some replica of the subblock is at the address.
unfoldable pub is_at : RemoteAddr → SubblockInfo → Bool
is_at a [] = false
is_at a (r ∷ rs) = ((a.0 == r.server_id) && (a.1 == r.addr)) || is_at a rs

pub write_tail-other :
    (rs : List Replica) (tail : KvLogTail) (mem : Memory) (a : RemoteAddr)
    → is_at a rs ≡ false
    → write_tail rs tail mem a.0 a.1 ≡ mem a.0 a.1
unfolding write_tail is_at put_tail
write_tail-other [] tail mem a h = refl
write_tail-other (r ∷ rs) tail mem a h =
    write_tail-other rs tail (put_tail r tail mem) a (ground (arith, h))
    ∙ if_false ((a.0 == r.server_id) && (a.1 == r.addr)) tail (mem a.0 a.1) (ground (arith, h))

write_tail-kept :
    (rs : List Replica) (tail : KvLogTail) (mem : Memory) (server_id addr : ℕ)
    → mem server_id addr ≡ tail
    → write_tail rs tail mem server_id addr ≡ tail
unfolding write_tail put_tail
write_tail-kept [] tail mem server_id addr h = h
write_tail-kept (r ∷ rs) tail mem server_id addr h =
    write_tail-kept rs tail (put_tail r tail mem) server_id addr
      (elim (Bool-cases ((server_id == r.server_id) && (addr == r.addr))) [
        | inl e ↦ if_true _ tail (mem server_id addr) e
        | inr e ↦ if_false _ tail (mem server_id addr) e ∙ h
      ])

-- A subblock whose first replica has an address of 48 bits, of a block of 256 bytes, that is not 0.
pub record IsPlaced (s : SubblockInfo) : Type 0 where
  pub fits : (first_replica s).1 < 2 ^ 48
  pub aligned : (first_replica s).1 % 256 ≡ 0
  pub present : 0 < (first_replica s).1
  pub server_fits : (first_replica s).0 < 2 ^ 8

pub write_tail-first :
    (rs : List Replica) (tail : KvLogTail) (mem : Memory)
    → IsPlaced rs
    → write_tail rs tail mem (first_replica rs).0 (first_replica rs).1 ≡ tail
unfolding write_tail put_tail first_replica
write_tail-first [] tail mem h = absurd (omega (arith, h.present))
write_tail-first (r ∷ rs) tail mem h =
    write_tail-kept rs tail (put_tail r tail mem) r.server_id r.addr
      (if_true _ tail (mem r.server_id r.addr) (ground arith))

-- The sixth byte of an address of the log is that of the server.
convert_six :
    (a b c d e server_id : ℕ)
    → convert_40_to_64_bits (a ∷ b ∷ c ∷ d ∷ e ∷ server_id ∷ [])
      ≡ convert_40_to_64_bits (a ∷ b ∷ c ∷ d ∷ e ∷ [])
unfolding convert_40_to_64_bits
convert_six a b c d e server_id = refl

convert_tagged :
    (addr server_id : ℕ)
    → addr % 256 ≡ 0
    → server_id < 2 ^ 8
    → convert_64_to_40_bits (addr + server_id) ≡ convert_64_to_40_bits addr
unfolding convert_64_to_40_bits
convert_tagged addr server_id aligned fits =
    let s40 : (addr + server_id) >> 40 ≡ addr >> 40 = omega (arith, aligned, fits) in
    let s32 : (addr + server_id) >> 32 ≡ addr >> 32 = omega (arith, aligned, fits) in
    let s24 : (addr + server_id) >> 24 ≡ addr >> 24 = omega (arith, aligned, fits) in
    let s16 : (addr + server_id) >> 16 ≡ addr >> 16 = omega (arith, aligned, fits) in
    let s8 : (addr + server_id) >> 8 ≡ addr >> 8 = omega (arith, aligned, fits) in
    rw (s40, s32, s24, s16, s8) refl

convert_tagged_bytes :
    (a server_id : ℕ)
    → convert_40_to_64_bits (convert_64_to_40_bits a ++ server_id ∷ [])
      ≡ convert_40_to_64_bits (convert_64_to_40_bits a)
unfolding convert_64_to_40_bits
convert_tagged_bytes a server_id = convert_six _ _ _ _ _ server_id

-- The address that a tail keeps for a subblock leads to its first replica.
pub tagged_addr-tag :
    (s : SubblockInfo)
    → IsPlaced s
    → (get_or (tagged_addr (tag s)) 5 0 ≡ (first_replica s).0)
      × (convert_40_to_64_bits (tagged_addr (tag s)) ≡ (first_replica s).1)
unfolding tagged_addr tag first_replica convert_64_to_40_bits
tagged_addr-tag [] h = absurd (omega (arith, h.present))
tagged_addr-tag (r ∷ rs) h =
    let sum : bit_or r.addr r.server_id ≡ r.addr + r.server_id = tag_sum in
    let low : bit_and (r.addr + r.server_id) 0xFF ≡ r.server_id =
      omega (arith, and_mask 8 (r.addr + r.server_id), h.aligned, h.server_fits) in
    (
      rw sum low,
      rw sum (
          convert_tagged_bytes (r.addr + r.server_id) _
          ∙ ap convert_40_to_64_bits (convert_tagged r.addr r.server_id h.aligned h.server_fits)
          ∙ convert_40_to_64_bits-convert_64_to_40_bits r.addr h.fits h.aligned),
    )
  where
    tag_sum : bit_or r.addr r.server_id ≡ r.addr + r.server_id
    tag_sum =
        let whole : r.addr / 256 * 2 ^ 8 ≡ r.addr = omega (arith, h.aligned) in
        rw whole at (or_fields 8 (r.addr / 256) r.server_id h.server_fits)
