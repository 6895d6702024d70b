-- ===== src/Fs/Inode/Permission.antt =====
-- The permission tests against the nine mode bits.
use fusee_fs.Prelude.{
  ℕ, ◌+◌, ◌*◌, ◌/◌, ◌%◌, ◌^◌, ◌≡◌, ◌<◌, ◌⊎◌, ◌↔◌, true, false, bit_and, bit_or, arith, ◌==◌, not,
  if◌then◌else◌,
}
use native.Mathlib.Nat.{one-le-pow}
use fusee_fs.Prelude.Bits.{and_mask, and_high_mask, or_fields}
use fusee_fs.Fs.Inode.{
  Inode, is_dir, is_file, s_ifdir, s_ifreg, check_read_permission, check_write_permission,
}

-- Who a caller is to an inode.
pub data Party : Type 0 where
  owner group others : Party

pub party : Inode → ℕ → ℕ → Party
party i uid gid = if uid == i.uid then owner else if gid == i.gid then group else others

-- The place of a party's write bit; the read bit stands one above.
abbrev pub write_bit : Party → ℕ
write_bit owner = 7
write_bit group = 4
write_bit others = 1

abbrev pub HasBit : ℕ → ℕ → Type 0
HasBit mode k = mode / 2 ^ k % 2 ≡ 1

digit_scaled : (d p : ℕ) → d < 2 → (d ≡ 0 → d * p ≡ 0) × (d ≡ 1 → d * p ≡ p)
digit_scaled d p h = grind arith

bit_test : (k mode : ℕ) → (not (bit_and mode (1 * 2 ^ k) == 0) ≡ true) ↔ HasBit mode k
bit_test k mode = ground (
  arith,
  and_high_mask k mode 1,
  and_mask 1 (mode / 2 ^ k),
  one-le-pow k 2,
  digit_scaled (mode / 2 ^ k % 2) (2 ^ k),
)

-- Reading is allowed to root, and to others exactly where the read bit of their party is set.
pub check_read_permission_iff :
    (i : Inode) (uid gid : ℕ)
    → (check_read_permission i uid gid ≡ true)
      ↔ ((uid ≡ 0) ⊎ HasBit i.mode (write_bit (party i uid gid) + 1))
unfolding check_read_permission party
check_read_permission_iff i uid gid =
    ground (arith, bit_test 8 i.mode, bit_test 5 i.mode, bit_test 2 i.mode)

-- Writing is allowed to root, and to others exactly where the write bit of their party is set.
check_write_permission_iff :
    (i : Inode) (uid gid : ℕ)
    → (check_write_permission i uid gid ≡ true)
      ↔ ((uid ≡ 0) ⊎ HasBit i.mode (write_bit (party i uid gid)))
unfolding check_write_permission party
check_write_permission_iff i uid gid =
    ground (arith, bit_test 7 i.mode, bit_test 4 i.mode, bit_test 1 i.mode)

type_field :
    (t mode : ℕ)
    → mode < 2 ^ 12
    → t < 16
    → bit_and (bit_or (t * 2 ^ 12) mode) (15 * 2 ^ 12) ≡ t * 2 ^ 12
type_field t mode h k = omega (
  arith,
  or_fields 12 t mode h,
  and_high_mask 12 (bit_or (t * 2 ^ 12) mode) 15,
  and_mask 4 (bit_or (t * 2 ^ 12) mode / 2 ^ 12),
)

-- A mode that is built from permission bits alone is a directory's, or a regular file's, and not
-- both.
pub mode_types :
    (mode : ℕ)
    → mode < 2 ^ 12
    → (is_dir (bit_or s_ifdir mode) ≡ true)
      × (is_file (bit_or s_ifdir mode) ≡ false)
      × (is_file (bit_or s_ifreg mode) ≡ true)
      × (is_dir (bit_or s_ifreg mode) ≡ false)
unfolding is_dir is_file
mode_types mode h = ground (arith, type_field 4 mode h, type_field 8 mode h)
