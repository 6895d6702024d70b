-- ===== src/Fs/Inode/Layout.antt =====
-- The packed inode can be read back.
use fusee_fs.Prelude.{ℕ, zero, suc, ◌/◌, ◌^◌, ◌<◌, ◌≡◌, refl, ◌++◌, Bytes, arith, drop, length, ap}
use fusee_fs.Prelude.Word.{IsU32, IsU64}
use native.Mathlib.Nat.{pow-suc}
use fusee_fs.Fs.Inode.{Inode, le_bytes, read_le, encode_inode, decode_inode}

read_le-le_bytes : (k n : ℕ) (rest : Bytes) → n < 256 ^ k → read_le k (le_bytes k n ++ rest) ≡ n
unfolding le_bytes read_le
read_le-le_bytes zero n rest h = omega arith
read_le-le_bytes (suc k) n rest h =
    omega (arith, read_le-le_bytes k (n / 256) rest (omega (arith, pow-suc 256 k)))

length-le_bytes : (k n : ℕ) → length (le_bytes k n) ≡ k
unfolding le_bytes
length-le_bytes zero n = refl
length-le_bytes (suc k) n = ap suc (length-le_bytes k (n / 256))

-- The fields fit their widths.
pub record IsInode (i : Inode) : Type 0 where
  pub id : IsU64 i.id
  pub size : IsU64 i.size
  pub atime : IsU64 i.atime
  pub mtime : IsU64 i.mtime
  pub ctime : IsU64 i.ctime
  pub children : IsU64 i.children
  pub mode : IsU32 i.mode
  pub uid : IsU32 i.uid
  pub gid : IsU32 i.gid

pub read_le-id : (n : ℕ) → IsU64 n → read_le 8 (le_bytes 8 n) ≡ n
unfolding le_bytes read_le
read_le-id n h = omega arith

-- An inode whose fields fit their widths is read back from its bytes unchanged.
pub decode_inode-encode_inode : (i : Inode) → IsInode i → decode_inode (encode_inode i) ≡ i
unfolding encode_inode decode_inode
decode_inode-encode_inode i h =
    let s = encode_inode i in
    let e₁ : read_le 8 s ≡ i.id = omega arith in
    let e₂ : read_le 8 (drop 8 s) ≡ i.size = omega arith in
    let e₃ : read_le 8 (drop 16 s) ≡ i.atime = omega arith in
    let e₄ : read_le 8 (drop 24 s) ≡ i.mtime = omega arith in
    let e₅ : read_le 8 (drop 32 s) ≡ i.ctime = omega arith in
    let e₆ : read_le 8 (drop 40 s) ≡ i.children = omega arith in
    let e₇ : read_le 4 (drop 48 s) ≡ i.mode = omega arith in
    let e₈ : read_le 4 (drop 52 s) ≡ i.uid = omega arith in
    let e₉ : read_le 4 (drop 56 s) ≡ i.gid = omega arith in
    λ j. record {
      id = e₁ j;
      size = e₂ j;
      atime = e₃ j;
      mtime = e₄ j;
      ctime = e₅ j;
      children = e₆ j;
      mode = e₇ j;
      uid = e₈ j;
      gid = e₉ j;
    }
