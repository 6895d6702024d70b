-- ===== src/Fs/Inode.antt =====
-- fs/common/type.h and fs/common/meta.cc: the inode, its packed layout, and the permission tests.
-- The mode bits are those of <sys/stat.h>.
pub mod Layout
pub mod Permission
use fusee_fs.Prelude.{
  ℕ, zero, suc, ◌+◌, ◌*◌, ◌/◌, ◌%◌, Bool, true, not, List, [], ◌∷◌, ◌++◌, Bytes, bit_and, bit_or,
  drop, ◌==◌, if◌then◌else◌,
}

pub record Inode : Type 0 where
  pub id : ℕ
  pub size : ℕ
  pub atime : ℕ
  pub mtime : ℕ
  pub ctime : ℕ
  pub children : ℕ
  pub mode : ℕ
  pub uid : ℕ
  pub gid : ℕ

abbrev pub inode_id_group_size : ℕ
inode_id_group_size = 1024 * 1024

abbrev pub root_inode_id : ℕ
root_inode_id = 0

abbrev pub s_ifmt : ℕ
s_ifmt = 0o170000

abbrev pub s_ifdir : ℕ
s_ifdir = 0o040000

abbrev pub s_ifreg : ℕ
s_ifreg = 0o100000

unfoldable pub is_file : ℕ → Bool
is_file mode = bit_and mode s_ifmt == s_ifreg

unfoldable pub is_dir : ℕ → Bool
is_dir mode = bit_and mode s_ifmt == s_ifdir

unfoldable pub check_read_permission : Inode → ℕ → ℕ → Bool
check_read_permission inode uid gid =
    if uid == 0
    then true
    else if uid == inode.uid
    then not (bit_and inode.mode 0o400 == 0)
    else if gid == inode.gid
    then not (bit_and inode.mode 0o040 == 0)
    else not (bit_and inode.mode 0o004 == 0)

unfoldable pub check_write_permission : Inode → ℕ → ℕ → Bool
check_write_permission inode uid gid =
    if uid == 0
    then true
    else if uid == inode.uid
    then not (bit_and inode.mode 0o200 == 0)
    else if gid == inode.gid
    then not (bit_and inode.mode 0o020 == 0)
    else not (bit_and inode.mode 0o002 == 0)

-- `n` as `k` bytes, the lowest first, and back. Bytes past the end of a text read as 0; the engine
-- reads no shorter value than it wrote.
unfoldable pub le_bytes : ℕ → ℕ → Bytes
le_bytes zero n = []
le_bytes (suc k) n = n % 256 ∷ le_bytes k (n / 256)

unfoldable pub read_le : ℕ → Bytes → ℕ
read_le zero s = 0
read_le (suc k) [] = 0
read_le (suc k) (b ∷ s) = b + 256 * read_le k s

-- The bytes of the packed struct: six 64-bit fields, then three of 32 bits. The source hands over the
-- struct's address and reads a value through a cast; these two are the model's rendering of that.
unfoldable pub encode_inode : Inode → Bytes
unfolding le_bytes
encode_inode i =
    le_bytes 8 i.id
    ++ (le_bytes 8 i.size
        ++ (le_bytes 8 i.atime
            ++ (le_bytes 8 i.mtime
                ++ (le_bytes 8 i.ctime
                    ++ (le_bytes 8 i.children
                        ++ (le_bytes 4 i.mode ++ (le_bytes 4 i.uid ++ le_bytes 4 i.gid)))))))

unfoldable pub decode_inode : Bytes → Inode
unfolding read_le
decode_inode s = record {
  id = read_le 8 s;
  size = read_le 8 (drop 8 s);
  atime = read_le 8 (drop 16 s);
  mtime = read_le 8 (drop 24 s);
  ctime = read_le 8 (drop 32 s);
  children = read_le 8 (drop 40 s);
  mode = read_le 4 (drop 48 s);
  uid = read_le 4 (drop 52 s);
  gid = read_le 4 (drop 56 s);
}
