-- ===== src/Fs/Engine/Numbers.antt =====
-- `GetNewInodeId`: which numbers it hands out.
use fusee_fs.Prelude.{ℕ, ◌+◌, ◌*◌, ◌^◌, ◌<◌, ◌≤◌, ◌≡◌, arith}
use fusee_fs.Prelude.Word.{u64, IsU64}
use fusee_fs.Fs.Inode.{inode_id_group_size}
use fusee_fs.Fs.Engine.{Engine, get_new_inode_id}

-- The counters are far from the end of 64 bits.
pub record InRange {S : Type 0} (e : Engine S) : Type 0 where
  pub group : e.inode_id_group < 2 ^ 40
  pub seq : e.inode_id_seq_in_group < 2 ^ 60

pub get_new_inode_id-lt :
    {S : Type 0} (others : Engine S → Engine S) (group : ℕ) (e : Engine S)
    → IsU64 (get_new_inode_id others group e).0
unfolding get_new_inode_id
get_new_inode_id-lt others group e = ground arith

module _ {S : Type 0} (e : Engine S) (range : InRange e) (group : ℕ) where
  -- A thread that is alone gets a number that is not below the counters' position, and the position
  -- moves past it: no number is handed out twice. The group stays what it was.
  get_new_inode_id_fresh :
      let (id, e') = get_new_inode_id (λ s. s) group e in
      (e.inode_id_group * inode_id_group_size + e.inode_id_seq_in_group ≤ id)
      × (id < e'.inode_id_group * inode_id_group_size + e'.inode_id_seq_in_group)
      × (e'.inode_id_group ≡ e.inode_id_group)
  unfolding get_new_inode_id
  get_new_inode_id_fresh = let g = range.group in let s = range.seq in ground arith

  -- Once a group is used up, a thread that is alone never asks for a new one: the number that it gets
  -- lies outside its group, at or past the first number of the next.
  pub get_new_inode_id_overrun :
      inode_id_group_size ≤ e.inode_id_seq_in_group
      → let (id, e') = get_new_inode_id (λ s. s) group e in
        ((e.inode_id_group + 1) * inode_id_group_size ≤ id) × (e'.inode_id_group ≡ e.inode_id_group)
  unfolding get_new_inode_id
  get_new_inode_id_overrun h = let g = range.group in let s = range.seq in ground arith

  -- Where another thread has taken a new group while this one waited for the lock, this one takes a
  -- further group, and drops what was left of the other's.
  get_new_inode_id_skips :
      (others : Engine S → Engine S)
      → inode_id_group_size ≤ e.inode_id_seq_in_group
      → group < 2 ^ 40
      → (others (record e {
        inode_id_seq_in_group = u64 (e.inode_id_seq_in_group + 1);
      })).inode_id_seq_in_group
        < inode_id_group_size
      → let (id, e') = get_new_inode_id others group e in
        (id ≡ group * inode_id_group_size)
        × (e'.inode_id_group ≡ group)
        × (e'.inode_id_seq_in_group ≡ 1)
  unfolding get_new_inode_id
  get_new_inode_id_skips others h g refilled = let s = range.seq in ground arith
