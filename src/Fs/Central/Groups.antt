-- ===== src/Fs/Central/Groups.antt =====
-- The groups of inode numbers that the server hands out.
use fusee_fs.Prelude.{ℕ, ◌+◌, ◌*◌, ◌^◌, ◌<◌, ◌≤◌, ◌≡◌, ◌≢◌, zero, suc, arith}
use fusee_fs.Prelude.Word.{u64}
use fusee_fs.Fs.Inode.{inode_id_group_size}
use fusee_fs.Fs.Central.{Central, get_inode_id_group_handler}

-- The server after `n` requests for a group.
pub after_requests : ℕ → Central → Central
after_requests zero c = c
after_requests (suc n) c = after_requests n (get_inode_id_group_handler c).1

group_at :
    (n : ℕ) (c : Central)
    → c.inode_id_group_seq + n < 2 ^ 64
    → (get_inode_id_group_handler (after_requests n c)).0 ≡ c.inode_id_group_seq + n
unfolding get_inode_id_group_handler after_requests
group_at zero c h = omega arith
group_at (suc n) c h = ground (
  arith,
  group_at n (get_inode_id_group_handler c).1 (unfold get_inode_id_group_handler in omega arith),
)

-- Numbers from the groups of two different requests differ, as 64-bit words, where the numbers of all
-- groups up to the later one fit in 64 bits.
pub get_inode_id_group_handler_disjoint :
    (m n : ℕ) (c : Central) (i j : ℕ)
    → (c.inode_id_group_seq + n + 1) * inode_id_group_size ≤ 2 ^ 64
    → m < n
    → i < inode_id_group_size
    → j < inode_id_group_size
    → u64 ((get_inode_id_group_handler (after_requests m c)).0 * inode_id_group_size + i)
      ≢ u64 ((get_inode_id_group_handler (after_requests n c)).0 * inode_id_group_size + j)
get_inode_id_group_handler_disjoint m n c i j h k p q same =
    let a = group_at m c (omega arith) in
    let b = group_at n c (omega arith) in omega (arith, a, b, same)
