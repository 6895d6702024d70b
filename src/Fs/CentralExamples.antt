-- ===== src/Fs/CentralExamples.antt =====
-- The lock server with two clients.
use fusee_fs.Prelude.{ℕ, ◌+◌, ◌*◌, ◌≡◌, ◌≢◌, ◌↔◌, refl, true, [], ◌∷◌, arith}
use fusee_fs.Prelude.Word.{u64}
use fusee_fs.Fs.Inode.{inode_id_group_size}
use fusee_fs.Fs.Central.{contains, lock_handler, get_inode_id_group_handler}
use fusee_fs.Fs.Central.Exclusion.{
  World, holds, Reached, start, next, granted, refused, lock_handler_exclusive,
  lock_handler_refuses,
}
use fusee_fs.Fs.Central.Groups.{after_requests, get_inode_id_group_handler_disjoint}

abbrev empty_world : World
empty_world = record { central = record { lock_set = []; inode_id_group_seq = 0 }; held = [] }

-- Client 1 holds number 7, and client 2 was refused it.
abbrev locked_world : World
locked_world = record {
  central = record { lock_set = 7 ∷ []; inode_id_group_seq = 0 };
  held = (1, 7) ∷ [];
}

locked-Reached : Reached locked_world
unfolding lock_handler contains
locked-Reached = next (next (start 0) (granted 1 7 refl)) (refused 2 7 refl)

lock_handler_exclusive_example : ◌≡◌ {A = ℕ} 1 1
unfolding holds
lock_handler_exclusive_example = lock_handler_exclusive 1 1 7 locked-Reached refl refl

lock_handler_refuses_example :
    ((lock_handler 7 locked_world.central).0 ≡ 1) ↔ ((c : ℕ) × (holds c 7 locked_world.held ≡ true))
lock_handler_refuses_example = lock_handler_refuses 7 locked-Reached

get_inode_id_group_handler_disjoint_example :
    u64 (
      (get_inode_id_group_handler (after_requests 0 empty_world.central)).0 * inode_id_group_size
      + 5)
    ≢ u64 (
        (get_inode_id_group_handler (after_requests 2 empty_world.central)).0 * inode_id_group_size
        + 3)
get_inode_id_group_handler_disjoint_example =
    get_inode_id_group_handler_disjoint 0 2 empty_world.central 5 3 (omega arith) (omega arith)
      (omega arith) (omega arith)
