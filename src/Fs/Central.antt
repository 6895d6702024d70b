-- ===== src/Fs/Central.antt =====
-- fs/central/central.cc: the handlers of the central server, run one at a time by its event loop. A
-- handler returns what it writes into the response, and the server after it.
pub mod Exclusion
pub mod Groups
use fusee_fs.Prelude.{ℕ, ◌+◌, Bool, true, false, List, [], ◌∷◌, ◌==◌, if◌then◌else◌}
use fusee_fs.Prelude.Word.{u64}

pub record Central : Type 0 where
  pub lock_set : List ℕ
  pub inode_id_group_seq : ℕ

-- `count` and `erase` of the set of numbers, which is a list here.
unfoldable pub contains : ℕ → List ℕ → Bool
contains id [] = false
contains id (j ∷ s) = if j == id then true else contains id s

pub erase : ℕ → List ℕ → List ℕ
erase id [] = []
erase id (j ∷ s) = let rest = erase id s in if j == id then rest else j ∷ rest

unfoldable pub lock_handler : ℕ → Central → ℕ × Central
unfolding contains
lock_handler id c =
    if contains id c.lock_set then (1, c) else (0, record c { lock_set = id ∷ c.lock_set })

pub unlock_handler : ℕ → Central → ℕ × Central
unfolding erase
unlock_handler id c = (0, record c { lock_set = erase id c.lock_set })

pub get_inode_id_group_handler : Central → ℕ × Central
get_inode_id_group_handler c =
    (c.inode_id_group_seq, record c { inode_id_group_seq = u64 (c.inode_id_group_seq + 1) })
