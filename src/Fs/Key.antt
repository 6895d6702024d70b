-- ===== src/Fs/Key.antt =====
-- The keys of fs/engine/engine.h: `GetDentryKey` and `GetInodeKey`.
pub mod Distinct
use fusee_fs.Prelude.{ℕ, zero, suc, ◌+◌, ◌/◌, ◌%◌, [], ◌∷◌, ◌++◌, Bytes, ltb, if◌then◌else◌}
use fusee_fs.Fs.Path.{slash}

-- The decimal digits of `n`, the highest first, by at most `fuel` divisions.
unfoldable pub decimal : ℕ → ℕ → Bytes
decimal zero n = []
decimal (suc fuel) n =
    let more = decimal fuel (n / 10) ++ (b'0' + n % 10) ∷ [] in
    if ltb n 10 then (b'0' + n) ∷ [] else more

-- `std::to_string` of a 64-bit number: 20 digits are enough.
unfoldable pub to_string : ℕ → Bytes
unfolding decimal
to_string n = decimal 20 n

unfoldable pub dentry_key : ℕ → Bytes → Bytes
unfolding to_string
dentry_key pid name = to_string pid ++ slash ∷ name

unfoldable pub inode_key : ℕ → Bytes
unfolding to_string
inode_key id = to_string id
