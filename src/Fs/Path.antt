-- ===== src/Fs/Path.antt =====
-- fs/common/path.cc: paths as byte strings.
pub mod Format
pub mod Split
pub mod Join
pub mod Trailing
use fusee_fs.Prelude.{
  ℕ, zero, suc, ◌+◌, Bool, true, false, ◌&&◌, Option, none, some, List, [], ◌∷◌, Bytes, take, drop,
  ◌==◌, if◌then◌else◌,
}

abbrev pub slash : ℕ
slash = b'/'

-- What `std::getline(ss, comp, '/')` cuts a text into: the first piece, and those after it.
unfoldable pub pieces : Bytes → Bytes × List Bytes
pieces [] = ([], [])
pieces (c ∷ s) =
    let (piece, rest) = pieces s in if c == slash then ([], piece ∷ rest) else (c ∷ piece, rest)

-- `if (!comp.empty()) components.push_back(comp)`
unfoldable pub push_nonempty : Bytes → List Bytes → List Bytes
push_nonempty [] rest = rest
push_nonempty (c ∷ s) rest = (c ∷ s) ∷ rest

unfoldable pub keep_nonempty : List Bytes → List Bytes
keep_nonempty [] = []
keep_nonempty (p ∷ ps) = push_nonempty p (keep_nonempty ps)

unfoldable pub split_path : Bytes → List Bytes
unfolding pieces push_nonempty keep_nonempty
split_path path = let (piece, rest) = pieces path in keep_nonempty (piece ∷ rest)

-- `path.find_last_of('/')`
unfoldable pub find_last_slash : Bytes → Option ℕ
find_last_slash [] = none
find_last_slash (c ∷ s) = elim (find_last_slash s) [
  | some pos ↦ some (suc pos)
  | none ↦ if c == slash then some 0 else none
]

unfoldable pub separate_last_component : Bytes → Bytes × Bytes
unfolding find_last_slash
separate_last_component path = elim (find_last_slash path) [
  | none ↦ ([], path)
  | some pos ↦ (take pos path, drop (pos + 1) path)
]

-- `if (front() != '/') insert(begin(), '/')`, on a text that is not empty.
unfoldable pub add_leading : Bytes → Bytes
add_leading [] = []
add_leading (c ∷ s) = if c == slash then c ∷ s else slash ∷ c ∷ s

-- `if (back() == '/') pop_back()`: one trailing slash at most.
unfoldable pub drop_trailing : Bytes → Bytes
drop_trailing [] = []
drop_trailing (c ∷ []) = if c == slash then [] else c ∷ []
drop_trailing (c ∷ d ∷ s) = c ∷ drop_trailing (d ∷ s)

-- The loop from index 1: `prev` is the byte before the rest of the text. Where a slash is erased
-- the byte before is a slash too, so the next round has the same `prev` on both branches.
unfoldable pub erase_doubles : ℕ → Bytes → Bytes
erase_doubles prev [] = []
erase_doubles prev (c ∷ s) =
    let rest = erase_doubles c s in if (c == slash) && (prev == slash) then rest else c ∷ rest

unfoldable pub collapse : Bytes → Bytes
collapse [] = []
collapse (c ∷ s) = c ∷ erase_doubles c s

unfoldable pub format_path : Bytes → Bytes
unfolding add_leading drop_trailing erase_doubles collapse
format_path path = collapse (drop_trailing (add_leading path))
