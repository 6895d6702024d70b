-- ===== src/Fs/PathExamples.antt =====
-- The theorems on paths, inodes and keys at concrete texts and numbers, and runs of the functions.
use fusee_fs.Prelude.{◌≡◌, refl, [], ◌∷◌, Bytes, arith}
use fusee_fs.Fs.Path.{
  split_path, separate_last_component, format_path, find_last_slash, add_leading, drop_trailing,
  erase_doubles, collapse,
}
use fusee_fs.Fs.Path.Join.{IsName, join, format_path-join, parent_and_name}
use fusee_fs.Fs.Path.Trailing.{empty_name_after_two_slashes}
use fusee_fs.Fs.Inode.{Inode}

-- "a//b/"
abbrev loose_path : Bytes
loose_path = 97 ∷ 47 ∷ 47 ∷ 98 ∷ 47 ∷ []

format_path-run : format_path loose_path ≡ 47 ∷ 97 ∷ 47 ∷ 98 ∷ []
unfolding format_path add_leading drop_trailing erase_doubles collapse
format_path-run = refl

separate_last_component-run :
    separate_last_component (47 ∷ 97 ∷ 47 ∷ 98 ∷ []) ≡ (47 ∷ 97 ∷ [], 98 ∷ [])
unfolding separate_last_component find_last_slash
separate_last_component-run = refl

short_IsName : IsName (97 ∷ [])
unfolding find_last_slash
short_IsName = record { nonempty = λ h. ground arith; no_slash = refl }

other_IsName : IsName (98 ∷ [])
unfolding find_last_slash
other_IsName = record { nonempty = λ h. ground arith; no_slash = refl }

parent_and_name_example :
    (separate_last_component (format_path (join ((97 ∷ []) ∷ (98 ∷ []) ∷ [])))
      ≡ (join ((97 ∷ []) ∷ []), 98 ∷ []))
    × (split_path (format_path (join ((97 ∷ []) ∷ []))) ≡ (97 ∷ []) ∷ [])
parent_and_name_example = parent_and_name ((97 ∷ []) ∷ []) (98 ∷ []) (short_IsName, tt) other_IsName

format_path-join_example :
    format_path (join ((97 ∷ []) ∷ (98 ∷ []) ∷ [])) ≡ join ((97 ∷ []) ∷ (98 ∷ []) ∷ [])
format_path-join_example =
    format_path-join ((97 ∷ []) ∷ (98 ∷ []) ∷ []) (short_IsName, (other_IsName, tt))

empty_name_after_two_slashes_example :
    (separate_last_component (format_path (47 ∷ 97 ∷ 47 ∷ 47 ∷ []))).1 ≡ []
empty_name_after_two_slashes_example = empty_name_after_two_slashes (47 ∷ 97 ∷ [])

-- A file of user 5 and group 6 that the owner writes and the group reads.
abbrev shared_file : Inode
shared_file = record {
  id = 3;
  size = 0;
  atime = 1;
  mtime = 1;
  ctime = 1;
  children = 0;
  mode = 0o100640;
  uid = 5;
  gid = 6;
}
