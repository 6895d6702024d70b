-- ===== src/Fs/Key/Distinct.antt =====
-- No two objects of the file system share a key.
use fusee_fs.Prelude.{
  ℕ, zero, suc, ◌+◌, ◌-◌, ◌*◌, ◌/◌, ◌%◌, ◌^◌, ◌<◌, ◌≡◌, ◌≢◌, refl, ap, [], ◌∷◌, ◌++◌, Bytes, All,
  All-append, arith,
}
use native.Mathlib.Nat.{pow-suc}
use fusee_fs.Prelude.Word.{IsU64}
use fusee_fs.Fs.Path.{slash}
use fusee_fs.Fs.Key.{decimal, to_string, dentry_key, inode_key}

-- The number that a text of digits stands for.
value_from : ℕ → Bytes → ℕ
value_from acc [] = acc
value_from acc (d ∷ s) = value_from (10 * acc + (d - b'0')) s

value_from-append :
    (acc : ℕ) (s : Bytes) (d : ℕ)
    → value_from acc (s ++ d ∷ []) ≡ 10 * value_from acc s + (d - b'0')
unfolding value_from
value_from-append acc [] d = refl
value_from-append acc (c ∷ s) d = value_from-append (10 * acc + (c - b'0')) s d

value-decimal : (fuel n : ℕ) → n < 10 ^ fuel → value_from 0 (decimal fuel n) ≡ n
unfolding decimal value_from
value-decimal zero n h = omega arith
value-decimal (suc fuel) n h = ground (
  arith,
  value_from-append 0 (decimal fuel (n / 10)) (b'0' + n % 10),
  value-decimal fuel (n / 10) (omega (arith, pow-suc 10 fuel)),
)

-- Numbers of 64 bits have different texts.
pub to_string_inj : (m n : ℕ) → IsU64 m → IsU64 n → to_string m ≡ to_string n → m ≡ n
unfolding to_string
to_string_inj m n hm hn e =
    omega (
      arith,
      value-decimal 20 m (omega arith),
      value-decimal 20 n (omega arith),
      ap (value_from 0) e,
    )

abbrev NotSlash : ℕ → Type 0
NotSlash c = c ≢ slash

decimal-NotSlash : (fuel n : ℕ) → All NotSlash (decimal fuel n)
unfolding decimal
decimal-NotSlash zero n = tt
decimal-NotSlash (suc fuel) n =
    let more =
      All-append NotSlash (decimal fuel (n / 10)) ((b'0' + n % 10) ∷ [])
        (decimal-NotSlash fuel (n / 10)) (omega arith, tt) in
    ground (arith, more)

to_string-NotSlash : (n : ℕ) → All NotSlash (to_string n)
unfolding to_string
to_string-NotSlash n = decimal-NotSlash 20 n

-- What stands before the first slash, and after it, is determined.
before_slash :
    (p q x y : Bytes)
    → All NotSlash p
    → All NotSlash q
    → p ++ slash ∷ x ≡ q ++ slash ∷ y
    → (p ≡ q) × (x ≡ y)
before_slash [] [] x y hp hq e = ground arith
before_slash [] (d ∷ q) x y hp hq e = ground arith
before_slash (c ∷ p) [] x y hp hq e = ground arith
before_slash (c ∷ p) (d ∷ q) x y hp hq e = ground (arith, before_slash p q x y hp.1 hq.1)

no_slash_in : (p q x : Bytes) → All NotSlash p → p ≢ q ++ slash ∷ x
no_slash_in [] [] x h e = cc
no_slash_in [] (d ∷ q) x h e = cc
no_slash_in (c ∷ p) [] x h e = ground arith
no_slash_in (c ∷ p) (d ∷ q) x h e = no_slash_in p q x h.1 (ground arith)

-- Entries of different directories, or with different names, have different keys.
dentry_key_inj :
    (m n : ℕ) (x y : Bytes)
    → IsU64 m
    → IsU64 n
    → dentry_key m x ≡ dentry_key n y
    → (m ≡ n) × (x ≡ y)
unfolding dentry_key
dentry_key_inj m n x y hm hn e =
    let (p, q) =
      before_slash (to_string m) (to_string n) x y (to_string-NotSlash m) (to_string-NotSlash n)
        e in
    (to_string_inj m n hm hn p, q)

-- Inodes with different numbers have different keys.
pub inode_key_inj : (m n : ℕ) → IsU64 m → IsU64 n → inode_key m ≡ inode_key n → m ≡ n
unfolding inode_key
inode_key_inj = to_string_inj

-- No inode has the key of a directory entry.
pub inode_key-ne-dentry_key : (m n : ℕ) (x : Bytes) → inode_key m ≢ dentry_key n x
unfolding inode_key dentry_key
inode_key-ne-dentry_key m n x = no_slash_in (to_string m) (to_string n) x (to_string-NotSlash m)
