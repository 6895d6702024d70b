-- ===== src/Kv/Hash/Key.antt =====
-- `CheckKey` against equality of the keys; the hash of a key does not depend on where it stands.
use fusee_fs.Prelude.{
  ℕ, zero, suc, ◌+◌, ◌≡◌, ◌↔◌, refl, sym, ap, ◌∙◌, true, Bytes, bytes_eq, bytes_eq_iff, length,
  drop, take, length-drop, ◌<◌, ◌≤◌, leb, arith, Bool-cases, inl, inr,
}
use fusee_fs.Prelude.Word.{u64}
use fusee_fs.Kv.Hash.{
  Lanes, hash_read64_align, hash_read32_align, stripes, hash_lanes, hash_start, hash_words,
  hash_half_word, string_key_hash_computation, variable_length_hash, check_key,
}

read64_same : (p : Bytes) (a b : ℕ) → hash_read64_align p a ≡ hash_read64_align p b
unfolding hash_read64_align
read64_same p a b = ground arith

stripes_same : (fuel a b : ℕ) (p : Bytes) (v : Lanes) → stripes fuel a p v ≡ stripes fuel b p v
unfolding stripes
stripes_same zero a b p v = refl
stripes_same (suc fuel) a b p v =
    rw
      (
        read64_same p a b,
        read64_same (drop 8 p) a b,
        read64_same (drop 16 p) a b,
        read64_same (drop 24 p) a b,
        stripes_same fuel a b,
      )
      refl

hash_start_same : (a b : ℕ) (p : Bytes) (seed : ℕ) → hash_start a p seed ≡ hash_start b p seed
unfolding hash_start hash_lanes
hash_start_same a b p seed = rw (stripes_same (length p) a b p) refl

hash_words_same : (fuel a b : ℕ) (p : Bytes) (h : ℕ) → hash_words fuel a p h ≡ hash_words fuel b p h
unfolding hash_words
hash_words_same zero a b p h = refl
hash_words_same (suc fuel) a b p h = rw (read64_same p a b, hash_words_same fuel a b) refl

hash_half_word_same : (a b : ℕ) (p : Bytes) (h : ℕ) → hash_half_word a p h ≡ hash_half_word b p h
unfolding hash_half_word hash_read32_align
hash_half_word_same a b p h = ground arith

computation_same :
    (a b : ℕ) (text : Bytes) (seed : ℕ)
    → string_key_hash_computation text seed a ≡ string_key_hash_computation text seed b
unfolding string_key_hash_computation
computation_same a b text seed =
    let (p, hash) = hash_start b text seed in
    let (p₁, hash₁) = hash_words (length p) b p (u64 (hash + length text)) in
    rw (hash_start_same a b text seed, hash_words_same (length p) a b, hash_half_word_same a b p₁)
      refl

-- The hash of a text does not depend on the address where it stands.
pub variable_length_hash_anywhere :
    (r l : ℕ) (text : Bytes) (seed : ℕ)
    → variable_length_hash r text seed ≡ variable_length_hash l text seed
unfolding variable_length_hash
variable_length_hash_anywhere r l text seed = ground (arith, computation_same 1 0 text seed)

-- Two keys pass the check exactly where they have one length and the same bytes.
pub check_key_iff :
    (r l r_len l_len : ℕ) (r_key l_key : Bytes)
    → (check_key r r_key r_len l l_key l_len ≡ true)
      ↔ ((r_len ≡ l_len) × (take r_len r_key ≡ take l_len l_key))
unfolding check_key
check_key_iff r l r_len l_len r_key l_key = (sound, complete)
  where
    sound :
        check_key r r_key r_len l l_key l_len ≡ true
        → (r_len ≡ l_len) × (take r_len r_key ≡ take l_len l_key)
    sound h =
        let lengths : r_len ≡ l_len = ground arith in
        let equal : bytes_eq (take r_len r_key) (take r_len l_key) ≡ true = ground arith in
        (
          lengths,
          (bytes_eq_iff (take r_len r_key) (take r_len l_key)).0 equal
              ∙ ap (λ n. take n l_key) lengths,
        )

    complete :
        (r_len ≡ l_len) × (take r_len r_key ≡ take l_len l_key)
        → check_key r r_key r_len l l_key l_len ≡ true
    complete (same, e) =
        let equal =
          (bytes_eq_iff (take r_len r_key) (take r_len l_key)).1
            (e ∙ ap (λ n. take n l_key) (sym same)) in
        let hashes =
          ap (λ t. variable_length_hash r t 0) e
          ∙ variable_length_hash_anywhere r l (take l_len l_key) 0 in
        ground (arith, equal, hashes)

stripes_rest :
    (fuel align : ℕ) (p : Bytes) (v : Lanes)
    → length p ≤ fuel
    → 32 ≤ length p
    → length (stripes fuel align p v).0 < 32
unfolding stripes
stripes_rest zero align p v h k = omega arith
stripes_rest (suc fuel) align p v h k = elim (Bool-cases (leb 32 (length (drop 32 p)))) [
  | inl e ↦
      rw e (
        stripes_rest fuel align (drop 32 p) _ (omega (arith, length-drop 32 p)) (ground (arith, e)))
  | inr e ↦ rw e (ground (arith, e))
]

hash_words_rest :
    (fuel align : ℕ) (p : Bytes) (h : ℕ)
    → length p ≤ fuel
    → length (hash_words fuel align p h).0 < 8
unfolding hash_words
hash_words_rest zero align p h k = omega arith
hash_words_rest (suc fuel) align p h k = elim (Bool-cases (leb 8 (length p))) [
  | inl e ↦ rw e (hash_words_rest fuel align (drop 8 p) _ (ground (arith, length-drop 8 p, e)))
  | inr e ↦ rw e (ground (arith, e))
]

-- The fuel is enough: the first loop of the hash ends with less than 32 bytes left, and the second
-- one with less than 8.
hash_start_rest :
    (align : ℕ) (text : Bytes) (seed h : ℕ)
    → let p = (hash_start align text seed).0 in
      (length p < 32) × (length (hash_words (length p) align p h).0 < 8)
unfolding hash_start hash_lanes
hash_start_rest align text seed h = (
  elim (Bool-cases (leb 32 (length text))) [
    | inl e ↦ rw e (stripes_rest (length text) align text _ (omega arith) (ground (arith, e)))
    | inr e ↦ rw e (ground (arith, e))
  ],
  hash_words_rest _ align _ h (omega arith),
)
