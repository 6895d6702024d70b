-- ===== src/Kv/Candidates.antt =====
-- src/client.cc: `find_kv_in_buckets`, the values that may belong to a key, and where in the local
-- buffer each of them is read to. The keys of the network are left out, and
-- the local addresses are those of a buffer that does not wrap around.
use fusee_fs.Prelude.{
  ℕ, ◌+◌, ◌*◌, ◌≡◌, refl, Bool, not, ◌&&◌, Bool-cases, inl, inr, List, [], ◌∷◌, ◌++◌, ◌==◌,
  if◌then◌else◌,
}
use fusee_fs.Prelude.Word.{u32}
use fusee_fs.Kv.Hash.{RaceHashSlot, convert_40_to_64_bits}

-- An entry of `kv_idx_list`, and the one of `kv_read_addr_list` beside it.
pub record Candidate : Type 0 where
  pub bucket_idx : ℕ
  pub slot_idx : ℕ
  pub server_id : ℕ
  pub r_kv_addr : ℕ
  pub l_kv_addr : ℕ
  pub len : ℕ

unfoldable pub may_hold : ℕ → RaceHashSlot → Bool
may_hold fp slot = (slot.fp == fp) && not (slot.kv_len == 0)

-- The inner loop over the slots of bucket `i`, from slot `j`: the candidates, and where the next one
-- is read to.
unfoldable pub candidates_in : ℕ → ℕ → ℕ → ℕ → List RaceHashSlot → ℕ → List Candidate × ℕ
unfolding may_hold
candidates_in fp subblock_sz i j [] l_kv_addr = ([], l_kv_addr)
candidates_in fp subblock_sz i j (slot ∷ slots) l_kv_addr =
    let len = u32 (slot.kv_len * subblock_sz) in
    let here = candidates_in fp subblock_sz i (j + 1) slots (l_kv_addr + len) in
    let past = candidates_in fp subblock_sz i (j + 1) slots l_kv_addr in
    if may_hold fp slot
    then (
      (record {
        bucket_idx = i;
        slot_idx = j;
        server_id = slot.server_id;
        r_kv_addr = convert_40_to_64_bits slot.pointer;
        l_kv_addr = l_kv_addr;
        len = len;
      })
          ∷ here.0,
      here.1,
    )
    else past

unfoldable pub find_kv_in_buckets : ℕ → ℕ → ℕ → List (List RaceHashSlot) → ℕ → List Candidate × ℕ
unfolding candidates_in
find_kv_in_buckets fp subblock_sz i [] l_kv_addr = ([], l_kv_addr)
find_kv_in_buckets fp subblock_sz i (slots ∷ arrays) l_kv_addr =
    let (own, after) = candidates_in fp subblock_sz i 0 slots l_kv_addr in
    let (others, last) = find_kv_in_buckets fp subblock_sz (i + 1) arrays after in
    (own ++ others, last)

-- The values are read one behind the other, between two ends.
pub BackToBack : ℕ → List Candidate → ℕ → Type 0
BackToBack start [] end = start ≡ end
BackToBack start (c ∷ cs) end = (c.l_kv_addr ≡ start) × BackToBack (start + c.len) cs end

BackToBack-append :
    (a b c : ℕ) (xs ys : List Candidate)
    → BackToBack a xs b
    → BackToBack b ys c
    → BackToBack a (xs ++ ys) c
unfolding BackToBack
BackToBack-append a b c [] ys h k = rw h k
BackToBack-append a b c (x ∷ xs) ys h k = (h.0, BackToBack-append (a + x.len) b c xs ys h.1 k)

candidates_in-BackToBack :
    (fp subblock_sz i j : ℕ) (slots : List RaceHashSlot) (l : ℕ)
    → let (cs, end) = candidates_in fp subblock_sz i j slots l in BackToBack l cs end
unfolding candidates_in BackToBack
candidates_in-BackToBack fp sz i j [] l = refl
candidates_in-BackToBack fp sz i j (slot ∷ slots) l = elim (Bool-cases (may_hold fp slot)) [
  | inl e ↦ rw e (refl, candidates_in-BackToBack fp sz i (j + 1) slots (l + u32 (slot.kv_len * sz)))
  | inr e ↦ rw e (candidates_in-BackToBack fp sz i (j + 1) slots l)
]

-- The candidates of all buckets are read one behind the other, so that no two share a byte of the
-- local buffer.
pub find_kv_in_buckets-BackToBack :
    (fp subblock_sz i : ℕ) (arrays : List (List RaceHashSlot)) (l : ℕ)
    → let (cs, end) = find_kv_in_buckets fp subblock_sz i arrays l in BackToBack l cs end
unfolding find_kv_in_buckets BackToBack
find_kv_in_buckets-BackToBack fp sz i [] l = refl
find_kv_in_buckets-BackToBack fp sz i (slots ∷ arrays) l =
    let (own, after) = candidates_in fp sz i 0 slots l in
    let (others, last) = find_kv_in_buckets fp sz (i + 1) arrays after in
    BackToBack-append l after last own others (candidates_in-BackToBack fp sz i 0 slots l)
      (find_kv_in_buckets-BackToBack fp sz (i + 1) arrays after)
