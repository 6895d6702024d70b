-- ===== src/Kv/Buckets.antt =====
-- src/client.cc: the search of a free slot in the four buckets of a key, two around each index. The
-- buckets are numbered 0 and 1 for the first index, 2 and 3 for the second.
use fusee_fs.Prelude.{
  ℕ, zero, suc, ◌+◌, ◌%◌, ◌^◌, ◌≡◌, ◌∙◌, ◌↔◌, ◌≤◌, ◌<◌, ◌⊎◌, refl, true, ◌||◌, Bool-cases, inl, inr,
  Option, none, some, get_elem?, ltb, leb, if◌then◌else◌, arith,
}
use fusee_fs.Kv.Hash.{
  RaceHashSlot, RaceHashBucket, is_free, get_free_slot_num, convert_64_to_40_bits,
}
use fusee_fs.Kv.Hash.Slots.{count_free, get_free_slot_num_lem}

pub record Buckets : Type 0 where
  pub f0 : RaceHashBucket
  pub f1 : RaceHashBucket
  pub s0 : RaceHashBucket
  pub s1 : RaceHashBucket

-- `f_com_bucket + idx` and `s_com_bucket + idx`, for an index of 0 or 1.
unfoldable pub f_bucket : Buckets → ℕ → RaceHashBucket
f_bucket b zero = b.f0
f_bucket b (suc i) = b.f1

unfoldable pub s_bucket : Buckets → ℕ → RaceHashBucket
s_bucket b zero = b.s0
s_bucket b (suc i) = b.s1

-- One turn of the loop: a bucket and a slot, or what was found before where both buckets are full.
unfoldable pub better_slot : Buckets → ℕ → ℕ → Option (ℕ × ℕ) → Option (ℕ × ℕ)
unfolding f_bucket s_bucket
better_slot b f_main_idx s_main_idx found =
    let (f_free_num, f_free_slot_idx) = get_free_slot_num (f_bucket b f_main_idx) in
    let (s_free_num, s_free_slot_idx) = get_free_slot_num (s_bucket b s_main_idx) in
    if ltb 0 f_free_num || ltb 0 s_free_num
    then (if leb s_free_num f_free_num
        then some (f_main_idx, f_free_slot_idx)
        else some (2 + s_main_idx, s_free_slot_idx))
    else found

-- `find_empty_slot`; nothing is -1 for both.
unfoldable pub find_empty_slot : Buckets → ℕ → ℕ → Option (ℕ × ℕ)
unfolding better_slot
find_empty_slot b f_main_idx s_main_idx =
    better_slot b ((f_main_idx + 1) % 2) ((s_main_idx + 1) % 2)
      (better_slot b f_main_idx s_main_idx none)

-- `fill_slot`: the slot of a value that was written to a subblock.
unfoldable pub fill_slot : ℕ → ℕ → ℕ → ℕ → RaceHashSlot
fill_slot fp num_subblocks server_id addr = record {
  fp = fp;
  kv_len = num_subblocks % 2 ^ 8;
  server_id = server_id;
  pointer = convert_64_to_40_bits addr;
}

-- The slot that a number of a bucket and an index name.
unfoldable pub slot_at : Buckets → ℕ → ℕ → Option RaceHashSlot
slot_at b zero j = get_elem? b.f0.slots j
slot_at b (suc zero) j = get_elem? b.f1.slots j
slot_at b (suc (suc zero)) j = get_elem? b.s0.slots j
slot_at b (suc (suc (suc i))) j = get_elem? b.s1.slots j

abbrev pub IsFound : Buckets → Option (ℕ × ℕ) → Type 0
IsFound b none = Unit
IsFound b (some (i, j)) = (s : RaceHashSlot) × (slot_at b i j ≡ some s) × (is_free s ≡ true)

free_in :
    (b : RaceHashBucket)
    → 1 ≤ (get_free_slot_num b).0
    → (s : RaceHashSlot) × (get_elem? b.slots (get_free_slot_num b).1 ≡ some s) × (is_free s ≡ true)
free_in b h = elim (get_free_slot_num_lem b).1 [
  | inl (none_free, at) ↦ absurd (omega (arith, none_free, h))
  | inr found ↦ found
]

slot_at-f_bucket :
    (b : Buckets) (f j : ℕ) → f < 2 → slot_at b f j ≡ get_elem? (f_bucket b f).slots j
unfolding slot_at f_bucket
slot_at-f_bucket b zero j h = refl
slot_at-f_bucket b (suc zero) j h = refl
slot_at-f_bucket b (suc (suc f)) j h = absurd (omega arith)

slot_at-s_bucket :
    (b : Buckets) (s j : ℕ) → s < 2 → slot_at b (2 + s) j ≡ get_elem? (s_bucket b s).slots j
unfolding slot_at s_bucket
slot_at-s_bucket b zero j h = refl
slot_at-s_bucket b (suc zero) j h = refl
slot_at-s_bucket b (suc (suc s)) j h = absurd (omega arith)

better_slot-IsFound :
    (b : Buckets) (f s : ℕ) (found : Option (ℕ × ℕ))
    → f < 2
    → s < 2
    → IsFound b found
    → IsFound b (better_slot b f s found)
unfolding better_slot
better_slot-IsFound b f s found hf hs h =
    let nf = (get_free_slot_num (f_bucket b f)).0 in
    let ns = (get_free_slot_num (s_bucket b s)).0 in
    elim (Bool-cases (ltb 0 nf || ltb 0 ns)) [
      | inr e ↦ rw e h
      | inl e ↦ elim (Bool-cases (leb ns nf)) [
        | inl g ↦
            let (slot, here, free) = free_in (f_bucket b f) (ground (arith, e, g)) in
            rw (e, g) (slot, slot_at-f_bucket b f _ hf ∙ here, free)
        | inr g ↦
            let (slot, here, free) = free_in (s_bucket b s) (ground (arith, e, g)) in
            rw (e, g) (slot, slot_at-s_bucket b s _ hs ∙ here, free)
      ]
    ]

better_slot-none :
    (b : Buckets) (f s : ℕ) (found : Option (ℕ × ℕ))
    → (better_slot b f s found ≡ none) ↔ (
        (count_free (f_bucket b f).slots ≡ 0)
        × (count_free (s_bucket b s).slots ≡ 0)
        × (found ≡ none))
unfolding better_slot
better_slot-none b f s found =
    let cf = (get_free_slot_num_lem (f_bucket b f)).0 in
    let cs = (get_free_slot_num_lem (s_bucket b s)).0 in ground (arith, cf, cs)

other : (f : ℕ) → f < 2 → ((f ≡ 0) × ((f + 1) % 2 ≡ 1)) ⊎ ((f ≡ 1) × ((f + 1) % 2 ≡ 0))
other f h = ground arith

-- The slot that is found is free, and none is found exactly where all four buckets are full; the search
-- may begin at either bucket of each pair.
pub find_empty_slot_lem :
    (b : Buckets) (f s : ℕ)
    → f < 2
    → s < 2
    → IsFound b (find_empty_slot b f s)
      × ((find_empty_slot b f s ≡ none) ↔ (
          (count_free b.f0.slots ≡ 0)
          × (count_free b.f1.slots ≡ 0)
          × (count_free b.s0.slots ≡ 0)
          × (count_free b.s1.slots ≡ 0)))
unfolding find_empty_slot f_bucket s_bucket
find_empty_slot_lem b f s hf hs =
    let first = better_slot b f s none in
    let a = better_slot-none b f s none in
    let c = better_slot-none b ((f + 1) % 2) ((s + 1) % 2) first in
    (
      better_slot-IsFound b ((f + 1) % 2) ((s + 1) % 2) first (omega arith) (omega arith)
          (better_slot-IsFound b f s none hf hs tt),
      elim (other f hf) [
        | inl (p, q) ↦ elim (other s hs) [
          | inl (r, t) ↦ ground (arith, rw (p, r) at a, rw (q, t) at c, p, q, r, t)
          | inr (r, t) ↦ ground (arith, rw (p, r) at a, rw (q, t) at c, p, q, r, t)
        ]
        | inr (p, q) ↦ elim (other s hs) [
          | inl (r, t) ↦ ground (arith, rw (p, r) at a, rw (q, t) at c, p, q, r, t)
          | inr (r, t) ↦ ground (arith, rw (p, r) at a, rw (q, t) at c, p, q, r, t)
        ]
      ],
    )
