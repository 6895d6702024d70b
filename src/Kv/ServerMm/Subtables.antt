-- ===== src/Kv/ServerMm/Subtables.antt =====
-- The subtables of the hash index.
use fusee_fs.Prelude.{
  ℕ, zero, suc, ◌+◌, ◌*◌, ◌^◌, ◌≡◌, ◌≢◌, ◌≤◌, ◌<◌, refl, Bool-cases, Option-cases, inl, inr, ◌⊎◌,
  Option, none, some, List, [], ◌∷◌, All, ◌==◌, arith, length, get_or, ◌↔◌,
}
use fusee_fs.Prelude.Word.{u64}
use fusee_fs.Kv.ServerMm.{
  ServerMm, subtable_len, roundup_256, get_subtable_st_addr, take_subtable, mm_alloc_subtable,
}

take_subtable_lem :
    (i k : ℕ) (bs cs : List ℕ)
    → take_subtable i bs ≡ some (k, cs)
    → (j : ℕ) × (k ≡ i + j)
      × (j < length bs)
      × (get_or bs j 1 ≡ 0)
      × (get_or cs j 0 ≡ 1)
      × (length cs ≡ length bs)
unfolding take_subtable
take_subtable_lem i k [] cs h = absurd cc
take_subtable_lem i k (b ∷ bs) cs h = elim (Bool-cases (b == 0)) [
  | inl e ↦
      let out : Path (Option (ℕ × List ℕ)) (some (i, 1 ∷ bs)) (some (k, cs)) =
        ground (arith, e, h) in
      let index : i ≡ k = cc in
      let marks : 1 ∷ bs ≡ cs = cc in
      (
        0,
        omega (arith, index),
        omega arith,
        ground (arith, e),
        rw (← marks) refl,
        rw (← marks) refl,
      )
  | inr e ↦ elim (Option-cases (take_subtable (i + 1) bs)) [
    | inl r ↦ absurd (ground (arith, e, r, h))
    | inr ((k', cs'), r) ↦
        let out : Path (Option (ℕ × List ℕ)) (some (k', b ∷ cs')) (some (k, cs)) =
          ground (arith, e, r, h) in
        let index : k' ≡ k = cc in
        let marks : b ∷ cs' ≡ cs = cc in
        let (j, at, inside, free, taken, len) = take_subtable_lem (i + 1) k' bs cs' r in
        (
          suc j,
          omega (arith, at, index),
          omega (arith, inside),
          free,
          rw (← marks) taken,
          rw (← marks) (omega (arith, len)),
        )
  ]
]

take_subtable-none : (i : ℕ) (bs : List ℕ) → take_subtable i bs ≡ none → All (λ b. b ≢ 0) bs
unfolding take_subtable
take_subtable-none i [] h = tt
take_subtable-none i (b ∷ bs) h = elim (Bool-cases (b == 0)) [
  | inl e ↦ absurd (ground (arith, e, h))
  | inr e ↦ elim (Option-cases (take_subtable (i + 1) bs)) [
    | inl r ↦ (ground (arith, e), take_subtable-none (i + 1) bs r)
    | inr (r, f) ↦ absurd (ground (arith, e, f, h))
  ]
]

marks_taken : (bs : List ℕ) (j : ℕ) → All (λ b. b ≢ 0) bs → get_or bs j 1 ≢ 0
marks_taken [] j h = omega arith
marks_taken (b ∷ bs) zero h = h.0
marks_taken (b ∷ bs) (suc j) h = marks_taken bs j h.1

-- The marks stand for subtables that lie in the hash area, and the area within 64 bits.
pub record IsHashArea (s : ServerMm) : Type 0 where
  pub fits : length s.subtable_alloc_map * 2176000 + 2816 ≤ s.client_hash_area_len
  pub in_range : s.base_addr + s.client_hash_area_off + s.client_hash_area_len < 2 ^ 64

abbrev Taken : ServerMm → Type 0
Taken s =
    (j : ℕ) × (cs : List ℕ) × (mm_alloc_subtable s ≡ (
      s.base_addr + s.client_hash_area_off + 2816 + j * 2176000,
      record s { subtable_alloc_map = cs },
    ))
    × (j < length s.subtable_alloc_map)
    × (get_or s.subtable_alloc_map j 1 ≡ 0)
    × (get_or cs j 0 ≡ 1)
    × (length cs ≡ length s.subtable_alloc_map)

mm_alloc_subtable_cases :
    (s : ServerMm)
    → IsHashArea s
    → ((mm_alloc_subtable s ≡ (0, s)) × All (λ b. b ≢ 0) s.subtable_alloc_map) ⊎ Taken s
unfolding mm_alloc_subtable get_subtable_st_addr roundup_256
mm_alloc_subtable_cases s area = elim (Option-cases (take_subtable 0 s.subtable_alloc_map)) [
  | inl e ↦ inl (ground (arith, e), take_subtable-none 0 s.subtable_alloc_map e)
  | inr ((k, cs), e) ↦
      let (j, at, inside, free, taken, len) = take_subtable_lem 0 k s.subtable_alloc_map cs e in
      let start : u64 (u64 (s.client_hash_area_off + s.base_addr + 2816) + k * 2176000)
          ≡ s.base_addr + s.client_hash_area_off + 2816 + j * 2176000 =
        omega (arith, at, inside, area.fits, area.in_range) in
      inr (j, cs, ground (arith, e, start), inside, free, taken, len)
]

apart_marks :
    (cs : List ℕ) (j k : ℕ) → k < length cs → get_or cs j 0 ≡ 1 → get_or cs k 1 ≡ 0 → j ≢ k
apart_marks [] j k h p q e = omega arith
apart_marks (c ∷ cs) zero zero h p q e = omega arith
apart_marks (c ∷ cs) zero (suc k) h p q e = omega arith
apart_marks (c ∷ cs) (suc j) zero h p q e = omega arith
apart_marks (c ∷ cs) (suc j) (suc k) h p q e = apart_marks cs j k (omega arith) p q (omega arith)

-- The result is 0 exactly where every subtable is taken. Otherwise it is an address past the root, with
-- at least `SUBTABLE_LEN` bytes of the hash area behind it, and the next address that is handed out, if
-- there is one, differs from it by at least `SUBTABLE_LEN`. This is for marks that fit the hash area.
pub mm_alloc_subtable_apart :
    (s : ServerMm)
    → IsHashArea s
    → let (a, s₁) = mm_alloc_subtable s in
      let (b, s₂) = mm_alloc_subtable s₁ in
      ((a ≡ 0) ↔ All (λ m. m ≢ 0) s.subtable_alloc_map)
      × ((a ≡ 0)
          ⊎ ((s.base_addr + s.client_hash_area_off + 2816 ≤ a)
              × (a + subtable_len ≤ s.base_addr + s.client_hash_area_off + s.client_hash_area_len)))
      × ((a ≡ 0) ⊎ ((b ≡ 0) ⊎ ((a + subtable_len ≤ b) ⊎ (b + subtable_len ≤ a))))
mm_alloc_subtable_apart s area = elim (mm_alloc_subtable_cases s area) [
  | inl (e, all) ↦ rw e ((λ h. all, λ h. refl), inl refl, inl refl)
  | inr (j, cs, e, inside, free, taken, len) ↦
      let s₁ : ServerMm = record s { subtable_alloc_map = cs } in
      let area₁ : IsHashArea s₁ = record {
        fits = omega (arith, len, area.fits);
        in_range = area.in_range;
      } in
      rw e (
        (
          λ h. absurd (omega (arith, h)),
          λ all. absurd (marks_taken s.subtable_alloc_map j all free),
        ),
        inr (omega arith, omega (arith, inside, area.fits)),
        elim (mm_alloc_subtable_cases s₁ area₁) [
          | inl (f, all) ↦ rw f (inr (inl refl))
          | inr (k, ds, f, inside₂, free₂, taken₂, len₂) ↦
              let differ = apart_marks cs j k inside₂ taken free₂ in
              rw f (inr (inr (grind (arith, differ))))
        ],
      )
]

-- Where the first two marks are free, the first two subtables are handed out, `SUBTABLE_LEN` apart.
pub mm_alloc_subtable-next :
    (s : ServerMm) (ms : List ℕ)
    → s.subtable_alloc_map ≡ 0 ∷ 0 ∷ ms
    → IsHashArea s
    → let (a, s₁) = mm_alloc_subtable s in
      ((mm_alloc_subtable s₁).0 ≡ a + subtable_len) × (a + 2 * subtable_len < 2 ^ 64)
unfolding mm_alloc_subtable get_subtable_st_addr roundup_256 take_subtable
mm_alloc_subtable-next s ms marks area =
    let long : 2 ≤ length s.subtable_alloc_map = rw marks (omega arith) in
    rw marks
      (omega (arith, long, area.fits, area.in_range), omega (arith, long, area.fits, area.in_range))
