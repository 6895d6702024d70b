-- ===== src/Kv/Blocks/Agreement.antt =====
-- The blocks that a server hands out against the map of a client.
use fusee_fs.Prelude.{
  some_inj, ℕ, zero, suc, ◌+◌, ◌*◌, ◌/◌, ◌%◌, ◌^◌, ◌≡◌, ◌≢◌, ◌<◌, refl, sym, ap, ◌∙◌, subst,
  bit_and, bit_or, Bool-cases, Option-cases, inl, inr, Option, none, some, List, [], ◌∷◌, get_or,
  set, replicate, All, leb, ◌==◌, arith,
}
use native.Mathlib.Nat.{mod-lt, mod-eq_of_lt, div-le_self}
use fusee_fs.Prelude.Word.{u8, u32, u64}
use fusee_fs.Kv.Blocks.{
  Layout, Row, and_then, skip_full, place, rows_from, push_first, first_addrs, get_allocable_blocks,
  BlockMap, find, push_all, tagged, total_row, any_zero, alloc_row, map_rows, get_block_map,
}
use fusee_fs.Kv.Blocks.Placement.{IsLayout}

find-push_all :
    (k j : ℕ) (vs : List ℕ) (m : BlockMap)
    → (find k (push_all k vs m) ≢ none) × (find j m ≢ none → find j (push_all k vs m) ≢ none)
unfolding find push_all
find-push_all k j vs [] = (λ h. ground arith, λ g h. g refl)
find-push_all k j vs ((i, ws) ∷ m) =
    let (own, others) = find-push_all k j vs m in
    (λ h. ground (arith, own), λ g h. ground (arith, others))

-- The map has the key of the first replica; the first replica stands on the server `st_sid`.
abbrev HeadKnown : BlockMap → List (ℕ × ℕ) → Type 0
HeadKnown m [] = Unit
HeadKnown m ((addr, sid) ∷ others) = find (bit_or addr sid) m ≢ none

abbrev StartsAt : ℕ → List (ℕ × ℕ) → Type 0
StartsAt st_sid [] = Unit
StartsAt st_sid ((addr, sid) ∷ others) = sid ≡ st_sid

pushed :
    (k j : ℕ) (vs : List ℕ) (m m' : BlockMap)
    → push_all k vs m ≡ m'
    → (find k m' ≢ none) × (find j m ≢ none → find j m' ≢ none)
pushed k j vs m m' e = rw (← e) (find-push_all k j vs m)

alloc_row-known :
    (l : List (ℕ × ℕ)) (m m' : BlockMap) (j : ℕ)
    → alloc_row (tagged l) m ≡ some m'
    → HeadKnown m' l × (find j m ≢ none → find j m' ≢ none)
unfolding alloc_row tagged
alloc_row-known [] m m' j h = (tt, λ g. rw (← some_inj h) g)
alloc_row-known ((a, s) ∷ []) m m' j h = pushed (bit_or a s) j (0 ∷ []) m m' (some_inj h)
alloc_row-known ((a, s) ∷ (b, t) ∷ l) m m' j h =
    elim (Bool-cases (any_zero (bit_or b t ∷ tagged l))) [
      | inl z ↦ absurd (ground (arith, z, h))
      | inr z ↦ pushed (bit_or a s) j (bit_or b t ∷ tagged l) m m' (ground (arith, z, h))
    ]

abbrev AllKnown : BlockMap → List Row → Type 0
AllKnown m rows = All (λ (row : Row). HeadKnown m row.replicas) rows

HeadKnown-kept :
    (m m' : BlockMap) (l : List (ℕ × ℕ))
    → ((j : ℕ) → find j m ≢ none → find j m' ≢ none)
    → HeadKnown m l
    → HeadKnown m' l
HeadKnown-kept m m' [] keep h = tt
HeadKnown-kept m m' ((a, s) ∷ l) keep h = keep (bit_or a s) h

map_rows-known :
    (rows : List Row) (t t' m m' : BlockMap)
    → map_rows rows (t, m) ≡ some (t', m')
    → AllKnown m' rows × ((j : ℕ) → find j m ≢ none → find j m' ≢ none)
unfolding map_rows and_then
map_rows-known [] t t' m m' h =
    let same : m ≡ m' = ap (λ (x : BlockMap × BlockMap). x.1) (some_inj h) in
    (tt, λ j g. rw (← same) g)
map_rows-known (row ∷ rows) t t' m m' h = elim (Option-cases (alloc_row (tagged row.replicas) m)) [
  | inl e ↦ absurd (ground (arith, e, h))
  | inr (m₁, e) ↦
      let go : map_rows rows (total_row [] (tagged row.replicas) t, m₁) ≡ some (t', m') =
        rw e at h in
      let (known, keep) = map_rows-known rows (total_row [] (tagged row.replicas) t) t' m₁ m' go in
      (
        (HeadKnown-kept m₁ m' row.replicas keep (alloc_row-known row.replicas m m₁ 0 e).0, known),
        λ j g. keep j ((alloc_row-known row.replicas m m₁ j e).1 g),
      )
]

module _ (lay : Layout) (ok : IsLayout lay) where
  own_sid : (st_sid : ℕ) → st_sid < lay.num_memory → u8 ((st_sid + 0) % lay.num_memory) ≡ st_sid
  own_sid st_sid below =
      let same : st_sid + 0 ≡ st_sid = omega arith in
      let small : st_sid % lay.num_memory ≡ st_sid = mod-eq_of_lt below in
      rw (same, small) (omega (arith, ok.servers))

  same_count :
      (k : ℕ) → k < 2 ^ 32 → u32 (u64 k / lay.num_replication) ≡ u32 k / lay.num_replication
  same_count k h =
      let a : u64 k ≡ k = omega arith in
      let b : u32 k ≡ k = omega arith in
      let c = div-le_self k lay.num_replication in rw (a, b) (omega (arith, c))

  skip_full-lt :
      (fuel st_sid sid : ℕ) (mn : List ℕ)
      → st_sid < lay.num_memory
      → skip_full lay fuel st_sid mn ≡ some sid
      → sid < lay.num_memory
  unfolding skip_full
  skip_full-lt zero st_sid sid mn h e = absurd (ground arith)
  skip_full-lt (suc fuel) st_sid sid mn h e =
      let below = mod-lt (st_sid + 1) {m = lay.num_memory} (omega (arith, ok.servers)) in
      let later = skip_full-lt fuel ((st_sid + 1) % lay.num_memory) sid mn below in ground arith

  place-StartsAt :
      (n st_sid : ℕ) (mn mn' : List ℕ) (l : List (ℕ × ℕ))
      → st_sid < lay.num_memory
      → place lay n 0 st_sid mn ≡ some (l, mn')
      → StartsAt st_sid l
  unfolding place and_then
  place-StartsAt n st_sid mn mn' [] below h = tt
  place-StartsAt zero st_sid mn mn' ((a, s) ∷ l) below h = absurd cc
  place-StartsAt (suc n) st_sid mn mn' ((a, s) ∷ l) below h =
      let sid = u8 ((st_sid + 0) % lay.num_memory) in
      let addr = get_or mn sid 0 in
      let mn₁ = set mn sid (u64 (addr + lay.block_size)) in
      let itself : sid ≡ st_sid = own_sid st_sid below in
      elim (Bool-cases (leb lay.limit addr)) [
        | inl e ↦ absurd (ground (arith, e, h))
        | inr e ↦ elim (Bool-cases (bit_and addr 1 == 0)) [
          | inr o ↦ absurd (ground (arith, e, o, h))
          | inl o ↦ elim (Option-cases (place lay n 1 st_sid mn₁)) [
            | inl r ↦ absurd (ground (arith, e, o, r, h))
            | inr ((k, m), r) ↦
                let out : Path (Option (List (ℕ × ℕ) × List ℕ)) (some ((addr, sid) ∷ k, m))
                    (some ((a, s) ∷ l, mn')) =
                  ground (arith, e, o, r, h) in
                let first : sid ≡ s = cc in sym first ∙ itself
          ]
        ]
      ]

  rows_from-StartsAt :
      (n block_cnt : ℕ) (mn : List ℕ) (rows : List Row)
      → rows_from lay n block_cnt mn ≡ some rows
      → All (λ (row : Row). StartsAt row.st_sid row.replicas) rows
  unfolding rows_from and_then
  rows_from-StartsAt zero block_cnt mn rows h = rw (← some_inj h) tt
  rows_from-StartsAt (suc n) block_cnt mn rows h =
      elim (Option-cases (skip_full lay lay.num_memory (block_cnt % lay.num_memory) mn)) [
        | inl e ↦ absurd (ground (arith, e, h))
        | inr (st, e) ↦ elim (Option-cases (place lay lay.num_replication 0 st mn)) [
          | inl r ↦ absurd (ground (arith, e, r, h))
          | inr ((l, m), r) ↦ elim (Option-cases (rows_from lay n (block_cnt + 1) m)) [
            | inl q ↦ absurd (ground (arith, e, r, q, h))
            | inr (rest, q) ↦
                let row : Row = record { st_sid = st; replicas = l } in
                let out : Path (Option (List Row)) (some (row ∷ rest)) (some rows) =
                  ground (arith, e, r, q, h) in
                let start = mod-lt block_cnt {m = lay.num_memory} (omega (arith, ok.servers)) in
                let below =
                  skip_full-lt lay.num_memory (block_cnt % lay.num_memory) st mn start e in
                subst (λ t. All (λ (x : Row). StartsAt x.st_sid x.replicas) t) (some_inj out)
                  (
                    place-StartsAt lay.num_replication st mn m l below r,
                    rows_from-StartsAt n (block_cnt + 1) m rest q,
                  )
          ]
        ]
      ]

  push_first-known :
      (my_sid st_sid : ℕ) (m : BlockMap) (l : List (ℕ × ℕ)) (rest : List ℕ)
      → HeadKnown m l
      → StartsAt st_sid l
      → All (λ (addr : ℕ). find (bit_or addr my_sid) m ≢ none) rest
      → All (λ (addr : ℕ). find (bit_or addr my_sid) m ≢ none) (push_first lay my_sid st_sid l rest)
  unfolding push_first
  push_first-known my_sid st_sid m [] rest known starts h = h
  push_first-known my_sid st_sid m ((a, s) ∷ l) rest known starts h =
      elim (Bool-cases (st_sid == my_sid)) [
        | inl e ↦
            let here : s ≡ my_sid = ground (arith, e, starts) in
            rw e (subst (λ t. find (bit_or a t) m ≢ none) here known, h)
        | inr e ↦ rw e h
      ]

  first_addrs-known :
      (my_sid : ℕ) (m : BlockMap) (rows : List Row)
      → AllKnown m rows
      → All (λ (row : Row). StartsAt row.st_sid row.replicas) rows
      → All (λ (addr : ℕ). find (bit_or addr my_sid) m ≢ none) (first_addrs lay my_sid rows)
  unfolding first_addrs
  first_addrs-known my_sid m [] known starts = tt
  first_addrs-known my_sid m (row ∷ rows) known starts =
      push_first-known my_sid row.st_sid m row.replicas (first_addrs lay my_sid rows) known.0
        starts.0 (first_addrs-known my_sid m rows known.1 starts.1)

  -- Every block that a server hands out is known to every client: the client finds it in its map,
  -- under the address with the server's number in the low byte. Both run with one configuration of at
  -- most 256 servers, whose number of blocks fits in 32 bits, and neither exits.
  pub get_allocable_blocks-get_block_map :
      (my_sid : ℕ) (addrs : List ℕ) (total alloc : BlockMap)
      → lay.num_blocks * lay.num_memory < 2 ^ 32
      → get_allocable_blocks lay my_sid ≡ some addrs
      → get_block_map lay ≡ some (total, alloc)
      → All (λ (addr : ℕ). find (bit_or addr my_sid) alloc ≢ none) addrs
  unfolding get_allocable_blocks get_block_map and_then
  get_allocable_blocks-get_block_map my_sid addrs total alloc few h k =
      let n = u32 (lay.num_blocks * lay.num_memory) / lay.num_replication in
      let start = replicate lay.num_memory lay.kv_area_addr in
      let same : u32 (u64 (lay.num_blocks * lay.num_memory) / lay.num_replication) ≡ n =
        same_count (lay.num_blocks * lay.num_memory) few in
      elim (Option-cases (rows_from lay n 0 start)) [
        | inl e ↦ absurd (ground (arith, e, h))
        | inr (rows, e) ↦
            let server : first_addrs lay my_sid rows ≡ addrs = some_inj (rw e at h) in
            let client : map_rows rows ([], []) ≡ some (total, alloc) = rw (same, e) at k in
            subst (λ t. All (λ (addr : ℕ). find (bit_or addr my_sid) alloc ≢ none) t) server
              (first_addrs-known my_sid alloc rows (map_rows-known rows [] total [] alloc client).0
                (rows_from-StartsAt n 0 start rows e))
      ]
