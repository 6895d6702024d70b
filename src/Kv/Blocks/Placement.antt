-- ===== src/Kv/Blocks/Placement.antt =====
-- Where the loop puts the replicas: on each server, one after the other.
use fusee_fs.Prelude.{
  ℕ, zero, suc, ◌+◌, ◌%◌, ◌^◌, ◌≡◌, ◌≤◌, ◌<◌, refl, sym, ap, ◌∙◌, subst, bit_and, Bool-cases,
  Option-cases, inl, inr, Option, some, List, [], ◌∷◌, ◌++◌, get_or, set, length, length-set,
  length-replicate, replicate, All, leb, ◌==◌, if◌then◌else◌, arith,
}
use native.Mathlib.Nat.{mod-lt}
use fusee_fs.Prelude.Word.{u8, u64}
use fusee_fs.Kv.Blocks.{Layout, Row, and_then, skip_full, place, rows_from}

-- A configuration with at most 256 servers, whose addresses do not wrap around.
pub record IsLayout (lay : Layout) : Type 0 where
  pub servers : (1 ≤ lay.num_memory) × (lay.num_memory ≤ 256)
  pub in_range : lay.limit + lay.block_size < 2 ^ 64

get_or-set :
    (xs : List ℕ) (i j v : ℕ)
    → i < length xs
    → get_or (set xs i v) j 0 ≡ (if i == j then v else get_or xs j 0)
get_or-set [] i j v h = absurd (omega arith)
get_or-set (x ∷ xs) zero zero v h = refl
get_or-set (x ∷ xs) zero (suc j) v h = ground arith
get_or-set (x ∷ xs) (suc i) zero v h = ground arith
get_or-set (x ∷ xs) (suc i) (suc j) v h = ground (arith, get_or-set xs i j v (omega arith))

module _ (block_size : ℕ) where
  abbrev Grows : List ℕ → List ℕ → Type 0
  Grows mn mn' = (s : ℕ) → get_or mn s 0 ≤ get_or mn' s 0

  -- The replicas were taken one by one, each at the position of its server, which moved past it.
  data Placed : List ℕ → List (ℕ × ℕ) → List ℕ → Type 0 where
    none_left : {mn mn' : List ℕ} → Grows mn mn' → Placed mn [] mn'
    put :
        {mn mn₁ mn' : List ℕ} {addr sid : ℕ} {l : List (ℕ × ℕ)}
        → get_or mn sid 0 ≤ addr
        → addr + block_size ≤ get_or mn₁ sid 0
        → Grows mn mn₁
        → Placed mn₁ l mn'
        → Placed mn ((addr, sid) ∷ l) mn'

  -- Earlier blocks of a server end before later ones begin.
  pub Spaced : List (ℕ × ℕ) → Type 0
  Spaced [] = Unit
  Spaced ((addr, sid) ∷ l) = All (λ (q : ℕ × ℕ). sid ≡ q.1 → addr + block_size ≤ q.0) l × Spaced l

  weaken : {a b c : List ℕ} {l : List (ℕ × ℕ)} → Grows a b → Placed b l c → Placed a l c
  weaken g (none_left h) = none_left (λ s. omega (arith, g s, h s))
  weaken g (put {sid = sid} p q h rest) =
      put (omega (arith, g sid)) q (λ s. omega (arith, g s, h s)) rest

  Placed-append :
      {a b c : List ℕ} {l k : List (ℕ × ℕ)} → Placed a l b → Placed b k c → Placed a (l ++ k) c
  Placed-append (none_left g) r = weaken g r
  Placed-append (put p q h rest) r = put p q h (Placed-append rest r)

  Placed-above :
      {mn mn' : List ℕ} {l : List (ℕ × ℕ)} (addr sid : ℕ)
      → Placed mn l mn'
      → addr ≤ get_or mn sid 0
      → All (λ (q : ℕ × ℕ). sid ≡ q.1 → addr ≤ q.0) l
  Placed-above addr sid (none_left g) h = tt
  Placed-above addr sid (put {mn = mn} {addr = a} {sid = s} p q g rest) h = (
    λ e.
        let below : addr ≤ get_or mn s 0 = subst (λ t. addr ≤ get_or mn t 0) e h in
        omega (arith, below, p),
    Placed-above addr sid rest (omega (arith, g sid)),
  )

  Placed-Spaced : {mn mn' : List ℕ} {l : List (ℕ × ℕ)} → Placed mn l mn' → Spaced l
  unfolding Spaced
  Placed-Spaced (none_left g) = tt
  Placed-Spaced (put {addr = a} {sid = s} p q g rest) =
      (Placed-above (a + block_size) s rest q, Placed-Spaced rest)

-- The replicas of all blocks, in the order in which they were placed.
pub all_replicas : List Row → List (ℕ × ℕ)
all_replicas [] = []
all_replicas (row ∷ rows) = row.replicas ++ all_replicas rows

module _ (lay : Layout) (ok : IsLayout lay) where
  Placed-out :
      {mn mn' m : List ℕ} {l k : List (ℕ × ℕ)}
      → Path (Option (List (ℕ × ℕ) × List ℕ)) (some (k, m)) (some (l, mn'))
      → Placed lay.block_size mn k m
      → length m ≡ lay.num_memory
      → Placed lay.block_size mn l mn' × (length mn' ≡ lay.num_memory)
  Placed-out {mn = mn} {mn' = mn'} {m = m} {l = l} {k = k} e p len =
      let same_list : k ≡ l = cc in
      let same_state : m ≡ mn' = cc in
      (
        subst (λ t. Placed lay.block_size mn t mn') same_list
            (subst (λ t. Placed lay.block_size mn k t) same_state p),
        ap length (sym same_state) ∙ len,
      )

  place-Placed :
      (n i st_sid : ℕ) (mn mn' : List ℕ) (l : List (ℕ × ℕ))
      → length mn ≡ lay.num_memory
      → place lay n i st_sid mn ≡ some (l, mn')
      → Placed lay.block_size mn l mn' × (length mn' ≡ lay.num_memory)
  unfolding place and_then
  place-Placed zero i st_sid mn mn' l len h = Placed-out h (none_left (λ s. omega arith)) len
  place-Placed (suc n) i st_sid mn mn' l len h =
      let sid = u8 ((st_sid + i) % lay.num_memory) in
      let addr = get_or mn sid 0 in
      let mn₁ = set mn sid (u64 (addr + lay.block_size)) in
      let below = mod-lt (st_sid + i) {m = lay.num_memory} (omega (arith, ok.servers)) in
      let size = ok.servers in
      let range = ok.in_range in
      elim (Bool-cases (leb lay.limit addr)) [
        | inl e ↦ absurd (ground (arith, e))
        | inr e ↦ elim (Bool-cases (bit_and addr 1 == 0)) [
          | inr o ↦ absurd (ground (arith, e, o))
          | inl o ↦ elim (Option-cases (place lay n (i + 1) st_sid mn₁)) [
            | inl r ↦ absurd (ground (arith, e, o, r))
            | inr ((l', m), r) ↦
                let len₁ : length mn₁ ≡ lay.num_memory =
                  omega (arith, length-set mn sid (u64 (addr + lay.block_size))) in
                let inside : sid < length mn = omega (arith, below, size) in
                let new = λ (s : ℕ). get_or-set mn sid s (u64 (addr + lay.block_size)) inside in
                let fits : addr + lay.block_size < 2 ^ 64 = ground (arith, e, range) in
                let grows : Grows lay.block_size mn mn₁ = λ s. ground (arith, new s, fits) in
                let moved : addr + lay.block_size ≤ get_or mn₁ sid 0 =
                  ground (arith, new sid, fits) in
                let (rest, len') = place-Placed n (i + 1) st_sid mn₁ m l' len₁ r in
                let out : Path (Option (List (ℕ × ℕ) × List ℕ)) (some ((addr, sid) ∷ l', m))
                    (some (l, mn')) =
                  ground (arith, e, o, r, h) in
                Placed-out out (put (omega arith) moved grows rest) len'
          ]
        ]
      ]

  rows_from-Placed :
      (n block_cnt : ℕ) (mn : List ℕ) (rows : List Row)
      → length mn ≡ lay.num_memory
      → rows_from lay n block_cnt mn ≡ some rows
      → (mn' : List ℕ) × Placed lay.block_size mn (all_replicas rows) mn'
  unfolding rows_from and_then all_replicas
  rows_from-Placed zero block_cnt mn rows len h =
      let empty : Path (List Row) [] rows = cc in
      (
        mn,
        subst (λ t. Placed lay.block_size mn (all_replicas t) mn) empty
            (none_left (λ s. omega arith)),
      )
  rows_from-Placed (suc n) block_cnt mn rows len h =
      elim (Option-cases (skip_full lay lay.num_memory (block_cnt % lay.num_memory) mn)) [
        | inl e ↦ absurd (ground (arith, e, h))
        | inr (st, e) ↦ elim (Option-cases (place lay lay.num_replication 0 st mn)) [
          | inl r ↦ absurd (ground (arith, e, r, h))
          | inr ((l, m), r) ↦ elim (Option-cases (rows_from lay n (block_cnt + 1) m)) [
            | inl q ↦ absurd (ground (arith, e, r, q, h))
            | inr (rest, q) ↦
                let (placed, len') = place-Placed lay.num_replication 0 st mn m l len r in
                let (mn', more) = rows_from-Placed n (block_cnt + 1) m rest len' q in
                let row : Row = record { st_sid = st; replicas = l } in
                let out : Path (Option (List Row)) (some (row ∷ rest)) (some rows) =
                  ground (arith, e, r, q, h) in
                let same : Path (List Row) (row ∷ rest) rows = cc in
                (
                  mn',
                  subst (λ t. Placed lay.block_size mn (all_replicas t) mn') same
                      (Placed-append lay.block_size placed more),
                )
          ]
        ]
      ]

  -- No two replicas of any blocks overlap: on one server, an earlier one ends before a later one
  -- begins, whenever the loop comes to its end.
  pub rows_from-Spaced :
      (n block_cnt : ℕ) (rows : List Row)
      → rows_from lay n block_cnt (replicate lay.num_memory lay.kv_area_addr) ≡ some rows
      → Spaced lay.block_size (all_replicas rows)
  rows_from-Spaced n block_cnt rows h =
      let (mn', placed) =
        rows_from-Placed n block_cnt (replicate lay.num_memory lay.kv_area_addr) rows
          (length-replicate lay.num_memory lay.kv_area_addr) h in
      Placed-Spaced lay.block_size placed
