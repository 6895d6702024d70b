-- ===== src/Kv/ServerMm/Pool.antt =====
-- The queue of blocks and the marks of the blocks that are out.
use fusee_fs.Prelude.{
  ℕ, ◌+◌, ◌≡◌, ◌≤◌, refl, Bool, true, false, Bool-cases, inl, inr, List, [], ◌∷◌, ◌++◌, ◌==◌,
  if◌then◌else◌, arith,
}
use fusee_fs.Kv.ServerMm.{ServerMm, is_allocated, mark, mm_alloc, mm_free}

-- How often a block is in the queue.
unfoldable pub queued : ℕ → List ℕ → ℕ
queued a [] = 0
queued a (b ∷ bs) = (if a == b then 1 else 0) + queued a bs

-- No block is in the queue twice, and none that is out.
pub record IsPool (s : ServerMm) : Type 0 where
  pub once : (a : ℕ) → queued a s.allocable_blocks ≤ 1
  pub apart : (a : ℕ) → is_allocated a s.allocated_blocks ≡ true → queued a s.allocable_blocks ≡ 0

is_allocated-mark :
    (a b : ℕ) (c : Bool) (m : List (ℕ × Bool))
    → is_allocated b (mark a c m) ≡ (if b == a then c else is_allocated b m)
unfolding is_allocated mark
is_allocated-mark a b c [] = ground arith
is_allocated-mark a b c ((k, d) ∷ m) = ground (arith, is_allocated-mark a b c m)

queued-append :
    (a b : ℕ) (bs : List ℕ) → queued a (bs ++ b ∷ []) ≡ queued a bs + (if a == b then 1 else 0)
unfolding queued
queued-append a b [] = ground arith
queued-append a b (c ∷ bs) = ground (arith, queued-append a b bs)

module _ (s : ServerMm) (pool : IsPool s) where
  -- A block that is handed out was not out before and is out now, and the pool stays in order. The
  -- queue begins with the block, so it is not empty.
  pub mm_alloc-IsPool :
      (a : ℕ) (rest : List ℕ)
      → s.allocable_blocks ≡ a ∷ rest
      → IsPool (mm_alloc s).1
        × ((mm_alloc s).0 ≡ a)
        × (is_allocated a s.allocated_blocks ≡ false)
        × (is_allocated a (mm_alloc s).1.allocated_blocks ≡ true)
  unfolding mm_alloc queued
  mm_alloc-IsPool a rest h =
      let run : mm_alloc s ≡ (
        a,
        record s { allocable_blocks = rest; allocated_blocks = mark a true s.allocated_blocks },
      ) =
        ground (arith, h) in
      let count : (b : ℕ)
          → queued b s.allocable_blocks ≡ (if b == a then 1 else 0) + queued b rest =
        λ b. ground (arith, h) in
      rw run (
        record {
          once = λ b. ground (arith, pool.once b, count b);
          apart = λ b g. ground (
            arith,
            pool.once b,
            pool.apart b,
            count b,
            is_allocated-mark a b true s.allocated_blocks,
          );
        },
        refl,
        ground (arith, pool.apart a, count a, Bool-cases (is_allocated a s.allocated_blocks)),
        ground (arith, is_allocated-mark a a true s.allocated_blocks),
      )

  -- A free keeps the pool in order. It works exactly on a block that is out, and after it the block is
  -- in, so that a second free of the block fails.
  pub mm_free-IsPool :
      (a : ℕ)
      → IsPool (mm_free a s).1
        × ((mm_free a s).0 ≡ is_allocated a s.allocated_blocks)
        × ((mm_free a (mm_free a s).1).0 ≡ false)
  unfolding mm_free
  mm_free-IsPool a = elim (Bool-cases (is_allocated a s.allocated_blocks)) [
    | inr e ↦ rw e (ground arith)
    | inl e ↦ rw e (
      record {
        once = λ b. ground (arith, pool.once b, pool.apart b, queued-append b a s.allocable_blocks);
        apart = λ b g. ground (
          arith,
          pool.apart b,
          queued-append b a s.allocable_blocks,
          is_allocated-mark a b false s.allocated_blocks,
        );
      },
      refl,
      ground (arith, is_allocated-mark a a false s.allocated_blocks),
    )
  ]
