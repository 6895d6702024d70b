-- ===== src/Kv/Log/Merged.antt =====
-- The rounds of `mm_recover_mm_blocks` over the queues of the servers end, and lose no subblock.
use fusee_fs.Prelude.{
  ℕ, zero, suc, ◌+◌, ◌<◌, ◌≤◌, ◌≡◌, refl, sym, ap, ◌∙◌, Bool, Option, some, List, [], ◌∷◌, ◌++◌,
  length, drop, length-drop, arith, if◌then◌else◌,
}
use fusee_fs.Kv.Subblocks.{SubblockInfo}
use fusee_fs.Kv.Log.Recovery.{front, fronts, without_fronts, behind, after_round, merge}

front_none : (q more : List SubblockInfo) → length q ≤ 0 → front q more ≡ more
unfolding front
front_none [] more h = refl
front_none (s ∷ q) more h = absurd (omega (arith, h))

front_rest : (q more : List SubblockInfo) → front q more ≡ [] → (q ≡ []) × (more ≡ [])
unfolding front
front_rest [] more h = (refl, h)
front_rest (s ∷ q) more h = absurd cc

module _ (p : SubblockInfo → Bool) where
  -- How many subblocks of a list pass the test.
  unfoldable pub count_of : List SubblockInfo → ℕ
  count_of [] = 0
  count_of (s ∷ q) = (if p s then 1 else 0) + count_of q

  pub count_of-append : (q r : List SubblockInfo) → count_of (q ++ r) ≡ count_of q + count_of r
  unfolding count_of
  count_of-append [] r = omega arith
  count_of-append (s ∷ q) r = omega (arith, count_of-append q r)

  -- How many there are in the queues of `n` servers from `i` on.
  unfoldable pub total : ℕ → ℕ → (ℕ → List SubblockInfo) → ℕ
  unfolding count_of
  total zero i queues = 0
  total (suc n) i queues = count_of (queues i) + total n (i + 1) queues

  count_of-front :
      (q more : List SubblockInfo)
      → count_of (front q more) + count_of (drop 1 q) ≡ count_of q + count_of more
  unfolding count_of front
  count_of-front [] more = omega arith
  count_of-front (s ∷ q) more = omega arith

  total-fronts :
      (n i : ℕ) (queues : ℕ → List SubblockInfo)
      → total n i queues ≡ count_of (fronts n i queues) + total n i (without_fronts queues)
  unfolding total count_of fronts without_fronts
  total-fronts zero i queues = refl
  total-fronts (suc n) i queues =
      omega
        (arith, total-fronts n (i + 1) queues, count_of-front (queues i) (fronts n (i + 1) queues))

  total_empty :
      (n i : ℕ) (queues : ℕ → List SubblockInfo) → fronts n i queues ≡ [] → total n i queues ≡ 0
  unfolding total count_of fronts
  total_empty zero i queues h = refl
  total_empty (suc n) i queues h =
      let (own, rest) = front_rest (queues i) (fronts n (i + 1) queues) h in
      let none_here : count_of (queues i) ≡ 0 = ap count_of own in
      omega (arith, none_here, total_empty n (i + 1) queues rest)

  fronts_empty :
      (n i : ℕ) (queues : ℕ → List SubblockInfo)
      → ((j : ℕ) → j < i + n → length (queues j) ≤ 0)
      → fronts n i queues ≡ []
  unfolding fronts
  fronts_empty zero i queues h = refl
  fronts_empty (suc n) i queues h =
      front_none (queues i) (fronts n (i + 1) queues) (h i (omega arith))
      ∙ fronts_empty n (i + 1) queues (λ j low. h j (omega (arith, low)))

  after_round-total :
      (n : ℕ) (queues : ℕ → List SubblockInfo) (taken : List SubblockInfo)
      (rest : Option (List SubblockInfo))
      → fronts n 0 queues ≡ taken
      → (r : List SubblockInfo) × (rest ≡ some r) × (count_of r ≡ total n 0 (without_fronts queues))
      → (r : List SubblockInfo) × (after_round taken rest ≡ some r)
        × (count_of r ≡ total n 0 queues)
  unfolding after_round behind count_of
  after_round-total n queues [] rest h (r, e, c) = ([], refl, sym (total_empty n 0 queues h))
  after_round-total n queues (s ∷ taken) rest h (r, e, c) =
      let split : total n 0 queues ≡ count_of (s ∷ taken) + total n 0 (without_fronts queues) =
        rw h at (total-fronts n 0 queues) in
      ((s ∷ taken) ++ r, rw e refl, omega (arith, split, c, count_of-append (s ∷ taken) r))

  -- With more fuel than any queue is long, the rounds end, with as many subblocks as the queues had.
  pub merge-total :
      (fuel n : ℕ) (queues : ℕ → List SubblockInfo)
      → ((j : ℕ) → j < n → length (queues j) ≤ fuel)
      → (r : List SubblockInfo) × (merge (suc fuel) n queues ≡ some r)
        × (count_of r ≡ total n 0 queues)
  unfolding merge after_round count_of without_fronts
  merge-total zero n queues h =
      let over = fronts_empty n 0 queues (λ j low. h j (omega (arith, low))) in
      rw over ([], refl, sym (total_empty n 0 queues over))
  merge-total (suc fuel) n queues h =
      after_round-total n queues (fronts n 0 queues) (merge (suc fuel) n (without_fronts queues))
        refl
        (merge-total fuel n (without_fronts queues)
          (λ j low. omega (arith, h j low, length-drop 1 (queues j))))
