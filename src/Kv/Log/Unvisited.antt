-- ===== src/Kv/Log/Unvisited.antt =====
-- Which subblocks a client that starts again has in its queue.
use fusee_fs.Prelude.{
  ℕ, zero, suc, ◌+◌, ◌<◌, ◌≤◌, ◌≡◌, refl, ap, ◌∙◌, Bool, true, false, ◌==◌, ◌⊎◌, inl, inr, some,
  List, [], ◌∷◌, ◌++◌, length, length-append, All, Bool-cases, if_true, if_false, ==_iff, arith,
  if◌then◌else◌,
}
use fusee_fs.Kv.Subblocks.{SubblockInfo, ClientMm}
use fusee_fs.Kv.Client.{RemoteAddr}
use fusee_fs.Kv.Client.Slots.{first_replica}
use fusee_fs.Kv.Log.Recovery.{
  pr_addr, is_visited, queue_head_pr_addr, last_allocated_pr_addr, Recovered, push,
  recover_subblock, recover_subblocks, restore, mm_recover_mm_blocks,
}
use fusee_fs.Kv.Log.Merged.{count_of, count_of-append, total, merge-total}

-- The subblocks at no address that the traversal has visited.
unfoldable pub unvisited : List RemoteAddr → List SubblockInfo → List SubblockInfo
unvisited visited [] = []
unvisited visited (s ∷ subblocks) =
    let rest = unvisited visited subblocks in
    if is_visited visited (pr_addr (first_replica s)) then rest else s ∷ rest

queue_head_allocated :
    (a : RemoteAddr) (visited : List RemoteAddr)
    → is_visited (a ∷ visited) (queue_head_pr_addr (a ∷ visited)) ≡ true
unfolding is_visited queue_head_pr_addr
queue_head_allocated a [] = ground arith
queue_head_allocated a (b ∷ visited) = ground (arith, queue_head_allocated b visited)

last_allocated_allocated :
    (garbage : ℕ) (a b : RemoteAddr) (visited : List RemoteAddr)
    → is_visited (a ∷ b ∷ visited) (last_allocated_pr_addr garbage (a ∷ b ∷ visited)) ≡ true
unfolding is_visited last_allocated_pr_addr
last_allocated_allocated garbage a b [] = ground arith
last_allocated_allocated garbage a b (c ∷ visited) =
    ground (arith, last_allocated_allocated garbage b c visited)

module _ (p : SubblockInfo → Bool) where
  total-push_below :
      (n i server_id : ℕ) (s : SubblockInfo) (queues : ℕ → List SubblockInfo)
      → server_id < i
      → total p n i (push server_id s queues) ≡ total p n i queues
  unfolding total push
  total-push_below zero i server_id s queues h = refl
  total-push_below (suc n) i server_id s queues h =
      let other : (i == server_id) ≡ false = ground (arith, h) in
      rw other (omega (arith, total-push_below n (i + 1) server_id s queues (omega (arith, h))))

  total-push :
      (n i server_id : ℕ) (s : SubblockInfo) (queues : ℕ → List SubblockInfo)
      → i ≤ server_id
      → server_id < i + n
      → total p n i (push server_id s queues) ≡ total p n i queues + count_of p (s ∷ [])
  unfolding total push count_of
  total-push zero i server_id s queues h k = absurd (omega (arith, h, k))
  total-push (suc n) i server_id s queues h k = elim (Bool-cases (i == server_id)) [
    | inl e ↦
        let below = total-push_below n (i + 1) server_id s queues (ground (arith, e)) in
        let own : count_of p (push server_id s queues i)
            ≡ count_of p (queues i) + count_of p (s ∷ []) =
          ap (count_of p) (if_true (i == server_id) _ _ e)
          ∙ count_of-append p (queues i) (s ∷ []) in
        omega (arith, below, own)
    | inr e ↦
        let rest = total-push n (i + 1) server_id s queues (ground (arith, e)) (omega (arith, k)) in
        let own : count_of p (push server_id s queues i) ≡ count_of p (queues i) =
          ap (count_of p) (if_false (i == server_id) _ _ e) in
        omega (arith, rest, own)
  ]

length-push :
    (i : ℕ) (s : SubblockInfo) (q : ℕ → List SubblockInfo) (j : ℕ)
    → length (push i s q j) ≤ length (q j) + 1
unfolding push
length-push i s q j = elim (Bool-cases (j == i)) [
  | inl e ↦
      let now = ap length (if_true (j == i) (q j ++ s ∷ []) (q j) e) in
      omega (arith, now, length-append (q j) (s ∷ []))
  | inr e ↦ let now = ap length (if_false (j == i) (q j ++ s ∷ []) (q j) e) in omega (arith, now)
]

module _ (garbage : ℕ) (visited : List RemoteAddr)
    (head_known : is_visited visited (queue_head_pr_addr visited) ≡ true)
    (last_known : is_visited visited (last_allocated_pr_addr garbage visited) ≡ true) where
  -- A subblock is put into the queue of its server exactly where its address was not visited.
  recover_subblock-cases :
      (s : SubblockInfo) (r : Recovered)
      → let cur = pr_addr (first_replica s) in
        let after = (recover_subblock garbage visited s r).all_subblock_queue in
        ((is_visited visited cur ≡ true) × (after ≡ r.all_subblock_queue))
        ⊎ ((is_visited visited cur ≡ false)
            × (after ≡ push (first_replica s).0 s r.all_subblock_queue))
  unfolding recover_subblock
  recover_subblock-cases s r =
      let cur = pr_addr (first_replica s) in
      elim (Bool-cases (cur == queue_head_pr_addr visited)) [
        | inl e ↦ inl (
          ap (is_visited visited) ((==_iff cur (queue_head_pr_addr visited)).0 e) ∙ head_known,
          ap (λ (t : Recovered). t.all_subblock_queue) (if_true _ _ _ e),
        )
        | inr other ↦ elim (Bool-cases (cur == last_allocated_pr_addr garbage visited)) [
          | inl e ↦ inl (
            ap (is_visited visited) ((==_iff cur (last_allocated_pr_addr garbage visited)).0 e)
                ∙ last_known,
            ap (λ (t : Recovered). t.all_subblock_queue) (if_false _ _ _ other ∙ if_true _ _ _ e),
          )
          | inr other₂ ↦ elim (Bool-cases (is_visited visited cur)) [
            | inl e ↦ inl (
              e,
              ap (λ (t : Recovered). t.all_subblock_queue)
                  (if_false _ _ _ other ∙ if_false _ _ _ other₂ ∙ if_true _ _ _ e),
            )
            | inr e ↦ inr (
              e,
              ap (λ (t : Recovered). t.all_subblock_queue)
                  (if_false _ _ _ other ∙ if_false _ _ _ other₂ ∙ if_false _ _ _ e),
            )
          ]
        ]
      ]

  recover_subblocks-total :
      (p : SubblockInfo → Bool) (n : ℕ) (subblocks : List SubblockInfo) (r : Recovered)
      → All (λ s. (first_replica s).0 < n) subblocks
      → total p n 0 (recover_subblocks garbage visited subblocks r).all_subblock_queue
        ≡ total p n 0 r.all_subblock_queue + count_of p (unvisited visited subblocks)
  unfolding recover_subblocks unvisited count_of
  recover_subblocks-total p n [] r h = omega arith
  recover_subblocks-total p n (s ∷ subblocks) r h =
      let u = recover_subblock garbage visited s r in
      let rest = recover_subblocks-total p n subblocks u h.1 in
      elim (recover_subblock-cases s r) [
        | inl (known, same) ↦
            let now = ap (total p n 0) same in
            let left = ap (count_of p) (
              if_true (is_visited visited (pr_addr (first_replica s))) (unvisited visited subblocks)
                (s ∷ unvisited visited subblocks) known) in
            omega (arith, rest, now, left)
        | inr (free, pushed) ↦
            let now =
              ap (total p n 0) pushed
              ∙ total-push p n 0 (first_replica s).0 s r.all_subblock_queue (omega arith)
                  (omega (arith, h.0)) in
            let left = ap (count_of p) (
              if_false (is_visited visited (pr_addr (first_replica s)))
                (unvisited visited subblocks) (s ∷ unvisited visited subblocks) free) in
            omega (arith, rest, now, left)
      ]

  -- No queue is longer than the list of all subblocks.
  recover_subblocks-length :
      (j : ℕ) (subblocks : List SubblockInfo) (r : Recovered)
      → length ((recover_subblocks garbage visited subblocks r).all_subblock_queue j)
        ≤ length (r.all_subblock_queue j) + length subblocks
  unfolding recover_subblocks
  recover_subblocks-length j [] r = omega arith
  recover_subblocks-length j (s ∷ subblocks) r =
      let u = recover_subblock garbage visited s r in
      let rest = recover_subblocks-length j subblocks u in
      elim (recover_subblock-cases s r) [
        | inl (known, same) ↦
            let now = ap (λ (q : ℕ → List SubblockInfo). length (q j)) same in
            omega (arith, rest, now)
        | inr (free, pushed) ↦
            let now = ap (λ (q : ℕ → List SubblockInfo). length (q j)) pushed in
            omega (arith, rest, now, length-push (first_replica s).0 s r.all_subblock_queue j)
      ]

empty_queues : (p : SubblockInfo → Bool) (n i : ℕ) → total p n i (λ j. []) ≡ 0
unfolding total count_of
empty_queues p zero i = refl
empty_queues p (suc n) i = omega (arith, empty_queues p n (i + 1))

-- A client that starts again with a log of at least two records ends its rounds, and its queue is the head
-- and then, as often as they are among the subblocks of its blocks, those that the log did not visit: none that it
-- had allocated, and none is lost. This is for blocks on the servers that there are; the fuel is one more
-- than the number of subblocks.
pub mm_recover_mm_blocks-unvisited :
    (p : SubblockInfo → Bool) (subblock_sz n garbage : ℕ) (unset : SubblockInfo) (a b : RemoteAddr)
    (visited : List RemoteAddr) (subblocks : List SubblockInfo)
    → All (λ s. (first_replica s).0 < n) subblocks
    → (m : ClientMm) × (head : SubblockInfo) × (queue : List SubblockInfo) × (mm_recover_mm_blocks
          (suc (length subblocks))
          subblock_sz
          n
          garbage
          unset
          (a ∷ b ∷ visited)
          subblocks
        ≡ some m)
      × (m.subblock_free_queue ≡ head ∷ queue)
      × (count_of p queue ≡ count_of p (unvisited (a ∷ b ∷ visited) subblocks))
unfolding mm_recover_mm_blocks restore
mm_recover_mm_blocks-unvisited p subblock_sz n garbage unset a b visited subblocks on_server =
    let known = queue_head_allocated a (b ∷ visited) in
    let last = last_allocated_allocated garbage a b visited in
    let start : Recovered = record {
      all_subblock_queue = λ i. [];
      queue_head_info = unset;
      last_allocated_info = unset;
    } in
    let r = recover_subblocks garbage (a ∷ b ∷ visited) subblocks start in
    let (queue, merged, whole) = merge-total p (length subblocks) n r.all_subblock_queue (λ j low.
      omega
        (arith, recover_subblocks-length garbage (a ∷ b ∷ visited) known last j subblocks start)) in
    let sum =
      recover_subblocks-total garbage (a ∷ b ∷ visited) known last p n subblocks start on_server in
    (
      _,
      r.queue_head_info,
      queue,
      ap (restore subblock_sz r) merged,
      refl,
      omega (arith, whole, sum, empty_queues p n 0),
    )
