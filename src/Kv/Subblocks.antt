-- ===== src/Kv/Subblocks.antt =====
-- src/client_mm.cc: the queue of free subblocks of a client. A subblock is the list of its replicas,
-- as many as the configuration has.
use fusee_fs.Prelude.{
  ℕ, zero, suc, ◌+◌, ◌*◌, ◌/◌, ◌%◌, ◌^◌, ◌≡◌, refl, ap, bit_and, bit_or, Option, none, some, List,
  [], ◌∷◌, ◌++◌, All, arith,
}
use fusee_fs.Prelude.Word.{u32, u64, IsU8, ◌<<◌, ◌>>◌}
use fusee_fs.Prelude.Bits.{or_fields, and_mask}

-- One entry of each of the three lists of `SubblockInfo`, or of `ClientMMBlock`.
pub record Replica : Type 0 where
  pub addr : ℕ
  pub rkey : ℕ
  pub server_id : ℕ

abbrev pub SubblockInfo : Type 0
SubblockInfo = List Replica

pub record ClientMm : Type 0 where
  pub subblock_sz : ℕ
  pub subblock_free_queue : List SubblockInfo
  pub last_allocated_info : SubblockInfo

-- `ClientMMAllocCtx`: for the neighbours, each address with its server in the low byte, and its key.
pub record ClientMmAllocCtx : Type 0 where
  pub replicas : List Replica
  pub next : List (ℕ × ℕ)
  pub prev : List (ℕ × ℕ)

-- The subblock number `idx` of a block: `gen_subblock_info`, and the body of `local_reg_blocks`.
unfoldable pub gen_subblock_info : ℕ → List Replica → ℕ → SubblockInfo
gen_subblock_info subblock_sz [] idx = []
gen_subblock_info subblock_sz (r ∷ rs) idx =
    record r { addr = u64 (r.addr + u32 (idx * subblock_sz)) }
    ∷ gen_subblock_info subblock_sz rs idx

-- The loop of `local_reg_blocks` over `count` subblocks from number `i`, which skips the bit map.
unfoldable pub reg_subblocks : ℕ → ℕ → List Replica → ClientMm → ClientMm
unfolding gen_subblock_info
reg_subblocks zero i block s = s
reg_subblocks (suc count) i block s = reg_subblocks count (i + 1) block (record s {
  subblock_free_queue = s.subblock_free_queue ++ gen_subblock_info s.subblock_sz block i ∷ [];
})

unfoldable pub tag : List Replica → List (ℕ × ℕ)
tag [] = []
tag (r ∷ rs) = (bit_or r.addr r.server_id, r.rkey) ∷ tag rs

unfoldable pub untag : List (ℕ × ℕ) → List Replica
untag [] = []
untag ((a, k) ∷ ps) =
    record { addr = (a >> 8) << 8; rkey = k; server_id = bit_and a 0xFF } ∷ untag ps

-- The end of `mm_alloc`, with the queue behind the subblock: its head is the next one.
unfoldable pub alloc_ctx :
    SubblockInfo → List SubblockInfo → ClientMm → Option ClientMmAllocCtx × ClientMm
unfolding tag
alloc_ctx subblock [] s = (none, record s { subblock_free_queue = [] })
alloc_ctx subblock (next ∷ queue) s = (
  some (record { replicas = subblock; next = tag next; prev = tag s.last_allocated_info }),
  record s { subblock_free_queue = next ∷ queue; last_allocated_info = subblock },
)

-- `mm_alloc` for one subblock. `more` is what a new block from a server adds to the queue, `none`
-- where there is no space; it is asked for when the last subblock was taken. No context is the
-- address 0 of the source, or its assertion on an empty queue.
unfoldable pub mm_alloc : Option (List SubblockInfo) → ClientMm → Option ClientMmAllocCtx × ClientMm
unfolding alloc_ctx
mm_alloc more s = elim s.subblock_free_queue [
  | [] ↦ (none, s)
  | subblock ∷ queue ↦ elim queue [
    | [] ↦ elim more [
      | none ↦ (none, record s { subblock_free_queue = [] })
      | some blocks ↦ alloc_ctx subblock blocks s
    ]
    | next ∷ rest ↦ alloc_ctx subblock (next ∷ rest) s
  ]
]

unfoldable pub mm_free_cur : ClientMmAllocCtx → ClientMm → ClientMm
unfolding untag
mm_free_cur ctx s = record s {
  subblock_free_queue = ctx.replicas ∷ s.subblock_free_queue;
  last_allocated_info = untag ctx.prev;
}

-- An address that leaves its low byte free for the server's number.
pub record IsTagged (r : Replica) : Type 0 where
  pub aligned : r.addr % 256 ≡ 0
  pub server_fits : IsU8 r.server_id

untag-tag : (rs : List Replica) → All IsTagged rs → untag (tag rs) ≡ rs
unfolding tag untag
untag-tag [] h = refl
untag-tag (r ∷ rs) h =
    let own = h.0 in
    let joined : bit_or r.addr r.server_id ≡ r.addr + r.server_id = tag_sum r own in
    let low : bit_and (r.addr + r.server_id) 0xFF ≡ r.server_id =
      omega (arith, and_mask 8 (r.addr + r.server_id), own.aligned, own.server_fits) in
    let high : ((r.addr + r.server_id) >> 8) << 8 ≡ r.addr =
      omega (arith, own.aligned, own.server_fits) in
    rw (joined, low, high) (ap (λ (t : List Replica). r ∷ t) (untag-tag rs h.1))
  where
    tag_sum : (q : Replica) → IsTagged q → bit_or q.addr q.server_id ≡ q.addr + q.server_id
    tag_sum q own =
        let whole : q.addr / 256 * 2 ^ 8 ≡ q.addr = omega (arith, own.aligned) in
        rw whole at (or_fields 8 (q.addr / 256) q.server_id own.server_fits)

-- An allocation that is taken back leaves the queue and the last allocated subblock as they were, where
-- the queue has a second subblock and the last one leaves room for the server in its addresses.
pub mm_free_cur-mm_alloc :
    (more : Option (List SubblockInfo)) (s : ClientMm) (first second : SubblockInfo)
    (queue : List SubblockInfo)
    → s.subblock_free_queue ≡ first ∷ second ∷ queue
    → All IsTagged s.last_allocated_info
    → (ctx : ClientMmAllocCtx) × ((mm_alloc more s).0 ≡ some ctx)
      × (ctx.replicas ≡ first)
      × (mm_free_cur ctx (mm_alloc more s).1 ≡ s)
unfolding mm_alloc alloc_ctx mm_free_cur
mm_free_cur-mm_alloc more s first second queue h fits =
    let back = untag-tag s.last_allocated_info fits in
    rw h (
      record { replicas = first; next = tag second; prev = tag s.last_allocated_info },
      refl,
      refl,
      rw back refl,
    )
