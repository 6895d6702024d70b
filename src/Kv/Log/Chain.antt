-- ===== src/Kv/Log/Chain.antt =====
-- `mm_traverse_log` of src/client_mm.cc on the log that the writes of a client leave.
use fusee_fs.Prelude.{
  ℕ, zero, suc, ◌<◌, ◌≡◌, refl, sym, ap, subst, ◌∙◌, false, ◌==◌, Option, some, List, [], ◌∷◌,
  length, get_elem?, get_or, take, map, All, if_true, if_false, some_inj, arith,
}
use fusee_fs.Kv.Hash.{convert_40_to_64_bits}
use fusee_fs.Kv.Subblocks
use fusee_fs.Kv.Subblocks.{SubblockInfo, ClientMm, alloc_ctx}
use fusee_fs.Kv.Client.{KvOp, KvLogTail, RemoteAddr}
use fusee_fs.Kv.Client.Slots.{first_replica, update_log_tail}
use fusee_fs.Kv.Log.{Memory, write_log, write_tail, log_writes, visit, mm_traverse_log}
use fusee_fs.Kv.Log.Records.{is_at, write_tail-other, IsPlaced, write_tail-first, tagged_addr-tag}

-- No replica of one subblock is at the address of the first replica of another.
unfoldable pub Apart : List SubblockInfo → Type 0
Apart [] = Unit
Apart (s ∷ q) =
    All (λ t. (is_at (first_replica s) t ≡ false) × (is_at (first_replica t) s ≡ false)) q × Apart q

-- The record at an address has no next one, as in memory that was never written.
abbrev pub IsEnd : Memory → RemoteAddr → Type 0
IsEnd mem a = convert_40_to_64_bits (mem a.0 a.1).next_addr ≡ 0

mm_traverse_log-visit :
    (fuel : ℕ) (mem : Memory) (a : RemoteAddr)
    → 0 < a.1
    → mm_traverse_log (suc fuel) mem a
      ≡ visit a (
          mm_traverse_log fuel mem
            (get_or (mem a.0 a.1).next_addr 5 0, convert_40_to_64_bits (mem a.0 a.1).next_addr))
unfolding mm_traverse_log
mm_traverse_log-visit fuel mem a h = if_false (a.1 == 0) _ _ (ground (arith, h))

mm_traverse_log-over :
    (fuel : ℕ) (mem : Memory) (ptr_sid ptr_addr : ℕ)
    → ptr_addr ≡ 0
    → mm_traverse_log (suc fuel) mem (ptr_sid, ptr_addr) ≡ some []
unfolding mm_traverse_log
mm_traverse_log-over fuel mem ptr_sid ptr_addr h = if_true (ptr_addr == 0) _ _ (ground (arith, h))

module _ (P : SubblockInfo → Type 0) where
  All-get :
      (q : List SubblockInfo) (i : ℕ) (e : SubblockInfo) → All P q → get_elem? q i ≡ some e → P e
  All-get [] i e h k = absurd (ground (arith, k))
  All-get (s ∷ q) zero e h k = subst P (some_inj k) h.0
  All-get (s ∷ q) (suc i) e h k = All-get q i e h.1 k

  All-left : (Q : SubblockInfo → Type 0) (q : List SubblockInfo) → All (λ s. P s × Q s) q → All P q
  All-left Q [] h = h
  All-left Q (s ∷ q) h = (h.0.0, All-left Q q h.1)

get_elem?-low :
    (q : List SubblockInfo) (i : ℕ) (e : SubblockInfo) → get_elem? q i ≡ some e → i < length q
get_elem?-low [] i e h = absurd (ground (arith, h))
get_elem?-low (s ∷ q) zero e h = omega arith
get_elem?-low (s ∷ q) (suc i) e h = omega (arith, get_elem?-low q i e h)

module _ (more : Option (List SubblockInfo)) (subblock_sz : ℕ) where
  abbrev state : List SubblockInfo → SubblockInfo → ClientMm
  state q last = record {
    subblock_sz = subblock_sz;
    subblock_free_queue = q;
    last_allocated_info = last;
  }

  -- Writes to other subblocks do not reach an address.
  log_writes-other :
      (ops : List KvOp) (q : List SubblockInfo) (last : SubblockInfo) (mem : Memory)
      (a : RemoteAddr)
      → length ops < length q
      → All (λ s. is_at a s ≡ false) q
      → log_writes more ops (state q last) mem a.0 a.1 ≡ mem a.0 a.1
  unfolding log_writes write_log Subblocks.mm_alloc alloc_ctx
  log_writes-other [] q last mem a low h = refl
  log_writes-other (op ∷ ops) [] last mem a low h = absurd (omega (arith, low))
  log_writes-other (op ∷ ops) (s ∷ []) last mem a low h = absurd (omega (arith, low))
  log_writes-other (op ∷ ops) (s ∷ t ∷ q) last mem a low h =
      log_writes-other ops (t ∷ q) s _ a (omega (arith, low)) h.1 ∙ write_tail-other s _ mem a h.0

  -- The traversal, from the first subblock of the queue.
  traverse :
      (ops : List KvOp) (s : SubblockInfo) (q : List SubblockInfo) (last : SubblockInfo)
      (mem : Memory) (end : SubblockInfo)
      → get_elem? (s ∷ q) (length ops) ≡ some end
      → All IsPlaced (s ∷ q)
      → Apart (s ∷ q)
      → IsEnd mem (first_replica end)
      → mm_traverse_log
          (suc (suc (length ops)))
          (log_writes more ops (state (s ∷ q) last) mem)
          (first_replica s)
        ≡ some (map first_replica (take (suc (length ops)) (s ∷ q)))
  unfolding log_writes write_log Subblocks.mm_alloc alloc_ctx visit Apart update_log_tail
  traverse [] s q last mem end he placed apart is_end =
      let same : s ≡ end = some_inj he in
      let over : IsEnd mem (first_replica s) =
        subst (λ e. IsEnd mem (first_replica e)) (sym same) is_end in
      mm_traverse_log-visit 1 mem (first_replica s) placed.0.present
      ∙ ap (visit (first_replica s)) (mm_traverse_log-over 0 mem _ _ over)
  traverse (op ∷ ops) s [] last mem end he placed apart is_end = absurd (ground (arith, he))
  traverse (op ∷ ops) s (t ∷ q) last mem end he placed apart is_end =
      let tail =
        update_log_tail op
          (record { replicas = s; next = Subblocks.tag t; prev = Subblocks.tag last }) in
      let mem₁ = write_tail s tail mem in
      let after = log_writes more ops (state (t ∷ q) s) mem₁ in
      let kept : after (first_replica s).0 (first_replica s).1 ≡ tail =
        log_writes-other ops (t ∷ q) s mem₁ (first_replica s)
          (get_elem?-low (t ∷ q) (length ops) end he) (All-left _ _ (t ∷ q) apart.0)
        ∙ write_tail-first s tail mem placed.0 in
      let end₁ : IsEnd mem₁ (first_replica end) =
        ap (λ (r : KvLogTail). convert_40_to_64_bits r.next_addr)
          (write_tail-other s tail mem (first_replica end)
            (All-get _ (t ∷ q) (length ops) end apart.0 he).1)
        ∙ is_end in
      let next = tagged_addr-tag t placed.1.0 in
      mm_traverse_log-visit (suc (suc (length ops))) after (first_replica s) placed.0.present
      ∙ rw (kept, next.0, next.1)
          (ap (visit (first_replica s)) (traverse ops t q s mem₁ end he placed.1 apart.1 end₁))

-- A client that starts again and follows its log from its first subblock visits exactly the subblocks that it
-- had allocated, in order, and then the next one, whose record was not written; for a queue whose
-- subblocks are placed apart, with addresses of 48 bits in blocks of 256 bytes that are not 0. The fuel is two
-- more than the number of requests.
pub mm_traverse_log-log_writes :
    (more : Option (List SubblockInfo)) (ops : List KvOp) (m : ClientMm) (s end : SubblockInfo)
    (q : List SubblockInfo) (mem : Memory)
    → m.subblock_free_queue ≡ s ∷ q
    → get_elem? (s ∷ q) (length ops) ≡ some end
    → All IsPlaced (s ∷ q)
    → Apart (s ∷ q)
    → IsEnd mem (first_replica end)
    → mm_traverse_log (suc (suc (length ops))) (log_writes more ops m mem) (first_replica s)
      ≡ some (map first_replica (take (suc (length ops)) (s ∷ q)))
mm_traverse_log-log_writes more ops m s end q mem h he placed apart is_end =
    subst
      (λ queue.
        mm_traverse_log (suc (suc (length ops)))
          (log_writes more ops (record m { subblock_free_queue = queue }) mem) (first_replica s)
        ≡ some (map first_replica (take (suc (length ops)) (s ∷ q))))
      (sym h)
      (traverse more m.subblock_sz ops s q m.last_allocated_info mem end he placed apart is_end)
