-- ===== src/Kv/Log/Restart.antt =====
-- src/client_mm.cc: a client that writes, and starts again from its log (`mm_recovery`).
use fusee_fs.Prelude.{
  ℕ, suc, ◌<◌, ◌≡◌, Bool, Option, some, List, ◌∷◌, length, get_elem?, take, map, All,
}
use fusee_fs.Kv.Subblocks.{SubblockInfo, ClientMm}
use fusee_fs.Kv.Client.{KvOp}
use fusee_fs.Kv.Client.Slots.{first_replica}
use fusee_fs.Kv.Log.{Memory, log_writes}
use fusee_fs.Kv.Log.Records.{IsPlaced}
use fusee_fs.Kv.Log.Chain.{Apart, IsEnd, mm_traverse_log-log_writes}
use fusee_fs.Kv.Log.Recovery.{recover_visited, mm_recovery}
use fusee_fs.Kv.Log.Merged.{count_of}
use fusee_fs.Kv.Log.Unvisited.{unvisited, mm_recover_mm_blocks-unvisited}

-- A client that has written at least once and starts again has in its queue, behind the head, exactly the
-- subblocks of its blocks whose addresses are not those of the subblocks that its writes had taken, nor of the
-- next one. This is for a queue as in the traversal of the log, for blocks on the servers that there are, and for
-- fuels of two more than the number of writes and one more than that of the subblocks.
pub mm_recovery-log_writes :
    (p : SubblockInfo → Bool) (n garbage : ℕ) (unset : SubblockInfo) (subblocks : List SubblockInfo)
    (more : Option (List SubblockInfo)) (op : KvOp) (ops : List KvOp) (m : ClientMm)
    (s t end : SubblockInfo) (q : List SubblockInfo) (mem : Memory)
    → m.subblock_free_queue ≡ s ∷ t ∷ q
    → get_elem? (t ∷ q) (length ops) ≡ some end
    → All IsPlaced (s ∷ t ∷ q)
    → Apart (s ∷ t ∷ q)
    → IsEnd mem (first_replica end)
    → All (λ u. (first_replica u).0 < n) subblocks
    → let visited = map first_replica (take (suc (suc (length ops))) (s ∷ t ∷ q)) in
      (after : ClientMm) × (head : SubblockInfo) × (queue : List SubblockInfo) × (mm_recovery
          (suc (suc (suc (length ops))))
          (suc (length subblocks))
          m.subblock_sz
          n
          garbage
          unset
          subblocks
          (log_writes more (op ∷ ops) m mem)
          (first_replica s)
        ≡ some after)
      × (after.subblock_free_queue ≡ head ∷ queue)
      × (count_of p queue ≡ count_of p (unvisited visited subblocks))
unfolding mm_recovery recover_visited
mm_recovery-log_writes p n garbage unset subblocks more op ops m s t end q mem h he placed apart
      is_end on_server =
    rw (mm_traverse_log-log_writes more (op ∷ ops) m s end (t ∷ q) mem h he placed apart is_end) (
      mm_recover_mm_blocks-unvisited p m.subblock_sz n garbage unset (first_replica s)
        (first_replica t) (map first_replica (take (length ops) q)) subblocks on_server)
