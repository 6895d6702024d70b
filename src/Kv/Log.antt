-- ===== src/Kv/Log.antt =====
-- src/client_mm.cc: the log of a client, which its subblocks form: the tail of each record holds the
-- address of the subblock that the next allocation gives, so that a client that starts again finds what it
-- had allocated (`mm_traverse_log`).
mod Records
pub mod Chain
pub mod Recovery
pub mod Merged
pub mod Unvisited
pub mod Restart
mod Examples
use fusee_fs.Prelude.{
  ℕ, zero, suc, ◌==◌, ◌&&◌, Option, none, some, List, [], ◌∷◌, get_or, if◌then◌else◌,
}
use fusee_fs.Kv.Hash.{convert_40_to_64_bits}
use fusee_fs.Kv.Subblocks
use fusee_fs.Kv.Subblocks.{Replica, SubblockInfo, ClientMm, ClientMmAllocCtx}
use fusee_fs.Kv.Client.{KvOp, KvLogTail, RemoteAddr}
use fusee_fs.Kv.Client.Slots.{update_log_tail}

-- The tail of the record that begins at an address of a server.
abbrev pub Memory : Type 0
Memory = ℕ → ℕ → KvLogTail

unfoldable pub put_tail : Replica → KvLogTail → Memory → Memory
put_tail r tail mem server_id addr =
    if (server_id == r.server_id) && (addr == r.addr) then tail else mem server_id addr

-- The record is written to every replica of the subblock.
unfoldable pub write_tail : List Replica → KvLogTail → Memory → Memory
unfolding put_tail
write_tail [] tail mem = mem
write_tail (r ∷ rs) tail mem = write_tail rs tail (put_tail r tail mem)

-- The write after an allocation; a request whose allocation fails writes nothing.
unfoldable pub write_log : KvOp → Option ClientMmAllocCtx → Memory → Memory
unfolding write_tail update_log_tail
write_log op none mem = mem
write_log op (some ctx) mem = write_tail ctx.replicas (update_log_tail op ctx) mem

-- The memory after a sequence of requests; `more` is what a new block would add to the queue.
unfoldable pub log_writes : Option (List SubblockInfo) → List KvOp → ClientMm → Memory → Memory
unfolding write_log Subblocks.mm_alloc
log_writes more [] s mem = mem
log_writes more (op ∷ ops) s mem =
    let (r, next) = Subblocks.mm_alloc more s in log_writes more ops next (write_log op r mem)

unfoldable pub visit : RemoteAddr → Option (List RemoteAddr) → Option (List RemoteAddr)
visit a none = none
visit a (some visited) = some (a ∷ visited)

-- `mm_traverse_log` from an address, on fuel: the records that it puts into `recover_log_info_list_`.
unfoldable pub mm_traverse_log : ℕ → Memory → RemoteAddr → Option (List RemoteAddr)
unfolding visit
mm_traverse_log zero mem a = none
mm_traverse_log (suc fuel) mem (ptr_sid, ptr_addr) =
    let next_addr = (mem ptr_sid ptr_addr).next_addr in
    let rest = mm_traverse_log fuel mem (get_or next_addr 5 0, convert_40_to_64_bits next_addr) in
    if ptr_addr == 0 then some [] else visit (ptr_sid, ptr_addr) rest
