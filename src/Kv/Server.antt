-- ===== src/Kv/Server.antt =====
-- src/server.cc: what a memory server does with a request. `rkey` is the key of its registered
-- memory; the reply goes out through the network manager.
use fusee_fs.Prelude.{ℕ, ◌==◌, if◌then◌else◌}
use fusee_fs.Kv.ServerMm.{ServerMm, mm_alloc, mm_alloc_subtable}

-- `KVMsgType`, the requests and the replies that the server knows.
abbrev pub req_connect : ℕ
req_connect = 0

abbrev pub req_alloc : ℕ
req_alloc = 1

abbrev pub req_alloc_subtable : ℕ
req_alloc_subtable = 2

abbrev pub rep_connect : ℕ
rep_connect = 3

abbrev pub rep_alloc : ℕ
rep_alloc = 4

abbrev pub rep_alloc_subtable : ℕ
rep_alloc_subtable = 5

-- The parts of `KVMsg` that a server sends, before they are put into network order.
pub record Reply : Type 0 where
  pub kind : ℕ
  pub id : ℕ
  pub addr : ℕ
  pub rkey : ℕ

module _ (server_id rkey : ℕ) where
  unfoldable pub server_on_connect : ServerMm → Reply × ServerMm
  server_on_connect s =
      (record { kind = rep_connect; id = server_id; addr = s.base_addr; rkey = rkey }, s)

  unfoldable pub server_on_alloc : ServerMm → Reply × ServerMm
  server_on_alloc s =
      let (alloc_addr, s') = mm_alloc s in
      (record { kind = rep_alloc; id = server_id; addr = alloc_addr; rkey = rkey }, s')

  unfoldable pub server_on_alloc_subtable : ServerMm → Reply × ServerMm
  server_on_alloc_subtable s =
      let (subtable_addr, s') = mm_alloc_subtable s in
      (record { kind = rep_alloc_subtable; id = server_id; addr = subtable_addr; rkey = rkey }, s')

  -- One turn of `thread_main` that received a request: every kind but two is an allocation.
  unfoldable pub serve : ℕ → ServerMm → Reply × ServerMm
  unfolding server_on_connect server_on_alloc server_on_alloc_subtable
  serve kind s =
      if kind == req_connect
      then server_on_connect s
      else if kind == req_alloc_subtable
      then server_on_alloc_subtable s
      else server_on_alloc s
