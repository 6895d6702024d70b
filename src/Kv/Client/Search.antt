-- ===== src/Kv/Client/Search.antt =====
-- src/client.cc: the search of a client (`kv_search_sync`, and `kv_search` for fibers).
use fusee_fs.Prelude.{
  ℕ, ◌+◌, true, false, ◌&&◌, Option, none, some, List, [], ◌∷◌, Bytes, length, get_elem?,
  if◌then◌else◌,
}
use fusee_fs.Kv.Buckets.{slot_at}
use fusee_fs.Kv.Candidates.{Candidate}
use fusee_fs.Kv.Client.LocalCache.{LocalCacheEntry, update_cache}
use fusee_fs.Kv.Client.Address.{log_header_size}
use fusee_fs.Kv.Client.{KvObject, RemoteAddr, KvReqCtx, Network, Config, State}
use fusee_fs.Kv.Client.Slots.{prepare_request, remote_slot_addr, find_match_kv_idx, cached_matches}
use fusee_fs.Kv.Client.Phases.{read_cached, find_and_read, count_access}

unfoldable pub addr_values : List RemoteAddr → List ℕ
addr_values [] = []
addr_values (a ∷ more) = a.1 ∷ addr_values more

-- What the cache learns from the value that was found.
unfoldable pub learn :
    Candidate → KvReqCtx → List (Bytes × LocalCacheEntry) → List (Bytes × LocalCacheEntry)
unfolding slot_at update_cache remote_slot_addr addr_values
learn c ctx cache = elim (slot_at ctx.buckets c.bucket_idx c.slot_idx) [
  | none ↦ cache
  | some slot ↦
      update_cache ctx.key slot
        (addr_values (remote_slot_addr c.bucket_idx c.slot_idx ctx.tbl_addr_info.replicas)) cache
]

module _ {ℓ} {W : Type ℓ} (net : Network W) (cfg : Config) where
  unfoldable pub kv_search_read_buckets_sync : State W → State W
  unfolding read_cached
  kv_search_read_buckets_sync s =
      let w = net.wait s.world in
      let s₁ = read_cached net cfg (record s {
        world = w;
        ctx = record s.ctx { buckets = net.read_buckets s.ctx.tbl_addr_info.replicas w };
      }) in
      record s₁ { ctx = record s₁.ctx { is_finished = false } }

  unfoldable pub kv_search_read_kv_sync : State W → State W
  unfolding find_and_read count_access cached_matches
  kv_search_read_kv_sync s =
      let miss = find_and_read net cfg s in
      elim s.ctx.cached [
        | none ↦ miss
        | some (e, o) ↦
            if s.ctx.use_cache && cached_matches s.ctx.local_cache_addr s.ctx.l_addr s.ctx.key o
            then record s {
              cache = count_access net cfg s.ctx.key s.cache;
              ctx = record s.ctx {
                value_addr = some (s.ctx.local_cache_addr + log_header_size + length o.key);
                is_finished = true;
              };
            }
            else miss
      ]

  -- From the value that `find_match_kv_idx` gives.
  unfoldable pub search_result : Option (Candidate × KvObject) → State W → State W
  unfolding learn
  search_result none s = record s { ctx = record s.ctx { value_addr = none; is_finished = true } }
  search_result (some (c, o)) s = record s {
    cache = if s.ctx.use_cache then learn c s.ctx s.cache else s.cache;
    ctx = record s.ctx {
      value_addr = some (c.l_kv_addr + log_header_size + length o.key);
      is_finished = true;
    };
  }

  -- The value at an index, if there is one.
  unfoldable pub read_at : Option ℕ → List (Candidate × KvObject) → Option (Candidate × KvObject)
  read_at none kv_read = none
  read_at (some i) kv_read = get_elem? kv_read i

  unfoldable pub kv_search_check_kv : State W → State W
  unfolding search_result read_at find_match_kv_idx
  kv_search_check_kv s =
      if s.ctx.is_finished
      then s
      else search_result
          (read_at (find_match_kv_idx 0 s.ctx.l_addr s.ctx.key s.ctx.kv_read) s.ctx.kv_read) s

  -- `kv_search_sync`, whose result is `value_addr` of the context.
  unfoldable pub kv_search_sync : State W → State W
  unfolding prepare_request kv_search_read_buckets_sync kv_search_read_kv_sync kv_search_check_kv
  kv_search_sync s = kv_search_check_kv (
      kv_search_read_kv_sync
        (kv_search_read_buckets_sync (record s { ctx = prepare_request cfg s.ctx })))

  -- The same for fibers, where the second phase first tests whether the request is finished.
  unfoldable pub kv_search_read_kv : State W → State W
  unfolding kv_search_read_kv_sync
  kv_search_read_kv s = if s.ctx.is_finished then s else kv_search_read_kv_sync s

  unfoldable pub kv_search : State W → State W
  unfolding prepare_request kv_search_read_buckets_sync kv_search_read_kv kv_search_check_kv
  kv_search s = kv_search_check_kv (
      kv_search_read_kv
        (kv_search_read_buckets_sync (record s { ctx = prepare_request cfg s.ctx })))
