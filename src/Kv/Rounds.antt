-- ===== src/Kv/Rounds.antt =====
-- src/client.cc: a round of writes to one slot of the index, by any number of clients, as steps that
-- interleave: the swaps of `kv_modify_bk_0_cas_list` on the backups (in `kv_update_backup_consensus_0`
-- and its likes), those of `kv_modify_bk_1_cas_list` (in `modify_backup_idx_consensus_1`), and the one of
-- `kv_modify_pr_cas_list` on the primary slot (in `modify_primary_idx`). Each step is one swap, which
-- the network carries out atomically. All clients of a round expect the same value, and a client is
-- named by the value that it writes, whose address is its own: a value stands for one client. Deletes,
-- which all write 0 (`kv_delete_backup_consensus_0`), are not clients of a round here where there is more
-- than one of them.
pub mod Agreement
mod View
mod Puts
mod Follows
mod Moves
mod Examples
use fusee_fs.Prelude.{
  ℕ, zero, suc, ◌+◌, ◌≡◌, ◌≢◌, ◌<◌, Bool, true, ◌&&◌, Option, none, some, List, [], ◌∷◌, ◌==◌,
  if◌then◌else◌,
}
use fusee_fs.Kv.Consensus.{CasRequest, check_cas_consensus_0_sync}
use fusee_fs.Kv.Consensus.Winner.{wins}

-- What the network does to a word in memory: the contents after a swap, from the contents before it,
-- the value that is compared and the new value. The swap gives back the contents before it.
pub record CompareAndSwap : Type 0 where
  pub swap : ℕ → ℕ → ℕ → ℕ
  pub swap_same : (e v : ℕ) → swap e e v ≡ v
  pub swap_other : (b e v : ℕ) → b ≢ e → swap b e v ≡ b

-- The slot in the primary index and in each backup, and what the first swap of a client on a backup gave
-- back.
pub record Round : Type 0 where
  pub primary : ℕ
  pub backup : ℕ → ℕ
  pub seen : ℕ → ℕ → Option ℕ

unfoldable pub put : ℕ → ℕ → (ℕ → ℕ) → ℕ → ℕ
put i x f j = if j == i then x else f j

unfoldable pub put_seen : ℕ → ℕ → ℕ → (ℕ → ℕ → Option ℕ) → ℕ → ℕ → Option ℕ
put_seen v i x f w j = if (w == v) && (j == i) then some x else f w j

-- All values of a function from `i` on.
unfoldable pub values : ℕ → ℕ → (ℕ → ℕ) → List ℕ
values i zero f = []
values i (suc count) f = f i ∷ values (i + 1) count f

unfoldable pub given_back : Option ℕ → ℕ
given_back none = 0
given_back (some x) = x

-- `kv_modify_bk_0_cas_list` of the client that writes `v`, with what its swaps gave back. All slots are
-- at one address, each on its own server.
unfoldable pub requests : ℕ → ℕ → ℕ → ℕ → (ℕ → Option ℕ) → List CasRequest
unfolding given_back
requests expected v i zero seen = []
requests expected v i (suc count) seen =
    (record {
      server_id = i + 1;
      r_kv_addr = 0;
      orig_value = expected;
      swap_value = v;
      swap_back = given_back (seen i);
    })
    ∷ requests expected v (i + 1) count seen

module _ (net : CompareAndSwap) (expected n : ℕ) where
  unfoldable pub start : Round
  start = record { primary = expected; backup = λ i. expected; seen = λ v i. none }

  -- All its first swaps on the backups have come back, to the client that writes `v`.
  unfoldable pub IsAnswered : Round → ℕ → Type 0
  IsAnswered r v = (i : ℕ) → i < n → (x : ℕ) × (r.seen v i ≡ some x)

  -- The client decides that it has won, where its read of the primary slot gave `check_val`.
  unfoldable pub HasWon : Round → ℕ → ℕ → Type 0
  unfolding wins check_cas_consensus_0_sync requests
  HasWon r v check_val =
      wins
        (check_cas_consensus_0_sync v expected (n + 1) check_val
          (requests expected v 0 n (r.seen v))).0
      ≡ true

  unfoldable pub first_swap : ℕ → ℕ → Round → Round
  unfolding put put_seen
  first_swap v i r = record r {
    backup = put i (net.swap (r.backup i) expected v) r.backup;
    seen = put_seen v i (r.backup i) r.seen;
  }

  -- The swap is repeated with the value that the first one gave back.
  unfoldable pub second_swap : ℕ → ℕ → ℕ → Round → Round
  unfolding put
  second_swap v i x r = record r { backup = put i (net.swap (r.backup i) x v) r.backup }

  unfoldable pub primary_swap : ℕ → Round → Round
  primary_swap v r = record r { primary = net.swap r.primary expected v }

  -- One step of the round. What a client reads of the primary slot may be anything.
  pub data Step (r : Round) (u : Round) : Type 0 where
    first : (v i : ℕ) → i < n → v ≢ expected → r.seen v i ≡ none → u ≡ first_swap v i r → Step r u
    second :
        (v i x check_val : ℕ)
        → i < n
        → IsAnswered r v
        → HasWon r v check_val
        → r.seen v i ≡ some x
        → x ≢ expected
        → x ≢ v
        → u ≡ second_swap v i x r
        → Step r u
    primary :
        (v check_val : ℕ) → IsAnswered r v → HasWon r v check_val → u ≡ primary_swap v r → Step r u

  pub data Reach : Round → Type 0 where
    here : Reach start
    next : {r u : Round} → Reach r → Step r u → Reach u
