-- ===== src/Kv/Consensus.antt =====
-- src/client.cc: how a client decides, from what its compare-and-swaps on the backup slots gave
-- back, whether its write has won. A swap reads the old value of the slot; `swap_back` is that
-- value, which the source reads at `l_kv_addr`.
pub mod Tally
pub mod Winner
pub mod Rule
use fusee_fs.Prelude.{
  ℕ, ◌+◌, ◌-◌, ◌*◌, ◌^◌, Bool, true, false, not, ◌||◌, List, [], ◌∷◌, ◌++◌, length, ltb, ◌==◌,
  if◌then◌else◌,
}

-- `KVConsensusState`.
pub data Consensus : Type 0 where
  win_all win_major win_little fail finish non : Consensus

-- `KVCASAddr`, without local and remote keys of the network.
pub record CasRequest : Type 0 where
  pub server_id : ℕ
  pub r_kv_addr : ℕ
  pub orig_value : ℕ
  pub swap_value : ℕ
  pub swap_back : ℕ

-- `win_addr_cnt`, a map in the order of its keys.
abbrev pub Votes : Type 0
Votes = List (ℕ × ℕ)

-- `win_addr_cnt[v] ++`.
unfoldable pub add_vote : ℕ → Votes → Votes
add_vote v [] = (v, 1) ∷ []
add_vote v ((k, n) ∷ m) =
    let rest = add_vote v m in
    if v == k then (k, n + 1) ∷ m else if ltb v k then (v, 1) ∷ (k, n) ∷ m else (k, n) ∷ rest

-- `win_addr_cnt[v]`, 0 where the key is new.
unfoldable pub votes_of : ℕ → Votes → ℕ
votes_of v [] = 0
votes_of v ((k, n) ∷ m) = if v == k then n else votes_of v m

-- The value that a backup has taken: what is given back, unless that is the value the swap expected
-- (then the swap worked) or the target (then it worked before).
unfoldable pub vote : ℕ → ℕ → ℕ → ℕ
vote target expected swap_back =
    if (swap_back == expected) || (swap_back == target) then target else swap_back

-- The first loop: the votes, and the requests that are to be sent again against the winner's value.
unfoldable pub count_votes :
    ℕ → ℕ → List CasRequest → Votes → List CasRequest → Votes × List CasRequest
unfolding vote add_vote
count_votes target expected [] m again = (m, again)
count_votes target expected (r ∷ rs) m again =
    count_votes target expected rs (add_vote (vote target expected r.swap_back) m) (
      if (r.swap_back == expected) || (r.swap_back == target)
      then again
      else again ++ record r { orig_value = r.swap_back } ∷ [])

-- The second loop: the first value with most votes. `maj_vote` begins at -1 in the source, and is
-- kept one higher here.
unfoldable pub majority : Votes → ℕ → ℕ → ℕ
majority [] maj_val maj_vote = maj_val
majority ((k, n) ∷ m) maj_val maj_vote =
    if ltb maj_vote (n + 1) then majority m k (n + 1) else majority m maj_val maj_vote

-- `win_addr_cnt.begin()->first`, of a map that is not empty.
unfoldable pub first_value : Votes → ℕ
first_value [] = 0
first_value ((k, n) ∷ m) = k

-- From the votes: `check_val` is what a read of the primary slot gives, which is only made where the
-- votes do not decide.
unfoldable pub decide : ℕ → ℕ → ℕ → ℕ → Votes → Consensus
unfolding votes_of majority first_value
decide target expected num_idx_rep check_val m =
    let maj_val = majority m (2 ^ 64 - 1) 0 in
    let votes = votes_of maj_val m in
    if votes == num_idx_rep - 1
    then (if maj_val == target then win_all else fail)
    else if ltb (num_idx_rep - 1) (2 * votes)
    then (if maj_val == target then win_major else fail)
    else if votes_of target m == 0
    then fail
    else if not (check_val == expected)
    then finish
    else if first_value m == target
    then win_little
    else fail

-- `check_cas_consensus_0_sync`, for a list of requests that is not empty: the state, and
-- `kv_modify_bk_1_cas_list`. All requests carry the target and the expected value.
unfoldable pub check_cas_consensus_0_sync :
    ℕ → ℕ → ℕ → ℕ → List CasRequest → Consensus × List CasRequest
unfolding count_votes decide
check_cas_consensus_0_sync target expected num_idx_rep check_val requests =
    let (m, again) = count_votes target expected requests [] [] in
    (decide target expected num_idx_rep check_val m, again)

-- `check_cas_consensus_0`, which reads the primary slot on a fiber.
unfoldable pub check_cas_consensus_0 : ℕ → ℕ → ℕ → ℕ → List CasRequest → Consensus × List CasRequest
unfolding count_votes decide
check_cas_consensus_0 target expected num_idx_rep check_val requests =
    let (m, again) = count_votes target expected requests [] [] in
    (decide target expected num_idx_rep check_val m, again)

-- `check_cas_consensus_1`: 0 where every repeated swap found the value it expected.
pub check_cas_consensus_1 : List CasRequest → ℕ
check_cas_consensus_1 [] = 0
check_cas_consensus_1 (r ∷ rs) =
    let rest = check_cas_consensus_1 rs in if not (r.swap_back == r.orig_value) then 1 else rest
