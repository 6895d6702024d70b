-- ===== src/Kv/Consensus/Winner.antt =====
-- Which client wins a slot, from the votes that all the clients see.
use fusee_fs.Prelude.{
  ℕ, ◌+◌, ◌-◌, ◌*◌, ◌^◌, ◌≡◌, ◌<◌, ◌≤◌, ◌↔◌, refl, Bool, true, false, not, List, [], length, ltb,
  ◌==◌, if◌then◌else◌, arith, Bool-cases, inl, inr,
}
use fusee_fs.Kv.Consensus.{
  Consensus, win_all, win_major, win_little, fail, finish, non, CasRequest, majority, first_value,
  decide, check_cas_consensus_0_sync,
}
use fusee_fs.Kv.Consensus.Tally.{
  count, count-two, count-length, taken_values, tally, count_votes-tally, votes, count-majority,
  count-first_value,
}

-- The states in which a client goes on to change the primary slot.
unfoldable pub wins : Consensus → Bool
wins win_all = true
wins win_major = true
wins win_little = true
wins fail = false
wins finish = false
wins non = false

-- The decision from the counts.
pub decide-counts :
    (target expected check_val : ℕ) (ws : List ℕ)
    → let best = majority (tally ws []) (2 ^ 64 - 1) 0 in
      decide target expected (length ws + 1) check_val (tally ws []) ≡ (
        if count best ws == length ws
        then (if best == target then win_all else fail)
        else if ltb (length ws) (2 * count best ws)
        then (if best == target then win_major else fail)
        else if count target ws == 0
        then fail
        else if not (check_val == expected)
        then finish
        else if first_value (tally ws []) == target
        then win_little
        else fail)
unfolding decide
decide-counts target expected check_val ws =
    ground (arith, votes ws (majority (tally ws []) (2 ^ 64 - 1) 0), votes ws target)

pub run :
    (target expected check_val : ℕ) (rs : List CasRequest) (ws : List ℕ)
    → taken_values target expected rs ≡ ws
    → (check_cas_consensus_0_sync target expected (length ws + 1) check_val rs).0
      ≡ decide target expected (length ws + 1) check_val (tally ws [])
unfolding check_cas_consensus_0_sync
run target expected check_val rs ws h = rw (count_votes-tally target expected rs [] [], h) refl

module _ (expected : ℕ) (ws : List ℕ) where
  pub one_decision :
      (s t c d : ℕ)
      → wins (decide s expected (length ws + 1) c (tally ws [])) ≡ true
      → wins (decide t expected (length ws + 1) d (tally ws [])) ≡ true
      → s ≡ t
  unfolding wins
  one_decision s t c d p q =
      ground (arith, decide-counts s expected c ws, decide-counts t expected d ws)

  -- Two clients that saw the backups take the same values do not both win, unless they wrote the same.
  check_cas_consensus_0_sync_unique :
      (s t c d : ℕ) (rs qs : List CasRequest)
      → taken_values s expected rs ≡ ws
      → taken_values t expected qs ≡ ws
      → wins (check_cas_consensus_0_sync s expected (length ws + 1) c rs).0 ≡ true
      → wins (check_cas_consensus_0_sync t expected (length ws + 1) d qs).0 ≡ true
      → s ≡ t
  check_cas_consensus_0_sync_unique s t c d rs qs h k p q =
      one_decision s t c d (rw (← run s expected c rs ws h) p) (rw (← run t expected d qs ws k) q)

  pub winner :
      (w : ℕ)
      → 1 ≤ count w ws
      → (v : ℕ) × (1 ≤ count v ws)
        × (wins (decide v expected (length ws + 1) expected (tally ws [])) ≡ true)
  unfolding wins
  winner w h =
      let best = majority (tally ws []) (2 ^ 64 - 1) 0 in
      let some_votes = count-majority ws (2 ^ 64 - 1) w in
      elim (Bool-cases (count best ws == length ws)) [
        | inl e ↦ (best, omega arith, ground (arith, decide-counts best expected expected ws))
        | inr e ↦ elim (Bool-cases (ltb (length ws) (2 * count best ws))) [
          | inl l ↦ (best, omega arith, ground (arith, decide-counts best expected expected ws))
          | inr l ↦
              let first = first_value (tally ws []) in
              let there = count-first_value ws w h in
              (first, there, ground (arith, decide-counts first expected expected ws))
        ]
      ]

  -- Where some backup took a value, the client of every value saw the backups take the same ones, and
  -- the primary slot still held the expected value when each client read it, one client wins: one whose
  -- value some backup took. `requests` are the swaps of each client, by the value that it writes.
  pub check_cas_consensus_0_sync_exists :
      (w : ℕ) (requests : ℕ → List CasRequest)
      → 1 ≤ count w ws
      → ((v : ℕ) → taken_values v expected (requests v) ≡ ws)
      → (v : ℕ) × (1 ≤ count v ws)
        × (wins (check_cas_consensus_0_sync v expected (length ws + 1) expected (requests v)).0
            ≡ true)
  check_cas_consensus_0_sync_exists w requests h same =
      let (v, there, won) = winner w h in
      (v, there, rw (run v expected expected (requests v) ws (same v)) won)

  -- A client wins them all exactly where every backup took its value, and wins by majority exactly
  -- where more than half of them did, but not all.
  check_cas_consensus_0_sync_iff :
      (t c : ℕ) (rs : List CasRequest)
      → taken_values t expected rs ≡ ws
      → 1 ≤ length ws
      → (((check_cas_consensus_0_sync t expected (length ws + 1) c rs).0 ≡ win_all)
          ↔ (count t ws ≡ length ws))
        × (((check_cas_consensus_0_sync t expected (length ws + 1) c rs).0 ≡ win_major)
            ↔ ((count t ws < length ws) × (length ws < 2 * count t ws)))
  check_cas_consensus_0_sync_iff t c rs h some_backup =
      let best = majority (tally ws []) (2 ^ 64 - 1) 0 in
      let most = count-majority ws (2 ^ 64 - 1) t in
      let shared = count-two best t ws in
      let all = count-length best ws in
      rw (run t expected c rs ws h) (ground (arith, decide-counts t expected c ws))
