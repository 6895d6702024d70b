-- ===== src/Kv/Consensus/Rule.antt =====
-- Who wins a slot, said without the votes: the value that more than half of the backups took, or,
-- where there is none and the primary slot is as it was, the least value that a backup took.
use fusee_fs.Prelude.{
  ℕ, ◌+◌, ◌-◌, ◌*◌, ◌^◌, ◌≡◌, ◌<◌, ◌≤◌, ◌↔◌, ◌⊎◌, true, List, [], length, ltb, arith, Bool-cases,
  inl, inr,
}
use fusee_fs.Kv.Consensus.{CasRequest, majority, first_value, decide, check_cas_consensus_0_sync}
use fusee_fs.Kv.Consensus.Tally.{
  count, count-two, count-length, taken_values, tally, count-majority, count-first_value,
  count-first_value_least,
}
use fusee_fs.Kv.Consensus.Winner.{wins, decide-counts, run}

-- No value has more than half of the list.
unfoldable pub NoMajority : List ℕ → Type 0
NoMajority ws = (v : ℕ) → 2 * count v ws ≤ length ws

-- The value is in the list, and no value of the list is less.
unfoldable pub IsLeast : ℕ → List ℕ → Type 0
IsLeast t ws = (1 ≤ count t ws) × ((v : ℕ) → 1 ≤ count v ws → t ≤ v)

module _ (expected : ℕ) (ws : List ℕ) (t c : ℕ) (some_backup : 1 ≤ length ws) where
  wins-decide :
      wins (decide t expected (length ws + 1) c (tally ws [])) ≡ true
      → (length ws < 2 * count t ws) ⊎ ((c ≡ expected) × NoMajority ws × IsLeast t ws)
  unfolding wins NoMajority IsLeast
  wins-decide h =
      let best = majority (tally ws []) (2 ^ 64 - 1) 0 in
      let most = count-majority ws (2 ^ 64 - 1) in
      let own = most t in
      elim (Bool-cases (ltb (length ws) (2 * count t ws))) [
        | inl e ↦ inl (ground (arith, e))
        | inr e ↦ inr (
          ground (arith, decide-counts t expected c ws),
          λ v. let other = most v in ground (arith, decide-counts t expected c ws),
          (
            ground (arith, decide-counts t expected c ws),
            λ v k.
                let least = count-first_value_least ws v k in
                ground (arith, decide-counts t expected c ws),
          ),
        )
      ]

  decide-wins :
      (length ws < 2 * count t ws) ⊎ ((c ≡ expected) × NoMajority ws × IsLeast t ws)
      → wins (decide t expected (length ws + 1) c (tally ws [])) ≡ true
  unfolding wins NoMajority IsLeast
  decide-wins (inl h) =
      let best = majority (tally ws []) (2 ^ 64 - 1) 0 in
      let most = count-majority ws (2 ^ 64 - 1) t in
      let shared = count-two best t ws in ground (arith, decide-counts t expected c ws)
  decide-wins (inr (same, none_half, (there, least))) =
      let best = majority (tally ws []) (2 ^ 64 - 1) 0 in
      let first = first_value (tally ws []) in
      let half = none_half best in
      let before = least first (count-first_value ws t there) in
      let after = count-first_value_least ws t there in
      let whole = count-length best ws in ground (arith, decide-counts t expected c ws)

  pub wins-decide_iff :
      (wins (decide t expected (length ws + 1) c (tally ws [])) ≡ true)
      ↔ ((length ws < 2 * count t ws) ⊎ ((c ≡ expected) × NoMajority ws × IsLeast t ws))
  wins-decide_iff = (wins-decide, decide-wins)

-- A client goes on to change the primary slot exactly where more than half of the backups took its
-- value, or no value was taken by more than half, its value is the least that a backup took, and the
-- primary slot still holds the expected value; where there is a backup at all.
pub check_cas_consensus_0_sync-wins_iff :
    (expected t c : ℕ) (rs : List CasRequest) (ws : List ℕ)
    → taken_values t expected rs ≡ ws
    → 1 ≤ length ws
    → (wins (check_cas_consensus_0_sync t expected (length ws + 1) c rs).0 ≡ true)
      ↔ ((length ws < 2 * count t ws) ⊎ ((c ≡ expected) × NoMajority ws × IsLeast t ws))
check_cas_consensus_0_sync-wins_iff expected t c rs ws h some_backup =
    rw (run t expected c rs ws h) (wins-decide_iff expected ws t c some_backup)
