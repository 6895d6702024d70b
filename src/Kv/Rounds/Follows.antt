-- ===== src/Kv/Rounds/Follows.antt =====
-- What holds throughout a round of writes: the backups hold the values that the first swaps put there,
-- but for those that the winner has repaired.
use fusee_fs.Prelude.{ℕ, ◌≡◌, ◌≢◌, ◌<◌, ◌≤◌, ◌⊎◌, some, inl, inr}
use fusee_fs.Kv.Consensus.{vote}
use fusee_fs.Kv.Consensus.Winner.{run}
use fusee_fs.Kv.Rounds.{CompareAndSwap, Round, values, given_back, requests, IsAnswered, HasWon}
use fusee_fs.Kv.Rounds.View.{WinsOn, length-values, taken_values-requests, view_winner}

module _ (expected n : ℕ) where
  -- The value wins on the values that were taken, where every backup has taken one.
  unfoldable pub Champion : (ℕ → ℕ) → ℕ → Type 0
  unfolding WinsOn
  Champion took x = ((i : ℕ) → i < n → took i ≢ expected) × WinsOn expected n took x expected

  unfoldable pub Near : (ℕ → ℕ) → ℕ → ℕ → Type 0
  unfolding Champion
  Near took i x = (x ≡ took i) ⊎ Champion took x

  unfoldable pub BackupHolds : (ℕ → ℕ) → ℕ → ℕ → Type 0
  unfolding Near
  BackupHolds took i b =
      ((b ≡ expected) × (took i ≡ expected))
      ⊎ ((took i ≢ expected) × (b ≢ expected) × Near took i b)

  pub record Follows (r : Round) (took : ℕ → ℕ) : Type 0 where
    pub backups : (i : ℕ) → i < n → BackupHolds took i (r.backup i)
    pub answers :
        (v i s : ℕ)
        → i < n
        → r.seen v i ≡ some s
        → (v ≢ expected) × (took i ≢ expected) × Near took i (vote v expected s)
    pub primary_holds : (r.primary ≡ expected) ⊎ Champion took r.primary

module _ (net : CompareAndSwap) (expected n : ℕ) (some_backup : 1 ≤ n) where
  HasWon-WinsOn :
      (r : Round) (v c : ℕ)
      → HasWon net expected n r v c
      → WinsOn expected n (λ j. vote v expected (given_back (r.seen v j))) v c
  unfolding HasWon WinsOn
  HasWon-WinsOn r v c h =
      let f = λ (j : ℕ). vote v expected (given_back (r.seen v j)) in
      let rs = requests expected v 0 n (r.seen v) in
      let whole = length-values 0 n f in
      let same =
        run v expected c rs (values 0 n f) (taken_values-requests expected v 0 n (r.seen v)) in
      let turned = rw whole at same in rw turned at h

  pub HasWon-Champion :
      (r : Round) (took : ℕ → ℕ) (v c : ℕ)
      → Follows expected n r took
      → IsAnswered net expected n r v
      → HasWon net expected n r v c
      → Champion expected n took v
  unfolding Champion Near IsAnswered given_back
  HasWon-Champion r took v c f all h = (
    λ i low. let (s, seen) = all i low in (f.answers v i s low seen).1,
    view_winner expected n some_backup took (λ j. vote v expected (given_back (r.seen v j))) v c
        (λ j low.
          let (s, seen) = all j low in
          elim (f.answers v j s low seen).2 [
            | inl e ↦ inl (rw seen e)
            | inr own ↦ inr (rw seen own.1)
          ])
        (HasWon-WinsOn r v c h),
  )
