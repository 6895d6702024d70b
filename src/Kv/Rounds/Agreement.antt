-- ===== src/Kv/Rounds/Agreement.antt =====
-- All winners of a round of writes agree.
use fusee_fs.Prelude.{ℕ, ◌≡◌, ◌≢◌, ◌≤◌, ◌<◌, ◌⊎◌, sym, ◌∙◌, some, inl, inr}
use fusee_fs.Kv.Rounds.{CompareAndSwap, Round, IsAnswered, HasWon, second_swap, Reach}
use fusee_fs.Kv.Rounds.Puts.{put_same, vote-other}
use fusee_fs.Kv.Rounds.View.{one_winner}
use fusee_fs.Kv.Rounds.Follows.{Champion, Near, BackupHolds, HasWon-Champion}
use fusee_fs.Kv.Rounds.Moves.{Follows-Reach}

-- However the swaps of the clients interleave, two clients that decide that they have won a slot
-- write the same value, where there is a backup: the swaps that repeat against the value of a loser do not
-- change who has won.
pub Reach-one_winner :
    (net : CompareAndSwap) (expected n : ℕ) (r : Round) (v w c d : ℕ)
    → 1 ≤ n
    → Reach net expected n r
    → IsAnswered net expected n r v
    → HasWon net expected n r v c
    → IsAnswered net expected n r w
    → HasWon net expected n r w d
    → v ≡ w
unfolding Champion
Reach-one_winner net expected n r v w c d some_backup reach all_v won_v all_w won_w =
    let (took, f) = Follows-Reach net expected n some_backup reach in
    one_winner expected n some_backup took v w expected expected
      (HasWon-Champion net expected n some_backup r took v c f all_v won_v).1
      (HasWon-Champion net expected n some_backup r took w d f all_w won_w).1

-- The primary slot holds the expected value, or the value of every client that decides that it has
-- won, where there is a backup: the primary slot is changed once in a round.
pub Reach-primary :
    (net : CompareAndSwap) (expected n : ℕ) (r : Round) (v c : ℕ)
    → 1 ≤ n
    → Reach net expected n r
    → IsAnswered net expected n r v
    → HasWon net expected n r v c
    → (r.primary ≡ expected) ⊎ (r.primary ≡ v)
unfolding Champion
Reach-primary net expected n r v c some_backup reach all_v won_v =
    let (took, f) = Follows-Reach net expected n some_backup reach in
    elim f.primary_holds [
      | inl e ↦ inl e
      | inr own ↦ inr (
          one_winner expected n some_backup took r.primary v expected expected own.1
            (HasWon-Champion net expected n some_backup r took v c f all_v won_v).1)
    ]

-- A swap that a winner repeats on a backup, against the value that its first one gave back, leaves
-- the backup with the winner's value, where there is a backup: no other client has changed it.
pub Reach-second_swap :
    (net : CompareAndSwap) (expected n : ℕ) (r : Round) (v c i x : ℕ)
    → 1 ≤ n
    → Reach net expected n r
    → IsAnswered net expected n r v
    → HasWon net expected n r v c
    → i < n
    → r.seen v i ≡ some x
    → x ≢ expected
    → x ≢ v
    → (second_swap net expected n v i x r).backup i ≡ v
unfolding Champion Near BackupHolds second_swap
Reach-second_swap net expected n r v c i x some_backup reach all won low seen changed other =
    let (took, f) = Follows-Reach net expected n some_backup reach in
    let champion = HasWon-Champion net expected n some_backup r took v c f all won in
    let alone : (y : ℕ) → Champion expected n took y → y ≡ v =
      λ y own. one_winner expected n some_backup took y v expected expected own.1 champion.1 in
    let near = rw (vote-other v expected x changed) at (f.answers v i x low seen).2 in
    let first_value : x ≡ took i = elim near [
      | inl e ↦ e
      | inr own ↦ absurd (other (alone x own))
    ] in
    let keeps : r.backup i ≡ v → (second_swap net expected n v i x r).backup i ≡ v =
      λ e. put_same i _ r.backup ∙ net.swap_other (r.backup i) x v (λ k. other (sym k ∙ e)) ∙ e in
    elim (f.backups i low) [
      | inl (at, none_yet) ↦ absurd (changed (first_value ∙ none_yet))
      | inr (has_taken, moved, inl e) ↦
          let found : r.backup i ≡ x = e ∙ sym first_value in
          put_same i _ r.backup ∙ (rw found (net.swap_same x v))
      | inr (has_taken, moved, inr own) ↦ keeps (alone (r.backup i) own)
    ]
