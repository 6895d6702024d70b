-- ===== src/Kv/Rounds/Examples.antt =====
-- A round of two clients on two backups: 10 takes the first backup, 20 the second, and 10 wins as the
-- less of the two.
use fusee_fs.Prelude.{ℕ, zero, suc, ◌≡◌, ◌≢◌, ◌⊎◌, refl, ◌==◌, if◌then◌else◌, arith}
use fusee_fs.Kv.Rounds.{
  CompareAndSwap, Round, put, put_seen, start, IsAnswered, HasWon, first_swap, second_swap,
  primary_swap, first, second, primary, Reach, here, next,
}
use fusee_fs.Kv.Rounds.Agreement.{Reach-one_winner, Reach-primary, Reach-second_swap}

abbrev swap : ℕ → ℕ → ℕ → ℕ
swap b e v = if b == e then v else b

swap_same : (e v : ℕ) → swap e e v ≡ v
swap_same e v = ground arith

swap_other : (b e v : ℕ) → b ≢ e → swap b e v ≡ b
swap_other b e v h = ground arith

abbrev atomic : CompareAndSwap
atomic = record { swap = swap; swap_same = swap_same; swap_other = swap_other }

abbrev taken : Round
taken = first_swap atomic 5 2 20 0 (
    first_swap atomic 5 2 10 1
      (first_swap atomic 5 2 20 1 (first_swap atomic 5 2 10 0 (start atomic 5 2))))

abbrev finished : Round
finished = primary_swap atomic 5 2 10 (second_swap atomic 5 2 10 1 20 taken)

taken-Reach : Reach atomic 5 2 taken
unfolding first_swap start put_seen
taken-Reach =
    next
      (next
        (next (next here (first 10 0 (omega arith) (omega arith) refl refl))
          (first 20 1 (omega arith) (omega arith) refl refl))
        (first 10 1 (omega arith) (omega arith) refl refl))
      (first 20 0 (omega arith) (omega arith) refl refl)

taken-IsAnswered : IsAnswered atomic 5 2 taken 10
unfolding IsAnswered first_swap start put_seen
taken-IsAnswered zero h = (5, refl)
taken-IsAnswered (suc zero) h = (20, refl)
taken-IsAnswered (suc (suc i)) h = absurd (omega arith)

taken-HasWon : HasWon atomic 5 2 taken 10 5
unfolding HasWon first_swap start put_seen put
taken-HasWon = refl

finished-Reach : Reach atomic 5 2 finished
unfolding second_swap primary_swap IsAnswered HasWon first_swap start put_seen put
finished-Reach =
    next
      (next taken-Reach (
        second 10 1 20 5 (omega arith) taken-IsAnswered taken-HasWon refl (omega arith)
          (omega arith) refl))
      (primary 10 5 taken-IsAnswered taken-HasWon refl)

finished-IsAnswered : IsAnswered atomic 5 2 finished 10
unfolding IsAnswered second_swap primary_swap
finished-IsAnswered = taken-IsAnswered

finished-HasWon : HasWon atomic 5 2 finished 10 5
unfolding HasWon second_swap primary_swap
finished-HasWon = taken-HasWon

Reach-one_winner_example : ◌≡◌ {A = ℕ} 10 10
Reach-one_winner_example =
    Reach-one_winner atomic 5 2 finished 10 10 5 5 (omega arith) finished-Reach finished-IsAnswered
      finished-HasWon finished-IsAnswered finished-HasWon

Reach-primary_example : (finished.primary ≡ 5) ⊎ (finished.primary ≡ 10)
Reach-primary_example =
    Reach-primary atomic 5 2 finished 10 5 (omega arith) finished-Reach finished-IsAnswered
      finished-HasWon

Reach-second_swap_example : (second_swap atomic 5 2 10 1 20 taken).backup 1 ≡ 10
unfolding first_swap start put_seen
Reach-second_swap_example =
    Reach-second_swap atomic 5 2 taken 10 5 1 20 (omega arith) taken-Reach taken-IsAnswered
      taken-HasWon (omega arith) refl (omega arith) (omega arith)
