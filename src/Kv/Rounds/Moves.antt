-- ===== src/Kv/Rounds/Moves.antt =====
-- Every step of a round keeps what the backups hold.
use fusee_fs.Prelude.{
  ℕ, ◌≡◌, ◌≢◌, ◌<◌, ◌≤◌, refl, sym, ◌∙◌, subst, ◌==◌, arith, inl, inr, Bool-cases,
}
use fusee_fs.Kv.Consensus.{vote}
use fusee_fs.Kv.Rounds.{
  CompareAndSwap, Round, put, start, IsAnswered, first_swap, second_swap, primary_swap, Step, first,
  second, primary, Reach, here, next,
}
use fusee_fs.Kv.Rounds.Puts.{
  put_same, put_other, put_seen-cases, put_self, vote-expected, vote-other,
}
use fusee_fs.Kv.Rounds.Follows.{Champion, Near, BackupHolds, Follows, HasWon-Champion}

module _ (net : CompareAndSwap) (expected n : ℕ) (some_backup : 1 ≤ n) where
  start-Follows : Follows expected n (start net expected n) (λ i. expected)
  unfolding start BackupHolds
  start-Follows = record {
    backups = λ i low. inl (refl, refl);
    answers = λ v i s low seen. absurd cc;
    primary_holds = inl refl;
  }

  -- What follows the values still does when a backup that had taken none takes one.
  module _ (took : ℕ → ℕ) (v i j : ℕ) (low : i < n) (none_yet : took i ≡ expected) where
    Near-put : (x : ℕ) → j ≢ i → Near expected n took j x → Near expected n (put i v took) j x
    unfolding Near Champion
    Near-put x other (inl e) = inl (e ∙ sym (put_other i v j took other))
    Near-put x other (inr own) = absurd (own.0 i low none_yet)

    BackupHolds-put :
        (b : ℕ)
        → j ≢ i
        → BackupHolds expected n took j b
        → BackupHolds expected n (put i v took) j b
    unfolding BackupHolds
    BackupHolds-put b other h =
        let same = put_other i v j took other in
        elim h [
          | inl (e, k) ↦ inl (e, same ∙ k)
          | inr (k, changed, near) ↦ inr (rw same k, changed, Near-put b other near)
        ]

  -- A backup that has taken no value: nobody has an answer from it, and there is no champion yet.
  take_first :
      (r : Round) (took : ℕ → ℕ) (v i : ℕ)
      → i < n
      → v ≢ expected
      → r.backup i ≡ expected
      → took i ≡ expected
      → Follows expected n r took
      → Follows expected n (first_swap net expected n v i r) (put i v took)
  unfolding first_swap BackupHolds Near Champion vote
  take_first r took v i low fresh at none_yet f =
      let swapped : net.swap (r.backup i) expected v ≡ v = rw at (net.swap_same expected v) in
      let own = put_same i v took in
      record {
        backups = λ j small. elim (Bool-cases (j == i)) [
          | inl e ↦
              let here_j : j ≡ i = ground (arith, e) in
              subst
                (λ k.
                  BackupHolds expected n (put i v took) k
                    (put i (net.swap (r.backup i) expected v) r.backup k))
                (sym here_j)
                (rw (put_same i (net.swap (r.backup i) expected v) r.backup, swapped)
                  (inr (rw own fresh, fresh, inl (sym own))))
          | inr e ↦
              let other : j ≢ i = ground (arith, e) in
              rw (put_other i (net.swap (r.backup i) expected v) j r.backup other)
                (BackupHolds-put took v i j low none_yet (r.backup j) other (f.backups j small))
        ];
        answers = λ w j s small seen. elim (put_seen-cases v i (r.backup i) s w j r.seen seen) [
          | inl (is_v, is_i, is_s) ↦
              let own_j : put i v took j ≡ v = rw is_i own in
              (
                rw is_v fresh,
                rw own_j fresh,
                inl (vote-expected w expected s (is_s ∙ at) ∙ is_v ∙ sym own_j),
              )
          | inr old ↦
              let (a, b, c) = f.answers w j s small old in
              let other : j ≢ i = λ e. b (rw e none_yet) in
              (a, rw (put_other i v j took other) b, Near-put took v i j low none_yet _ other c)
        ];
        primary_holds = elim f.primary_holds [
          | inl e ↦ inl e
          | inr own_value ↦ absurd (own_value.0 i low none_yet)
        ];
      }

  -- A backup that has taken a value keeps it from a client that expects the old one.
  take_later :
      (r : Round) (took : ℕ → ℕ) (v i : ℕ)
      → i < n
      → v ≢ expected
      → took i ≢ expected
      → r.backup i ≢ expected
      → Near expected n took i (r.backup i)
      → Follows expected n r took
      → Follows expected n (first_swap net expected n v i r) took
  unfolding first_swap BackupHolds Near Champion vote
  take_later r took v i low fresh has_taken changed near f = record {
    backups = λ j small.
        rw
          (put_self i (net.swap (r.backup i) expected v) j r.backup
            (net.swap_other (r.backup i) expected v changed))
          (f.backups j small);
    answers = λ w j s small seen. elim (put_seen-cases v i (r.backup i) s w j r.seen seen) [
      | inl (is_v, is_i, is_s) ↦ (
        rw is_v fresh,
        rw is_i has_taken,
        subst (λ (t : ℕ). Near expected n took t (vote w expected s)) (sym is_i)
            (rw (vote-other w expected s (rw is_s changed), is_s) near),
      )
      | inr old ↦ f.answers w j s small old
    ];
    primary_holds = f.primary_holds;
  }

  -- A backup that is repaired holds the champion's value.
  repaired :
      (r : Round) (took : ℕ → ℕ) (v i x : ℕ)
      → i < n
      → v ≢ expected
      → x ≢ expected
      → Champion expected n took v
      → Follows expected n r took
      → Follows expected n (second_swap net expected n v i x r) took
  unfolding second_swap BackupHolds Near Champion
  repaired r took v i x low fresh h champion f = record {
    backups = λ j small. elim (Bool-cases (j == i)) [
      | inl e ↦
          let here_j : j ≡ i = ground (arith, e) in
          elim (Bool-cases (r.backup i == x)) [
            | inl g ↦
                let is_x : r.backup i ≡ x = ground (arith, g) in
                let swapped : net.swap (r.backup i) x v ≡ v = rw is_x (net.swap_same x v) in
                rw (here_j, put_same i (net.swap (r.backup i) x v) r.backup, swapped)
                  (inr (champion.0 i low, fresh, inr champion))
            | inr g ↦
                rw
                  (put_self i (net.swap (r.backup i) x v) j r.backup
                    (net.swap_other (r.backup i) x v (ground (arith, g))))
                  (f.backups j small)
          ]
      | inr e ↦
          rw (put_other i (net.swap (r.backup i) x v) j r.backup (ground (arith, e)))
            (f.backups j small)
    ];
    answers = f.answers;
    primary_holds = f.primary_holds;
  }

  primary_written :
      (r : Round) (took : ℕ → ℕ) (v : ℕ)
      → Champion expected n took v
      → Follows expected n r took
      → Follows expected n (primary_swap net expected n v r) took
  unfolding primary_swap
  primary_written r took v champion f = record {
    backups = f.backups;
    answers = f.answers;
    primary_holds = elim (Bool-cases (r.primary == expected)) [
      | inl e ↦
          let at : r.primary ≡ expected = ground (arith, e) in
          inr (rw (at, net.swap_same expected v) champion)
      | inr e ↦ rw (net.swap_other r.primary expected v (ground (arith, e))) f.primary_holds
    ];
  }

  Follows-Step :
      (r u : Round) (took : ℕ → ℕ)
      → Follows expected n r took
      → Step net expected n r u
      → (t : ℕ → ℕ) × Follows expected n u t
  unfolding BackupHolds IsAnswered
  Follows-Step r u took f (first v i low fresh new e) = elim (f.backups i low) [
    | inl (at, none_yet) ↦ (put i v took, rw e (take_first r took v i low fresh at none_yet f))
    | inr (has_taken, changed, near) ↦
        (took, rw e (take_later r took v i low fresh has_taken changed near f))
  ]
  Follows-Step r u took f (second v i x c low all won seen changed other e) =
      let champion = HasWon-Champion net expected n some_backup r took v c f all won in
      let fresh = (f.answers v i x low seen).0 in
      (took, rw e (repaired r took v i x low fresh changed champion f))
  Follows-Step r u took f (primary v c all won e) = (
    took,
    rw e (
        primary_written r took v (HasWon-Champion net expected n some_backup r took v c f all won)
          f),
  )

  pub Follows-Reach : {r : Round} → Reach net expected n r → (t : ℕ → ℕ) × Follows expected n r t
  Follows-Reach here = (λ i. expected, start-Follows)
  Follows-Reach (next {r} {u} reach step) =
      let (took, f) = Follows-Reach reach in Follows-Step r u took f step
