-- ===== src/Kv/Rounds/View.antt =====
-- What a client sees of the backups, where the winner of the round may have repaired some of them.
use fusee_fs.Prelude.{
  ℕ, zero, suc, ◌+◌, ◌*◌, ◌≡◌, ◌≢◌, ◌<◌, ◌≤◌, ◌⊎◌, ◌↔◌, refl, ap, subst, sym, true, Option, List,
  [], ◌∷◌, length, ◌==◌, arith, inl, inr, ltb, Bool-cases,
}
use fusee_fs.Kv.Consensus.{vote, decide}
use fusee_fs.Kv.Consensus.Tally.{count, taken_values, tally}
use fusee_fs.Kv.Consensus.Winner.{wins, one_decision, winner}
use fusee_fs.Kv.Consensus.Rule.{NoMajority, IsLeast, wins-decide_iff}
use fusee_fs.Kv.Rounds.{values, given_back, requests}

pub length-values : (i n : ℕ) (f : ℕ → ℕ) → length (values i n f) ≡ n
unfolding values
length-values i zero f = refl
length-values i (suc n) f = omega (arith, length-values (i + 1) n f)

pub taken_values-requests :
    (expected v i n : ℕ) (seen : ℕ → Option ℕ)
    → taken_values v expected (requests expected v i n seen)
      ≡ values i n (λ j. vote v expected (given_back (seen j)))
unfolding taken_values requests values
taken_values-requests expected v i zero seen = refl
taken_values-requests expected v i (suc n) seen =
    ap (λ (t : List ℕ). vote v expected (given_back (seen i)) ∷ t)
      (taken_values-requests expected v (i + 1) n seen)

count-values :
    (x i n : ℕ) (f : ℕ → ℕ)
    → 1 ≤ count x (values i n f)
    → (j : ℕ) × (i ≤ j) × (j < i + n) × (f j ≡ x)
unfolding count values
count-values x i zero f h = absurd (omega arith)
count-values x i (suc n) f h = elim (Bool-cases (x == f i)) [
  | inl e ↦ (i, omega arith, omega arith, ground (arith, e))
  | inr e ↦
      let (j, low, high, at) = count-values x (i + 1) n f (ground (arith, e, h)) in
      (j, omega arith, omega arith, at)
]

values-count : (i n j : ℕ) (f : ℕ → ℕ) → i ≤ j → j < i + n → 1 ≤ count (f j) (values i n f)
unfolding count values
values-count i zero j f low high = absurd (omega arith)
values-count i (suc n) j f low high = elim (Bool-cases (f j == f i)) [
  | inl e ↦ ground (arith, e)
  | inr e ↦
      let later : i ≢ j = λ h. absurd (ground (arith, rw h at e)) in
      ground (arith, e, values-count (i + 1) n j f (omega (arith, later)) (omega arith))
]

-- A view of the values `took`, in which some are replaced by `w`.
abbrev pub IsView : ℕ → ℕ → ℕ → (ℕ → ℕ) → (ℕ → ℕ) → Type 0
IsView w i n took f = (j : ℕ) → i ≤ j → j < i + n → (f j ≡ took j) ⊎ (f j ≡ w)

count-view :
    (w i n : ℕ) (took f : ℕ → ℕ)
    → IsView w i n took f
    → (count w (values i n took) ≤ count w (values i n f))
      × ((x : ℕ) → x ≢ w → count x (values i n f) ≤ count x (values i n took))
unfolding count values
count-view w i zero took f h = (omega arith, λ x k. omega arith)
count-view w i (suc n) took f h =
    let (more, less) =
      count-view w (i + 1) n took f (λ j low high. h j (omega arith) (omega arith)) in
    elim (h i (omega arith) (omega arith)) [
      | inl e ↦ (ground (arith, e), λ x k. let rest = less x k in ground (arith, e, rest))
      | inr e ↦ (ground (arith, e), λ x k. let rest = less x k in ground (arith, e, rest, k))
    ]

-- The decision of a client that writes `v`, on `n` values.
unfoldable pub WinsOn : ℕ → ℕ → (ℕ → ℕ) → ℕ → ℕ → Type 0
unfolding wins decide
WinsOn expected n f v c = wins (decide v expected (n + 1) c (tally (values 0 n f) [])) ≡ true

module _ (expected n : ℕ) (some_backup : 1 ≤ n) where
  rule :
      (f : ℕ → ℕ) (v c : ℕ)
      → WinsOn expected n f v c ↔ (
          (n < 2 * count v (values 0 n f))
          ⊎ ((c ≡ expected) × NoMajority (values 0 n f) × IsLeast v (values 0 n f)))
  unfolding WinsOn
  rule f v c =
      let whole = length-values 0 n f in
      rw whole at (wins-decide_iff expected (values 0 n f) v c (rw whole some_backup))

  pub one_winner :
      (f : ℕ → ℕ) (v w c d : ℕ) → WinsOn expected n f v c → WinsOn expected n f w d → v ≡ w
  unfolding WinsOn
  one_winner f v w c d h k =
      let whole = length-values 0 n f in
      one_decision expected (values 0 n f) v w c d (rw whole h) (rw whole k)

  some_winner : (f : ℕ → ℕ) → (v : ℕ) × WinsOn expected n f v expected
  unfolding WinsOn
  some_winner f =
      let whole = length-values 0 n f in
      let (v, there, won) =
        winner expected (values 0 n f) (f 0) (values-count 0 n 0 f (omega arith) (omega arith)) in
      (
        v,
        subst (λ m. wins (decide v expected (m + 1) expected (tally (values 0 n f) [])) ≡ true)
            whole won,
      )

  -- The winner on the values that were taken wins on every view of them.
  winner_stays :
      (took f : ℕ → ℕ) (w : ℕ)
      → IsView w 0 n took f
      → WinsOn expected n took w expected
      → WinsOn expected n f w expected
  unfolding NoMajority IsLeast
  winner_stays took f w view h =
      let (more, less) = count-view w 0 n took f view in
      (rule f w expected).1 (elim (Bool-cases (ltb n (2 * count w (values 0 n f)))) [
        | inl e ↦ inl (ground (arith, e))
        | inr e ↦ elim ((rule took w expected).0 h) [
          | inl big ↦ absurd (ground (arith, e))
          | inr (same, none_half, (there, least)) ↦ inr (
            refl,
            λ x. elim (Bool-cases (x == w)) [
              | inl own ↦ ground (arith, own, e, length-values 0 n f)
              | inr other ↦
                  let rest = less x (ground (arith, other)) in
                  let half = none_half x in
                  omega (arith, rest, half, length-values 0 n f, length-values 0 n took)
            ],
            (
              omega (arith, more, there),
              λ x k. elim (Bool-cases (x == w)) [
                | inl own ↦ ground (arith, own)
                | inr other ↦
                    let rest = less x (ground (arith, other)) in least x (omega (arith, rest, k))
              ],
            ),
          )
        ]
      ])

  -- A value that wins on a view of the values that were taken wins on these, where the view has
  -- other values only where a winner put its own.
  pub view_winner :
      (took f : ℕ → ℕ) (v c : ℕ)
      → ((j : ℕ) → j < n → (f j ≡ took j) ⊎ WinsOn expected n took (f j) expected)
      → WinsOn expected n f v c
      → WinsOn expected n took v expected
  view_winner took f v c near h =
      let (w, won) = some_winner took in
      let view : IsView w 0 n took f = λ j low high. elim (near j (omega arith)) [
        | inl e ↦ inl e
        | inr own ↦ inr (one_winner took (f j) w expected expected own won)
      ] in
      let same = one_winner f v w c expected h (winner_stays took f w view won) in
      subst (λ x. WinsOn expected n took x expected) (sym same) won
