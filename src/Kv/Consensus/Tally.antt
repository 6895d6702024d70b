-- ===== src/Kv/Consensus/Tally.antt =====
-- The votes against plain counting.
use fusee_fs.Prelude.{
  ℕ, ◌+◌, ◌≡◌, ◌≢◌, ◌<◌, ◌≤◌, refl, List, [], ◌∷◌, length, ltb, ◌==◌, if◌then◌else◌, arith,
  Bool-cases, inl, inr, ◌⊎◌,
}
use fusee_fs.Kv.Consensus.{
  CasRequest, Votes, add_vote, votes_of, vote, count_votes, majority, first_value,
}

-- How often a value is in a list.
unfoldable pub count : ℕ → List ℕ → ℕ
count v [] = 0
count v (w ∷ ws) = (if v == w then 1 else 0) + count v ws

-- The keys are in order, and past `low`.
abbrev Ordered : ℕ → Votes → Type 0
Ordered low [] = Unit
Ordered low ((k, n) ∷ m) = (low ≤ k) × ((1 ≤ n) × Ordered (k + 1) m)

add_vote-Ordered : (low v : ℕ) (m : Votes) → low ≤ v → Ordered low m → Ordered low (add_vote v m)
unfolding add_vote
add_vote-Ordered low v [] h o = (h, (omega arith, tt))
add_vote-Ordered low v ((k, n) ∷ m) h o = elim (Bool-cases (v == k)) [
  | inl e ↦ rw e (o.0, (omega (arith, o.1.0), o.1.1))
  | inr e ↦ elim (Bool-cases (ltb v k)) [
    | inl l ↦ rw (e, l) (h, (omega arith, (ground arith, o.1)))
    | inr l ↦ rw (e, l) (o.0, (o.1.0, add_vote-Ordered (k + 1) v m (ground arith) o.1.1))
  ]
]

votes_of-low : (low v : ℕ) (m : Votes) → Ordered low m → v < low → votes_of v m ≡ 0
unfolding votes_of
votes_of-low low v [] o h = refl
votes_of-low low v ((k, n) ∷ m) o h =
    let rest = votes_of-low (k + 1) v m o.1.1 (omega (arith, o.0)) in
    let below = o.0 in ground arith

votes_of-add_vote :
    (low v w : ℕ) (m : Votes)
    → Ordered low m
    → votes_of v (add_vote w m) ≡ (if v == w then 1 else 0) + votes_of v m
unfolding votes_of add_vote
votes_of-add_vote low v w [] o = ground arith
votes_of-add_vote low v w ((k, n) ∷ m) o =
    let rest = votes_of-add_vote (k + 1) v w m o.1.1 in
    let absent = votes_of-low (k + 1) v m o.1.1 in ground arith

-- What each backup has taken.
unfoldable pub taken_values : ℕ → ℕ → List CasRequest → List ℕ
taken_values target expected [] = []
taken_values target expected (r ∷ rs) =
    vote target expected r.swap_back ∷ taken_values target expected rs

-- The votes of values, one after the other.
pub tally : List ℕ → Votes → Votes
tally [] m = m
tally (w ∷ ws) m = tally ws (add_vote w m)

pub count_votes-tally :
    (target expected : ℕ) (rs : List CasRequest) (m : Votes) (again : List CasRequest)
    → (count_votes target expected rs m again).0 ≡ tally (taken_values target expected rs) m
unfolding count_votes tally taken_values
count_votes-tally target expected [] m again = refl
count_votes-tally target expected (r ∷ rs) m again =
    count_votes-tally target expected rs (add_vote (vote target expected r.swap_back) m) _

tally-Ordered : (ws : List ℕ) (m : Votes) → Ordered 0 m → Ordered 0 (tally ws m)
unfolding tally
tally-Ordered [] m o = o
tally-Ordered (w ∷ ws) m o =
    tally-Ordered ws (add_vote w m) (add_vote-Ordered 0 w m (omega arith) o)

-- A vote is a plain count.
pub votes_of-tally :
    (v : ℕ) (ws : List ℕ) (m : Votes)
    → Ordered 0 m
    → votes_of v (tally ws m) ≡ count v ws + votes_of v m
unfolding count tally
votes_of-tally v [] m o = omega arith
votes_of-tally v (w ∷ ws) m o = omega (
  arith,
  votes_of-tally v ws (add_vote w m) (add_vote-Ordered 0 w m (omega arith) o),
  votes_of-add_vote 0 v w m o,
)

-- The majority loop keeps its best so far, or leaves it for a value with most votes.
Best : Votes → ℕ → ℕ → ℕ → Type 0
Best m val vote r =
    ((r ≡ val) × ((v : ℕ) → votes_of v m + 1 ≤ vote))
    ⊎ (((v : ℕ) → votes_of v m ≤ votes_of r m) × (vote ≤ votes_of r m))

majority-Best :
    (low : ℕ) (m : Votes) (val vote : ℕ)
    → Ordered low m
    → 1 ≤ vote
    → Best m val vote (majority m val vote)
unfolding Best majority votes_of
majority-Best low [] val vote o h = inl (refl, λ v. omega arith)
majority-Best low ((k, n) ∷ m) val vote o h = elim (Bool-cases (ltb vote (n + 1))) [
  | inl e ↦ elim (majority-Best (k + 1) m k (n + 1) o.1.1 (omega arith)) [
    | inl (r, q) ↦ inr (λ v. ground (arith, q v, r, e), ground (arith, r, e))
    | inr (q, g) ↦
        let own = votes_of-low (k + 1) (majority m k (n + 1)) m o.1.1 in
        inr (λ v. ground (arith, q v, e), ground (arith, e))
  ]
  | inr e ↦ elim (majority-Best (k + 1) m val vote o.1.1 h) [
    | inl (r, q) ↦ inl (ground (arith, e), λ v. ground (arith, q v, e))
    | inr (q, g) ↦
        let own = votes_of-low (k + 1) (majority m val vote) m o.1.1 in
        inr (λ v. ground (arith, q v, e), ground (arith, e))
  ]
]

-- No value has more votes than the one that the loop ends with.
majority_max : (m : Votes) (val v : ℕ) → Ordered 0 m → votes_of v m ≤ votes_of (majority m val 0) m
unfolding Best majority votes_of
majority_max [] val v o = omega arith
majority_max ((k, n) ∷ m) val v o = elim (majority-Best (k + 1) m k (n + 1) o.1.1 (omega arith)) [
  | inl (r, q) ↦ ground (arith, q v)
  | inr (q, g) ↦
      let own = votes_of-low (k + 1) (majority m k (n + 1)) m o.1.1 in ground (arith, q v)
]

-- The first key has a vote, if there is one.
first_value-votes :
    (m : Votes) (v : ℕ) → Ordered 0 m → 1 ≤ votes_of v m → 1 ≤ votes_of (first_value m) m
unfolding first_value votes_of
first_value-votes [] v o h = omega arith
first_value-votes ((k, n) ∷ m) v o h = let one = o.1.0 in ground arith

-- No key is before the first.
first_value_least : (low v : ℕ) (m : Votes) → Ordered low m → 1 ≤ votes_of v m → first_value m ≤ v
unfolding first_value votes_of
first_value_least low v [] o h = omega arith
first_value_least low v ((k, n) ∷ m) o h =
    let below = votes_of-low (k + 1) v m o.1.1 in ground arith

-- Two values share the list.
pub count-two : (v w : ℕ) (ws : List ℕ) → v ≢ w → count v ws + count w ws ≤ length ws
unfolding count
count-two v w [] h = omega arith
count-two v w (u ∷ ws) h = let rest = count-two v w ws h in ground arith

pub count-length : (v : ℕ) (ws : List ℕ) → count v ws ≤ length ws
unfolding count
count-length v [] = omega arith
count-length v (u ∷ ws) = let rest = count-length v ws in ground arith

-- The same three facts for the votes on a list of values.
module _ (ws : List ℕ) where
  pub votes : (v : ℕ) → votes_of v (tally ws []) ≡ count v ws
  unfolding votes_of
  votes v = omega (arith, votes_of-tally v ws [] tt)

  pub count-majority : (val v : ℕ) → count v ws ≤ count (majority (tally ws []) val 0) ws
  count-majority val v = omega (
    arith,
    votes v,
    votes (majority (tally ws []) val 0),
    majority_max (tally ws []) val v (tally-Ordered ws [] tt),
  )

  pub count-first_value : (v : ℕ) → 1 ≤ count v ws → 1 ≤ count (first_value (tally ws [])) ws
  count-first_value v h = omega (
    arith,
    votes v,
    votes (first_value (tally ws [])),
    first_value-votes (tally ws []) v (tally-Ordered ws [] tt) (omega (arith, votes v)),
  )

  pub count-first_value_least : (v : ℕ) → 1 ≤ count v ws → first_value (tally ws []) ≤ v
  count-first_value_least v h =
      first_value_least 0 v (tally ws []) (tally-Ordered ws [] tt) (omega (arith, votes v))
