-- ===== src/Kv/Rounds/Puts.antt =====
-- One entry of a function that is changed, and the vote on what a swap gave back.
use fusee_fs.Prelude.{ℕ, ◌≡◌, ◌≢◌, ◌⊎◌, refl, ◌&&◌, Option, some, ◌==◌, arith, inl, inr, Bool-cases}
use fusee_fs.Kv.Consensus.{vote}
use fusee_fs.Kv.Rounds.{put, put_seen}

pub put_same : (i x : ℕ) (f : ℕ → ℕ) → put i x f i ≡ x
unfolding put
put_same i x f = ground arith

pub put_other : (i x j : ℕ) (f : ℕ → ℕ) → j ≢ i → put i x f j ≡ f j
unfolding put
put_other i x j f h = ground arith

pub put_seen-cases :
    (v i x s w j : ℕ) (f : ℕ → ℕ → Option ℕ)
    → put_seen v i x f w j ≡ some s
    → ((w ≡ v) × (j ≡ i) × (s ≡ x)) ⊎ (f w j ≡ some s)
unfolding put_seen
put_seen-cases v i x s w j f h = elim (Bool-cases ((w == v) && (j == i))) [
  | inl e ↦
      let taken : some x ≡ some s = rw e at h in
      inl (ground (arith, e), ground (arith, e), ground (arith, taken))
  | inr e ↦ inr (rw e at h)
]

pub put_self : (i x j : ℕ) (f : ℕ → ℕ) → x ≡ f i → put i x f j ≡ f j
unfolding put
put_self i x j f h = elim (Bool-cases (j == i)) [
  | inl e ↦ let same : j ≡ i = ground (arith, e) in rw (e, same) h
  | inr e ↦ rw e refl
]

pub vote-expected : (target expected s : ℕ) → s ≡ expected → vote target expected s ≡ target
unfolding vote
vote-expected target expected s h = ground (arith, h)

pub vote-other : (target expected s : ℕ) → s ≢ expected → vote target expected s ≡ s
unfolding vote
vote-other target expected s h = ground (arith, h)
