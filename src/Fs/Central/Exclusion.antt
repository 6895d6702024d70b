-- ===== src/Fs/Central/Exclusion.antt =====
-- The lock service between clients that release only what they hold.
use fusee_fs.Prelude.{
  ℕ, ◌≡◌, ◌≢◌, refl, Bool, true, false, ◌&&◌, Bool-cases, inl, inr, List, [], ◌∷◌, ◌==◌, arith,
  if◌then◌else◌, ◌↔◌,
}
use fusee_fs.Fs.Central.{
  Central, contains, erase, lock_handler, unlock_handler, get_inode_id_group_handler,
}

-- The server, and who holds what: the pairs of a client and a number that was locked for it.
pub record World : Type 0 where
  pub central : Central
  pub held : List (ℕ × ℕ)

unfoldable pub holds : ℕ → ℕ → List (ℕ × ℕ) → Bool
holds client id [] = false
holds client id ((c, j) ∷ s) = if (c == client) && (j == id) then true else holds client id s

pub release : ℕ → ℕ → List (ℕ × ℕ) → List (ℕ × ℕ)
release client id [] = []
release client id ((c, j) ∷ s) =
    let rest = release client id s in if (c == client) && (j == id) then rest else (c, j) ∷ rest

-- One request to the server, and what its client makes of the answer.
pub data Step : World → World → Type 0 where
  granted :
      {w : World} (client id : ℕ)
      → (lock_handler id w.central).0 ≡ 0
      → Step w (record { central = (lock_handler id w.central).1; held = (client, id) ∷ w.held })
  refused :
      {w : World} (client id : ℕ)
      → (lock_handler id w.central).0 ≡ 1
      → Step w (record { central = (lock_handler id w.central).1; held = w.held })
  unlocked :
      {w : World} (client id : ℕ)
      → holds client id w.held ≡ true
      → Step w
          (record { central = (unlock_handler id w.central).1; held = release client id w.held })
  numbered :
      {w : World}
      → Step w (record { central = (get_inode_id_group_handler w.central).1; held = w.held })

pub data Reached : World → Type 0 where
  start :
      (seq : ℕ)
      → Reached (record { central = record { lock_set = []; inode_id_group_seq = seq }; held = [] })
  next : {w w' : World} → Reached w → Step w w' → Reached w'

taken : ℕ → List (ℕ × ℕ) → Bool
taken id [] = false
taken id ((c, j) ∷ s) = if j == id then true else taken id s

-- The set is what is held, and each number is held by one client.
record IsExclusive (w : World) : Type 0 where
  set : (id : ℕ) → contains id w.central.lock_set ≡ taken id w.held
  owner : (c d id : ℕ) → holds c id w.held ≡ true → holds d id w.held ≡ true → c ≡ d

contains-erase :
    (id j : ℕ) (s : List ℕ) → contains j (erase id s) ≡ (if id == j then false else contains j s)
unfolding contains erase
contains-erase id j [] = ground arith
contains-erase id j (k ∷ s) = ground (arith, contains-erase id j s)

holds-taken : (c id : ℕ) (s : List (ℕ × ℕ)) → holds c id s ≡ true → taken id s ≡ true
unfolding holds taken
holds-taken c id [] h = ground arith
holds-taken c id ((d, j) ∷ s) h = ground (arith, holds-taken c id s)

taken-holds : (id : ℕ) (s : List (ℕ × ℕ)) → taken id s ≡ true → (c : ℕ) × (holds c id s ≡ true)
unfolding holds taken
taken-holds id [] h = absurd (ground arith)
taken-holds id ((d, j) ∷ s) h = elim (Bool-cases (j == id)) [
  | inl e ↦ (d, ground arith)
  | inr e ↦ let (c, q) = taken-holds id s (ground arith) in (c, ground arith)
]

holds-release :
    (c id d j : ℕ) (s : List (ℕ × ℕ))
    → holds d j (release c id s) ≡ (if (c == d) && (id == j) then false else holds d j s)
unfolding holds release
holds-release c id d j [] = ground arith
holds-release c id d j ((k, i) ∷ s) = ground (arith, holds-release c id d j s)

taken-release : (c id j : ℕ) (s : List (ℕ × ℕ)) → id ≢ j → taken j (release c id s) ≡ taken j s
unfolding taken release
taken-release c id j [] h = refl
taken-release c id j ((k, i) ∷ s) h = ground (arith, taken-release c id j s h)

taken-release_own :
    (c id : ℕ) (s : List (ℕ × ℕ))
    → ((d : ℕ) → holds d id s ≡ true → c ≡ d)
    → taken id (release c id s) ≡ false
taken-release_own c id s only = elim (Bool-cases (taken id (release c id s))) [
  | inr e ↦ e
  | inl e ↦
      let (d, q) = taken-holds id (release c id s) e in
      absurd (ground (arith, holds-release c id d id s, only d))
]

kept : {w w' : World} → IsExclusive w → Step w w' → IsExclusive w'
unfolding lock_handler unlock_handler get_inode_id_group_handler contains taken holds
kept {w = w} x (granted client id h) = record {
  set = λ j. ground (arith, x.set id, x.set j);
  owner = λ c d j p q.
      ground (arith, x.set id, x.owner c d j, holds-taken c id w.held, holds-taken d id w.held);
}
kept {w = w} x (refused client id h) = record {
  set = λ j. ground (arith, x.set j);
  owner = x.owner;
}
kept {w = w} x (unlocked client id h) = record {
  set = λ j. ground (
    arith,
    x.set j,
    contains-erase id j w.central.lock_set,
    taken-release client id j w.held,
    taken-release_own client id w.held (λ d q. x.owner client d id h q),
  );
  owner = λ c d j p q.
      x.owner c d j (ground (arith, holds-release client id c j w.held))
        (ground (arith, holds-release client id d j w.held));
}
kept x numbered = record { set = x.set; owner = x.owner }

exclusive : {w : World} → Reached w → IsExclusive w
unfolding contains taken holds
exclusive (start seq) = record { set = λ id. refl; owner = λ c d id p q. absurd (ground arith) }
exclusive (next r s) = kept (exclusive r) s

-- Whatever requests came before, two clients that hold a lock on one number are one client.
pub lock_handler_exclusive :
    {w : World} (c d id : ℕ)
    → Reached w
    → holds c id w.held ≡ true
    → holds d id w.held ≡ true
    → c ≡ d
lock_handler_exclusive c d id r p q = (exclusive r).owner c d id p q

-- A lock request is refused exactly while some client holds the number.
pub lock_handler_refuses :
    {w : World} (id : ℕ)
    → Reached w
    → ((lock_handler id w.central).0 ≡ 1) ↔ ((c : ℕ) × (holds c id w.held ≡ true))
unfolding lock_handler
lock_handler_refuses {w = w} id r =
    let same = (exclusive r).set id in
    (
      λ h. taken-holds id w.held (ground arith),
      λ h. let (c, q) = h in ground (arith, holds-taken c id w.held),
    )
