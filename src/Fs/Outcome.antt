-- ===== src/Fs/Outcome.antt =====
-- Return values of the engine's methods (0 or a negated errno), and methods as actions on a state
-- that stays as it is at an early return.
use fusee_fs.Prelude.{Bool, true, false}

pub data Errno : Type 0 where
  enoent eacces enotdir eexist enotempty eisdir eio : Errno

pub data Outcome (A : Type 0) : Type 0 where
  ok : A → Outcome A
  err : Errno → Outcome A

abbrev pub Action : Type 0 → Type 0 → Type 0
Action S A = S → Outcome A × S

module _ {S A : Type 0} where
  abbrev pub pure : A → Action S A
  pure a s = (ok a, s)

  abbrev pub raise : Errno → Action S A
  raise c s = (err c, s)

  -- A read of the state.
  abbrev pub query : (S → Outcome A) → Action S A
  query f s = (f s, s)

infixl 5 ◌>>=◌ ◌>>◌
abbrev pub ◌>>=◌ : {S A B : Type 0} → Action S A → (A → Action S B) → Action S B
◌>>=◌ m f s = let (r, s') = m s in elim r [ ok a ↦ f a s' | err c ↦ (err c, s') ]

abbrev pub ◌>>◌ : {S A B : Type 0} → Action S A → Action S B → Action S B
m >> n = m >>= λ _. n

-- A call whose return value is dropped.
abbrev pub ignore : {S A : Type 0} → Action S A → Action S Unit
ignore m s = (ok tt, (m s).1)

-- `if (ret != 0) { cleanup; return ret; }` behind a call.
abbrev pub or_else_do : {S A : Type 0} → Action S A → Action S Unit → Action S A
or_else_do m cleanup s =
    let (r, s') = m s in elim r [ ok a ↦ (ok a, s') | err c ↦ (err c, (cleanup s').1) ]

-- `if (!b) { cleanup; return -c; }`
abbrev pub require : {S : Type 0} → Bool → Errno → Action S Unit → Action S Unit
require true c cleanup s = (ok tt, s)
require false c cleanup s = (err c, (cleanup s).1)
