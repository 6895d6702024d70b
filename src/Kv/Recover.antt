-- ===== src/Kv/Recover.antt =====
-- src/client.cc: the test, during recovery, whether the primary slot is still to be changed.
use fusee_fs.Prelude.{
  ℕ, ◌+◌, ◌-◌, ◌≡◌, ◌≢◌, ◌↔◌, refl, Bool, true, false, Bool-cases, inl, inr, List, [], ◌∷◌, ◌++◌,
  All, length, ◌==◌, if◌then◌else◌, arith,
}
use fusee_fs.Kv.Hash.{RaceHashSlot, convert_slot_to_int}

-- The inner loops of `check_recover_need_cas_pr` over the four slot arrays of one replica: the places
-- that hold the target.
pub matches_in : ℕ → ℕ → ℕ → List RaceHashSlot → List (ℕ × ℕ)
matches_in target i j [] = []
matches_in target i j (slot ∷ slots) =
    let rest = matches_in target i (j + 1) slots in
    if convert_slot_to_int slot == target then (i, j) ∷ rest else rest

pub matches : ℕ → ℕ → List (List RaceHashSlot) → List (ℕ × ℕ)
unfolding matches_in
matches target i [] = []
matches target i (slots ∷ arrays) = matches_in target i 0 slots ++ matches target (i + 1) arrays

pub all_matches : ℕ → List (List (List RaceHashSlot)) → List (ℕ × ℕ)
unfolding matches
all_matches target [] = []
all_matches target (arrays ∷ backups) = matches target 0 arrays ++ all_matches target backups

-- `check_recover_need_cas_pr`, for the arrays of the primary index and of each backup: whether the
-- primary slot is still to be changed, and the places that match in the backups.
pub check_recover_need_cas_pr :
    ℕ → ℕ → List (List RaceHashSlot) → List (List (List RaceHashSlot)) → Bool × List (ℕ × ℕ)
unfolding matches all_matches
check_recover_need_cas_pr target num_replication primary backups = elim (matches target 0 primary) [
  | found ∷ more ↦ (false, [])
  | [] ↦ let places = all_matches target backups in (length places == num_replication - 1, places)
]

holds_in :
    (target i j : ℕ) (slots : List RaceHashSlot)
    → (matches_in target i j slots ≡ []) ↔ All (λ s. convert_slot_to_int s ≢ target) slots
unfolding matches_in
holds_in target i j [] = (λ h. tt, λ h. refl)
holds_in target i j (slot ∷ slots) =
    let rest = holds_in target i (j + 1) slots in
    elim (Bool-cases (convert_slot_to_int slot == target)) [
      | inl e ↦ (λ h. absurd (ground (arith, e, h)), λ h. absurd (h.0 (ground (arith, e))))
      | inr e ↦ (
        λ h. (ground (arith, e), rest.0 (ground (arith, e, h))),
        λ h. ground (arith, e, rest.1 h.1),
      )
    ]

append_empty : (xs ys : List (ℕ × ℕ)) → (xs ++ ys ≡ []) ↔ ((xs ≡ []) × (ys ≡ []))
append_empty [] ys = (λ h. (refl, h), λ h. h.1)
append_empty (x ∷ xs) ys = (λ h. absurd cc, λ h. absurd cc)

holds_nowhere :
    (target i : ℕ) (arrays : List (List RaceHashSlot))
    → (matches target i arrays ≡ [])
      ↔ All (λ (slots : List RaceHashSlot). All (λ s. convert_slot_to_int s ≢ target) slots) arrays
unfolding matches
holds_nowhere target i [] = (λ h. tt, λ h. refl)
holds_nowhere target i (slots ∷ arrays) =
    let here = holds_in target i 0 slots in
    let rest = holds_nowhere target (i + 1) arrays in
    let split = append_empty (matches_in target i 0 slots) (matches target (i + 1) arrays) in
    (λ h. let (p, q) = split.0 h in (here.0 p, rest.0 q), λ h. split.1 (here.1 h.0, rest.1 h.1))

-- How often the target occurs in a list of slots, in those of an array of arrays, and in all backups.
pub occurrences : ℕ → List RaceHashSlot → ℕ
occurrences target [] = 0
occurrences target (slot ∷ slots) =
    (if convert_slot_to_int slot == target then 1 else 0) + occurrences target slots

pub backup_occurrences : ℕ → List (List (List RaceHashSlot)) → ℕ
unfolding occurrences
backup_occurrences target [] = 0
backup_occurrences target ([] ∷ backups) = backup_occurrences target backups
backup_occurrences target ((slots ∷ arrays) ∷ backups) =
    occurrences target slots + backup_occurrences target (arrays ∷ backups)

length-append : (xs ys : List (ℕ × ℕ)) → length (xs ++ ys) ≡ length xs + length ys
length-append [] ys = omega arith
length-append (x ∷ xs) ys = omega (arith, length-append xs ys)

length-matches_in :
    (target i j : ℕ) (slots : List RaceHashSlot)
    → length (matches_in target i j slots) ≡ occurrences target slots
unfolding matches_in occurrences
length-matches_in target i j [] = refl
length-matches_in target i j (slot ∷ slots) =
    ground (arith, length-matches_in target i (j + 1) slots)

occurrences-first :
    (target i : ℕ) (arrays : List (List RaceHashSlot)) (backups : List (List (List RaceHashSlot)))
    → backup_occurrences target (arrays ∷ backups)
      ≡ length (matches target i arrays) + backup_occurrences target backups
unfolding matches backup_occurrences
occurrences-first target i [] backups = omega arith
occurrences-first target i (slots ∷ arrays) backups = omega (
  arith,
  length-append (matches_in target i 0 slots) (matches target (i + 1) arrays),
  length-matches_in target i 0 slots,
  occurrences-first target (i + 1) arrays backups,
)

length-all_matches :
    (target : ℕ) (backups : List (List (List RaceHashSlot)))
    → length (all_matches target backups) ≡ backup_occurrences target backups
unfolding all_matches backup_occurrences
length-all_matches target [] = refl
length-all_matches target (arrays ∷ backups) = omega (
  arith,
  length-append (matches target 0 arrays) (all_matches target backups),
  occurrences-first target 0 arrays backups,
  length-all_matches target backups,
)

-- The primary slot is changed during recovery exactly where no slot of the primary buckets holds the
-- target, and the slots of all backups that hold it are one less than the replicas in number.
pub check_recover_need_cas_pr_iff :
    (target num_replication : ℕ) (primary : List (List RaceHashSlot))
    (backups : List (List (List RaceHashSlot)))
    → ((check_recover_need_cas_pr target num_replication primary backups).0 ≡ true) ↔ (
        All (λ (slots : List RaceHashSlot). All (λ s. convert_slot_to_int s ≢ target) slots) primary
        × (backup_occurrences target backups ≡ num_replication - 1))
unfolding check_recover_need_cas_pr
check_recover_need_cas_pr_iff target num_replication primary backups =
    by_matches (matches target 0 primary) refl
  where
    by_matches :
        (found : List (ℕ × ℕ))
        → matches target 0 primary ≡ found
        → ((check_recover_need_cas_pr target num_replication primary backups).0 ≡ true) ↔ (
            All
              (λ (slots : List RaceHashSlot). All (λ s. convert_slot_to_int s ≢ target) slots)
              primary
            × (backup_occurrences target backups ≡ num_replication - 1))
    by_matches [] e = (
      λ h. (
        (holds_nowhere target 0 primary).0 e,
        ground (arith, e, h, length-all_matches target backups),
      ),
      λ h. let count = h.1 in ground (arith, e, count, length-all_matches target backups),
    )
    by_matches (x ∷ xs) e = (
      λ h. absurd (ground (arith, e, h)),
      λ h. let empty = (holds_nowhere target 0 primary).1 h.0 in absurd (ground (arith, e, empty)),
    )
