-- ===== src/Kv/Client/LocalCache.antt =====
-- src/client.h: the cache of a client, from a key to the slot that its value was last found in. The
-- hash map is a list of keys with their entries. `misses_often` is the comparison of the miss rate, a
-- quotient of floats, with `miss_rate_threash_`.
use fusee_fs.Prelude.{
  ℕ, ◌+◌, ◌≡◌, sym, ◌∙◌, refl, Bool, false, Bool-cases, inl, inr, Option, none, some, List, [], ◌∷◌,
  Bytes, bytes_eq, bytes_eq_refl, bytes_eq_sound, ◌==◌, if◌then◌else◌, arith,
}
use fusee_fs.Prelude.Word.{u32}
use fusee_fs.Kv.Hash.{RaceHashSlot, convert_slot_to_int, convert_40_to_64_bits}

pub record LocalCacheEntry : Type 0 where
  pub r_slot_addr : List ℕ
  pub l_slot : RaceHashSlot
  pub miss_cnt : ℕ
  pub acc_cnt : ℕ

abbrev pub Cache : Type 0
Cache = List (Bytes × LocalCacheEntry)

-- `addr_cache_.find`.
unfoldable pub lookup : Bytes → Cache → Option LocalCacheEntry
lookup key [] = none
lookup key ((k, e) ∷ m) = if bytes_eq k key then some e else lookup key m

-- `addr_cache_.erase`.
unfoldable pub remove_cache : Bytes → Cache → Cache
remove_cache key [] = []
remove_cache key ((k, e) ∷ m) =
    let rest = remove_cache key m in if bytes_eq k key then rest else (k, e) ∷ rest

-- What an update does to the entry of the key.
unfoldable pub touch : RaceHashSlot → List ℕ → LocalCacheEntry → LocalCacheEntry
touch slot r_slot_addr_list e =
    let acc_cnt = u32 (e.acc_cnt + 1) in
    if convert_slot_to_int e.l_slot == convert_slot_to_int slot
    then record e { acc_cnt = acc_cnt }
    else record {
      r_slot_addr = r_slot_addr_list;
      l_slot = slot;
      miss_cnt = u32 (e.miss_cnt + 1);
      acc_cnt = acc_cnt;
    }

unfoldable pub update_cache : Bytes → RaceHashSlot → List ℕ → Cache → Cache
unfolding touch
update_cache key slot r_slot_addr_list [] =
    (key, record { r_slot_addr = r_slot_addr_list; l_slot = slot; miss_cnt = 0; acc_cnt = 1 }) ∷ []
update_cache key slot r_slot_addr_list ((k, e) ∷ m) =
    let rest = update_cache key slot r_slot_addr_list m in
    if bytes_eq k key then (k, touch slot r_slot_addr_list e) ∷ m else (k, e) ∷ rest

-- `check_cache` from the entry that the map has: an entry whose slot points nowhere is erased.
unfoldable pub check_entry :
    (ℕ → ℕ → Bool) → Bytes → Cache → Option LocalCacheEntry → Option LocalCacheEntry × Cache
unfolding remove_cache
check_entry misses_often key m none = (none, m)
check_entry misses_often key m (some e) =
    if convert_40_to_64_bits e.l_slot.pointer == 0
    then (none, remove_cache key m)
    else if misses_often e.miss_cnt e.acc_cnt
    then (none, m)
    else (some e, m)

unfoldable pub check_cache : (ℕ → ℕ → Bool) → Bytes → Cache → Option LocalCacheEntry × Cache
unfolding lookup check_entry
check_cache misses_often key m = check_entry misses_often key m (lookup key m)

bytes_eq_swap : (a b : Bytes) → bytes_eq a b ≡ false → bytes_eq b a ≡ false
bytes_eq_swap a b h = elim (Bool-cases (bytes_eq b a)) [
  | inl e ↦
      let whole = bytes_eq_refl a in
      let differ = rw (bytes_eq_sound b a e) at h in absurd (ground (arith, whole, differ))
  | inr e ↦ e
]

-- The entry of a key after an update.
updated : RaceHashSlot → List ℕ → Option LocalCacheEntry → LocalCacheEntry
updated slot r_slot_addr_list none = record {
  r_slot_addr = r_slot_addr_list;
  l_slot = slot;
  miss_cnt = 0;
  acc_cnt = 1;
}
updated slot r_slot_addr_list (some e) = touch slot r_slot_addr_list e

lookup-update_cache :
    (key j : Bytes) (slot : RaceHashSlot) (addrs : List ℕ) (m : Cache)
    → lookup j (update_cache key slot addrs m)
      ≡ (if bytes_eq key j then some (updated slot addrs (lookup key m)) else lookup j m)
unfolding update_cache lookup updated
lookup-update_cache key j slot addrs [] = refl
lookup-update_cache key j slot addrs ((k, e) ∷ m) = elim (Bool-cases (bytes_eq k key)) [
  | inl same ↦
      let is_key = bytes_eq_sound k key same in
      rw (same, is_key)
        (elim (Bool-cases (bytes_eq key j)) [ inl h ↦ rw h refl | inr h ↦ rw h refl ])
  | inr other ↦
      let rest = lookup-update_cache key j slot addrs m in
      rw other (elim (Bool-cases (bytes_eq k j)) [
        | inl h ↦ let is_j = bytes_eq_sound k j h in rw (h, ← is_j, bytes_eq_swap k key other) refl
        | inr h ↦ rw (h, rest) refl
      ])
]

lookup-remove_cache :
    (key j : Bytes) (m : Cache)
    → lookup j (remove_cache key m) ≡ (if bytes_eq key j then none else lookup j m)
unfolding remove_cache lookup
lookup-remove_cache key j [] = ground arith
lookup-remove_cache key j ((k, e) ∷ m) =
    let rest = lookup-remove_cache key j m in
    elim (Bool-cases (bytes_eq k key)) [
      | inl same ↦ let is_key = bytes_eq_sound k key same in rw (same, is_key, rest) (ground arith)
      | inr other ↦ rw other (elim (Bool-cases (bytes_eq k j)) [
        | inl h ↦ let is_j = bytes_eq_sound k j h in rw (h, ← is_j, bytes_eq_swap k key other) refl
        | inr h ↦ rw (h, rest) refl
      ])
    ]

-- What is given is the entry, if anything.
check_entry-some :
    (misses_often : ℕ → ℕ → Bool) (key : Bytes) (m : Cache) (o : Option LocalCacheEntry)
    (e : LocalCacheEntry)
    → (check_entry misses_often key m o).0 ≡ some e
    → o ≡ some e
unfolding check_entry
check_entry-some misses_often key m none e h = h
check_entry-some misses_often key m (some x) e h = ground (arith, h)

check_entry-same :
    (misses_often : ℕ → ℕ → Bool) (key : Bytes) (m u : Cache) (o : Option LocalCacheEntry)
    → (check_entry misses_often key m o).0 ≡ (check_entry misses_often key u o).0
unfolding check_entry
check_entry-same misses_often key m u none = refl
check_entry-same misses_often key m u (some x) = ground arith

updated-slot :
    (slot : RaceHashSlot) (addrs : List ℕ) (o : Option LocalCacheEntry)
    → convert_slot_to_int (updated slot addrs o).l_slot ≡ convert_slot_to_int slot
unfolding updated touch
updated-slot slot addrs none = refl
updated-slot slot addrs (some e) =
    elim (Bool-cases (convert_slot_to_int e.l_slot == convert_slot_to_int slot)) [
      | inl h ↦ rw h (ground (arith, h))
      | inr h ↦ rw h refl
    ]

-- A cache hit after an update of its key gives the slot of the update, after an update of another key
-- what it gave before, and after the removal of its key there is no hit.
pub check_cache_fresh :
    (misses_often : ℕ → ℕ → Bool) (key j : Bytes) (slot : RaceHashSlot) (addrs : List ℕ) (m : Cache)
    → ((e : LocalCacheEntry)
        → (check_cache misses_often key (update_cache key slot addrs m)).0 ≡ some e
        → convert_slot_to_int e.l_slot ≡ convert_slot_to_int slot)
      × (bytes_eq key j ≡ false
          → (check_cache misses_often j (update_cache key slot addrs m)).0
            ≡ (check_cache misses_often j m).0)
      × ((check_cache misses_often key (remove_cache key m)).0 ≡ none)
unfolding check_cache
check_cache_fresh misses_often key j slot addrs m =
    let after = update_cache key slot addrs m in
    let own = lookup-update_cache key key slot addrs m in
    let other = lookup-update_cache key j slot addrs m in
    let gone = lookup-remove_cache key key m in
    let whole = bytes_eq_refl key in
    (
      λ e h.
          let found = check_entry-some misses_often key after (lookup key after) e h in
          let fresh = rw whole at own in
          let same : some (updated slot addrs (lookup key m)) ≡ some e = sym fresh ∙ found in
          let is_e : e ≡ updated slot addrs (lookup key m) = ground (arith, same) in
          rw is_e (updated-slot slot addrs (lookup key m)),
      λ h.
          let kept = rw h at other in
          rw kept (check_entry-same misses_often j after m (lookup j m)),
      let absent = rw whole at gone in rw absent refl,
    )
