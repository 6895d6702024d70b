-- ===== src/Kv/Client/Found.antt =====
-- The search of a key among the values that were read.
use fusee_fs.Prelude.{
  ℕ, suc, ◌+◌, ◌≡◌, ◌≢◌, ◌↔◌, ◌⊎◌, refl, sym, ◌∙◌, ap, true, false, none, some, List, [], ◌∷◌,
  Bytes, All, length, take, get_elem?, Bool-cases, inl, inr, arith,
}
use fusee_fs.Kv.Hash.{check_key}
use fusee_fs.Kv.Hash.Key.{check_key_iff}
use fusee_fs.Kv.Candidates.{Candidate}
use fusee_fs.Kv.Client.Address.{log_header_size}
use fusee_fs.Kv.Client.{KvObject, Network, Config, State}
use fusee_fs.Kv.Client.Slots.{find_match_kv_idx}
use fusee_fs.Kv.Client.Search.{search_result, read_at, kv_search_check_kv}

take_whole : (k : Bytes) → take (length k) k ≡ k
take_whole [] = refl
take_whole (x ∷ k) = ap (λ (t : Bytes). x ∷ t) (take_whole k)

-- Two whole keys pass the check exactly where they are one.
whole_keys :
    (r l : ℕ) (o key : Bytes) → (check_key r o (length o) l key (length key) ≡ true) ↔ (o ≡ key)
whole_keys r l o key =
    let both = check_key_iff r l (length o) (length key) o key in
    (
      λ h. sym (take_whole o) ∙ (both.0 h).1 ∙ take_whole key,
      λ h. both.1 (ap (λ (k : Bytes). length k) h, take_whole o ∙ h ∙ sym (take_whole key)),
    )

-- None of the values has the key.
abbrev pub NoKey : Bytes → List (Candidate × KvObject) → Type 0
NoKey key kv_read = All (λ (r : Candidate × KvObject). r.1.key ≢ key) kv_read

-- The value at index `j` is the first with the key.
abbrev pub IsFirst : Bytes → List (Candidate × KvObject) → ℕ → Candidate × KvObject → Type 0
IsFirst key kv_read j r =
    (get_elem? kv_read j ≡ some r) × (r.1.key ≡ key) × NoKey key (take j kv_read)

find_match_kv_idx-cases :
    (i l_addr : ℕ) (key : Bytes) (kv_read : List (Candidate × KvObject))
    → ((find_match_kv_idx i l_addr key kv_read ≡ none) × NoKey key kv_read)
      ⊎ ((j : ℕ) × (r : Candidate × KvObject) × (find_match_kv_idx i l_addr key kv_read
            ≡ some (i + j))
          × IsFirst key kv_read j r)
unfolding find_match_kv_idx
find_match_kv_idx-cases i l_addr key [] = inl (refl, tt)
find_match_kv_idx-cases i l_addr key ((c, o) ∷ kv_read) =
    let r_at = c.l_kv_addr + log_header_size in
    let l_at = l_addr + log_header_size in
    let same = whole_keys r_at l_at o.key key in
    elim (Bool-cases (check_key r_at o.key (length o.key) l_at key (length key))) [
      | inl h ↦ rw h (inr (0, (c, o), ap (λ n. some n) (omega arith), (refl, same.0 h, tt)))
      | inr h ↦
          let differs : o.key ≢ key = λ e. let k = same.1 e in ground (arith, h, k) in
          rw h (elim (find_match_kv_idx-cases (i + 1) l_addr key kv_read) [
            | inl (e, rest) ↦ inl (e, (differs, rest))
            | inr (j, r, e, (at, is_key, before)) ↦
                inr (suc j, r, e ∙ ap (λ n. some n) (omega arith), (at, is_key, (differs, before)))
          ])
    ]

-- The last phase of a search that is not finished gives the value of the first entry that was read and
-- has the key, behind its header and its key, and nothing exactly where no entry has the key.
pub kv_search_check_kv-IsFirst {ℓ} :
    {W : Type ℓ} (net : Network W) (cfg : Config) (s : State W)
    → s.ctx.is_finished ≡ false
    → let t = kv_search_check_kv net cfg s in
      ((t.ctx.value_addr ≡ none) × NoKey s.ctx.key s.ctx.kv_read)
      ⊎ ((j : ℕ) × (r : Candidate × KvObject) × (t.ctx.value_addr
            ≡ some (r.0.l_kv_addr + log_header_size + length s.ctx.key))
          × IsFirst s.ctx.key s.ctx.kv_read j r)
unfolding kv_search_check_kv search_result read_at
kv_search_check_kv-IsFirst net cfg s h =
    elim (find_match_kv_idx-cases 0 s.ctx.l_addr s.ctx.key s.ctx.kv_read) [
      | inl (e, rest) ↦ rw (h, e) (inl (refl, rest))
      | inr (j, r, e, (at, is_key, before)) ↦
          let found : find_match_kv_idx 0 s.ctx.l_addr s.ctx.key s.ctx.kv_read ≡ some j =
            e ∙ ap (λ n. some n) (omega arith) in
          rw (h, found, at)
            (inr (
              j,
              r,
              ap (λ (k : Bytes). some (r.0.l_kv_addr + log_header_size + length k)) is_key,
              (at, is_key, before),
            ))
    ]
