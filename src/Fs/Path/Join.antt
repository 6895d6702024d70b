-- ===== src/Fs/Path/Join.antt =====
-- Absolute paths written from names: formatting keeps them, splitting gives the names back.
use fusee_fs.Prelude.{
  ℕ, ◌≡◌, ◌≢◌, refl, none, List, [], ◌∷◌, ◌++◌, Bytes, arith, Option-cases, inl, inr, ap, ◌∙◌, sym,
  All,
}
use mathlib.Core.List.{append-nil, append_assoc}
use fusee_fs.Fs.Path.{
  slash, pieces, push_nonempty, keep_nonempty, split_path, find_last_slash, separate_last_component,
  add_leading, drop_trailing, erase_doubles, collapse, format_path,
}
use fusee_fs.Fs.Path.Format.{NoDouble}
use fusee_fs.Fs.Path.Split.{separate_last_component-append}

-- A name that a directory entry can have: not empty, and with no slash in it.
pub record IsName (name : Bytes) : Type 0 where
  pub nonempty : name ≢ []
  pub no_slash : find_last_slash name ≡ none

-- An absolute path from names: a slash before each.
unfoldable pub join : List Bytes → Bytes
join [] = []
join (name ∷ names) = slash ∷ (name ++ join names)

pieces-append :
    (name rest : Bytes)
    → find_last_slash name ≡ none
    → pieces (name ++ slash ∷ rest) ≡ (name, (pieces rest).0 ∷ (pieces rest).1)
unfolding pieces find_last_slash
pieces-append [] rest h = ground arith
pieces-append (c ∷ name) rest h = elim (Option-cases (find_last_slash name)) [
  | inl e ↦ ground (arith, pieces-append name rest e)
  | inr (pos, e) ↦ ground arith
]

-- A name's bytes are not slashes, one by one.
head_not_slash :
    (c : ℕ) (name : Bytes)
    → find_last_slash (c ∷ name) ≡ none
    → (c ≢ slash) × (find_last_slash name ≡ none)
unfolding find_last_slash
head_not_slash c name h = elim (Option-cases (find_last_slash name)) [
  | inl e ↦ ground (arith, e)
  | inr (pos, e) ↦ ground (arith, e)
]

pieces_name : (name : Bytes) → find_last_slash name ≡ none → pieces name ≡ (name, [])
unfolding pieces
pieces_name [] h = refl
pieces_name (c ∷ name) h =
    ground (arith, head_not_slash c name h, pieces_name name (head_not_slash c name h).1)

pieces-join :
    (name : Bytes) (names : List Bytes)
    → find_last_slash name ≡ none
    → pieces (name ++ join names) ≡ (name, (pieces (join names)).1)
unfolding join pieces
pieces-join name [] h = rw (append-nil) (pieces_name name h)
pieces-join name (m ∷ ms) h = pieces-append name (m ++ join ms) h

pub push_nonempty_name :
    (name : Bytes) (rest : List Bytes) → name ≢ [] → push_nonempty name rest ≡ name ∷ rest
unfolding push_nonempty
push_nonempty_name [] rest h = absurd (h refl)
push_nonempty_name (c ∷ name) rest h = refl

keep_nonempty-join :
    (names : List Bytes) → All IsName names → keep_nonempty (pieces (join names)).1 ≡ names
unfolding join pieces keep_nonempty
keep_nonempty-join [] h = refl
keep_nonempty-join (name ∷ names) h =
    rw (pieces-join name names h.0.no_slash, keep_nonempty-join names h.1)
      (push_nonempty_name name names h.0.nonempty)

first-join : (names : List Bytes) → (pieces (join names)).0 ≡ []
unfolding join pieces
first-join [] = refl
first-join (name ∷ names) = refl

-- Splitting a path that was written from names gives those names, in order.
pub split_path-join : (names : List Bytes) → All IsName names → split_path (join names) ≡ names
unfolding split_path
split_path-join names h = rw first-join (keep_nonempty-join names h)

-- Formatting keeps such a path as it is.

erase_doubles-NoDouble : (prev : ℕ) (s : Bytes) → NoDouble prev s → erase_doubles prev s ≡ s
unfolding erase_doubles
erase_doubles-NoDouble prev [] h = refl
erase_doubles-NoDouble prev (c ∷ s) h = rw (h.0, erase_doubles-NoDouble c s h.1)

abbrev Fresh : Bytes → Type 0
Fresh s = (prev : ℕ) → prev ≢ slash → NoDouble prev s

NoDouble-append :
    (prev : ℕ) (name s : Bytes)
    → find_last_slash name ≡ none
    → prev ≢ slash
    → Fresh s
    → NoDouble prev (name ++ s)
NoDouble-append prev [] s h p fresh = fresh prev p
NoDouble-append prev (c ∷ name) s h p fresh =
    let (q, h') = head_not_slash c name h in (ground arith, NoDouble-append c name s h' q fresh)

NoDouble-after_slash : (name s : Bytes) → IsName name → Fresh s → NoDouble slash (name ++ s)
NoDouble-after_slash [] s h fresh = absurd (h.nonempty refl)
NoDouble-after_slash (c ∷ name) s h fresh =
    let (q, h') = head_not_slash c name h.no_slash in
    (ground arith, NoDouble-append c name s h' q fresh)

join-Fresh : (names : List Bytes) → All IsName names → Fresh (join names)
unfolding join
join-Fresh [] h prev p = tt
join-Fresh (name ∷ names) h prev p =
    (ground arith, NoDouble-after_slash name (join names) h.0 (join-Fresh names h.1))

drop_trailing-append :
    (name s : Bytes)
    → find_last_slash name ≡ none
    → drop_trailing s ≡ s
    → drop_trailing (name ++ s) ≡ name ++ s
unfolding drop_trailing
drop_trailing-append [] s h e = e
drop_trailing-append (c ∷ []) [] h e = ground (arith, head_not_slash c [] h)
drop_trailing-append (c ∷ []) (d ∷ s) h e = ap (λ t. c ∷ t) e
drop_trailing-append (c ∷ d ∷ name) s h e =
    ap (λ t. c ∷ t) (drop_trailing-append (d ∷ name) s (head_not_slash c (d ∷ name) h).1 e)

drop_trailing-slash :
    (name s : Bytes)
    → name ≢ []
    → drop_trailing (slash ∷ (name ++ s)) ≡ slash ∷ drop_trailing (name ++ s)
unfolding drop_trailing
drop_trailing-slash [] s h = absurd (h refl)
drop_trailing-slash (c ∷ name) s h = refl

drop_trailing-join :
    (names : List Bytes) → All IsName names → drop_trailing (join names) ≡ join names
unfolding join
drop_trailing-join [] h = unfold drop_trailing in refl
drop_trailing-join (name ∷ names) h =
    drop_trailing-slash name (join names) h.0.nonempty
    ∙ ap (λ t. slash ∷ t)
        (drop_trailing-append name (join names) h.0.no_slash (drop_trailing-join names h.1))

add_leading-join : (names : List Bytes) → add_leading (join names) ≡ join names
unfolding join add_leading
add_leading-join [] = refl
add_leading-join (name ∷ names) = refl

collapse-join : (names : List Bytes) → All IsName names → collapse (join names) ≡ join names
unfolding join collapse
collapse-join [] h = refl
collapse-join (name ∷ names) h =
    ap (λ t. slash ∷ t)
      (erase_doubles-NoDouble slash (name ++ join names)
        (NoDouble-after_slash name (join names) h.0 (join-Fresh names h.1)))

-- Formatting keeps a path that was written from names as it is.
pub format_path-join :
    (names : List Bytes) → All IsName names → format_path (join names) ≡ join names
unfolding format_path
format_path-join names h = rw (add_leading-join, drop_trailing-join names h) (collapse-join names h)

join-append :
    (names : List Bytes) (name : Bytes) → join (names ++ name ∷ []) ≡ join names ++ slash ∷ name
unfolding join
join-append [] name = ap (λ t. slash ∷ t) (append-nil name)
join-append (n ∷ names) name =
    rw (join-append names name)
      (ap (λ t. slash ∷ t) (sym (append_assoc n (join names) (slash ∷ name))))

All-snoc :
    (names : List Bytes) (name : Bytes)
    → All IsName names
    → IsName name
    → All IsName (names ++ name ∷ [])
All-snoc [] name h k = (k, tt)
All-snoc (n ∷ names) name h k = (h.0, All-snoc names name h.1 k)

-- How the engine takes a path apart: what it formats and separates is the parent's path and the
-- name, and the parent's path has the parent's names for its components.
pub parent_and_name :
    (names : List Bytes) (name : Bytes)
    → All IsName names
    → IsName name
    → (separate_last_component (format_path (join (names ++ name ∷ []))) ≡ (join names, name))
      × (split_path (format_path (join names)) ≡ names)
parent_and_name names name h k = (
  rw (format_path-join (names ++ name ∷ []) (All-snoc names name h k), join-append)
      (separate_last_component-append (join names) name k.no_slash),
  rw (format_path-join names h) (split_path-join names h),
)
