-- ===== src/Fs/Path/Split.antt =====
-- Splitting a path, cutting off its last component, and joining names again.
use fusee_fs.Prelude.{
  ℕ, suc, ◌+◌, ◌≡◌, refl, Option, none, some, List, [], ◌∷◌, ◌++◌, Bytes, arith, ◌==◌,
  if◌then◌else◌, Bool-cases, Option-cases, take-append, length, inl, inr, ap, take, drop,
}
use native.Mathlib.Numerals.{add-one}
use fusee_fs.Fs.Path.{
  slash, pieces, push_nonempty, keep_nonempty, split_path, find_last_slash, separate_last_component,
}

-- How a text relates to its last slash, by what `find_last_slash` finds.
abbrev Cut : Bytes → Option ℕ → Type 0
Cut s none = (pieces s ≡ (s, [])) × (find_last_slash s ≡ none)
Cut s (some pos) =
    ((pieces s).0 ≡ (pieces (take pos s)).0)
    × ((pieces s).1 ≡ (pieces (take pos s)).1 ++ drop (pos + 1) s ∷ [])
    × (find_last_slash (drop (pos + 1) s) ≡ none)
    × (s ≡ take pos s ++ slash ∷ drop (pos + 1) s)

Cut-cons :
    (c : ℕ) (s : Bytes) (o : Option ℕ)
    → Cut s o
    → Cut
        (c ∷ s)
        (elim o [ some pos ↦ some (suc pos) | none ↦ if c == slash then some 0 else none ])
unfolding pieces find_last_slash
Cut-cons c s none h = elim (Bool-cases (c == slash)) [
  | inl e ↦ rw e (ground arith)
  | inr e ↦ rw e (ground arith)
]
Cut-cons c s (some pos) h = ground arith

Cut-at_last_slash : (s : Bytes) → Cut s (find_last_slash s)
unfolding pieces find_last_slash
Cut-at_last_slash [] = (refl, refl)
Cut-at_last_slash (c ∷ s) = Cut-cons c s (find_last_slash s) (Cut-at_last_slash s)

keep_nonempty-append :
    (ps : List Bytes) (p : Bytes)
    → keep_nonempty (ps ++ p ∷ []) ≡ keep_nonempty ps ++ push_nonempty p []
unfolding push_nonempty keep_nonempty
keep_nonempty-append [] p = refl
keep_nonempty-append ([] ∷ ps) p = keep_nonempty-append ps p
keep_nonempty-append ((c ∷ q) ∷ ps) p = ap (λ t. (c ∷ q) ∷ t) (keep_nonempty-append ps p)

push_nonempty-append :
    (q : Bytes) (ps rest : List Bytes) → push_nonempty q (ps ++ rest) ≡ push_nonempty q ps ++ rest
unfolding push_nonempty
push_nonempty-append [] ps rest = refl
push_nonempty-append (c ∷ q) ps rest = refl

-- The components of a path are those of its directory part, and then its last component, unless
-- that is empty.
pub split_path-separate_last_component :
    (path : Bytes)
    → let (dir, name) = separate_last_component path in
      split_path path ≡ split_path dir ++ push_nonempty name []
unfolding split_path separate_last_component
split_path-separate_last_component path = elim (Option-cases (find_last_slash path)) [
  | inl e ↦
      let cut : Cut path none = rw e at (Cut-at_last_slash path) in
      rw (e, separate_last_component) (ground (arith, cut))
  | inr (pos, e) ↦
      let cut : Cut path (some pos) = rw e at (Cut-at_last_slash path) in
      let dir = take pos path in
      let name = drop (pos + 1) path in
      rw (e, separate_last_component)
        (rw (cut.0, cut.1)
          (rw (keep_nonempty-append (pieces dir).1 name) (
            push_nonempty-append (pieces dir).0 (keep_nonempty (pieces dir).1)
              (push_nonempty name []))))
]

find_last_slash-append :
    (dir name : Bytes)
    → find_last_slash name ≡ none
    → find_last_slash (dir ++ slash ∷ name) ≡ some (length dir)
unfolding find_last_slash
find_last_slash-append [] name h = ground arith
find_last_slash-append (c ∷ dir) name h = ground (arith, find_last_slash-append dir name h)

drop_past : (dir name : Bytes) → drop (length dir + 1) (dir ++ slash ∷ name) ≡ name
drop_past dir name = rw add-one (past dir)
  where
    past : (d : Bytes) → drop (suc (length d)) (d ++ slash ∷ name) ≡ name
    past [] = refl
    past (c ∷ d) = past d

-- A last component is cut off at the last slash, whatever stands before that.
pub separate_last_component-append :
    (dir name : Bytes)
    → find_last_slash name ≡ none
    → separate_last_component (dir ++ slash ∷ name) ≡ (dir, name)
unfolding separate_last_component
separate_last_component-append dir name h =
    rw (find_last_slash-append dir name h, separate_last_component)
      (cc (take-append dir (slash ∷ name), drop_past dir name))
