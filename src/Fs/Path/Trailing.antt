-- ===== src/Fs/Path/Trailing.antt =====
-- What `FormatPath` leaves at the end of a path: it drops one trailing slash at most.
use fusee_fs.Prelude.{
  ℕ, ◌≡◌, refl, [], ◌∷◌, ◌++◌, Bytes, arith, ◌==◌, ap, Bool-cases, inl, inr, ◌&&◌,
}
use fusee_fs.Fs.Path.{
  slash, find_last_slash, separate_last_component, add_leading, drop_trailing, erase_doubles,
  collapse, format_path,
}
use fusee_fs.Fs.Path.Split.{separate_last_component-append}

abbrev EndsInSlash : Bytes → Type 0
EndsInSlash s = (front : Bytes) × (s ≡ front ++ slash ∷ [])

EndsInSlash-cons : (c : ℕ) (s : Bytes) → EndsInSlash s → EndsInSlash (c ∷ s)
EndsInSlash-cons c s (front, e) = (c ∷ front, ap (λ t. c ∷ t) e)

erase_doubles-EndsInSlash :
    (prev : ℕ) (s : Bytes) → EndsInSlash (prev ∷ erase_doubles prev (s ++ slash ∷ []))
unfolding erase_doubles
erase_doubles-EndsInSlash prev [] = elim (Bool-cases (prev == slash)) [
  | inl e ↦ ([], ground arith)
  | inr e ↦ (prev ∷ [], ground arith)
]
erase_doubles-EndsInSlash prev (c ∷ s) = elim (Bool-cases ((c == slash) && (prev == slash))) [
  | inl e ↦ let (front, q) = erase_doubles-EndsInSlash c s in (front, rw e (ground (arith, q)))
  | inr e ↦ rw e (EndsInSlash-cons prev _ (erase_doubles-EndsInSlash c s))
]

collapse-EndsInSlash : (s : Bytes) → EndsInSlash (collapse (s ++ slash ∷ []))
unfolding collapse
collapse-EndsInSlash [] = ([], unfold erase_doubles in refl)
collapse-EndsInSlash (c ∷ s) = erase_doubles-EndsInSlash c s

drop_trailing_two : (s : Bytes) → drop_trailing (s ++ slash ∷ slash ∷ []) ≡ s ++ slash ∷ []
unfolding drop_trailing
drop_trailing_two [] = refl
drop_trailing_two (c ∷ []) = refl
drop_trailing_two (c ∷ d ∷ s) = ap (λ t. c ∷ t) (drop_trailing_two (d ∷ s))

add_leading_two :
    (s : Bytes)
    → (front : Bytes) × (add_leading (s ++ slash ∷ slash ∷ []) ≡ front ++ slash ∷ slash ∷ [])
unfolding add_leading
add_leading_two [] = ([], refl)
add_leading_two (c ∷ s) = elim (Bool-cases (c == slash)) [
  | inl e ↦ (c ∷ s, rw e)
  | inr e ↦ (slash ∷ c ∷ s, rw e)
]

-- Where a path ends in two slashes, one is left after formatting, and the last component that is
-- cut off is empty, whatever names stand before.
pub empty_name_after_two_slashes :
    (path : Bytes) → (separate_last_component (format_path (path ++ slash ∷ slash ∷ []))).1 ≡ []
unfolding format_path
empty_name_after_two_slashes path =
    let (front, e) = add_leading_two path in
    let (dir, f) = collapse-EndsInSlash front in
    rw (e, drop_trailing_two front, f)
      (ap (λ (t : Bytes × Bytes). t.1)
        (separate_last_component-append dir [] (unfold find_last_slash in refl)))
