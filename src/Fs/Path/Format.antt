-- ===== src/Fs/Path/Format.antt =====
-- What `FormatPath` promises: a leading slash, no doubled slash, the same components.
use fusee_fs.Prelude.{ℕ, ◌≡◌, refl, false, ◌&&◌, [], ◌∷◌, Bytes, arith, ◌==◌, ◌∙◌}
use fusee_fs.Fs.Path.{
  slash, pieces, push_nonempty, keep_nonempty, split_path, add_leading, drop_trailing,
  erase_doubles, collapse, format_path,
}

-- No slash follows a slash, where `prev` is the byte before the text.
abbrev pub NoDouble : ℕ → Bytes → Type 0
NoDouble prev [] = Unit
NoDouble prev (c ∷ s) = ((c == slash) && (prev == slash) ≡ false) × NoDouble c s

-- A text that is empty, or begins with a slash and holds no doubled one.
abbrev pub IsFormatted : Bytes → Type 0
IsFormatted [] = Unit
IsFormatted (c ∷ s) = (c ≡ slash) × NoDouble c s

erase_doubles-NoDouble : (prev : ℕ) (s : Bytes) → NoDouble prev (erase_doubles prev s)
unfolding erase_doubles
erase_doubles-NoDouble prev [] = tt
erase_doubles-NoDouble prev (c ∷ s) = ground (arith, erase_doubles-NoDouble c s)

abbrev Leads : Bytes → Type 0
Leads [] = Unit
Leads (c ∷ s) = c ≡ slash

add_leading-Leads : (s : Bytes) → Leads (add_leading s)
unfolding add_leading
add_leading-Leads [] = tt
add_leading-Leads (c ∷ s) = ground arith

drop_trailing-Leads : (s : Bytes) → Leads s → Leads (drop_trailing s)
unfolding drop_trailing
drop_trailing-Leads [] h = tt
drop_trailing-Leads (c ∷ []) h = ground arith
drop_trailing-Leads (c ∷ d ∷ s) h = h

collapse-IsFormatted : (s : Bytes) → Leads s → IsFormatted (collapse s)
unfolding collapse
collapse-IsFormatted [] h = tt
collapse-IsFormatted (c ∷ s) h = (h, erase_doubles-NoDouble c s)

-- The path that comes out is empty, or begins with a slash and has no two slashes in a row.
format_path-IsFormatted : (path : Bytes) → IsFormatted (format_path path)
unfolding format_path
format_path-IsFormatted path =
    collapse-IsFormatted (drop_trailing (add_leading path))
      (drop_trailing-Leads (add_leading path) (add_leading-Leads path))

-- Two texts whose first pieces are equal, and whose other pieces are equal but for empty ones.
record SameSplit (a b : Bytes) : Type 0 where
  first : (pieces a).0 ≡ (pieces b).0
  others : keep_nonempty (pieces a).1 ≡ keep_nonempty (pieces b).1

SameSplit-refl : (a : Bytes) → SameSplit a a
SameSplit-refl a = record { first = refl; others = refl }

SameSplit-cons : (c : ℕ) (a b : Bytes) → SameSplit a b → SameSplit (c ∷ a) (c ∷ b)
unfolding pieces keep_nonempty
SameSplit-cons c a b h = ground arith

drop_trailing-SameSplit : (s : Bytes) → SameSplit (drop_trailing s) s
unfolding drop_trailing pieces push_nonempty keep_nonempty
drop_trailing-SameSplit [] = SameSplit-refl []
drop_trailing-SameSplit (c ∷ []) = ground arith
drop_trailing-SameSplit (c ∷ d ∷ s) =
    SameSplit-cons c (drop_trailing (d ∷ s)) (d ∷ s) (drop_trailing-SameSplit (d ∷ s))

erase_doubles-SameSplit :
    (prev : ℕ) (s : Bytes) → SameSplit (prev ∷ erase_doubles prev s) (prev ∷ s)
unfolding erase_doubles pieces push_nonempty keep_nonempty
erase_doubles-SameSplit prev [] = SameSplit-refl (prev ∷ [])
erase_doubles-SameSplit prev (c ∷ s) = ground (arith, erase_doubles-SameSplit c s)

collapse-SameSplit : (s : Bytes) → SameSplit (collapse s) s
unfolding collapse
collapse-SameSplit [] = SameSplit-refl []
collapse-SameSplit (c ∷ s) = erase_doubles-SameSplit c s

split_path-SameSplit : (a b : Bytes) → SameSplit a b → split_path a ≡ split_path b
unfolding split_path
split_path-SameSplit a b h = cc (h.first, h.others)

split_path-add_leading : (s : Bytes) → split_path (add_leading s) ≡ split_path s
unfolding split_path add_leading
split_path-add_leading [] = refl
split_path-add_leading (c ∷ s) = ground arith

-- Formatting a path does not change its components.
pub split_path-format_path : (path : Bytes) → split_path (format_path path) ≡ split_path path
split_path-format_path path =
    let led = add_leading path in
    let cut = drop_trailing led in
    unfold format_path in
    split_path-SameSplit (collapse cut) cut (collapse-SameSplit cut)
    ∙ split_path-SameSplit cut led (drop_trailing-SameSplit led)
    ∙ split_path-add_leading path
