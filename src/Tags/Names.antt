-- ===== src/Tags/Names.antt =====
-- `_normalize` of app/services/tag_service.py: nothing is left for a second call to do.
use mathlib.Core.List.{reverse-append, reverse-reverse}
use api_testoria.Base.{
  ℕ, ◌+◌, ◌≡◌, refl, sym, ap, ◌∙◌, false, ◌&&◌, ◌⊎◌, [], ◌∷◌, ◌++◌, reverse, arith, leb,
  if◌then◌else◌, inl, inr, Bool-cases, Text, is_space, lstrip, strip, lower,
}
use api_testoria.Tags.{normalize}

abbrev lower_char : ℕ → ℕ
lower_char c = if leb 65 c && leb c 90 then c + 32 else c

lower_char-is_space : (c : ℕ) → is_space (lower_char c) ≡ is_space c
unfolding is_space
lower_char-is_space c = ground arith

lower_char_twice : (c : ℕ) → lower_char (lower_char c) ≡ lower_char c
lower_char_twice c = ground arith

lower_twice : (s : Text) → lower (lower s) ≡ lower s
lower_twice [] = refl
lower_twice (c ∷ s) =
    ap (λ x. x ∷ lower (lower s)) (lower_char_twice c) ∙ ap (λ l. lower_char c ∷ l) (lower_twice s)

lower-append : (s t : Text) → lower (s ++ t) ≡ lower s ++ lower t
lower-append [] t = refl
lower-append (c ∷ s) t = ap (λ l. lower_char c ∷ l) (lower-append s t)

lower-reverse : (s : Text) → lower (reverse s) ≡ reverse (lower s)
lower-reverse [] = refl
lower-reverse (c ∷ s) =
    ap lower (reverse-append (c ∷ []) s)
    ∙ lower-append (reverse s) (c ∷ [])
    ∙ ap (λ l. l ++ lower_char c ∷ []) (lower-reverse s)
    ∙ sym (reverse-append (lower_char c ∷ []) (lower s))

lstrip-lower : (s : Text) → lstrip (lower s) ≡ lower (lstrip s)
lstrip-lower [] = refl
lstrip-lower (c ∷ s) = elim (Bool-cases (is_space c)) [
  | inl e ↦ rw (lower_char-is_space c, e) (lstrip-lower s)
  | inr e ↦ rw (lower_char-is_space c, e) refl
]

strip-lower : (s : Text) → strip (lower s) ≡ lower (strip s)
strip-lower s =
    ap (λ t. reverse (lstrip (reverse t))) (lstrip-lower s)
    ∙ ap (λ t. reverse (lstrip t)) (sym (lower-reverse (lstrip s)))
    ∙ ap reverse (lstrip-lower (reverse (lstrip s)))
    ∙ sym (lower-reverse (lstrip (reverse (lstrip s))))

lstrip_head :
    (s : Text)
    → (lstrip s ≡ []) ⊎ ((c : ℕ) × (u : Text) × (lstrip s ≡ c ∷ u) × (is_space c ≡ false))
lstrip_head [] = inl refl
lstrip_head (c ∷ s) = elim (Bool-cases (is_space c)) [
  | inl e ↦ rw e (lstrip_head s)
  | inr e ↦ inr (c, s, rw e refl, e)
]

lstrip-append : (s : Text) (c : ℕ) → is_space c ≡ false → lstrip (s ++ c ∷ []) ≡ lstrip s ++ c ∷ []
lstrip-append [] c h = rw h refl
lstrip-append (d ∷ s) c h = elim (Bool-cases (is_space d)) [
  | inl e ↦ rw e (lstrip-append s c h)
  | inr e ↦ rw e refl
]

lstrip_twice : (s : Text) → lstrip (lstrip s) ≡ lstrip s
lstrip_twice [] = refl
lstrip_twice (c ∷ s) = elim (Bool-cases (is_space c)) [
  | inl e ↦ rw e (lstrip_twice s)
  | inr e ↦ rw e (rw e refl)
]

lstrip-strip : (s : Text) → lstrip (strip s) ≡ strip s
lstrip-strip s = elim (lstrip_head s) [
  | inl e ↦ rw e refl
  | inr (c, u, e, h) ↦
      let front : strip s ≡ c ∷ reverse (lstrip (reverse u)) =
        ap (λ t. reverse (lstrip (reverse t))) e
        ∙ ap (λ t. reverse (lstrip t)) (reverse-append (c ∷ []) u)
        ∙ ap reverse (lstrip-append (reverse u) c h)
        ∙ reverse-append (lstrip (reverse u)) (c ∷ []) in
      ap lstrip front ∙ (rw h (sym front))
]

strip_twice : (s : Text) → strip (strip s) ≡ strip s
strip_twice s =
    ap (λ t. reverse (lstrip (reverse t))) (lstrip-strip s)
    ∙ ap (λ t. reverse (lstrip t)) (reverse-reverse (lstrip (reverse (lstrip s))))
    ∙ ap reverse (lstrip_twice (reverse (lstrip s)))

-- What Python's `str.lower` does: on a text in lower case, nothing; and it makes no white space at the
-- ends of a text that has none there.
abbrev pub IsLower : (Text → Text) → Type 0
IsLower to_lower =
    ((s : Text) → to_lower (to_lower s) ≡ to_lower s)
    × ((s : Text) → strip (to_lower (strip s)) ≡ to_lower (strip s))

-- The lower case of ASCII letters is such a function.
pub lower-IsLower : IsLower lower
lower-IsLower = (lower_twice, λ s. strip-lower (strip s) ∙ ap lower (strip_twice s))

pub normalize_twice :
    (to_lower : Text → Text) (s : Text)
    → IsLower to_lower
    → normalize to_lower (normalize to_lower s) ≡ normalize to_lower s
unfolding normalize
normalize_twice to_lower s low = ap to_lower (low.1 s) ∙ low.0 (strip s)
