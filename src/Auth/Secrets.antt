-- ===== src/Auth/Secrets.antt =====
-- API key texts, app/core/security.py: `tsk_<prefix>_<secret>`, made and taken apart again.
use mathlib.Core.List.{reverse, reverse_aux, reverse-append, reverse-reverse}
use api_testoria.Base.{
  ℕ, ◌≡◌, refl, false, not, ◌||◌, Option, none, some, [], ◌∷◌, ◌++◌, ◌==◌, if◌then◌else◌, Text,
  codes, text_eq, is_empty, is_space, lstrip, strip, All,
}

-- API_KEY_PREFIX
abbrev pub api_key_prefix : Text
api_key_prefix = codes "tsk"

-- b"_"
abbrev pub underscore : ℕ
underscore = 95

-- `f"{API_KEY_PREFIX}_{key_prefix}_{secret}"` of `generate_api_key`, whose two random parts are
-- drawn by the standard library
unfoldable pub full_key : Text → Text → Text
full_key key_prefix secret = api_key_prefix ++ (underscore ∷ (key_prefix ++ (underscore ∷ secret)))

-- One step of `str.split(sep, n)`: the text before the first `sep`, and what follows it.
abbrev cons_head : ℕ → Text × Option Text → Text × Option Text
cons_head c (head, rest) = (c ∷ head, rest)

abbrev pub split_first : ℕ → Text → Text × Option Text
split_first sep [] = ([], none)
split_first sep (c ∷ s) = if c == sep then ([], some s) else cons_head c (split_first sep s)

abbrev check_parts : Text → Text → Text → Option (Text × Text)
check_parts scheme key_prefix secret =
    if not (text_eq scheme api_key_prefix) || is_empty key_prefix || is_empty secret
    then none
    else some (key_prefix, secret)

abbrev split_rest : Text → Text × Option Text → Option (Text × Text)
split_rest scheme (key_prefix, none) = none
split_rest scheme (key_prefix, some secret) = check_parts scheme key_prefix secret

abbrev split_scheme : Text × Option Text → Option (Text × Text)
split_scheme (scheme, none) = none
split_scheme (scheme, some rest) = split_rest scheme (split_first underscore rest)

-- `split_api_key`
unfoldable pub split_api_key : Text → Option (Text × Text)
split_api_key key = split_scheme (split_first underscore (strip key))

-- No white space, as `str.strip` sees it.
abbrev pub NoSpace : Text → Type 0
NoSpace = All (λ c. is_space c ≡ false)

abbrev pub NoUnderscore : Text → Type 0
NoUnderscore = All (λ c. (c == underscore) ≡ false)

split_first-append :
    (s t : Text) → NoUnderscore s → split_first underscore (s ++ (underscore ∷ t)) ≡ (s, some t)
split_first-append [] t h = refl
split_first-append (c ∷ s) t h = rw (h.0, split_first-append s t h.1)

lstrip-append : (s t : Text) → NoSpace s → is_empty s ≡ false → lstrip (s ++ t) ≡ s ++ t
lstrip-append [] t h e = cc
lstrip-append (c ∷ s) t h e = rw h.0

reverse_aux-NoSpace : (s t : Text) → NoSpace s → NoSpace t → NoSpace (reverse_aux s t)
reverse_aux-NoSpace [] t h k = k
reverse_aux-NoSpace (c ∷ s) t h k = reverse_aux-NoSpace s (c ∷ t) h.1 (h.0, k)

reverse_aux-nonempty : (s t : Text) → is_empty t ≡ false → is_empty (reverse_aux s t) ≡ false
reverse_aux-nonempty [] t h = h
reverse_aux-nonempty (c ∷ s) t h = reverse_aux-nonempty s (c ∷ t) refl

reverse-nonempty : (s : Text) → is_empty s ≡ false → is_empty (reverse s) ≡ false
reverse-nonempty [] h = h
reverse-nonempty (c ∷ s) h = reverse_aux-nonempty s (c ∷ []) refl

-- A text is its own strip when it neither begins nor ends with white space.
strip-append :
    (c : ℕ) (s t : Text)
    → is_space c ≡ false
    → NoSpace t
    → is_empty t ≡ false
    → strip (c ∷ (s ++ t)) ≡ c ∷ (s ++ t)
strip-append c s t hc ht e =
    rw (hc, reverse-append (c ∷ s) t)
      (rw
        (
          lstrip-append (reverse t) (reverse (c ∷ s)) (reverse_aux-NoSpace t [] ht tt)
              (reverse-nonempty t e),
          ← reverse-append (c ∷ s) t,
          reverse-reverse (c ∷ (s ++ t)),
        )
        refl)

-- A generated key is taken apart into the prefix and the secret that it was made of, if the
-- prefix is a nonempty text without underscores (it is hexadecimal) and the secret a nonempty text
-- without white space (it may hold underscores, as URL-safe base 64 does).
pub split_api_key-full_key :
    (key_prefix secret : Text)
    → NoUnderscore key_prefix
    → is_empty key_prefix ≡ false
    → NoSpace secret
    → is_empty secret ≡ false
    → split_api_key (full_key key_prefix secret) ≡ some (key_prefix, secret)
unfolding split_api_key full_key is_space
split_api_key-full_key p s hp ep hs es =
    let whole : strip (full_key p s) ≡ full_key p s =
      strip-append 116 (115 ∷ 107 ∷ underscore ∷ p) (underscore ∷ s) refl (refl, hs) refl in
    rw (whole, split_first-append p s hp, ep, es)
