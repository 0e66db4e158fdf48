-- ===== src/Passwords/Tokens.antt =====
-- The tokens of app/services/password_token_service.py.
use api_testoria.Base.{
  ℕ, ◌+◌, ◌≡◌, refl, inl, inr, false, not, none, some, [], ◌∷◌, arith, ltb, if◌then◌else◌, select,
  find?, Text, text_eq, text_eq_refl, text_eq_iff, Bool-cases,
}
use api_testoria.Passwords.{Purpose, Store, is_valid, create_token, peek_token, consume_token}

-- Another token is not touched by the removal of one.
find?-other :
    (token other : Text) (now : ℕ) (store : Store)
    → text_eq token other ≡ false
    → find? (is_valid other now) (select (λ t. not (text_eq t.token token)) store)
      ≡ find? (is_valid other now) store
find?-other token other now [] h = refl
find?-other token other now (t ∷ store) h = elim (Bool-cases (text_eq t.token token)) [
  | inl e ↦
      let same : t.token ≡ token = (text_eq_iff t.token token).0 e in
      let no : text_eq t.token other ≡ false = rw same h in
      ground (arith, no, find?-other token other now store h)
  | inr e ↦ ground (arith, find?-other token other now store h)
]

pub find?-removed :
    (token : Text) (now : ℕ) (store : Store)
    → find? (is_valid token now) (select (λ t. not (text_eq t.token token)) store) ≡ none
find?-removed token now [] = refl
find?-removed token now (t ∷ store) = ground (arith, find?-removed token now store)

-- A token that was created is good for its user and purpose until its time is over, whatever was
-- stored under its text before, and for nothing after that; no other token is changed by it.
pub peek_token-create_token :
    (token other : Text) (user_id : ℕ) (purpose : Purpose) (ttl now later : ℕ) (store : Store)
    → text_eq token other ≡ false
    → (peek_token token later (create_token token user_id purpose ttl now store)
        ≡ (if ltb later (now + ttl) then some (user_id, purpose) else none))
      × (peek_token other later (create_token token user_id purpose ttl now store)
          ≡ peek_token other later store)
unfolding peek_token create_token
peek_token-create_token token other user_id purpose ttl now later store ne = (
  ground (arith, text_eq_refl token, find?-removed token later store),
  ground (arith, ne, find?-other token other later store ne),
)

-- A token that was consumed is gone at any later time, and no other token is touched.
pub consume_token_once :
    (token other : Text) (now later : ℕ) (store : Store)
    → text_eq token other ≡ false
    → ((consume_token token later (consume_token token now store).1).0 ≡ none)
      × ((consume_token token now store).0 ≡ peek_token token now store)
      × (peek_token other later (consume_token token now store).1 ≡ peek_token other later store)
unfolding peek_token consume_token
consume_token_once token other now later store ne = (
  ground (arith, find?-removed token later store),
  refl,
  ground (arith, find?-other token other later store ne),
)
