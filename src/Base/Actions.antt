-- ===== src/Base/Actions.antt =====
-- A service call: it raises, or returns its value and the new database. `get_db` (app/database.py)
-- commits on return and rolls back on an exception, so no database is left beside an error.
use mathlib.Core.Path.{◌≡◌, refl}
use mathlib.Core.Logic.{◌⊎◌, inl, inr}
use mathlib.Core.Bool.{Bool, true, false}
use mathlib.Core.Option.{Option, none, some}

-- The exceptions of app/core/exceptions.py that the services raise, two that they do not catch, and
-- the statuses 422 and 502 of the defect service.
pub data HttpError : Type 0 where
  not_found unauthorized forbidden conflict bad_request value_error integrity_error : HttpError
  unprocessable bad_gateway : HttpError

pub data Result {ℓ} (A : Type ℓ) : Type ℓ where
  ok : A → Result A
  raised : HttpError → Result A

abbrev pub Action : Type 0 → Type 0 → Type 0
Action S A = S → Result (A × S)

module _ {S A : Type 0} where
  abbrev pub pure : A → Action S A
  pure a s = ok (a, s)

  abbrev pub raise : HttpError → Action S A
  raise e s = raised e

  abbrev pub gets : (S → A) → Action S A
  gets f s = ok (f s, s)

  -- `if x is None: raise …`
  abbrev pub or_raise : Option A → HttpError → Action S A
  or_raise none e s = raised e
  or_raise (some a) e s = ok (a, s)

module _ {S A B : Type 0} where
  abbrev pub bind_result : Result (A × S) → (A → Action S B) → Result (B × S)
  bind_result (ok (a, s)) f = f a s
  bind_result (raised e) f = raised e

  infixl 5 ◌>>=◌ ◌>>◌
  abbrev pub ◌>>=◌ : Action S A → (A → Action S B) → Action S B
  ◌>>=◌ m f s = bind_result (m s) f

  abbrev pub ◌>>◌ : Action S A → Action S B → Action S B
  m >> k = m >>= λ _. k

module _ {S : Type 0} where
  abbrev pub raise_if : Bool → HttpError → Action S (Unit {0})
  raise_if true e s = raised e
  raise_if false e s = ok (tt, s)

  abbrev pub when : Bool → Action S (Unit {0}) → Action S (Unit {0})
  when true m s = m s
  when false m s = ok (tt, s)

  abbrev pub modify : (S → S) → Action S (Unit {0})
  modify f s = ok (tt, f s)

-- A sequence that returns has run its first part to the end.
pub >>=-eq-ok :
    {S A B : Type 0} (m : Action S A) (f : A → Action S B) (s : S) {r : B × S}
    → (m >>= f) s ≡ ok r
    → (a : A) × (t : S) × (m s ≡ ok (a, t)) × (f a t ≡ ok r)
>>=-eq-ok {S} {A} {B} m f s {r = r} h = go (m s) refl h
  where
    go :
        (x : Result (A × S))
        → m s ≡ x
        → bind_result x f ≡ ok r
        → (a : A) × (t : S) × (m s ≡ ok (a, t)) × (f a t ≡ ok r)
    go (ok (a, t)) e k = (a, t, e, k)
    go (raised x) e k = cc

-- Two continuations that agree on what the first part returns.
pub >>=-agree :
    {S A B : Type 0} (m : Action S A) (f g : A → Action S B) (s : S)
    → ((a : A) (t : S) → m s ≡ ok (a, t) → f a t ≡ g a t)
    → (m >>= f) s ≡ (m >>= g) s
>>=-agree {S} {A} {B} m f g s h = go (m s) refl
  where
    go : (x : Result (A × S)) → m s ≡ x → bind_result x f ≡ bind_result x g
    go (ok (a, t)) e = h a t e
    go (raised x) e = refl

pub raise_if-passes :
    {S A : Type 0} (b : Bool) (e : HttpError) (k : Action S A) (s : S)
    → b ≡ false
    → (raise_if b e >> k) s ≡ k s
raise_if-passes true e k s h = cc
raise_if-passes false e k s h = refl

pub Result-cases {ℓ} :
    {A : Type ℓ} (r : Result A) → ((a : A) × (r ≡ ok a)) ⊎ ((e : HttpError) × (r ≡ raised e))
Result-cases (ok a) = inl (a, refl)
Result-cases (raised e) = inr (e, refl)
