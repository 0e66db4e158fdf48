-- ===== src/Email/Outbox/Backoff.antt =====
-- How long a failed email waits: `_backoff_seconds` of app/services/email_outbox_service.py.
use native.Mathlib.Nat.{pow-suc}
use native.Mathlib.Numerals.{towards_suc}
use api_testoria.Base.{ℕ, zero, suc, min, ◌+◌, ◌-◌, ◌*◌, ◌^◌, ◌≤◌, ◌≡◌, refl, arith}
use api_testoria.Email.Outbox.{backoff_seconds}

pow_pos : (n : ℕ) → 1 ≤ 2 ^ n
pow_pos zero = omega arith
pow_pos (suc n) = rw pow-suc (omega (arith, pow_pos n))

-- The first wait is a minute, each further one doubles up to an hour; from the seventh failure on
-- it is an hour.
pub backoff_doubles :
    (n : ℕ)
    → (backoff_seconds 1 ≡ 60)
      × (backoff_seconds (suc (suc n)) ≡ min (2 * backoff_seconds (suc n)) 3600)
      × (60 ≤ backoff_seconds n)
      × (backoff_seconds (n + 7) ≡ 3600)
unfolding backoff_seconds
backoff_doubles n =
    let doubled : 2 ^ suc n ≡ 2 * 2 ^ n = simp pow-suc (omega arith) in
    let far : 2 ^ (n + 6) ≡ 64 * 2 ^ n = simp towards_suc (omega arith) in
    (
      refl,
      let one : suc (suc n) - 1 ≡ suc n = omega arith in
          let two : suc n - 1 ≡ n = omega arith in rw (one, two, doubled) (omega arith),
      omega (arith, pow_pos (n - 1)),
      let six : n + 7 - 1 ≡ n + 6 = omega arith in rw (six, far) (omega (arith, pow_pos n)),
    )
