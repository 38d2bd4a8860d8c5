-- ===== src/Ingestion/Signature/Stale.antt =====
-- The age check of `Verify`: which times are inside the window.
use webhook_mind.Prelude.{
  arith, false, negsuc, pos, suc, true, ℕ, ℤ, ◌*◌, ◌+◌, ◌-◌, ◌<◌, ◌↔◌, ◌≡◌, ◌≤◌, ◌⊎◌,
}
use webhook_mind.Ingestion.Signature.{abs, exceeds, int64_limit, second, since, unix_to_internal}

-- As long as the signing time lies less than 2 ^ 63 nanoseconds (some 292 years) from now, it is
-- stale exactly if it lies more than `max_age` in the past or in the future.
pub exceeds-near :
    (now t max_age : ℕ)
    → t < int64_limit - unix_to_internal
    → now < t * second + int64_limit
    → t * second < now + int64_limit
    → (exceeds (abs (since now (pos t))) max_age ≡ true)
      ↔ ((t * second + max_age < now) ⊎ (now + max_age < t * second))
unfolding since abs
exceeds-near now t max_age small past future = ground arith

-- A signing time 2 ^ 63 nanoseconds or more in the future is never stale, whatever the window: the
-- difference stops at the least int64, which `abs` leaves negative. The seconds must not wrap.
pub exceeds-far_future :
    (now t max_age : ℕ)
    → t < int64_limit - unix_to_internal
    → now + int64_limit ≤ t * second
    → exceeds (abs (since now (pos t))) max_age ≡ false
unfolding since abs
exceeds-far_future now t max_age small future = ground arith

-- A time that `Verify` takes for fresh: at most `max_age` before or after now. By the saturation
-- of `Sub` also one that is 2 ^ 63 nanoseconds or more after now, as long as its seconds do not wrap.
abbrev pub IsFresh : ℕ → ℕ → ℤ → Type 0
IsFresh now max_age (pos t) =
    (t * second ≤ now + max_age) × (now ≤ t * second + max_age)
    ⊎ (now + int64_limit ≤ t * second) × (t < int64_limit - unix_to_internal)
IsFresh now max_age (negsuc t) = now + suc t * second ≤ max_age

-- The age check of `Verify` is this one until the year 2262, for windows below 2 ^ 63 - 1.
pub exceeds-IsFresh :
    (now max_age : ℕ) (t : ℤ)
    → now < int64_limit
    → max_age < int64_limit - 1
    → (exceeds (abs (since now t)) max_age ≡ false) ↔ IsFresh now max_age t
unfolding since abs
exceeds-IsFresh now max_age (pos t) early window = ground arith
exceeds-IsFresh now max_age (negsuc t) early window = ground arith
