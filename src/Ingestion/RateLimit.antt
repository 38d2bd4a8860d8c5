-- ===== src/Ingestion/RateLimit.antt =====
-- internal/ratelimit/limiter.go: the two scopes over `redis_rate`, whose `Allow` is a parameter
-- (`none` is its error). A limit that is not positive disables its check; it is 0 here.
use webhook_mind.Prelude.{
  Bool, List, Option, String, codes, if◌then◌else◌, leb, ltb, none, some, true, ℕ, ◌++◌,
}

-- What `redis_rate` answers; times are nanoseconds.
pub record RateAnswer : Type 0 where
  pub allowed : ℕ
  pub remaining : ℕ
  pub retry_after : ℕ
  pub reset_after : ℕ

pub record RateResult : Type 0 where
  pub allowed : Bool
  pub remaining : ℕ
  pub retry_after : ℕ
  pub reset_after : ℕ

pub record Limiter : Type 0 where
  pub per_ip_per_minute : ℕ
  pub per_source_per_minute : ℕ

-- `&Result{Allowed: true}`
abbrev pub unlimited : RateResult
unlimited = record { allowed = true; remaining = 0; retry_after = 0; reset_after = 0 }

module _ (rate : List ℕ → ℕ → Option RateAnswer) where
  abbrev pub to_result : Option RateAnswer → Option RateResult
  to_result none = none
  to_result (some a) = some (record {
    allowed = ltb 0 a.allowed;
    remaining = a.remaining;
    retry_after = a.retry_after;
    reset_after = a.reset_after;
  })

  -- `allow`
  unfoldable pub allow : List ℕ → ℕ → Option RateResult
  allow key per_minute = to_result (rate key per_minute)

  -- `AllowIP`
  unfoldable pub allow_ip : Limiter → List ℕ → Option RateResult
  unfolding allow
  allow_ip l ip =
      if leb l.per_ip_per_minute 0
      then some unlimited
      else allow (codes "webhookmind:ratelimit:ip:" ++ ip) l.per_ip_per_minute

  -- `AllowSource`
  unfoldable pub allow_source : Limiter → String → Option RateResult
  unfolding allow
  allow_source l source_id =
      if leb l.per_source_per_minute 0
      then some unlimited
      else allow (codes "webhookmind:ratelimit:source:" ++ codes source_id) l.per_source_per_minute
