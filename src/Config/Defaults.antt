-- ===== src/Config/Defaults.antt =====
-- What the settings come to when variables are not set.
use webhook_mind.Prelude.{
  Bool-cases, List, Option, String, ap, arith, eq_iff, inl, inr, none, pos, refl, some,
  some_not_none, str_eq, sym, ℕ, ℤ, ◌↔◌, ◌∙◌, ◌≡◌, ◌≢◌, ◌≤◌, ◌⊎◌,
}
use webhook_mind.Models.{WebhookEvent}
use webhook_mind.Routing.{Destination}
use webhook_mind.Delivery.Destination.{Ledger, Run, deliver_to_destination, panicked}
use webhook_mind.Delivery.Destination.Safe.{deliver_to_destination_safe}
use webhook_mind.Config.{Config, env_or_default_int, load, settings}

abbrev retries_of : Option Config → ℤ
retries_of none = pos 0
retries_of (some cfg) = cfg.delivery.max_retries

module _ (atoi : String → Option ℤ) (to_lower : String → String)
    (split_commas : String → List String) where
  -- The settings cannot be read exactly if the address of Postgres or that of Redis is not set.
  pub load-none :
      (env : String → String)
      → (load atoi to_lower split_commas env ≡ none)
        ↔ ((env "POSTGRES_DSN" ≡ "") ⊎ (env "REDIS_ADDR" ≡ ""))
  unfolding load
  load-none env = (
    λ h. elim (Bool-cases (str_eq (env "POSTGRES_DSN") "")) [
      | inl missing ↦ inl ((eq_iff (env "POSTGRES_DSN") "").0 missing)
      | inr given ↦ elim (Bool-cases (str_eq (env "REDIS_ADDR") "")) [
        | inl missing ↦ inr ((eq_iff (env "REDIS_ADDR") "").0 missing)
        | inr both ↦ absurd (some_not_none (rw (given, both) at h))
      ]
    ],
    λ h. elim h [
      | inl missing ↦ rw ((eq_iff (env "POSTGRES_DSN") "").1 missing) refl
      | inr missing ↦ elim (Bool-cases (str_eq (env "POSTGRES_DSN") "")) [
        | inl first ↦ rw first refl
        | inr given ↦ rw (given, (eq_iff (env "REDIS_ADDR") "").1 missing) refl
      ]
    ],
  )

  load-max_retries :
      (env : String → String) (cfg : Config)
      → load atoi to_lower split_commas env ≡ some cfg
      → cfg.delivery.max_retries
        ≡ env_or_default_int atoi to_lower split_commas env "DELIVERY_MAX_RETRIES" (pos 4)
  unfolding load settings
  load-max_retries env cfg h = elim (Bool-cases (str_eq (env "POSTGRES_DSN") "")) [
    | inl missing ↦ absurd (some_not_none (sym (rw missing at h)))
    | inr given ↦ elim (Bool-cases (str_eq (env "REDIS_ADDR") "")) [
      | inl missing ↦ absurd (some_not_none (sym (rw (given, missing) at h)))
      | inr both ↦ ap retries_of (sym (rw (given, both) at h))
    ]
  ]

  -- The number of retries for a variable as below.
  env_or_default_int-few :
      (env : String → String)
      → (env "DELIVERY_MAX_RETRIES" ≡ "")
        ⊎ (atoi (env "DELIVERY_MAX_RETRIES") ≡ none)
        ⊎ ((n : ℕ) × (atoi (env "DELIVERY_MAX_RETRIES") ≡ some (pos n)) × (n ≤ 4))
      → (m : ℕ)
      → env_or_default_int atoi to_lower split_commas env "DELIVERY_MAX_RETRIES" (pos 4) ≡ pos m
      → m ≤ 4
  unfolding env_or_default_int
  env_or_default_int-few env (inl unset) m e =
      ground (arith, eq_iff (env "DELIVERY_MAX_RETRIES") "")
  env_or_default_int-few env (inr (inl bad)) m e = ground arith
  env_or_default_int-few env (inr (inr (n, good, few))) m e = ground arith

  -- A delivery with the number of retries from the settings never panics when DELIVERY_MAX_RETRIES
  -- is not set, is not a number, or is a number up to 4, whatever the destination answers.
  pub deliver_to_destination-load :
      (env : String → String) (cfg : Config) (marshal : WebhookEvent → List ℕ)
      (unmarshal : List ℕ → Option WebhookEvent) (run : Run) (event : WebhookEvent)
      (dest : Destination) (l : Ledger)
      → load atoi to_lower split_commas env ≡ some cfg
      → cfg.delivery.max_retries ≡ pos run.max_retries
      → (env "DELIVERY_MAX_RETRIES" ≡ "")
        ⊎ (atoi (env "DELIVERY_MAX_RETRIES") ≡ none)
        ⊎ ((n : ℕ) × (atoi (env "DELIVERY_MAX_RETRIES") ≡ some (pos n)) × (n ≤ 4))
      → (deliver_to_destination marshal unmarshal run event dest l).0 ≢ panicked
  deliver_to_destination-load env cfg marshal unmarshal run event dest l loaded same unset =
      deliver_to_destination_safe marshal unmarshal run event dest l (
        env_or_default_int-few env unset run.max_retries
          (sym (load-max_retries env cfg loaded) ∙ same))
