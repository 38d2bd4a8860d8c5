-- ===== src/Metrics/Latencies.antt =====
-- The latencies that a run records, and their points.
use webhook_mind.Prelude.{
  Bool-cases, In, List, Option, Option-cases, String, [], arith, eq_iff, false, if◌then◌else◌, inl,
  inr, lookup, lookup-insert, ltb, none, refl, some, str_eq, ℕ, ◌==◌, ◌∙◌, ◌∷◌, ◌≡◌, ◌≤◌,
}
use webhook_mind.Metrics.{get_metrics, points_from, record_latency, zadd_gt, zrange}
use webhook_mind.Metrics.Points.{Ascending, points-In, str_eq-format_int}

abbrev pub greater : ℕ → Option ℕ → Option ℕ
greater ms none = some ms
greater ms (some old) = some (if ltb old ms then ms else old)

-- The greatest latency of a minute.
abbrev pub greatest : ℕ → List (ℕ × ℕ) → Option ℕ
greatest minute [] = none
greatest minute ((at, ms) ∷ measured) =
    if at == minute then greater ms (greatest minute measured) else greatest minute measured

module _ (format_int : ℕ → String) where
  -- Measurements, by minute and latency, recorded from the empty set on.
  abbrev pub recorded : List (ℕ × ℕ) → List (String × ℕ)
  recorded [] = []
  recorded ((minute, ms) ∷ measured) = record_latency format_int minute ms (recorded measured)

  lookup-zadd_gt :
      (asked member : String) (ms : ℕ) (z : List (String × ℕ))
      → lookup asked (zadd_gt member ms z)
        ≡ (if str_eq member asked then greater ms (lookup asked z) else lookup asked z)
  unfolding zadd_gt
  lookup-zadd_gt asked member ms z = elim (Option-cases (lookup member z)) [
    | inl missing ↦
        rw missing (ground (arith, lookup-insert member asked ms z, eq_iff member asked))
    | inr (old, found) ↦ rw found (elim (Bool-cases (ltb old ms)) [
      | inl low ↦ rw low (ground (arith, lookup-insert member asked ms z, eq_iff member asked))
      | inr high ↦ rw high (ground (arith, eq_iff member asked))
    ])
  ]

  module _ (parse_int : String → Option ℕ)
      (printed : (n : ℕ) → parse_int (format_int n) ≡ some n) where
    pub lookup-recorded :
        (minute : ℕ) (measured : List (ℕ × ℕ))
        → lookup (format_int minute) (recorded measured) ≡ greatest minute measured
    unfolding lookup record_latency
    lookup-recorded minute [] = refl
    lookup-recorded minute ((at, ms) ∷ measured) =
        rw
          (
            lookup-zadd_gt (format_int minute) (format_int at) ms (recorded measured),
            str_eq-format_int format_int parse_int printed at minute,
            lookup-recorded minute measured,
          )
          refl

-- Where strconv reads back what it prints, the points that getMetrics gives for a run of latencies
-- come in ascending order of their values, and the greatest latency of any minute that has one and
-- is not before `since` is among them.
pub get_metrics-record_latency :
    (format_int : ℕ → String) (parse_int : String → Option ℕ) (since : ℕ) (measured : List (ℕ × ℕ))
    (minute ms : ℕ)
    → ((n : ℕ) → parse_int (format_int n) ≡ some n)
    → since ≤ minute
    → greatest minute measured ≡ some ms
    → let points = points_from parse_int since (zrange (recorded format_int measured)) in
      (get_metrics parse_int false since (recorded format_int measured) ≡ some points)
      × Ascending points
      × In (minute, ms) points
get_metrics-record_latency format_int parse_int since measured minute ms printed recent most =
    points-In format_int parse_int since minute ms (recorded format_int measured) printed recent
      (lookup-recorded format_int parse_int printed minute measured ∙ most)
