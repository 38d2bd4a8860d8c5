-- ===== src/Metrics/Throughput.antt =====
-- The events that a run counts, and their points.
use webhook_mind.Prelude.{
  In, List, Option, String, [], arith, eq_iff, false, if◌then◌else◌, lookup, lookup-insert, none,
  refl, some, str_eq, ℕ, ◌+◌, ◌==◌, ◌∙◌, ◌∷◌, ◌≡◌, ◌≤◌,
}
use webhook_mind.Metrics.{get_metrics, points_from, record_throughput, score_of, zincrby, zrange}
use webhook_mind.Metrics.Points.{Ascending, points-In, str_eq-format_int}

-- The number of events of a minute, if it has any.
abbrev pub count : ℕ → List ℕ → Option ℕ
count minute [] = none
count minute (at ∷ minutes) =
    if at == minute then some (score_of (count minute minutes) + 1) else count minute minutes

lookup-zincrby :
    (asked member : String) (z : List (String × ℕ))
    → lookup asked (zincrby member z)
      ≡ (if str_eq member asked then some (score_of (lookup asked z) + 1) else lookup asked z)
unfolding zincrby
lookup-zincrby asked member z =
    ground
      (arith, lookup-insert member asked (score_of (lookup member z) + 1) z, eq_iff member asked)

module _ (format_int : ℕ → String) where
  -- The minutes of events, recorded from the empty set on.
  abbrev pub counted : List ℕ → List (String × ℕ)
  counted [] = []
  counted (minute ∷ minutes) = record_throughput format_int minute (counted minutes)

  module _ (parse_int : String → Option ℕ)
      (printed : (n : ℕ) → parse_int (format_int n) ≡ some n) where
    lookup-counted :
        (minute : ℕ) (minutes : List ℕ)
        → lookup (format_int minute) (counted minutes) ≡ count minute minutes
    unfolding lookup record_throughput
    lookup-counted minute [] = refl
    lookup-counted minute (at ∷ minutes) =
        rw
          (
            lookup-zincrby (format_int minute) (format_int at) (counted minutes),
            str_eq-format_int format_int parse_int printed at minute,
            lookup-counted minute minutes,
          )
          refl

-- Where strconv reads back what it prints, the points that getMetrics gives for a run of events come
-- in ascending order of their values, and the number of events of any minute that has some and is
-- not before `since` is among them.
pub get_metrics-record_throughput :
    (format_int : ℕ → String) (parse_int : String → Option ℕ) (since : ℕ) (minutes : List ℕ)
    (minute n : ℕ)
    → ((n : ℕ) → parse_int (format_int n) ≡ some n)
    → since ≤ minute
    → count minute minutes ≡ some n
    → let points = points_from parse_int since (zrange (counted format_int minutes)) in
      (get_metrics parse_int false since (counted format_int minutes) ≡ some points)
      × Ascending points
      × In (minute, n) points
get_metrics-record_throughput format_int parse_int since minutes minute n printed recent some_n =
    points-In format_int parse_int since minute n (counted format_int minutes) printed recent
      (lookup-counted format_int parse_int printed minute minutes ∙ some_n)
