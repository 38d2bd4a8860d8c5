-- ===== src/Metrics.antt =====
-- internal/pubsub/metrics.go: the two sorted sets of Redis that hold a value for each minute. A set is
-- a map from members to scores; ZRANGE gives it by ascending scores.
-- `strconv.FormatInt` and `strconv.ParseInt` are parameters; minutes are Unix seconds.
pub mod Points
pub mod Latencies
pub mod Throughput
use webhook_mind.Prelude.{
  Bool, List, Option, String, [], if◌then◌else◌, insert, leb, lookup, ltb, none, some, ℕ, ◌++◌, ◌+◌,
  ◌∷◌,
}

-- ZADD with GT: a member gets the score if it has none, or a lower one.
abbrev pub raised : String → ℕ → Option ℕ → List (String × ℕ) → List (String × ℕ)
raised member score none z = insert member score z
raised member score (some old) z = if ltb old score then insert member score z else z

unfoldable pub zadd_gt : String → ℕ → List (String × ℕ) → List (String × ℕ)
unfolding lookup insert
zadd_gt member score z = raised member score (lookup member z) z

abbrev pub score_of : Option ℕ → ℕ
score_of none = 0
score_of (some score) = score

-- ZINCRBY by one.
unfoldable pub zincrby : String → List (String × ℕ) → List (String × ℕ)
unfolding lookup insert
zincrby member z = insert member (score_of (lookup member z) + 1) z

unfoldable pub insert_score : String × ℕ → List (String × ℕ) → List (String × ℕ)
insert_score (m, s) [] = (m, s) ∷ []
insert_score (m, s) ((n, t) ∷ z) =
    let later = insert_score (m, s) z in if leb s t then (m, s) ∷ (n, t) ∷ z else (n, t) ∷ later

-- ZRANGE 0 -1 WITHSCORES
unfoldable pub zrange : List (String × ℕ) → List (String × ℕ)
unfolding insert_score
zrange [] = []
zrange (e ∷ z) = insert_score e (zrange z)

module _ (format_int : ℕ → String) where
  -- `RecordThroughput`
  unfoldable pub record_throughput : ℕ → List (String × ℕ) → List (String × ℕ)
  unfolding zincrby
  record_throughput minute z = zincrby (format_int minute) z

  -- `RecordLatency`
  unfoldable pub record_latency : ℕ → ℕ → List (String × ℕ) → List (String × ℕ)
  unfolding zadd_gt
  record_latency minute ms z = zadd_gt (format_int minute) ms z

module _ (parse_int : String → Option ℕ) where
  abbrev pub point_of : ℕ → ℕ → Option ℕ → List (ℕ × ℕ)
  point_of since score none = []
  point_of since score (some ts) = if ltb ts since then [] else (ts, score) ∷ []

  -- The loop of `getMetrics`.
  unfoldable pub points_from : ℕ → List (String × ℕ) → List (ℕ × ℕ)
  points_from since [] = []
  points_from since ((member, score) ∷ z) =
      point_of since score (parse_int member) ++ points_from since z

  -- `getMetrics`; `none` is its error.
  unfoldable pub get_metrics : Bool → ℕ → List (String × ℕ) → Option (List (ℕ × ℕ))
  unfolding zrange points_from
  get_metrics fails since z = if fails then none else some (points_from since (zrange z))
