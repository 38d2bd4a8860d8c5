-- ===== src/Tests/Metrics.antt =====
-- Latencies and events of two minutes, with strokes for the digits of strconv.
use Prim.Native.String.{len, ◌++◌ as join}
use text.Mathlib.TextPositions.{len-append}
use webhook_mind.Prelude.{
  In, List, Option, String, [], ap, arith, false, refl, some, suc, zero, ℕ, ◌∷◌, ◌≡◌,
}
use webhook_mind.Metrics.{get_metrics, points_from, record_latency, zrange}
use webhook_mind.Metrics.Points.{Ascending}
use webhook_mind.Metrics.Throughput.{counted, get_metrics-record_throughput}
use webhook_mind.Metrics.Latencies.{get_metrics-record_latency, recorded}

unfoldable strokes : ℕ → String
strokes zero = ""
strokes (suc n) = join "1" (strokes n)

abbrev read_strokes : String → Option ℕ
read_strokes s = some (len s)

len-strokes : (n : ℕ) → len (strokes n) ≡ n
unfolding strokes
len-strokes zero = refl
len-strokes (suc n) = rw (len-append "1" (strokes n), len-strokes n) (omega arith)

-- Minute 2 has latencies 9 and 4, minute 3 has 5, and minute 1 is too old.
abbrev measured : List (ℕ × ℕ)
measured = (2, 4) ∷ (3, 5) ∷ (2, 9) ∷ (1, 7) ∷ []

abbrev points : List (ℕ × ℕ)
points = points_from read_strokes 2 (zrange (recorded strokes measured))

get_metrics-record_latency_example :
    (get_metrics read_strokes false 2 (recorded strokes measured) ≡ some points)
    × Ascending points
    × In (2, 9) points
get_metrics-record_latency_example =
    get_metrics-record_latency strokes read_strokes 2 measured 2 9 (λ n. ap some (len-strokes n))
      (omega arith) refl

-- The later minute comes first, since its value is the lower one.
later_first : points ≡ (3, 5) ∷ (2, 9) ∷ []
unfolding points_from zrange strokes record_latency
later_first = refl

-- Two events in minute 2 and one in minute 3.
abbrev events : List ℕ
events = 2 ∷ 3 ∷ 2 ∷ []

abbrev counts : List (ℕ × ℕ)
counts = points_from read_strokes 2 (zrange (counted strokes events))

get_metrics-record_throughput_example :
    (get_metrics read_strokes false 2 (counted strokes events) ≡ some counts)
    × Ascending counts
    × In (2, 2) counts
get_metrics-record_throughput_example =
    get_metrics-record_throughput strokes read_strokes 2 events 2 2 (λ n. ap some (len-strokes n))
      (omega arith) refl
