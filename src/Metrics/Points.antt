-- ===== src/Metrics/Points.antt =====
-- Points that come back from a sorted set: their order, and that none is lost.
use webhook_mind.Prelude.{
  All, Bool-cases, In, List, Option, Option-cases, String, [], arith, eq_iff, false, head, inl, inr,
  leb, lookup, ltb, refl, some, str_eq, sym, tail, ℕ, ◌==◌, ◌∷◌, ◌≡◌, ◌≤◌,
}
use webhook_mind.Metrics.{get_metrics, insert_score, points_from, zrange}

-- Values in ascending order.
abbrev pub Ascending {ℓ} : {A : Type ℓ} → List (A × ℕ) → Type 0
Ascending [] = Unit
Ascending ((a, s) ∷ z) = All (λ e. s ≤ e.1) z × Ascending z

insert_score-All :
    (n : ℕ) (m : String) (s : ℕ) (z : List (String × ℕ))
    → n ≤ s
    → All (λ (e : String × ℕ). n ≤ e.1) z
    → All (λ (e : String × ℕ). n ≤ e.1) (insert_score (m, s) z)
unfolding insert_score
insert_score-All n m s [] le h = (le, tt)
insert_score-All n m s ((k, t) ∷ z) le (first, rest) = elim (Bool-cases (leb s t)) [
  | inl low ↦ rw low (le, (first, rest))
  | inr high ↦ rw high (first, insert_score-All n m s z le rest)
]

All-trans :
    (s t : ℕ) (z : List (String × ℕ))
    → s ≤ t
    → All (λ (e : String × ℕ). t ≤ e.1) z
    → All (λ (e : String × ℕ). s ≤ e.1) z
All-trans s t [] le h = tt
All-trans s t (e ∷ z) le (first, rest) = (omega arith, All-trans s t z le rest)

insert_score-Ascending :
    (m : String) (s : ℕ) (z : List (String × ℕ)) → Ascending z → Ascending (insert_score (m, s) z)
unfolding insert_score
insert_score-Ascending m s [] h = (tt, tt)
insert_score-Ascending m s ((k, t) ∷ z) (first, rest) = elim (Bool-cases (leb s t)) [
  | inl low ↦
      let le : s ≤ t = ground arith in rw low ((le, All-trans s t z le first), (first, rest))
  | inr high ↦
      let le : t ≤ s = ground arith in
      rw high (insert_score-All t m s z le first, insert_score-Ascending m s z rest)
]

zrange-Ascending : (z : List (String × ℕ)) → Ascending (zrange z)
unfolding zrange
zrange-Ascending [] = tt
zrange-Ascending ((m, s) ∷ z) = insert_score-Ascending m s (zrange z) (zrange-Ascending z)

module _ (parse_int : String → Option ℕ) where
  points_from-All :
      (since s : ℕ) (z : List (String × ℕ))
      → All (λ (e : String × ℕ). s ≤ e.1) z
      → All (λ (e : ℕ × ℕ). s ≤ e.1) (points_from parse_int since z)
  unfolding points_from
  points_from-All since s [] h = tt
  points_from-All since s ((m, t) ∷ z) (first, rest) = elim (Option-cases (parse_int m)) [
    | inl bad ↦ rw bad (points_from-All since s z rest)
    | inr (ts, good) ↦ elim (Bool-cases (ltb ts since)) [
      | inl old ↦ rw (good, old) (points_from-All since s z rest)
      | inr recent ↦ rw (good, recent) (first, points_from-All since s z rest)
    ]
  ]

  points_from-Ascending :
      (since : ℕ) (z : List (String × ℕ)) → Ascending z → Ascending (points_from parse_int since z)
  unfolding points_from
  points_from-Ascending since [] h = tt
  points_from-Ascending since ((m, t) ∷ z) (first, rest) = elim (Option-cases (parse_int m)) [
    | inl bad ↦ rw bad (points_from-Ascending since z rest)
    | inr (ts, good) ↦ elim (Bool-cases (ltb ts since)) [
      | inl old ↦ rw (good, old) (points_from-Ascending since z rest)
      | inr recent ↦
          rw (good, recent) (points_from-All since t z first, points_from-Ascending since z rest)
    ]
  ]

lookup-In :
    (member : String) (score : ℕ) (z : List (String × ℕ))
    → lookup member z ≡ some score
    → In (member, score) z
unfolding lookup
lookup-In member score [] e = cc
lookup-In member score ((m, s) ∷ z) e = elim (Bool-cases (str_eq m member)) [
  | inl same ↦
      let names : m ≡ member = ground (arith, eq_iff m member) in
      let scores : s ≡ score = ground arith in rw (sym names, sym scores) head
  | inr other ↦ tail (lookup-In member score z (ground arith))
]

insert_score-In_new : (e : String × ℕ) (z : List (String × ℕ)) → In e (insert_score e z)
unfolding insert_score
insert_score-In_new (m, s) [] = head
insert_score-In_new (m, s) ((n, t) ∷ z) = elim (Bool-cases (leb s t)) [
  | inl low ↦ rw low head
  | inr high ↦ rw high (tail (insert_score-In_new (m, s) z))
]

insert_score-In_old : (d e : String × ℕ) (z : List (String × ℕ)) → In d z → In d (insert_score e z)
unfolding insert_score
insert_score-In_old d e [] i = elim i [ ]
insert_score-In_old d (m, s) ((n, t) ∷ z) head = elim (Bool-cases (leb s t)) [
  | inl low ↦ rw low (tail head)
  | inr high ↦ rw high head
]
insert_score-In_old d (m, s) ((n, t) ∷ z) (tail i) = elim (Bool-cases (leb s t)) [
  | inl low ↦ rw low (tail (tail i))
  | inr high ↦ rw high (tail (insert_score-In_old d (m, s) z i))
]

zrange-In : (d : String × ℕ) (z : List (String × ℕ)) → In d z → In d (zrange z)
unfolding zrange
zrange-In d [] i = elim i [ ]
zrange-In d (e ∷ z) head = insert_score-In_new e (zrange z)
zrange-In d (e ∷ z) (tail i) = insert_score-In_old d e (zrange z) (zrange-In d z i)

points_from-In :
    (parse_int : String → Option ℕ) (since ts score : ℕ) (member : String) (z : List (String × ℕ))
    → parse_int member ≡ some ts
    → since ≤ ts
    → In (member, score) z
    → In (ts, score) (points_from parse_int since z)
unfolding points_from
points_from-In parse_int since ts score member [] good recent i = elim i [ ]
points_from-In parse_int since ts score member (e ∷ z) good recent head =
    let new : ltb ts since ≡ false = ground arith in rw (good, new) head
points_from-In parse_int since ts score member ((m, s) ∷ z) good recent (tail i) =
    let later = points_from-In parse_int since ts score member z good recent i in
    elim (Option-cases (parse_int m)) [
      | inl bad ↦ rw bad later
      | inr (at, parsed) ↦ elim (Bool-cases (ltb at since)) [
        | inl old ↦ rw (parsed, old) later
        | inr new ↦ rw (parsed, new) (tail later)
      ]
    ]

module _ (format_int : ℕ → String) (parse_int : String → Option ℕ) where
  pub str_eq-format_int :
      ((n : ℕ) → parse_int (format_int n) ≡ some n)
      → (m n : ℕ) → str_eq (format_int m) (format_int n) ≡ (m == n)
  str_eq-format_int printed m n =
      ground (arith, eq_iff (format_int m) (format_int n), printed m, printed n)

  -- The points of a set: ascending, and with what a recent minute has.
  pub points-In :
      (since minute score : ℕ) (z : List (String × ℕ))
      → ((n : ℕ) → parse_int (format_int n) ≡ some n)
      → since ≤ minute
      → lookup (format_int minute) z ≡ some score
      → let points = points_from parse_int since (zrange z) in
        (get_metrics parse_int false since z ≡ some points)
        × Ascending points
        × In (minute, score) points
  unfolding get_metrics
  points-In since minute score z printed recent found = (
    refl,
    points_from-Ascending parse_int since (zrange z) (zrange-Ascending z),
    points_from-In parse_int since minute score (format_int minute) (zrange z) (printed minute)
        recent
        (zrange-In (format_int minute, score) z (lookup-In (format_int minute) score z found)),
  )
