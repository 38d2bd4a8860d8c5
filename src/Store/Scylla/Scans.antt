-- ===== src/Store/Scylla/Scans.antt =====
-- Which events a scan of the table gives, and with which bodies.
use webhook_mind.Prelude.{
  All, Bool, Bool-cases, In, List, Option, String, [], arith, eq_iff, false, filter, head,
  if◌then◌else◌, inl, inr, refl, some, sym, tail, true, ℕ, ◌*◌, ◌/◌, ◌∷◌, ◌≡◌, ◌≤◌,
}
use webhook_mind.Models.{WebhookEvent}
use webhook_mind.Store.Scylla.{
  StoredEvent, from_row, get_events_by_source_since, is_since, millisecond, scan_rows,
}
use webhook_mind.Store.Scylla.Rows.{NewestFirst, Written, Written-NewestFirst, ms}

In-if :
    (keep : StoredEvent → Bool) (row r : StoredEvent) (rows xs : List StoredEvent) (b : Bool)
    → keep r ≡ b
    → (In row xs → In row rows × (keep row ≡ true))
    → In row (if b then r ∷ xs else xs)
    → In row (r ∷ rows) × (keep row ≡ true)
In-if keep row _ rows xs true kept later head = (head, kept)
In-if keep row r rows xs true kept later (tail i) = let (found, k) = later i in (tail found, k)
In-if keep row r rows xs false left later i = let (found, k) = later i in (tail found, k)

filter-In :
    (keep : StoredEvent → Bool) (row : StoredEvent) (rows : List StoredEvent)
    → In row (filter keep rows)
    → In row rows × (keep row ≡ true)
filter-In keep row [] i = elim i [ ]
filter-In keep row (r ∷ rows) i =
    In-if keep row r rows (filter keep rows) (keep r) refl (filter-In keep row rows) i

In-filter :
    (keep : StoredEvent → Bool) (row : StoredEvent) (rows : List StoredEvent)
    → In row rows
    → keep row ≡ true
    → In row (filter keep rows)
In-filter keep row [] i k = elim i [ ]
In-filter keep row (_ ∷ rows) head k = rw k head
In-filter keep row (r ∷ rows) (tail i) k = elim (Bool-cases (keep r)) [
  | inl kept ↦ rw kept (tail (In-filter keep row rows i k))
  | inr left ↦ rw left (In-filter keep row rows i k)
]

filter-All :
    (n : ℕ) (keep : StoredEvent → Bool) (rows : List StoredEvent)
    → All (λ s. ms s ≤ n) rows
    → All (λ s. ms s ≤ n) (filter keep rows)
filter-All n keep [] h = tt
filter-All n keep (r ∷ rows) (first, rest) = elim (Bool-cases (keep r)) [
  | inl kept ↦ rw kept (first, filter-All n keep rows rest)
  | inr left ↦ rw left (filter-All n keep rows rest)
]

filter-NewestFirst :
    (keep : StoredEvent → Bool) (rows : List StoredEvent)
    → NewestFirst ms rows
    → NewestFirst ms (filter keep rows)
filter-NewestFirst keep [] h = tt
filter-NewestFirst keep (r ∷ rows) (first, rest) = elim (Bool-cases (keep r)) [
  | inl kept ↦ rw kept (filter-All (ms r) keep rows first, filter-NewestFirst keep rows rest)
  | inr left ↦ rw left (filter-NewestFirst keep rows rest)
]

module _ (room : ℕ → ℕ → ℕ) where
  scan_rows-All :
      (P : WebhookEvent → Type 0) (rows : List StoredEvent) (capacity : ℕ) (array : List ℕ)
      → ((row : StoredEvent) (body : List ℕ) → In row rows → P (from_row row body))
      → All P (scan_rows room capacity array rows).1
  unfolding scan_rows
  scan_rows-All P [] capacity array h = tt
  scan_rows-All P (row ∷ rows) capacity array h =
      (h row _ head, scan_rows-All P rows _ _ (λ r body i. h r body (tail i)))

  scan_rows-In :
      (row : StoredEvent) (rows : List StoredEvent) (capacity : ℕ) (array : List ℕ)
      → In row rows
      → (body : List ℕ) × In (from_row row body) (scan_rows room capacity array rows).1
  unfolding scan_rows
  scan_rows-In row [] capacity array i = elim i [ ]
  scan_rows-In row (_ ∷ rows) capacity array head = (_, head)
  scan_rows-In row (r ∷ rows) capacity array (tail i) =
      let (body, j) = scan_rows-In row rows _ _ i in (body, tail j)

  In-All :
      (n : ℕ) (row : StoredEvent) (rows : List StoredEvent)
      → All (λ s. ms s ≤ n) rows
      → In row rows
      → ms row ≤ n
  In-All n row [] h i = elim i [ ]
  In-All n row (_ ∷ rows) (first, rest) head = first
  In-All n row (_ ∷ rows) (first, rest) (tail i) = In-All n row rows rest i

  scan_rows-NewestFirst :
      (rows : List StoredEvent) (capacity : ℕ) (array : List ℕ)
      → NewestFirst ms rows
      → NewestFirst (λ (e : WebhookEvent). e.received_at) (scan_rows room capacity array rows).1
  unfolding scan_rows
  scan_rows-NewestFirst [] capacity array h = tt
  scan_rows-NewestFirst (row ∷ rows) capacity array (first, rest) = (
    scan_rows-All (λ (e : WebhookEvent). e.received_at ≤ ms row * millisecond) rows _ _
        (λ r body i. let le = In-All (ms row) r rows first i in omega arith),
    scan_rows-NewestFirst rows _ _ rest,
  )

  -- In whatever order events were inserted, `GetEventsBySourceSince` gives the newest first. Each
  -- event is one of a row of this source that is not older than the time asked for, in
  -- milliseconds; and each such row has an event with its identifier, time and headers.
  pub get_events_by_source_since_order :
      (parse_uuid : String → Option String) (rows : List StoredEvent) (source_id : String)
      (since : ℕ) (events : List WebhookEvent)
      → Written parse_uuid rows
      → get_events_by_source_since room false source_id since rows ≡ some events
      → NewestFirst (λ (e : WebhookEvent). e.received_at) events
        × All
            (λ (e : WebhookEvent).
              (row : StoredEvent) × In row rows
              × (row.event_id ≡ e.id)
              × (e.source_id ≡ source_id)
              × (since / millisecond * millisecond ≤ e.received_at))
            events
        × ((row : StoredEvent)
            → In row rows
            → row.source_id ≡ source_id
            → since / millisecond ≤ row.received_ms
            → (e : WebhookEvent) × In e events
              × (e.id ≡ row.event_id)
              × (e.received_at ≡ row.received_ms * millisecond)
              × (e.headers ≡ row.headers))
  unfolding get_events_by_source_since
  get_events_by_source_since_order parse_uuid rows source_id since events w e =
      let found = filter (is_since source_id since) rows in
      let read : (scan_rows room 0 [] found).1 ≡ events = ground arith in
      rw (sym read) (
        scan_rows-NewestFirst found 0 [] (
            filter-NewestFirst (is_since source_id since) rows
              (Written-NewestFirst parse_uuid rows w)),
        scan_rows-All _ found 0 [] (λ row body i.
            let (there, kept) = filter-In (is_since source_id since) row rows i in
            (row, there, refl, ground (arith, eq_iff row.source_id source_id), ground arith)),
        λ row i same recent.
            let (body, j) = scan_rows-In row found 0 [] (
              In-filter (is_since source_id since) row rows i
                (ground (arith, eq_iff row.source_id source_id))) in
            (_, j, refl, refl, refl),
      )
