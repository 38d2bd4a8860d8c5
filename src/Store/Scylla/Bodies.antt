-- ===== src/Store/Scylla/Bodies.antt =====
-- What becomes of the bodies of events that are scanned into one array.
use webhook_mind.Prelude.{
  All, Bool-cases, List, String, [], all, ap, append-nil, arith, drop, false, filter, inl, inr, leb,
  length, map, refl, some, sym, take, true, ℕ, ◌++◌, ◌∙◌, ◌∷◌, ◌≡◌, ◌≤◌,
}
use webhook_mind.Store.Scylla.{
  StoredEvent, from_row, get_events_by_source_since, is_since, scan_rows,
}

-- The body of the last row.
abbrev pub last_body : List ℕ → List StoredEvent → List ℕ
last_body array [] = array
last_body array (row ∷ rows) = last_body row.raw_body rows

drop-length : (s : List ℕ) → drop (length s) s ≡ []
drop-length [] = refl
drop-length (c ∷ s) = drop-length s

take-length : (s : List ℕ) → take (length s) s ≡ s
take-length [] = refl
take-length (c ∷ s) = ap (λ t. c ∷ t) (take-length s)

abbrev OfLength : ℕ → List StoredEvent → Type 0
OfLength n rows = All (λ (row : StoredEvent). length row.raw_body ≡ n) rows

length-last_body :
    (n : ℕ) (array : List ℕ) (rows : List StoredEvent)
    → length array ≡ n
    → OfLength n rows
    → length (last_body array rows) ≡ n
length-last_body n array [] h all = h
length-last_body n array (row ∷ rows) h (first, rest) =
    length-last_body n row.raw_body rows first rest

take-last_body :
    (n : ℕ) (array : List ℕ) (rows : List StoredEvent)
    → length array ≡ n
    → OfLength n rows
    → take n (last_body array rows) ≡ last_body array rows
take-last_body n array rows h all =
    ap (λ m. take m (last_body array rows)) (sym (length-last_body n array rows h all))
    ∙ take-length (last_body array rows)

overwritten :
    (n : ℕ) (new old : List ℕ)
    → length new ≡ n
    → length old ≡ n
    → new ++ drop (length new) old ≡ new
overwritten n new old e h =
    let same : length new ≡ length old = omega arith in
    ap (λ m. new ++ drop m old) same ∙ ap (λ s. new ++ s) (drop-length old) ∙ append-nil new

module _ (room : ℕ → ℕ → ℕ) where
  scan_rows-last_body :
      (n capacity : ℕ) (array : List ℕ) (rows : List StoredEvent)
      → n ≤ capacity
      → length array ≡ n
      → OfLength n rows
      → scan_rows room capacity array rows
        ≡ (last_body array rows, map (λ row. from_row row (last_body array rows)) rows)
  unfolding scan_rows
  scan_rows-last_body n capacity array [] le h all = refl
  scan_rows-last_body n capacity array (row ∷ rows) le h (first, rest) =
      let fits : leb (length row.raw_body) capacity ≡ true = ground arith in
      rw (fits, overwritten n row.raw_body array first h)
        (rw (scan_rows-last_body n capacity row.raw_body rows le first rest)
          (rw (first, take-last_body n row.raw_body rows first rest) refl))

  scan_all-last_body :
      (n : ℕ) (found : List StoredEvent)
      → ((capacity n : ℕ) → n ≤ room capacity n)
      → OfLength n found
      → (scan_rows room 0 [] found).1 ≡ map (λ row. from_row row (last_body [] found)) found
  unfolding scan_rows
  scan_all-last_body n [] enough all = refl
  scan_all-last_body n (row ∷ found) enough (first, rest) =
      elim (Bool-cases (leb (length row.raw_body) 0)) [
        | inl fits ↦
            let none_of_it : n ≡ 0 = ground arith in
            let whole : row.raw_body ++ drop (length row.raw_body) [] ≡ row.raw_body =
              overwritten n row.raw_body [] first (omega arith) in
            rw (fits, whole)
              (rw (scan_rows-last_body n 0 row.raw_body found (omega arith) first rest)
                (rw (first, take-last_body n row.raw_body found first rest) refl))
        | inr long ↦
            let le : n ≤ room 0 (length row.raw_body) =
              let le' = enough 0 (length row.raw_body) in omega arith in
            rw long (
              rw
                (scan_rows-last_body n (room 0 (length row.raw_body)) row.raw_body found le first
                  rest)
                (rw (first, take-last_body n row.raw_body found first rest) refl))
      ]

  -- If the driver gives an array at least the room that is asked for, and all the bodies of the
  -- events that `GetEventsBySourceSince` reads have one length, then every event comes with the
  -- body of the last row, which is the oldest.
  pub get_events_by_source_since-last_body :
      ((capacity n : ℕ) → n ≤ room capacity n)
      → (source_id : String) (since : ℕ) (rows : List StoredEvent) (n : ℕ)
      → let found = filter (is_since source_id since) rows in
        OfLength n found
        → get_events_by_source_since room false source_id since rows
          ≡ some (map (λ row. from_row row (last_body [] found)) found)
  unfolding get_events_by_source_since
  get_events_by_source_since-last_body enough source_id since rows n all =
      ap some (scan_all-last_body n (filter (is_since source_id since) rows) enough all)
