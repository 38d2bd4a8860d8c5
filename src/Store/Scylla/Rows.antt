-- ===== src/Store/Scylla/Rows.antt =====
-- What is read back from the table of events, and in which order.
use webhook_mind.Prelude.{
  All, Bool, Bool-cases, List, Option, Option-cases, String, [], arith, eq_iff, eq_refl, false, inl,
  inr, ltb, none, refl, some, str_eq, subst, sym, true, ℕ, ◌&&◌, ◌*◌, ◌/◌, ◌∷◌, ◌≡◌, ◌≤◌,
}
use webhook_mind.Models.{WebhookEvent}
use webhook_mind.Store.Scylla.{
  StoredEvent, find_row, get_event, insert_event, millisecond, place, same_key, to_stored,
}

-- Nothing is older than what follows it.
abbrev pub NewestFirst {ℓ} : {A : Type ℓ} → (A → ℕ) → List A → Type 0
NewestFirst time [] = Unit
NewestFirst time (x ∷ xs) = All (λ y. time y ≤ time x) xs × NewestFirst time xs

abbrev pub ms : StoredEvent → ℕ
ms row = row.received_ms

All-le :
    (m n : ℕ) (rows : List StoredEvent)
    → m ≤ n
    → All (λ s. ms s ≤ m) rows
    → All (λ s. ms s ≤ n) rows
All-le m n [] h rest = tt
All-le m n (r ∷ rows) h (first, rest) = (omega arith, All-le m n rows h rest)

place-All :
    (n : ℕ) (row : StoredEvent) (rows : List StoredEvent)
    → ms row ≤ n
    → All (λ s. ms s ≤ n) rows
    → All (λ s. ms s ≤ n) (place row rows)
unfolding place
place-All n row [] h rest = (h, tt)
place-All n row (r ∷ rows) h (first, rest) = elim (Bool-cases (same_key row r)) [
  | inl same ↦ rw same (h, rest)
  | inr other ↦ elim (Bool-cases (ltb (ms r) (ms row))) [
    | inl newer ↦ rw (other, newer) (h, (first, rest))
    | inr older ↦ rw (other, older) (first, place-All n row rows h rest)
  ]
]

place-NewestFirst :
    (row : StoredEvent) (rows : List StoredEvent)
    → NewestFirst ms rows
    → NewestFirst ms (place row rows)
unfolding place
place-NewestFirst row [] h = (tt, tt)
place-NewestFirst row (r ∷ rows) (first, rest) = elim (Bool-cases (same_key row r)) [
  | inl same ↦
      let e : ms row ≡ ms r = ground arith in
      rw same (subst (λ n. All (λ s. ms s ≤ n) rows) (sym e) first, rest)
  | inr other ↦ elim (Bool-cases (ltb (ms r) (ms row))) [
    | inl newer ↦
        let lt : ms r ≤ ms row = ground arith in
        rw (other, newer) ((lt, All-le (ms r) (ms row) rows lt first), (first, rest))
    | inr older ↦
        let le : ms row ≤ ms r = ground arith in
        rw (other, older) (place-All (ms r) row rows le first, place-NewestFirst row rows rest)
  ]
]

-- The tables that insertions make, from the empty one.
pub data Written (parse_uuid : String → Option String) : List StoredEvent → Type 0 where
  nothing_yet : Written parse_uuid []
  written :
      (fails : Bool) (event : WebhookEvent) (rows rows' : List StoredEvent)
      → Written parse_uuid rows
      → insert_event parse_uuid fails event rows ≡ some rows'
      → Written parse_uuid rows'

insert_event-NewestFirst :
    (parse_uuid : String → Option String) (fails : Bool) (event : WebhookEvent)
    (rows rows' : List StoredEvent)
    → NewestFirst ms rows
    → insert_event parse_uuid fails event rows ≡ some rows'
    → NewestFirst ms rows'
unfolding insert_event
insert_event-NewestFirst parse_uuid true event rows rows' h e = absurd (ground arith)
insert_event-NewestFirst parse_uuid false event rows rows' h e =
    elim (Option-cases (parse_uuid event.id)) [
      | inl bad ↦ absurd (ground arith)
      | inr (id, good) ↦
          let made : place (to_stored id event) rows ≡ rows' = ground arith in
          subst (NewestFirst ms) made (place-NewestFirst (to_stored id event) rows h)
    ]

pub Written-NewestFirst :
    (parse_uuid : String → Option String) (rows : List StoredEvent)
    → Written parse_uuid rows
    → NewestFirst ms rows
Written-NewestFirst parse_uuid _ nothing_yet = tt
Written-NewestFirst parse_uuid _ (written fails event rows rows' w e) =
    insert_event-NewestFirst parse_uuid fails event rows rows'
      (Written-NewestFirst parse_uuid rows w) e

-- What is read back of an event: all but the overrides and what extraction has added, and the time
-- cut to milliseconds.
abbrev pub as_stored : WebhookEvent → WebhookEvent
as_stored event = record {
  id = event.id;
  source_id = event.source_id;
  received_at = event.received_at / millisecond * millisecond;
  raw_body = event.raw_body;
  headers = event.headers;
  file_url = "";
  file_store_path = "";
  extracted_data = none;
  extraction_ms = 0;
  api_key_override = [];
  provider_override = "";
  model_override = [];
}

find_row-place :
    (row : StoredEvent) (rows : List StoredEvent)
    → find_row row.source_id row.event_id rows ≡ none
    → find_row row.source_id row.event_id (place row rows) ≡ some row
unfolding find_row place
find_row-place row [] h = rw (eq_refl row.source_id, eq_refl row.event_id)
find_row-place row (r ∷ rows) h =
    elim (Bool-cases (str_eq r.source_id row.source_id && str_eq r.event_id row.event_id)) [
      | inl found ↦ absurd (ground arith)
      | inr other ↦
          let differs : same_key row r ≡ false = ground (
            arith,
            eq_iff r.source_id row.source_id,
            eq_iff row.source_id r.source_id,
            eq_iff r.event_id row.event_id,
            eq_iff row.event_id r.event_id,
          ) in
          let absent : find_row row.source_id row.event_id rows ≡ none = ground arith in
          let later = find_row-place row rows absent in
          elim (Bool-cases (ltb (ms r) (ms row))) [
            | inl newer ↦ rw (differs, newer) (rw (eq_refl row.source_id, eq_refl row.event_id))
            | inr older ↦ rw (differs, older, other) later
          ]
    ]

-- If the insertion succeeds, and the source has no event of this identifier yet, then `GetEvent`
-- reads back the event's identifier, source, body and headers, and its time cut to milliseconds. The
-- rest is empty: the address and path of a file, what extraction has added and how long it took,
-- and the visitor's key, provider and model.
pub get_event-insert_event :
    (parse_uuid : String → Option String) (event : WebhookEvent) (rows rows' : List StoredEvent)
    → get_event parse_uuid false event.source_id event.id rows ≡ none
    → insert_event parse_uuid false event rows ≡ some rows'
    → get_event parse_uuid false event.source_id event.id rows' ≡ some (as_stored event)
unfolding get_event insert_event
get_event-insert_event parse_uuid event rows rows' absent e =
    elim (Option-cases (parse_uuid event.id)) [
      | inl bad ↦ absurd (ground arith)
      | inr (id, good) ↦
          let made : rows' ≡ place (to_stored id event) rows = ground arith in
          let none_yet : find_row event.source_id id rows ≡ none = ground arith in
          rw (made, good) (rw (find_row-place (to_stored id event) rows none_yet) refl)
    ]
