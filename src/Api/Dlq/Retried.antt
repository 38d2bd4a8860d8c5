-- ===== src/Api/Dlq/Retried.antt =====
-- What a retry and a discard leave behind.
use webhook_mind.Prelude.{
  Bool-cases, List, Option, Option-cases, String, [], ap, arith, bytes_equal, bytes_equal_refl,
  eq_iff, eq_of_bytes_equal, false, if◌then◌else◌, inl, inr, map, none, refl, some, split, str_eq,
  sym, ℕ, ◌++◌, ◌∙◌, ◌∷◌, ◌≡◌, ◌≢◌, ◌⊎◌,
}
use webhook_mind.Api.Dlq.{
  DeadFaults, DeadState, cleaned, found_dead, handle_retry_dlq, resolve_dlq_entry, resolve_row,
}
use webhook_mind.Models.{WebhookEvent}
use webhook_mind.Queue.{enqueue, find_dlq_entry, find_entry, remove_dlq_entry, remove_first}

module _ (marshal : WebhookEvent → List ℕ) (unmarshal : List ℕ → Option WebhookEvent) where
  -- The first entry of an event in a list: what stands before and after it, and the list without it.
  abbrev pub First : String → List (List ℕ) → List ℕ → WebhookEvent → Type 0
  First event_id entries raw event =
      (before : List (List ℕ)) × (after : List (List ℕ)) × (entries ≡ before ++ raw ∷ after)
      × (find_entry marshal unmarshal event_id before ≡ none)
      × (unmarshal raw ≡ some event)
      × (event.id ≡ event_id)
      × (remove_first raw entries ≡ before ++ after)

  -- An entry that is not of the event.
  abbrev pub Other : String → List ℕ → Type 0
  Other event_id r = (e : WebhookEvent) → unmarshal r ≡ some e → str_eq e.id event_id ≡ false

  pub find_entry-Other :
      (event_id : String) (r : List ℕ) (rs : List (List ℕ))
      → Other event_id r
      → find_entry marshal unmarshal event_id (r ∷ rs) ≡ find_entry marshal unmarshal event_id rs
  unfolding find_entry
  find_entry-Other event_id r rs other = elim (Option-cases (unmarshal r)) [
    | inl bad ↦ rw (bad, find_entry) refl
    | inr (e, good) ↦ rw (good, find_entry) (rw (other e good) refl)
  ]

  pub remove_first-Other :
      (event_id : String) (r raw : List ℕ) (rs : List (List ℕ)) (event : WebhookEvent)
      → Other event_id r
      → unmarshal raw ≡ some event
      → event.id ≡ event_id
      → remove_first raw (r ∷ rs) ≡ r ∷ remove_first raw rs
  unfolding remove_first
  remove_first-Other event_id r raw rs event other good same =
      elim (Bool-cases (bytes_equal r raw)) [
        | inl equal ↦
            let e : r ≡ raw = eq_of_bytes_equal r raw equal in
            let wrong = other event (ap unmarshal e ∙ good) in
            absurd (ground (arith, eq_iff event.id event_id))
        | inr apart ↦ rw apart refl
      ]

  pub remove_first_head : (raw : List ℕ) (rs : List (List ℕ)) → remove_first raw (raw ∷ rs) ≡ rs
  unfolding remove_first
  remove_first_head raw rs = rw (bytes_equal_refl raw) refl

  -- One entry that is passed over.
  pub First-Other :
      (event_id : String) (r : List ℕ) (rs : List (List ℕ)) (raw : List ℕ) (event : WebhookEvent)
      → Other event_id r
      → First event_id rs raw event
      → First event_id (r ∷ rs) raw event
  First-Other event_id r rs raw event other (before, after, split, absent, good, same, removed) = (
    r ∷ before,
    after,
    ap (λ l. r ∷ l) split,
    find_entry-Other event_id r before other ∙ absent,
    good,
    same,
    remove_first-Other event_id r raw rs event other good same ∙ ap (λ l. r ∷ l) removed,
  )

  pub find_entry-First :
      (event_id : String) (entries : List (List ℕ)) (raw : List ℕ) (event : WebhookEvent)
      → find_entry marshal unmarshal event_id entries ≡ some (raw, event)
      → First event_id entries raw event
  find_entry-First event_id [] raw event h = unfold find_entry in absurd (ground arith)
  find_entry-First event_id (r ∷ rs) raw event h =
      let later : Other event_id r → First event_id (r ∷ rs) raw event = λ other.
        First-Other event_id r rs raw event other (
          find_entry-First event_id rs raw event
            (sym (find_entry-Other event_id r rs other) ∙ h)) in
      elim (Option-cases (unmarshal r)) [
        | inl bad ↦ later (λ e good. absurd (ground arith))
        | inr (e, good) ↦ elim (Bool-cases (str_eq e.id event_id)) [
          | inl same ↦
              let found : find_entry marshal unmarshal event_id (r ∷ rs) ≡ some (r, e) =
                unfold find_entry in rw (good, find_entry) (rw same refl) in
              let raw_eq : r ≡ raw = ground arith in
              let event_eq : e ≡ event = ground arith in
              (
                [],
                rs,
                ap (λ x. x ∷ rs) raw_eq,
                unfold find_entry in refl,
                ap unmarshal (sym raw_eq) ∙ good ∙ ap some event_eq,
                ap (λ (x : WebhookEvent). x.id) (sym event_eq) ∙ (eq_iff e.id event_id).0 same,
                ap (λ x. remove_first raw (x ∷ rs)) raw_eq ∙ remove_first_head raw rs,
              )
          | inr other ↦ later (λ e' good'.
              let e_eq : e ≡ e' = ground arith in
              ap (λ (x : WebhookEvent). str_eq x.id event_id) (sym e_eq) ∙ other)
        ]
      ]

  -- What a retry that answers 200 has done.
  abbrev pub IsRetriedFrom : DeadFaults → String → DeadState → DeadState → Type 0
  IsRetriedFrom f event_id s s' =
      (raw : List ℕ) × (event : WebhookEvent) × (before : List (List ℕ)) × (after : List (List ℕ))
      × (s.queue.dlq_list ≡ before ++ raw ∷ after)
      × (find_entry marshal unmarshal event_id before ≡ none)
      × (unmarshal raw ≡ some event)
      × (event.id ≡ event_id)
      × (s'.queue ≡ record (s.queue) {
        delivery_list = s.queue.delivery_list ++ marshal event ∷ [];
        dlq_list = if f.remove_fails then s.queue.dlq_list else before ++ after;
      })
      × (s'.dead_letters
          ≡ (if f.resolve_fails then s.dead_letters else map (resolve_row event_id) s.dead_letters))

  cleaned-IsRetriedFrom :
      (f : DeadFaults) (event_id : String) (s : DeadState) (raw : List ℕ) (event : WebhookEvent)
      → First event_id s.queue.dlq_list raw event
      → IsRetriedFrom f event_id s
          (cleaned marshal unmarshal f event_id raw
            (record (s.queue) { delivery_list = s.queue.delivery_list ++ marshal event ∷ [] })
            s).1
  unfolding remove_dlq_entry resolve_dlq_entry
  cleaned-IsRetriedFrom f event_id s raw event (before, after, split, absent, good, same, removed) =
      (
        raw,
        event,
        before,
        after,
        split,
        absent,
        good,
        same,
        elim (Bool-cases f.remove_fails) [ inl e ↦ rw e refl | inr e ↦ rw (e, removed) refl ],
        elim (Bool-cases f.resolve_fails) [ inl e ↦ rw e refl | inr e ↦ rw e refl ],
      )

  -- A retry either answers 200, and then the first entry of the event in the dead letter list is
  -- queued for delivery, and is taken off the list and its rows marked as resolved where these two
  -- calls succeed; or it answers otherwise and changes nothing.
  pub handle_retry_dlq_lem :
      (f : DeadFaults) (event_id : String) (s : DeadState)
      → let (status, s') = handle_retry_dlq marshal unmarshal f event_id s in
        (status ≡ 200) × IsRetriedFrom f event_id s s' ⊎ (status ≢ 200) × (s' ≡ s)
  unfolding handle_retry_dlq
  handle_retry_dlq_lem f event_id s = elim (Bool-cases f.has_queue) [
    | inr gone ↦ rw gone (inr (λ e. absurd (omega arith), refl))
    | inl there ↦
        rw there (found_lem (find_dlq_entry marshal unmarshal f.find_fails event_id s.queue) refl)
  ]
    where
      found_lem :
          (found : Option (Option (List ℕ × WebhookEvent)))
          → find_dlq_entry marshal unmarshal f.find_fails event_id s.queue ≡ found
          → let (status, s') = found_dead marshal unmarshal f event_id s found in
            (status ≡ 200) × IsRetriedFrom f event_id s s' ⊎ (status ≢ 200) × (s' ≡ s)
      found_lem none h = inr (λ e. absurd (omega arith), refl)
      found_lem (some none) h = inr (λ e. absurd (omega arith), refl)
      found_lem (some (some (raw, event))) h = elim (Bool-cases f.enqueue_fails) [
        | inl bad ↦ unfold enqueue in rw bad (inr (λ e. absurd (omega arith), refl))
        | inr good ↦
            let first : First event_id s.queue.dlq_list raw event =
              find_entry-First event_id s.queue.dlq_list raw event
                (unfold find_dlq_entry in ground arith) in
            unfold enqueue in
            rw good (inl (refl, cleaned-IsRetriedFrom f event_id s raw event first))
      ]
