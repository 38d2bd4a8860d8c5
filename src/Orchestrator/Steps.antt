-- ===== src/Orchestrator/Steps.antt =====
-- What a worker's round does with the first event, and how many workers the scaler starts.
use webhook_mind.Prelude.{
  List, Option, Option-cases, String, [], ap, arith, eq_iff, false, inl, inr, lookup, none, pos,
  refl, some, ℕ, ℤ, ◌++◌, ◌+◌, ◌<◌, ◌↔◌, ◌∙◌, ◌∷◌, ◌≡◌, ◌≢◌, ◌≤◌,
}
use webhook_mind.Json.{Fields, Json, arr, bool, members, null, num, obj, str}
use webhook_mind.Models.{WebhookEvent}
use webhook_mind.Queue.{RedisQueue}
use webhook_mind.Orchestrator.{
  int32, payload_url, plus, scale, scale_from, url_in, work, workers_to_add,
}

-- The payload has a `file_url` that is a text and not empty.
abbrev pub HasFile : Option Fields → String → Type 0
HasFile payload url =
    (fields : Fields) × (payload ≡ some fields)
    × (lookup "file_url" (members fields) ≡ some (str url))
    × (url ≢ "")

url_in-str :
    (found : Option Json) (url : String)
    → (url_in found ≡ some url) ↔ ((found ≡ some (str url)) × (url ≢ ""))
url_in-str none url = (λ h. cc, λ (h, ne). cc)
url_in-str (some (str text)) url =
    (λ h. ground (arith, eq_iff text ""), λ (h, ne). ground (arith, eq_iff text "", eq_iff url ""))
url_in-str (some null) url = (λ h. cc, λ (h, ne). cc)
url_in-str (some (num b)) url = (λ h. cc, λ (h, ne). cc)
url_in-str (some (bool b)) url = (λ h. cc, λ (h, ne). cc)
url_in-str (some (obj fs)) url = (λ h. cc, λ (h, ne). cc)
url_in-str (some (arr xs)) url = (λ h. cc, λ (h, ne). cc)

payload_url-HasFile :
    (payload : Option Fields) (url : String)
    → (payload_url payload ≡ some url) ↔ HasFile payload url
payload_url-HasFile none url = (λ h. cc, λ (fields, e, h, ne). cc)
payload_url-HasFile (some fields) url =
    let (to, from) = url_in-str (lookup "file_url" (members fields)) url in
    (
      λ h. let (found, ne) = to h in (fields, refl, found, ne),
      λ (fields', e, found, ne).
          from
            (ap (λ (fs : Fields). lookup "file_url" (members fs)) (some_injective e) ∙ found, ne),
    )
  where
    some_injective : {a b : Fields} → some a ≡ some b → a ≡ b
    some_injective e = cc

module _ (marshal : WebhookEvent → List ℕ) (unmarshal : List ℕ → Option WebhookEvent)
    (parse_body : List ℕ → Option Fields) where
  -- If Redis fails nowhere and the first entry of the incoming list decodes to an event, one round
  -- takes the entry away and adds exactly one: where the payload is an object whose `file_url` is a
  -- text and not empty, the event with this address at the end of the extraction list; where it is
  -- not, the event as it was at the end of the delivery list. All else stays.
  pub work_lem :
      (q : RedisQueue) (raw : List ℕ) (rest : List (List ℕ)) (event : WebhookEvent)
      → q.incoming_list ≡ raw ∷ rest
      → unmarshal raw ≡ some event
      → ((url : String)
          → HasFile (parse_body event.raw_body) url
          → work marshal unmarshal parse_body false false q ≡ record q {
            incoming_list = rest;
            extraction_list = q.extraction_list ++ marshal (record event { file_url = url }) ∷ [];
          })
        × (((url : String) → ¬ HasFile (parse_body event.raw_body) url)
            → work marshal unmarshal parse_body false false q ≡ record q {
              incoming_list = rest;
              delivery_list = q.delivery_list ++ marshal event ∷ [];
            })
  unfolding work
  work_lem q raw rest event h e = (
    λ url file.
        let u = (payload_url-HasFile (parse_body event.raw_body) url).1 file in rw (h, e, u) refl,
    λ no_file. elim (Option-cases (payload_url (parse_body event.raw_body))) [
      | inl u ↦ rw (h, e, u) refl
      | inr (url, u) ↦
          absurd (no_file url ((payload_url-HasFile (parse_body event.raw_body) url).0 u))
    ],
  )

-- One tick, as long as no number wraps.
workers_to_add_lem :
    (threshold : ℤ) (max_workers current : ℕ) (d : Option ℕ)
    → max_workers < 2147483637
    → current ≤ max_workers
    → let added = workers_to_add threshold (pos max_workers) (pos current) d in
      (current + added ≤ max_workers) × (int32 (plus (pos current) added) ≡ pos (current + added))
unfolding workers_to_add int32
workers_to_add_lem threshold max_workers current none small h = ground arith
workers_to_add_lem threshold max_workers current (some depth) small h = ground arith

workers_to_add_pos :
    (threshold max_workers current depth : ℕ)
    → max_workers < 2147483637
    → threshold < depth
    → current < max_workers
    → 0 < workers_to_add (pos threshold) (pos max_workers) (pos current) (some depth)
unfolding workers_to_add int32
workers_to_add_pos threshold max_workers current depth small deep more = ground arith

scale_from_range :
    (threshold : ℤ) (max_workers : ℕ) (depths : List (Option ℕ)) (current : ℕ)
    → max_workers < 2147483637
    → current ≤ max_workers
    → (n : ℕ) × (scale_from threshold (pos max_workers) depths (pos current) ≡ pos n)
      × (n ≤ max_workers)
      × (current ≤ n)
unfolding scale_from
scale_from_range threshold max_workers [] current small h = (current, refl, h, omega arith)
scale_from_range threshold max_workers (d ∷ depths) current small h =
    let (below, same) = workers_to_add_lem threshold max_workers current d small h in
    let (n, e, le, ge) =
      scale_from_range threshold max_workers depths
        (current + workers_to_add threshold (pos max_workers) (pos current) d) small below in
    (n, rw same e, le, omega arith)

scale_from_grows :
    (threshold max_workers current depth : ℕ) (depths : List (Option ℕ))
    → max_workers < 2147483637
    → threshold < depth
    → current < max_workers
    → (n : ℕ) × (scale_from (pos threshold) (pos max_workers) (some depth ∷ depths) (pos current)
        ≡ pos n)
      × (current < n)
unfolding scale_from
scale_from_grows threshold max_workers current depth depths small deep more =
    let some_more = workers_to_add_pos threshold max_workers current depth small deep more in
    let (below, same) =
      workers_to_add_lem (pos threshold) max_workers current (some depth) small (omega arith) in
    let (n, e, le, ge) =
      scale_from_range (pos threshold) max_workers depths
        (current + workers_to_add (pos threshold) (pos max_workers) (pos current) (some depth))
        small below in
    (n, rw same e, omega arith)

scale-small :
    (threshold : ℤ) (max_workers : ℕ) (depths : List (Option ℕ)) (current : ℤ)
    → max_workers < 2147483648
    → scale threshold (pos max_workers) depths current
      ≡ scale_from threshold (pos max_workers) depths current
unfolding scale int32
scale-small threshold max_workers depths current small =
    ap (λ m. scale_from threshold m depths current) converted
  where
    converted : int32 (pos max_workers) ≡ pos max_workers
    converted = ground arith

-- If `max_workers` and ten more fit in int32, and no more than `max_workers` run at the start, then
-- however deep the list is found, the scaler never has more than `max_workers` workers running and
-- never stops one. A tick with a list deeper than the threshold starts some, unless all run already.
pub scale_bounds :
    (threshold max_workers current : ℕ) (depths : List (Option ℕ))
    → max_workers < 2147483637
    → current ≤ max_workers
    → ((n : ℕ) × (scale (pos threshold) (pos max_workers) depths (pos current) ≡ pos n)
        × (n ≤ max_workers)
        × (current ≤ n))
      × ((depth : ℕ)
          → threshold < depth
          → current < max_workers
          → (n : ℕ) × (scale (pos threshold) (pos max_workers) (some depth ∷ depths) (pos current)
              ≡ pos n)
            × (current < n))
scale_bounds threshold max_workers current depths small h = (
  rw (scale-small (pos threshold) max_workers depths (pos current) (omega arith))
      (scale_from_range (pos threshold) max_workers depths current small h),
  λ depth deep more.
      rw (scale-small (pos threshold) max_workers (some depth ∷ depths) (pos current) (omega arith))
        (scale_from_grows threshold max_workers current depth depths small deep more),
)
