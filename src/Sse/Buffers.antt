-- ===== src/Sse/Buffers.antt =====
-- What the hub's channels hold, over all runs.
use webhook_mind.Prelude.{
  Bool-cases, In, List, Option, String, [], arith, eq_iff, head, inl, inr, length, length-append,
  ltb, map, none, some, subst, tail, ℕ, ◌&&◌, ◌++◌, ◌+◌, ◌<◌, ◌==◌, ◌∷◌, ◌≡◌, ◌≢◌, ◌≤◌, ◌⊎◌,
}
use webhook_mind.Sse.{
  Client, Hub, Message, broadcast, broadcast_parsed, capacity, new_hub, offer, receive,
  receive_from, register, take_first, unregister, wants, without,
}

module _ (parse_envelope : List ℕ → Option (Message × String)) where
  -- The hubs that a run reaches: clients come, go and read, and messages are broadcast, in any order.
  pub data Reached : Hub → Type 0 where
    started : Reached new_hub
    registered :
        (h : Hub) (source_filter : String) → Reached h → Reached (register source_filter h).1
    unregistered : (h : Hub) (channel : ℕ) → Reached h → Reached (unregister channel h)
    sent : (h : Hub) (raw : List ℕ) → Reached h → Reached (broadcast parse_envelope raw h)
    read : (h : Hub) (channel : ℕ) → Reached h → Reached (receive channel h)

-- A client of a hub that has made `n` channels: its channel is one of them and not over-full, and no
-- later client of the list has the same.
abbrev pub IsSound : ℕ → Client → Type 0
IsSound n c = (c.channel < n) × (length c.buffer ≤ capacity)

abbrev AllSound : ℕ → List Client → Type 0
AllSound n [] = Unit
AllSound n (c ∷ cs) = IsSound n c × AllSound n cs

weaken : (n : ℕ) (cs : List Client) → AllSound n cs → AllSound (n + 1) cs
weaken n [] h = tt
weaken n (c ∷ cs) (s, rest) = ((omega arith, s.1), weaken n cs rest)

without-AllSound :
    (n channel : ℕ) (cs : List Client) → AllSound n cs → AllSound n (without channel cs)
unfolding without
without-AllSound n channel [] h = tt
without-AllSound n channel (c ∷ cs) (s, rest) = elim (Bool-cases (c.channel == channel)) [
  | inl same ↦ rw same (without-AllSound n channel cs rest)
  | inr other ↦ rw other (s, without-AllSound n channel cs rest)
]

offer-IsSound :
    (n : ℕ) (source_id : String) (m : Message) (c : Client)
    → IsSound n c
    → IsSound n (offer source_id m c)
unfolding offer
offer-IsSound n source_id m c (made, small) =
    elim (Bool-cases (wants source_id c && ltb (length c.buffer) capacity)) [
      | inl room ↦ rw room (
        made,
        let space : length c.buffer < 64 = ground arith in
            omega (arith, length-append c.buffer (m ∷ [])),
      )
      | inr full ↦ rw full (made, small)
    ]

offer-AllSound :
    (n : ℕ) (source_id : String) (m : Message) (cs : List Client)
    → AllSound n cs
    → AllSound n (map (offer source_id m) cs)
offer-AllSound n source_id m [] h = tt
offer-AllSound n source_id m (c ∷ cs) (s, rest) =
    (offer-IsSound n source_id m c s, offer-AllSound n source_id m cs rest)

take_first-length : (ms : List Message) → length (take_first ms) ≤ length ms
take_first-length [] = omega arith
take_first-length (m ∷ ms) = omega arith

receive_from-AllSound :
    (n channel : ℕ) (cs : List Client) → AllSound n cs → AllSound n (receive_from channel cs)
unfolding receive_from
receive_from-AllSound n channel [] h = tt
receive_from-AllSound n channel (c ∷ cs) (s, rest) = elim (Bool-cases (c.channel == channel)) [
  | inl same ↦ rw same ((s.0, omega (arith, take_first-length c.buffer)), rest)
  | inr other ↦ rw other (s, receive_from-AllSound n channel cs rest)
]

module _ (parse_envelope : List ℕ → Option (Message × String)) where
  broadcast-AllSound :
      (h : Hub) (parsed : Option (Message × String))
      → AllSound h.next_channel h.clients
      → AllSound
          (broadcast_parsed parse_envelope parsed h).next_channel
          (broadcast_parsed parse_envelope parsed h).clients
  broadcast-AllSound h none sound = sound
  broadcast-AllSound h (some (m, source_id)) sound =
      offer-AllSound h.next_channel source_id m h.clients sound

  reached-AllSound : (h : Hub) → Reached parse_envelope h → AllSound h.next_channel h.clients
  unfolding register unregister broadcast receive
  reached-AllSound _ started = tt
  reached-AllSound _ (registered h source_filter r) =
      ((omega arith, omega arith), weaken h.next_channel h.clients (reached-AllSound h r))
  reached-AllSound _ (unregistered h channel r) =
      without-AllSound h.next_channel channel h.clients (reached-AllSound h r)
  reached-AllSound _ (sent h raw r) =
      broadcast-AllSound h (parse_envelope raw) (reached-AllSound h r)
  reached-AllSound _ (read h channel r) =
      receive_from-AllSound h.next_channel channel h.clients (reached-AllSound h r)

found-IsSound : (n : ℕ) (cs : List Client) (c : Client) → AllSound n cs → In c cs → IsSound n c
found-IsSound n [] d s i = elim i [ ]
found-IsSound n (c ∷ cs) _ (s, rest) head = s
found-IsSound n (c ∷ cs) d (s, rest) (tail i) = found-IsSound n cs d rest i

-- In every hub that a run reaches, each client's channel is one that was made, and at most 64
-- messages wait in it, however many are broadcast and however slowly the clients read.
pub reached_sound :
    (parse_envelope : List ℕ → Option (Message × String)) (h : Hub)
    → Reached parse_envelope h
    → (c : Client) → In c h.clients
    → (c.channel < h.next_channel) × (length c.buffer ≤ 64)
reached_sound parse_envelope h r c i =
    found-IsSound h.next_channel h.clients c (reached-AllSound parse_envelope h r) i

map-In : (f : Client → Client) (c : Client) (cs : List Client) → In c cs → In (f c) (map f cs)
map-In f c [] i = elim i [ ]
map-In f c (_ ∷ cs) head = head
map-In f c (_ ∷ cs) (tail i) = tail (map-In f c cs i)

offer-wanted :
    (source_id : String) (m : Message) (c : Client)
    → (c.source_filter ≡ "") ⊎ (source_id ≡ "") ⊎ (c.source_filter ≡ source_id)
    → length c.buffer < 64
    → offer source_id m c ≡ record c { buffer = c.buffer ++ m ∷ [] }
unfolding offer wants
offer-wanted source_id m c wanted room =
    ground (arith, eq_iff c.source_filter "", eq_iff source_id "", eq_iff c.source_filter source_id)

offer-unwanted :
    (source_id : String) (m : Message) (c : Client)
    → (c.source_filter ≢ "") × (source_id ≢ "") × (c.source_filter ≢ source_id)
      ⊎ (64 ≤ length c.buffer)
    → offer source_id m c ≡ c
unfolding offer wants
offer-unwanted source_id m c unwanted =
    ground (arith, eq_iff c.source_filter "", eq_iff source_id "", eq_iff c.source_filter source_id)

-- A broadcast reaches each client that takes messages of this source and has room, as the last
-- message of its channel. To any other client nothing happens.
pub broadcast_lem :
    (parse_envelope : List ℕ → Option (Message × String)) (raw : List ℕ) (m : Message)
    (source_id : String) (h : Hub) (c : Client)
    → parse_envelope raw ≡ some (m, source_id)
    → In c h.clients
    → ((c.source_filter ≡ "") ⊎ (source_id ≡ "") ⊎ (c.source_filter ≡ source_id)
        → length c.buffer < 64
        → In (record c { buffer = c.buffer ++ m ∷ [] }) (broadcast parse_envelope raw h).clients)
      × ((c.source_filter ≢ "") × (source_id ≢ "") × (c.source_filter ≢ source_id)
            ⊎ (64 ≤ length c.buffer)
          → In c (broadcast parse_envelope raw h).clients)
unfolding broadcast
broadcast_lem parse_envelope raw m source_id h c e i = rw e (
    let offered = map-In (offer source_id m) c h.clients i in
    (
      λ wanted room.
          subst (λ d. In d (map (offer source_id m) h.clients))
            (offer-wanted source_id m c wanted room) offered,
      λ unwanted.
          subst (λ d. In d (map (offer source_id m) h.clients))
            (offer-unwanted source_id m c unwanted) offered,
    ))
