-- ===== src/Sse.antt =====
-- internal/sse/hub.go: the clients of the event stream. A channel is an identifier with the messages
-- that wait in it. The decoding of an envelope is a parameter.
pub mod Buffers
use webhook_mind.Prelude.{
  Bool, List, Option, String, [], if◌then◌else◌, length, ltb, map, none, not, some, str_eq, ℕ, ◌&&◌,
  ◌++◌, ◌+◌, ◌==◌, ◌∷◌,
}

pub record Message : Type 0 where
  pub type : String
  pub payload : List ℕ

-- A client's channel, its filter by source ("" for all), and the messages that wait.
pub record Client : Type 0 where
  pub channel : ℕ
  pub source_filter : String
  pub buffer : List Message

-- The clients, and the next channel that is made.
pub record Hub : Type 0 where
  pub clients : List Client
  pub next_channel : ℕ

abbrev pub new_hub : Hub
new_hub = record { clients = []; next_channel = 0 }

-- The capacity of a channel.
abbrev pub capacity : ℕ
capacity = 64

-- `Register`
unfoldable pub register : String → Hub → ℕ × Hub
register source_filter h = (
  h.next_channel,
  record {
    clients =
        record { channel = h.next_channel; source_filter = source_filter; buffer = [] } ∷ h.clients;
    next_channel = h.next_channel + 1;
  },
)

unfoldable pub without : ℕ → List Client → List Client
without channel [] = []
without channel (c ∷ cs) =
    let rest = without channel cs in if c.channel == channel then rest else c ∷ rest

-- `Unregister`
unfoldable pub unregister : ℕ → Hub → Hub
unfolding without
unregister channel h = record h { clients = without channel h.clients }

-- A client that filters by another source is passed over.
unfoldable pub wants : String → Client → Bool
wants source_id c = not (
    not (str_eq c.source_filter "")
    && not (str_eq source_id "")
    && not (str_eq c.source_filter source_id))

-- The `select` of `Broadcast`: a full channel drops the message.
unfoldable pub offer : String → Message → Client → Client
unfolding wants
offer source_id m c =
    if wants source_id c && ltb (length c.buffer) capacity
    then record c { buffer = c.buffer ++ m ∷ [] }
    else c

-- `ClientCount`
abbrev pub client_count : Hub → ℕ
client_count h = length h.clients

-- A message with the source it is about, "" if it names none.
module _ (parse_envelope : List ℕ → Option (Message × String)) where
  abbrev pub broadcast_parsed : Option (Message × String) → Hub → Hub
  broadcast_parsed none h = h
  broadcast_parsed (some (m, source_id)) h = record h {
    clients = map (offer source_id m) h.clients;
  }

  -- `Broadcast`
  unfoldable pub broadcast : List ℕ → Hub → Hub
  unfolding offer
  broadcast raw_payload h = broadcast_parsed (parse_envelope raw_payload) h

-- The client's handler reads the oldest message of its channel.
abbrev pub take_first : List Message → List Message
take_first [] = []
take_first (m ∷ ms) = ms

unfoldable pub receive_from : ℕ → List Client → List Client
receive_from channel [] = []
receive_from channel (c ∷ cs) =
    let rest = receive_from channel cs in
    if c.channel == channel then record c { buffer = take_first c.buffer } ∷ cs else c ∷ rest

unfoldable pub receive : ℕ → Hub → Hub
unfolding receive_from
receive channel h = record h { clients = receive_from channel h.clients }
