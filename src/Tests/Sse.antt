-- ===== src/Tests/Sse.antt =====
-- Runs of the hub of the event stream.
use webhook_mind.Prelude.{
  In, List, Option, String, [], codes, head, if◌then◌else◌, is_empty, length, none, refl, some,
  tail, ℕ, ◌++◌, ◌<◌, ◌∷◌, ◌≡◌, ◌≢◌, ◌≤◌, ◌⊎◌,
}
use webhook_mind.Sse.{Client, Hub, Message, broadcast, new_hub, register, unregister}
use webhook_mind.Sse.Buffers.{Reached, broadcast_lem, reached_sound, registered, started}

abbrev drift_seen : Message
drift_seen = record { type = "schema.drift"; payload = codes "{}" }

-- Every envelope is about the source "s1".
abbrev about_s1 : List ℕ → Option (Message × String)
about_s1 raw = if is_empty raw then none else some (drift_seen, "s1")

abbrev all_sources : Client
all_sources = record { channel = 1; source_filter = ""; buffer = [] }

abbrev only_s2 : Client
only_s2 = record { channel = 0; source_filter = "s2"; buffer = [] }

abbrev two_clients : Hub
two_clients = record { clients = all_sources ∷ only_s2 ∷ []; next_channel = 2 }

two_registered : (register "" (register "s2" new_hub).1).1 ≡ two_clients
unfolding register
two_registered = refl

reached_two : Reached about_s1 two_clients
unfolding register
reached_two = registered (register "s2" new_hub).1 "" (registered new_hub "s2" started)

broadcast_run :
    (unregister 0 (broadcast about_s1 (codes "x") two_clients)).clients
    ≡ record all_sources { buffer = drift_seen ∷ [] } ∷ []
unfolding broadcast unregister
broadcast_run = refl

reached_sound_run : (all_sources.channel < 2) × (length all_sources.buffer ≤ 64)
reached_sound_run = reached_sound about_s1 two_clients reached_two all_sources head

abbrev s1 : String
s1 = "s1"

broadcast_lem_example :
    ((only_s2.source_filter ≡ "") ⊎ (s1 ≡ "") ⊎ (only_s2.source_filter ≡ "s1")
      → length only_s2.buffer < 64
      → In
          (record only_s2 { buffer = only_s2.buffer ++ drift_seen ∷ [] })
          (broadcast about_s1 (codes "x") two_clients).clients)
    × ((only_s2.source_filter ≢ "") × (s1 ≢ "") × (only_s2.source_filter ≢ "s1")
          ⊎ (64 ≤ length only_s2.buffer)
        → In only_s2 (broadcast about_s1 (codes "x") two_clients).clients)
broadcast_lem_example =
    broadcast_lem about_s1 (codes "x") drift_seen "s1" two_clients only_s2 refl (tail head)
