-- ===== src/Messaging/Tests/Clients.antt =====
-- The theorems on the clients and the history, at the router of the tests.
use mathlib.Core.List.{Perm}
use ziyad_messenger.Base.Order.Laws.{InOrder}
use ziyad_messenger.Base.{ℕ, zero, suc, String, ◌≡◌, refl, List, [], ◌∷◌, some, take, select}
use ziyad_messenger.Protocol.{Message}
use ziyad_messenger.Messaging.Store.{Client, Router}
use ziyad_messenger.Messaging.Queries.{channel_type_row, history_rows}
use ziyad_messenger.Messaging.Queries.History.{in_channel, timestamp, history_rows_lem}
use ziyad_messenger.Messaging.Clients.{register, unregister, broadcast}
use ziyad_messenger.Messaging.Clients.Laws.{
  registers, unregisters, broadcasts, ClientRun, start, then_step,
}
use ziyad_messenger.Messaging.Clients.Delivery.{IsDelivered, broadcast-IsDelivered}
use ziyad_messenger.Messaging.Tests.{messaging, m_1, seeded, idle}

-- Two connections, of alice and of charlie; a message to the private channel; charlie leaves.
abbrev alice_online : Router
alice_online = (register "u-alice" idle).1

abbrev both_online : Router
both_online = (register "u-charlie" alice_online).1

abbrev both_told : Router
both_told = (broadcast m_1 both_online).1

abbrev charlie_client : Client
charlie_client = record { user_id = "u-charlie"; conn = 1; send = [] }

abbrev one_left : Router
one_left = unregister charlie_client both_told

visits : ClientRun idle one_left
unfolding messaging
visits =
    then_step
      (then_step
        (then_step (then_step start (registers "u-alice" idle))
          (registers "u-charlie" alice_online))
        (broadcasts m_1 both_online both_told refl))
      (unregisters charlie_client both_told)

one_left_lem :
    (one_left.clients
      ≡ ("u-alice", record { user_id = "u-alice"; conn = 0; send = m_1 ∷ [] } ∷ []) ∷ [])
    × (one_left.closed ≡ 1 ∷ [])
unfolding messaging
one_left_lem = (refl, refl)

broadcast-IsDelivered_example :
    (type : String) × (channel_type_row "priv-1" seeded ≡ some type)
    × (both_told.db ≡ seeded)
    × ((u : String) → IsDelivered m_1 type both_online both_told u)
unfolding messaging
broadcast-IsDelivered_example =
    broadcast-IsDelivered m_1 both_online {r' = both_told} (refl, (refl, tt)) refl

history_rows_lem_example :
    (sorted : List Message) × Perm sorted (select (in_channel "priv-1") (m_1 ∷ []))
    × InOrder timestamp sorted
    × (history_rows "priv-1" (m_1 ∷ []) ≡ take 100 sorted)
history_rows_lem_example = history_rows_lem "priv-1" (m_1 ∷ [])

abbrev repeated : ℕ → List Message
repeated zero = []
repeated (suc n) = m_1 ∷ repeated n
