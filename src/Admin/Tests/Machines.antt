-- ===== src/Admin/Tests/Machines.antt =====
-- The hub of backend/admin-api/internal/websocket/hub.go with one or two clients.
use ziyad_messenger.Base.{ℕ, String, [], ◌∷◌, map, none, ◌≡◌, refl, arith}
use ziyad_messenger.Admin.Hub.{
  Client, Event, Hub, new_hub, register, send_pending, deliver, receive, Step, Run,
}
use ziyad_messenger.Admin.Hub.Laws.{IsSound, Run-IsSound, new_hub-IsSound}
use ziyad_messenger.Admin.Hub.Liveness.{
  IsSame, stuck, stuck_for_good, put_all, drains, Deliveries, none_taken, taken,
}

abbrev client : ℕ → Client
client n = record { conn = n; id = "c"; user_id = "u" }

abbrev joined : Event
joined = Event.user_connected "u" "c"

-- A client comes, and the event of it is queued and delivered to it.
abbrev with_client : Hub
with_client = deliver joined [] (send_pending joined (register (client 1) new_hub))

Run-IsSound_example : IsSound with_client
unfolding deliver send_pending register new_hub
Run-IsSound_example =
    Run-IsSound {h = new_hub} {h' = with_client}
      (Run.next (Step.registering {h = new_hub} (client 1) refl (refl, refl)) (
        Run.next (Step.sending {h = register (client 1) new_hub} joined refl refl) (
          Run.next
            (Step.delivering {h = send_pending joined (register (client 1) new_hub)} joined [] refl
              refl)
            Run.stop)))
      new_hub-IsSound

abbrev message : Event
message = Event.event "MESSAGE_FLOW" ""

abbrev someone : ℕ → String
someone n = "someone"

stuck_for_good_example :
    Run new_hub (stuck someone) × IsSame (stuck someone) (receive 1 (stuck someone))
stuck_for_good_example =
    stuck_for_good someone (receive 1 (stuck someone)) (Run.next (Step.receiving 1) Run.stop)

abbrev busy : Hub
busy = record {
  clients =
      record { client = client 1; send = [] }
      ∷ record { client = client 2; send = message ∷ [] }
      ∷ [];
  broadcast = joined ∷ message ∷ [];
  pending = none;
  closed = [];
}

drains_example :
    (h : Hub) × Deliveries (deliver joined (message ∷ []) busy) h
    × (h.broadcast ≡ [])
    × (h.clients ≡ map (put_all (joined ∷ message ∷ [])) busy.clients)
drains_example =
    drains refl (omega arith, (omega arith, tt)) (taken joined (message ∷ []) refl refl none_taken)
