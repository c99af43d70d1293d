-- ===== src/Presence/Tests.antt =====
-- A day of one user.
use ziyad_messenger.Base.{◌*◌, ◌≡◌, refl, List, [], ◌∷◌, some, true, false, arith}
use ziyad_messenger.Base.Assoc.{lookup, insert}
use ziyad_messenger.Base.Http.{reply}
use ziyad_messenger.Presence.{
  second, status_busy, heartbeat_handler, is_stale, status_handler, expire, cleanup,
}
use ziyad_messenger.Presence.Laws.{
  Event, heartbeat, tick, step, run, last_beat, status-eq-last_beat,
}

presence : Unit {0}
unfolding heartbeat_handler is_stale status_handler expire cleanup step run last_beat lookup insert
presence = tt

-- Ann is busy at second 100; a heartbeat at 120 fails in the engine; the table is swept at 130.
abbrev day : List Event
day =
    heartbeat "POST" (some (record { user_id = "ann"; status = status_busy })) false (100 * second)
    ∷ heartbeat "POST" (some (record { user_id = "ann"; status = 1 })) true (120 * second)
    ∷ tick false (130 * second)
    ∷ []

status-eq-last_beat_example :
    status_handler "ann" false (150 * second) (run day [])
    ≡ reply 200 (record { user_id = "ann"; status = status_busy; last_seen = 100 })
unfolding presence
status-eq-last_beat_example =
    status-eq-last_beat "ann" (150 * second) day refl
      (omega arith, (omega arith, (omega arith, tt)))

status_stale :
    status_handler "ann" false (161 * second) (run day [])
    ≡ reply 200 (record { user_id = "ann"; status = 0; last_seen = 100 })
unfolding presence
status_stale = refl
