-- ===== src/Messaging/Tests/System.antt =====
-- A run of the messaging service from its start, and the invariant at it.
use ziyad_messenger.Base.{true, refl, [], none, some}
use ziyad_messenger.Messaging.Store.{Router, ok}
use ziyad_messenger.Messaging.Handlers.{ws_message, send_handler, handle_ws}
use ziyad_messenger.Messaging.System.Tables.{IsConsistent}
use ziyad_messenger.Messaging.System.Operations.{IsGood}
use ziyad_messenger.Messaging.System.Runs.{
  new_message_router, RouterRun, start, then_step, ws, send, frame, Run-IsGood,
}
use ziyad_messenger.Messaging.Tests.{messaging, seeded, idle, env, named, ask, post, say}

seeded-IsConsistent : IsConsistent seeded
unfolding messaging handle_ws
seeded-IsConsistent = record {
  channels = (refl, (refl, tt));
  members = (refl, (refl, tt));
  messages = (refl, tt);
  members_refer = ((refl, refl), ((refl, refl), tt));
  messages_refer = ((refl, refl), tt);
}

-- Bob connects.
abbrev connected : Router
connected = (handle_ws named "" (ask "Bearer bob" "") env true idle).1

-- Charlie writes to him over HTTP, which makes their channel.
abbrev written_to : Router
written_to = (send_handler named "" (post "Bearer charlie" "") (ok (say "u-bob")) env connected).1

-- Bob answers on his connection, to everyone.
abbrev answered : Router
answered = ws_message "u-bob" (some (say "general")) (record { now = 10; uuid = "m-3" }) written_to

three_steps : RouterRun named "" idle answered
unfolding messaging handle_ws
three_steps =
    then_step
      (then_step (then_step start (ws (ask "Bearer bob" "") env true))
        (send (post "Bearer charlie" "") (ok (say "u-bob")) env))
      (frame "u-bob" (some (say "general")) (record { now = 10; uuid = "m-3" }) _ refl)

Run-IsGood_example : IsGood seeded.users answered
unfolding messaging new_message_router
Run-IsGood_example =
    Run-IsGood named "" none none seeded [] {r = idle} {q = answered} seeded-IsConsistent refl
      three_steps
