-- ===== src/Presence/Laws.antt =====
-- What /status answers after any sequence of heartbeats and cleanups.
use ziyad_messenger.Base.{
  ℕ, ◌+◌, ◌-◌, ◌*◌, ◌≤◌, String, Bool, true, false, not, ◌&&◌, ◌≡◌, refl, ap, ◌∙◌, List, [], ◌∷◌,
  Option, none, some, ◌==◌, arith, ltb, if◌then◌else◌, All,
}
use ziyad_messenger.Base.Assoc.{lookup, lookup-insert}
use ziyad_messenger.Base.Http.{reply}
use ziyad_messenger.Presence.{
  ValidationRequest, UserPresence, StatusReport, Table, second, minute, unix, status_offline,
  heartbeat_handler, is_stale, reported, status_handler, expire, cleanup,
}

-- The steps of the service that change its table, in their order, each with the clock's reading.
pub data Event : Type 0 where
  heartbeat : String → Option ValidationRequest → Bool → ℕ → Event
  tick : Bool → ℕ → Event

abbrev pub time : Event → ℕ
time (heartbeat method body fault now) = now
time (tick fault now) = now

unfoldable pub step : Event → Table → Table
step (heartbeat method body fault now) t = (heartbeat_handler method body fault now t).1
step (tick fault now) t = cleanup fault now t

unfoldable pub run : List Event → Table → Table
run [] t = t
run (e ∷ es) t = run es (step e t)

-- The specification knows no table and no cleanup: it is the status and the second of the user's last
-- heartbeat that was accepted.
abbrev beat_of : String → Option ValidationRequest → Bool → ℕ → Option (ℕ × ℕ) → Option (ℕ × ℕ)
beat_of user none fault now o = o
beat_of user (some req) fault now o =
    if not (req.user_id == "") && (not fault) && (req.user_id == user)
    then some (req.status, unix now)
    else o

unfoldable pub last_beat : String → List Event → Option (ℕ × ℕ) → Option (ℕ × ℕ)
last_beat user [] o = o
last_beat user (tick fault now ∷ es) o = last_beat user es o
last_beat user (heartbeat method body fault now ∷ es) o =
    last_beat user es (if method == "POST" then beat_of user body fault now o else o)

-- A user is shown with the status of the last heartbeat, for a minute from its second on.
abbrev pub shown : String → ℕ → Option (ℕ × ℕ) → StatusReport
shown user now none = record { user_id = user; status = status_offline; last_seen = 0 }
shown user now (some (st, at)) = record {
  user_id = user;
  status = if ltb (at * second + minute) now then status_offline else st;
  last_seen = at;
}

lookup-expire :
    (user : String) (now cutoff : ℕ) (t : Table)
    → cutoff * second ≤ now - minute
    → reported user now (lookup user (expire cutoff t)) ≡ reported user now (lookup user t)
unfolding lookup expire is_stale
lookup-expire user now cutoff [] h = refl
lookup-expire user now cutoff ((u, p) ∷ t) h = ground (arith, lookup-expire user now cutoff t h)

cleanup-reported :
    (user : String) (now at : ℕ) (fault : Bool) (t : Table)
    → at ≤ now
    → reported user now (lookup user (cleanup fault at t)) ≡ reported user now (lookup user t)
unfolding cleanup
cleanup-reported user now at true t h = refl
cleanup-reported user now at false t h = lookup-expire user now (unix (at - minute)) t (omega arith)

heartbeat-reported :
    (user method : String) (body : Option ValidationRequest) (fault : Bool) (at now : ℕ) (t : Table)
    (o : Option (ℕ × ℕ))
    → reported user now (lookup user t) ≡ shown user now o
    → reported user now (lookup user (heartbeat_handler method body fault at t).1)
      ≡ shown user now (if method == "POST" then beat_of user body fault at o else o)
unfolding heartbeat_handler is_stale
heartbeat-reported user method none fault at now t o h = ground arith
heartbeat-reported user method (some req) fault at now t o h =
    let p : UserPresence = record {
      status = req.status;
      last_seen = unix at;
      updated_at = unix at;
    } in
    ground (arith, lookup-insert req.user_id user p t)

run-reported :
    (user : String) (now : ℕ) (es : List Event) (t : Table) (o : Option (ℕ × ℕ))
    → All (λ e. time e ≤ now) es
    → reported user now (lookup user t) ≡ shown user now o
    → reported user now (lookup user (run es t)) ≡ shown user now (last_beat user es o)
unfolding run step last_beat
run-reported user now [] t o past h = h
run-reported user now (tick fault at ∷ es) t o past h =
    run-reported user now es (cleanup fault at t) o past.1
      (cleanup-reported user now at fault t past.0 ∙ h)
run-reported user now (heartbeat method body fault at ∷ es) t o past h =
    run-reported user now es _ _ past.1 (heartbeat-reported user method body fault at now t o h)

-- After any heartbeats and cleanups, at times that are not later than the question's, /status shows a
-- user with the status of the last heartbeat that was accepted, if its second is not more than a
-- minute ago, and else as offline: the cleanups are never seen.
pub status-eq-last_beat :
    (user : String) (now : ℕ) (events : List Event)
    → (user == "") ≡ false
    → All (λ e. time e ≤ now) events
    → status_handler user false now (run events [])
      ≡ reply 200 (shown user now (last_beat user events none))
unfolding status_handler lookup
status-eq-last_beat user now events named past =
    rw named (ap (reply 200) (run-reported user now events [] none past refl))
