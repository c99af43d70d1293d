-- ===== src/Presence.antt =====
-- backend/services/presence/main.go: the table `user_presence`, `HeartbeatHandler`, `StatusHandler`
-- and one tick of `CleanupLoop`. The clock counts nanoseconds. `fault` says whether the engine fails
-- at the call's statement. A status is the `int` that JSON brings; the negative ones are left out.
pub mod Laws
pub mod Server
mod Tests
use ziyad_messenger.Base.{
  ℕ, ◌+◌, ◌-◌, ◌*◌, ◌/◌, String, Bool, true, false, not, List, [], ◌∷◌, Option, none, some, ◌==◌,
  ltb, if◌then◌else◌,
}
use ziyad_messenger.Base.Assoc.{lookup, insert}
use ziyad_messenger.Base.Http.{
  Response, http_error, reply, status_ok, status_bad_request, status_method_not_allowed,
  status_internal_server_error,
}

abbrev pub status_offline : ℕ
status_offline = 0

abbrev pub status_online : ℕ
status_online = 1

abbrev pub status_busy : ℕ
status_busy = 2

abbrev pub status_away : ℕ
status_away = 3

-- The body of a heartbeat.
pub record ValidationRequest : Type 0 where
  pub user_id : String
  pub status : ℕ

-- The columns behind the key `user_id`, times in seconds.
pub record UserPresence : Type 0 where
  pub status : ℕ
  pub last_seen : ℕ
  pub updated_at : ℕ

-- What /status answers.
pub record StatusReport : Type 0 where
  pub user_id : String
  pub status : ℕ
  pub last_seen : ℕ

abbrev pub Table : Type 0
Table = List (String × UserPresence)

abbrev pub second : ℕ
second = 1000000000

abbrev pub minute : ℕ
minute = 60000000000

-- `time.Now().Unix()`
abbrev pub unix : ℕ → ℕ
unix now = now / second

-- INSERT … ON CONFLICT(user_id) DO UPDATE
abbrev upsert : ValidationRequest → ℕ → Table → Table
upsert req now t =
    insert req.user_id (record { status = req.status; last_seen = now; updated_at = now }) t

abbrev beat : Option ValidationRequest → Bool → ℕ → Table → Response (Unit {0}) × Table
beat none fault now t = (http_error "Invalid body" status_bad_request, t)
beat (some req) fault now t =
    if req.user_id == ""
    then (http_error "Missing user_id" status_bad_request, t)
    else if fault
    then (http_error "DB error" status_internal_server_error, t)
    else (reply status_ok tt, upsert req (unix now) t)

unfoldable pub heartbeat_handler :
    String → Option ValidationRequest → Bool → ℕ → Table → Response (Unit {0}) × Table
heartbeat_handler method body fault now t =
    if method == "POST"
    then beat body fault now t
    else (http_error "Method not allowed" status_method_not_allowed, t)

-- `time.Since(lastSeen) > 1*time.Minute`
unfoldable pub is_stale : ℕ → ℕ → Bool
is_stale last_seen now = ltb (last_seen * second + minute) now

abbrev reported : String → ℕ → Option UserPresence → StatusReport
reported user_id now none = record { user_id = user_id; status = status_offline; last_seen = 0 }
reported user_id now (some p) = record {
  user_id = user_id;
  status = if is_stale p.last_seen now then status_offline else p.status;
  last_seen = p.last_seen;
}

unfoldable pub status_handler : String → Bool → ℕ → Table → Response StatusReport
status_handler user_id fault now t =
    if user_id == ""
    then http_error "Missing user_id" status_bad_request
    else if fault
    then http_error "DB error" status_internal_server_error
    else reply status_ok (reported user_id now (lookup user_id t))

-- UPDATE user_presence SET status = ? WHERE last_seen < ?
unfoldable pub expire : ℕ → Table → Table
expire cutoff [] = []
expire cutoff ((u, p) ∷ t) =
    let rest = expire cutoff t in
    if ltb p.last_seen cutoff
    then (u, record p { status = status_offline }) ∷ rest
    else (u, p) ∷ rest

-- One tick. An error is ignored.
unfoldable pub cleanup : Bool → ℕ → Table → Table
unfolding expire
cleanup fault now t = if fault then t else expire (unix (now - minute)) t
