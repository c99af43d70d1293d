-- ===== src/Admin/Tests/Gateway.antt =====
-- A connection to backend/admin-api under /admin/ws with a token that is not valid.
use ziyad_messenger.Base.{[], true, ◌≡◌, ◌⊎◌}
use ziyad_messenger.Admin.Store.{Claims}
use ziyad_messenger.Admin.Server.Access.{IsAdmin}
use ziyad_messenger.Admin.Monitoring.{empty_cache}
use ziyad_messenger.Admin.Gateway.{
  Gateway, Connection, ws, serve_admin, is_open, Turned, serve_admin-IsAdmin,
}
use ziyad_messenger.Admin.Tests.{packages, no_json, ctx, answering_service}
use ziyad_messenger.Admin.Tests.Metrics.{host}

abbrev before : Gateway
before = record { service = answering_service; cache = empty_cache; arrived = [] }

abbrev connection : Connection
connection = record { query_token = "good"; upgraded = true; conn = 1; id = "c" }

serve_admin-IsAdmin_example :
    (is_open packages "" no_json host (ws connection) ≡ true)
    ⊎ (((who : Claims) × IsAdmin packages "" 1000 "Bearer bad" who)
        ⊎ Turned packages "" no_json host
            (serve_admin packages "" no_json host (ws connection) "Bearer bad" ctx before)
            before)
serve_admin-IsAdmin_example =
    serve_admin-IsAdmin packages "" no_json host (ws connection) "Bearer bad" ctx before
