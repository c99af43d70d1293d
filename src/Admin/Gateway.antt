-- ===== src/Admin/Gateway.antt =====
-- Everything that backend/admin-api/cmd/server/main.go serves under /admin: the answer to OPTIONS, the login, and the
-- group behind `JWTAuth` and `RequireAdmin`, which has the routes of Server, `Overview`, the routes of System, and
-- `HandleWS` of backend/admin-api/internal/websocket/handler.go.
-- The framework finds the route. A reading of the runtime comes with the request that shows it.
use ziyad_messenger.Base.{
  ℕ, String, Bool, true, false, List, [], ◌∷◌, ◌++◌, Option, none, some, ◌==◌, ◌≡◌, ◌⊎◌, inl, inr,
  refl, arith, if◌then◌else◌,
}
use ziyad_messenger.Base.Http.{Response, http_error, reply}
use ziyad_messenger.Base.State.{Result, ok, err}
use ziyad_messenger.Admin.Store.{Service, Stop, Claims, Ctx}
use ziyad_messenger.Admin.Auth.{Packages, LoginRequest, LoginResponse, login_handler, parse_token}
use ziyad_messenger.Admin.Roles.{Json}
use ziyad_messenger.Admin.Server.{Call, Body, admit, serve}
use ziyad_messenger.Admin.Server.Access.{IsAdmin, admit-IsAdmin, admit-eq-err, serve-IsAdmin}
use ziyad_messenger.Admin.Monitoring.{Host, World, Cached, OverviewResponse, overview}
use ziyad_messenger.Admin.Observability.{MetricsStore}
use ziyad_messenger.Admin.System.{
  HealthResponse, MetricsResponse, ClusterStatus, system_metrics, cluster_status,
}
use ziyad_messenger.Admin.Hub.{Client}

-- The tables, the cache of `Overview`, and the clients that were handed to the hub, the last one last.
pub record Gateway : Type 0 where
  pub service : Service
  pub cache : Cached
  pub arrived : List Client

-- What a connection to /ws brings: its token in the query, whether the library takes it over, its number and new id.
pub record Connection : Type 0 where
  pub query_token : String
  pub upgraded : Bool
  pub conn : ℕ
  pub id : String

pub data Request : Type 0 where
  options : Request
  missing : Request
  login : Option LoginRequest → Request
  tables : Call → Request
  monitoring_overview : World → Request
  health : HealthResponse → Request
  metrics : MetricsStore → Request
  cluster : Request
  ws : Connection → Request

pub data Answer : Type 0 where
  no_content : Answer
  session : LoginResponse → Answer
  body : Body → Answer
  seen : Option OverviewResponse → Answer
  running : HealthResponse → Answer
  measured : MetricsResponse → Answer
  nodes : ClusterStatus → Answer
  switched : Answer

abbrev answered : {A : Type 0} → (A → Answer) → Response A → Response Answer
answered f (http_error text code) = http_error text code
answered f (reply code a) = reply code (f a)

abbrev finished : Result Stop LoginResponse → Response Answer
finished (ok a) = reply 200 (session a)
finished (err (text, code)) = http_error text code

-- The handlers of the group run behind its middleware.
abbrev behind :
    Result Stop Claims
    → (Claims → Gateway → Response Answer × Gateway)
    → Gateway
    → Response Answer × Gateway
behind (err (text, code)) next g = (http_error text code, g)
behind (ok who) next g = next who g

module _ (pk : Packages) (env : String) where
  -- The caller's claims in `HandleWS`: those of the middleware, or else those of the query's token.
  unfoldable pub ws_claims : Option Claims → String → ℕ → Option Claims
  ws_claims (some who) query now = some who
  ws_claims none query now =
      if query == ""
      then none
      else elim (parse_token pk env now query) [ ok who ↦ some who | err e ↦ none ]

  abbrev taken_over : Option Claims → Connection → Gateway → Response Answer × Gateway
  taken_over none c g = (http_error "" 401, g)
  taken_over (some who) c g =
      if c.upgraded
      then (
        reply 101 switched,
        record g {
          arrived = g.arrived ++ record { conn = c.conn; id = c.id; user_id = who.user_id } ∷ [];
        },
      )
      else (http_error "Bad Request" 400, g)

  unfoldable pub serve_ws : Option Claims → Connection → ℕ → Gateway → Response Answer × Gateway
  unfolding ws_claims
  serve_ws claims c now g = taken_over (ws_claims claims c.query_token now) c g

  module _ (json : Json) (host : Host) where
    unfoldable pub serve_admin : Request → String → Ctx → Gateway → Response Answer × Gateway
    unfolding serve_ws
    serve_admin options authorization ctx g = (reply 204 no_content, g)
    serve_admin missing authorization ctx g = (http_error "404 page not found" 404, g)
    serve_admin (login b) authorization ctx g =
        let (r, s) = login_handler pk env b ctx g.service in (finished r, record g { service = s })
    serve_admin (tables call) authorization ctx g =
        let (r, s) = serve pk json env authorization call ctx g.service in
        (answered body r, record g { service = s })
    serve_admin (monitoring_overview w) authorization ctx g =
        behind (admit pk env ctx.now authorization)
          (λ who g'.
            let (shown, cache) = overview host w g'.cache in
            (reply 200 (seen shown), record g' { cache = cache }))
          g
    serve_admin (health now) authorization ctx g =
        behind (admit pk env ctx.now authorization) (λ who g'. (reply 200 (running now), g')) g
    serve_admin (metrics store) authorization ctx g =
        behind (admit pk env ctx.now authorization)
          (λ who g'. (reply 200 (measured (system_metrics ctx.now store)), g')) g
    serve_admin cluster authorization ctx g =
        behind (admit pk env ctx.now authorization)
          (λ who g'. (reply 200 (nodes (cluster_status ctx.now)), g')) g
    serve_admin (ws c) authorization ctx g =
        behind (admit pk env ctx.now authorization) (λ who g'. serve_ws (some who) c ctx.now g') g

    -- What is answered without a look at the header: OPTIONS, the login, and a path without a route.
    abbrev pub is_open : Request → Bool
    is_open options = true
    is_open missing = true
    is_open (login b) = true
    is_open _ = false

    -- The request is refused with a 401 or a 403, and everything is as it was.
    abbrev pub Turned : Response Answer × Gateway → Gateway → Type 0
    Turned (x, g') g =
        (text : String) × ((x ≡ http_error text 401) ⊎ (x ≡ http_error text 403)) × (g' ≡ g)

    behind-IsAdmin :
        (authorization : String) (now : ℕ) (x : Result Stop Claims)
        (next : Claims → Gateway → Response Answer × Gateway) (g : Gateway)
        → admit pk env now authorization ≡ x
        → ((who : Claims) × IsAdmin pk env now authorization who) ⊎ Turned (behind x next g) g
    behind-IsAdmin authorization now (ok who) next g e =
        inl (who, admit-IsAdmin pk env now authorization who e)
    behind-IsAdmin authorization now (err (text, code)) next g e =
        inr (text, ground (arith, admit-eq-err pk json env now authorization text code e), refl)

    -- Each request under /admin is an OPTIONS, a login, or for a path without a route; or it comes with an
    -- administrator's token that is valid; or it is refused with a 401 or a 403 and changes nothing: neither a table,
    -- the log of actions included, nor the cache of the overview, nor who has come to the hub.
    pub serve_admin-IsAdmin :
        (req : Request) (authorization : String) (ctx : Ctx) (g : Gateway)
        → (is_open req ≡ true)
          ⊎ (((who : Claims) × IsAdmin pk env ctx.now authorization who)
              ⊎ Turned (serve_admin req authorization ctx g) g)
    unfolding serve_admin
    serve_admin-IsAdmin options authorization ctx g = inl refl
    serve_admin-IsAdmin missing authorization ctx g = inl refl
    serve_admin-IsAdmin (login b) authorization ctx g = inl refl
    serve_admin-IsAdmin (tables call) authorization ctx g =
        elim (serve-IsAdmin pk json env authorization call ctx g.service) [
          | inl admin ↦ inr (inl admin)
          | inr (text, refused, same) ↦ inr (inr (text, ground (arith, refused), rw same refl))
        ]
    serve_admin-IsAdmin (monitoring_overview w) authorization ctx g =
        inr (behind-IsAdmin authorization ctx.now _ _ g refl)
    serve_admin-IsAdmin (health now) authorization ctx g =
        inr (behind-IsAdmin authorization ctx.now _ _ g refl)
    serve_admin-IsAdmin (metrics store) authorization ctx g =
        inr (behind-IsAdmin authorization ctx.now _ _ g refl)
    serve_admin-IsAdmin cluster authorization ctx g =
        inr (behind-IsAdmin authorization ctx.now _ _ g refl)
    serve_admin-IsAdmin (ws c) authorization ctx g =
        inr (behind-IsAdmin authorization ctx.now _ _ g refl)
