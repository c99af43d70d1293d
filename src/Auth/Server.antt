-- ===== src/Auth/Server.antt =====
-- The server of backend/services/auth/main.go: `authLimiter`, the tracing behind it, and the mux of `main`.
pub mod Accounts
pub mod Defaults
use ziyad_messenger.Base.{ℕ, String, Bool, List, [], ◌∷◌, Option}
use ziyad_messenger.Base.Http.{Response}
use ziyad_messenger.RateLimiter.{IpRateLimiter, new_ip_rate_limiter}
use ziyad_messenger.Trace.{Request, Traced}
use ziyad_messenger.Services.{Route, Call, Mux, serve_limited, health, as_answer}
use ziyad_messenger.Auth.Password.{Crypto}
use ziyad_messenger.Auth.{
  Claims, Db, Env, LoginRequest, RegisterRequest, Session, register_handler, login_handler,
}

unfoldable pub auth_limiter : IpRateLimiter
auth_limiter = new_ip_rate_limiter 60 60000000000

abbrev pub default_auth_body_limit : ℕ
default_auth_body_limit = 1048576

-- What the handlers take from outside: the body as each decodes it under the bound, and what Auth names.
pub record Outside : Type 0 where
  pub register : ℕ → Option RegisterRequest
  pub login : ℕ → Option LoginRequest
  pub env : Env
  pub fault : Bool
  pub now : ℕ

pub data Answer : Type 0 where
  registered : String → Answer
  session : Session → Answer
  running : String → Answer

module _ (k : Crypto) (sign : Claims → Option String) where
  abbrev pub register_route : Outside → Request → Db → Response Answer × Db
  register_route p req d =
      let (r, d') = register_handler k req.method (p.register req.body_limit) p.env d in
      (as_answer registered r, d')

  abbrev pub login_route : Outside → Request → Db → Response Answer × Db
  login_route p req d = (
    as_answer session (login_handler k sign req.method (p.login req.body_limit) p.fault p.now d),
    d,
  )

  -- A request's id falls back to a fresh UUID.
  unfoldable pub auth_service : Mux Outside Answer Db
  auth_service = record {
    name = "auth";
    fallback = λ fresh. fresh;
    routes =
        record {
          pattern = "/register";
          name = "register";
          max_body = default_auth_body_limit;
          handler = register_route;
        }
        ∷ record {
          pattern = "/login";
          name = "login";
          max_body = default_auth_body_limit;
          handler = login_route;
        }
        ∷ record {
          pattern = "/health";
          name = "health";
          max_body = 0;
          handler = health running "Auth Service is running";
        }
        ∷ [];
  }

  unfoldable pub serve_auth :
      Call Outside → IpRateLimiter × Db → Option (Traced Answer) × (IpRateLimiter × Db)
  serve_auth c s = serve_limited auth_service c s
