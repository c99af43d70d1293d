-- ===== src/Auth/Tests/Server.antt =====
-- The auth service's server at requests, and the theorems on its accounts.
use ziyad_messenger.Base.{ℕ, String, false, ◌≡◌, refl, if◌then◌else◌, List, [], ◌∷◌, none, some}
use ziyad_messenger.Base.Http.{reply, http_error}
use ziyad_messenger.Trace.{Request, Traced, client_ip}
use ziyad_messenger.RateLimiter.{allow}
use ziyad_messenger.Base.Text.{trim_space, split_host_port}
use ziyad_messenger.Services.{Call, serve_all}
use ziyad_messenger.Auth.{Db}
use ziyad_messenger.Auth.Server.{Outside, Answer, session, auth_limiter, auth_service, serve_auth}
use ziyad_messenger.Auth.Server.Accounts.{Grown, serve_all-Grown, serve_auth-serve_all}
use ziyad_messenger.Auth.Server.Defaults.{seed, seed-stays}
use ziyad_messenger.Auth.Tests.{auth, plain, sane, sign, env, request, empty, registered}

abbrev at_path : String → Request
at_path path = record {
  method = "POST";
  path = path;
  request_id = "";
  forwarded_for = "";
  remote_addr = "10.0.0.7:4000";
  body_limit = 0;
}

abbrev reads : Outside
reads = record {
  register = λ limit. some (record request { username = "eve"; role = "r-1" });
  login = λ limit. none;
  env = record env { uuid = "u-5" };
  fault = false;
  now = 50;
}

abbrev sent_to : ℕ → String → Call Outside
sent_to now path = record {
  now = now;
  request = at_path path;
  random = some "00ff";
  fresh = "f";
  payload = reads;
}

-- Somebody registers, twice, and looks at the health; a path that the mux does not know.
abbrev traffic : List (Call Outside)
traffic =
    sent_to 1 "/register" ∷ sent_to 2 "/register" ∷ sent_to 3 "/health" ∷ sent_to 4 "/nothing" ∷ []

-- A login behind it.
abbrev login_call : String → String → Call Outside
login_call username password = record (sent_to 9 "/login") {
  payload = record reads {
    login = λ limit. some (record { username = username; password = password });
    now = 77;
  };
}

serve_auth-serve_all_example :
    let q = (serve_all (auth_service plain sign) traffic (auth_limiter, registered)).1 in
    (t : Traced Answer) × ((serve_auth plain sign (login_call " ann " "longenough") q).0 ≡ some t)
    × (t.response ≡ (
        if (allow q.0 9 "10.0.0.7").0
        then reply 200 (session (record { token = "ann/member"; user_id = "u-9"; role = "member" }))
        else http_error "Too many requests" 429))
unfolding auth client_ip trim_space split_host_port
serve_auth-serve_all_example =
    serve_auth-serve_all plain sign (login_call " ann " "longenough")
      (record { username = " ann "; password = "longenough" }) 77 200
      (record { token = "ann/member"; user_id = "u-9"; role = "member" }) traffic auth_limiter
      registered (record { path = refl; body = refl; answered = refl; clock = refl }) refl

serve_all-Grown_example :
    Grown registered (serve_all (auth_service plain sign) traffic (auth_limiter, registered)).1.1
serve_all-Grown_example = serve_all-Grown plain sign traffic auth_limiter registered

abbrev started : Db
started = (seed plain false env empty).1

seed-stays_example :
    let q = (serve_all (auth_service plain sign) traffic (auth_limiter, started)).1 in
    (t : Traced Answer) × ((serve_auth plain sign (login_call "admin" "password") q).0 ≡ some t)
    × (t.response ≡ (
        if (allow q.0 9 "10.0.0.7").0
        then reply 200 (session (record { token = "admin/admin"; user_id = "u-9"; role = "admin" }))
        else http_error "Too many requests" 429))
unfolding auth seed client_ip trim_space split_host_port
seed-stays_example =
    seed-stays plain sign env empty started 77 "admin/admin" (login_call "admin" "password") traffic
      auth_limiter sane refl refl refl
      (record { path = refl; body = refl; answered = refl; clock = refl }) refl
