-- ===== src/Auth/Server/Defaults.antt =====
-- The account that `main` makes: `ensureDefaultUser("admin", "password", "admin")`.
use ziyad_messenger.Base.{
  ℕ, String, Bool, true, false, ◌||◌, ◌≡◌, refl, List, [], ◌∷◌, ◌++◌, Option, none, some, ◌==◌,
  arith, any, find, if◌then◌else◌,
}
use ziyad_messenger.Base.Text.{trim_space}
use ziyad_messenger.Base.Http.{reply, http_error}
use ziyad_messenger.RateLimiter.{IpRateLimiter, allow}
use ziyad_messenger.Trace.{Traced, client_ip}
use ziyad_messenger.Services.{Call, serve_all}
use ziyad_messenger.Auth.Password.{
  Crypto, IsSane, hash_password, verify_password, verify_password-hash_password,
}
use ziyad_messenger.Auth.Login.{insert_user-eq-some, find-append_new}
use ziyad_messenger.Auth.{
  Claims, Db, Env, UserRow, defaulted, ensure_default_user, exec_insert, generate_token,
  login_handler, login_row, new_user, role_name,
}
use ziyad_messenger.Auth.Server.{Outside, Answer, session, auth_service, serve_auth}
use ziyad_messenger.Auth.Server.Accounts.{IsLogin, serve_auth-serve_all}

-- What `main` does before it serves.
unfoldable pub seed : Crypto → Bool → Env → Db → Bool × Db
seed k look_fault env d = ensure_default_user k "admin" "password" "admin" look_fault env d

-- The row that a seed has added.
pub record Made (k : Crypto) (env : Env) (d d' : Db) : Type 0 where
  pub salt : List ℕ
  pub hash : String
  pub hashed : hash_password k "password" (some salt) ≡ some hash
  pub fresh : any (λ (x : UserRow). x.id == env.uuid || x.username == "admin") d.users ≡ false
  pub stored :
      d' ≡ record d { users = d.users ++ new_user "admin" "Administrator" hash "admin" env ∷ [] }

inserted_some :
    (o : Option Db) (d d' : Db)
    → ◌≡◌ {A = Bool × Db} (elim o [ none ↦ (false, d) | some q ↦ (true, q) ]) (true, d')
    → o ≡ some d'
inserted_some none d d' h = cc h
inserted_some (some q) d d' h = ground arith

made :
    (k : Crypto) (env : Env) (d d' : Db) (o : Option (List ℕ)) (h : Option String)
    → hash_password k "password" o ≡ h
    → defaulted k h "admin" "admin" env d ≡ (true, d')
    → Made k env d d'
unfolding hash_password new_user
made k env d d' o none f r = cc r
made k env d d' none (some hash) f r = cc f
made k env d d' (some salt) (some hash) f r =
    let u = new_user "admin" "Administrator" hash "admin" env in
    let (fresh, stored) =
      insert_user-eq-some env.fault u d (inserted_some (exec_insert env.fault u d) d d' r) in
    record { salt = salt; hash = hash; hashed = f; fresh = fresh; stored = stored }

seed-Made :
    (k : Crypto) (env : Env) (d d' : Db)
    → any (λ (x : UserRow). x.username == "admin") d.users ≡ false
    → seed k false env d ≡ (true, d')
    → Made k env d d'
unfolding seed ensure_default_user
seed-Made k env d d' new h =
    made k env d d' env.salt (hash_password k "password" env.salt) refl (rw new at h)

made_login :
    (k : Crypto) (sign : Claims → Option String) (env : Env) (d d' : Db) (now : ℕ) (token : String)
    → IsSane k
    → Made k env d d'
    → generate_token k sign "admin" (role_name (some "admin") d.roles) now ≡ some token
    → login_handler k sign "POST"
        (some (record { username = "admin"; password = "password" }))
        false
        now
        d'
      ≡ reply 200
          (record { token = token; user_id = env.uuid; role = role_name (some "admin") d.roles })
unfolding login_handler login_row new_user trim_space
made_login k sign env d d' now token sane m signed =
    let u = new_user "admin" "Administrator" m.hash "admin" env in
    let right : verify_password k "password" m.hash ≡ some true =
      verify_password-hash_password k "password" m.hash m.salt sane m.hashed in
    let row : find (λ (x : UserRow). x.username == "admin") (d.users ++ u ∷ []) ≡ some u =
      find-append_new "admin" env.uuid u d.users refl m.fresh in
    rw (m.stored, row, right, signed) refl

-- Started where no user is called admin, with an engine and packages that do as documented, the server
-- answers a POST to /login as admin under the password "password" with a session, in the role that the
-- roles' table names for "admin", after any requests of anyone to it, unless its limiter at that time
-- refuses the address, which is answered with a 429.
pub seed-stays :
    (k : Crypto) (sign : Claims → Option String) (env : Env) (d d' : Db) (now : ℕ) (token : String)
    (c : Call Outside) (cs : List (Call Outside)) (l : IpRateLimiter)
    → IsSane k
    → any (λ (x : UserRow). x.username == "admin") d.users ≡ false
    → seed k false env d ≡ (true, d')
    → generate_token k sign "admin" (role_name (some "admin") d.roles) now ≡ some token
    → IsLogin k sign c (record { username = "admin"; password = "password" }) now
    → c.request.method ≡ "POST"
    → let q = (serve_all (auth_service k sign) cs (l, d')).1 in
      (t : Traced Answer) × ((serve_auth k sign c q).0 ≡ some t)
      × (t.response ≡ (
          if (allow q.0 c.now (client_ip c.request)).0
          then reply 200 (
              session (record {
                token = token;
                user_id = env.uuid;
                role = role_name (some "admin") d.roles;
              }))
          else http_error "Too many requests" 429))
seed-stays k sign env d d' now token c cs l sane new h signed login post =
    serve_auth-serve_all k sign c (record { username = "admin"; password = "password" }) now 200
      (record { token = token; user_id = env.uuid; role = role_name (some "admin") d.roles }) cs l
      d' login
      (rw post (made_login k sign env d d' now token sane (seed-Made k env d d' new h) signed))
