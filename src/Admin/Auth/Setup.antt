-- ===== src/Admin/Auth/Setup.antt =====
-- The administrator that `main` of backend/admin-api/cmd/server/main.go makes, and what a login gives.
use ziyad_messenger.Base.{
  ℕ, ◌+◌, ◌<◌, String, true, false, ◌≡◌, refl, [], ◌∷◌, some, ◌==◌, arith, eq_iff, Bool-cases, inl,
  inr,
}
use ziyad_messenger.Base.Text.{cut}
use ziyad_messenger.Base.State.{ok}
use ziyad_messenger.Admin.Store.{AdminUser, Service, Ctx, Claims, query, exec}
use ziyad_messenger.Admin.Auth.{
  Packages, get_secret, hash_password, check_password, login, new_admin, create_admin_user,
  ensure_super_admin, insert_admin, admin_row, claims_of, generate_token, parse_token,
  login_handler, jwt_auth, is_admin_role, require_admin,
}
use ziyad_messenger.Admin.Server.{admit}

-- What bcrypt and the JWT library document: a password goes with each of its hashes, and a token that was signed
-- gives back its claims, valid until it expires.
pub record IsSane (pk : Packages) : Type 0 where
  pub compared :
      (salt password hash : String)
      → pk.generate_from_password salt password ≡ some hash
      → pk.compare_hash_and_password hash password ≡ true
  pub signed :
      (who : Claims) (expires now later : ℕ) (secret token : String)
      → pk.sign who expires now secret ≡ some token
      → later < expires
      → pk.parse_with_claims token secret later ≡ some (who, true)

-- What `main` does behind the opening of the database; its error is logged only.
unfoldable pub set_up : Packages → Ctx → Service → Service
set_up pk ctx s = (ensure_super_admin pk "admin" "admin" ctx s).1

module _ (pk : Packages) (env : String) where
  set_up_lem :
      (ctx : Ctx) (s : Service) (hash : String)
      → s.faults ≡ []
      → s.db.admin_users ≡ []
      → pk.generate_from_password ctx.salt "admin" ≡ some hash
      → ((set_up pk ctx s).db.admin_users ≡ new_admin pk "admin" hash "super_admin" ctx ∷ [])
        × ((set_up pk ctx s).faults ≡ [])
  unfolding set_up ensure_super_admin create_admin_user hash_password insert_admin query exec
  set_up_lem ctx s hash calm nobody hashed = ground arith

  logged_in :
      (u : AdminUser) (ctx : Ctx) (s : Service) (token : String)
      → s.faults ≡ []
      → s.db.admin_users ≡ u ∷ []
      → u.username ≡ "admin"
      → pk.compare_hash_and_password u.password_hash "admin" ≡ true
      → pk.sign (claims_of pk u) (ctx.now + 86400) ctx.now (get_secret env) ≡ some token
      → (login_handler pk env (some (record { username = "admin"; password = "admin" })) ctx s).0
        ≡ ok (record { token = token; user = u; expires_at = ctx.now + 86400 })
  unfolding login_handler login admin_row check_password generate_token query
  logged_in u ctx s token quiet made named right signed = ground (arith, eq_iff u.username "admin")

  header_given :
      (header token : String) → cut b' ' header ≡ ("Bearer", some token) → (header == "") ≡ false
  unfolding cut
  header_given header token h = elim (Bool-cases (header == "")) [
    | inl e ↦ let empty = (eq_iff header "").0 e in cc (rw empty at h)
    | inr e ↦ e
  ]

  token_admitted :
      (u : AdminUser) (header token : String) (now : ℕ)
      → cut b' ' header ≡ ("Bearer", some token)
      → u.role ≡ "super_admin"
      → pk.parse_with_claims token (get_secret env) now ≡ some (claims_of pk u, true)
      → admit pk env now header ≡ ok (claims_of pk u)
  unfolding admit jwt_auth parse_token require_admin is_admin_role claims_of
  token_admitted u header token now bearer role parsed = ground (
    arith,
    header_given header token bearer,
    eq_iff (cut b' ' header).0 "Bearer",
    eq_iff u.role "super_admin",
  )

  -- Set up on a database without administrators, with an engine and packages that do as documented, the
  -- service answers a login as admin under the password "admin", and the token that it gives, behind "Bearer"
  -- in a header, is token_admitted by every route under /admin for a day, as a super_admin's.
  pub set_up-admits :
      (ctx at_login : Ctx) (s : Service) (hash token header : String) (later : ℕ)
      → IsSane pk
      → s.faults ≡ []
      → s.db.admin_users ≡ []
      → pk.generate_from_password ctx.salt "admin" ≡ some hash
      → (let u = new_admin pk "admin" hash "super_admin" ctx in
          pk.sign (claims_of pk u) (at_login.now + 86400) at_login.now (get_secret env)
          ≡ some token)
      → later < at_login.now + 86400
      → cut b' ' header ≡ ("Bearer", some token)
      → let u = new_admin pk "admin" hash "super_admin" ctx in
        ((login_handler pk env
            (some (record { username = "admin"; password = "admin" }))
            at_login
            (set_up pk ctx s)).0
          ≡ ok (record { token = token; user = u; expires_at = at_login.now + 86400 }))
        × (admit pk env later header ≡ ok (claims_of pk u))
  unfolding new_admin
  set_up-admits ctx at_login s hash token header later sane calm nobody hashed signed soon bearer =
      let u = new_admin pk "admin" hash "super_admin" ctx in
      let t = set_up pk ctx s in
      let (made, quiet) = set_up_lem ctx s hash calm nobody hashed in
      (
        logged_in u at_login t token quiet made refl (sane.compared ctx.salt "admin" hash hashed)
            signed,
        token_admitted u header token later bearer refl (
            sane.signed (claims_of pk u) (at_login.now + 86400) at_login.now later (get_secret env)
              token signed soon),
      )
