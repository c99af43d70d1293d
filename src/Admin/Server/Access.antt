-- ===== src/Admin/Server/Access.antt =====
-- Who gets past `JWTAuth` and `RequireAdmin`.
use ziyad_messenger.Base.{
  ℕ, String, true, Option, none, some, ◌≡◌, ◌⊎◌, inl, inr, refl, arith, ◌==◌, eq_iff,
}
use ziyad_messenger.Base.Text.{cut}
use ziyad_messenger.Base.Http.{Response, http_error}
use ziyad_messenger.Base.State.{Result, ok, err}
use ziyad_messenger.Admin.Store.{Service, Stop, Claims, Ctx}
use ziyad_messenger.Admin.Auth.{
  Packages, get_secret, parse_token, from_parts, jwt_auth, is_admin_role, require_admin,
}
use ziyad_messenger.Admin.Roles.{Json}
use ziyad_messenger.Admin.Server.{Call, Body, admit, admitted, serve}

-- The header carries a token that the service signed, which is valid now, for `who`, an administrator.
pub record IsAdmin (pk : Packages) (env : String) (now : ℕ) (authorization : String) (who : Claims)
    : Type 0 where
  pub token : String
  pub bearer : cut b' ' authorization ≡ ("Bearer", some token)
  pub valid : pk.parse_with_claims token (get_secret env) now ≡ some (who, true)
  pub role : (who.role ≡ "super_admin") ⊎ (who.role ≡ "admin")

module _ (pk : Packages) (env : String) (now : ℕ) where
  parse_token-eq-ok :
      (token : String) (who : Claims)
      → parse_token pk env now token ≡ ok who
      → pk.parse_with_claims token (get_secret env) now ≡ some (who, true)
  unfolding parse_token
  parse_token-eq-ok token who h = ground arith

  from_parts-eq-ok :
      (scheme : String) (token : Option String) (who : Claims)
      → from_parts pk env now (scheme == "Bearer") token ≡ ok who
      → (t : String) × (scheme ≡ "Bearer") × (token ≡ some t) × (parse_token pk env now t ≡ ok who)
  from_parts-eq-ok scheme none who h = ground arith
  from_parts-eq-ok scheme (some t) who h =
      (t, ground (arith, eq_iff scheme "Bearer"), refl, ground (arith, eq_iff scheme "Bearer"))

  jwt_auth-eq-ok :
      (authorization : String) (who : Claims)
      → jwt_auth pk env now authorization ≡ ok who
      → (t : String) × ((cut b' ' authorization).0 ≡ "Bearer")
        × ((cut b' ' authorization).1 ≡ some t)
        × (parse_token pk env now t ≡ ok who)
  unfolding jwt_auth
  jwt_auth-eq-ok authorization who h =
      from_parts-eq-ok (cut b' ' authorization).0 (cut b' ' authorization).1 who (ground arith)

  admit-eq-ok :
      (authorization : String) (who : Claims)
      → admit pk env now authorization ≡ ok who
      → (jwt_auth pk env now authorization ≡ ok who) × (require_admin who ≡ ok tt)
  unfolding admit
  admit-eq-ok authorization who h = (ground arith, ground arith)

  pub admit-IsAdmin :
      (authorization : String) (who : Claims)
      → admit pk env now authorization ≡ ok who
      → IsAdmin pk env now authorization who
  unfolding require_admin is_admin_role
  admit-IsAdmin authorization who h =
      let (jwt, allowed) = admit-eq-ok authorization who h in
      let (token, scheme, rest, parsed) = jwt_auth-eq-ok authorization who jwt in
      record {
        token = token;
        bearer = ground arith;
        valid = parse_token-eq-ok token who parsed;
        role = ground (arith, eq_iff who.role "super_admin", eq_iff who.role "admin");
      }

-- The request is refused with a 401 or a 403, and the service is as it was.
abbrev pub Refused : Response Body → Service → Service → Type 0
Refused x s s' =
    (text : String) × ((x ≡ http_error text 401) ⊎ (x ≡ http_error text 403)) × (s' ≡ s)

module _ (pk : Packages) (json : Json) (env : String) where
  pub admit-eq-err :
      (now : ℕ) (authorization text : String) (code : ℕ)
      → admit pk env now authorization ≡ err (text, code)
      → (code ≡ 401) ⊎ (code ≡ 403)
  unfolding admit jwt_auth parse_token require_admin is_admin_role
  admit-eq-err now authorization text code h = ground arith

  -- Each request to a route on the tables comes with an administrator's token that is valid, or is refused
  -- with a 401 or a 403 and changes nothing, not even the log of actions.
  pub serve-IsAdmin :
      (authorization : String) (call : Call) (ctx : Ctx) (s : Service)
      → ((who : Claims) × IsAdmin pk env ctx.now authorization who)
        ⊎ (let x = serve pk json env authorization call ctx s in Refused x.0 s x.1)
  unfolding serve
  serve-IsAdmin authorization call ctx s =
      from (admit pk env ctx.now authorization) (admit-IsAdmin pk env ctx.now authorization)
        (admit-eq-err ctx.now authorization)
    where
      from :
          (x : Result Stop Claims)
          (g : (who : Claims) → x ≡ ok who → IsAdmin pk env ctx.now authorization who)
          (r : (text : String) (code : ℕ) → x ≡ err (text, code) → (code ≡ 401) ⊎ (code ≡ 403))
          → ((who : Claims) × IsAdmin pk env ctx.now authorization who)
            ⊎ (let y = admitted pk json env x call ctx s in Refused y.0 s y.1)
      from (ok who) g r = inl (who, g who refl)
      from (err (text, code)) g r = inr (text, ground (arith, r text code), refl)
