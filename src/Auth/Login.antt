-- ===== src/Auth/Login.antt =====
-- From a registration to a login.
use ziyad_messenger.Base.{
  ℕ, ◌≤◌, String, Bool, true, false, ◌||◌, ◌≡◌, refl, ap, inl, inr, List, [], ◌∷◌, ◌++◌, Option,
  none, some, arith, ◌==◌, eq_iff, ltb, len, any, find, Bool-cases,
}
use ziyad_messenger.Base.Text.{trim_space}
use ziyad_messenger.Base.Http.{reply}
use ziyad_messenger.Auth.Password.{
  Crypto, hash_password, verify_password, IsSane, verify_password-hash_password,
}
use ziyad_messenger.Auth.{
  UserRow, Db, RegisterRequest, Claims, Env, username_pattern, insert_user, exec_insert, new_user,
  inserted, hashed, trimmed, refusal, role_name, login_row, checked, register_handler,
  generate_token, login_handler,
}

-- What a registration that answers 201 has done.
pub record Registered (k : Crypto) (req : RegisterRequest) (env : Env) (d d' : Db) (id : String)
    : Type 0 where
  pub named : id ≡ env.uuid
  pub accepted : refusal (trimmed req) ≡ none
  pub salt : List ℕ
  pub salted : env.salt ≡ some salt
  pub hash : String
  pub hashed : hash_password k req.password (some salt) ≡ some hash
  pub fresh :
      any (λ (x : UserRow). x.id == env.uuid || x.username == trim_space req.username) d.users
      ≡ false
  pub stored : d' ≡ record d {
    users =
        d.users
        ++ new_user
            (trim_space req.username)
            (trim_space req.full_name)
            hash
            (trim_space req.role)
            env
          ∷ [];
  }

pub insert_user-eq-some :
    (fault : Bool) (u : UserRow) (d : Db) {d' : Db}
    → exec_insert fault u d ≡ some d'
    → (any (λ (x : UserRow). x.id == u.id || x.username == u.username) d.users ≡ false)
      × (d' ≡ record d { users = d.users ++ u ∷ [] })
unfolding insert_user
insert_user-eq-some true u d h = cc
insert_user-eq-some false u d h = ground arith

inserted-eq-reply :
    (id : String) (o : Option Db) (d : Db) {code : ℕ} {a : String} {d' : Db}
    → inserted id o d ≡ (reply code a, d')
    → (a ≡ id) × (o ≡ some d')
inserted-eq-reply id none d h = cc
inserted-eq-reply id (some q) d h = ground arith

hashed-Registered :
    (k : Crypto) (req : RegisterRequest) (env : Env) (o : Option (List ℕ)) (d : Db) {code : ℕ}
    {id : String} {d' : Db}
    → refusal (trimmed req) ≡ none
    → env.salt ≡ o
    → hashed (trimmed req) (hash_password k req.password o) env d ≡ (reply code id, d')
    → Registered k req env d d' id
unfolding hash_password trimmed new_user
hashed-Registered k req env none d fine e h = cc
hashed-Registered k req env (some salt) d {id} {d'} fine e h =
    let (named, put) = inserted-eq-reply env.uuid _ d h in
    let (fresh, stored) = insert_user-eq-some env.fault _ d put in
    record {
      named = named;
      accepted = fine;
      salt = salt;
      salted = e;
      hash = _;
      hashed = refl;
      fresh = fresh;
      stored = stored;
    }

-- A registration that answers has passed the checks, hashed the password, and added one user under the
-- trimmed name, whose name and id were new.
pub register_handler-Registered :
    (k : Crypto) (method : String) (req : RegisterRequest) (env : Env) (d : Db) {code : ℕ}
    {id : String} {d' : Db}
    → register_handler k method (some req) env d ≡ (reply code id, d')
    → Registered k req env d d' id
unfolding register_handler trimmed
register_handler-Registered k method req env d {code} {id} {d'} h =
    elim (Bool-cases (method == "POST")) [
      | inl e ↦ go (refusal (trimmed req)) refl (rw e at h)
      | inr e ↦ absurd (cc (rw e at h))
    ]
  where
    go :
        (o : Option String)
        → refusal (trimmed req) ≡ o
        → checked k (trimmed req) o env d ≡ (reply code id, d')
        → Registered k req env d d' id
    go (some text) e h = cc
    go none e h = hashed-Registered k req env env.salt d e refl h

pub find-append_new :
    (n i : String) (u : UserRow) (us : List UserRow)
    → u.username ≡ n
    → any (λ (x : UserRow). x.id == i || x.username == n) us ≡ false
    → find (λ (x : UserRow). x.username == n) (us ++ u ∷ []) ≡ some u
find-append_new n i u [] e h = ground (arith, eq_iff u.username n)
find-append_new n i u (x ∷ us) e h = ground (arith, find-append_new n i u us e)

long-ne_empty : (s : String) → 3 ≤ len s → (s == "") ≡ false
long-ne_empty s h = elim (Bool-cases (s == "")) [
  | inl e ↦ let none_left : len s ≡ 0 = ap len ((eq_iff s "").0 e) in absurd (omega arith)
  | inr e ↦ e
]

-- The checks of the registration are narrower than those of the login.
refusal-narrow :
    (r : RegisterRequest)
    → refusal r ≡ none
    → ((r.username == "" || r.password == "") ≡ false)
      × ((ltb 64 (len r.username) || ltb 128 (len r.password)) ≡ false)
unfolding refusal username_pattern
refusal-narrow r h = ground (arith, long-ne_empty r.username, long-ne_empty r.password)

login_row-Registered :
    (k : Crypto) (req : RegisterRequest) (env : Env) (d d' : Db) (id : String)
    (m : Registered k req env d d' id)
    → (login_row (trim_space req.username) d'
        ≡ some (
            new_user
              (trim_space req.username)
              (trim_space req.full_name)
              m.hash
              (trim_space req.role)
              env))
      × (d'.roles ≡ d.roles)
unfolding login_row new_user
login_row-Registered k req env d d' id m =
    rw m.stored (find-append_new (trim_space req.username) env.uuid _ d.users refl m.fresh, refl)

-- Whoever registered can log in with the same name and password at any time while the engine answers
-- and the signature succeeds: the token and the answer carry the role that the registration asked for
-- under the name that the roles' table gives it. The packages behave as documented.
pub login_handler-register_handler :
    (k : Crypto) (sign : Claims → Option String) (req : RegisterRequest) (env : Env) (d : Db)
    (now code : ℕ) (id token : String) (d' : Db)
    → IsSane k
    → register_handler k "POST" (some req) env d ≡ (reply code id, d')
    → let role = role_name (some (trim_space req.role)) d.roles in
      generate_token k sign (trim_space req.username) role now ≡ some token
      → login_handler k sign "POST"
          (some (record { username = req.username; password = req.password }))
          false
          now
          d'
        ≡ reply 200 (record {
          token = token;
          user_id = id;
          role = role_name (some (trim_space req.role)) d.roles;
        })
unfolding login_handler trimmed hash_password new_user
login_handler-register_handler k sign req env d now code id token d' sane h signed =
    let m = register_handler-Registered k "POST" req env d h in
    let (fine, short) = refusal-narrow (trimmed req) m.accepted in
    let (row, roles) = login_row-Registered k req env d d' id m in
    let right : verify_password k req.password m.hash ≡ some true =
      verify_password-hash_password k req.password m.hash m.salt sane m.hashed in
    rw (fine, short, row, roles, right, signed, m.named) refl
