-- ===== src/Auth/Server/Accounts.antt =====
-- The accounts behind the server: what any traffic leaves of them.
use mathlib.Core.List.{append-nil, append_assoc}
use ziyad_messenger.Base.{
  ℕ, String, Bool, true, false, ◌||◌, ◌≡◌, refl, sym, ap, ◌∙◌, List, [], ◌∷◌, ◌++◌, All, Option,
  none, some, ◌==◌, arith, if◌then◌else◌, any, any-append, find, eq_iff, Bool-cases, Option-cases,
  inl, inr,
}
use ziyad_messenger.Base.Text.{trim_space}
use ziyad_messenger.Base.Http.{reply, http_error}
use ziyad_messenger.RateLimiter.{IpRateLimiter, allow}
use ziyad_messenger.Trace.{Request, Traced, client_ip, traced, with_limited_request_trace}
use ziyad_messenger.Services.{Route, Call, serve_all, serve_limited, mux_route, as_answer}
use ziyad_messenger.Services.Invariants.{serve_all-keeps}
use ziyad_messenger.Auth.Password.{Crypto, hash_password}
use ziyad_messenger.Auth.Login.{insert_user-eq-some}
use ziyad_messenger.Auth.{
  Claims, Db, Env, LoginRequest, RegisterRequest, Session, UserRow, ensure_default_user,
  exec_insert, hashed, inserted, checked, received, refusal, trimmed, defaulted, login_handler,
  login_row, new_user, register_handler,
}
use ziyad_messenger.Auth.Server.{
  Outside, Answer, session, default_auth_body_limit, auth_service, register_route, login_route,
  serve_auth,
}

abbrev pub takes : String → String → List UserRow → Bool
takes id username us = any (λ u. u.id == id || u.username == username) us

-- No id and no name stands twice.
abbrev pub Distinct : List UserRow → Type 0
Distinct [] = Unit {0}
Distinct (u ∷ us) = (takes u.id u.username us ≡ false) × Distinct us

-- Users were added behind the others, and nothing else; none of them took an id or a name.
pub record Grown (d d' : Db) : Type 0 where
  pub added : List UserRow
  pub users : d'.users ≡ d.users ++ added
  pub roles : d'.roles ≡ d.roles
  pub distinct : Distinct d.users → Distinct d'.users

Grown-refl : (d : Db) → Grown d d
Grown-refl d = record {
  added = [];
  users = sym (append-nil d.users);
  roles = refl;
  distinct = λ h. h;
}

Grown-trans : (d e f : Db) → Grown d e → Grown e f → Grown d f
Grown-trans d e f g h = record {
  added = g.added ++ h.added;
  users = h.users ∙ ap (λ us. us ++ h.added) g.users ∙ append_assoc d.users g.added h.added;
  roles = h.roles ∙ g.roles;
  distinct = λ k. h.distinct (g.distinct k);
}

Distinct-concat :
    (u : UserRow) (us : List UserRow)
    → takes u.id u.username us ≡ false
    → Distinct us
    → Distinct (us ++ u ∷ [])
Distinct-concat u [] new d = (refl, tt)
Distinct-concat u (x ∷ xs) new d = ground (
  arith,
  any-append (λ (y : UserRow). y.id == x.id || y.username == x.username) xs (u ∷ []),
  eq_iff x.id u.id,
  eq_iff u.id x.id,
  eq_iff x.username u.username,
  eq_iff u.username x.username,
  Distinct-concat u xs,
)

insert_user-Grown :
    (fault : Bool) (u : UserRow) (d d' : Db) → exec_insert fault u d ≡ some d' → Grown d d'
insert_user-Grown fault u d d' h =
    let (new, put) = insert_user-eq-some fault u d h in
    rw put (record {
      added = u ∷ [];
      users = refl;
      roles = refl;
      distinct = Distinct-concat u d.users new;
    })

inserted-Grown :
    (id : String) (o : Option Db) (d : Db)
    → ((d' : Db) → o ≡ some d' → Grown d d')
    → Grown d (inserted id o d).1
inserted-Grown id none d h = Grown-refl d
inserted-Grown id (some d') d h = h d' refl

hashed-Grown :
    (req : RegisterRequest) (o : Option String) (env : Env) (d : Db)
    → Grown d (hashed req o env d).1
hashed-Grown req none env d = Grown-refl d
hashed-Grown req (some hash) env d =
    let u = new_user req.username req.full_name hash req.role env in
    inserted-Grown env.uuid (exec_insert env.fault u d) d
      λ d' e. insert_user-Grown env.fault u d d' e

module _ (k : Crypto) where
  checked-Grown :
      (req : RegisterRequest) (o : Option String) (env : Env) (d : Db)
      → Grown d (checked k req o env d).1
  checked-Grown req (some text) env d = Grown-refl d
  checked-Grown req none env d = hashed-Grown req _ env d

  received-Grown :
      (body : Option RegisterRequest) (env : Env) (d : Db) → Grown d (received k body env d).1
  received-Grown none env d = Grown-refl d
  received-Grown (some req) env d = checked-Grown (trimmed req) (refusal (trimmed req)) env d

  register-Grown :
      (method : String) (body : Option RegisterRequest) (env : Env) (d : Db)
      → Grown d (register_handler k method body env d).1
  unfolding register_handler
  register-Grown method body env d = elim (Bool-cases (method == "POST")) [
    | inl e ↦ rw e (received-Grown body env d)
    | inr e ↦ rw e (Grown-refl d)
  ]

  made-Grown :
      (o : Option Db) (d : Db)
      → ((d' : Db) → o ≡ some d' → Grown d d')
      → (let x : Bool × Db = elim o [ none ↦ (false, d) | some d' ↦ (true, d') ] in Grown d x.1)
  made-Grown none d h = Grown-refl d
  made-Grown (some d') d h = h d' refl

  defaulted-Grown :
      (o : Option String) (username role : String) (env : Env) (d : Db)
      → Grown d (defaulted k o username role env d).1
  defaulted-Grown none username role env d = Grown-refl d
  defaulted-Grown (some hash) username role env d =
      let u = new_user username "Administrator" hash role env in
      made-Grown (exec_insert env.fault u d) d λ d' e. insert_user-Grown env.fault u d d' e

  pub ensure_default_user-Grown :
      (username password role : String) (fault : Bool) (env : Env) (d : Db)
      → Grown d (ensure_default_user k username password role fault env d).1
  unfolding ensure_default_user
  ensure_default_user-Grown username password role true env d = Grown-refl d
  ensure_default_user-Grown username password role false env d =
      elim (Bool-cases (any (λ (x : UserRow). x.username == username) d.users)) [
        | inl e ↦ rw e (Grown-refl d)
        | inr e ↦ rw e (defaulted-Grown (hash_password k password env.salt) username role env d)
      ]

  module _ (sign : Claims → Option String) where
    -- Any requests to the server, on any path and from any address, refused by the limiter or not, only add
    -- users behind those that are there; no id and no name comes to stand twice.
    pub serve_all-Grown :
        (cs : List (Call Outside)) (l : IpRateLimiter) (d : Db)
        → Grown d (serve_all (auth_service k sign) cs (l, d)).1.1
    unfolding auth_service
    serve_all-Grown cs l d =
        serve_all-keeps (λ _. Unit {0}) (Grown d) (auth_service k sign) cs l d
          (registers, ((λ p req s _ g. g), ((λ p req s _ g. g), tt))) (always cs) (Grown-refl d)
      where
        registers :
            (p : Outside) (req : Request) (s : Db)
            → Unit {0}
            → Grown d s
            → Grown d (register_route k sign p req s).1
        registers p req s _ g =
            Grown-trans d s _ g (register-Grown req.method (p.register req.body_limit) p.env s)

        always : (cs : List (Call Outside)) → All (λ c. Unit {0}) cs
        always [] = tt
        always (c ∷ cs) = (tt, always cs)

    find-append :
        (name : String) (us added : List UserRow) {u : UserRow}
        → find (λ (x : UserRow). x.username == name) us ≡ some u
        → find (λ (x : UserRow). x.username == name) (us ++ added) ≡ some u
    find-append name [] added h = cc h
    find-append name (x ∷ xs) added {u} h = ground (arith, find-append name xs added {u = u})

    login_same :
        (method : String) (req : LoginRequest) (now : ℕ) (d d' : Db) (u : UserRow)
        → login_row (trim_space req.username) d ≡ some u
        → login_row (trim_space req.username) d' ≡ some u
        → d'.roles ≡ d.roles
        → login_handler k sign method (some req) false now d'
          ≡ login_handler k sign method (some req) false now d
    unfolding login_handler
    login_same method req now d d' u e e' r = rw (e, e', r) refl

    login_known :
        (method : String) (req : LoginRequest) (now : ℕ) (d : Db) {code : ℕ} {s : Session}
        → login_handler k sign method (some req) false now d ≡ reply code s
        → (u : UserRow) × (login_row (trim_space req.username) d ≡ some u)
    unfolding login_handler
    login_known method req now d h = elim (Option-cases (login_row (trim_space req.username) d)) [
      | inl e ↦ absurd (ground (arith, e))
      | inr found ↦ found
    ]

    -- Whoever can log in by the tables still can after any requests of anyone, with the same answer.
    login_handler-serve_all :
        (method : String) (req : LoginRequest) (now code : ℕ) (s : Session)
        (cs : List (Call Outside)) (l : IpRateLimiter) (d : Db)
        → login_handler k sign method (some req) false now d ≡ reply code s
        → login_handler k sign method
            (some req)
            false
            now
            (serve_all (auth_service k sign) cs (l, d)).1.1
          ≡ reply code s
    unfolding login_row
    login_handler-serve_all method req now code s cs l d h =
        let (u, e) = login_known method req now d h in
        let g = serve_all-Grown cs l d in
        login_same method req now d (serve_all (auth_service k sign) cs (l, d)).1.1 u e
          (ap (λ us. find (λ (x : UserRow). x.username == trim_space req.username) us) g.users
            ∙ find-append (trim_space req.username) d.users g.added e)
          g.roles
        ∙ h

    -- A request to log in, whose body the handler decodes, while the engine answers.
    pub record IsLogin (c : Call Outside) (req : LoginRequest) (now : ℕ) : Type 0 where
      pub path : c.request.path ≡ "/login"
      pub body : c.payload.login default_auth_body_limit ≡ some req
      pub answered : c.payload.fault ≡ false
      pub clock : c.payload.now ≡ now

    abbrev login_entry : Route Outside Answer Db
    login_entry = record {
      pattern = "/login";
      name = "login";
      max_body = default_auth_body_limit;
      handler = login_route k sign;
    }

    mux_route-login :
        (c : Call Outside)
        → c.request.path ≡ "/login"
        → mux_route (auth_service k sign) c ≡ some login_entry
    unfolding mux_route auth_service
    mux_route-login c h = rw h refl

    -- What the server answers to a login, and what the limiter says of its address.
    serve_auth-login :
        (c : Call Outside) (req : LoginRequest) (now : ℕ) (l : IpRateLimiter) (d : Db)
        → IsLogin c req now
        → (t : Traced Answer) × ((serve_auth k sign c (l, d)).0 ≡ some t)
          × (t.response ≡ (
              if (allow l c.now (client_ip c.request)).0
              then as_answer session (login_handler k sign c.request.method (some req) false now d)
              else http_error "Too many requests" 429))
    unfolding serve_auth serve_limited with_limited_request_trace traced
    serve_auth-login c req now l d h =
        rw (mux_route-login c h.path) (elim (Bool-cases (allow l c.now (client_ip c.request)).0) [
          | inl free ↦ rw free (_, refl, rw (h.body, h.answered, h.clock) refl)
          | inr full ↦ rw full (_, refl, refl)
        ])

    -- Whoever could log in can still do so, after any requests of anyone to the server: it answers with the same
    -- session, unless its limiter at that time refuses the address, which is answered with a 429.
    pub serve_auth-serve_all :
        (c : Call Outside) (req : LoginRequest) (now code : ℕ) (s : Session)
        (cs : List (Call Outside)) (l : IpRateLimiter) (d : Db)
        → IsLogin c req now
        → login_handler k sign c.request.method (some req) false now d ≡ reply code s
        → let q = (serve_all (auth_service k sign) cs (l, d)).1 in
          (t : Traced Answer) × ((serve_auth k sign c q).0 ≡ some t)
          × (t.response ≡ (
              if (allow q.0 c.now (client_ip c.request)).0
              then reply code (session s)
              else http_error "Too many requests" 429))
    serve_auth-serve_all c req now code s cs l d login h =
        let q = (serve_all (auth_service k sign) cs (l, d)).1 in
        let (t, served, answer) = serve_auth-login c req now q.0 q.1 login in
        let kept = login_handler-serve_all c.request.method req now code s cs l d h in
        (t, served, answer ∙ rw kept refl)
