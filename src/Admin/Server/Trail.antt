-- ===== src/Admin/Server/Trail.antt =====
-- What a request leaves in the log of `audit.Log`.
use ziyad_messenger.Base.{
  ℕ, String, List, [], ◌∷◌, ◌++◌, Option, none, some, ◌≡◌, inl, inr, refl, arith, All, All-append,
  length,
}
use ziyad_messenger.Base.State.{Result, ok, err}
use ziyad_messenger.Admin.Store.{
  LogEntry, Db, Service, exec, Stop, Ctx, Claims, log, logged, insert_log,
}
use ziyad_messenger.Admin.Auth.{Packages}
use ziyad_messenger.Admin.Roles.{Json}
use ziyad_messenger.Admin.Server.{Call, Body, handle, audit_of, audited, admit, admitted, serve}
use ziyad_messenger.Admin.Server.Access.{IsAdmin, admit-IsAdmin}
use ziyad_messenger.Admin.Server.Notes.{entry, Noted, handle-Notes}
use mathlib.Core.List.{append_assoc, append-nil}

-- The log after is the log before with entries of `actor` added at its end.
abbrev Adds : String → Db → Db → Type 0
Adds actor d d' =
    (more : List LogEntry) × (d'.audit_logs ≡ d.audit_logs ++ more)
    × All (λ (e : LogEntry). e.actor_id ≡ actor) more

Adds-trans : (actor : String) (a b c : Db) → Adds actor a b → Adds actor b c → Adds actor a c
Adds-trans actor a b c (xs, h, hx) (ys, k, ky) = (
  xs ++ ys,
  grind (arith, append_assoc),
  All-append (λ (e : LogEntry). e.actor_id ≡ actor) xs ys hx ky,
)

Noted-Adds : (ctx : Ctx) (s s' : Service) → Noted ctx s s' → Adds ctx.claims.user_id s.db s'.db
Noted-Adds ctx s s' (action, target, details, inl h) = ([], grind (arith, append-nil), tt)
Noted-Adds ctx s s' (action, target, details, inr h) =
    (entry ctx action target details (length s.db.audit_logs) ∷ [], h, (refl, tt))

-- The middleware's own entry.
audited-Noted :
    (A : Type 0) (o : Option (String × String)) (ctx : Ctx) (x : Result Stop A × Service)
    → Noted ctx x.1 (audited o ctx x).1
unfolding logged log insert_log exec
audited-Noted A none ctx (x, s) = ("", "", "", inl refl)
audited-Noted A (some (action, target)) ctx (x, s) = (action, target, ctx.path, ground arith)

-- The entry is in the name of an administrator whose token the request carries.
abbrev pub IsSigned : Packages → String → ℕ → String → LogEntry → Type 0
IsSigned pk env now authorization e =
    (who : Claims) × IsAdmin pk env now authorization who × (e.actor_id ≡ who.user_id)

module _ (pk : Packages) (json : Json) (env : String) where
  admitted-Adds :
      (call : Call) (ctx : Ctx) (s : Service) (who : Claims)
      → Adds who.user_id s.db (admitted pk json env (ok who) call ctx s).1.db
  admitted-Adds call ctx s who =
      let mine = record ctx { claims = who } in
      let x = handle pk json call mine s in
      let y = audited (audit_of call) mine x in
      Adds-trans who.user_id s.db x.1.db y.1.db
        (Noted-Adds mine s x.1 (handle-Notes pk json call mine s))
        (Noted-Adds mine x.1 y.1 (audited-Noted (ℕ × Body) (audit_of call) mine x))

  signed :
      (authorization : String) (now : ℕ) (who : Claims)
      → IsAdmin pk env now authorization who
      → (es : List LogEntry) → All (λ (e : LogEntry). e.actor_id ≡ who.user_id) es
      → All (IsSigned pk env now authorization) es
  signed authorization now who h [] k = tt
  signed authorization now who h (e ∷ es) k = ((who, h, k.0), signed authorization now who h es k.1)

  -- Whatever a request under /admin is and however it ends, the log of actions keeps all its entries, and each
  -- entry that it adds is in the name of an administrator whose valid token the request carries.
  pub serve-IsSigned :
      (authorization : String) (call : Call) (ctx : Ctx) (s : Service)
      → (more : List LogEntry) × ((serve pk json env authorization call ctx s).1.db.audit_logs
          ≡ s.db.audit_logs ++ more)
        × All (IsSigned pk env ctx.now authorization) more
  unfolding serve
  serve-IsSigned authorization call ctx s =
      from (admit pk env ctx.now authorization) (admit-IsAdmin pk env ctx.now authorization)
    where
      from :
          (x : Result Stop Claims)
          (g : (who : Claims) → x ≡ ok who → IsAdmin pk env ctx.now authorization who)
          → (more : List LogEntry) × ((admitted pk json env x call ctx s).1.db.audit_logs
              ≡ s.db.audit_logs ++ more)
            × All (IsSigned pk env ctx.now authorization) more
      from (err e) g = ([], grind (arith, append-nil), tt)
      from (ok who) g =
          let (more, h, k) = admitted-Adds call ctx s who in
          (more, h, signed authorization ctx.now who (g who refl) more k)
