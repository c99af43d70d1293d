-- ===== src/Audit/Server.antt =====
-- The server of backend/services/audit/main.go: `auditLimiter`, the tracing behind it, and the mux of `main`.
use mathlib.Core.Path.{subst}
use ziyad_messenger.Base.{
  ℕ, ◌≡◌, refl, sym, ap, ◌∙◌, ◌++◌, String, List, [], ◌∷◌, All, Option, none,
}
use ziyad_messenger.Base.Http.{Response}
use ziyad_messenger.RateLimiter.{IpRateLimiter, new_ip_rate_limiter}
use ziyad_messenger.Trace.{Request, Traced}
use ziyad_messenger.Services.{Call, Mux, serve_limited, serve_all}
use ziyad_messenger.Services.Invariants.{serve_all-keeps}
use ziyad_messenger.Audit.{AuditEvent, AuditService, genesis, new_audit_service, log_handler}
use ziyad_messenger.Audit.Chain.{Chained, Extends, call-Extends, IsCollisionFree, Chained-unique}

unfoldable pub audit_limiter : IpRateLimiter
audit_limiter = new_ip_rate_limiter 120 60000000000

abbrev pub default_audit_body_limit : ℕ
default_audit_body_limit = 65536

-- The body as the decoder makes it under the bound, the clock, and what becomes of the write.
pub record Outside : Type 0 where
  pub body : ℕ → Option AuditEvent
  pub now : ℕ
  pub write : Option String

module _ (marshal : AuditEvent → Option String) (sha256_hex : String → String) where
  abbrev pub log_route : Outside → Request → AuditService → Response (Unit {0}) × AuditService
  log_route p req s =
      log_handler marshal sha256_hex (req.method, p.body req.body_limit, p.now, p.write) s

  -- A request's id falls back to a fixed text.
  unfoldable pub audit_service : Mux Outside (Unit {0}) AuditService
  audit_service = record {
    name = "audit";
    fallback = λ _. "audit-fallback-id";
    routes =
        record {
          pattern = "/log";
          name = "log";
          max_body = default_audit_body_limit;
          handler = log_route;
        }
        ∷ [];
  }

  unfoldable pub serve_audit :
      Call Outside
      → IpRateLimiter × AuditService
      → Option (Traced (Unit {0})) × (IpRateLimiter × AuditService)
  serve_audit c s = serve_limited audit_service c s

  -- Whatever is sent to the server, on any path and from any address, refused by the limiter or not:
  -- while every write succeeds, the file keeps its old content, and what is added to it is a chain from
  -- the genesis hash to the service's hash.
  pub serve_all-Extends :
      (there : List String) (cs : List (Call Outside))
      → All (λ c. c.payload.write ≡ none) cs
      → Extends marshal sha256_hex there
          (serve_all audit_service cs (audit_limiter, new_audit_service there)).1.1
  unfolding audit_service
  serve_all-Extends there cs w =
      serve_all-keeps (λ p. p.write ≡ none) (Extends marshal sha256_hex there) audit_service cs
        audit_limiter (new_audit_service there) (log-keeps, tt) w
        (record { added = []; file = refl; chain = refl })
    where
      log-keeps :
          (p : Outside) (req : Request) (s : AuditService)
          → p.write ≡ none
          → Extends marshal sha256_hex there s
          → Extends marshal sha256_hex there (log_route p req s).1
      log-keeps p req s w e = rw w (
          call-Extends marshal sha256_hex there req.method (p.body req.body_limit) p.now s _ refl e)

  -- Two runs of the server on the same file, each with any requests and every write successful, that end
  -- with the same hash leave the same file. No two texts share a hash, none has the genesis hash, and an
  -- event's encoding shows the hash that it carries.
  pub serve_all_unique :
      (there : List String) (cs ds : List (Call Outside))
      → IsCollisionFree marshal sha256_hex genesis
      → All (λ c. c.payload.write ≡ none) cs
      → All (λ c. c.payload.write ≡ none) ds
      → let s = (serve_all audit_service cs (audit_limiter, new_audit_service there)).1.1 in
        let q = (serve_all audit_service ds (audit_limiter, new_audit_service there)).1.1 in
        s.last_hash ≡ q.last_hash → s.log_file ≡ q.log_file
  serve_all_unique there cs ds free w v same =
      let e = serve_all-Extends there cs w in
      let f = serve_all-Extends there ds v in
      let back =
        Chained-unique marshal sha256_hex genesis _ e.added f.added free e.chain
          (subst (Chained marshal sha256_hex genesis f.added) (sym same) f.chain) in
      e.file ∙ ap (λ xs. xs ++ there) back ∙ sym f.file
