-- ===== src/Audit/Broken.antt =====
-- What a failed write does to the chain.
use Prim.Native.String
use mathlib.Core.Path.{subst}
use text.Mathlib.TextLemmas.{append_cancel_right}
use ziyad_messenger.Base.{
  ℕ, String, false, ◌==◌, Bool-cases, inl, inr, ◌≡◌, ◌≢◌, refl, sym, ap, ◌∙◌, List, [], ◌∷◌, Option,
  none, some, arith,
}
use ziyad_messenger.Base.Http.{Response, reply, http_error}
use ziyad_messenger.Audit.{
  AuditEvent, AuditService, Call, trimmed, refusal, serialized, checked, append_event, log_handler,
}
use ziyad_messenger.Audit.Chain.{Chained, IsCollisionFree, log_handler-Logged}

module _ (marshal : AuditEvent → Option String) (sha256_hex : String → String) where
  -- The hash of a file is fixed by the file.
  Chained-hash :
      (g h k : String) (xs : List String)
      → Chained marshal sha256_hex g xs h
      → Chained marshal sha256_hex g xs k
      → h ≡ k
  Chained-hash g h k [] c d = c ∙ sym d
  Chained-hash g h k (x ∷ xs) (e, b, _, m, l, c, _) (e', b', _, m', l', c', _) =
      c ∙ ap sha256_hex (append_cancel_right b b' "\n" (sym l ∙ l')) ∙ sym c'

  -- An event that follows a chain does not have the chain's own hash.
  Chained-no_cycle :
      (g h : String) (xs : List String) (event : AuditEvent) (bytes : String)
      → IsCollisionFree marshal sha256_hex g
      → Chained marshal sha256_hex g xs h
      → marshal event ≡ some bytes
      → event.prev_hash ≡ h
      → sha256_hex bytes ≢ h
  Chained-no_cycle g h [] event bytes free c m p loop = free.not_genesis bytes (loop ∙ c)
  Chained-no_cycle g h (x ∷ xs) event bytes free (e, b, _, n, _, k, c) m p loop =
      let same : bytes ≡ b = free.injective bytes b (loop ∙ k) in
      let back : e.prev_hash ≡ h = sym (free.faithful event e (m ∙ ap some same ∙ sym n)) ∙ p in
      Chained-no_cycle g e.prev_hash xs e b free c n refl (sym k ∙ sym back)

  -- A write that failed with nothing in the file: the hash went on, the file did not.
  record Lost (s q : AuditService) : Type 0 where
    event : AuditEvent
    bytes : String
    encoded : marshal event ≡ some bytes
    linked : event.prev_hash ≡ s.last_hash
    file : q.log_file ≡ s.log_file
    hashed : q.last_hash ≡ sha256_hex bytes

  serialized-Lost :
      (event : AuditEvent) (o : Option String) (s q : AuditService)
      → marshal event ≡ o
      → event.prev_hash ≡ s.last_hash
      → serialized marshal sha256_hex o (some "") s ≡ (http_error "Write error" 500, q)
      → Lost s q
  serialized-Lost event none s q m p h = absurd (marshaling (ap (λ x. x.0) h))
    where
      text : Response (Unit {0}) → String
      text (http_error t c) = t
      text (reply c a) = ""

      differ : ("Marshaling error" == "Write error") ≡ false
      differ = refl

      marshaling :
          ◌≢◌ {A = Response (Unit {0})}
            (http_error "Marshaling error" 500)
            (http_error "Write error" 500)
      marshaling e = ground (arith, ap (λ t. text t == "Write error") e)
  serialized-Lost event (some bytes) s q m p h = record {
    event = event;
    bytes = bytes;
    encoded = m;
    linked = p;
    file = ground arith;
    hashed = ground arith;
  }

  log_handler-Lost :
      (method : String) (body : Option AuditEvent) (now : ℕ) (s q : AuditService)
      → log_handler marshal sha256_hex (method, body, now, some "") s
        ≡ (http_error "Write error" 500, q)
      → Lost s q
  unfolding log_handler append_event
  log_handler-Lost method none now s q h = absurd (ground arith)
  log_handler-Lost method (some event) now s q h = elim (Bool-cases (method == "POST")) [
    | inl e ↦ go (refusal (trimmed event)) (rw e at h)
    | inr e ↦ let k = rw e at h in absurd (ground (arith, k))
  ]
    where
      go :
          (o : Option String)
          → checked marshal sha256_hex o (trimmed event) now (some "") s
            ≡ (http_error "Write error" 500, q)
          → Lost s q
      go (some text) k = absurd (ground arith)
      go none k =
          serialized-Lost (record (trimmed event) { timestamp = now; prev_hash = s.last_hash }) _ s
            q refl refl k

  broken :
      (g h : String) (event : AuditEvent) (bytes : String) (s q : AuditService)
      → IsCollisionFree marshal sha256_hex g
      → Chained marshal sha256_hex g s.log_file s.last_hash
      → Lost s q
      → marshal event ≡ some bytes
      → event.prev_hash ≡ q.last_hash
      → ¬ Chained marshal sha256_hex g (String.◌++◌ bytes "\n" ∷ s.log_file) h
  broken g h event bytes s q free chain lost encoded linked (e, b, _, m, l, _, c) =
      let same : bytes ≡ b = append_cancel_right bytes b "\n" l in
      let next : e.prev_hash ≡ sha256_hex lost.bytes =
        free.faithful e event (m ∙ ap some (sym same) ∙ sym encoded) ∙ linked ∙ lost.hashed in
      Chained-no_cycle g s.last_hash s.log_file lost.event lost.bytes free chain lost.encoded
        lost.linked (sym next ∙ Chained-hash g e.prev_hash s.last_hash s.log_file c chain)

  -- After a write that failed, the service goes on from the hash of the line that is not in the file:
  -- once it has stored another line, the file is no chain any more, whatever hash it is checked
  -- against. No two texts share a hash, none has the first one, and an event's encoding shows the
  -- hash that it carries.
  pub lost_write-breaks :
      (g h : String) (method : String) (body : Option AuditEvent) (now code : ℕ) (next : Call)
      (s q q' : AuditService)
      → IsCollisionFree marshal sha256_hex g
      → Chained marshal sha256_hex g s.log_file s.last_hash
      → log_handler marshal sha256_hex (method, body, now, some "") s
        ≡ (http_error "Write error" 500, q)
      → log_handler marshal sha256_hex next q ≡ (reply code tt, q')
      → ¬ Chained marshal sha256_hex g q'.log_file h
  lost_write-breaks g h method body now code next s q q' free chain failed stored again =
      let lost = log_handler-Lost method body now s q failed in
      let l = (log_handler-Logged marshal sha256_hex next q stored).1 in
      let kept : q'.log_file ≡ String.◌++◌ l.bytes "\n" ∷ s.log_file =
        l.stored ∙ ap (◌∷◌ (String.◌++◌ l.bytes "\n")) lost.file in
      broken g h l.event l.bytes s q free chain lost l.encoded (l.linked)
        (subst (λ f. Chained marshal sha256_hex g f h) kept again)
