-- ===== src/Audit/Chain.antt =====
-- The file as a chain of hashes.
use Prim.Native.String
use mathlib.Core.Path.{subst, ap₂}
use ziyad_messenger.Base.{
  ℕ, String, ◌≡◌, ◌≢◌, refl, sym, ap, ◌∙◌, List, [], ◌∷◌, ◌++◌, Option, none, some, arith, All,
  ◌==◌, Bool-cases, inl, inr,
}
use ziyad_messenger.Base.Http.{Response, reply, http_error}
use ziyad_messenger.Audit.{
  AuditEvent, AuditService, genesis, new_audit_service, Call, trimmed, refusal, serialized, checked,
  append_event, log_handler, handle_all,
}

module _ (marshal : AuditEvent → Option String) (sha256_hex : String → String) where
  -- From the hash `g` on, each line is an event that passed the checks and carries the hash of the
  -- line before it; `h` is the hash of the last line.
  abbrev pub Chained : String → List String → String → Type 0
  Chained g [] h = h ≡ g
  Chained g (line ∷ lines) h =
      (event : AuditEvent) × (bytes : String) × (refusal event ≡ none)
      × (marshal event ≡ some bytes)
      × (line ≡ String.◌++◌ bytes "\n")
      × (h ≡ sha256_hex bytes)
      × Chained g lines event.prev_hash

  -- The line that a call adds.
  pub record Logged (s s' : AuditService) : Type 0 where
    pub event : AuditEvent
    pub bytes : String
    pub valid : refusal event ≡ none
    pub encoded : marshal event ≡ some bytes
    pub linked : event.prev_hash ≡ s.last_hash
    pub stored : s'.log_file ≡ String.◌++◌ bytes "\n" ∷ s.log_file
    pub hashed : s'.last_hash ≡ sha256_hex bytes

  refusal-stamped :
      (event : AuditEvent) (now : ℕ) (h : String)
      → refusal (record event { timestamp = now; prev_hash = h }) ≡ refusal event
  unfolding refusal
  refusal-stamped event now h = refl

  append-Logged :
      (event : AuditEvent) (now : ℕ) (write : Option String) (s : AuditService) {code : ℕ}
      {s' : AuditService}
      → refusal event ≡ none
      → append_event marshal sha256_hex event now write s ≡ (reply code tt, s')
      → (code ≡ 201) × Logged s s'
  unfolding append_event
  append-Logged event now write s valid h =
      go (marshal (record event { timestamp = now; prev_hash = s.last_hash })) write refl h
    where
      go :
          (o write : Option String) {code : ℕ} {s' : AuditService}
          → marshal (record event { timestamp = now; prev_hash = s.last_hash }) ≡ o
          → serialized marshal sha256_hex o write s ≡ (reply code tt, s')
          → (code ≡ 201) × Logged s s'
      go none write e h = cc
      go (some bytes) (some part) e h = cc
      go (some bytes) none e h = (
        ground arith,
        record {
          event = record event { timestamp = now; prev_hash = s.last_hash };
          bytes = bytes;
          valid = refusal-stamped event now s.last_hash ∙ valid;
          encoded = e;
          linked = refl;
          stored = ground arith;
          hashed = ground arith;
        },
      )

  checked-Logged :
      (o : Option String) (event : AuditEvent) (now : ℕ) (write : Option String) (s : AuditService)
      {code : ℕ} {s' : AuditService}
      → refusal event ≡ o
      → checked marshal sha256_hex o event now write s ≡ (reply code tt, s')
      → (code ≡ 201) × Logged s s'
  checked-Logged (some text) event now write s e h = cc
  checked-Logged none event now write s e h = append-Logged event now write s e h

  -- A call that answers 201 has added one line, of an event that passed the checks and carries the
  -- hash of the service's last line; its own hash is now the service's.
  pub log_handler-Logged :
      (call : Call) (s : AuditService) {code : ℕ} {s' : AuditService}
      → log_handler marshal sha256_hex call s ≡ (reply code tt, s')
      → (code ≡ 201) × Logged s s'
  unfolding log_handler
  log_handler-Logged (method, none, now, write) s h = ground arith
  log_handler-Logged (method, some event, now, write) s h = elim (Bool-cases (method == "POST")) [
    | inl e ↦ checked-Logged (refusal (trimmed event)) (trimmed event) now write s refl (rw e at h)
    | inr e ↦ absurd (cc (rw e at h))
  ]

  serialized-same :
      (o : Option String) (s : AuditService) {text : String} {code : ℕ} {s' : AuditService}
      → serialized marshal sha256_hex o none s ≡ (http_error text code, s')
      → s' ≡ s
  serialized-same none s h = ground arith
  serialized-same (some bytes) s h = cc

  checked-same :
      (o : Option String) (event : AuditEvent) (now : ℕ) (s : AuditService) {text : String}
      {code : ℕ} {s' : AuditService}
      → checked marshal sha256_hex o event now none s ≡ (http_error text code, s')
      → s' ≡ s
  unfolding append_event
  checked-same (some refused) event now s h = ground arith
  checked-same none event now s h =
      serialized-same (marshal (record event { timestamp = now; prev_hash = s.last_hash })) s h

  log_handler-same :
      (method : String) (body : Option AuditEvent) (now : ℕ) (s : AuditService) {text : String}
      {code : ℕ} {s' : AuditService}
      → log_handler marshal sha256_hex (method, body, now, none) s ≡ (http_error text code, s')
      → s' ≡ s
  unfolding log_handler
  log_handler-same method none now s h = ground arith
  log_handler-same method (some event) now s h = elim (Bool-cases (method == "POST")) [
    | inl e ↦ checked-same (refusal (trimmed event)) (trimmed event) now s (rw e at h)
    | inr e ↦ let k = rw e at h in ground (arith, k)
  ]

  Logged-Chained :
      (g : String) {s s' : AuditService}
      → Chained g s.log_file s.last_hash
      → Logged s s'
      → Chained g s'.log_file s'.last_hash
  Logged-Chained g c l =
      rw (l.stored, l.hashed) (l.event, l.bytes, l.valid, l.encoded, refl, refl, rw (l.linked) c)

  pub call-Chained :
      (g method : String) (body : Option AuditEvent) (now : ℕ) (s : AuditService)
      (ran : Response (Unit {0}) × AuditService)
      → log_handler marshal sha256_hex (method, body, now, none) s ≡ ran
      → Chained g s.log_file s.last_hash
      → Chained g ran.1.log_file ran.1.last_hash
  call-Chained g method body now s (reply code tt, s') e c =
      Logged-Chained g c (log_handler-Logged (method, body, now, none) s e).1
  call-Chained g method body now s (http_error text code, s') e c =
      subst (λ q. Chained g q.log_file q.last_hash) (sym (log_handler-same method body now s e)) c

  -- The write of a call succeeds.
  abbrev pub IsWritten : Call → Type 0
  IsWritten (method, body, now, write) = write ≡ none

  handle_all-from :
      (g : String) (calls : List Call) (s : AuditService)
      → All IsWritten calls
      → Chained g s.log_file s.last_hash
      → let s' = handle_all marshal sha256_hex calls s in Chained g s'.log_file s'.last_hash
  unfolding handle_all
  handle_all-from g [] s w c = c
  handle_all-from g ((method, body, now, none) ∷ calls) s w c =
      handle_all-from g calls _ w.1 (call-Chained g method body now s _ refl c)
  handle_all-from g ((method, body, now, some part) ∷ calls) s w c = cc w.0

  -- While every write succeeds, a file that was empty is a chain from the genesis hash to the service's
  -- hash, whatever is asked of the service, what it refuses included.
  pub handle_all-Chained :
      (calls : List Call)
      → All IsWritten calls
      → let s = handle_all marshal sha256_hex calls (new_audit_service []) in
        Chained genesis s.log_file s.last_hash
  handle_all-Chained calls w = handle_all-from genesis calls (new_audit_service []) w refl

  -- What stands in the file behind the old content is a chain from the genesis hash to the service's.
  pub record Extends (there : List String) (s : AuditService) : Type 0 where
    pub added : List String
    pub file : s.log_file ≡ added ++ there
    pub chain : Chained genesis added s.last_hash

  Logged-Extends :
      (there : List String) {s s' : AuditService} → Extends there s → Logged s s' → Extends there s'
  Logged-Extends there e l = record {
    added = String.◌++◌ l.bytes "\n" ∷ e.added;
    file = l.stored ∙ ap (◌∷◌ (String.◌++◌ l.bytes "\n")) e.file;
    chain = rw (l.hashed) (l.event, l.bytes, l.valid, l.encoded, refl, refl, rw (l.linked) e.chain);
  }

  pub call-Extends :
      (there : List String) (method : String) (body : Option AuditEvent) (now : ℕ)
      (s : AuditService) (ran : Response (Unit {0}) × AuditService)
      → log_handler marshal sha256_hex (method, body, now, none) s ≡ ran
      → Extends there s
      → Extends there ran.1
  call-Extends there method body now s (reply code tt, s') e x =
      Logged-Extends there x (log_handler-Logged (method, body, now, none) s e).1
  call-Extends there method body now s (http_error text code, s') e x =
      subst (Extends there) (sym (log_handler-same method body now s e)) x

  -- What a verifier relies on: no two texts share a hash, none has the chain's first hash, and the
  -- encoding of an event shows the hash that the event carries.
  pub record IsCollisionFree (g : String) : Type 0 where
    pub injective : (a b : String) → sha256_hex a ≡ sha256_hex b → a ≡ b
    pub not_genesis : (a : String) → sha256_hex a ≢ g
    pub faithful : (a b : AuditEvent) → marshal a ≡ marshal b → a.prev_hash ≡ b.prev_hash

  -- The last hash fixes the whole file: no line of a chain can be changed, dropped, added or moved
  -- without changing it.
  pub Chained-unique :
      (g h : String) (xs ys : List String)
      → IsCollisionFree g
      → Chained g xs h
      → Chained g ys h
      → xs ≡ ys
  Chained-unique g h [] [] free c d = refl
  Chained-unique g h [] (y ∷ ys) free c (e, b, _, _, _, k, _) =
      absurd (free.not_genesis b (sym k ∙ c))
  Chained-unique g h (x ∷ xs) [] free (e, b, _, _, _, k, _) d =
      absurd (free.not_genesis b (sym k ∙ d))
  Chained-unique g h (x ∷ xs) (y ∷ ys) free (e, b, _, m, l, k, c) (e', b', _, m', l', k', c') =
      let same : b ≡ b' = free.injective b b' (sym k ∙ k') in
      let before : e.prev_hash ≡ e'.prev_hash = free.faithful e e' (m ∙ ap some same ∙ sym m') in
      ap₂ ◌∷◌ (l ∙ ap (λ t. String.◌++◌ t "\n") same ∙ sym l')
        (Chained-unique g e.prev_hash xs ys free c (subst (Chained g ys) (sym before) c'))
