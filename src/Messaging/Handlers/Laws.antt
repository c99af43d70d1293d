-- ===== src/Messaging/Handlers/Laws.antt =====
-- Taking a handler's run apart.
use ziyad_messenger.Base.{ℕ, String, Bool, true, false, ◌≡◌, ◌≢◌, ap, arith}
use ziyad_messenger.Base.Http.{http_error, reply}
use ziyad_messenger.Messaging.Store.{Router, Error, Result, ok, err, M, guard}
use ziyad_messenger.Messaging.Handlers.{
  Stop, stop_with, stop_text, or_error, or_500, response, respond,
}

module _ {A : Type 0} where
  response-eq-reply :
      (x : Result Stop A) {code : ℕ} {a : A} → response x ≡ reply code a → (code ≡ 200) × (x ≡ ok a)
  response-eq-reply (ok b) h = ground arith
  response-eq-reply (err (text, c)) h = cc

  -- A reply is the handler's success, under 200.
  pub respond-eq-reply :
      (m : M Stop A) (r : Router) {code : ℕ} {a : A} {r' : Router}
      → respond m r ≡ (reply code a, r')
      → (code ≡ 200) × (m r ≡ (ok a, r'))
  respond-eq-reply m r {code} {a} h =
      let p : response (m r).0 ≡ reply code a = ground arith in
      let (fine, same) = response-eq-reply (m r).0 p in (fine, ground (arith, same))

  response-eq-error :
      (x : Result Stop A) {text : String} {code : ℕ}
      → response x ≡ http_error text code
      → x ≡ err (text, code)
  response-eq-error (ok b) h = cc
  response-eq-error (err (t, c)) h = ground arith

  pub respond-eq-error :
      (m : M Stop A) (r : Router) {text : String} {code : ℕ} {r' : Router}
      → respond m r ≡ (http_error text code, r')
      → m r ≡ (err (text, code), r')
  respond-eq-error m r h = ground (arith, response-eq-error (m r).0)

  -- A failure behind a change of its error was a failure.
  masked_err :
      (f : Result Error A → Result Stop A) (x : Result Error A) (q : Router) {stop : Stop}
      {r' : Router}
      → ((a : A) → f (ok a) ≢ err stop)
      → ◌≡◌ {A = Result Stop A × Router} (f x, q) (err stop, r')
      → (e : Error) × ◌≡◌ {A = Result Error A × Router} (x, q) (err e, r')
  masked_err f (ok a) q never h = absurd (never a (ap (λ p. p.0) h))
  masked_err f (err e) q never h = (e, ground arith)

  pub or_error-eq-ok :
      (text : String) (code : ℕ) (m : M Error A) (r : Router) {a : A} {r' : Router}
      → or_error text code m r ≡ (ok a, r')
      → m r ≡ (ok a, r')
  or_error-eq-ok text code m r h = ground arith

  pub or_500-eq-ok :
      (m : M Error A) (r : Router) {a : A} {r' : Router}
      → or_500 m r ≡ (ok a, r')
      → m r ≡ (ok a, r')
  or_500-eq-ok m r h = ground arith

  pub or_error-eq-err :
      (text : String) (code : ℕ) (m : M Error A) (r : Router) {stop : Stop} {r' : Router}
      → or_error text code m r ≡ (err stop, r')
      → (e : Error) × (m r ≡ (err e, r'))
  or_error-eq-err text code m r h = masked_err (stop_with (text, code)) (m r).0 (m r).1 (λ a. cc) h

  pub or_500-eq-err :
      (m : M Error A) (r : Router) {stop : Stop} {r' : Router}
      → or_500 m r ≡ (err stop, r')
      → (e : Error) × (m r ≡ (err e, r'))
  or_500-eq-err m r h = masked_err stop_text (m r).0 (m r).1 (λ a. cc) h

pub guard-eq-ok :
    {E : Type 0} (b : Bool) (e : E) (r : Router) {r' : Router}
    → guard b e r ≡ (ok tt, r')
    → (b ≡ true) × (r' ≡ r)
guard-eq-ok true e r h = ground arith
guard-eq-ok false e r h = cc
