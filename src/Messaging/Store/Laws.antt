-- ===== src/Messaging/Store/Laws.antt =====
-- Taking a run of the router's monad apart.
pub use ziyad_messenger.Base.State.Laws.{and_then-eq-ok, and_then-eq-err}
use ziyad_messenger.Base.{◌≡◌, refl, arith}
use ziyad_messenger.Messaging.Store.{
  Db, Router, Error, Result, ok, err, M, query, exec, keep_or_restore, transaction,
}

-- What a read leaves as it was.
pub record SameState (r r' : Router) : Type 0 where
  pub db : r'.db ≡ r.db
  pub clients : r'.clients ≡ r.clients
  pub next_conn : r'.next_conn ≡ r.next_conn
  pub closed : r'.closed ≡ r.closed

pub query-SameState :
    {A : Type 0} (q : Db → Result Error A) (r : Router) → SameState r (query q r).1
unfolding query
query-SameState q r = record { db = refl; clients = refl; next_conn = refl; closed = refl }

pub SameState-refl : (r : Router) → SameState r r
SameState-refl r = record { db = refl; clients = refl; next_conn = refl; closed = refl }

pub SameState-trans : {q r s : Router} → SameState q r → SameState r s → SameState q s
SameState-trans a b = ground arith

pub query-eq-err :
    {A : Type 0} (q : Db → Result Error A) (r : Router) {e : Error} {r' : Router}
    → query q r ≡ (err e, r')
    → SameState r r'
unfolding query
query-eq-err q r h = ground arith

-- A read that succeeds found its answer in the tables.
pub query-eq-ok :
    {A : Type 0} (q : Db → Result Error A) (r : Router) {a : A} {r' : Router}
    → query q r ≡ (ok a, r')
    → (q r.db ≡ ok a) × SameState r r'
unfolding query
query-eq-ok q r h = ground arith

-- What a write leaves as it was.
pub record SameClients (r r' : Router) : Type 0 where
  pub clients : r'.clients ≡ r.clients
  pub next_conn : r'.next_conn ≡ r.next_conn
  pub closed : r'.closed ≡ r.closed

pub SameClients-trans : {q r s : Router} → SameClients q r → SameClients r s → SameClients q s
SameClients-trans a b = ground arith

pub SameState-SameClients : {r r' : Router} → SameState r r' → SameClients r r'
SameState-SameClients s = record { clients = s.clients; next_conn = s.next_conn; closed = s.closed }

-- From `r` to `r'` by a write.
abbrev pub Wrote : (Db → Result Error Db) → Router → Router → Type 0
Wrote u r r' = (u r.db ≡ ok r'.db) × SameClients r r'

-- A write that succeeds put its result in place of the tables.
pub exec-eq-ok :
    (u : Db → Result Error Db) (r : Router) {r' : Router} → exec u r ≡ (ok tt, r') → Wrote u r r'
unfolding exec
exec-eq-ok u r e = ground arith

keep_or_restore-eq-ok :
    {A : Type 0} (x : Result Error A × Router) (d : Db) {a : A} {r' : Router}
    → keep_or_restore d x ≡ (ok a, r')
    → x ≡ (ok a, r')
keep_or_restore-eq-ok (ok a, q) d h = h
keep_or_restore-eq-ok (err e, q) d h = cc

keep_or_restore-eq-err :
    {A : Type 0} (x : Result Error A × Router) (d : Db) {e : Error} {r' : Router}
    → keep_or_restore d x ≡ (err e, r')
    → r'.db ≡ d
keep_or_restore-eq-err (ok a, q) d h = cc
keep_or_restore-eq-err (err e, q) d h = ground arith

module _ {A : Type 0} (m : M Error A) where
  -- A transaction that fails leaves the tables as they were.
  pub transaction-eq-err :
      (r : Router) {e : Error} {r' : Router} → transaction m r ≡ (err e, r') → r'.db ≡ r.db
  unfolding transaction
  transaction-eq-err r h = keep_or_restore-eq-err _ r.db h

  -- One that succeeds ran its statements to their end, on the same tables.
  pub transaction-eq-ok :
      (r : Router) {a : A} {r' : Router}
      → transaction m r ≡ (ok a, r')
      → (q q' : Router) × SameState r q × (m q ≡ (ok a, q')) × SameState q' r'
  unfolding transaction
  transaction-eq-ok r h =
      let (_, q, begun, h₁) =
        and_then-eq-ok (query (λ _. ok tt) r) _ (keep_or_restore-eq-ok _ r.db h) in
      let (a, q', ran, h₂) = and_then-eq-ok (m q) _ h₁ in
      let (_, s, committed, h₃) = and_then-eq-ok (query (λ _. ok tt) q') _ h₂ in
      let same = (query-eq-ok (λ _. ok tt) q' committed).1 in
      (
        q,
        q',
        (query-eq-ok (λ _. ok tt) r begun).1,
        ground (arith, ran, h₃),
        ground (arith, same, h₃),
      )

pub exec-eq-err :
    (u : Db → Result Error Db) (r : Router) {e : Error} {r' : Router}
    → exec u r ≡ (err e, r')
    → SameState r r'
unfolding exec
exec-eq-err u r h = ground arith
