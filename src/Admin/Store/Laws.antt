-- ===== src/Admin/Store/Laws.antt =====
-- Relations between the tables before and after a handler, followed through the calls it makes.
pub use ziyad_messenger.Base.State.Laws.{
  and_then-eq-ok, and_then-eq-err, Keeps, Keeps-bind, Keeps-seq,
}
use ziyad_messenger.Base.{ℕ, String, Bool, true, false, Option, none, some, ◌≡◌, refl}
use ziyad_messenger.Base.State.{Result, ok, err, return, guard}
use ziyad_messenger.Admin.Store.{
  Db, Service, stored, answer, fault, query, exec, or_not_found, bound, bound_with,
}

-- A statement that takes tables only to tables related to them.
abbrev pub Respects : (Db → Db → Type 0) → (Db → Result String (ℕ × Db)) → Type 0
Respects R u = (d d' : Db) (n : ℕ) → u d ≡ ok (n, d') → R d d'

-- The relation of the services that their tables have.
abbrev pub Tables : (Db → Db → Type 0) → Service → Service → Type 0
Tables R s s' = R s.db s'.db

module _ (R : Db → Db → Type 0) (R-refl : (d : Db) → R d d) where
  pub Keeps-query : {A : Type 0} (q : Db → Result String A) → Keeps (Tables R) (query q)
  unfolding query
  Keeps-query q s = R-refl s.db

  Keeps-stored :
      (d : Db) (f : Option String) (x : Result String (ℕ × Db))
      → ((d' : Db) (n : ℕ) → x ≡ ok (n, d') → R d d')
      → R d (stored d (answer f x))
  Keeps-stored d (some text) x h = R-refl d
  Keeps-stored d none (ok (n, d')) h = h d' n refl
  Keeps-stored d none (err e) h = R-refl d

  pub Keeps-exec : (u : Db → Result String (ℕ × Db)) → Respects R u → Keeps (Tables R) (exec u)
  unfolding exec
  Keeps-exec u h s = Keeps-stored s.db (fault s.faults) (u s.db) (h s.db)

  pub Keeps-return : {A : Type 0} (E : Type 0) (a : A) → Keeps (Tables R) {E = E} (return a)
  Keeps-return E a s = R-refl s.db

  pub Keeps-guard : {E : Type 0} (b : Bool) (e : E) → Keeps (Tables R) (guard b e)
  Keeps-guard true e s = R-refl s.db
  Keeps-guard false e s = R-refl s.db

  pub Keeps-or_not_found : (text : String) (n : ℕ) → Keeps (Tables R) (or_not_found text n)
  Keeps-or_not_found text ℕ.zero s = R-refl s.db
  Keeps-or_not_found text (ℕ.suc n) s = R-refl s.db

  pub Keeps-bound : {A : Type 0} (a : Option A) → Keeps (Tables R) (bound a)
  Keeps-bound none s = R-refl s.db
  Keeps-bound (some a) s = R-refl s.db

  pub Keeps-bound_with :
      {A : Type 0} (p : A → Bool) (a : Option A) → Keeps (Tables R) (bound_with p a)
  Keeps-bound_with p none s = R-refl s.db
  Keeps-bound_with p (some a) s = R-refl s.db
