-- ===== src/Base/State/Laws.antt =====
-- Taking a chain of calls apart.
use mathlib.Core.Path.{◌≡◌, refl}
use mathlib.Core.Logic.{◌⊎◌, inl, inr}
use native.Mathlib.Omega.{arith}
use ziyad_messenger.Base.State.{Result, ok, err, and_then, ◌>>=◌, ◌>>◌}

module _ {S E A B : Type 0} where
  -- A chain succeeds only through a success of its first part.
  pub and_then-eq-ok :
      (x : Result E A × S) (f : A → S → Result E B × S) {b : B} {s' : S}
      → and_then x f ≡ (ok b, s')
      → (a : A) × (s : S) × (x ≡ (ok a, s)) × (f a s ≡ (ok b, s'))
  and_then-eq-ok (ok a, s) f h = (a, s, refl, h)
  and_then-eq-ok (err e, s) f h = cc

  -- A chain fails in its first part, or behind a success of it.
  pub and_then-eq-err :
      (x : Result E A × S) (f : A → S → Result E B × S) {e : E} {s' : S}
      → and_then x f ≡ (err e, s')
      → (x ≡ (err e, s')) ⊎ ((a : A) × (s : S) × (x ≡ (ok a, s)) × (f a s ≡ (err e, s')))
  and_then-eq-err (ok a, s) f h = inr (a, s, refl, h)
  and_then-eq-err (err e, s) f h = inl (ground arith)

-- A method that takes each state to one related to it. The relation composes.
module _ {S : Type 0} (R : S → S → Type 0) where
  abbrev pub Keeps : {E A : Type 0} → (S → Result E A × S) → Type 0
  Keeps m = (s : S) → R s (m s).1

module _ {S : Type 0} (R : S → S → Type 0) (R-trans : (a b c : S) → R a b → R b c → R a c) where
  pub Keeps-and_then :
      {E A B : Type 0} (s : S) (x : Result E A × S) (f : A → S → Result E B × S)
      → R s x.1
      → ((a : A) → Keeps R (f a))
      → R s (and_then x f).1
  Keeps-and_then s (ok a, t) f h k = R-trans s t (f a t).1 h (k a t)
  Keeps-and_then s (err e, t) f h k = h

  pub Keeps-bind :
      {E A B : Type 0} (m : S → Result E A × S) (f : A → S → Result E B × S)
      → Keeps R m
      → ((a : A) → Keeps R (f a))
      → Keeps R (m >>= f)
  Keeps-bind m f h k s = Keeps-and_then s (m s) f (h s) k

  pub Keeps-seq :
      {E B : Type 0} (m : S → Result E (Unit {0}) × S) (k : S → Result E B × S)
      → Keeps R m
      → Keeps R k
      → Keeps R (m >> k)
  Keeps-seq m k h h' s = Keeps-and_then s (m s) (λ _. k) (h s) (λ _. h')
