-- ===== src/Base/State.antt =====
-- A method on a shared object: a function from its state to an answer or an error, and the next state.
pub mod Laws
pub mod Outcomes
use mathlib.Core.Bool.{Bool, true, false}

pub data Result (E A : Type 0) : Type 0 where
  ok : A → Result E A
  err : E → Result E A

abbrev pub and_then :
    {S E A B : Type 0} → Result E A × S → (A → S → Result E B × S) → Result E B × S
and_then (ok a, s) f = f a s
and_then (err e, s) f = (err e, s)

infixl 5 ◌>>=◌ ◌>>◌
abbrev pub ◌>>=◌ :
    {S E A B : Type 0} → (S → Result E A × S) → (A → S → Result E B × S) → S → Result E B × S
◌>>=◌ m f s = and_then (m s) f

abbrev pub ◌>>◌ :
    {S E B : Type 0} → (S → Result E (Unit {0}) × S) → (S → Result E B × S) → S → Result E B × S
◌>>◌ m k s = and_then (m s) (λ _. k)

abbrev pub return : {S E A : Type 0} → A → S → Result E A × S
return a s = (ok a, s)

abbrev pub throw : {S E A : Type 0} → E → S → Result E A × S
throw e s = (err e, s)

abbrev pub guard : {S E : Type 0} → Bool → E → S → Result E (Unit {0}) × S
guard true e s = (ok tt, s)
guard false e s = (err e, s)
