-- ===== src/Base/State/Outcomes.antt =====
-- What a run gives: an answer and a state of which `Q` holds, or an error and a state of which `I` holds.
use ziyad_messenger.Base.State.{Result, ok, err, and_then, guard}
use mathlib.Core.Bool.{Bool, true, false}
use mathlib.Core.Path.{◌≡◌, refl}

module _ {S : Type 0} (I : S → Type 0) where
  abbrev pub Outcome : {E A : Type 0} → (A → S → Type 0) → Result E A × S → Type 0
  Outcome Q (ok a, s) = Q a s
  Outcome Q (err e, s) = I s

  pub Outcome-and_then :
      {E A B : Type 0} (Q : A → S → Type 0) (T : B → S → Type 0) (x : Result E A × S)
      (f : A → S → Result E B × S)
      → Outcome Q x
      → ((a : A) (s : S) → Q a s → Outcome T (f a s))
      → Outcome T (and_then x f)
  Outcome-and_then Q T (ok a, s) f h k = k a s h
  Outcome-and_then Q T (err e, s) f h k = h

  pub Outcome-cases :
      {E A : Type 0} (Q : A → S → Type 0) (x : Result E A × S)
      → ((a : A) (s : S) → x ≡ (ok a, s) → Q a s)
      → ((e : E) (s : S) → x ≡ (err e, s) → I s)
      → Outcome Q x
  Outcome-cases Q (ok a, s) h k = h a s refl
  Outcome-cases Q (err e, s) h k = k e s refl

  pub Outcome-mono :
      {E A : Type 0} (Q T : A → S → Type 0) (x : Result E A × S)
      → Outcome Q x
      → ((a : A) (s : S) → Q a s → T a s)
      → Outcome T x
  Outcome-mono Q T (ok a, s) h k = k a s h
  Outcome-mono Q T (err e, s) h k = h

  -- Behind a guard its condition holds.
  pub Outcome-guard :
      {E : Type 0} (b : Bool) (e : E) (s : S)
      → I s
      → Outcome (λ _ t. I t × (b ≡ true)) (guard b e s)
  Outcome-guard true e s h = (h, refl)
  Outcome-guard false e s h = h

  -- When either way keeps `I`, so does the run.
  pub Outcome-state :
      {E A : Type 0} (Q : A → S → Type 0) (x : Result E A × S)
      → Outcome Q x
      → ((a : A) (s : S) → Q a s → I s)
      → I x.1
  Outcome-state Q (ok a, s) h k = k a s h
  Outcome-state Q (err e, s) h k = h
