-- ===== src/Base/Assoc.antt =====
-- A Go map with text keys as an association list: `m[k]`, `m[k] = v` and `delete(m, k)`.
pub mod Keys
use Prim.Native.String.{String}
use mathlib.Core.Path.{◌≡◌, refl}
use mathlib.Core.Option.{Option, none, some}
use mathlib.Core.List.{List, [], ◌∷◌}
use native.Mathlib.Omega.{arith}
use text.Mathlib.Text.{◌==◌}
use text.Mathlib.TextEquality.{eq_iff}
use ziyad_messenger.Base.Tests.{if◌then◌else◌}

module _ {ℓ} {V : Type ℓ} where
  unfoldable pub delete : String → List (String × V) → List (String × V)
  delete key [] = []
  delete key ((name, old) ∷ rest) =
      if name == key then delete key rest else (name, old) ∷ delete key rest

  unfoldable pub insert : String → V → List (String × V) → List (String × V)
  insert key new [] = (key, new) ∷ []
  insert key new ((name, old) ∷ rest) =
      if name == key then (key, new) ∷ rest else (name, old) ∷ insert key new rest

  unfoldable pub lookup : String → List (String × V) → Option V
  lookup key [] = none
  lookup key ((name, old) ∷ rest) = if name == key then some old else lookup key rest

  -- The zero value stands for a missing key.
  abbrev pub get_or : String → V → List (String × V) → V
  get_or key zero_value m = elim (lookup key m) [ none ↦ zero_value | some found ↦ found ]

  pub lookup-delete :
      (key other : String) (m : List (String × V))
      → lookup other (delete key m) ≡ (if key == other then none else lookup other m)
  unfolding delete lookup
  lookup-delete key other [] = ground arith
  lookup-delete key other ((name, old) ∷ rest) =
      ground
        (arith, lookup-delete key other rest, eq_iff key other, eq_iff name key, eq_iff name other)

  pub lookup-insert :
      (key other : String) (new : V) (m : List (String × V))
      → lookup other (insert key new m) ≡ (if key == other then some new else lookup other m)
  unfolding insert lookup
  lookup-insert key other new [] = refl
  lookup-insert key other new ((name, old) ∷ rest) = ground (
    arith,
    lookup-insert key other new rest,
    eq_iff key other,
    eq_iff name key,
    eq_iff name other,
  )
