-- ===== src/Base/Assoc/Keys.antt =====
-- A predicate on the keys of a map.
use Prim.Native.String.{String}
use mathlib.Core.Path.{◌≡◌, subst}
use mathlib.Core.Option.{some}
use mathlib.Core.Logic.{inl, inr}
use mathlib.Core.List.{List, [], ◌∷◌}
use text.Mathlib.Text.{◌==◌}
use text.Mathlib.TextEquality.{eq_iff}
use ziyad_messenger.Base.Tests.{Bool-cases}
use ziyad_messenger.Base.Assoc.{insert, delete, lookup}

module _ {V : Type 0} (P : String → Type 0) where
  abbrev pub AllKeys : List (String × V) → Type 0
  AllKeys [] = Unit {0}
  AllKeys ((key, v) ∷ m) = P key × AllKeys m

  pub AllKeys-insert :
      (key : String) (v : V) (m : List (String × V)) → P key → AllKeys m → AllKeys (insert key v m)
  unfolding insert
  AllKeys-insert key v [] p h = (p, tt)
  AllKeys-insert key v ((name, old) ∷ m) p h = elim (Bool-cases (name == key)) [
    | inl e ↦ rw e (p, h.1)
    | inr e ↦ rw e (h.0, AllKeys-insert key v m p h.1)
  ]

  pub AllKeys-delete : (key : String) (m : List (String × V)) → AllKeys m → AllKeys (delete key m)
  unfolding delete
  AllKeys-delete key [] h = tt
  AllKeys-delete key ((name, old) ∷ m) h = elim (Bool-cases (name == key)) [
    | inl e ↦ rw e (AllKeys-delete key m h.1)
    | inr e ↦ rw e (h.0, AllKeys-delete key m h.1)
  ]

  -- A key that is found satisfies it.
  pub AllKeys-lookup :
      (key : String) (m : List (String × V)) {v : V} → lookup key m ≡ some v → AllKeys m → P key
  unfolding lookup
  AllKeys-lookup key [] e h = cc
  AllKeys-lookup key ((name, old) ∷ m) e h = elim (Bool-cases (name == key)) [
    | inl same ↦ subst P ((eq_iff name key).0 same) h.0
    | inr other ↦ AllKeys-lookup key m (rw other at e) h.1
  ]
