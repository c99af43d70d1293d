-- ===== src/FileTransfer/Names.antt =====
-- What backend/services/filetransfer/main.go uses of Go's `strings` and `path/filepath` on names.
use Prim.Native.Nat.{ℕ}
use Prim.Native.Char.{code}
use Prim.Native.String.{String, [], ◌∷◌, ◌++◌}
use ziyad_messenger.Base.{
  Bool, true, false, ◌||◌, ◌&&◌, not, eq_iff, Option, none, some, ◌≡◌, refl, arith, eqb, ◌==◌,
  eq_refl, if◌then◌else◌,
}
use ziyad_messenger.Base.Text.{contains_char}
use text.Mathlib.TextLemmas.{cons-append, nil-append}

-- What is left behind a prefix.
unfoldable pub strip_prefix : String → String → Option String
strip_prefix [] s = some s
strip_prefix (c ∷ p) [] = none
strip_prefix (c ∷ p) (d ∷ s) =
    let rest = strip_prefix p s in if eqb (code c) (code d) then rest else none

abbrev is_some : Option String → Bool
is_some none = false
is_some (some s) = true

-- `strings.Contains`
unfoldable pub contains : String → String → Bool
unfolding strip_prefix
contains part [] = part == ""
contains part (c ∷ s) = is_some (strip_prefix part (c ∷ s)) || contains part s

unfoldable pub has_suffix : String → String → Bool
has_suffix suffix [] = suffix == ""
has_suffix suffix (c ∷ s) = suffix == (c ∷ s) || has_suffix suffix s

-- `filepath.Ext`: from the last dot of the last element.
unfoldable pub ext : String → String
unfolding contains_char
ext [] = ""
ext (c ∷ s) =
    let rest = ext s in
    if not (rest == "")
    then rest
    else if eqb (code c) b'.' && not (contains_char b'/' s)
    then c ∷ s
    else ""

-- An extension has no separator.
pub ext_plain : (s : String) → contains_char b'/' (ext s) ≡ false
unfolding ext contains_char
ext_plain [] = refl
ext_plain (c ∷ s) = ground (arith, ext_plain s, eq_iff (ext s) "")

pub strip_prefix-append : (p s : String) → strip_prefix p (p ++ s) ≡ some s
unfolding strip_prefix
strip_prefix-append [] s = ground (arith, nil-append s)
strip_prefix-append (c ∷ p) s = rw (cons-append c p s) (ground (arith, strip_prefix-append p s))

pub has_suffix_self : (s : String) → has_suffix s s ≡ true
unfolding has_suffix
has_suffix_self [] = refl
has_suffix_self (c ∷ s) = ground (arith, eq_refl (c ∷ s))

pub has_suffix-append : (suffix s : String) → has_suffix suffix (s ++ suffix) ≡ true
unfolding has_suffix
has_suffix-append suffix [] = rw (nil-append suffix) (has_suffix_self suffix)
has_suffix-append suffix (c ∷ s) =
    rw (cons-append c s suffix) (ground (arith, has_suffix-append suffix s))

pub contains_char-append :
    (sep : ℕ) (s t : String)
    → contains_char sep (s ++ t) ≡ (contains_char sep s || contains_char sep t)
unfolding contains_char
contains_char-append sep [] t = ground (arith, nil-append t)
contains_char-append sep (c ∷ s) t =
    rw (cons-append c s t) (ground (arith, contains_char-append sep s t))
