-- ===== src/Base/Text.antt =====
-- What the services use of Go's `strings`: `TrimSpace`, `Split` and `SplitN` at one character.
use Prim.Native.Nat.{ℕ}
use Prim.Native.Char.{code}
use Prim.Native.String.{String, [], ◌∷◌}
use mathlib.Core.Bool.{Bool, true, false, not, ◌&&◌, ◌||◌}
use mathlib.Core.Path.{◌≡◌, refl}
use mathlib.Core.Option.{Option, none, some}
use ziyad_messenger.Base.Tests.{if◌then◌else◌, leb, eqb}

-- `unicode.IsSpace`.
abbrev pub is_space : ℕ → Bool
is_space c =
    (leb 9 c && leb c 13)
    || eqb c 32
    || eqb c 0x85
    || eqb c 0xa0
    || eqb c 0x1680
    || (leb 0x2000 c && leb c 0x200a)
    || eqb c 0x2028
    || eqb c 0x2029
    || eqb c 0x202f
    || eqb c 0x205f
    || eqb c 0x3000

unfoldable pub trim_left : String → String
trim_left [] = []
trim_left (c ∷ s) = if is_space (code c) then trim_left s else c ∷ s

abbrev is_empty : String → Bool
is_empty [] = true
is_empty (c ∷ s) = false

unfoldable pub trim_right : String → String
trim_right [] = []
trim_right (c ∷ s) =
    let rest = trim_right s in if is_space (code c) && is_empty rest then [] else c ∷ rest

unfoldable pub trim_space : String → String
unfolding trim_left trim_right
trim_space s = trim_left (trim_right s)

-- What stands before the first `sep`, and what stands behind it if it occurs.
unfoldable pub cut : ℕ → String → String × Option String
cut sep [] = ([], none)
cut sep (c ∷ s) =
    let (before, after) = cut sep s in
    if eqb (code c) sep then ([], some s) else (c ∷ before, after)

-- Does every character pass the test?
unfoldable pub all_chars : (ℕ → Bool) → String → Bool
all_chars p [] = true
all_chars p (c ∷ s) = p (code c) && all_chars p s

unfoldable pub contains_char : ℕ → String → Bool
contains_char sep [] = false
contains_char sep (c ∷ s) = eqb (code c) sep || contains_char sep s

abbrev after_bracket : String → Option String → Option String
after_bracket host none = none
after_bracket host (some []) = none
after_bracket host (some (c ∷ port)) =
    if eqb (code c) b':'
      && not (
          contains_char b'[' host
          || contains_char b':' port
          || contains_char b'[' port
          || contains_char b']' port)
    then some host
    else none

abbrev before_colon : String → Option String → Option String
before_colon host none = none
before_colon host (some port) =
    if contains_char b'[' host
      || contains_char b']' host
      || contains_char b':' port
      || contains_char b'[' port
      || contains_char b']' port
    then none
    else some host

-- The host of `net.SplitHostPort`; `none` where it returns an error.
unfoldable pub split_host_port : String → Option String
unfolding cut contains_char
split_host_port [] = none
split_host_port (c ∷ s) =
    let (inner, after) = cut b']' s in
    let (host, port) = cut b':' (c ∷ s) in
    if eqb (code c) b'[' then after_bracket inner after else before_colon host port

split_host_port_v4 : split_host_port "10.0.0.7:5123" ≡ some "10.0.0.7"
unfolding split_host_port
split_host_port_v4 = refl

split_host_port_v6 : split_host_port "[::1]:80" ≡ some "::1"
unfolding split_host_port
split_host_port_v6 = refl

split_host_port_bare : split_host_port "::1" ≡ none
unfolding split_host_port
split_host_port_bare = refl

trim_space_tabs : trim_space " \t a b \n" ≡ "a b"
unfolding trim_space
trim_space_tabs = refl
