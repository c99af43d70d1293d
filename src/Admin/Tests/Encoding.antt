-- ===== src/Admin/Tests/Encoding.antt =====
-- A faithful text of a list of texts.
use Prim.Native.Char.{Char, code}
use Prim.Native.String.{String, [], ◌∷◌}
use mathlib.Core.List.{List}
use ziyad_messenger.Base.{ℕ, ◌≡◌, ◌≢◌, refl, ap, arith, eqb, if◌then◌else◌}
use ziyad_messenger.Admin.Roles.{Json}
use ziyad_messenger.Admin.Roles.Permissions.{IsFaithful}

abbrev go_on : Char
go_on = "a"

abbrev end : Char
end = "b"

unfoldable pub put_text : String → String → String
put_text [] rest = end ∷ rest
put_text (c ∷ s) rest = go_on ∷ c ∷ put_text s rest

unfoldable pub put_texts : List String → String
unfolding put_text
put_texts List.[] = []
put_texts (List.◌∷◌ p ps) = put_text p (put_texts ps)

abbrev push : Char → List String → List String
push c List.[] = List.[]
push c (List.◌∷◌ p ps) = List.◌∷◌ (c ∷ p) ps

unfoldable pub get_texts : String → List String
get_texts [] = List.[]
get_texts (c ∷ []) = List.◌∷◌ [] List.[]
get_texts (c ∷ d ∷ s) =
    let behind = get_texts s in
    let rest = get_texts (d ∷ s) in if eqb (code c) b'a' then push d behind else List.◌∷◌ [] rest

get-put_text : (p rest : String) → get_texts (put_text p rest) ≡ List.◌∷◌ p (get_texts rest)
unfolding get_texts put_text
get-put_text [] [] = refl
get-put_text [] (c ∷ rest) = refl
get-put_text (c ∷ p) rest = ground (arith, get-put_text p rest)

get-put_texts : (ps : List String) → get_texts (put_texts ps) ≡ ps
unfolding put_texts get_texts
get-put_texts List.[] = refl
get-put_texts (List.◌∷◌ p ps) = ground (arith, get-put_text p (put_texts ps), get-put_texts ps)

abbrev first_code : String → ℕ
first_code [] = 0
first_code (c ∷ s) = code c

abbrev pub json : Json
json = record { marshal = put_texts; unmarshal = get_texts }

pub json-IsFaithful : IsFaithful json
unfolding put_texts put_text
json-IsFaithful = record { decodes = get-put_texts; brackets = brackets_ne; text = text_ne }
  where
    brackets_ne : (p : String) (ps : List String) → put_texts (List.◌∷◌ p ps) ≢ "[]"
    brackets_ne [] ps h = omega (arith, ap first_code h)
    brackets_ne (c ∷ p) ps h = omega (arith, ap first_code h)

    text_ne : (p : String) (ps : List String) → put_texts (List.◌∷◌ p ps) ≢ ""
    text_ne [] ps h = omega (arith, ap first_code h)
    text_ne (c ∷ p) ps h = omega (arith, ap first_code h)
