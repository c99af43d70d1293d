-- ===== src/Base/Order.antt =====
-- `ORDER BY … ASC`, as a stable insertion sort, and the order of texts by their bytes.
pub mod Laws
use Prim.Native.String.{compare}
use text.Mathlib.Text.{is_lt}
use ziyad_messenger.Base.{String, Bool, List, [], ◌∷◌, if◌then◌else◌}

-- `s < t` on Go strings and on TEXT columns.
abbrev pub text_lt : String → String → Bool
text_lt s t = is_lt (compare s t)

module _ {A : Type 0} (lt : A → A → Bool) where
  -- Behind its equals: rows that compare alike keep the order in which they came.
  unfoldable pub insert_sorted : A → List A → List A
  insert_sorted a [] = a ∷ []
  insert_sorted a (x ∷ xs) = if lt a x then a ∷ x ∷ xs else x ∷ insert_sorted a xs

  unfoldable pub order_from : List A → List A → List A
  unfolding insert_sorted
  order_from sorted [] = sorted
  order_from sorted (x ∷ xs) = order_from (insert_sorted x sorted) xs

  unfoldable pub order_by : List A → List A
  unfolding order_from
  order_by xs = order_from [] xs
