-- ===== src/Base/Order/Laws.antt =====
-- The sort behind `ORDER BY`: a stable permutation in order.
use mathlib.Core.List.{Perm, perm_middle, append-nil}
use mathlib.Core.List.Perm
use ziyad_messenger.Base.{
  ℕ, zero, suc, ◌+◌, ◌≤◌, Bool, false, ◌≡◌, refl, ap, ◌∙◌, inl, inr, List, [], ◌∷◌, ◌++◌, arith,
  Bool-cases, length, take, any, select, ◌||◌, All, ltb,
}
use ziyad_messenger.Base.Order.{insert_sorted, order_from, order_by}

module _ {A : Type 0} (lt : A → A → Bool) where
  insert_sorted-perm : (a : A) (xs : List A) → Perm (insert_sorted lt a xs) (a ∷ xs)
  unfolding insert_sorted
  insert_sorted-perm a [] = Perm.refl (a ∷ [])
  insert_sorted-perm a (x ∷ xs) = elim (Bool-cases (lt a x)) [
    | inl e ↦ rw e (Perm.refl (a ∷ x ∷ xs))
    | inr e ↦ rw e (Perm.trans (Perm.cons x (insert_sorted-perm a xs)) (Perm.swap a x xs))
  ]

  order_from-perm : (sorted xs : List A) → Perm (order_from lt sorted xs) (sorted ++ xs)
  unfolding order_from
  order_from-perm sorted [] = rw (append-nil sorted) (Perm.refl sorted)
  order_from-perm sorted (x ∷ xs) = Perm.trans (order_from-perm (insert_sorted lt x sorted) xs) (
      Perm.trans (Perm.append_right xs (insert_sorted-perm x sorted))
        (Perm.symm (perm_middle sorted xs)))

  -- Nothing is lost or made up by sorting.
  pub order_by-perm : (xs : List A) → Perm (order_by lt xs) xs
  unfolding order_by
  order_by-perm xs = order_from-perm [] xs

  length-insert_sorted : (a : A) (xs : List A) → length (insert_sorted lt a xs) ≡ suc (length xs)
  unfolding insert_sorted
  length-insert_sorted a [] = refl
  length-insert_sorted a (x ∷ xs) = ground (arith, length-insert_sorted a xs)

  length-order_from :
      (sorted xs : List A) → length (order_from lt sorted xs) ≡ length sorted + length xs
  unfolding order_from
  length-order_from sorted [] = omega arith
  length-order_from sorted (x ∷ xs) =
      omega (arith, length-order_from (insert_sorted lt x sorted) xs, length-insert_sorted x sorted)

  pub length-order_by : (xs : List A) → length (order_by lt xs) ≡ length xs
  unfolding order_by
  length-order_by xs = omega (arith, length-order_from [] xs)

  any-insert_sorted :
      (p : A → Bool) (a : A) (xs : List A) → any p (insert_sorted lt a xs) ≡ (p a || any p xs)
  unfolding insert_sorted
  any-insert_sorted p a [] = refl
  any-insert_sorted p a (x ∷ xs) = ground (arith, any-insert_sorted p a xs)

  any-order_from :
      (p : A → Bool) (sorted xs : List A)
      → any p (order_from lt sorted xs) ≡ (any p sorted || any p xs)
  unfolding order_from
  any-order_from p sorted [] = ground arith
  any-order_from p sorted (x ∷ xs) =
      ground (arith, any-order_from p (insert_sorted lt x sorted) xs, any-insert_sorted p x sorted)

  pub any-order_by : (p : A → Bool) (xs : List A) → any p (order_by lt xs) ≡ any p xs
  unfolding order_by
  any-order_by p xs = any-order_from p [] xs

  length-select-insert_sorted :
      (p : A → Bool) (a : A) (xs : List A)
      → length (select p (insert_sorted lt a xs)) ≡ length (select p (a ∷ xs))
  unfolding insert_sorted
  length-select-insert_sorted p a [] = refl
  length-select-insert_sorted p a (x ∷ xs) = ground (arith, length-select-insert_sorted p a xs)

  length-select-order_from :
      (p : A → Bool) (sorted xs : List A)
      → length (select p (order_from lt sorted xs))
        ≡ length (select p sorted) + length (select p xs)
  unfolding order_from
  length-select-order_from p sorted [] = omega arith
  length-select-order_from p sorted (x ∷ xs) = ground (
    arith,
    length-select-order_from p (insert_sorted lt x sorted) xs,
    length-select-insert_sorted p x sorted,
  )

  pub length-select-order_by :
      (p : A → Bool) (xs : List A) → length (select p (order_by lt xs)) ≡ length (select p xs)
  unfolding order_by
  length-select-order_by p xs = omega (arith, length-select-order_from p [] xs)

  insert_sorted_last :
      (a : A) (xs : List A) → All (λ x. lt a x ≡ false) xs → insert_sorted lt a xs ≡ xs ++ a ∷ []
  unfolding insert_sorted
  insert_sorted_last a [] h = refl
  insert_sorted_last a (x ∷ xs) h = ground (arith, insert_sorted_last a xs h.1)

  All-insert_sorted :
      (P : A → Type 0) (a : A) (xs : List A) → P a → All P xs → All P (insert_sorted lt a xs)
  unfolding insert_sorted
  All-insert_sorted P a [] p h = (p, tt)
  All-insert_sorted P a (x ∷ xs) p h = elim (Bool-cases (lt a x)) [
    | inl e ↦ rw e (p, h)
    | inr e ↦ rw e (h.0, All-insert_sorted P a xs p h.1)
  ]

  All-order_from :
      (P : A → Type 0) (sorted xs : List A)
      → All P sorted
      → All P xs
      → All P (order_from lt sorted xs)
  unfolding order_from
  All-order_from P sorted [] h k = h
  All-order_from P sorted (x ∷ xs) h k =
      All-order_from P (insert_sorted lt x sorted) xs (All-insert_sorted P x sorted k.0 h) k.1

  pub All-order_by : (P : A → Type 0) (xs : List A) → All P xs → All P (order_by lt xs)
  unfolding order_by
  All-order_by P xs h = All-order_from P [] xs tt h

  order_from_last :
      (a : A) (sorted xs : List A)
      → order_from lt sorted (xs ++ a ∷ []) ≡ insert_sorted lt a (order_from lt sorted xs)
  unfolding order_from
  order_from_last a sorted [] = refl
  order_from_last a sorted (x ∷ xs) = order_from_last a (insert_sorted lt x sorted) xs

  -- A last row that comes before no other stays last.
  pub order_by_last :
      (a : A) (xs : List A)
      → All (λ x. lt a x ≡ false) xs
      → order_by lt (xs ++ a ∷ []) ≡ order_by lt xs ++ a ∷ []
  unfolding order_by
  order_by_last a xs h =
      order_from_last a [] xs
      ∙ insert_sorted_last a (order_from lt [] xs) (All-order_from (λ x. lt a x ≡ false) [] xs tt h)

pub take-append_of_le :
    {A : Type 0} (n : ℕ) (xs ys : List A) → n ≤ length xs → take n (xs ++ ys) ≡ take n xs
take-append_of_le zero xs ys h = refl
take-append_of_le (suc n) [] ys h = absurd (omega arith)
take-append_of_le (suc n) (x ∷ xs) ys h = ap (◌∷◌ x) (take-append_of_le n xs ys (omega arith))

-- In order by a number, each before all that stand behind it.
module _ {A : Type 0} (key : A → ℕ) where
  abbrev pub InOrder : List A → Type 0
  InOrder [] = Unit {0}
  InOrder (x ∷ xs) = All (λ y. key x ≤ key y) xs × InOrder xs

  abbrev by_key : A → A → Bool
  by_key a b = ltb (key a) (key b)

  All-le_trans :
      (a x : A) (xs : List A)
      → key a ≤ key x
      → All (λ y. key x ≤ key y) xs
      → All (λ y. key a ≤ key y) xs
  All-le_trans a x [] h k = tt
  All-le_trans a x (y ∷ ys) h k = (omega arith, All-le_trans a x ys h k.1)

  InOrder-insert_sorted : (a : A) (xs : List A) → InOrder xs → InOrder (insert_sorted by_key a xs)
  unfolding insert_sorted
  InOrder-insert_sorted a [] o = (tt, tt)
  InOrder-insert_sorted a (x ∷ xs) o = elim (Bool-cases (by_key a x)) [
    | inl e ↦
        let less : key a ≤ key x = ground arith in rw e ((less, All-le_trans a x xs less o.0), o)
    | inr e ↦ rw e (
      All-insert_sorted by_key (λ y. key x ≤ key y) a xs (ground arith) o.0,
      InOrder-insert_sorted a xs o.1,
    )
  ]

  InOrder-order_from : (sorted xs : List A) → InOrder sorted → InOrder (order_from by_key sorted xs)
  unfolding order_from
  InOrder-order_from sorted [] o = o
  InOrder-order_from sorted (x ∷ xs) o =
      InOrder-order_from (insert_sorted by_key x sorted) xs (InOrder-insert_sorted x sorted o)

  pub order_by-InOrder : (xs : List A) → InOrder (order_by by_key xs)
  unfolding order_by
  order_by-InOrder xs = InOrder-order_from [] xs tt
