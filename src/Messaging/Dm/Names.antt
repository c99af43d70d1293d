-- ===== src/Messaging/Dm/Names.antt =====
-- The name of a DM channel: the same for both users, and different for different pairs.
use Prim.Native.Nat.{Ordering, lt, eq, gt}
use Prim.Native.Nat.compare as compare_ℕ
use Prim.Native.Nat.{compare as compare_ℕ}
use Prim.Native.Char.{Char, code}
use Prim.Native.String.compare
use Prim.Native.String.{compare, then as or_next}
use Prim.Native.String
use text.Mathlib.TextEquality.{path_by_compare}
use text.Mathlib.TextLemmas.{
  cons-append, nil-append, append_cancel_left, head-eq_of_cons-eq, tail-eq_of_cons-eq,
}
use mathlib.Core.Path.{ap₂}
use ziyad_messenger.Base.{
  ℕ, zero, suc, String, true, false, ◌≡◌, refl, sym, ap, ◌∙◌, ◌⊎◌, inl, inr, arith,
}
use ziyad_messenger.Base.Text.{contains_char}
use ziyad_messenger.Base.Order.{text_lt}
use ziyad_messenger.Messaging.Dm.{dm_name, dm_id}

abbrev flip : Ordering → Ordering
flip lt = gt
flip eq = eq
flip gt = lt

flip-or_next : (a b : Ordering) → flip (or_next a b) ≡ or_next (flip a) (flip b)
flip-or_next lt b = refl
flip-or_next eq b = refl
flip-or_next gt b = refl

flip-compare_ℕ : (m n : ℕ) → compare_ℕ m n ≡ flip (compare_ℕ n m)
flip-compare_ℕ zero zero = refl
flip-compare_ℕ zero (suc n) = rw (compare_ℕ.zero-suc n, compare_ℕ.suc-zero n)
flip-compare_ℕ (suc m) zero = rw (compare_ℕ.zero-suc m, compare_ℕ.suc-zero m)
flip-compare_ℕ (suc m) (suc n) =
    rw (compare_ℕ.suc-suc m n, compare_ℕ.suc-suc n m) (flip-compare_ℕ m n)

flip-compare : (s t : String) → compare s t ≡ flip (compare t s)
flip-compare String.[] String.[] = refl
flip-compare String.[] (String.◌∷◌ d t) = rw (compare.nil-cons d t, compare.cons-nil d t)
flip-compare (String.◌∷◌ c s) String.[] = rw (compare.nil-cons c s, compare.cons-nil c s)
flip-compare (String.◌∷◌ c s) (String.◌∷◌ d t) =
    rw (compare.cons-cons c d s t, compare.cons-cons d c t s)
      (sym (
        flip-or_next (compare_ℕ (code d) (code c)) (compare t s)
        ∙ ap₂ or_next (sym (flip-compare_ℕ (code c) (code d))) (sym (flip-compare s t))))

-- Of two texts one comes first, or they are equal.
text_lt_total :
    (s t : String)
    → ((text_lt s t ≡ true) × (text_lt t s ≡ false))
      ⊎ ((text_lt s t ≡ false) × (text_lt t s ≡ true))
      ⊎ (s ≡ t)
text_lt_total s t = go (compare s t) refl
  where
    go :
        (o : Ordering)
        → compare s t ≡ o
        → ((text_lt s t ≡ true) × (text_lt t s ≡ false))
          ⊎ ((text_lt s t ≡ false) × (text_lt t s ≡ true))
          ⊎ (s ≡ t)
    go lt e = inl (rw e, rw (flip-compare t s, e))
    go gt e = inr (inl (rw e, rw (flip-compare t s, e)))
    go eq e = inr (inr (path_by_compare s t e))

-- Both users of a DM find it under one name.
pub dm_id_comm : (u v : String) → dm_id u v ≡ dm_id v u
unfolding dm_id
dm_id_comm u v = elim (text_lt_total u v) [
  | inl (p, q) ↦ rw (p, q)
  | inr (inl (p, q)) ↦ rw (p, q)
  | inr (inr e) ↦ rw e
]

abbrev pub HasNoColon : String → Type 0
HasNoColon u = contains_char b':' u ≡ false

abbrev colon : Char
colon = ":"

colon-append : (s : String) → String.◌++◌ ":" s ≡ String.◌∷◌ colon s
colon-append s = cons-append colon String.[] s ∙ ap (String.◌∷◌ colon) (nil-append s)

not-colon-head :
    {d : Char} {s t : String} (q : String)
    → HasNoColon (String.◌∷◌ d q)
    → String.◌∷◌ colon s ≡ String.◌∷◌ d t
    → ⊥
unfolding contains_char
not-colon-head {d} q h e = go (sym (head-eq_of_cons-eq e)) h
  where
    go : d ≡ colon → HasNoColon (String.◌∷◌ d q) → ⊥
    go p k = cc (rw p at k)

-- A text with no colon in front of a colon is found again.
pair_inj :
    (p q s t : String)
    → HasNoColon p
    → HasNoColon q
    → String.◌++◌ p (String.◌∷◌ colon s) ≡ String.◌++◌ q (String.◌∷◌ colon t)
    → (p ≡ q) × (s ≡ t)
unfolding contains_char
pair_inj String.[] String.[] s t hp hq e =
    (refl, tail-eq_of_cons-eq (sym (nil-append _) ∙ e ∙ nil-append _))
pair_inj String.[] (String.◌∷◌ d q) s t hp hq e =
    absurd (not-colon-head q hq (sym (nil-append _) ∙ e ∙ cons-append d q _))
pair_inj (String.◌∷◌ c p) String.[] s t hp hq e =
    absurd (not-colon-head p hp (sym (nil-append _) ∙ sym e ∙ cons-append c p _))
pair_inj (String.◌∷◌ c p) (String.◌∷◌ d q) s t hp hq e =
    let f : String.◌∷◌ c (String.◌++◌ p (String.◌∷◌ colon s))
        ≡ String.◌∷◌ d (String.◌++◌ q (String.◌∷◌ colon t)) =
      sym (cons-append c p _) ∙ e ∙ cons-append d q _ in
    let (same, rest) = pair_inj p q s t (ground arith) (ground arith) (tail-eq_of_cons-eq f) in
    (ap₂ String.◌∷◌ (head-eq_of_cons-eq f) same, rest)

dm_name_inj :
    (p q s t : String) → HasNoColon p → HasNoColon q → dm_name p s ≡ dm_name q t → (p ≡ q) × (s ≡ t)
dm_name_inj p q s t hp hq e = pair_inj p q s t hp hq (
    ap (String.◌++◌ p) (sym (colon-append s))
    ∙ append_cancel_left "dm:" _ _ e
    ∙ ap (String.◌++◌ q) (colon-append t))

-- Two pairs of user ids without a colon have one DM name only if they are the same two users.
pub dm_id_inj :
    (u v s t : String)
    → HasNoColon u
    → HasNoColon v
    → HasNoColon s
    → HasNoColon t
    → dm_id u v ≡ dm_id s t
    → ((u ≡ s) × (v ≡ t)) ⊎ ((u ≡ t) × (v ≡ s))
unfolding dm_id
dm_id_inj u v s t hu hv hs ht e = ground (
  arith,
  dm_name_inj u s v t hu hs,
  dm_name_inj u t v s hu ht,
  dm_name_inj v s u t hv hs,
  dm_name_inj v t u s hv ht,
)

-- With a colon in an id two different pairs can meet.
pub dm_id_collides : dm_id "a" "b:c" ≡ dm_id "a:b" "c"
unfolding dm_id
dm_id_collides = refl
