-- ===== src/RateLimiter/Window.antt =====
-- The queue that the limiter keeps for one address, against all times that it accepted there.
use mathlib.Core.List.{append_assoc}
use ziyad_messenger.Base.{
  ℕ, ◌+◌, ◌≤◌, ◌<◌, ◌≡◌, refl, sym, ap, ◌∙◌, ◌++◌, List, [], ◌∷◌, arith, length, All-append,
  select-append, length-append,
}
use ziyad_messenger.RateLimiter.{drop_before}
use ziyad_messenger.RateLimiter.Log.{
  count_in, count_recent, Expired, Between, Expired-mono, Between-mono, Between-concat,
  drop_before_split, drop_before-Between,
}

pub count_in-append :
    (w a : ℕ) (xs ys : List ℕ) → count_in w a (xs ++ ys) ≡ count_in w a xs + count_in w a ys
unfolding count_in
count_in-append w a xs ys = rw (select-append, length-append) refl

pub count_recent-append :
    (w now : ℕ) (xs ys : List ℕ)
    → count_recent w now (xs ++ ys) ≡ count_recent w now xs + count_recent w now ys
unfolding count_recent
count_recent-append w now xs ys = rw (select-append, length-append) refl

-- What stands in a window that reaches `now` has not run out.
pub count_in-le-count_recent :
    (w a now : ℕ) (xs : List ℕ) → now ≤ a + w → count_in w a xs ≤ count_recent w now xs
unfolding count_in count_recent
count_in-le-count_recent w a now [] h = omega arith
count_in-le-count_recent w a now (x ∷ xs) h = ground (arith, count_in-le-count_recent w a now xs h)

pub count_in_one : (w a now : ℕ) → count_in w a (now ∷ []) ≤ 1
unfolding count_in
count_in_one w a now = ground arith

pub count_in_later : (w a now : ℕ) → a + w < now → count_in w a (now ∷ []) ≡ 0
unfolding count_in
count_in_later w a now h = ground arith

pub count_recent-Expired : (w now : ℕ) (xs : List ℕ) → Expired w now xs → count_recent w now xs ≡ 0
unfolding count_recent
count_recent-Expired w now [] e = refl
count_recent-Expired w now (x ∷ xs) e = ground (arith, count_recent-Expired w now xs e.1)

-- In an ordered queue the loop of `Allow` leaves just the times that count.
count_recent-fresh :
    (w now low high : ℕ) (xs : List ℕ)
    → now ≤ low + w
    → Between low high xs
    → count_recent w now xs ≡ length xs
unfolding count_recent
count_recent-fresh w now low high [] h b = refl
count_recent-fresh w now low high (x ∷ xs) h b =
    ground (arith, count_recent-fresh w now x high xs (omega arith) b.2)

pub count_recent-drop_before :
    (w now low high : ℕ) (xs : List ℕ)
    → Between low high xs
    → count_recent w now xs ≡ length (drop_before w now xs)
unfolding count_recent drop_before
count_recent-drop_before w now low high [] b = refl
count_recent-drop_before w now low high (x ∷ xs) b =
    ground (arith, count_recent-drop_before w now x high xs b.2, count_recent-fresh w now x high xs)

-- `hits` is what is left of `past` when times that have run out by `clock` are cut off its front.
pub record IsTail (w clock : ℕ) (past hits : List ℕ) : Type 0 where
  pub old : List ℕ
  pub split : past ≡ old ++ hits
  pub expired : Expired w clock old
  pub ordered : Between 0 clock hits

module _ (w : ℕ) where
  pub IsTail-later :
      {clock now : ℕ} {past hits : List ℕ}
      → clock ≤ now
      → IsTail w clock past hits
      → IsTail w now past hits
  IsTail-later {clock} {now} {past} {hits} h i = record {
    old = i.old;
    split = i.split;
    expired = Expired-mono w clock now i.old h i.expired;
    ordered = Between-mono 0 clock now hits h i.ordered;
  }

  pub IsTail-drop :
      {now : ℕ} {past hits : List ℕ}
      → IsTail w now past hits
      → IsTail w now past (drop_before w now hits)
  IsTail-drop {now} {past} {hits} i =
      let (gone, split, expired) = drop_before_split w now hits in
      record {
        old = i.old ++ gone;
        split =
            i.split
            ∙ ap (λ l. i.old ++ l) split
            ∙ sym (append_assoc i.old gone (drop_before w now hits));
        expired = All-append (λ t. t + w < now) i.old gone i.expired expired;
        ordered = drop_before-Between w now 0 now hits i.ordered;
      }

  pub IsTail-push :
      {now : ℕ} {past hits : List ℕ}
      → IsTail w now past hits
      → IsTail w now (past ++ now ∷ []) (hits ++ now ∷ [])
  IsTail-push {now} {past} {hits} i = record {
    old = i.old;
    split = ap (λ l. l ++ now ∷ []) i.split ∙ append_assoc i.old hits (now ∷ []);
    expired = i.expired;
    ordered = Between-concat 0 now hits (omega arith) i.ordered;
  }

  pub IsTail-count_recent :
      {now : ℕ} {past hits : List ℕ}
      → IsTail w now past hits
      → count_recent w now past ≡ length (drop_before w now hits)
  IsTail-count_recent {now} {past} {hits} i =
      rw (i.split, count_recent-append)
        (omega (
          arith,
          count_recent-Expired w now i.old i.expired,
          count_recent-drop_before w now 0 now hits i.ordered,
        ))
