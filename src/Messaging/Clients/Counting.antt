-- ===== src/Messaging/Clients/Counting.antt =====
-- How often a connection stands in the map of clients, before and after each operation.
use ziyad_messenger.Base.{
  ℕ, suc, ◌+◌, String, true, ◌≡◌, refl, ◌∙◌, inl, inr, List, [], ◌∷◌, ◌++◌, map, arith,
  Option-cases, if◌then◌else◌, eqb,
}
use ziyad_messenger.Base.Assoc.{lookup, insert, get_or}
use ziyad_messenger.Protocol.{Message}
use ziyad_messenger.Messaging.Store.{Client}
use ziyad_messenger.Messaging.Clients.{
  remove_first, holds, offer, to_all, to_conns, to_members, deliver, take_sent,
}

-- How often a connection stands in a user's list, in the whole map, and among the closed ones.
unfoldable pub count_conn : ℕ → List Client → ℕ
count_conn c [] = 0
count_conn c (x ∷ xs) = if eqb x.conn c then suc (count_conn c xs) else count_conn c xs

unfoldable pub occurs : ℕ → List (String × List Client) → ℕ
occurs c [] = 0
occurs c ((k, cs) ∷ m) = count_conn c cs + occurs c m

unfoldable pub count_closed : ℕ → List ℕ → ℕ
count_closed c [] = 0
count_closed c (x ∷ xs) = if eqb x c then suc (count_closed c xs) else count_closed c xs

pub count_conn-append :
    (c : ℕ) (xs ys : List Client) → count_conn c (xs ++ ys) ≡ count_conn c xs + count_conn c ys
unfolding count_conn
count_conn-append c [] ys = omega arith
count_conn-append c (x ∷ xs) ys = ground (arith, count_conn-append c xs ys)

pub occurs-insert :
    (c : ℕ) (k : String) (v : List Client) (m : List (String × List Client))
    → occurs c (insert k v m) + count_conn c (get_or k [] m) ≡ occurs c m + count_conn c v
unfolding occurs insert lookup count_conn
occurs-insert c k v [] = omega arith
occurs-insert c k v ((j, w) ∷ m) = ground (arith, occurs-insert c k v m)

pub count_conn-remove_first :
    (c conn : ℕ) (xs : List Client)
    → holds conn xs ≡ true
    → count_conn c (remove_first conn xs) + (if eqb conn c then 1 else 0) ≡ count_conn c xs
unfolding count_conn remove_first holds
count_conn-remove_first c conn [] h = cc
count_conn-remove_first c conn (x ∷ xs) h = ground (arith, count_conn-remove_first c conn xs)

pub count_conn-offer :
    (c : ℕ) (msg : Message) (xs : List Client) → count_conn c (map (offer msg) xs) ≡ count_conn c xs
unfolding count_conn offer
count_conn-offer c msg [] = refl
count_conn-offer c msg (x ∷ xs) = ground (arith, count_conn-offer c msg xs)

pub count_conn-take_sent :
    (c conn : ℕ) (xs : List Client) → count_conn c (take_sent conn xs) ≡ count_conn c xs
unfolding count_conn take_sent
count_conn-take_sent c conn [] = refl
count_conn-take_sent c conn (x ∷ xs) = ground (arith, count_conn-take_sent c conn xs)

pub occurs-to_all :
    (c : ℕ) (msg : Message) (m : List (String × List Client)) → occurs c (to_all msg m) ≡ occurs c m
unfolding occurs to_all
occurs-to_all c msg [] = refl
occurs-to_all c msg ((k, cs) ∷ m) = omega (arith, occurs-to_all c msg m, count_conn-offer c msg cs)

pub occurs-to_conns :
    (c : ℕ) (u : String) (msg : Message) (m : List (String × List Client))
    → occurs c (to_conns u msg (lookup u m) m) ≡ occurs c m
unfolding count_conn
occurs-to_conns c u msg m = elim (Option-cases (lookup u m)) [
  | inl e ↦ rw e refl
  | inr (cs, e) ↦
      let moved = occurs-insert c u (map (offer msg) cs) m in
      ground (arith, moved, e, count_conn-offer c msg cs)
]

pub occurs-to_members :
    (c : ℕ) (us : List String) (msg : Message) (m : List (String × List Client))
    → occurs c (to_members us msg m) ≡ occurs c m
unfolding to_members
occurs-to_members c [] msg m = refl
occurs-to_members c (u ∷ us) msg m =
    occurs-to_members c us msg (to_conns u msg (lookup u m) m) ∙ occurs-to_conns c u msg m

pub occurs-deliver :
    (c : ℕ) (us : List String) (t : String) (msg : Message) (m : List (String × List Client))
    → occurs c (deliver us t msg m) ≡ occurs c m
unfolding deliver
occurs-deliver c us t msg m = ground (arith, occurs-to_all c msg m, occurs-to_members c us msg m)
