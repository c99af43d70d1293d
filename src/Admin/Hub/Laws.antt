-- ===== src/Admin/Hub/Laws.antt =====
-- A client's channel is closed once at most, and nothing is sent on a closed one.
use ziyad_messenger.Base.{
  ℕ, ◌+◌, ◌≤◌, Bool, false, not, List, [], ◌∷◌, ◌++◌, map, ◌≡◌, refl, arith, any, select, length,
}
use ziyad_messenger.Admin.Hub.{
  Event, Member, Hub, new_hub, is_conn, register, unregister, has_room, put, deliver, emit,
  send_pending, take_from, receive, Step, Run,
}

abbrev pub count : ℕ → List Member → ℕ
count n xs = length (select (is_conn n) xs)

count-append : (n : ℕ) (xs ys : List Member) → count n (xs ++ ys) ≡ count n xs + count n ys
count-append n [] ys = omega arith
count-append n (x ∷ xs) ys = ground (arith, count-append n xs ys)

count-split :
    (n : ℕ) (p : Member → Bool) (xs : List Member)
    → count n (select p xs) + count n (select (λ x. not (p x)) xs) ≡ count n xs
count-split n p [] = omega arith
count-split n p (x ∷ xs) = ground (arith, count-split n p xs)

count-map :
    (n : ℕ) (f : Member → Member) (xs : List Member)
    → ((x : Member) → (f x).client ≡ x.client)
    → count n (map f xs) ≡ count n xs
count-map n f [] h = refl
count-map n f (x ∷ xs) h = ground (arith, count-map n f xs, h x)

count-eq-zero : (n : ℕ) (xs : List Member) → any (is_conn n) xs ≡ false → count n xs ≡ 0
count-eq-zero n [] h = refl
count-eq-zero n (x ∷ xs) h = ground (arith, count-eq-zero n xs)

-- A connection stands among the clients or among the closed ones, and once.
abbrev pub IsSound : Hub → Type 0
IsSound h = (n : ℕ) → count n h.clients + count n h.closed ≤ 1

put_client : (e : Event) (x : Member) → (put e x).client ≡ x.client
put_client e x = refl

take_from_client : (m : ℕ) (x : Member) → (take_from m x).client ≡ x.client
take_from_client m x = ground arith

Step-IsSound : {h h' : Hub} → Step h h' → IsSound h → IsSound h'
unfolding register unregister deliver emit send_pending receive
Step-IsSound (Step.registering {h} c ready (new, fresh)) k n = ground (
  arith,
  k n,
  count-append n h.clients (record { client = c; send = [] } ∷ []),
  count-eq-zero c.conn h.clients,
  count-eq-zero c.conn h.closed,
)
Step-IsSound (Step.unregistering {h} c ready) k n = ground (
  arith,
  k n,
  count-split n (is_conn c.conn) h.clients,
  count-append n h.closed (select (is_conn c.conn) h.clients),
)
Step-IsSound (Step.delivering {h} e es ready q) k n = ground (
  arith,
  k n,
  count-split n has_room h.clients,
  count-append n h.closed (select (λ x. not (has_room x)) h.clients),
  count-map n (put e) (select has_room h.clients) (put_client e),
)
Step-IsSound (Step.sending {h} e p room) k n = k n
Step-IsSound (Step.emitting {h} e room) k n = k n
Step-IsSound (Step.receiving {h} m) k n = ground (
  arith,
  k n,
  count-map n (take_from m) h.clients (take_from_client m),
  count-map n (take_from m) h.closed (take_from_client m),
)

-- Under any run from a sound hub, which a new one is, each connection stands at most once among the clients and
-- the closed ones together: a channel is closed once at most, and what is sent goes to channels that are open.
pub Run-IsSound : {h h' : Hub} → Run h h' → IsSound h → IsSound h'
Run-IsSound Run.stop k = k
Run-IsSound (Run.next st r) k = Run-IsSound r (Step-IsSound st k)

pub new_hub-IsSound : IsSound new_hub
unfolding new_hub
new_hub-IsSound n = omega arith
