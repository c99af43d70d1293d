-- ===== src/Messaging/Clients/Laws.antt =====
-- No connection is lost, doubled or closed twice, and no buffer overflows.
use mathlib.Core.Path.{subst}
use ziyad_messenger.Base.{
  ℕ, ◌+◌, String, ◌≡◌, ap, inl, inr, List, [], ◌∷◌, ◌++◌, arith, Bool-cases, Option-cases,
  if◌then◌else◌, ltb, All-append, true, eqb, length, refl,
}
use ziyad_messenger.Base.Assoc.{lookup, insert, get_or}
use ziyad_messenger.Protocol.{Message}
use ziyad_messenger.Messaging.Store.{Client, Router, ok}
use ziyad_messenger.Messaging.Store.Laws.{SameState, and_then-eq-ok}
use ziyad_messenger.Messaging.Clients.{
  register, remove_first, holds, drop_empty, unregister, deliver, broadcast, take_sent, write_next,
}
use ziyad_messenger.Messaging.Clients.Counting.{
  count_conn, occurs, count_closed, count_conn-append, occurs-insert, count_conn-remove_first,
  count_conn-take_sent, occurs-deliver,
}
use ziyad_messenger.Messaging.Queries.{get_channel_members}
use ziyad_messenger.Messaging.Clients.Delivery.{members-eq-ok}
use ziyad_messenger.Messaging.Clients.Keyed.{
  Keyed, Keyed-insert, Keyed-delete, Keyed-deliver, occurs-delete,
}
use ziyad_messenger.Messaging.Clients.Buffers.{
  IsBuffered, AllBuffered, AllBuffered-insert, AllBuffered-delete, IsBuffered-get_or,
  IsBuffered-remove_first, IsBuffered-take_sent, AllBuffered-deliver,
}

-- Each connection that was ever numbered stands open once or is closed once, and not both; no other does either.
-- No user is twice a key, and no buffer holds more than its capacity.
pub record IsSound (r : Router) : Type 0 where
  pub once :
      (c : ℕ) → occurs c r.clients + count_closed c r.closed ≡ (if ltb c r.next_conn then 1 else 0)
  pub keyed : Keyed r.clients
  pub buffered : AllBuffered r.clients

pub register-IsSound : (u : String) (r : Router) → IsSound r → IsSound (register u r).1
unfolding register count_conn
register-IsSound u r s = record {
  once = λ c.
      let conns = get_or u [] r.clients in
      let client : Client = record { user_id = u; conn = r.next_conn; send = [] } in
      ground (
        arith,
        s.once c,
        occurs-insert c u (conns ++ client ∷ []) r.clients,
        count_conn-append c conns (client ∷ []),
      );
  keyed = Keyed-insert u _ r.clients s.keyed;
  buffered =
      AllBuffered-insert u _ r.clients
        (All-append _ (get_or u [] r.clients) _ (IsBuffered-get_or u r.clients s.buffered)
          (omega arith, tt))
        s.buffered;
}

drop_empty-AllBuffered :
    (u : String) (m : List (String × List Client)) → AllBuffered m → AllBuffered (drop_empty u m)
drop_empty-AllBuffered u m b = ground (arith, AllBuffered-delete u m b)

drop_empty-Keyed : (u : String) (m : List (String × List Client)) → Keyed m → Keyed (drop_empty u m)
drop_empty-Keyed u m k = ground (arith, k, Keyed-delete u m k)

none_there : (c : ℕ) (cs : List Client) → eqb (length cs) 0 ≡ true → count_conn c cs ≡ 0
unfolding count_conn
none_there c [] h = refl
none_there c (x ∷ cs) h = ground arith

occurs-drop_empty :
    (c : ℕ) (u : String) (m : List (String × List Client))
    → Keyed m
    → occurs c (drop_empty u m) ≡ occurs c m
occurs-drop_empty c u m k = ground (arith, occurs-delete c u m k, none_there c (get_or u [] m))

pub unregister-IsSound : (client : Client) (r : Router) → IsSound r → IsSound (unregister client r)
unfolding unregister count_closed
unregister-IsSound client r s =
    let conns = get_or client.user_id [] r.clients in
    let rest = insert client.user_id (remove_first client.conn conns) r.clients in
    let rest_keyed : Keyed rest =
      Keyed-insert client.user_id (remove_first client.conn conns) r.clients s.keyed in
    elim (Bool-cases (holds client.conn conns)) [
      | inl found ↦ rw found (record {
        once = λ c. ground (
          arith,
          s.once c,
          occurs-drop_empty c client.user_id rest rest_keyed,
          occurs-insert c client.user_id (remove_first client.conn conns) r.clients,
          count_conn-remove_first c client.conn conns found,
        );
        keyed = drop_empty-Keyed client.user_id rest rest_keyed;
        buffered = drop_empty-AllBuffered client.user_id rest (
            AllBuffered-insert client.user_id (remove_first client.conn conns) r.clients
              (IsBuffered-remove_first client.conn conns
                (IsBuffered-get_or client.user_id r.clients s.buffered))
              s.buffered);
      })
      | inr missing ↦ rw missing (record {
        once = λ c. omega (arith, s.once c, occurs-drop_empty c client.user_id r.clients s.keyed);
        keyed = drop_empty-Keyed client.user_id r.clients s.keyed;
        buffered = drop_empty-AllBuffered client.user_id r.clients s.buffered;
      })
    ]

pub write_next-IsSound : (client : Client) (r : Router) → IsSound r → IsSound (write_next client r)
unfolding write_next
write_next-IsSound client r s = elim (Option-cases (lookup client.user_id r.clients)) [
  | inl e ↦ rw e (record { once = s.once; keyed = s.keyed; buffered = s.buffered })
  | inr (cs, e) ↦
      let b : IsBuffered cs =
        rw (e, get_or) at (IsBuffered-get_or client.user_id r.clients s.buffered) in
      let sent = take_sent client.conn cs in
      rw e (record {
        once = λ c. ground (
          arith,
          e,
          s.once c,
          occurs-insert c client.user_id sent r.clients,
          count_conn-take_sent c client.conn cs,
        );
        keyed = Keyed-insert client.user_id sent r.clients s.keyed;
        buffered =
            AllBuffered-insert client.user_id sent r.clients (IsBuffered-take_sent client.conn cs b)
              s.buffered;
      })
]

pub deliver-IsSound :
    (us : List String) (t : String) (msg : Message) (r : Router)
    → IsSound r
    → IsSound (record r { clients = deliver us t msg r.clients })
deliver-IsSound us t msg r s = record {
  once = λ c. omega (arith, s.once c, occurs-deliver c us t msg r.clients);
  keyed = Keyed-deliver us t msg r.clients s.keyed;
  buffered = AllBuffered-deliver us t msg r.clients s.buffered;
}

pub IsSound-same : {r q : Router} → SameState r q → IsSound r → IsSound q
IsSound-same e s = record {
  once = λ c. rw (e.clients, e.closed, e.next_conn) (s.once c);
  keyed = rw e.clients s.keyed;
  buffered = rw e.clients s.buffered;
}

broadcast-IsSound :
    (msg : Message) (r r' : Router) → broadcast msg r ≡ (ok tt, r') → IsSound r → IsSound r'
unfolding broadcast
broadcast-IsSound msg r r' h s =
    let (x, q, read, end) = and_then-eq-ok (get_channel_members msg.channel_id r) _ h in
    let same = (members-eq-ok msg.channel_id r {us = x.0} {t = x.1} read).2 in
    subst IsSound (ap (λ p. p.1) end) (deliver-IsSound x.0 x.1 msg q (IsSound-same same s))

-- What the goroutines do to the clients, in any order: each holds the lock.
pub data ClientStep : Router → Router → Type 0 where
  registers : (u : String) (r : Router) → ClientStep r (register u r).1
  unregisters : (client : Client) (r : Router) → ClientStep r (unregister client r)
  writes : (client : Client) (r : Router) → ClientStep r (write_next client r)
  broadcasts : (msg : Message) (r r' : Router) → broadcast msg r ≡ (ok tt, r') → ClientStep r r'

pub data ClientRun (r : Router) : Router → Type 0 where
  start : ClientRun r r
  then_step : {q s : Router} → ClientRun r q → ClientStep q s → ClientRun r s

ClientStep-IsSound : {r q : Router} → ClientStep r q → IsSound r → IsSound q
ClientStep-IsSound (registers u r) s = register-IsSound u r s
ClientStep-IsSound (unregisters client r) s = unregister-IsSound client r s
ClientStep-IsSound (writes client r) s = write_next-IsSound client r s
ClientStep-IsSound (broadcasts msg r r' h) s = broadcast-IsSound msg r r' h s

-- In any order of registrations, disconnections, broadcasts and writes each connection that was made is
-- open once or closed once, never both, and no buffer holds more than its capacity.
pub ClientRun-IsSound : {r q : Router} → IsSound r → ClientRun r q → IsSound q
ClientRun-IsSound s start = s
ClientRun-IsSound s (then_step run step) = ClientStep-IsSound step (ClientRun-IsSound s run)

pub empty-IsSound : (r : Router) → r.clients ≡ [] → r.closed ≡ [] → r.next_conn ≡ 0 → IsSound r
unfolding occurs count_closed
empty-IsSound r e f n = record {
  once = λ c. ground (arith, e, f, n);
  keyed = rw e tt;
  buffered = rw e tt;
}
