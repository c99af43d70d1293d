-- ===== src/Messaging/System/Operations.antt =====
-- What the methods of the router keep of its state, and what they know when they succeed.
use mathlib.Core.Path.{subst}
use ziyad_messenger.Base.{ℕ, String, true, false, ◌≡◌, ap, ◌∙◌, List, ◌==◌}
use ziyad_messenger.Base.State.Outcomes.{Outcome, Outcome-cases}
use ziyad_messenger.Base.Assoc.Keys.{AllKeys}
use ziyad_messenger.Messaging.Store.{User, Db, Router, Error, Result, ok, query}
use ziyad_messenger.Messaging.Store.Laws.{SameState, SameClients, query-eq-ok, query-eq-err}
use ziyad_messenger.Messaging.Dm.{find_or_create_dm_channel}
use ziyad_messenger.Messaging.Dm.Laws.{find_or_create-eq-ok, find_or_create-eq-err}
use ziyad_messenger.Messaging.Access.{
  ParseWithClaims, authenticate, authorize_channel_access, resolve_requested_channel,
}
use ziyad_messenger.Messaging.Access.Laws.{
  authorize-may_access, authorize-SameState, authenticate-IsAuthentic, authenticate-SameState,
}
use ziyad_messenger.Messaging.Access.Resolve.{resolve-Resolved, resolve-eq-err}
use ziyad_messenger.Messaging.Clients.Laws.{IsSound, IsSound-same}
use ziyad_messenger.Messaging.System.Tables.{
  is_channel, is_user, IsConsistent, dm_outcome-IsConsistent,
}
use ziyad_messenger.Messaging.System.Lookups.{
  user_row-is_user, may_access-is_channel, dm_outcome-users, Resolved-IsConsistent,
}
use ziyad_messenger.Messaging.System.Calls.{find_or_create-SameClients, resolve-SameClients}

-- The users are those given and never change; the tables are consistent; whoever is online is a user;
-- no connection is lost or doubled, and no buffer overflows.
pub record IsGood (us : List User) (r : Router) : Type 0 where
  pub users : r.db.users ≡ us
  pub tables : IsConsistent r.db
  pub online : AllKeys (λ u. is_user u us ≡ true) r.clients
  pub sound : IsSound r

module _ (us : List User) where
  pub IsGood-same : {r q : Router} → SameState r q → IsGood us r → IsGood us q
  IsGood-same same g = record {
    users = ap (λ d. d.users) same.db ∙ g.users;
    tables = rw same.db g.tables;
    online = rw same.clients g.online;
    sound = IsSound-same same g.sound;
  }

  -- New tables beside the same clients.
  pub IsGood-tables :
      {r q : Router}
      → SameClients r q
      → q.db.users ≡ r.db.users
      → IsConsistent q.db
      → IsGood us r
      → IsGood us q
  IsGood-tables same listed c g = record {
    users = listed ∙ g.users;
    tables = c;
    online = rw same.clients g.online;
    sound = record {
      once = λ x. rw (same.clients, same.closed, same.next_conn) (g.sound.once x);
      keyed = rw same.clients g.sound.keyed;
      buffered = rw same.clients g.sound.buffered;
    };
  }

  abbrev pub Good : Router → Type 0
  Good = IsGood us

  -- A call that keeps the clients and, when it fails, the tables.
  pub unchanged : {r q : Router} → SameClients r q → q.db ≡ r.db → IsGood us r → IsGood us q
  unchanged same e g = IsGood-tables same (ap (λ d. d.users) e) (rw e g.tables) g

  pub query-Good :
      {A : Type 0} (q : Db → Result Error A) (r : Router)
      → Good r
      → Outcome Good (λ a s. Good s × (q s.db ≡ ok a)) (query q r)
  query-Good q r g =
      Outcome-cases Good (λ a s. Good s × (q s.db ≡ ok a)) (query q r)
        (λ a s e.
          let (found, same) = query-eq-ok q r e in (IsGood-same same g, ap q same.db ∙ found))
        λ e s h. IsGood-same (query-eq-err q r h) g

  pub authenticate-Good :
      (parse : ParseWithClaims) (secret : String) (now : ℕ) (authorization token : String)
      (r : Router)
      → Good r
      → Outcome Good
          (λ u s. Good s × (is_user u us ≡ true))
          (authenticate parse secret now authorization token r)
  authenticate-Good parse secret now authorization token r g =
      let x = authenticate parse secret now authorization token r in
      let same = authenticate-SameState parse secret now authorization token r in
      Outcome-cases Good (λ u s. Good s × (is_user u us ≡ true)) x
        (λ u s e.
          let (who, kept) = authenticate-IsAuthentic parse secret now authorization token r e in
          (
            IsGood-same kept g,
            subst (λ l. is_user u l ≡ true) g.users
                (user_row-is_user who.claims.username r.db who.listed),
          ))
        λ e s h. subst Good (ap (λ p. p.1) h) (IsGood-same same g)

  pub authorize-Good :
      (u c : String) (r : Router)
      → Good r
      → Outcome Good
          (λ _ s. Good s × (is_channel c s.db.channels ≡ true))
          (authorize_channel_access u c r)
  authorize-Good u c r g =
      Outcome-cases Good (λ _ s. Good s × (is_channel c s.db.channels ≡ true))
        (authorize_channel_access u c r)
        (λ _ s e.
          let (may, same) = authorize-may_access u c r s e in
          (IsGood-same same g, may_access-is_channel u c s.db (rw same.db may)))
        λ e s h. subst Good (ap (λ p. p.1) h) (IsGood-same (authorize-SameState u c r) g)

  pub resolve-Good :
      (u c : String) (r : Router)
      → is_user u us ≡ true
      → Good r
      → Outcome Good (λ _. Good) (resolve_requested_channel u c r)
  resolve-Good u c r who g =
      Outcome-cases Good (λ _. Good) (resolve_requested_channel u c r)
        (λ id s e.
          let (found, same) = resolve-Resolved u c r e in
          let (kept, listed) =
            Resolved-IsConsistent u c id r.db s.db (rw g.users who) found g.tables in
          IsGood-tables same listed kept g)
        λ e s h.
          unchanged (subst (SameClients r) (ap (λ p. p.1) h) (resolve-SameClients u c r))
            (resolve-eq-err u c r h) g

  pub find_or_create-Good :
      (u v : String) (r : Router)
      → (u == v) ≡ false
      → is_user u us ≡ true
      → is_user v us ≡ true
      → Good r
      → Outcome Good (λ _. Good) (find_or_create_dm_channel u v r)
  find_or_create-Good u v r differ first second g =
      Outcome-cases Good (λ _. Good) (find_or_create_dm_channel u v r)
        (λ id s e.
          let (_, made, same) = find_or_create-eq-ok u v r e in
          IsGood-tables same (ap (λ x. x.users) made ∙ dm_outcome-users u v r.db)
            (rw made (
              dm_outcome-IsConsistent u v r.db differ (rw g.users first) (rw g.users second)
                g.tables))
            g)
        λ e s h.
          unchanged (subst (SameClients r) (ap (λ p. p.1) h) (find_or_create-SameClients u v r))
            (find_or_create-eq-err u v r h) g
