-- ===== src/Messaging/Store.antt =====
-- The state of `MessageRouter` and the calls on its database.
-- Each SQL statement of the file is a function on the tables. The engine can fail at any call: the
-- router carries what the engine will answer, one entry for each call to come, `some text` for an
-- error with that text; past the list's end no call fails. A transaction works on the same tables
-- and puts them back when it fails.
pub mod Laws
pub use ziyad_messenger.Base.State.{Result, ok, err, and_then, ◌>>=◌, ◌>>◌, return, throw, guard}
use ziyad_messenger.Base.{ℕ, String, List, [], ◌∷◌, Option, none, some, Bool, true, false}
use ziyad_messenger.Protocol.{Message}

-- The columns that the service reads or writes. `full_name` may be NULL.
pub record User : Type 0 where
  pub id : String
  pub username : String
  pub full_name : Option String

pub record ChannelView : Type 0 where
  pub id : String
  pub name : String
  pub type : String

pub record ChannelMemberView : Type 0 where
  pub id : String
  pub username : String
  pub full_name : String

pub record Db : Type 0 where
  pub users : List User
  pub channels : List ChannelView
  pub channel_members : List (String × String)
  pub messages : List Message

-- `conn` stands for the pointer. `send` is the buffered Go channel, oldest first.
pub record Client : Type 0 where
  pub user_id : String
  pub conn : ℕ
  pub send : List Message

-- `next_conn` numbers the next connection; `closed` lists the clients whose `Send` has been closed.
pub record Router : Type 0 where
  pub db : Db
  pub clients : List (String × List Client)
  pub next_conn : ℕ
  pub closed : List ℕ
  pub faults : List (Option String)

pub data Error : Type 0 where
  unauthorized channel_missing forbidden no_rows : Error
  db_error : String → Error

abbrev pub M : Type 0 → Type 0 → Type 0
M E A = Router → Result E A × Router

-- What the engine answers to the next call.
abbrev fault : List (Option String) → Option String
fault [] = none
fault (f ∷ fs) = f

abbrev later : List (Option String) → List (Option String)
later [] = []
later (f ∷ fs) = fs

abbrev answer : {A : Type 0} → Option String → Result Error A → Result Error A
answer none x = x
answer (some text) x = err (db_error text)

unfoldable pub query : {A : Type 0} → (Db → Result Error A) → M Error A
query q r = (answer (fault r.faults) (q r.db), record r { faults = later r.faults })

abbrev stored : Db → Result Error Db → Db
stored d (ok d') = d'
stored d (err e) = d

abbrev done : Result Error Db → Result Error (Unit {0})
done (ok d) = ok tt
done (err e) = err e

unfoldable pub exec : (Db → Result Error Db) → M Error (Unit {0})
exec u r =
    let x = answer (fault r.faults) (u r.db) in
    (done x, record r { db = stored r.db x; faults = later r.faults })

abbrev pub keep_or_restore : {A : Type 0} → Db → Result Error A × Router → Result Error A × Router
keep_or_restore d (ok a, r) = (ok a, r)
keep_or_restore d (err e, r) = (err e, record r { db = d })

-- `Begin`, the statements, `Commit`, with the deferred `Rollback`.
unfoldable pub transaction : {A : Type 0} → M Error A → M Error A
unfolding query
transaction m r = keep_or_restore r.db (
    and_then (query (λ _. ok tt) r)
      λ _ r'. and_then (m r') λ a r''. and_then (query (λ _. ok tt) r'') λ _. return a)
