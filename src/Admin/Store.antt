-- ===== src/Admin/Store.antt =====
-- The tables of backend/admin-api/internal/db/db.go, the calls on the database, and `audit.Log`.
-- Columns that may be NULL are options. The engine can fail at any call: the service carries what the
-- engine will answer, as the messaging service does. Foreign keys are declared but SQLite does not
-- enforce them unless it is told to, and the code does not tell it.
pub mod Laws
use ziyad_messenger.Base.{
  ℕ, suc, ◌+◌, String, Bool, true, false, not, List, [], ◌∷◌, ◌++◌, map, Option, none, some, ◌==◌,
  length, any, select, if◌then◌else◌,
}
use ziyad_messenger.Base.State.{Result, ok, err, and_then, ◌>>=◌, return}

pub record AdminUser : Type 0 where
  pub id : String
  pub username : String
  pub password_hash : String
  pub role : String
  pub created_at : ℕ
  pub updated_at : ℕ

pub record RoleRow : Type 0 where
  pub id : String
  pub name : String
  pub permissions : String
  pub created_at : ℕ
  pub updated_at : ℕ

pub record Department : Type 0 where
  pub id : String
  pub name : String
  pub created_at : ℕ
  pub updated_at : ℕ

pub record ChannelRow : Type 0 where
  pub id : String
  pub name : String
  pub type : Option String
  pub department_id : Option String
  pub created_at : ℕ
  pub updated_at : ℕ
  pub created_by : Option String

pub record MemberRow : Type 0 where
  pub channel_id : String
  pub user_id : String
  pub role : Option String
  pub joined_at : ℕ

pub record UserRow : Type 0 where
  pub id : String
  pub username : String
  pub full_name : Option String
  pub password_hash : String
  pub role_id : Option String
  pub department_id : Option String
  pub created_at : ℕ
  pub updated_at : ℕ

pub record DeviceRow : Type 0 where
  pub id : String
  pub user_id : String
  pub device_name : String
  pub fingerprint : String
  pub last_seen : Option ℕ
  pub created_at : ℕ

-- A row of `audit_logs`. Each column is written by `audit.Log`, and none is NULL.
pub record LogEntry : Type 0 where
  pub id : ℕ
  pub timestamp : ℕ
  pub actor_id : String
  pub actor_username : String
  pub action : String
  pub target_resource : String
  pub details : String
  pub ip_address : String

pub record Db : Type 0 where
  pub admin_users : List AdminUser
  pub roles : List RoleRow
  pub departments : List Department
  pub channels : List ChannelRow
  pub channel_members : List MemberRow
  pub users : List UserRow
  pub devices : List DeviceRow
  pub audit_logs : List LogEntry

pub record Service : Type 0 where
  pub db : Db
  pub faults : List (Option String)

abbrev pub M : Type 0 → Type 0 → Type 0
M E A = Service → Result E A × Service

-- What the engine answers to the next call.
abbrev pub fault : List (Option String) → Option String
fault [] = none
fault (f ∷ fs) = f

abbrev later : List (Option String) → List (Option String)
later [] = []
later (f ∷ fs) = fs

abbrev pub answer : {A : Type 0} → Option String → Result String A → Result String A
answer none x = x
answer (some text) x = err text

-- A SELECT.
unfoldable pub query : {A : Type 0} → (Db → Result String A) → M String A
query q s = (answer (fault s.faults) (q s.db), record s { faults = later s.faults })

abbrev pub stored : Db → Result String (ℕ × Db) → Db
stored d (ok (n, d')) = d'
stored d (err e) = d

abbrev affected : Result String (ℕ × Db) → Result String ℕ
affected (ok (n, d)) = ok n
affected (err e) = err e

-- A statement that writes, with the number of rows that it affects.
unfoldable pub exec : (Db → Result String (ℕ × Db)) → M String ℕ
exec u s =
    let x = answer (fault s.faults) (u s.db) in
    (affected x, record s { db = stored s.db x; faults = later s.faults })

-- `_ = row.Scan(&x)`: the variable keeps its value where the call fails.
abbrev or_default : {E A : Type 0} → A → Result String A → Result E A
or_default d (ok a) = ok a
or_default d (err e) = ok d

abbrev pub scanning : {E A : Type 0} → A → M String A → M E A
scanning d m s = (or_default d (m s).0, (m s).1)

-- `_ = audit.Log(…)` and `_, _ = db.DB.Exec(…)`
abbrev pub ignoring : {E A : Type 0} → M String A → M E (Unit {0})
ignoring m s = (ok tt, (m s).1)

abbrev pub keep_or_restore : {E A : Type 0} → Db → Result E A × Service → Result E A × Service
keep_or_restore d (ok a, s) = (ok a, s)
keep_or_restore d (err e, s) = (err e, record s { db = d })

-- A handler stops with a text and a status.
abbrev pub Stop : Type 0
Stop = String × ℕ

abbrev stop_with : {A : Type 0} → Stop → Result String A → Result Stop A
stop_with stop (ok a) = ok a
stop_with stop (err e) = err stop

-- `if err != nil { c.JSON(code, gin.H{"error": text}); return }`
abbrev pub or_error : {A : Type 0} → String → ℕ → M String A → M Stop A
or_error text code m s = (stop_with (text, code) (m s).0, (m s).1)

abbrev stop_text : {A : Type 0} → Result String A → Result Stop A
stop_text (ok a) = ok a
stop_text (err e) = err (e, 500)

-- `c.JSON(http.StatusInternalServerError, gin.H{"error": err.Error()})`
abbrev pub or_500 : {A : Type 0} → M String A → M Stop A
or_500 m s = (stop_text (m s).0, (m s).1)

-- Who calls, as the middleware left it, and what a handler takes from outside. `now` is in seconds.
pub record Claims : Type 0 where
  pub user_id : String
  pub username : String
  pub role : String

pub record Ctx : Type 0 where
  pub claims : Claims
  pub ip : String
  pub path : String
  pub now : ℕ
  pub uuid : String
  pub salt : String

-- INSERT INTO audit_logs. The key counts the rows, which are never deleted.
unfoldable pub insert_log :
    Claims → String → String → String → String → ℕ → Db → Result String (ℕ × Db)
insert_log who action target details ip now d = ok (
  1,
  record d {
    audit_logs =
        d.audit_logs
        ++ record {
          id = suc (length d.audit_logs);
          timestamp = now;
          actor_id = who.user_id;
          actor_username = who.username;
          action = action;
          target_resource = target;
          details = details;
          ip_address = ip;
        }
          ∷ [];
  },
)

-- `audit.Log`
unfoldable pub log : Claims → String → String → String → String → ℕ → M String ℕ
unfolding insert_log
log who action target details ip now = exec (insert_log who action target details ip now)

-- The line by which a handler ends.
unfoldable pub logged : {E : Type 0} → Ctx → String → String → String → M E (Unit {0})
unfolding log
logged ctx action target details = ignoring (log ctx.claims action target details ctx.ip ctx.now)

-- Nothing was affected: `c.JSON(http.StatusNotFound, gin.H{"error": text})`
abbrev pub or_not_found : String → ℕ → M Stop (Unit {0})
or_not_found text ℕ.zero s = (err (text, 404), s)
or_not_found text (ℕ.suc n) s = (ok tt, s)

-- A body that does not decode, or lacks what it must have.
abbrev pub bound : {A : Type 0} → Option A → M Stop A
bound none s = (err ("invalid request", 400), s)
bound (some a) s = (ok a, s)

-- A body with `binding:"required"` fields: the text is not empty in any of them.
abbrev pub bound_with : {A : Type 0} → (A → Bool) → Option A → M Stop A
bound_with p none s = (err ("invalid request", 400), s)
bound_with p (some a) s = ((if p a then ok a else err ("invalid request", 400)), s)
