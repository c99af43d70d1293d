-- ===== src/Admin/Monitoring.antt =====
-- backend/admin-api/internal/monitoring/handler.go.
-- The tables of other services are there or not. A query that fails leaves its variable at 0: the engine's
-- answers to come are carried along. `now` is in milliseconds and stands still during a request, and no
-- clock is as near to 0 as the spans that are taken off it. LIKE and what the runtime reports are parameters.
pub mod Equivalence
pub mod Cache
use ziyad_messenger.Base.{
  ℕ, zero, suc, ◌+◌, ◌-◌, ◌*◌, ◌/◌, String, Bool, true, false, not, ◌&&◌, List, [], ◌∷◌, map,
  Option, none, some, ◌==◌, ltb, leb, eqb, any, select, length, if◌then◌else◌,
}
use ziyad_messenger.Base.Int.{max_int}

pub record NetworkStats : Type 0 where
  pub nodes_online : ℕ
  pub peers_known : ℕ
  pub uptime_seconds : ℕ
  pub latency_ms : ℕ

pub record UserStats : Type 0 where
  pub total_users : ℕ
  pub online_now : ℕ
  pub active_today : ℕ

pub record MessageStats : Type 0 where
  pub messages_last_hour : ℕ
  pub messages_today : ℕ
  pub total_messages : ℕ

pub record FileStats : Type 0 where
  pub total_files : ℕ
  pub total_bytes : ℕ
  pub transfers_today : ℕ

-- The memory in bytes; the code divides by 2^20, which loses nothing.
pub record SystemStats : Type 0 where
  pub go_version : String
  pub num_cpu : ℕ
  pub memory_alloc : ℕ
  pub uptime_seconds : ℕ

pub record OverviewResponse : Type 0 where
  pub generated_at : ℕ
  pub network : NetworkStats
  pub users : UserStats
  pub messages : MessageStats
  pub files : FileStats
  pub system : SystemStats

pub record PresenceRow : Type 0 where
  pub status : ℕ
  pub last_seen : ℕ

pub record MessageRow : Type 0 where
  pub sender_id : String
  pub type : ℕ
  pub timestamp : ℕ

pub record FileRow : Type 0 where
  pub size_bytes : ℕ
  pub created_at : ℕ

pub record ActionRow : Type 0 where
  pub action : String
  pub timestamp : ℕ

-- The rows that are counted; of `cluster_nodes` and `users` only their number.
pub record Tables : Type 0 where
  pub cluster_nodes : Option ℕ
  pub users : ℕ
  pub user_presence : Option (List PresenceRow)
  pub messages : Option (List MessageRow)
  pub files : Option (List FileRow)
  pub audit_logs : List ActionRow

pub record Host : Type 0 where
  pub like : String → String → Bool
  pub go_version : String
  pub num_cpu : ℕ
  pub start_time : ℕ

-- What the engine answers to the calls to come, `true` for an error.
abbrev pub Faults : Type 0
Faults = List Bool

abbrev pub M : Type 0 → Type 0
M A = Faults → A × Faults

infixl 5 ◌>>=◌
abbrev pub ◌>>=◌ : {A B : Type 0} → M A → (A → M B) → M B
◌>>=◌ m f s = let (a, s') = m s in f a s'

abbrev pub return : {A : Type 0} → A → M A
return a s = (a, s)

abbrev fails : Faults → Bool
fails [] = false
fails (f ∷ fs) = f

abbrev later : Faults → Faults
later [] = []
later (f ∷ fs) = fs

-- `_ = db.DB.QueryRow(…).Scan(&x)` with `x` at `d`, where the engine can give the value.
abbrev pub scan : {A : Type 0} → A → Option A → M A
scan d none s = (d, later s)
scan d (some a) s = (if fails s then d else a, later s)

-- A table that is missing has no rows that could be counted.
abbrev counted : {A : Type 0} → (List A → ℕ) → Option (List A) → Option ℕ
counted f none = none
counted f (some rows) = some (f rows)

abbrev pub exists : {A : Type 0} → Option A → Bool
exists none = false
exists (some a) = true

unfoldable pub table_exists : {A : Type 0} → Option A → M Bool
table_exists table = scan false (some (exists table))

abbrev seconds : ℕ → ℕ
seconds now = now / 1000

-- SELECT COUNT(DISTINCT sender_id)
unfoldable pub distinct : List String → List String
distinct [] = []
distinct (x ∷ xs) = let rest = distinct xs in if any (λ y. y == x) rest then rest else x ∷ rest

unfoldable pub senders_since : ℕ → List MessageRow → ℕ
unfolding distinct
senders_since cutoff rows = length (
    distinct (
      map (λ (m : MessageRow). m.sender_id)
        (select (λ (m : MessageRow). leb cutoff m.timestamp) rows)))

abbrev pub online_since : ℕ → List PresenceRow → ℕ
online_since cutoff rows =
    length (select (λ (p : PresenceRow). eqb p.status 1 && leb cutoff p.last_seen) rows)

abbrev pub messages_since : ℕ → List MessageRow → ℕ
messages_since cutoff rows = length (select (λ (m : MessageRow). leb cutoff m.timestamp) rows)

-- SUM(size_bytes)
unfoldable pub sum : List FileRow → ℕ
sum [] = 0
sum (f ∷ fs) = f.size_bytes + sum fs

-- Both columns of a row; the engine refuses a sum of more than 63 bits.
abbrev sums : Option (List FileRow) → Option (ℕ × ℕ)
sums none = none
sums (some rows) = if ltb max_int (sum rows) then none else some (length rows, sum rows)

abbrev minute : ℕ
minute = 60000

abbrev hour : ℕ
hour = 3600000

abbrev day : ℕ
day = 86400000

-- The statements of the file, each with the variable that it fills, which is 0 before.
abbrev pub count_nodes : Tables → M ℕ
count_nodes t = scan 0 t.cluster_nodes

abbrev pub count_users : Tables → M ℕ
count_users t = scan 0 (some t.users)

abbrev pub count_online : ℕ → Tables → M ℕ
count_online cutoff t = scan 0 (counted (online_since cutoff) t.user_presence)

unfoldable pub count_senders : ℕ → Tables → M ℕ
unfolding senders_since
count_senders cutoff t = scan 0 (counted (senders_since cutoff) t.messages)

abbrev pub count_messages_since : ℕ → Tables → M ℕ
count_messages_since cutoff t = scan 0 (counted (messages_since cutoff) t.messages)

abbrev pub count_messages : Tables → M ℕ
count_messages t = scan 0 (counted length t.messages)

abbrev pub is_file : MessageRow → Bool
is_file m = eqb m.type 3

abbrev pub count_files : Tables → M ℕ
count_files t = scan 0 (counted (λ rows. length (select is_file rows)) t.messages)

abbrev pub count_files_since : ℕ → Tables → M ℕ
count_files_since cutoff t =
    scan 0
      (counted (λ rows. length (select (λ m. is_file m && leb cutoff m.timestamp) rows)) t.messages)

abbrev pub sum_files : Tables → M (ℕ × ℕ)
sum_files t = scan (0, 0) (sums t.files)

abbrev pub count_transfers : ℕ → Tables → M ℕ
count_transfers cutoff t =
    scan 0
      (counted (λ rows. length (select (λ (f : FileRow). leb cutoff f.created_at) rows)) t.files)

module _ (host : Host) where
  abbrev pub is_message : ActionRow → Bool
  is_message r = host.like "%message%" r.action

  abbrev pub count_actions_since : ℕ → Tables → M ℕ
  count_actions_since cutoff t =
      scan 0 (some (length (select (λ r. is_message r && leb cutoff r.timestamp) t.audit_logs)))

  abbrev pub count_actions : Tables → M ℕ
  count_actions t = scan 0 (some (length (select is_message t.audit_logs)))

module _ (host : Host) (now : ℕ) (t : Tables) where
  abbrev uptime : ℕ
  uptime = (now - host.start_time) / 1000

  unfoldable pub network : M NetworkStats
  unfolding table_exists
  network = do
    there ← table_exists t.cluster_nodes
    nodes ←
        (if there
          then (count_nodes t >>= λ detected. return (if ltb 0 detected then detected else 1))
          else return 1)
    return (record {
      nodes_online = nodes;
      peers_known = nodes;
      uptime_seconds = uptime;
      latency_ms = 0;
    })

  unfoldable pub users : M UserStats
  unfolding table_exists count_senders
  users = do
    total ← count_users t
    presence ← table_exists t.user_presence
    online ←
        (if presence
          then count_online (seconds now - 60) t
          else (table_exists t.messages >>= λ there.
              if there then count_senders (now - 5 * minute) t else return 0))
    there ← table_exists t.messages
    active ← (if there then count_senders (now - day) t else return total)
    return (record { total_users = total; online_now = online; active_today = active })

  unfoldable pub messages : M MessageStats
  unfolding table_exists
  messages = do
    there ← table_exists t.messages
    last_hour ←
        (if there
          then count_messages_since (now - hour) t
          else count_actions_since host (seconds (now - hour)) t)
    today ←
        (if there
          then count_messages_since (now - day) t
          else count_actions_since host (seconds (now - day)) t)
    total ← (if there then count_messages t else count_actions host t)
    return
        (record { messages_last_hour = last_hour; messages_today = today; total_messages = total })

  abbrev transferred : ℕ × ℕ → ℕ → FileStats
  transferred (files, bytes) today = record {
    total_files = files;
    total_bytes = bytes;
    transfers_today = today;
  }

  abbrev from_files : M FileStats
  from_files = do
    both ← sum_files t
    today ← count_transfers (seconds (now - day)) t
    return (transferred both today)

  abbrev from_messages : M FileStats
  from_messages = do
    total ← count_files t
    today ← count_files_since (now - day) t
    return (transferred (total, 0) today)

  unfoldable pub files : M FileStats
  unfolding table_exists sum
  files = do
    there ← table_exists t.files
    if there
        then from_files
        else (table_exists t.messages >>= λ as_messages.
            if as_messages then from_messages else return (transferred (0, 0) 0))

  unfoldable pub system : ℕ → SystemStats
  system memory_alloc = record {
    go_version = host.go_version;
    num_cpu = host.num_cpu;
    memory_alloc = memory_alloc;
    uptime_seconds = uptime;
  }

  -- `buildOverview`, which does not call the handlers.
  unfoldable pub build_overview : ℕ → M OverviewResponse
  unfolding table_exists count_senders sum
  build_overview memory_alloc = do
    cluster ← table_exists t.cluster_nodes
    detected ← (if cluster then count_nodes t else return 0)
    let nodes = if eqb detected 0 then 1 else detected
    total_users ← count_users t
    presence ← table_exists t.user_presence
    online_now ←
        (if presence
          then count_online (seconds now - 60) t
          else (table_exists t.messages >>= λ there.
              if there then count_senders (now - 5 * minute) t else return 0))
    has_messages ← table_exists t.messages
    active_today ← (if has_messages then count_senders (now - day) t else return total_users)
    by_message ← table_exists t.messages
    msg_hour ←
        (if by_message
          then count_messages_since (now - hour) t
          else count_actions_since host (seconds (now - hour)) t)
    msg_day ←
        (if by_message
          then count_messages_since (now - day) t
          else count_actions_since host (seconds (now - day)) t)
    msg_total ← (if by_message then count_messages t else count_actions host t)
    has_files ← table_exists t.files
    as_files ← (if has_files then return false else table_exists t.messages)
    sums ←
        (if has_files
          then sum_files t
          else if as_files
          then (count_files t >>= λ n. return (n, 0))
          else return (0, 0))
    transfers_today ←
        (if has_files
          then count_transfers (seconds (now - day)) t
          else if as_files
          then count_files_since (now - day) t
          else return 0)
    return (record {
      generated_at = seconds now;
      network = record {
        nodes_online = nodes;
        peers_known = nodes;
        uptime_seconds = uptime;
        latency_ms = 0;
      };
      users = record {
        total_users = total_users;
        online_now = online_now;
        active_today = active_today;
      };
      messages = record {
        messages_last_hour = msg_hour;
        messages_today = msg_day;
        total_messages = msg_total;
      };
      files = transferred sums transfers_today;
      system = record {
        go_version = host.go_version;
        num_cpu = host.num_cpu;
        memory_alloc = memory_alloc;
        uptime_seconds = uptime;
      };
    })

-- The cache; an empty one has expired at any time.
pub record Cached : Type 0 where
  pub value : Option OverviewResponse
  pub expires_at : ℕ

abbrev pub ttl : ℕ
ttl = 5000

-- What a request finds: the two readings of the clock in `Overview`, before and behind `buildOverview`, the tables,
-- the memory, and the engine's answers. The readings within `buildOverview` are taken to be the first.
pub record World : Type 0 where
  pub now : ℕ
  pub built_at : ℕ
  pub tables : Tables
  pub memory_alloc : ℕ
  pub faults : Faults

abbrev pub empty_cache : Cached
empty_cache = record { value = none; expires_at = 0 }

-- `Overview`; requests come one behind the other. The zero value, which never is answered, is `none`.
unfoldable pub overview : Host → World → Cached → Option OverviewResponse × Cached
unfolding build_overview
overview host w cache =
    let fresh = (build_overview host w.now w.tables w.memory_alloc w.faults).0 in
    if ltb w.now cache.expires_at
    then (cache.value, cache)
    else (some fresh, record { value = some fresh; expires_at = w.built_at + ttl })
