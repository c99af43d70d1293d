-- ===== src/Admin/Logs.antt =====
-- backend/admin-api/internal/audit/{audit,handler}.go: `GetList` and `ListHandler`. `Log` is in Store.
pub mod Pages
use ziyad_messenger.Base.{
  ℕ, String, Bool, true, false, ◌&&◌, ◌||◌, List, [], ◌∷◌, Option, none, some, ◌==◌, ltb, select,
  take, drop, if◌then◌else◌,
}
use ziyad_messenger.Base.Int.{ℤ, pos, negsuc, atoi}
use ziyad_messenger.Base.State.{Result, ok, err}
use ziyad_messenger.Base.Order.{order_by}
use ziyad_messenger.Admin.Store.{LogEntry, Db, Service, M, query, Stop, or_500}

-- The WHERE clause that the arguments build.
unfoldable pub matches : String → String → LogEntry → Bool
matches actor_id action e =
    (actor_id == "" || e.actor_id == actor_id) && (action == "" || e.action == action)

abbrev newest_first : LogEntry → LogEntry → Bool
newest_first a b = ltb b.timestamp a.timestamp

-- LIMIT ? OFFSET ?: a negative limit is none, a negative offset is 0.
unfoldable pub limited : ℤ → List LogEntry → List LogEntry
limited (pos n) rows = take n rows
limited (negsuc n) rows = rows

unfoldable pub skipped : ℤ → List LogEntry → List LogEntry
skipped (pos n) rows = drop n rows
skipped (negsuc n) rows = rows

unfoldable pub get_list : ℤ → ℤ → String → String → M String (List LogEntry)
unfolding matches limited skipped
get_list offset limit actor_id action = query λ d. ok (
    limited limit
      (skipped offset (order_by newest_first (select (matches actor_id action) d.audit_logs))))

abbrev cap : ℤ → ℤ
cap (pos n) = if ltb 200 n then pos 200 else pos n
cap (negsuc n) = negsuc n

-- `c.DefaultQuery`: the default stands for a parameter that the URL does not have.
abbrev pub default_query : String → Option String → String
default_query d none = d
default_query d (some s) = s

unfoldable pub list_handler :
    Option String → Option String → String → String → M Stop (List LogEntry)
unfolding get_list
list_handler offset limit actor_id action = or_500 (
    get_list (atoi (default_query "0" offset)) (cap (atoi (default_query "50" limit))) actor_id
      action)
