-- ===== src/Admin/Users/Listing.antt =====
-- The list of users against the rows.
use mathlib.Core.List.{Mem, mem-map_of_mem}
use mathlib.Core.List.Perm
use ziyad_messenger.Base.{String, Bool, List, ◌∷◌, map, Option, none, some, ◌≡◌, sym, arith, ltb}
use ziyad_messenger.Base.State.{ok}
use ziyad_messenger.Base.Order.{order_by}
use ziyad_messenger.Base.Order.Laws.{order_by-perm}
use ziyad_messenger.Admin.Store.{UserRow, Service, query}
use ziyad_messenger.Admin.Users.{User, scan_user, list_users}

list_users-scan_user :
    (s : Service) (u : UserRow) (faults : List (Option String))
    → s.faults ≡ none ∷ faults
    → Mem u s.db.users
    → (rows : List User) × ((list_users s).0 ≡ ok rows) × Mem (scan_user u) rows
unfolding list_users query
list_users-scan_user s u faults f m =
    let later_made : UserRow → UserRow → Bool = λ a b. ltb b.created_at a.created_at in
    (
      map scan_user (order_by later_made s.db.users),
      ground arith,
      mem-map_of_mem scan_user {a = u} ((Perm.mem_iff (order_by-perm later_made s.db.users)).1 m),
    )

-- Where the engine answers, a row without NULLs is listed with all its columns.
pub list_users_full :
    (s : Service) (u : UserRow) (full_name role_id department : String)
    (faults : List (Option String))
    → s.faults ≡ none ∷ faults
    → Mem u s.db.users
    → u.full_name ≡ some full_name
    → u.role_id ≡ some role_id
    → u.department_id ≡ some department
    → (rows : List User) × ((list_users s).0 ≡ ok rows)
      × Mem
          (record {
            id = u.id;
            username = u.username;
            full_name = full_name;
            role_id = role_id;
            department_id = department;
            created_at = u.created_at;
            updated_at = u.updated_at;
          })
          rows
unfolding scan_user
list_users_full s u full_name role_id department faults f m named role placed =
    let (rows, listed, among) = list_users-scan_user s u faults f m in
    let whole : scan_user u ≡ record {
      id = u.id;
      username = u.username;
      full_name = full_name;
      role_id = role_id;
      department_id = department;
      created_at = u.created_at;
      updated_at = u.updated_at;
    } =
      ground arith in
    (rows, listed, rw (sym whole) among)

-- Where the engine answers, a row whose department is NULL, as the auth service writes them, is listed with the
-- times 0 whatever its own are.
pub list_users_null :
    (s : Service) (u : UserRow) (faults : List (Option String))
    → s.faults ≡ none ∷ faults
    → Mem u s.db.users
    → u.department_id ≡ none
    → (rows : List User) × (x : User) × ((list_users s).0 ≡ ok rows)
      × Mem x rows
      × (x.id ≡ u.id)
      × (x.created_at ≡ 0)
      × (x.updated_at ≡ 0)
unfolding scan_user
list_users_null s u faults f m placed =
    let (rows, listed, among) = list_users-scan_user s u faults f m in
    (rows, scan_user u, listed, among, ground arith, ground arith, ground arith)
