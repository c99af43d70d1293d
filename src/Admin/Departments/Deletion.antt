-- ===== src/Admin/Departments/Deletion.antt =====
-- Which departments the handler deletes.
use ziyad_messenger.Base.{
  String, Bool, true, false, List, [], ◌∷◌, Option, none, some, ◌≡◌, arith, ◌==◌, any,
  length-select, any-select-not,
}
use ziyad_messenger.Base.State.{ok}
use ziyad_messenger.Admin.Store.{Department, Service, Ctx, query, exec, log, logged, insert_log}
use ziyad_messenger.Admin.Departments.{count_users, delete_department, delete_department_handler}

-- While the engine answers the count, only a department without users is deleted, it was there, and it is gone.
pub delete_department_handler-eq-ok :
    (id : String) (ctx : Ctx) (s s' : Service) (faults : List (Option String))
    → s.faults ≡ none ∷ faults
    → delete_department_handler id ctx s ≡ (ok tt, s')
    → (count_users id s.db ≡ 0)
      × (any (λ (x : Department). x.id == id) s.db.departments ≡ true)
      × (any (λ (x : Department). x.id == id) s'.db.departments ≡ false)
      × (s'.db.users ≡ s.db.users)
unfolding delete_department_handler delete_department query exec logged log insert_log
delete_department_handler-eq-ok id ctx s s' faults f h = (
  ground arith,
  ground (arith, length-select is_it s.db.departments),
  ground (arith, any-select-not is_it s.db.departments),
  ground arith,
)
  where
    is_it : Department → Bool
    is_it x = x.id == id

-- If the engine fails at the count and answers afterwards, a department is deleted whatever users are in it.
pub delete_department_handler_uncounted :
    (id : String) (ctx : Ctx) (s : Service) (text : String)
    → s.faults ≡ some text ∷ []
    → any (λ (x : Department). x.id == id) s.db.departments ≡ true
    → (s' : Service) × (delete_department_handler id ctx s ≡ (ok tt, s'))
      × (any (λ (x : Department). x.id == id) s'.db.departments ≡ false)
      × (count_users id s'.db ≡ count_users id s.db)
unfolding delete_department_handler delete_department query exec logged log insert_log
delete_department_handler_uncounted id ctx s text f h = (
  (delete_department_handler id ctx s).1,
  ground (arith, length-select is_it s.db.departments),
  ground (arith, length-select is_it s.db.departments, any-select-not is_it s.db.departments),
  ground arith,
)
  where
    is_it : Department → Bool
    is_it x = x.id == id
