-- ===== src/Admin/Logs/Pages.antt =====
-- The pages of the log of actions.
use ziyad_messenger.Base.{
  ℕ, zero, suc, ◌≤◌, min, String, Bool, true, List, [], ◌∷◌, Option, none, some, ◌≡◌, refl, arith,
  All, length, select, take, drop, ltb, Bool-cases, inl, inr, tests, ltb→lt, not-ltb→le,
}
use ziyad_messenger.Base.Int.{ℤ, pos, negsuc, atoi, digits}
use ziyad_messenger.Base.State.{ok}
use ziyad_messenger.Base.Order.{order_by}
use ziyad_messenger.Base.Order.Laws.{All-order_by, length-order_by}
use ziyad_messenger.Admin.Store.{LogEntry, Db, Service, query}
use ziyad_messenger.Admin.Logs.{
  matches, newest_first, limited, skipped, get_list, cap, default_query, list_handler,
}

module _ {A : Type 0} where
  All-select : (p : A → Bool) (xs : List A) → All (λ x. p x ≡ true) (select p xs)
  All-select p [] = tt
  All-select p (x ∷ xs) = elim (Bool-cases (p x)) [
    | inl h ↦ rw h (h, All-select p xs)
    | inr h ↦ rw h (All-select p xs)
  ]

  All-take : (P : A → Type 0) (n : ℕ) (xs : List A) → All P xs → All P (take n xs)
  All-take P zero xs h = tt
  All-take P (suc n) [] h = tt
  All-take P (suc n) (x ∷ xs) h = (h.0, All-take P n xs h.1)

  All-drop : (P : A → Type 0) (n : ℕ) (xs : List A) → All P xs → All P (drop n xs)
  All-drop P zero xs h = h
  All-drop P (suc n) [] h = tt
  All-drop P (suc n) (x ∷ xs) h = All-drop P n xs h.1

  length-take_le : (n : ℕ) (xs : List A) → length (take n xs) ≤ n
  length-take_le zero xs = omega arith
  length-take_le (suc n) [] = omega arith
  length-take_le (suc n) (x ∷ xs) = omega (arith, length-take_le n xs)

  select_all : (xs : List A) → select (λ x. true) xs ≡ xs
  select_all [] = refl
  select_all (x ∷ xs) = ground (arith, select_all xs)

All-limited : (P : LogEntry → Type 0) (n : ℤ) (xs : List LogEntry) → All P xs → All P (limited n xs)
unfolding limited
All-limited P (pos n) xs h = All-take P n xs h
All-limited P (negsuc n) xs h = h

All-skipped : (P : LogEntry → Type 0) (n : ℤ) (xs : List LogEntry) → All P xs → All P (skipped n xs)
unfolding skipped
All-skipped P (pos n) xs h = All-drop P n xs h
All-skipped P (negsuc n) xs h = h

page-matches :
    (offset limit : ℤ) (actor_id action : String) (d : Db)
    → All
        (λ (e : LogEntry). matches actor_id action e ≡ true)
        (limited limit
          (skipped offset (order_by newest_first (select (matches actor_id action) d.audit_logs))))
page-matches offset limit actor_id action d =
    let P : LogEntry → Type 0 = λ e. matches actor_id action e ≡ true in
    All-limited P limit _ (
      All-skipped P offset _
        (All-order_by newest_first P _ (All-select (matches actor_id action) d.audit_logs)))

length-capped : (n : ℕ) (xs : List LogEntry) → length (limited (cap (pos n)) xs) ≤ min n 200
unfolding limited
length-capped n xs = elim (Bool-cases (ltb 200 n)) [
  | inl h ↦ rw h (omega (tests, length-take_le 200 xs, ltb→lt 200 n h))
  | inr h ↦ rw h (omega (tests, length-take_le n xs, not-ltb→le 200 n h))
]

abbrev page : ℤ → ℤ → String → String → Db → List LogEntry
page offset limit actor_id action d =
    limited limit
      (skipped offset (order_by newest_first (select (matches actor_id action) d.audit_logs)))

list_handler-eq-ok :
    (offset limit : Option String) (actor action : String) (s s' : Service) (rows : List LogEntry)
    → list_handler offset limit actor action s ≡ (ok rows, s')
    → rows
      ≡ page
          (atoi (default_query "0" offset))
          (cap (atoi (default_query "50" limit)))
          actor
          action
          s.db
unfolding list_handler get_list query
list_handler-eq-ok offset limit actor action s s' rows h = ground arith

-- A page whose limit is not negative holds entries of the actor and the action that were asked for, no more than
-- the limit and no more than two hundred.
pub list_handler-IsPage :
    (offset limit : Option String) (actor action : String) (s s' : Service) (rows : List LogEntry)
    (n : ℕ)
    → atoi (default_query "50" limit) ≡ pos n
    → list_handler offset limit actor action s ≡ (ok rows, s')
    → (length rows ≤ min n 200) × All (λ (e : LogEntry). matches actor action e ≡ true) rows
list_handler-IsPage offset limit actor action s s' rows n l h =
    let o = atoi (default_query "0" offset) in
    rw (list_handler-eq-ok offset limit actor action s s' rows h, l)
      (
        length-capped n
            (skipped o (order_by newest_first (select (matches actor action) s.db.audit_logs))),
        page-matches o (cap (pos n)) actor action s.db,
      )

-- Under the limit -1 the whole log is one page.
pub list_handler_unbounded :
    (s : Service)
    → s.faults ≡ []
    → (rows : List LogEntry) × ((list_handler none (some "-1") "" "" s).0 ≡ ok rows)
      × (length rows ≡ length s.db.audit_logs)
unfolding list_handler get_list query limited skipped matches atoi digits
list_handler_unbounded s h = (
  order_by newest_first (select (λ (e : LogEntry). true) s.db.audit_logs),
  ground arith,
  ground (
    arith,
    length-order_by newest_first (select (λ (e : LogEntry). true) s.db.audit_logs),
    select_all s.db.audit_logs,
  ),
)
