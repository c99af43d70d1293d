-- ===== src/Messaging/Queries/Channels.antt =====
-- Which channels the channel list shows.
use ziyad_messenger.Base.{
  String, Bool, true, false, not, ◌||◌, ◌&&◌, ◌≡◌, ◌↔◌, refl, sym, ap, ◌∙◌, inl, inr, List, [], ◌∷◌,
  ◌++◌, map, Option, none, some, arith, ◌==◌, eq_iff, eq_refl, Bool-cases, select, any,
}
use ziyad_messenger.Messaging.Store.{ChannelView, Db}
use ziyad_messenger.Base.Order.{text_lt}
use ziyad_messenger.Base.Order.Laws.{any-order_by}
use ziyad_messenger.Messaging.Queries.{
  has_member, members_of, left_rows, left_join, joined, is_row_of, same_view, distinct,
  accessible_rows,
}
use ziyad_messenger.Messaging.Queries.Keys.{contains, contains-members_of}

same_view_iff : (a b : ChannelView) → (same_view a b ≡ true) ↔ (a ≡ b)
same_view_iff a b = (
  λ h. ground (arith, eq_iff a.id b.id, eq_iff a.name b.name, eq_iff a.type b.type),
  λ e. rw e (ground (arith, eq_refl b.id, eq_refl b.name, eq_refl b.type)),
)

any-select_other :
    (c y : ChannelView) (xs : List ChannelView)
    → same_view c y ≡ false
    → any (same_view c) (select (λ x. not (same_view y x)) xs) ≡ any (same_view c) xs
any-select_other c y [] h = refl
any-select_other c y (x ∷ xs) h = elim (Bool-cases (same_view y x)) [
  | inl e ↦
      let f : same_view c x ≡ false = rw (← (same_view_iff y x).0 e) h in
      rw (e, f) (any-select_other c y xs h)
  | inr e ↦ rw e (ap (◌||◌ (same_view c x)) (any-select_other c y xs h))
]

any-distinct :
    (c : ChannelView) (xs : List ChannelView)
    → any (same_view c) (distinct xs) ≡ any (same_view c) xs
unfolding distinct
any-distinct c [] = refl
any-distinct c (y ∷ ys) = elim (Bool-cases (same_view c y)) [
  | inl e ↦ rw e refl
  | inr e ↦ rw e (any-select_other c y (distinct ys) e ∙ any-distinct c ys)
]

-- The views that the WHERE clause leaves of a list of rows.
abbrev views : String → List (ChannelView × Option String) → List ChannelView
views u rows = map (λ row. row.0) (select (is_row_of u) rows)

any-views-members :
    (c x : ChannelView) (u : String) (us : List String)
    → any (same_view c) (views u (map (λ v. (x, some v)) us))
      ≡ (same_view c x && (any (λ v. x.type == "public" || v == u) us))
any-views-members c x u [] = ground arith
any-views-members c x u (v ∷ us) = ground (arith, any-views-members c x u us)

abbrev may_list : String → Db → ChannelView → Bool
may_list u d c = c.type == "public" || has_member c.id u d.channel_members

any-views-append :
    (c : ChannelView) (u : String) (xs ys : List (ChannelView × Option String))
    → any (same_view c) (views u (xs ++ ys))
      ≡ (any (same_view c) (views u xs) || any (same_view c) (views u ys))
any-views-append c u [] ys = refl
any-views-append c u ((x, none) ∷ xs) ys = ground (arith, any-views-append c u xs ys)
any-views-append c u ((x, some v) ∷ xs) ys = ground (arith, any-views-append c u xs ys)

any-public :
    (b : Bool) (u v : String) (us : List String)
    → any (λ w. b || w == u) (v ∷ us) ≡ (b || contains u (v ∷ us))
any-public true u v us = refl
any-public false u v us = refl

any-left_rows :
    (c x : ChannelView) (u : String) (us : List String)
    → any (same_view c) (views u (left_rows x us))
      ≡ (same_view c x && (x.type == "public" || contains u us))
any-left_rows c x u [] = ground arith
any-left_rows c x u (v ∷ us) =
    any-views-members c x u (v ∷ us)
    ∙ ap (◌&&◌ (same_view c x)) (any-public (x.type == "public") u v us)

any-left_join :
    (c x : ChannelView) (u : String) (ms : List (String × String))
    → any (same_view c) (views u (left_join x ms))
      ≡ (same_view c x && (x.type == "public" || has_member x.id u ms))
unfolding left_join
any-left_join c x u ms =
    any-left_rows c x u (members_of x.id ms) ∙ rw (contains-members_of x.id u ms) refl

any-joined :
    (c : ChannelView) (u : String) (cs : List ChannelView) (ms : List (String × String))
    → any (same_view c) (views u (joined cs ms))
      ≡ any (λ x. same_view c x && (x.type == "public" || has_member x.id u ms)) cs
unfolding joined
any-joined c u [] ms = refl
any-joined c u (x ∷ cs) ms = ground (
  arith,
  any-views-append c u (left_join x ms) (joined cs ms),
  any-left_join c x u ms,
  any-joined c u cs ms,
)

or_and : (b : Bool) {x : Bool} (y : Bool) → x ≡ (y && b) → (b || x) ≡ b
or_and true y e = refl
or_and false y e = ground arith

any-same :
    (p : ChannelView → Bool) (c : ChannelView) (cs : List ChannelView)
    → any (λ x. same_view c x && p x) cs ≡ (any (same_view c) cs && p c)
any-same p c [] = refl
any-same p c (x ∷ cs) = elim (Bool-cases (same_view c x)) [
  | inl e ↦
      let eq : p x ≡ p c = ap p (sym ((same_view_iff c x).0 e)) in
      rw (e, eq) (or_and (p c) (any (same_view c) cs) (any-same p c cs))
  | inr e ↦ rw e (any-same p c cs)
]

-- The channel list of a user shows a channel just when the table has it and it is public or has the
-- user among its members.
pub accessible_rows_lem :
    (u : String) (d : Db) (c : ChannelView)
    → any (same_view c) (accessible_rows u d) ≡ (any (same_view c) d.channels && may_list u d c)
unfolding accessible_rows
accessible_rows_lem u d c =
    let rows = views u (joined d.channels d.channel_members) in
    any-order_by (λ a b. text_lt a.name b.name) (same_view c) (distinct rows)
    ∙ any-distinct c rows
    ∙ any-joined c u d.channels d.channel_members
    ∙ any-same (may_list u d) c d.channels
